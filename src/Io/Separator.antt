-- ===== src/Io/Separator.antt =====
-- `read_until_separator` of src/utils/io.rs. `twoway::find_bytes` is an argument. The loop has no
-- exit at the end of the stream, so it runs on fuel: a read at the end gives no bytes, and the loop
-- goes on.
pub mod Finding
use rsnova.Base.{ℕ, zero, suc, ◌+◌, Option, none, some, List, [], ◌∷◌, ◌++◌, length, take, drop}
use rsnova.Base.Outcome.{Outcome, ok, err, stuck, failed}
use rsnova.Crypto.Reader.{Read, bytes, broken}

-- The two parts, and the reads that are left.
pub record Split : Type 0 where
  pub head : List ℕ
  pub body : List ℕ
  pub reads : List Read

-- `find_bytes(&buf, separator)`
abbrev pub Finder : Type 0
Finder = List ℕ → List ℕ → Option ℕ

module _ (find_bytes : Finder) (separator : List ℕ) where
  -- `buf.split_off(pos + wsize)`, or one more round.
  abbrev pub split_or : Outcome Split → List ℕ → List Read → Option ℕ → Outcome Split
  split_or again buf reads none = again
  split_or again buf reads (some i) =
      let n = i + length separator in
      ok (record { head = take n buf; body = drop n buf; reads = reads })

  unfoldable pub read_until : ℕ → List ℕ → List Read → Outcome Split
  read_until zero buf reads = stuck
  read_until (suc fuel) buf [] = split_or (read_until fuel buf []) buf [] (find_bytes buf separator)
  read_until (suc fuel) buf (broken ∷ rs) = err failed
  read_until (suc fuel) buf (bytes b ∷ rs) =
      split_or (read_until fuel (buf ++ b) rs) (buf ++ b) rs (find_bytes (buf ++ b) separator)

  unfoldable pub read_until_separator : ℕ → List Read → Outcome Split
  unfolding read_until
  read_until_separator fuel reads = read_until fuel [] reads
