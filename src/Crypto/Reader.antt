-- ===== src/Crypto/Reader.antt =====
-- `read_encrypt_event` and `write_encrypt_event` of src/rmux/crypto.rs over a connection.
-- What a read returns is up to the environment: some bytes, none at the end, or a failure. The
-- spare capacity that the loop reserves bounds a read and leaves no other trace, so the number
-- `next_read_n` matters by its being zero or not.
pub mod Stream
use Prim.Native.String.{String}
use Prim.Native.String
use rsnova.Base.{
  ℕ, zero, suc, ◌+◌, Bool, true, false, ◌&&◌, Option, none, some, List, [], ◌∷◌, ◌++◌, length, ltb,
  if◌then◌else◌,
}
use rsnova.Base.Outcome.{Outcome, ok, err, stuck, Error, other, failed}
use rsnova.Event.{Event}
use rsnova.Crypto.Primitives.{Cipher}
use rsnova.Crypto.{CryptoContext, DecryptResult, decoded, error, decrypt, encrypt}

pub data Read : Type 0 where
  bytes : List ℕ → Read
  broken : Read

-- What is left of a connection after a call: the context, the buffer and the reads to come.
pub record Connection : Type 0 where
  pub ctx : CryptoContext
  pub recv_buf : List ℕ
  pub reads : List Read

-- A read of no bytes is the end of the stream, and so is the end of the list.
pub data Arrival : Type 0 where
  arrived : List ℕ → List Read → Arrival
  closed : Arrival
  faulted : Arrival

abbrev pub next_read : List Read → Arrival
next_read [] = closed
next_read (broken ∷ rs) = faulted
next_read (bytes [] ∷ rs) = closed
next_read (bytes (b ∷ bs) ∷ rs) = arrived (b ∷ bs) rs

abbrev pub reason_is_empty : String → Bool
reason_is_empty String.[] = true
reason_is_empty (String.◌∷◌ c s) = false

abbrev pub raise_read_n : ℕ → ℕ
raise_read_n n = if ltb 0 n && ltb n 4096 then 4096 else n

module _ (p : Cipher) where
  -- The loop's `match r`: return, fail, or go on with the number of missing bytes.
  pub after_decrypt :
      (ℕ → Connection → Outcome (Option (Event × Connection)))
      → List Read
      → DecryptResult × CryptoContext × List ℕ
      → Outcome (Option (Event × Connection))
  after_decrypt again reads (decoded ev, ctx, buf) =
      ok (some (ev, record { ctx = ctx; recv_buf = buf; reads = reads }))
  after_decrypt again reads (error n reason, ctx, buf) =
      let more = again n (record { ctx = ctx; recv_buf = buf; reads = reads }) in
      if reason_is_empty reason then more else err (other reason)

  pub after_read :
      (ℕ → Connection → Outcome (Option (Event × Connection)))
      → CryptoContext
      → List ℕ
      → Arrival
      → Outcome (Option (Event × Connection))
  unfolding after_decrypt
  after_read again ctx buf closed = ok none
  after_read again ctx buf faulted = err failed
  after_read again ctx buf (arrived chunk reads) =
      after_decrypt again reads (decrypt p ctx (buf ++ chunk))

  pub read_loop : ℕ → ℕ → Connection → Outcome (Option (Event × Connection))
  unfolding after_read
  read_loop zero next_read_n c = stuck
  read_loop (suc fuel) next_read_n c =
      let with_read = after_read (read_loop fuel) c.ctx c.recv_buf (next_read c.reads) in
      let without = after_decrypt (read_loop fuel) c.reads (decrypt p c.ctx c.recv_buf) in
      if ltb 0 (raise_read_n next_read_n) then with_read else without

  -- The first round does not read, and every later one takes a read.
  unfoldable pub read_encrypt_event : Connection → Outcome (Option (Event × Connection))
  unfolding read_loop
  read_encrypt_event c = read_loop (length c.reads + 3) 0 c

  -- The bytes go out by `write_all`, which fails or takes them all.
  unfoldable pub write_encrypt_event :
      CryptoContext → Event → Bool → List ℕ → Outcome (CryptoContext × List ℕ)
  write_encrypt_event ctx ev writes sent =
      let (ctx', buf) = encrypt p ctx ev [] in if writes then ok (ctx', sent ++ buf) else err failed
