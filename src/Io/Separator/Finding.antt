-- ===== src/Io/Separator/Finding.antt =====
-- When `read_until_separator` (src/utils/io.rs) returns, and what.
use rsnova.Base.{
  ℕ, zero, suc, ◌+◌, ◌<◌, ◌≤◌, ◌≡◌, refl, sym, ◌∙◌, ap, inl, inr, Option, none, some, List, [], ◌∷◌,
  ◌++◌, length, take, drop, arith, Option-cases, append-nil, append_assoc, take-append-drop,
}
use rsnova.Base.Text.{first_index, first_index-append}
use rsnova.Base.Outcome.{Outcome, ok, stuck}
use rsnova.Crypto.Reader.{Read, bytes, broken}
use rsnova.Crypto.Reader.Stream.{incoming, AllData}
use rsnova.Io.Separator.{Split, Finder, read_until, read_until_separator}

-- What is documented of `twoway::find_bytes`: the first place, or none.
abbrev pub FindsFirst : Finder → Type 0
FindsFirst find = (buf needle : List ℕ) → find buf needle ≡ first_index needle buf

-- The head ends with the first separator of the stream, and nothing is lost.
pub record Splits (separator all : List ℕ) (i : ℕ) (s : Split) : Type 0 where
  pub head : s.head ≡ take (i + length separator) all
  pub kept : s.head ++ (s.body ++ incoming s.reads) ≡ all
  pub rest : AllData s.reads

module _ (find : Finder) (law : FindsFirst find) (sep : List ℕ) where
  take-append_le : (n : ℕ) (xs ys : List ℕ) → n ≤ length xs → take n (xs ++ ys) ≡ take n xs
  take-append_le zero xs ys h = refl
  take-append_le (suc n) [] ys h = absurd (omega arith)
  take-append_le (suc n) (x ∷ xs) ys h = ap (λ t. x ∷ t) (take-append_le n xs ys (omega arith))

  some-inj : (i j : ℕ) → some i ≡ some j → i ≡ j
  some-inj i j h = ground (arith, h)

  found_in :
      (buf : List ℕ) (reads : List Read) (all : List ℕ) (i j : ℕ)
      → AllData reads
      → buf ++ incoming reads ≡ all
      → first_index sep all ≡ some i
      → first_index sep buf ≡ some j
      → Splits sep all i (record {
        head = take (j + length sep) buf;
        body = drop (j + length sep) buf;
        reads = reads;
      })
  found_in buf reads all i j d e fi fj =
      let (f, fits) = first_index-append sep buf (incoming reads) j fj in
      let same : j ≡ i = some-inj j i (sym f ∙ ap (first_index sep) e ∙ fi) in
      let n = j + length sep in
      record {
        head =
            sym (take-append_le n buf (incoming reads) fits)
            ∙ ap (take n) e
            ∙ ap (λ k. take (k + length sep) all) same;
        kept =
            sym (append_assoc (take n buf) (drop n buf) (incoming reads))
            ∙ ap (λ b. b ++ incoming reads) (take-append-drop n buf)
            ∙ e;
        rest = d;
      }

  read_until-finds :
      (fuel : ℕ) (buf : List ℕ) (reads : List Read) (all : List ℕ) (i : ℕ)
      → length reads < fuel
      → AllData reads
      → buf ++ incoming reads ≡ all
      → first_index sep all ≡ some i
      → (s : Split) × (read_until find sep fuel buf reads ≡ ok s) × Splits sep all i s
  unfolding read_until
  read_until-finds zero buf reads all i l d e fi = absurd (omega arith)
  read_until-finds (suc fuel) buf [] all i l d e fi =
      let here = ap (first_index sep) (sym (append-nil buf) ∙ e) ∙ fi in
      (_, rw (law buf sep ∙ here) refl, found_in buf [] all i i d e fi here)
  read_until-finds (suc fuel) buf (broken ∷ rs) all i l d e fi = absurd d
  read_until-finds (suc fuel) buf (bytes b ∷ rs) all i l d e fi =
      let e' = append_assoc buf b (incoming rs) ∙ e in
      elim (Option-cases (first_index sep (buf ++ b))) [
        | inl later ↦
            let (s, r, h) = read_until-finds fuel (buf ++ b) rs all i (omega arith) d.1 e' fi in
            (s, rw (law (buf ++ b) sep ∙ later) r, h)
        | inr (j, here) ↦
            (_, rw (law (buf ++ b) sep ∙ here) refl, found_in (buf ++ b) rs all i j d.1 e' fi here)
      ]

  none_before : (xs ys : List ℕ) → first_index sep (xs ++ ys) ≡ none → first_index sep xs ≡ none
  none_before xs ys h = elim (Option-cases (first_index sep xs)) [
    | inl e ↦ e
    | inr (i, e) ↦ cc ((first_index-append sep xs ys i e).0)
  ]

  read_until-never :
      (fuel : ℕ) (buf : List ℕ) (reads : List Read)
      → AllData reads
      → first_index sep (buf ++ incoming reads) ≡ none
      → read_until find sep fuel buf reads ≡ stuck
  unfolding read_until
  read_until-never zero buf reads d h = refl
  read_until-never (suc fuel) buf [] d h =
      rw (law buf sep ∙ none_before buf [] h) (read_until-never fuel buf [] d h)
  read_until-never (suc fuel) buf (broken ∷ rs) d h = absurd d
  read_until-never (suc fuel) buf (bytes b ∷ rs) d h =
      let h' = ap (first_index sep) (append_assoc buf b (incoming rs)) ∙ h in
      rw (law (buf ++ b) sep ∙ none_before (buf ++ b) (incoming rs) h')
        (read_until-never fuel (buf ++ b) rs d.1 h')

  -- What a call comes to, by where the separator first stands in the stream.
  abbrev pub Ends : List ℕ → Option ℕ → Outcome Split → Type 0
  Ends all none r = r ≡ stuck
  Ends all (some i) r = (s : Split) × (r ≡ ok s) × Splits sep all i s

  -- Any stream that does not fail, cut into reads of one byte or more in any way, with more rounds
  -- than there are reads. If the separator stands in the stream, the call returns the bytes up to the
  -- end of the first one, and of what it read behind it and what is still to be read nothing is
  -- lost. If it does not, the call has not returned, however many rounds it was given.
  pub read_until_separator-Ends :
      (fuel : ℕ) (reads : List Read)
      → length reads < fuel
      → AllData reads
      → Ends
          (incoming reads)
          (first_index sep (incoming reads))
          (read_until_separator find sep fuel reads)
  unfolding read_until_separator
  read_until_separator-Ends fuel reads l d = by_place (first_index sep (incoming reads)) refl
    where
      by_place :
          (o : Option ℕ)
          → first_index sep (incoming reads) ≡ o
          → Ends (incoming reads) o (read_until find sep fuel [] reads)
      by_place none e = read_until-never fuel [] reads d e
      by_place (some i) e = read_until-finds fuel [] reads (incoming reads) i l d refl e
