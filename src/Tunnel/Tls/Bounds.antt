-- ===== src/Tunnel/Tls/Bounds.antt =====
-- The indices and slices that `peek_sni` (src/tunnel/tls.rs) takes of the record.
use Prim.Native.String.{String}
use rsnova.Base.{
  ℕ, zero, suc, ◌+◌, ◌*◌, ◌%◌, ◌<◌, ◌≤◌, ◌≡◌, refl, ◌∙◌, ap, Bool, true, false, ◌||◌, inl, inr,
  Option, none, some, List, [], ◌∷◌, length, drop, length-drop, ltb, ltb→lt, ltb→le, ◌==◌, arith,
  Bool-cases, if_elim,
}
use rsnova.Base.Outcome.{Outcome, ok, err, panic, stuck, ◌>>=◌}
use rsnova.Base.Slice.{index, slice_from}
use rsnova.Tunnel.Tls.{
  word_at, refuse, find_name, server_name, or_go_on, scan_extensions, after_session_id,
}

-- A value that has the property, an error, or a panic for that reason.
abbrev pub Yields {ℓ} : {A : Type ℓ} → (A → Type 0) → Type 0 → Outcome A → Type 0
Yields P X (ok a) = P a
Yields P X (err e) = Unit
Yields P X panic = X
Yields P X stuck = ⊥

abbrev pub Any {ℓ} : {A : Type ℓ} → A → Type 0
Any a = Unit

module _ (X : Type 0) where
  pub bind {ℓ κ} :
      {A : Type ℓ} {B : Type κ} (P : A → Type 0) (Q : B → Type 0) (m : Outcome A)
      (f : A → Outcome B)
      → Yields P X m
      → ((a : A) → P a → Yields Q X (f a))
      → Yields Q X (m >>= f)
  bind P Q (ok a) f y h = h a y
  bind P Q (err e) f y h = tt
  bind P Q panic f y h = y
  bind P Q stuck f y h = y

  pub refuse-Yields {ℓ} :
      {A : Type ℓ} (P : A → Type 0) (bad : Bool) (why : String) (later : Outcome A)
      → (bad ≡ false → Yields P X later)
      → Yields P X (refuse bad why later)
  refuse-Yields P true why later h = tt
  refuse-Yields P false why later h = h refl

  pub index-Yields :
      (xs : List ℕ) (i : ℕ) → i < length xs → Yields (λ a. index xs i ≡ ok a) X (index xs i)
  index-Yields [] i l = absurd (omega arith)
  index-Yields (x ∷ xs) zero l = refl
  index-Yields (x ∷ xs) (suc i) l = index-Yields xs i (omega arith)

  pub word_at-Yields :
      (xs : List ℕ) (i : ℕ) → i + 1 < length xs → Yields (λ n. word_at xs i ≡ ok n) X (word_at xs i)
  word_at-Yields xs i l =
      go (index xs i) (index xs (i + 1)) (index-Yields xs i (omega arith))
        (index-Yields xs (i + 1) l)
    where
      go :
          (a b : Outcome ℕ)
          → Yields (λ n. index xs i ≡ ok n) X a
          → Yields (λ n. index xs (i + 1) ≡ ok n) X b
          → Yields (λ n. word_at xs i ≡ ok n) X (a >>= λ hi. b >>= λ lo. ok (hi * 256 + lo))
      go (ok a) (ok b) h k = rw (h, k) refl
      go (ok a) (err e) h k = tt
      go (ok a) panic h k = k
      go (ok a) stuck h k = k
      go (err e) b h k = tt
      go panic b h k = h
      go stuck b h k = h

  pub slice_from-Yields :
      (n : ℕ) (xs : List ℕ) → n ≤ length xs → Yields (λ ys. ys ≡ drop n xs) X (slice_from n xs)
  slice_from-Yields n xs l = elim (Bool-cases (ltb (length xs) n)) [
    | inl long ↦ absurd (omega (arith, ltb→lt _ _ long))
    | inr fits ↦ rw fits refl
  ]

  find_name-Yields : (k : ℕ) (dat : List ℕ) → Yields Any X (find_name k dat)
  unfolding find_name
  find_name-Yields zero dat = tt
  find_name-Yields (suc k) dat = refuse-Yields Any (ltb (length dat) 3) _ _ λ e.
      let long = ltb→le _ _ e in
      bind _ Any (index dat 0) _ (index-Yields dat 0 (omega arith)) λ name_type _.
        bind _ Any (word_at dat 1) _ (word_at-Yields dat 1 (omega arith)) λ name_len _.
          bind _ Any (slice_from 3 dat) _ (slice_from-Yields 3 dat (omega arith)) λ names _.
            refuse-Yields Any (ltb (length names) name_len) _ _ λ fits.
              if_elim (Yields Any X) tt
                (bind _ Any (slice_from name_len names) _
                  (slice_from-Yields name_len names (ltb→le _ _ fits))
                  λ rest _. find_name-Yields k rest)
                (name_type == 0)

  server_name-Yields :
      (extension len : ℕ) (ext_buf : List ℕ)
      → len ≤ length ext_buf
      → Yields Any X (server_name extension len ext_buf)
  unfolding server_name
  server_name-Yields extension len ext_buf l =
      if_elim (Yields Any X)
        (refuse-Yields Any (ltb len 2) _ _ λ e.
          let long = ltb→le _ _ e in
          bind _ Any (word_at ext_buf 0) _ (word_at-Yields ext_buf 0 (omega arith)) λ num_names _.
            bind _ Any (slice_from 2 ext_buf) _ (slice_from-Yields 2 ext_buf (omega arith))
              λ dat _. find_name-Yields num_names dat)
        tt (extension == 0)

  or_go_on-Yields :
      (later : Outcome (List ℕ)) (found : Option (List ℕ))
      → Yields Any X later
      → Yields Any X (or_go_on later found)
  or_go_on-Yields later none y = y
  or_go_on-Yields later (some name) y = tt

  scan_extensions-Yields :
      (fuel : ℕ) (ext_buf : List ℕ)
      → length ext_buf < fuel
      → Yields Any X (scan_extensions fuel ext_buf)
  unfolding scan_extensions
  scan_extensions-Yields zero ext_buf l = absurd (omega arith)
  scan_extensions-Yields (suc fuel) ext_buf l = refuse-Yields Any (ltb (length ext_buf) 4) _ _ λ e.
      let long = ltb→le _ _ e in
      bind _ Any (word_at ext_buf 0) _ (word_at-Yields ext_buf 0 (omega arith)) λ extension _.
        bind _ Any (word_at ext_buf 2) _ (word_at-Yields ext_buf 2 (omega arith)) λ len _.
          bind _ Any (slice_from 4 ext_buf) _ (slice_from-Yields 4 ext_buf (omega arith)) λ rest r.
            refuse-Yields Any (ltb (length rest) len) _ _ λ f.
              let fits = ltb→le _ _ f in
              let shorter : length rest < fuel =
                omega (arith, ap length r, length-drop 4 ext_buf) in
              bind Any Any (server_name extension len rest) _
                (server_name-Yields extension len rest fits)
                λ found _.
                  let more =
                    bind _ Any (slice_from len rest) _ (slice_from-Yields len rest fits) (λ later d.
                      scan_extensions-Yields fuel later
                        (omega (arith, ap length d, length-drop len rest))) in
                  or_go_on-Yields (slice_from len rest >>= scan_extensions fuel) found more

  pub after_session_id-Yields : (rest : List ℕ) → Yields Any X (after_session_id rest)
  unfolding after_session_id
  after_session_id-Yields rest0 = refuse-Yields Any (ltb (length rest0) 2) _ _ λ e0.
      let l0 = ltb→le _ _ e0 in
      bind _ Any (word_at rest0 0) _ (word_at-Yields rest0 0 (omega arith)) λ cipher_len _.
        refuse-Yields Any (cipher_len % 2 == 1 || ltb (length rest0) (3 + cipher_len)) _ _ λ e1.
          let l1 : 3 + cipher_len ≤ length rest0 = ground (arith, e1) in
          bind _ Any (slice_from (2 + cipher_len) rest0) _
            (slice_from-Yields (2 + cipher_len) rest0 (omega arith))
            λ rest1 r1.
              let p1 = ap length r1 ∙ length-drop (2 + cipher_len) rest0 in
              bind _ Any (index rest1 0) _ (index-Yields rest1 0 (omega (arith, p1)))
                λ compress_len _.
                  refuse-Yields Any (ltb (length rest1) (1 + compress_len)) _ _ λ e2.
                    let l2 = ltb→le _ _ e2 in
                    bind _ Any (slice_from (1 + compress_len) rest1) _
                      (slice_from-Yields (1 + compress_len) rest1 l2)
                      λ rest2 _. refuse-Yields Any (ltb (length rest2) 2) _ _ λ e3.
                        let l3 = ltb→le _ _ e3 in
                        bind _ Any (word_at rest2 0) _ (word_at-Yields rest2 0 (omega arith))
                          λ ext_len _.
                            bind _ Any (slice_from 2 rest2) _
                              (slice_from-Yields 2 rest2 (omega arith))
                              λ rest3 _.
                                refuse-Yields {A = List ℕ} Any (ltb (length rest3) ext_len) _ _ λ _.
                                  refuse-Yields {A = List ℕ} Any (ext_len == 0) _ _ λ _.
                                    scan_extensions-Yields (length rest3 + 1) rest3 (omega arith)
