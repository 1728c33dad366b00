-- ===== src/Base/Text.antt =====
-- Texts as lists of bytes: constants of the source, the case of ASCII letters, and searching.
use Prim.Native.Char.{code}
use Prim.Native.Nat.{ℕ, suc, ◌+◌, ◌-◌, ◌≤◌}
use Prim.Native.String.{String}
use mathlib.Core.Path.{◌≡◌, refl, sym, ap, ◌∙◌}
use mathlib.Core.Logic.{◌↔◌, inl, inr}
use mathlib.Core.Bool.{Bool, true, false, ◌&&◌, ◌||◌}
use mathlib.Core.Option.{Option, none, some}
use mathlib.Core.List.{List, [], ◌∷◌, ◌++◌, map}
use native.Mathlib.Omega.{arith}
use rsnova.Base.Tests.{leb, ◌==◌, Bool-cases, if◌then◌else◌}
use rsnova.Base.Lists.{length}

-- The bytes of an ASCII text.
abbrev pub codes : String → List ℕ
codes String.[] = []
codes (String.◌∷◌ c s) = code c ∷ codes s

abbrev pub to_lower : ℕ → ℕ
to_lower c = if leb b'A' c && leb c b'Z' then c + 32 else c

abbrev pub to_upper : ℕ → ℕ
to_upper c = if leb b'a' c && leb c b'z' then c - 32 else c

abbrev pub to_ascii_lowercase : List ℕ → List ℕ
to_ascii_lowercase s = map to_lower s

abbrev pub same_bytes : List ℕ → List ℕ → Bool
same_bytes [] [] = true
same_bytes [] (y ∷ ys) = false
same_bytes (x ∷ xs) [] = false
same_bytes (x ∷ xs) (y ∷ ys) = x == y && same_bytes xs ys

abbrev pub starts_with : List ℕ → List ℕ → Bool
starts_with [] hay = true
starts_with (c ∷ cs) [] = false
starts_with (c ∷ cs) (x ∷ xs) = c == x && starts_with cs xs

abbrev pub one_on : Option ℕ → Option ℕ
one_on none = none
one_on (some i) = some (suc i)

-- The first place where the needle stands.
unfoldable pub first_index : List ℕ → List ℕ → Option ℕ
first_index needle [] = if starts_with needle [] then some 0 else none
first_index needle (x ∷ xs) =
    let later = one_on (first_index needle xs) in
    if starts_with needle (x ∷ xs) then some 0 else later

abbrev pub found : Option ℕ → Bool
found none = false
found (some i) = true

-- `str::contains` and `str::find` of a pattern.
unfoldable pub contains : List ℕ → List ℕ → Bool
unfolding first_index
contains needle hay = found (first_index needle hay)

-- Whether a byte occurs.
unfoldable pub has : ℕ → List ℕ → Bool
has c [] = false
has c (x ∷ xs) = c == x || has c xs

pub same_bytes_iff : (xs ys : List ℕ) → (same_bytes xs ys ≡ true) ↔ (xs ≡ ys)
same_bytes_iff [] [] = (λ h. refl, λ h. refl)
same_bytes_iff [] (y ∷ ys) = (λ h. cc, λ h. cc)
same_bytes_iff (x ∷ xs) [] = (λ h. cc, λ h. cc)
same_bytes_iff (x ∷ xs) (y ∷ ys) = ground (arith, same_bytes_iff xs ys)

starts_with-append :
    (n xs ys : List ℕ) → length n ≤ length xs → starts_with n (xs ++ ys) ≡ starts_with n xs
starts_with-append [] xs ys h = refl
starts_with-append (c ∷ cs) [] ys h = absurd (omega arith)
starts_with-append (c ∷ cs) (x ∷ xs) ys h =
    ap (λ b. c == x && b) (starts_with-append cs xs ys (omega arith))

starts_with-length : (n xs : List ℕ) → starts_with n xs ≡ true → length n ≤ length xs
starts_with-length [] xs h = omega arith
starts_with-length (c ∷ cs) [] h = cc
starts_with-length (c ∷ cs) (x ∷ xs) h = ground (arith, starts_with-length cs xs)

one_on-some : (o : Option ℕ) (i : ℕ) → one_on o ≡ some i → (j : ℕ) × (o ≡ some j) × (i ≡ suc j)
one_on-some none i h = cc
one_on-some (some j) i h = (j, refl, cc)

-- A needle that is found stands within the text, and is found at the same place if the text goes on.
pub first_index-append :
    (n xs ys : List ℕ) (i : ℕ)
    → first_index n xs ≡ some i
    → (first_index n (xs ++ ys) ≡ some i) × (i + length n ≤ length xs)
unfolding first_index
first_index-append [] [] [] i h = (h, ground (arith, h))
first_index-append [] [] (y ∷ ys) i h = (h, ground (arith, h))
first_index-append (c ∷ cs) [] ys i h = cc
first_index-append n (x ∷ xs) ys i h = elim (Bool-cases (starts_with n (x ∷ xs))) [
  | inl s ↦
      let fits = starts_with-length n (x ∷ xs) s in
      let t = starts_with-append n (x ∷ xs) ys fits ∙ s in
      let zero_i : some 0 ≡ some i = rw s at h in (rw t zero_i, ground (arith, zero_i, fits))
  | inr s ↦
      let h' : one_on (first_index n xs) ≡ some i = rw s at h in
      let (j, e, ij) = one_on-some (first_index n xs) i h' in
      let (later, fits) = first_index-append n xs ys j e in
      let t = starts_with-append n (x ∷ xs) ys (omega arith) ∙ s in
      (rw (t, later) (ap some (sym ij)), omega (arith, ij, fits))
]
