-- ===== src/Crypto/Context.antt =====
-- `CryptoContext::new` of src/rmux/crypto.rs: which methods give a context, and what it holds.
use Prim.Native.String.{String}
use text.Mathlib.Text.{◌==◌ as str_eq}
use text.Mathlib.TextEquality.{eq_iff}
use rsnova.Base.{
  ℕ, zero, suc, ◌+◌, ◌≤◌, ◌≡◌, refl, inl, inr, ◌⊎◌, false, some, none, List, [], ◌∷◌, ◌++◌, length,
  take, le→ltb, ==_iff, arith, length-append, length-take, Bool-cases,
}
use rsnova.Base.Outcome.{ok, panic}
use rsnova.Crypto.Primitives.{Cipher, IsCipher, Algorithm, chacha20_poly1305, aes_128_gcm}
use rsnova.Crypto.RoundTrip.{InSync}
use rsnova.Crypto.{Key, CryptoContext, pad_key, make_key, with_keys, new}

pub length-pad_key : (fuel : ℕ) (k : List ℕ) → 32 ≤ length k + fuel → 32 ≤ length (pad_key fuel k)
unfolding pad_key
length-pad_key zero k h = omega arith
length-pad_key (suc fuel) k h = ground (
  arith,
  length-append k (b'F' ∷ []),
  length-pad_key fuel (k ++ (b'F' ∷ [])) (omega (arith, length-append k (b'F' ∷ []))),
)

abbrev pub IsSupported : String → Type 0
IsSupported m = (m ≡ "chacha20poly1305") ⊎ (m ≡ "none") ⊎ (m ≡ "aes128gcm")

-- A context whose own two sides agree, so that two ends that build it from the same method, key and
-- nonce are in step.
pub record IsFresh (nonce : ℕ) (c : CryptoContext) : Type 0 where
  pub sync : InSync c c
  pub padded : 32 ≤ length c.key
  pub start : c.nonce ≡ nonce

unsupported :
    (m : String)
    → str_eq m "chacha20poly1305" ≡ false
    → str_eq m "none" ≡ false
    → str_eq m "aes128gcm" ≡ false
    → ¬ IsSupported m
unsupported m e f g (inl h) = cc ((eq_iff m "chacha20poly1305").1 h)
unsupported m e f g (inr (inl h)) = cc ((eq_iff m "none").1 h)
unsupported m e f g (inr (inr h)) = cc ((eq_iff m "aes128gcm").1 h)

module _ (p : Cipher) where
  make_key-ok :
      (a : Algorithm) (key : List ℕ) (nonce : ℕ)
      → length key ≡ p.key_len a
      → make_key p a key nonce ≡ ok (record { algorithm = a; key_bytes = key; sequence = nonce })
  unfolding make_key
  make_key-ok a key nonce h = rw ((==_iff _ _).1 h)

  with_keys-IsFresh :
      (a : Algorithm) (n : ℕ) (key : List ℕ) (nonce : ℕ)
      → p.key_len a ≡ n
      → n ≤ 32
      → 32 ≤ length key
      → (c : CryptoContext) × (with_keys p a n key nonce ≡ ok c) × IsFresh nonce c
  unfolding with_keys
  with_keys-IsFresh a n key nonce hn small h =
      let k : Key = record { algorithm = a; key_bytes = take n key; sequence = nonce } in
      let c : CryptoContext = record {
        key = key;
        nonce = nonce;
        sealing_key = some k;
        opening_key = some k;
      } in
      let m = make_key-ok a (take n key) nonce (omega (arith, length-take n key)) in
      (
        c,
        rw (le→ltb (length key) n (omega arith), m),
        record {
          sync = record { key = refl; nonce = refl; cipher = refl };
          padded = h;
          start = refl;
        },
      )

  -- `new` gives a context with a padded key and the given nonce for the three methods, whatever the
  -- key string, and panics for every other method.
  pub new_cases :
      (law : IsCipher p) (method : String) (k : List ℕ) (nonce : ℕ)
      → (IsSupported method
          × ((c : CryptoContext) × (new p method k nonce ≡ ok c) × IsFresh nonce c))
        ⊎ (¬ IsSupported method × (new p method k nonce ≡ panic))
  new_cases law method k nonce =
      let long = length-pad_key 32 k (omega arith) in
      unfold new in
      elim (Bool-cases (str_eq method "chacha20poly1305")) [
        | inl e ↦ inl (
          inl ((eq_iff method _).0 e),
          rw e (with_keys-IsFresh chacha20_poly1305 32 _ nonce law.chacha_key (omega arith) long),
        )
        | inr e ↦ elim (Bool-cases (str_eq method "none")) [
          | inl f ↦ inl (
            inr (inl ((eq_iff method _).0 f)),
            (
              record { key = pad_key 32 k; nonce = nonce; sealing_key = none; opening_key = none },
              rw (e, f),
              record {
                sync = record { key = refl; nonce = refl; cipher = refl };
                padded = long;
                start = refl;
              },
            ),
          )
          | inr f ↦ elim (Bool-cases (str_eq method "aes128gcm")) [
            | inl g ↦ inl (
              inr (inr ((eq_iff method _).0 g)),
              rw (e, f, g)
                  (with_keys-IsFresh aes_128_gcm 16 _ nonce law.aes_key (omega arith) long),
            )
            | inr g ↦ inr (unsupported method e f g, rw (e, f, g))
          ]
        ]
      ]
