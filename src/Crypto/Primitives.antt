-- ===== src/Crypto/Primitives.antt =====
-- What src/rmux/crypto.rs uses of the crates `ring` (authenticated encryption) and `skip32` (a
-- block cipher on 32-bit words), with the laws that their documentation gives.
use rsnova.Base.{ℕ, ◌+◌, ◌^◌, ◌<◌, ◌≡◌, Option, some, List, length}
use rsnova.Base.Word.{IsU32}

pub data Algorithm : Type 0 where
  chacha20_poly1305 aes_128_gcm : Algorithm

-- `seal` takes the key, the nonce and the plain text, and gives the sealed text with its tag;
-- `open_sealed` takes that and gives the plain text.
pub record Cipher : Type 0 where
  pub skip32_encode : List ℕ → ℕ → ℕ
  pub skip32_decode : List ℕ → ℕ → ℕ
  pub seal : Algorithm → List ℕ → List ℕ → List ℕ → Option (List ℕ)
  pub open_sealed : Algorithm → List ℕ → List ℕ → List ℕ → Option (List ℕ)
  pub tag_len : Algorithm → ℕ
  pub key_len : Algorithm → ℕ

-- Both directions give words, and decoding undoes encoding on them; a text of less than 2 ^ 24 bytes is sealed, grows by the tag,
-- and opens under the key and the nonce that sealed it.
pub record IsCipher (p : Cipher) : Type 0 where
  pub encode-IsU32 : (k : List ℕ) (x : ℕ) → IsU32 x → IsU32 (p.skip32_encode k x)
  pub decode-IsU32 : (k : List ℕ) (x : ℕ) → IsU32 (p.skip32_decode k x)
  pub decode-encode : (k : List ℕ) (x : ℕ) → IsU32 x → p.skip32_decode k (p.skip32_encode k x) ≡ x
  pub seal_opens :
      (a : Algorithm) (k n m : List ℕ)
      → length m < 2 ^ 24
      → (c : List ℕ) × (p.seal a k n m ≡ some c)
        × (length c ≡ length m + p.tag_len a)
        × (p.open_sealed a k n c ≡ some m)
  pub tag_lens : (a : Algorithm) → p.tag_len a ≡ 16
  pub chacha_key : p.key_len chacha20_poly1305 ≡ 32
  pub aes_key : p.key_len aes_128_gcm ≡ 16
