-- ===== src/Tests/Toy.antt =====
-- A cipher for the tests in place of the crates `ring` and `skip32`: words are shifted, and a text
-- is sealed by a tag of zeros.
use rsnova.Base.{
  ℕ, ◌+◌, ◌-◌, ◌%◌, ◌^◌, refl, ap, some, List, [], ◌∷◌, ◌++◌, length, take, arith, length-append,
  take-append,
}
use rsnova.Crypto.Primitives.{Algorithm, chacha20_poly1305, aes_128_gcm, Cipher, IsCipher}

abbrev zeros : List ℕ
zeros = 0 ∷ 0 ∷ 0 ∷ 0 ∷ 0 ∷ 0 ∷ 0 ∷ 0 ∷ 0 ∷ 0 ∷ 0 ∷ 0 ∷ 0 ∷ 0 ∷ 0 ∷ 0 ∷ []

abbrev key_lens : Algorithm → ℕ
key_lens chacha20_poly1305 = 32
key_lens aes_128_gcm = 16

abbrev pub toy : Cipher
toy = record {
  skip32_encode = λ k x. (x + 7) % 2 ^ 32;
  skip32_decode = λ k x. (x + (2 ^ 32 - 7)) % 2 ^ 32;
  seal = λ a k n m. some (m ++ zeros);
  open_sealed = λ a k n c. some (take (length c - 16) c);
  tag_len = λ a. 16;
  key_len = key_lens;
}

pub toy-IsCipher : IsCipher toy
toy-IsCipher = record {
  encode-IsU32 = λ k x h. omega arith;
  decode-IsU32 = λ k x. omega arith;
  decode-encode = λ k x h. omega arith;
  seal_opens = λ a k n m h. (
    m ++ zeros,
    refl,
    length-append m zeros,
    ap some (take-append _ m zeros (omega (arith, length-append m zeros))),
  );
  tag_lens = λ a. refl;
  chacha_key = refl;
  aes_key = refl;
}
