-- ===== src/Crypto.antt =====
-- src/rmux/crypto.rs: the context that seals and opens events, and the frame of an event on the
-- wire. The crates `ring` and `skip32` are the record `Cipher`; a key string is its bytes.
pub mod Primitives
pub mod Frame
pub mod RoundTrip
pub mod Partial
pub mod Context
pub mod Reader
use Prim.Native.String.{String}
use text.Mathlib.Text.{◌==◌ as str_eq}
use rsnova.Base.{
  ℕ, zero, suc, ◌+◌, ◌-◌, ◌%◌, ◌^◌, bit_or, Bool, true, false, ◌||◌, Option, none, some, List, [],
  ◌∷◌, ◌++◌, length, take, drop, replicate, ltb, ◌==◌, if◌then◌else◌,
}
use rsnova.Base.Word.{to_le_bytes, from_le_bytes, u64_mod}
use rsnova.Base.Outcome.{Outcome, ok, panic, ◌>>=◌}
use rsnova.Base.Slice.{slice_to}
use rsnova.Event.{Header, Event, flags, len, flag_win_update, event_header_len}
use Primitives.{Cipher, Algorithm, chacha20_poly1305, aes_128_gcm}

-- A sealing or opening key of `ring` with its nonce sequence.
pub record Key : Type 0 where
  pub algorithm : Algorithm
  pub key_bytes : List ℕ
  pub sequence : ℕ

-- `NonceSequence::advance`: count up, and lay the counter out in 12 bytes.
unfoldable pub advance : ℕ → ℕ × List ℕ
advance nonce = let next = (nonce + 1) % u64_mod in (next, to_le_bytes 8 next ++ replicate 4 0)

pub record CryptoContext : Type 0 where
  pub key : List ℕ
  pub nonce : ℕ
  pub sealing_key : Option Key
  pub opening_key : Option Key

-- `while key.len() < 32 { key.push('F') }`, with a round for each byte that may be missing.
unfoldable pub pad_key : ℕ → List ℕ → List ℕ
pad_key zero key = key
pad_key (suc fuel) key =
    let longer = pad_key fuel (key ++ (b'F' ∷ [])) in if ltb (length key) 32 then longer else key

-- `sk[0..10]` of the key with the nonce's bytes or-ed into `sk[2..10]`. The key has 32 bytes or
-- more.
pub or_bytes : List ℕ → List ℕ → List ℕ
or_bytes [] ds = []
or_bytes (s ∷ ss) [] = s ∷ ss
or_bytes (s ∷ ss) (d ∷ ds) = bit_or s d ∷ or_bytes ss ds

unfoldable pub skip32_encrypt_key : CryptoContext → List ℕ
unfolding or_bytes
skip32_encrypt_key ctx =
    let sk = take 10 ctx.key in
    let dk = to_le_bytes 8 ctx.nonce in take 2 sk ++ or_bytes (drop 2 sk) dk

unfoldable pub skip32_decrypt_key : CryptoContext → List ℕ
unfolding or_bytes
skip32_decrypt_key ctx =
    let sk = take 10 ctx.key in
    let dk = to_le_bytes 8 ctx.nonce in take 2 sk ++ or_bytes (drop 2 sk) dk

-- `decrypt` returns an event, or how many bytes are missing, or a reason.
pub data DecryptResult : Type 0 where
  decoded : Event → DecryptResult
  error : ℕ → String → DecryptResult

-- `u32::from_le_bytes` of the first and of the second four bytes, each through `f`.
abbrev pub parse_header : (ℕ → ℕ) → List ℕ → Header
parse_header f buf = record {
  flag_len = f (from_le_bytes (take 4 buf));
  stream_id = f (from_le_bytes (take 4 (drop 4 buf)));
}

-- An event with no body on the wire: a window update, or the length 0.
abbrev pub has_no_body : Header → Bool
has_no_body header = (flag_win_update == flags header) || (0 == len header)

abbrev pub received : Header → List ℕ → Event
received header body = record { header = header; body = body; remote = true }

module _ (p : Cipher) where
  open p use {skip32_encode, skip32_decode, seal, open_sealed, tag_len, key_len}

  -- `UnboundKey::new(algorithm, key).unwrap()`
  unfoldable pub make_key : Algorithm → List ℕ → ℕ → Outcome Key
  make_key algorithm key nonce =
      if length key == key_len algorithm
      then ok (record { algorithm = algorithm; key_bytes = key; sequence = nonce })
      else panic

  unfoldable pub with_keys : Algorithm → ℕ → List ℕ → ℕ → Outcome CryptoContext
  with_keys algorithm n key nonce = do
    bytes ← slice_to n key
    s ← make_key algorithm bytes nonce
    o ← make_key algorithm bytes nonce
    ok (record { key = key; nonce = nonce; sealing_key = some s; opening_key = some o })

  unfoldable pub new : String → List ℕ → ℕ → Outcome CryptoContext
  new method k nonce =
      let key = pad_key 32 k in
      if str_eq method "chacha20poly1305"
      then with_keys chacha20_poly1305 32 key nonce
      else if str_eq method "none"
      then ok (record { key = key; nonce = nonce; sealing_key = none; opening_key = none })
      else if str_eq method "aes128gcm"
      then with_keys aes_128_gcm 16 key nonce
      else panic

  -- `seal_in_place_append_tag`: a failure is logged, and the body goes out as it is.
  pub sealed : Option (List ℕ) → List ℕ → List ℕ
  sealed none body = body
  sealed (some c) body = c

  unfoldable pub seal_body : Key → List ℕ → Key × List ℕ
  unfolding advance sealed
  seal_body key [] = (key, [])
  seal_body key (b ∷ bs) =
      let (next, nonce) = advance key.sequence in
      (
        record key { sequence = next },
        sealed (seal key.algorithm key.key_bytes nonce (b ∷ bs)) (b ∷ bs),
      )

  pub encrypt_with : Option Key → CryptoContext → Event → List ℕ → CryptoContext × List ℕ
  unfolding seal_body skip32_encrypt_key
  encrypt_with none ctx ev out = (
    ctx,
    out ++ (to_le_bytes 4 ev.header.flag_len ++ (to_le_bytes 4 ev.header.stream_id ++ ev.body)),
  )
  encrypt_with (some key) ctx ev out =
      let sk = skip32_encrypt_key ctx in
      let e1 = skip32_encode sk ev.header.flag_len in
      let e2 = skip32_encode sk ev.header.stream_id in
      let (key', body) = seal_body key ev.body in
      (
        record ctx { nonce = (ctx.nonce + 1) % u64_mod; sealing_key = some key' },
        out ++ (to_le_bytes 4 e1 ++ (to_le_bytes 4 e2 ++ body)),
      )

  -- The new context, and `out` with the frame of the event behind it.
  unfoldable pub encrypt : CryptoContext → Event → List ℕ → CryptoContext × List ℕ
  unfolding encrypt_with
  encrypt ctx ev out = encrypt_with ctx.sealing_key ctx ev out

  -- `decrypt` without keys, from the parsed header on.
  pub plain_body : CryptoContext → Header → List ℕ → DecryptResult × CryptoContext × List ℕ
  unfolding flags len
  plain_body ctx header buf =
      if has_no_body header
      then (decoded (received header []), ctx, drop event_header_len buf)
      else if ltb (length buf - event_header_len) (len header)
      then (error (len header + event_header_len - length buf) "", ctx, buf)
      else (
        decoded (received header (take (len header) (drop event_header_len buf))),
        ctx,
        drop (len header) (drop event_header_len buf),
      )

  pub decrypt_plain : CryptoContext → List ℕ → DecryptResult × CryptoContext × List ℕ
  unfolding plain_body
  decrypt_plain ctx buf =
      if ltb (length buf) event_header_len
      then (error (event_header_len - length buf) "", ctx, buf)
      else plain_body ctx (parse_header (λ x. x) buf) buf

  -- `open_in_place` over the body and its tag. The header is gone from the buffer by then.
  pub opened :
      Key
      → CryptoContext
      → Header
      → List ℕ
      → Option (List ℕ)
      → DecryptResult × CryptoContext × List ℕ
  unfolding len
  opened key ctx header rest none =
      (error 0 "Decrypt error", record ctx { opening_key = some key }, rest)
  opened key ctx header rest (some plain) = (
    decoded (received header (take (len header) plain)),
    record ctx { nonce = (ctx.nonce + 1) % u64_mod; opening_key = some key },
    drop (len header + tag_len key.algorithm) rest,
  )

  pub open_body : Key → CryptoContext → Header → List ℕ → DecryptResult × CryptoContext × List ℕ
  unfolding opened advance
  open_body key ctx header rest =
      let (next, nonce) = advance key.sequence in
      opened (record key { sequence = next }) ctx header rest
        (open_sealed key.algorithm key.key_bytes nonce
          (take (len header + tag_len key.algorithm) rest))

  -- `decrypt` with keys, from the parsed header on.
  pub sealed_body : Key → CryptoContext → Header → List ℕ → DecryptResult × CryptoContext × List ℕ
  unfolding open_body flags len
  sealed_body key ctx header buf =
      let expected_len = len header + tag_len key.algorithm in
      if has_no_body header
      then (
        decoded (received header []),
        record ctx { nonce = (ctx.nonce + 1) % u64_mod },
        drop event_header_len buf,
      )
      else if ltb (length buf - event_header_len) expected_len
      then (error ((expected_len + event_header_len - length buf) % 2 ^ 32) "", ctx, buf)
      else open_body key ctx header (drop event_header_len buf)

  pub decrypt_sealed : Key → CryptoContext → List ℕ → DecryptResult × CryptoContext × List ℕ
  unfolding sealed_body skip32_decrypt_key
  decrypt_sealed key ctx buf =
      if ltb (length buf) event_header_len
      then (error (event_header_len - length buf) "", ctx, buf)
      else sealed_body key ctx (parse_header (skip32_decode (skip32_decrypt_key ctx)) buf) buf

  pub decrypt_with : Option Key → CryptoContext → List ℕ → DecryptResult × CryptoContext × List ℕ
  unfolding decrypt_plain decrypt_sealed
  decrypt_with none ctx buf = decrypt_plain ctx buf
  decrypt_with (some key) ctx buf = decrypt_sealed key ctx buf

  -- The result, the new context and what is left of the buffer.
  unfoldable pub decrypt : CryptoContext → List ℕ → DecryptResult × CryptoContext × List ℕ
  unfolding decrypt_with
  decrypt ctx buf = decrypt_with ctx.opening_key ctx buf
