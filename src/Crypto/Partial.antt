-- ===== src/Crypto/Partial.antt =====
-- `decrypt` of src/rmux/crypto.rs on a buffer that holds a part of a frame only.
use rsnova.Base.{
  ℕ, ◌+◌, ◌-◌, ◌%◌, ◌^◌, ◌<◌, ◌≤◌, ◌≡◌, refl, sym, ◌∙◌, ap, subst, inl, inr, Option, none, some,
  List, [], ◌∷◌, ◌++◌, length, drop, lt→ltb, ltb, arith, length-append, append-split, Bool-cases,
  ltb→lt, ltb→le,
}
use rsnova.Event.{Event, IsFramed, len, event_header_len}
use rsnova.Event.Fields.{len-lt}
use rsnova.Crypto.Primitives.{Cipher, IsCipher}
use rsnova.Crypto.Frame.{
  words, BodyCases-IsFramed, decrypt_plain-words, decrypt_sealed-words, plain_body-short,
  sealed_body-short,
}
use rsnova.Crypto.RoundTrip.{InSync, frame, decoded_header}
use rsnova.Crypto.{
  Key, CryptoContext, DecryptResult, error, advance, skip32_encrypt_key, seal_body, encrypt_with,
  decrypt_with, encrypt, decrypt, decrypt_plain, decrypt_sealed, sealed_body,
}

-- `decrypt` asks for `n` more bytes, at least one and no more than are missing, and changes nothing.
abbrev pub Waits : CryptoContext → List ℕ → ℕ → DecryptResult × CryptoContext × List ℕ → Type 0
Waits ctx buf missing res = (n : ℕ) × (res ≡ (error n "", ctx, buf)) × (0 < n) × (n ≤ missing)

-- A buffer of eight bytes or more at the front of a frame holds its header.
pub words-front :
    (a b : ℕ) (body buf back : List ℕ)
    → buf ++ back ≡ words a b body
    → 8 ≤ length buf
    → (buf ≡ words a b (drop 8 buf)) × (drop 8 buf ++ back ≡ body)
words-front a b body buf back e h = append-split (words a b []) body buf back e h

module _ (p : Cipher) where
  decrypt_plain-small :
      (ctx : CryptoContext) (buf : List ℕ)
      → length buf < 8
      → decrypt_plain p ctx buf ≡ (error (8 - length buf) "", ctx, buf)
  unfolding decrypt_plain
  decrypt_plain-small ctx buf h = rw (lt→ltb _ _ h)

  decrypt_sealed-small :
      (key : Key) (ctx : CryptoContext) (buf : List ℕ)
      → length buf < 8
      → decrypt_sealed p key ctx buf ≡ (error (8 - length buf) "", ctx, buf)
  unfolding decrypt_sealed
  decrypt_sealed-small key ctx buf h = rw (lt→ltb _ _ h)

  plain-Waits :
      (ctx : CryptoContext) (ev : Event) (buf back : List ℕ)
      → IsFramed ev
      → buf ++ back ≡ words ev.header.flag_len ev.header.stream_id ev.body
      → 0 < length back
      → Waits ctx buf (length back) (decrypt_plain p ctx buf)
  plain-Waits ctx ev buf back h e some_back = elim (Bool-cases (ltb (length buf) 8)) [
    | inl small ↦ (
      8 - length buf,
      decrypt_plain-small ctx buf (ltb→lt _ _ small),
      omega (arith, ltb→lt _ _ small),
      omega (arith, total),
    )
    | inr big ↦
        let (f, g) = words-front _ _ ev.body buf back e (ltb→le _ _ big) in
        let rest = drop 8 buf in
        let whole = words ev.header.flag_len ev.header.stream_id rest in
        let lengths : length rest + length back ≡ length ev.body =
          sym (length-append rest back) ∙ ap length g in
        let front : length buf ≡ 8 + length rest = ap length f ∙ omega arith in
        elim (BodyCases-IsFramed ev h) [
          | inl (_, none_left) ↦ absurd (omega (arith, ap length none_left))
          | inr (b, l, _) ↦ (
            len ev.header + event_header_len - length whole,
            ap (decrypt_plain p ctx) f
                ∙ decrypt_plain-words p ctx ev.header rest h.word h.id
                ∙ plain_body-short p ctx ev.header whole b (omega arith)
                ∙ ap (λ t. (error (len ev.header + event_header_len - length whole) "", ctx, t))
                    (sym f),
            omega arith,
            omega arith,
          )
        ]
  ]
    where
      total : length buf + length back ≡ 8 + length ev.body
      total = sym (length-append buf back) ∙ ap length e ∙ omega arith

  length-seal_body :
      (law : IsCipher p) (key : Key) (body : List ℕ)
      → length body < 2 ^ 24
      → 0 < length body
      → length (seal_body p key body).1 ≡ length body + p.tag_len key.algorithm
  length-seal_body law key [] small some_body = absurd (omega arith)
  length-seal_body law key (x ∷ xs) small some_body =
      let (c, s, k, _) =
        law.seal_opens key.algorithm key.key_bytes (advance key.sequence).1 (x ∷ xs) small in
      unfold seal_body in rw s k

  seal_body-nil : (key : Key) (body : List ℕ) → body ≡ [] → length (seal_body p key body).1 ≡ 0
  unfolding seal_body
  seal_body-nil key [] e = refl
  seal_body-nil key (x ∷ xs) e = cc

  sealed-Waits :
      (law : IsCipher p) (key : Key) (w r : CryptoContext) (ev : Event) (buf back : List ℕ)
      → InSync w r
      → IsFramed ev
      → buf ++ back
        ≡ words
            (p.skip32_encode (skip32_encrypt_key w) ev.header.flag_len)
            (p.skip32_encode (skip32_encrypt_key w) ev.header.stream_id)
            (seal_body p key ev.body).1
      → 0 < length back
      → Waits r buf (length back) (decrypt_sealed p key r buf)
  sealed-Waits law key w r ev buf back s h e some_back = elim (Bool-cases (ltb (length buf) 8)) [
    | inl small ↦ (
      8 - length buf,
      decrypt_sealed-small key r buf (ltb→lt _ _ small),
      omega (arith, ltb→lt _ _ small),
      omega (arith, total),
    )
    | inr big ↦
        let (f, g) = words-front a b (seal_body p key ev.body).1 buf back e (ltb→le _ _ big) in
        let rest = drop 8 buf in
        let lengths : length rest + length back ≡ length (seal_body p key ev.body).1 =
          sym (length-append rest back) ∙ ap length g in
        let front : length buf ≡ 8 + length rest = ap length f ∙ omega arith in
        elim (BodyCases-IsFramed ev h) [
          | inl (_, none_left) ↦ absurd (omega (arith, seal_body-nil key ev.body none_left))
          | inr (some_b, l, pos) ↦
              let small = len-lt ev.header h.word in
              let k = length-seal_body law key ev.body (omega arith) pos in
              let t = law.tag_lens key.algorithm in
              let n =
                (len ev.header
                  + p.tag_len key.algorithm
                  + event_header_len
                  - length (words a b rest))
                % 2 ^ 32 in
              (
                n,
                ap (decrypt_sealed p key r) f
                    ∙ decrypt_sealed-words p key r a b rest (law.encode-IsU32 _ _ h.word)
                        (law.encode-IsU32 _ _ h.id)
                    ∙ ap (λ g. sealed_body p key r g (words a b rest))
                        (decoded_header p law w r ev s h)
                    ∙ sealed_body-short p r ev.header (words a b rest) key some_b (omega arith)
                    ∙ ap (λ t. (error n "", r, t)) (sym f),
                omega arith,
                omega arith,
              )
        ]
  ]
    where
      a : ℕ
      a = p.skip32_encode (skip32_encrypt_key w) ev.header.flag_len

      b : ℕ
      b = p.skip32_encode (skip32_encrypt_key w) ev.header.stream_id

      total : length buf + length back ≡ 8 + length (seal_body p key ev.body).1
      total = sym (length-append buf back) ∙ ap length e ∙ omega arith

  Waits-decrypt_with :
      (law : IsCipher p) (k : Option Key) (w r : CryptoContext) (ev : Event) (buf back : List ℕ)
      → InSync w r
      → IsFramed ev
      → buf ++ back ≡ (encrypt_with p k w ev []).1
      → 0 < length back
      → Waits r buf (length back) (decrypt_with p k r buf)
  unfolding encrypt_with decrypt_with
  Waits-decrypt_with law none w r ev buf back s h e pos = plain-Waits r ev buf back h e pos
  Waits-decrypt_with law (some key) w r ev buf back s h e pos =
      sealed-Waits law key w r ev buf back s h e pos

  -- On a proper front of the frame of an event, `decrypt` asks for more bytes, at least one and at
  -- most as many as the frame lacks; the context and the buffer stay as they are.
  pub decrypt-front :
      (law : IsCipher p) (w r : CryptoContext) (ev : Event) (buf back : List ℕ)
      → InSync w r
      → IsFramed ev
      → buf ++ back ≡ frame p w ev
      → 0 < length back
      → Waits r buf (length back) (decrypt p r buf)
  unfolding encrypt decrypt
  decrypt-front law w r ev buf back s h e pos =
      subst (λ k. Waits r buf (length back) (decrypt_with p k r buf)) s.cipher
        (Waits-decrypt_with law w.sealing_key w r ev buf back s h e pos)
