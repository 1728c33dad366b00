-- ===== src/Crypto/Frame.antt =====
-- The frame that `encrypt` of src/rmux/crypto.rs writes, and one step of `decrypt` on a buffer that
-- starts with a whole header.
use rsnova.Base.{
  ℕ, ◌+◌, ◌-◌, ◌%◌, ◌^◌, ◌<◌, ◌≤◌, ◌≡◌, refl, ap, ◌⊎◌, true, false, List, [], ◌∷◌, ◌++◌, length,
  take, drop, ltb, le→ltb, lt→ltb, arith,
}
use rsnova.Base.Word.{IsU32, to_le_bytes, from_le_bytes-to_le_bytes, u64_mod}
use rsnova.Event.{Event, Header, IsFramed, len, event_header_len}
use rsnova.Crypto.Primitives.{Cipher}
use rsnova.Crypto.{
  Key, CryptoContext, decoded, error, parse_header, has_no_body, received, skip32_decrypt_key,
  decrypt_plain, decrypt_sealed, plain_body, sealed_body, open_body,
}

-- The two words of a header on the wire, with what follows.
abbrev pub words : ℕ → ℕ → List ℕ → List ℕ
words a b rest = to_le_bytes 4 a ++ (to_le_bytes 4 b ++ rest)

pub parse_header-words :
    (f : ℕ → ℕ) (a b : ℕ) (rest : List ℕ)
    → IsU32 a
    → IsU32 b
    → parse_header f (words a b rest) ≡ record { flag_len = f a; stream_id = f b }
parse_header-words f a b rest ha hb = λ i. record {
  flag_len = f (from_le_bytes-to_le_bytes a ha i);
  stream_id = f (from_le_bytes-to_le_bytes b hb i);
}

-- A framed event has no body, and its header says so, or one of the length in the header.
abbrev pub BodyCases : Event → Type 0
BodyCases ev =
    ((has_no_body ev.header ≡ true) × (ev.body ≡ []))
    ⊎ ((has_no_body ev.header ≡ false) × (len ev.header ≡ length ev.body) × (0 < length ev.body))

BodyCases-split : (ev : Event) (b : List ℕ) → ev.body ≡ b → IsFramed ev → BodyCases ev
BodyCases-split ev [] e h = ground arith
BodyCases-split ev (x ∷ xs) e h = ground arith

pub BodyCases-IsFramed : (ev : Event) → IsFramed ev → BodyCases ev
BodyCases-IsFramed ev = BodyCases-split ev ev.body refl

module _ (p : Cipher) where
  -- With eight bytes or more the header is parsed, and the rest depends on it.
  pub decrypt_plain-words :
      (ctx : CryptoContext) (h : Header) (rest : List ℕ)
      → IsU32 h.flag_len
      → IsU32 h.stream_id
      → decrypt_plain p ctx (words h.flag_len h.stream_id rest)
        ≡ plain_body p ctx h (words h.flag_len h.stream_id rest)
  decrypt_plain-words ctx h rest ha hb =
      let buf = words h.flag_len h.stream_id rest in
      let e = parse_header-words (λ x. x) h.flag_len h.stream_id rest ha hb in
      let big : ltb (length buf) event_header_len ≡ false = le→ltb _ _ (omega arith) in
      unfold decrypt_plain in rw big (ap (λ g. plain_body p ctx g buf) e)

  pub decrypt_sealed-words :
      (key : Key) (ctx : CryptoContext) (a b : ℕ) (rest : List ℕ)
      → IsU32 a
      → IsU32 b
      → decrypt_sealed p key ctx (words a b rest)
        ≡ sealed_body p key ctx
            (record {
              flag_len = p.skip32_decode (skip32_decrypt_key ctx) a;
              stream_id = p.skip32_decode (skip32_decrypt_key ctx) b;
            })
            (words a b rest)
  decrypt_sealed-words key ctx a b rest ha hb =
      let buf = words a b rest in
      let e = parse_header-words (p.skip32_decode (skip32_decrypt_key ctx)) a b rest ha hb in
      let big : ltb (length buf) event_header_len ≡ false = le→ltb _ _ (omega arith) in
      unfold decrypt_sealed in rw big (ap (λ g. sealed_body p key ctx g buf) e)

  -- The three ways through a body: nothing on the wire, too little in the buffer, enough.
  module _ (ctx : CryptoContext) (h : Header) (buf : List ℕ) where
    pub plain_body-empty :
        has_no_body h ≡ true
        → plain_body p ctx h buf ≡ (decoded (received h []), ctx, drop event_header_len buf)
    unfolding plain_body
    plain_body-empty e = rw e

    pub plain_body-short :
        has_no_body h ≡ false
        → length buf - event_header_len < len h
        → plain_body p ctx h buf ≡ (error (len h + event_header_len - length buf) "", ctx, buf)
    unfolding plain_body
    plain_body-short e l = rw (e, lt→ltb _ _ l)

    pub plain_body-full :
        has_no_body h ≡ false
        → len h ≤ length buf - event_header_len
        → plain_body p ctx h buf ≡ (
          decoded (received h (take (len h) (drop event_header_len buf))),
          ctx,
          drop (len h) (drop event_header_len buf),
        )
    unfolding plain_body
    plain_body-full e l = rw (e, le→ltb _ _ l)

    pub sealed_body-empty :
        (key : Key)
        → has_no_body h ≡ true
        → sealed_body p key ctx h buf ≡ (
          decoded (received h []),
          record ctx { nonce = (ctx.nonce + 1) % u64_mod },
          drop event_header_len buf,
        )
    unfolding sealed_body
    sealed_body-empty key e = rw e

    pub sealed_body-short :
        (key : Key)
        → has_no_body h ≡ false
        → length buf - event_header_len < len h + p.tag_len key.algorithm
        → sealed_body p key ctx h buf ≡ (
          error ((len h + p.tag_len key.algorithm + event_header_len - length buf) % 2 ^ 32) "",
          ctx,
          buf,
        )
    unfolding sealed_body
    sealed_body-short key e l = rw (e, lt→ltb _ _ l)

    pub sealed_body-full :
        (key : Key)
        → has_no_body h ≡ false
        → len h + p.tag_len key.algorithm ≤ length buf - event_header_len
        → sealed_body p key ctx h buf ≡ open_body p key ctx h (drop event_header_len buf)
    unfolding sealed_body
    sealed_body-full key e l = rw (e, le→ltb _ _ l)
