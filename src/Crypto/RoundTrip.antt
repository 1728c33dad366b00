-- ===== src/Crypto/RoundTrip.antt =====
-- `decrypt` of src/rmux/crypto.rs on what `encrypt` wrote and what follows it.
use rsnova.Base.{
  ℕ, ◌+◌, ◌-◌, ◌%◌, ◌^◌, ◌<◌, ◌≤◌, ◌≡◌, refl, sym, ◌∙◌, ap, subst, inl, inr, true, false, Option,
  none, some, List, [], ◌∷◌, ◌++◌, length, arith, length-append, take-append, take-all, drop-append,
}
use rsnova.Base.Word.{u64_mod}
use rsnova.Event.{Event, Header, IsFramed, len, event_header_len}
use rsnova.Event.Fields.{len-lt}
use rsnova.Crypto.Primitives.{Cipher, IsCipher}
use rsnova.Crypto.Frame.{
  words, BodyCases-IsFramed, decrypt_plain-words, decrypt_sealed-words, plain_body-empty,
  plain_body-full, sealed_body-empty, sealed_body-full,
}
use rsnova.Crypto.{
  Key, CryptoContext, DecryptResult, decoded, has_no_body, received, advance, skip32_encrypt_key,
  skip32_decrypt_key, seal_body, encrypt_with, decrypt_with, encrypt, decrypt, plain_body,
  sealed_body, open_body, opened,
}

-- The two ends agree on the key string, on the counter of events, and on the key and the nonce
-- sequence of the cipher, or both have none.
pub record InSync (w r : CryptoContext) : Type 0 where
  pub key : w.key ≡ r.key
  pub nonce : w.nonce ≡ r.nonce
  pub cipher : w.sealing_key ≡ r.opening_key

-- The result of `decrypt` is the event, marked as remote, and the rest of the buffer.
pub record ReadsBack (ev : Event) (rest : List ℕ) (w : CryptoContext)
    (res : DecryptResult × CryptoContext × List ℕ) : Type 0 where
  pub result : res.0 ≡ decoded (record ev { remote = true })
  pub left : res.2 ≡ rest
  pub sync : InSync w res.1

skip32_keys : (w r : CryptoContext) → InSync w r → skip32_encrypt_key w ≡ skip32_decrypt_key r
unfolding skip32_encrypt_key skip32_decrypt_key
skip32_keys w r s = rw (s.key, s.nonce)

module _ (p : Cipher) where
  plain_body-framed :
      (ctx : CryptoContext) (ev : Event) (rest : List ℕ)
      → IsFramed ev
      → plain_body p ctx ev.header (words ev.header.flag_len ev.header.stream_id (ev.body ++ rest))
        ≡ (decoded (received ev.header ev.body), ctx, rest)
  plain_body-framed ctx ev rest h =
      let buf = words ev.header.flag_len ev.header.stream_id (ev.body ++ rest) in
      elim (BodyCases-IsFramed ev h) [
        | inl (e, none_left) ↦ rw none_left (plain_body-empty p ctx ev.header _ e)
        | inr (e, l, _) ↦
            plain_body-full p ctx ev.header buf e (omega (arith, length-append ev.body rest)) ∙ λ i.
            (
              decoded (received ev.header (take-append (len ev.header) ev.body rest (sym l) i)),
              ctx,
              drop-append (len ev.header) ev.body rest (sym l) i,
            )
      ]

  -- `open_body` on the sealed text of a body.
  open_body-sealed :
      (key : Key) (ctx : CryptoContext) (h : Header) (m c rest : List ℕ)
      → len h ≡ length m
      → length c ≡ length m + p.tag_len key.algorithm
      → p.open_sealed key.algorithm key.key_bytes (advance key.sequence).1 c ≡ some m
      → open_body p key ctx h (c ++ rest) ≡ (
        decoded (received h m),
        record ctx {
          nonce = (ctx.nonce + 1) % u64_mod;
          opening_key = some (record key { sequence = (advance key.sequence).0 });
        },
        rest,
      )
  unfolding open_body
  open_body-sealed key ctx h m c rest l k o =
      let n = len h + p.tag_len key.algorithm in
      let key' : Key = record key { sequence = (advance key.sequence).0 } in
      let open_text : List ℕ → Option (List ℕ) =
        p.open_sealed key.algorithm key.key_bytes (advance key.sequence).1 in
      ap (λ t. opened p key' ctx h (c ++ rest) (open_text t)) (take-append n c rest (omega arith))
      ∙ ap (opened p key' ctx h (c ++ rest)) o
      ∙ λ i. (
        decoded (received h (take-all (len h) m (omega arith) i)),
        record ctx { nonce = (ctx.nonce + 1) % u64_mod; opening_key = some key' },
        drop-append n c rest (omega arith) i,
      )

  -- What the other end makes of a sealed body, by the body.
  abbrev Opens : (key : Key) (ctx : CryptoContext) (h : Header) (body buf rest : List ℕ) → Type 0
  Opens key ctx h body buf rest = sealed_body p key ctx h buf ≡ (
    decoded (received h body),
    record ctx { nonce = (ctx.nonce + 1) % u64_mod; opening_key = some (seal_body p key body).0 },
    rest,
  )

  sealed_body-framed_some :
      (law : IsCipher p) (key : Key) (ctx : CryptoContext) (h : Header) (a b x : ℕ)
      (xs rest : List ℕ)
      → has_no_body h ≡ false
      → len h ≡ length (x ∷ xs)
      → length (x ∷ xs) < 2 ^ 24
      → Opens key ctx h (x ∷ xs) (words a b ((seal_body p key (x ∷ xs)).1 ++ rest)) rest
  sealed_body-framed_some law key ctx h a b x xs rest e l small =
      let (c, s, k, o) =
        law.seal_opens key.algorithm key.key_bytes (advance key.sequence).1 (x ∷ xs) small in
      let buf = words a b (c ++ rest) in
      let full : len h + p.tag_len key.algorithm ≤ length buf - event_header_len =
        omega (arith, length-append c rest) in
      unfold seal_body in
      rw s (sealed_body-full p ctx h buf key e full ∙ open_body-sealed key ctx h _ c rest l k o)

  sealed_body-framed :
      (law : IsCipher p) (key : Key) (ctx : CryptoContext) (ev : Event) (a b : ℕ)
      (body rest : List ℕ)
      → IsFramed ev
      → ev.body ≡ body
      → ctx.opening_key ≡ some key
      → Opens key ctx ev.header body (words a b ((seal_body p key body).1 ++ rest)) rest
  sealed_body-framed law key ctx ev a b [] rest h eb ek = elim (BodyCases-IsFramed ev h) [
    | inl (e, _) ↦
        unfold seal_body in
        sealed_body-empty p ctx ev.header (words a b rest) key e ∙ λ i. (
          decoded (received ev.header []),
          record ctx { nonce = (ctx.nonce + 1) % u64_mod; opening_key = ek i },
          rest,
        )
    | inr (_, _, l) ↦ absurd (omega (arith, ap length eb))
  ]
  sealed_body-framed law key ctx ev a b (x ∷ xs) rest h eb ek = elim (BodyCases-IsFramed ev h) [
    | inl (_, e) ↦ cc
    | inr (e, l, _) ↦
        let m : len ev.header ≡ length (x ∷ xs) = l ∙ ap length eb in
        sealed_body-framed_some law key ctx ev.header a b x xs rest e m
          (omega (arith, len-lt ev.header h.word))
  ]

  -- The frame that `encrypt` appends.
  abbrev pub frame : CryptoContext → Event → List ℕ
  frame w ev = (encrypt p w ev []).1

  -- The other end decodes the header words that `encrypt` encoded.
  pub decoded_header :
      (law : IsCipher p) (w r : CryptoContext) (ev : Event)
      → InSync w r
      → IsFramed ev
      → ◌≡◌ {A = Header}
          (record {
            flag_len =
                p.skip32_decode
                  (skip32_decrypt_key r)
                  (p.skip32_encode (skip32_encrypt_key w) ev.header.flag_len);
            stream_id =
                p.skip32_decode
                  (skip32_decrypt_key r)
                  (p.skip32_encode (skip32_encrypt_key w) ev.header.stream_id);
          })
          ev.header
  decoded_header law w r ev s h = rw (skip32_keys w r s) λ i. record {
    flag_len = law.decode-encode (skip32_decrypt_key r) _ h.word i;
    stream_id = law.decode-encode (skip32_decrypt_key r) _ h.id i;
  }

  decrypt_with-encrypt_with :
      (law : IsCipher p) (k : Option Key) (w r : CryptoContext) (ev : Event) (rest : List ℕ)
      → InSync w r
      → w.sealing_key ≡ k
      → r.opening_key ≡ k
      → IsFramed ev
      → ReadsBack ev rest
          (encrypt_with p k w ev []).0
          (decrypt_with p k r ((encrypt_with p k w ev []).1 ++ rest))
  decrypt_with-encrypt_with law none w r ev rest s ew er h =
      let e =
        decrypt_plain-words p r ev.header (ev.body ++ rest) h.word h.id
        ∙ plain_body-framed r ev rest h in
      unfold encrypt_with decrypt_with in
      subst (ReadsBack ev rest w) (sym e) (record { result = refl; left = refl; sync = s })
  decrypt_with-encrypt_with law (some key) w r ev rest s ew er h =
      let sk = skip32_encrypt_key w in
      let a = p.skip32_encode sk ev.header.flag_len in
      let b = p.skip32_encode sk ev.header.stream_id in
      let body = (seal_body p key ev.body).1 in
      let next : CryptoContext = record w {
        nonce = (w.nonce + 1) % u64_mod;
        sealing_key = some (seal_body p key ev.body).0;
      } in
      let e =
        decrypt_sealed-words p key r a b (body ++ rest) (law.encode-IsU32 sk _ h.word)
          (law.encode-IsU32 sk _ h.id)
        ∙ ap (λ g. sealed_body p key r g (words a b (body ++ rest))) (decoded_header law w r ev s h)
        ∙ sealed_body-framed law key r ev a b ev.body rest h refl er in
      unfold encrypt_with decrypt_with in
      subst (ReadsBack ev rest next) (sym e) (record {
        result = refl;
        left = refl;
        sync = record {
          key = s.key;
          nonce = ap (λ (n : ℕ). (n + 1) % u64_mod) s.nonce;
          cipher = refl;
        };
      })

  -- Two contexts in step: whatever framed event one of them encrypts, the other decrypts it from the
  -- front of its buffer, leaves what follows, and the two are in step again.
  pub decrypt-encrypt :
      (law : IsCipher p) (w r : CryptoContext) (ev : Event) (rest : List ℕ)
      → InSync w r
      → IsFramed ev
      → ReadsBack ev rest (encrypt p w ev []).0 (decrypt p r (frame w ev ++ rest))
  unfolding encrypt decrypt
  decrypt-encrypt law w r ev rest s h =
      subst
        (λ k.
          ReadsBack ev rest (encrypt_with p w.sealing_key w ev []).0
            (decrypt_with p k r ((encrypt_with p w.sealing_key w ev []).1 ++ rest)))
        s.cipher (decrypt_with-encrypt_with law w.sealing_key w r ev rest s refl (sym s.cipher) h)
