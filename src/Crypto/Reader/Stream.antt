-- ===== src/Crypto/Reader/Stream.antt =====
-- `read_encrypt_event` of src/rmux/crypto.rs on a byte stream that is cut into reads.
use rsnova.Base.{
  ℕ, zero, suc, ◌+◌, ◌<◌, ◌≤◌, ◌≡◌, refl, sym, ◌∙◌, ap, subst, inl, inr, true, Option, some, List,
  [], ◌∷◌, ◌++◌, length, drop, ltb, ltb→lt, ltb→le, arith, length-append, append-split, Bool-cases,
  append_assoc,
}
use rsnova.Base.Outcome.{Outcome, ok}
use rsnova.Event.{Event, IsFramed}
use rsnova.Crypto.Primitives.{Cipher, IsCipher}
use rsnova.Crypto.RoundTrip.{InSync, ReadsBack, frame, decrypt-encrypt}
use rsnova.Crypto.Partial.{decrypt-front}
use rsnova.Crypto.{CryptoContext, DecryptResult, decoded, error, encrypt, decrypt}
use rsnova.Crypto.Reader.{
  Connection, Read, bytes, broken, after_decrypt, read_loop, read_encrypt_event, raise_read_n,
}

-- The stream that is still to come, in reads of one byte at least.
abbrev pub incoming : List Read → List ℕ
incoming [] = []
incoming (broken ∷ rs) = incoming rs
incoming (bytes b ∷ rs) = b ++ incoming rs

abbrev pub AllData : List Read → Type 0
AllData [] = Unit {0}
AllData (broken ∷ rs) = ⊥
AllData (bytes b ∷ rs) = (0 < length b) × AllData rs

-- The call returned `ev`, marked as remote; the bytes behind its frame are still there, in the
-- buffer or to be read, and the context is in step with the other end's.
abbrev pub Delivers :
    Event → CryptoContext → List ℕ → Outcome (Option (Event × Connection)) → Type 0
Delivers ev w rest r =
    (c : Connection) × (r ≡ ok (some (record ev { remote = true }, c)))
    × (c.recv_buf ++ incoming c.reads ≡ rest)
    × InSync w c.ctx
    × AllData c.reads

module _ (p : Cipher) (law : IsCipher p) where
  abbrev next : CryptoContext → Event → CryptoContext
  next w ev = (encrypt p w ev []).0

  deliver :
      (again : ℕ → Connection → Outcome (Option (Event × Connection))) (w' : CryptoContext)
      (ev : Event) (back rest : List ℕ) (reads : List Read)
      (res : DecryptResult × CryptoContext × List ℕ)
      → ReadsBack ev back w' res
      → back ++ incoming reads ≡ rest
      → AllData reads
      → Delivers ev w' rest (after_decrypt p again reads res)
  unfolding after_decrypt
  deliver again w' ev back rest reads (decoded e, ctx, buf) t g d = (
    record { ctx = ctx; recv_buf = buf; reads = reads },
    cc (t.result),
    ap (λ b. b ++ incoming reads) t.left ∙ g,
    t.sync,
    d,
  )
  deliver again w' ev back rest reads (error n reason, ctx, buf) t g d = cc (t.result)

  -- A buffer that starts with the whole frame is decoded at once.
  after_decrypt-whole :
      (again : ℕ → Connection → Outcome (Option (Event × Connection))) (w r : CryptoContext)
      (ev : Event) (buf rest : List ℕ) (reads : List Read)
      → InSync w r
      → IsFramed ev
      → AllData reads
      → buf ++ incoming reads ≡ frame p w ev ++ rest
      → length (frame p w ev) ≤ length buf
      → Delivers ev (next w ev) rest (after_decrypt p again reads (decrypt p r buf))
  after_decrypt-whole again w r ev buf rest reads s h d e l =
      let (f, g) = append-split (frame p w ev) rest buf (incoming reads) e l in
      let back = drop (length (frame p w ev)) buf in
      subst (λ b. Delivers ev (next w ev) rest (after_decrypt p again reads (decrypt p r b)))
        (sym f)
        (deliver again (next w ev) ev back rest reads _ (decrypt-encrypt p law w r ev back s h) g d)

  -- On less than the frame the loop goes on, with a positive number and the same state.
  after_decrypt-part :
      (again : ℕ → Connection → Outcome (Option (Event × Connection))) (w r : CryptoContext)
      (ev : Event) (buf rest : List ℕ) (reads : List Read)
      → InSync w r
      → IsFramed ev
      → buf ++ incoming reads ≡ frame p w ev ++ rest
      → length buf < length (frame p w ev)
      → (n : ℕ) × (0 < n)
        × (after_decrypt p again reads (decrypt p r buf)
            ≡ again n (record { ctx = r; recv_buf = buf; reads = reads }))
  after_decrypt-part again w r ev buf rest reads s h e l =
      let (f, _) = append-split buf (incoming reads) (frame p w ev) rest (sym e) (omega arith) in
      let back = drop (length buf) (frame p w ev) in
      let (n, d, pos, _) =
        decrypt-front p law w r ev buf back s h (sym f)
          (omega (arith, ap length f, length-append buf back)) in
      (n, pos, ap (after_decrypt p again reads) d ∙ unfold after_decrypt in refl)

  raised : (n : ℕ) → 0 < n → ltb 0 (raise_read_n n) ≡ true
  raised n h = ground arith

  -- One round of the loop that reads a chunk.
  read_loop-step :
      (fuel n b : ℕ) (bs : List ℕ) (r : CryptoContext) (buf : List ℕ) (rs : List Read)
      → 0 < n
      → read_loop p (suc fuel) n (record { ctx = r; recv_buf = buf; reads = bytes (b ∷ bs) ∷ rs })
        ≡ after_decrypt p (read_loop p fuel) rs (decrypt p r (buf ++ (b ∷ bs)))
  unfolding read_loop
  read_loop-step fuel n b bs r buf rs pos = rw (raised n pos)

  read_loop-Delivers :
      (fuel n : ℕ) (w r : CryptoContext) (ev : Event) (buf rest : List ℕ) (reads : List Read)
      → 0 < n
      → length reads < fuel
      → InSync w r
      → IsFramed ev
      → AllData reads
      → buf ++ incoming reads ≡ frame p w ev ++ rest
      → length buf < length (frame p w ev)
      → Delivers ev
          (next w ev)
          rest
          (read_loop p fuel n (record { ctx = r; recv_buf = buf; reads = reads }))
  read_loop-Delivers zero n w r ev buf rest reads pos hf s h d e l = absurd (omega arith)
  read_loop-Delivers (suc fuel) n w r ev buf rest [] pos hf s h d e l =
      absurd (omega (arith, ap length e, length-append buf [], length-append (frame p w ev) rest))
  read_loop-Delivers (suc fuel) n w r ev buf rest (broken ∷ rs) pos hf s h d e l = absurd d
  read_loop-Delivers (suc fuel) n w r ev buf rest (bytes [] ∷ rs) pos hf s h d e l =
      absurd (omega (arith, d.0))
  read_loop-Delivers (suc fuel) n w r ev buf rest (bytes (x ∷ xs) ∷ rs) pos hf s h d e l =
      let buf' = buf ++ (x ∷ xs) in
      let e' : buf' ++ incoming rs ≡ frame p w ev ++ rest =
        append_assoc buf (x ∷ xs) (incoming rs) ∙ e in
      subst (Delivers ev (next w ev) rest) (sym (read_loop-step fuel n x xs r buf rs pos))
        (elim (Bool-cases (ltb (length buf') (length (frame p w ev)))) [
          | inl small ↦
              let (m, pos', step) =
                after_decrypt-part (read_loop p fuel) w r ev buf' rest rs s h e'
                  (ltb→lt _ _ small) in
              subst (Delivers ev (next w ev) rest) (sym step) (
                read_loop-Delivers fuel m w r ev buf' rest rs pos' (omega arith) s h d.1 e'
                  (ltb→lt _ _ small))
          | inr whole ↦
              after_decrypt-whole (read_loop p fuel) w r ev buf' rest rs s h d.1 e'
                (ltb→le _ _ whole)
        ])

  -- A connection in step with the other end, whose buffer and reads hold the frame of an event and
  -- any bytes behind it, cut into reads of one byte or more in any way: the call returns that event,
  -- and leaves the bytes behind it and a context that is in step again.
  pub read_encrypt_event-Delivers :
      (w : CryptoContext) (ev : Event) (rest : List ℕ) (c : Connection)
      → InSync w c.ctx
      → IsFramed ev
      → AllData c.reads
      → c.recv_buf ++ incoming c.reads ≡ frame p w ev ++ rest
      → Delivers ev (encrypt p w ev []).0 rest (read_encrypt_event p c)
  read_encrypt_event-Delivers w ev rest c s h d e =
      let fuel = length c.reads + 2 in
      let f : length c.reads + 3 ≡ suc fuel = omega arith in
      unfold read_encrypt_event in
      rw f (elim (Bool-cases (ltb (length c.recv_buf) (length (frame p w ev)))) [
        | inl small ↦
            let (m, pos, step) =
              after_decrypt-part (read_loop p fuel) w c.ctx ev c.recv_buf rest c.reads s h e
                (ltb→lt _ _ small) in
            subst (Delivers ev (next w ev) rest) (sym step) (
              read_loop-Delivers fuel m w c.ctx ev c.recv_buf rest c.reads pos (omega arith) s h d e
                (ltb→lt _ _ small))
        | inr whole ↦
            after_decrypt-whole (read_loop p fuel) w c.ctx ev c.recv_buf rest c.reads s h d e
              (ltb→le _ _ whole)
      ])
