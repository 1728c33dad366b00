-- ===== src/Io/Websocket/Messages.antt =====
-- The bytes of a websocket's messages as `WebsocketReader` (src/utils/ws.rs) hands them on, and what
-- `WebsocketWriter` makes of a write that takes several polls.
use rsnova.Base.{
  ℕ, zero, suc, ◌+◌, ◌<◌, ◌≤◌, ◌≡◌, refl, sym, ◌∙◌, ap, ◌⊎◌, inl, inr, List, [], ◌∷◌, ◌++◌, length,
  take, drop, replicate, All, ◌≢◌, ltb, ltb→le, arith, Bool-cases, take-append-drop, length-take,
  length-drop, append_assoc, append-nil,
}
use rsnova.Base.Outcome.{Outcome, ok}
use rsnova.Buffer.Views.{fill_read_buf-fits}
use rsnova.Stream.{Poll, ready}
use rsnova.Io.Websocket.{
  binary, WebsocketReader, take_message, next_item, poll_read, SendAnswer, no_room, flushing, done,
  send_failed, WebsocketWriter, poll_write,
}

-- The answers with which a poll of a write is pending.
abbrev pub IsPending : SendAnswer → Type 0
IsPending no_room = Unit {0}
IsPending flushing = Unit {0}
IsPending done = ⊥
IsPending (send_failed why) = ⊥

-- How often the sink took the message and was then still flushing.
abbrev pub takes : SendAnswer → ℕ
takes no_room = 0
takes flushing = 1
takes done = 1
takes (send_failed why) = 0

abbrev pub flushes : List SendAnswer → ℕ
flushes [] = 0
flushes (a ∷ answers) = takes a + flushes answers

-- The caller polls again with the same bytes until the write is ready.
abbrev pub write_until : WebsocketWriter → List ℕ → List SendAnswer → WebsocketWriter
write_until w buf [] = w
write_until w buf (a ∷ answers) = write_until (poll_write w buf a).1 buf answers

write_until-sink :
    (w : WebsocketWriter) (buf : List ℕ) (answers : List SendAnswer)
    → All IsPending answers
    → (write_until w buf answers).sink ≡ w.sink ++ replicate (flushes answers) buf
unfolding poll_write
write_until-sink w buf [] h = sym (append-nil w.sink)
write_until-sink w buf (no_room ∷ answers) h =
    let e : 0 + flushes answers ≡ flushes answers = omega arith in
    write_until-sink w buf answers (h.1) ∙ ap (λ k. w.sink ++ replicate k buf) (sym e)
write_until-sink w buf (flushing ∷ answers) h =
    let e : 1 + flushes answers ≡ suc (flushes answers) = omega arith in
    write_until-sink (record { sink = w.sink ++ (buf ∷ []) }) buf answers (h.1)
    ∙ append_assoc w.sink (buf ∷ []) (replicate (flushes answers) buf)
    ∙ ap (λ k. w.sink ++ replicate k buf) (sym e)
write_until-sink w buf (done ∷ answers) h = absurd (h.0)
write_until-sink w buf (send_failed why ∷ answers) h = absurd (h.0)

-- A write that is pending for some polls and then done tells the caller that all its bytes were
-- written. Each poll in which the sink took the message and was still flushing has put the whole
-- message into the sink once, and so has the last; so the peer gets it once if and only if there was no
-- such poll.
pub poll_write-repeats :
    (w : WebsocketWriter) (buf : List ℕ) (answers : List SendAnswer)
    → All IsPending answers
    → let w' = write_until w buf answers in
      ((poll_write w' buf done).0 ≡ ok (ready (length buf)))
      × ((poll_write w' buf done).1.sink ≡ w.sink ++ replicate (suc (flushes answers)) buf)
unfolding poll_write
poll_write-repeats w buf answers h = (
  refl,
  ap (λ s. s ++ (buf ∷ [])) (write_until-sink w buf answers h)
      ∙ append_assoc w.sink (replicate (flushes answers) buf) (buf ∷ [])
      ∙ ap (λ s. w.sink ++ s) (one_more (flushes answers) buf),
)
  where
    one_more : (k : ℕ) (b : List ℕ) → replicate k b ++ (b ∷ []) ≡ b ∷ replicate k b
    one_more zero b = refl
    one_more (suc k) b = ap (λ s. b ∷ s) (one_more k b)

-- What a poll into `n` bytes with `buf` left over and the message `dat` next comes to: one byte or
-- more, the next ones in order. `waiting` is the message if it has not been taken.
abbrev pub HandsOn : ℕ → List ℕ → List ℕ → Outcome (Poll (List ℕ) × WebsocketReader) → Type 0
HandsOn n buf dat res =
    (out waiting : List ℕ) × (r : WebsocketReader) × (res ≡ ok (ready out, r))
    × (out ++ (r.recv_buf ++ waiting) ≡ buf ++ dat)
    × ((waiting ≡ []) ⊎ ((waiting ≡ dat) × (buf ≢ [])))
    × (0 < length out)
    × (length out ≤ n)
    × (length r.recv_buf ≤ n)

serve :
    (n : ℕ) (buf dat : List ℕ)
    → 0 < n
    → length buf ≤ n
    → 0 < length dat
    → length dat ≤ n + n
    → HandsOn n buf dat (poll_read (record { recv_buf = buf }) n (binary dat))
unfolding poll_read next_item take_message
serve n [] [] pos f s t = absurd (omega arith)
serve n [] (x ∷ xs) pos f s t =
    let dat = x ∷ xs in
    elim (Bool-cases (ltb n (length dat))) [
      | inl long ↦ (
        take n dat,
        [],
        record { recv_buf = drop n dat },
        rw long refl,
        ap (λ z. take n dat ++ z) (append-nil (drop n dat)) ∙ take-append-drop n dat,
        inl refl,
        omega (arith, length-take n dat),
        omega (arith, length-take n dat),
        omega (arith, length-drop n dat),
      )
      | inr short ↦
          let l = ltb→le _ _ short in
          (
            take (length dat) dat,
            [],
            record { recv_buf = drop (length dat) dat },
            rw short refl,
            ap (λ z. take (length dat) dat ++ z) (append-nil (drop (length dat) dat))
                ∙ take-append-drop (length dat) dat,
            inl refl,
            omega (arith, length-take (length dat) dat),
            omega (arith, length-take (length dat) dat),
            omega (arith, length-drop (length dat) dat),
          )
    ]
serve n (b ∷ bs) dat pos f s t = (
  b ∷ bs,
  dat,
  record { recv_buf = [] },
  rw (fill_read_buf-fits (b ∷ bs) n f) refl,
  refl,
  inr (refl, λ e. cc),
  omega arith,
  f,
  omega arith,
)

-- A poll into a buffer of `n` bytes, at least one, when what is left over fits it, and the next
-- message is not empty and fits it twice. It hands on one byte or more, the next ones in order: of
-- what is left over, or else of the message; nothing is lost, and what is left over then fits the
-- next poll.
pub poll_read-HandsOn :
    (r : WebsocketReader) (n : ℕ) (dat : List ℕ)
    → 0 < n
    → length r.recv_buf ≤ n
    → 0 < length dat
    → length dat ≤ n + n
    → HandsOn n r.recv_buf dat (poll_read r n (binary dat))
poll_read-HandsOn r n dat pos fits some_ twice = serve n r.recv_buf dat pos fits some_ twice
