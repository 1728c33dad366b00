-- ===== src/Session/Tasks/Sending.antt =====
-- The bytes that pass through the writing task of `process_rmux_session` (src/rmux/session.rs).
use rsnova.Base.{
  ℕ, zero, suc, ◌<◌, ◌≤◌, ◌≡◌, refl, sym, ◌∙◌, ap, subst, inl, inr, false, Option, none, some, List,
  [], ◌∷◌, ◌++◌, length, take, drop, concat, min, ltb, ltb→lt, ◌==◌, ==_iff, Bool-cases, if_elim,
  arith, append_assoc, take-append-drop, drop-append_le, if◌then◌else◌,
}
use rsnova.Base.Outcome.{Outcome, ok, ◌>>=◌}
use rsnova.Buffer
use rsnova.Buffer.{VBuf, push, vlen, advance, bytes_vectored}
use rsnova.Buffer.Contents.{contents, IsWellFormed, advance_lem}
use rsnova.Buffer.Views.{push_cases, bytes_vectored_lem}
use rsnova.Session.Tasks.{
  SendTask, SendRound, stop, push_next, gather, write_out, write_buf, send_round, handle_send,
}

-- The bytes that went out, those in the buffers, and those still in the queue.
abbrev pub stream_of : SendTask → List ℕ
stream_of t = t.out ++ (contents t.vbuf ++ concat t.queue)

-- From one state of the task to a later one: the buffers stay well formed, what went out stays out,
-- and the rest follows it in order. While the task runs no byte is lost.
pub record InOrder (t t' : SendTask) : Type 0 where
  pub well_formed : IsWellFormed t'.vbuf
  pub order : stream_of t ≡ stream_of t'

-- A vector is pushed onto fewer than 64 buffers.
push_next-InOrder :
    (later : SendTask → SendTask) (t : SendTask) (q : List (List ℕ))
    → IsWellFormed t.vbuf
    → t.queue ≡ q
    → vlen t.vbuf < 64
    → ((u : SendTask) → IsWellFormed u.vbuf → InOrder u (later u))
    → InOrder t (push_next later t q)
push_next-InOrder later t [] w e room h = record { well_formed = w; order = refl }
push_next-InOrder later t ([] ∷ ds) w e room h = record {
  well_formed = w;
  order = ap (λ d. t.out ++ (contents t.vbuf ++ concat d)) e;
}
push_next-InOrder later t ((b ∷ bs) ∷ ds) w e room h = elim (push_cases t.vbuf (b ∷ bs) w) [
  | inl (_, _, _, w', c, _) ↦
      let u : SendTask = record t { vbuf = (push t.vbuf (b ∷ bs)).0; queue = ds } in
      record {
        well_formed = (h u w').well_formed;
        order =
            ap (λ q. t.out ++ (contents t.vbuf ++ concat q)) e
            ∙ ap (λ l. t.out ++ l) (sym (append_assoc (contents t.vbuf) (b ∷ bs) (concat ds)))
            ∙ ap (λ l. t.out ++ (l ++ concat ds)) (sym c)
            ∙ (h u w').order;
      }
  | inr (full, _) ↦ absurd (elim full [ inl l ↦ omega (arith, l, room) | inr n ↦ cc n ])
]

InOrder-refl : (t : SendTask) → IsWellFormed t.vbuf → InOrder t t
InOrder-refl t w = record { well_formed = w; order = refl }

gather-InOrder : (n : ℕ) (t : SendTask) → IsWellFormed t.vbuf → InOrder t (gather n t)
unfolding gather
gather-InOrder zero t w = InOrder-refl t w
gather-InOrder (suc n) t w = elim (Bool-cases (ltb (vlen t.vbuf) 60)) [
  | inl small ↦ rw small (
      push_next-InOrder (gather n) t t.queue w refl (omega (arith, ltb→lt _ _ small))
        (gather-InOrder n))
  | inr many ↦ rw many (InOrder-refl t w)
]

-- Bytes from the front of the slices are bytes from the front of the queue.
cut_front :
    (n : ℕ) (shown hidden : List ℕ)
    → n ≤ length shown
    → take n shown ++ drop n (shown ++ hidden) ≡ shown ++ hidden
cut_front n shown hidden l =
    ap (λ d. take n shown ++ d) (drop-append_le n shown hidden l)
    ∙ sym (append_assoc (take n shown) (drop n shown) hidden)
    ∙ ap (λ x. x ++ hidden) (take-append-drop n shown)

write_out-InOrder :
    (n : ℕ) (t : SendTask) (slices : List (List ℕ)) (hidden : List ℕ)
    → IsWellFormed t.vbuf
    → concat slices ++ hidden ≡ contents t.vbuf
    → InOrder t (write_out n t slices)
write_out-InOrder n t slices hidden w e =
    let shown = concat slices in
    let count = min n (length shown) in
    let (w', d) = advance_lem t.vbuf count w in
    let moved : take count shown ++ contents (advance t.vbuf count) ≡ contents t.vbuf =
      ap (λ l. take count shown ++ l) (d ∙ ap (drop count) (sym e))
      ∙ cut_front count shown hidden (omega arith)
      ∙ e in
    let o : stream_of t
        ≡ (t.out ++ take count shown) ++ (contents (advance t.vbuf count) ++ concat t.queue) =
      ap (λ l. t.out ++ (l ++ concat t.queue)) (sym moved)
      ∙ ap (λ l. t.out ++ l)
          (append_assoc (take count shown) (contents (advance t.vbuf count)) (concat t.queue))
      ∙ sym (append_assoc t.out (take count shown) _) in
    if_elim (InOrder t) (record { well_formed = w'; order = o })
      (record { well_formed = w'; order = o }) (count == 0)

-- A round goes through.
abbrev pub Goes : SendTask → Outcome SendTask → Type 0
Goes t r = (t' : SendTask) × (r ≡ ok t') × InOrder t t'

then_InOrder : (t u : SendTask) (r : Outcome SendTask) → InOrder t u → Goes u r → Goes t r
then_InOrder t u r h (v, e, k) =
    (v, e, record { well_formed = k.well_formed; order = h.order ∙ k.order })

write_buf-Goes :
    (r : SendRound) (t : SendTask) (o : Option ℕ) → IsWellFormed t.vbuf → Goes t (write_buf r t o)
write_buf-Goes r t none w = (stop t, refl, record { well_formed = w; order = refl })
write_buf-Goes r t (some n) w =
    let (s, e, c) = bytes_vectored_lem t.vbuf r.places w in
    (write_out n t s, ap (λ x. x >>= λ l. ok (write_out n t l)) e, write_out-InOrder n t s _ w c)

still : (t : SendTask) → IsWellFormed t.vbuf → Goes t (ok t)
still t w = (t, refl, InOrder-refl t w)

first_InOrder :
    (t : SendTask)
    → IsWellFormed t.vbuf
    → InOrder t (if vlen t.vbuf == 0 then push_next (λ t. t) t t.queue else t)
first_InOrder t w = elim (Bool-cases (vlen t.vbuf == 0)) [
  | inl idle ↦ rw idle (
      push_next-InOrder (λ t. t) t t.queue w refl (omega (arith, (==_iff _ _).0 idle)) InOrder-refl)
  | inr busy ↦ rw busy (InOrder-refl t w)
]

send_round-Goes : (r : SendRound) (t : SendTask) → IsWellFormed t.vbuf → Goes t (send_round r t)
unfolding send_round
send_round-Goes r t w =
    let t1 = if vlen t.vbuf == 0 then push_next (λ t. t) t t.queue else t in
    let h1 : InOrder t t1 = first_InOrder t w in
    let t2 = gather r.queued t1 in
    let h2 = gather-InOrder r.queued t1 h1.well_formed in
    if_elim (Goes t) (still t w)
      (if_elim (Goes t) (stop t, refl, record { well_formed = w; order = refl })
        (if_elim (Goes t) (t1, refl, h1)
          (if_elim (Goes t) (then_InOrder t t1 (ok t2) h1 (t2, refl, h2))
            (then_InOrder t t1 _ h1
              (then_InOrder t1 t2 _ h2 (write_buf-Goes r t2 r.writes h2.well_formed)))
            t2.over)
          t1.over)
        r.closed)
      t.over

handle_send-Goes :
    (rs : List SendRound) (t : SendTask) → IsWellFormed t.vbuf → Goes t (handle_send rs t)
unfolding handle_send
handle_send-Goes [] t w = still t w
handle_send-Goes (r ∷ rs) t w =
    let (t1, e, h) = send_round-Goes r t w in
    subst (λ x. Goes t (x >>= handle_send rs)) (sym e)
      (then_InOrder t t1 (handle_send rs t1) h (handle_send-Goes rs t1 h.well_formed))

-- The task at its start.
abbrev pub fresh : List (List ℕ) → SendTask
fresh queue = record { vbuf = Buffer.new; queue = queue; out = []; over = false }

-- Whatever its rounds see, the writing task does not fail, and what it has sent, then what is in its
-- buffers, then what is still in the queue are the bytes of the queued vectors, in order and each
-- once.
pub handle_send_lem :
    (rs : List SendRound) (queue : List (List ℕ))
    → (t : SendTask) × (handle_send rs (fresh queue) ≡ ok t)
      × (t.out ++ (contents t.vbuf ++ concat t.queue) ≡ concat queue)
handle_send_lem rs queue =
    let start : IsWellFormed (fresh queue).vbuf =
      unfold Buffer.new in record { filled = tt; cursor = refl } in
    let (t, e, h) = handle_send-Goes rs (fresh queue) start in
    (t, e, sym h.order ∙ unfold Buffer.new in refl)
