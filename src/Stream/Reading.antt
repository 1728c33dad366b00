-- ===== src/Stream/Reading.antt =====
-- `poll_read` of src/rmux/stream.rs and the bytes of the queued vectors.
use rsnova.Base.{
  ℕ, ◌+◌, ◌<◌, ◌≤◌, ◌≡◌, refl, sym, ◌∙◌, ap, ap₂, subst, ◌⊎◌, inl, inr, true, false, Option, none,
  some, List, [], ◌∷◌, ◌++◌, length, take, drop, All, ltb, arith, if◌then◌else◌, take-append-drop,
  length-take, length-drop, append_assoc,
}
use rsnova.Base.Outcome.{Outcome, ok, panic}
use rsnova.Base.Word.{add32}
use rsnova.Buffer.Views.{fill_read_buf_cases}
use rsnova.Stream.{
  Channel, Poll, ready, pending, MuxStreamState, MuxStreamReader, ReadResult, got, closed_error,
  Report, inc_recv_buf_window, poll_read, poll_recv, take_vector, after_recv, count_read,
}

-- The vectors up to the first empty one, which ends the stream.
abbrev pub until_end : List (List ℕ) → List ℕ
until_end [] = []
until_end ([] ∷ ds) = []
until_end ((b ∷ bs) ∷ ds) = (b ∷ bs) ++ until_end ds

-- The bytes that the application is still to be given.
abbrev pub unread : MuxStreamReader → List ℕ
unread r = if r.state.closed then [] else r.recv_buf ++ until_end r.rx.queue

-- Between reads into buffers of `n` bytes: what is left over fits the next one, and every queued
-- vector fits two of them.
pub record Fits (n : ℕ) (r : MuxStreamReader) : Type 0 where
  pub left_over : length r.recv_buf ≤ n
  pub vectors : All (λ d. length d ≤ n + n) r.rx.queue

-- A read that is not pending gives the next bytes, as many as fit, none of them only at the end of
-- the stream; it counts them, and the reader stays as the next read wants it.
abbrev pub Serves :
    ℕ → MuxStreamReader → Outcome (Poll ReadResult × MuxStreamReader × Option ℕ) → Type 0
Serves n r (ok (ready (got out), r', w)) =
    (out ++ unread r' ≡ unread r)
    × (length out ≤ n)
    × (((0 < length out)
          × (r'.state.total_recv_bytes ≡ add32 r.state.total_recv_bytes (length out)))
        ⊎ ((out ≡ []) × (unread r ≡ []) × (r'.state.total_recv_bytes ≡ r.state.total_recv_bytes)))
    × Fits n r'
Serves n r (ok (ready closed_error, r', w)) = ⊥
Serves n r (ok (pending, r', w)) =
    (r.rx.queue ≡ []) × (unread r ≡ []) × (unread r' ≡ []) × Fits n r'
Serves n r (Outcome.err e) = ⊥
Serves n r panic = ⊥
Serves n r Outcome.stuck = ⊥

pub inc-closed :
    (s : MuxStreamState) (n : ℕ) (a : Report) → (inc_recv_buf_window s n a).0.closed ≡ s.closed
unfolding inc_recv_buf_window
inc-closed s n a = ground arith

inc-total :
    (s : MuxStreamState) (n : ℕ) (a : Report)
    → (inc_recv_buf_window s n a).0.total_recv_bytes ≡ add32 s.total_recv_bytes n
unfolding inc_recv_buf_window
inc-total s n a = ground arith

unread-open :
    (r : MuxStreamReader) → r.state.closed ≡ false → unread r ≡ r.recv_buf ++ until_end r.rx.queue
unread-open r e = rw e

-- `count_read` moves the counters and keeps the rest.
count_read-Serves :
    (n : ℕ) (r r0 : MuxStreamReader) (a : Report) (out left : List ℕ)
    → r.state ≡ r0.state
    → r0.state.closed ≡ false
    → out ++ (left ++ until_end r.rx.queue) ≡ r0.recv_buf ++ until_end r0.rx.queue
    → length out ≤ n
    → 0 < length out
    → length left ≤ n
    → All (λ d. length d ≤ n + n) r.rx.queue
    → Serves n r0 (ok (count_read r a out left))
unfolding count_read
count_read-Serves n r r0 a out left es open_state e small some_bytes fits vs =
    let r' : MuxStreamReader = record r {
      recv_buf = left;
      state = (inc_recv_buf_window r.state (length out) a).0;
    } in
    let c : r'.state.closed ≡ false =
      inc-closed r.state (length out) a ∙ ap (λ (s : MuxStreamState). s.closed) es ∙ open_state in
    (
      ap (◌++◌ out) (unread-open r' c) ∙ e ∙ sym (unread-open r0 open_state),
      small,
      inl (
        some_bytes,
        inc-total r.state (length out) a
            ∙ ap (λ (s : MuxStreamState). add32 s.total_recv_bytes (length out)) es,
      ),
      record { left_over = fits; vectors = vs },
    )

-- The vector `d` at the head of the queue, with `c` the channel behind it.
take_vector-Serves :
    (n : ℕ) (r : MuxStreamReader) (a : Report) (d : List ℕ) (c : Channel)
    → 0 < n
    → r.state.closed ≡ false
    → r.recv_buf ≡ []
    → r.rx.queue ≡ d ∷ c.queue
    → length d ≤ n + n
    → All (λ e. length e ≤ n + n) c.queue
    → Serves n r (ok (take_vector (record r { rx = c; recv_buf = [] }) n a d))
unfolding take_vector
take_vector-Serves n r a [] c pos o b q l vs =
    let done : unread r ≡ [] = unread-open r o ∙ ap₂ (λ x y. x ++ until_end y) b q in
    (
      sym done,
      omega arith,
      inr (refl, done, refl),
      record { left_over = omega arith; vectors = vs },
    )
take_vector-Serves n r a (x ∷ xs) c pos o b q l vs =
    let d = x ∷ xs in
    let k = if ltb n (length d) then n else length d in
    let kn : (0 < k) × (k ≤ n) × (k ≤ length d) × (length d ≤ k + n) = ground arith in
    count_read-Serves n (record r { rx = c; recv_buf = [] }) r a (take k d) (drop k d) refl o
      (sym (append_assoc (take k d) (drop k d) (until_end c.queue))
        ∙ ap (λ t. t ++ until_end c.queue) (take-append-drop k d)
        ∙ sym (ap₂ (λ x y. x ++ until_end y) b q))
      (omega (arith, length-take k d, kn)) (omega (arith, length-take k d, kn))
      (omega (arith, length-drop k d, kn)) vs

pub poll_recv-cons :
    (c : Channel) (d : List ℕ) (ds : List (List ℕ))
    → c.queue ≡ d ∷ ds
    → poll_recv c ≡ (ready (some d), record c { queue = ds })
unfolding poll_recv
poll_recv-cons c d ds q = ground arith

poll_recv-nil :
    (c : Channel) → c.queue ≡ [] → (poll_recv c ≡ (ready none, c)) ⊎ (poll_recv c ≡ (pending, c))
unfolding poll_recv
poll_recv-nil c q = ground arith

recv-Serves :
    (n : ℕ) (r : MuxStreamReader) (a : Report) (q : List (List ℕ))
    → 0 < n
    → r.state.closed ≡ false
    → r.recv_buf ≡ []
    → r.rx.queue ≡ q
    → All (λ e. length e ≤ n + n) q
    → Serves n r (ok (after_recv r n a (poll_recv r.rx)))
unfolding after_recv
recv-Serves n r a [] pos o b q vs =
    let done : unread r ≡ [] = unread-open r o ∙ ap₂ (λ x y. x ++ until_end y) b q in
    let r' : MuxStreamReader = record r { recv_buf = [] } in
    let fits : Fits n r' = record {
      left_over = omega arith;
      vectors = subst (All (λ e. length e ≤ n + n)) (sym q) tt;
    } in
    elim (poll_recv-nil r.rx q) [
      | inl e ↦
          subst (λ x. Serves n r (ok (after_recv r n a x))) (sym e)
            (sym done, omega arith, inr (refl, done, refl), fits')
      | inr e ↦
          subst (λ x. Serves n r (ok (after_recv r n a x))) (sym e)
            (q, done, unread-open r' o ∙ ap until_end q, fits)
    ]
  where
    fits' : Fits n (record r {
      state = record (r.state) { closed = true };
      rx = record (r.rx) { rx_closed = true };
      recv_buf = [];
    })
    fits' = record {
      left_over = omega arith;
      vectors = subst (All (λ e. length e ≤ n + n)) (sym q) tt;
    }
recv-Serves n r a (d ∷ ds) pos o b q vs =
    subst (λ x. Serves n r (ok (after_recv r n a x))) (sym (poll_recv-cons r.rx d ds q))
      (take_vector-Serves n r a d (record (r.rx) { queue = ds }) pos o b q vs.0 vs.1)

pub poll_read-empty :
    (n : ℕ) (r : MuxStreamReader) (a : Report)
    → r.state.closed ≡ false
    → r.recv_buf ≡ []
    → poll_read r n a ≡ ok (after_recv r n a (poll_recv r.rx))
unfolding poll_read
poll_read-empty n r a o b = simp (o, b)

poll_read-left :
    (n : ℕ) (r : MuxStreamReader) (a : Report) (x : ℕ) (xs : List ℕ)
    → r.state.closed ≡ false
    → r.recv_buf ≡ x ∷ xs
    → length r.recv_buf ≤ n
    → poll_read r n a ≡ ok (count_read r a (x ∷ xs) [])
unfolding poll_read
poll_read-left n r a x xs o b l = elim (fill_read_buf_cases (x ∷ xs) n) [
  | inl (_, e) ↦ simp (o, b, e)
  | inr (long, _) ↦ absurd (omega (arith, ap length b))
]

-- A read of an open stream into a buffer of `n` bytes, where what is left over fits it and every
-- queued vector fits two such buffers: it does not panic, gives the next bytes in order, counts
-- them, and leaves a reader of which the same holds.
pub poll_read-Serves :
    (n : ℕ) (r : MuxStreamReader) (a : Report)
    → 0 < n
    → r.state.closed ≡ false
    → Fits n r
    → Serves n r (poll_read r n a)
poll_read-Serves n r a pos o h = go r.recv_buf refl
  where
    go : (b : List ℕ) → r.recv_buf ≡ b → Serves n r (poll_read r n a)
    go [] b =
        subst (Serves n r) (sym (poll_read-empty n r a o b))
          (recv-Serves n r a r.rx.queue pos o b refl h.vectors)
    go (x ∷ xs) b = subst (Serves n r) (sym (poll_read-left n r a x xs o b h.left_over)) (
        count_read-Serves n r r a (x ∷ xs) [] refl o (ap (λ t. t ++ until_end r.rx.queue) (sym b))
          (omega (arith, h.left_over, ap length b)) (omega arith) (omega arith) h.vectors)
