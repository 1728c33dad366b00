-- ===== src/Stream/Overlong.antt =====
-- `poll_read` of src/rmux/stream.rs on a vector that two read buffers do not hold.
use rsnova.Base.{
  ℕ, ◌+◌, ◌<◌, ◌≡◌, refl, ◌∙◌, ap, inl, inr, false, Option, List, [], ◌∷◌, length, take, drop,
  lt→ltb, arith, length-drop,
}
use rsnova.Base.Outcome.{ok, panic}
use rsnova.Buffer.Views.{fill_read_buf_cases}
use rsnova.Stream.{
  Channel, ready, MuxStreamReader, got, Report, inc_recv_buf_window, poll_read, take_vector,
  after_recv, count_read,
}
use rsnova.Stream.Reading.{inc-closed, poll_recv-cons, poll_read-empty}

poll_read-left_long :
    (n : ℕ) (r : MuxStreamReader) (a : Report) (x : ℕ) (xs : List ℕ)
    → r.state.closed ≡ false
    → r.recv_buf ≡ x ∷ xs
    → n < length (x ∷ xs)
    → poll_read r n a ≡ panic
unfolding poll_read
poll_read-left_long n r a x xs o b l = elim (fill_read_buf_cases (x ∷ xs) n) [
  | inl (short, _) ↦ absurd (omega arith)
  | inr (_, e) ↦ simp (o, b, e)
]

take_vector-long :
    (n : ℕ) (r : MuxStreamReader) (a : Report) (x : ℕ) (xs : List ℕ)
    → n < length (x ∷ xs)
    → take_vector r n a (x ∷ xs) ≡ count_read r a (take n (x ∷ xs)) (drop n (x ∷ xs))
unfolding take_vector
take_vector-long n r a x xs l = rw (lt→ltb n (length (x ∷ xs)) l)

-- A vector longer than two read buffers brings the reader down: the first read of an open stream,
-- into a buffer of `n` bytes, gives its first `n` bytes, and the second one panics.
pub poll_read_panics :
    (n : ℕ) (r : MuxStreamReader) (a b : Report) (d : List ℕ) (ds : List (List ℕ))
    → 0 < n
    → r.state.closed ≡ false
    → r.recv_buf ≡ []
    → r.rx.queue ≡ d ∷ ds
    → n + n < length d
    → (r' : MuxStreamReader) × (w : Option ℕ) × (poll_read r n a
        ≡ ok (ready (got (take n d)), r', w))
      × (poll_read r' n b ≡ panic)
unfolding after_recv take_vector count_read
poll_read_panics n r a b [] ds pos o e q l = absurd (omega arith)
poll_read_panics n r a b (x ∷ xs) ds pos o e q l =
    let d = x ∷ xs in
    let c : Channel = record (r.rx) { queue = ds } in
    let r0 : MuxStreamReader = record r { rx = c; recv_buf = [] } in
    let counted = inc_recv_buf_window r.state (length (take n d)) a in
    let r' : MuxStreamReader = record { rx = c; recv_buf = drop n d; state = counted.0 } in
    (
      r',
      counted.1,
      poll_read-empty n r a o e
          ∙ ap (λ t. ok (after_recv r n a t)) (poll_recv-cons r.rx d ds q)
          ∙ ap ok (take_vector-long n r0 a x xs (omega arith)),
      panics r' (drop n d) (inc-closed r.state (length (take n d)) a ∙ o) refl
          (omega (arith, length-drop n d)),
    )
  where
    panics :
        (r' : MuxStreamReader) (left : List ℕ)
        → r'.state.closed ≡ false
        → r'.recv_buf ≡ left
        → n < length left
        → poll_read r' n b ≡ panic
    panics r' [] o' e' l' = absurd (omega arith)
    panics r' (y ∷ ys) o' e' l' = poll_read-left_long n r' b y ys o' e' l'
