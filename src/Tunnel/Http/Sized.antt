-- ===== src/Tunnel/Http/Sized.antt =====
-- `HttpReader::poll_read` (src/tunnel/http.rs) inside a body of a known length.
use rsnova.Base.{
  ℕ, zero, suc, false, ◌==◌, ◌-◌, ◌<◌, ◌≤◌, ◌≡◌, refl, ◌∙◌, ap, List, [], ◌∷◌, ◌++◌, length, concat,
  All, arith, length-append,
}
use rsnova.Base.Int.{pos, sub_ℕ}
use rsnova.Base.Outcome.{Outcome, ok, stuck, ◌>>=◌}
use rsnova.Buffer.Views.{fill_read_buf-fits}
use rsnova.Stream.{Poll, ready, pending}
use rsnova.Tunnel.Http.Parsing.{Parsed}
use rsnova.Tunnel.Http.Body.{is_zero, check_body_complete_and_fill_read_buf}
use rsnova.Tunnel.Http.Reader.{
  HttpDecodeState, decoding_header, decoding_body, HttpReader, got, state_after, take_bytes,
  poll_inner, poll_body, poll_read,
}

abbrev pub state_for : ℕ → HttpDecodeState
state_for zero = decoding_header
state_for (suc n) = decoding_body

-- A reader that holds nothing back, before the last `n` bytes of a body; none is the place where the
-- next request begins.
pub record Awaits (n : ℕ) (r : HttpReader) : Type 0 where
  pub state : r.state ≡ state_for n
  pub idle : r.recv_buf ≡ []
  pub head_gone : r.http_buf ≡ []
  pub left : r.body_length ≡ pos n

module _ (httparse : List ℕ → Parsed) (dst_len : ℕ) where
  -- A poll for each read, and all that they hand on.
  abbrev pub polls : List (List ℕ) → HttpReader → Outcome (List ℕ × HttpReader)
  polls [] r = ok ([], r)
  polls (c ∷ cs) r = poll_read httparse dst_len r (got c) >>= λ (p, r'). elim p [
    | ready out ↦ polls cs r' >>= λ (outs, r''). ok (out ++ outs, r'')
    | pending ↦ stuck
  ]

  abbrev awaiting : ℕ → List ℕ → HttpReader
  awaiting n tail = record {
    state = state_for n;
    recv_buf = [];
    http_buf = [];
    body_length = pos n;
    body_tail = tail;
  }

  Awaits-eq : (n : ℕ) (r : HttpReader) → Awaits n r → r ≡ awaiting n r.body_tail
  Awaits-eq n r a = λ i. record {
    state = a.state i;
    recv_buf = a.idle i;
    http_buf = a.head_gone i;
    body_length = a.left i;
    body_tail = r.body_tail;
  }

  poll_read-awaiting :
      (m b : ℕ) (bs tail : List ℕ)
      → length (b ∷ bs) ≤ suc m
      → length (b ∷ bs) ≤ dst_len
      → poll_read httparse dst_len (awaiting (suc m) tail) (got (b ∷ bs))
        ≡ ok (ready (b ∷ bs), awaiting (suc m - length (b ∷ bs)) tail)
  unfolding poll_read poll_body poll_inner take_bytes check_body_complete_and_fill_read_buf
  poll_read-awaiting m b bs tail h fits =
      let e1 = fill_read_buf-fits [] dst_len (omega arith) in
      let e2 = fill_read_buf-fits (b ∷ bs) dst_len fits in
      let e3 : sub_ℕ (suc m) 0 ≡ pos (suc m) = ground arith in
      let e0 : (suc m == 0) ≡ false = ground arith in
      let e4 : sub_ℕ (suc m) (length (b ∷ bs)) ≡ pos (suc m - length (b ∷ bs)) = ground arith in
      rw (e1, e3, e0, e2, e4) (next (suc m - length (b ∷ bs)))
    where
      next :
          (n : ℕ)
          → Path
              (Outcome (Poll (List ℕ) × HttpReader))
              (ok (
                ready (b ∷ bs),
                record (awaiting n tail) { state = state_after (is_zero (pos n)) decoding_body },
              ))
              (ok (ready (b ∷ bs), awaiting n tail))
      next zero = refl
      next (suc n) = let e : (suc n == 0) ≡ false = ground arith in rw e refl

  -- A read that gives something, for which the caller's buffer has room.
  abbrev pub Fits : List ℕ → Type 0
  Fits c = (0 < length c) × (length c ≤ dst_len)

  polls-awaiting :
      (chunks : List (List ℕ)) (n : ℕ) (tail : List ℕ)
      → All Fits chunks
      → length (concat chunks) ≡ n
      → polls chunks (awaiting n tail) ≡ ok (concat chunks, awaiting 0 tail)
  polls-awaiting [] zero tail f e = refl
  polls-awaiting [] (suc n) tail f e = absurd (omega arith)
  polls-awaiting ([] ∷ cs) n tail f e = absurd (omega (arith, f.0.0))
  polls-awaiting ((b ∷ bs) ∷ cs) zero tail f e = absurd (omega arith)
  polls-awaiting ((b ∷ bs) ∷ cs) (suc m) tail f e =
      let c = b ∷ bs in
      let whole = length-append c (concat cs) in
      rw
        (
          poll_read-awaiting m b bs tail (omega (arith, e, whole)) (f.0.1),
          polls-awaiting cs (suc m - length c) tail (f.1) (omega (arith, e, whole)),
        )
        refl

  -- The polls of a reader that stands before the last `n` bytes of a body, over reads that together
  -- are these bytes, cut in any way into pieces that the caller's buffer has room for. They hand on
  -- just these bytes in order, and the reader is back where the next request begins.
  pub polls-Awaits :
      (n : ℕ) (r : HttpReader) (chunks : List (List ℕ))
      → Awaits n r
      → All Fits chunks
      → length (concat chunks) ≡ n
      → (r' : HttpReader) × (polls chunks r ≡ ok (concat chunks, r')) × Awaits 0 r'
  polls-Awaits n r chunks a f e = (
    awaiting 0 r.body_tail,
    ap (polls chunks) (Awaits-eq n r a) ∙ polls-awaiting chunks n r.body_tail f e,
    record { state = refl; idle = refl; head_gone = refl; left = refl },
  )
