-- ===== src/Tunnel/Http/Passing.antt =====
-- `HttpReader::poll_read` (src/tunnel/http.rs) from the head of a request to the end of its body.
use rsnova.Base.{
  ℕ, ◌≤◌, ◌≡◌, refl, sym, ◌∙◌, ap, ◌⊎◌, inl, inr, Bool, true, false, List, [], ◌∷◌, ◌++◌, length,
  drop-all, arith, Bool-cases, if◌then◌else◌, append-nil,
}
use rsnova.Base.Int.{pos, negsuc}
use rsnova.Base.Fallback.{or_default}
use rsnova.Base.Outcome.{ok}
use rsnova.Buffer.Views.{fill_read_buf-fits}
use rsnova.Stream.{ready}
use rsnova.Tunnel.Http.{HttpRequest, to_bytes}
use rsnova.Tunnel.Http.Parsing.{Parsed, complete}
use rsnova.Tunnel.Http.Rewriting.{head_for_next, forwarded, says, last_of, parse_request-Forwards}
use rsnova.Tunnel.Http.Body.{is_zero, is_last_chunk}
use rsnova.Tunnel.Http.Tail.{
  keep, last_chunk, EndsChunks, check_chunked, is_last_chunk-only, is_last_chunk_iff,
}
use rsnova.Tunnel.Http.Reader.{
  decoding_header, decoding_body, HttpReader, got, state_after, reader_parse, take_bytes,
  poll_inner, poll_body, poll_read,
}

-- Inside a chunked body of which `seen` has gone through.
pub record Chunking (seen : List ℕ) (r : HttpReader) : Type 0 where
  pub in_body : r.state ≡ decoding_body
  pub idle : r.recv_buf ≡ []
  pub head_gone : r.http_buf ≡ []
  pub chunked : (n : ℕ) × (r.body_length ≡ negsuc n)
  pub tail : r.body_tail ≡ keep 5 seen
  pub unfinished : ¬ EndsChunks seen

-- After a chunked body, before the next request.
pub record Between (r : HttpReader) : Type 0 where
  pub in_header : r.state ≡ decoding_header
  pub idle : r.recv_buf ≡ []
  pub head_gone : r.http_buf ≡ []
  pub tail : r.body_tail ≡ last_chunk

module _ (httparse : List ℕ → Parsed) (dst_len : ℕ) where
  abbrev chunking : List ℕ → ℕ → HttpReader
  chunking seen n = record {
    state = decoding_body;
    recv_buf = [];
    http_buf = [];
    body_length = negsuc n;
    body_tail = keep 5 seen;
  }

  Chunking-eq :
      (seen : List ℕ) (r : HttpReader) (c : Chunking seen r) → r ≡ chunking seen (c.chunked.0)
  Chunking-eq seen r c = λ i. record {
    state = c.in_body i;
    recv_buf = c.idle i;
    http_buf = c.head_gone i;
    body_length = c.chunked.1 i;
    body_tail = c.tail i;
  }

  poll_read-chunking :
      (seen : List ℕ) (n b : ℕ) (bs : List ℕ)
      → ¬ EndsChunks seen
      → length (b ∷ bs) ≤ dst_len
      → poll_read httparse dst_len (chunking seen n) (got (b ∷ bs))
        ≡ ok (
          ready (b ∷ bs),
          record (chunking (seen ++ (b ∷ bs)) n) {
            state = state_after (is_last_chunk (keep 5 (seen ++ (b ∷ bs)))) decoding_body;
          },
        )
  unfolding poll_read poll_body poll_inner take_bytes
  poll_read-chunking seen n b bs u h =
      let open_end : is_last_chunk (keep 5 seen) ≡ false =
        elim (Bool-cases (is_last_chunk (keep 5 seen))) [
          | inl e ↦ absurd (u ((is_last_chunk_iff seen).0 e))
          | inr e ↦ e
        ] in
      let first = check_chunked seen [] dst_len n (omega arith) in
      rw
        (
          fill_read_buf-fits [] dst_len (omega arith),
          first,
          append-nil seen,
          open_end,
          check_chunked seen (b ∷ bs) dst_len n h,
        )
        refl

  abbrev EndsOrGoesOn : List ℕ → HttpReader → Type 0
  EndsOrGoesOn seen r = (EndsChunks seen × Between r) ⊎ Chunking seen r

  after_chunk :
      (seen : List ℕ) (n : ℕ) (b : Bool)
      → is_last_chunk (keep 5 seen) ≡ b
      → EndsOrGoesOn seen (record (chunking seen n) {
        state = state_after (is_last_chunk (keep 5 seen)) decoding_body;
      })
  after_chunk seen n true e = inl (
    (is_last_chunk_iff seen).0 e,
    record {
      in_header = ap (λ b. state_after b decoding_body) e;
      idle = refl;
      head_gone = refl;
      tail = is_last_chunk-only (keep 5 seen) e;
    },
  )
  after_chunk seen n false e = inr (record {
    in_body = ap (λ b. state_after b decoding_body) e;
    idle = refl;
    head_gone = refl;
    chunked = (n, refl);
    tail = refl;
    unfinished = λ h. cc (sym e ∙ (is_last_chunk_iff seen).1 h);
  })

  -- A reader inside a chunked body of which `seen` has gone through, and a read of one byte or more
  -- that the caller's buffer has room for. The poll hands these bytes on as they are. If the body so
  -- far ends with `0\r\n\r\n`, the reader is back between two requests, else it is inside the
  -- body, of which these bytes have gone through as well.
  pub poll_read-Chunking :
      (seen : List ℕ) (r : HttpReader) (b : ℕ) (bs : List ℕ)
      → Chunking seen r
      → length (b ∷ bs) ≤ dst_len
      → (r' : HttpReader) × (poll_read httparse dst_len r (got (b ∷ bs)) ≡ ok (ready (b ∷ bs), r'))
        × ((EndsChunks (seen ++ (b ∷ bs)) × Between r') ⊎ Chunking (seen ++ (b ∷ bs)) r')
  poll_read-Chunking seen r b bs c h = (
    _,
    ap (λ r. poll_read httparse dst_len r (got (b ∷ bs))) (Chunking-eq seen r c)
        ∙ poll_read-chunking seen (c.chunked.0) b bs (c.unfinished) h,
    after_chunk (seen ++ (b ∷ bs)) (c.chunked.0) _ refl,
  )

  -- Between two requests, the read of a whole head.
  pub poll_read-head :
      (r : HttpReader) (req : HttpRequest) (b : ℕ) (bs : List ℕ)
      → r.state ≡ decoding_header
      → r.recv_buf ≡ []
      → r.http_buf ≡ []
      → httparse (b ∷ bs) ≡ complete (length (b ∷ bs)) req
      → length (to_bytes (head_for_next req)) ≤ dst_len
      → let n = or_default (last_of says (forwarded req.headers)) (pos 0) in
        poll_read httparse dst_len r (got (b ∷ bs))
        ≡ ok (
          ready (to_bytes (head_for_next req)),
          record {
            state = if is_zero n then decoding_header else decoding_body;
            recv_buf = [];
            http_buf = [];
            body_length = n;
            body_tail = r.body_tail;
          },
        )
  unfolding poll_read poll_body poll_inner take_bytes reader_parse
  poll_read-head r req b bs s i g e h =
      rw
        (
          g,
          fill_read_buf-fits [] dst_len (omega arith),
          s,
          i,
          parse_request-Forwards httparse (b ∷ bs) [] (length (b ∷ bs)) req e (omega arith),
          fill_read_buf-fits (to_bytes (head_for_next req)) dst_len h,
          drop-all (length bs) bs (omega arith),
        )
        refl
