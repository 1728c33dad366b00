-- ===== src/Tunnel/Http/Refusing.antt =====
-- Bodies that `HttpReader` (src/tunnel/http.rs) takes for the head of a request.
use rsnova.Base.{
  ℕ, suc, ◌+◌, ◌≤◌, ◌≡◌, refl, ◌∙◌, ap, false, some, List, [], ◌∷◌, ◌++◌, length, take-all,
  drop-all, arith, if◌then◌else◌, append-nil,
}
use rsnova.Base.Int.{pos, negsuc}
use rsnova.Base.Text.{first_index}
use rsnova.Base.Fallback.{or_default}
use rsnova.Base.Outcome.{ok, err, failed}
use rsnova.Buffer.{is_nil}
use rsnova.Buffer.Views.{fill_read_buf-fits}
use rsnova.Stream.{ready}
use rsnova.Crypto.Reader.{Read, bytes}
use rsnova.Io.Separator.{Finder, read_until, read_until_separator}
use rsnova.Io.Separator.Finding.{FindsFirst}
use rsnova.Tunnel.Http.{HttpRequest, to_bytes, word, version_text}
use rsnova.Tunnel.Http.Parsing.{Parsed, complete, malformed, parse_request, with_request}
use rsnova.Tunnel.Http.Rewriting.{
  head_for_next, forwarded, says, names_host, last_of, parse_request-Forwards,
}
use rsnova.Tunnel.Http.Tail.{last_chunk, check_chunked}
use rsnova.Tunnel.Http.Body.{is_zero, is_last_chunk}
use rsnova.Tunnel.Http.Reader.{
  decoding_header, decoding_body, HttpReader, Answer, got, new_http_reader, add_recv_content,
  reader_parse, take_bytes, poll_inner, poll_body, poll_read,
}
use rsnova.Tunnel.Http.Passing.{Between, poll_read-head}
use rsnova.Tunnel.Http.Handling.{Proxied, header_end, with_port, handle_http}

module _ (httparse : List ℕ → Parsed) (dst_len : ℕ) where
  -- Behind the head of a request with a chunked body, with the tail that the last one left.
  abbrev stale : ℕ → HttpReader
  stale n = record {
    state = decoding_body;
    recv_buf = [];
    http_buf = [];
    body_length = negsuc n;
    body_tail = last_chunk;
  }

  stale_refuses :
      (n c : ℕ) (cs : List ℕ)
      → httparse (c ∷ cs) ≡ malformed
      → poll_read httparse dst_len (stale n) (got (c ∷ cs)) ≡ err failed
  unfolding poll_read poll_body poll_inner take_bytes reader_parse parse_request with_request
      is_last_chunk
  stale_refuses n c cs e =
      rw
        (
          fill_read_buf-fits [] dst_len (omega arith),
          check_chunked last_chunk [] dst_len n (omega arith),
          e,
        )
        refl

  -- A second request with a chunked body on one connection. The reader has passed a first one and is
  -- between two requests; the head of the second arrives whole, says that its body is chunked, and
  -- is handed on. But the tail still holds the end of the first body, so the second body counts as
  -- complete before any of it has arrived: what arrives is parsed as the head of a request, and if
  -- it is none, the poll fails.
  pub second_chunked_body_refused :
      (r : HttpReader) (req : HttpRequest) (n b c : ℕ) (bs cs : List ℕ)
      → Between r
      → httparse (b ∷ bs) ≡ complete (length (b ∷ bs)) req
      → or_default (last_of says (forwarded req.headers)) (pos 0) ≡ negsuc n
      → length (to_bytes (head_for_next req)) ≤ dst_len
      → httparse (c ∷ cs) ≡ malformed
      → (r' : HttpReader) × (poll_read httparse dst_len r (got (b ∷ bs))
          ≡ ok (ready (to_bytes (head_for_next req)), r'))
        × (poll_read httparse dst_len r' (got (c ∷ cs)) ≡ err failed)
  second_chunked_body_refused r req n b c bs cs t e k h m = (
    stale n,
    poll_read-head httparse dst_len r req b bs (t.in_header) (t.idle) (t.head_gone) e h ∙ λ i. ok (
      ready (to_bytes (head_for_next req)),
      record {
        state = (ap (λ z. if is_zero z then decoding_header else decoding_body) k) i;
        recv_buf = [];
        http_buf = [];
        body_length = k i;
        body_tail = (t.tail) i;
      },
    ),
    stale_refuses n c cs m,
  )

  is_nil-append : (xs : List ℕ) (ys : List ℕ) → is_nil ys ≡ false → is_nil (xs ++ ys) ≡ false
  is_nil-append [] ys h = h
  is_nil-append (x ∷ xs) ys h = refl

  is_nil-to_bytes : (r : HttpRequest) → is_nil (to_bytes r) ≡ false
  unfolding to_bytes
  is_nil-to_bytes r =
      is_nil-append (word r.method) _
        (is_nil-append (word r.path) _ (is_nil-append (version_text r.version) _ refl))

  -- Behind the head that `handle_http` has parsed.
  abbrev handled : HttpRequest → HttpReader
  handled req = record {
    state = decoding_header;
    recv_buf = [];
    http_buf = to_bytes (head_for_next req);
    body_length = pos 0;
    body_tail = [];
  }

  abbrev sent_on : HttpReader
  sent_on = record {
    state = decoding_header;
    recv_buf = [];
    http_buf = [];
    body_length = pos 0;
    body_tail = [];
  }

  handle_http-handled :
      (find : Finder) (law : FindsFirst find) (fuel i : ℕ) (head : List ℕ) (later : List Read)
      (req : HttpRequest)
      → first_index header_end head ≡ some i
      → i + 4 ≡ length head
      → httparse head ≡ complete (length head) req
      → handle_http find httparse (suc fuel) (bytes head ∷ later)
        ≡ ok (record {
          target = with_port (or_default (last_of names_host (forwarded req.headers)) []);
          reader = handled req;
          reads = later;
        })
  unfolding handle_http read_until_separator read_until reader_parse new_http_reader
      add_recv_content
  handle_http-handled find law fuel i head later req fi l e =
      rw
        (
          law head header_end,
          fi,
          l,
          take-all (length head) head (omega arith),
          drop-all (length head) head (omega arith),
          append-nil head,
          parse_request-Forwards httparse head [] (length head) req e (omega arith),
          drop-all (length head) head (omega arith),
        )
        refl

  -- The first request of a connection, whose head arrives in one read by itself, and then some bytes
  -- of its body. `handle_http` accepts it, whatever length of body the head announces; the first
  -- poll hands the rewritten head on; and the next one parses the bytes of the body as the head of
  -- another request, and fails if they are none.
  pub first_body_refused :
      (find : Finder) (fuel i c : ℕ) (head cs : List ℕ) (later : List Read) (req : HttpRequest)
      (a : Answer)
      → FindsFirst find
      → first_index header_end head ≡ some i
      → i + 4 ≡ length head
      → httparse head ≡ complete (length head) req
      → length (to_bytes (head_for_next req)) ≤ dst_len
      → httparse (c ∷ cs) ≡ malformed
      → (p : Proxied) × (r : HttpReader) × (handle_http find httparse
            (suc fuel)
            (bytes head ∷ later)
          ≡ ok p)
        × (p.reads ≡ later)
        × (poll_read httparse dst_len p.reader a ≡ ok (ready (to_bytes (head_for_next req)), r))
        × (poll_read httparse dst_len r (got (c ∷ cs)) ≡ err failed)
  unfolding poll_read poll_body poll_inner take_bytes reader_parse parse_request with_request
  first_body_refused find fuel i c head cs later req a law fi l e h m = (
    _,
    sent_on,
    handle_http-handled find law fuel i head later req fi l e,
    refl,
    rw
        (
          fill_read_buf-fits (to_bytes (head_for_next req)) dst_len h,
          is_nil-to_bytes (head_for_next req),
        )
        refl,
    rw (fill_read_buf-fits [] dst_len (omega arith), m) refl,
  )
