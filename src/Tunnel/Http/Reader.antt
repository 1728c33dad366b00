-- ===== src/Tunnel/Http/Reader.antt =====
-- `HttpReader` of src/tunnel/http.rs: the reader that a relay takes the client's bytes from, with
-- the head of each request rewritten.
use rsnova.Base.{ℕ, ◌++◌, Bool, Option, none, some, List, [], ◌∷◌, if◌then◌else◌}
use rsnova.Base.Int.{ℤ, pos}
use rsnova.Base.Outcome.{Outcome, ok, err, failed, ◌>>=◌}
use rsnova.Buffer.{fill_read_buf, is_nil}
use rsnova.Stream.{Poll, ready, pending}
use rsnova.Tunnel.Http.Parsing.{Parsed, Request, parse_request}
use rsnova.Tunnel.Http.Body.{Checked, is_zero, check_body_complete_and_fill_read_buf}

pub data HttpDecodeState : Type 0 where
  decoding_header : HttpDecodeState
  decoding_body : HttpDecodeState

pub record HttpReader : Type 0 where
  pub state : HttpDecodeState
  pub recv_buf : List ℕ
  pub http_buf : List ℕ
  pub body_length : ℤ
  pub body_tail : List ℕ

-- What the connection answers when it is polled.
pub data Answer : Type 0 where
  got : List ℕ → Answer
  broken : Answer
  not_ready : Answer

unfoldable pub new_http_reader : HttpReader
new_http_reader = record {
  state = decoding_header;
  recv_buf = [];
  http_buf = [];
  body_length = pos 0;
  body_tail = [];
}

unfoldable pub add_recv_content : HttpReader → List ℕ → HttpReader
add_recv_content r b = record r { recv_buf = r.recv_buf ++ b }

-- What a poll gives, with the reader after it; an error of the code is a `Poll::Ready(Err(..))`.
abbrev pub Polled : Type 0
Polled = Outcome (Poll (List ℕ) × HttpReader)

abbrev pub state_after : Bool → HttpDecodeState → HttpDecodeState
state_after complete s = if complete then decoding_header else s

-- The reader after a check of the body.
abbrev pub checked : HttpReader → Checked → HttpReader
checked r c = record r {
  state = state_after c.complete r.state;
  recv_buf = c.recv_buf;
  body_tail = c.tail;
  body_length = c.body_len;
}

abbrev pub check_body : ℕ → HttpReader → Outcome Checked
check_body dst_len r =
    check_body_complete_and_fill_read_buf r.recv_buf dst_len r.body_tail r.body_length

abbrev pub or_buf : Option (List ℕ) → List ℕ → List ℕ
or_buf none b = b
or_buf (some h) b = h

module _ (httparse : List ℕ → Parsed) where
  -- `HttpReader::parse_request`: the two buffers move on, the state and the length stay.
  unfoldable pub reader_parse : HttpReader → Outcome (Request × HttpReader)
  reader_parse r = parse_request httparse r.recv_buf (some r.http_buf) >>= λ q.
      ok (q, record r { recv_buf = q.recv_buf; http_buf = or_buf q.http_buf r.http_buf })

  -- Behind a head that was parsed: `fill_read_buf(http_buf, buf)`.
  abbrev pub give_head : ℕ → HttpReader → Polled
  give_head dst_len r = fill_read_buf r.http_buf dst_len >>= λ (out, rest).
      ok (ready out, record r { http_buf = rest })

  abbrev pub after_parse : ℕ → Request × HttpReader → Polled
  after_parse dst_len (q, r) =
      if q.success
      then give_head dst_len (record r {
        state = if is_zero q.body_length then decoding_header else decoding_body;
        body_length = q.body_length;
      })
      else ok (ready [], r)

  -- The end of `poll_read`, by the state.
  unfoldable pub take_bytes : ℕ → HttpReader → HttpDecodeState → Polled
  unfolding reader_parse
  take_bytes dst_len r decoding_header = reader_parse r >>= after_parse dst_len
  take_bytes dst_len r decoding_body = check_body dst_len r >>= λ c. ok (ready c.out, checked r c)

  unfoldable pub poll_inner : ℕ → HttpReader → Answer → Polled
  unfolding take_bytes
  poll_inner dst_len r (got []) = ok (ready [], r)
  poll_inner dst_len r (got (b ∷ bs)) =
      take_bytes dst_len (record r { recv_buf = r.recv_buf ++ (b ∷ bs) }) r.state
  poll_inner dst_len r broken = err failed
  poll_inner dst_len r not_ready = ok (pending, r)

  abbrev pub out_or_inner : ℕ → Answer → List ℕ × HttpReader → Polled
  out_or_inner dst_len a (out, r) =
      let more = poll_inner dst_len r a in if is_nil out then more else ok (ready out, r)

  -- What is left of a body goes out before the connection is read.
  unfoldable pub poll_body : ℕ → Answer → HttpReader → HttpDecodeState → Polled
  unfolding poll_inner
  poll_body dst_len a r decoding_header = poll_inner dst_len r a
  poll_body dst_len a r decoding_body =
      check_body dst_len r >>= λ c. out_or_inner dst_len a (c.out, checked r c)

  unfoldable pub poll_read : ℕ → HttpReader → Answer → Polled
  unfolding poll_body
  poll_read dst_len r a = fill_read_buf r.http_buf dst_len >>= λ (out, rest).
      let r' = record r { http_buf = rest } in
      let more = poll_body dst_len a r' r'.state in if is_nil out then more else ok (ready out, r')
