-- ===== src/Tests/Proxying.antt =====
-- HTTP requests through the proxy. The stand-in for `httparse` knows two heads, and takes what starts
-- with any other byte for no request.
use rsnova.Base.{
  ℕ, ◌≡◌, ◌≤◌, ap, ◌⊎◌, refl, true, none, some, List, [], ◌∷◌, ◌++◌, length, drop, arith, ◌==◌,
  if◌then◌else◌, length-append,
}
use rsnova.Base.Int.{pos, negsuc}
use rsnova.Base.Fallback.{or_default}
use rsnova.Base.Text.{codes, first_index, contains}
use rsnova.Base.Outcome.{ok, err, failed}
use rsnova.Stream.{ready}
use rsnova.Crypto.Reader.{bytes}
use rsnova.Io.Separator.{Finder, read_until_separator}
use rsnova.Io.Separator.Finding.{Ends, read_until_separator-Ends}
use rsnova.Tunnel.Http.{HttpRequest, to_bytes, get_header}
use rsnova.Tunnel.Http.Parsing.{Parsed, complete, malformed, parse_request, rewritten}
use rsnova.Tunnel.Http.Rewriting.{
  head_for_next, forwarded, says, names_host, last_of, parse_request-Forwards, get_header-rewritten,
}
use rsnova.Tunnel.Http.Tail.{last_chunk, EndsChunks}
use rsnova.Tunnel.Http.Reader.{HttpReader, decoding_header, decoding_body, got, poll_read}
use rsnova.Tunnel.Http.Passing.{Chunking, Between, poll_read-Chunking}
use rsnova.Tunnel.Http.Sized.{polls, Awaits, polls-Awaits}
use rsnova.Tunnel.Http.Refusing.{second_chunked_body_refused, first_body_refused}
use rsnova.Tunnel.Http.Handling.{Proxied, header_end, handle_http}

abbrev request : HttpRequest
request = record {
  method = some (codes "POST");
  path = some (codes "http://a.b/c");
  version = some 1;
  headers =
      record { name = codes "Host"; value = codes "a.b" }
      ∷ record { name = codes "Proxy-Connection"; value = codes "keep-alive" }
      ∷ record { name = codes "Transfer-Encoding"; value = codes "chunked" }
      ∷ [];
}

-- The head on the wire; what it says is up to the stand-in.
abbrev head : List ℕ
head = codes "POST" ++ header_end

abbrev as_head : ℕ → List ℕ → Parsed
as_head n [] = malformed
as_head n (c ∷ cs) = if c == b'P' then complete n request else malformed

abbrev httparse : List ℕ → Parsed
httparse buf = as_head (length buf) buf

abbrev find : Finder
find buf needle = first_index needle buf

parse_request-Forwards_example :
    parse_request httparse head (some [])
    ≡ ok (record {
      success = true;
      remote_host = or_default (last_of names_host (forwarded request.headers)) [];
      body_length = or_default (last_of says (forwarded request.headers)) (pos 0);
      http_buf = some (to_bytes (head_for_next request));
      recv_buf = drop 8 head;
    })
parse_request-Forwards_example =
    parse_request-Forwards httparse head [] 8 request refl (omega arith)

forwarded_head :
    to_bytes (head_for_next request)
    ≡ codes "POST /c HTTP/1.1"
      ++ (13
          ∷ 10
          ∷ (codes "Host:a.b" ++ (13 ∷ 10 ∷ (codes "Transfer-Encoding:chunked" ++ header_end))))
unfolding to_bytes first_index
forwarded_head = refl

get_header-rewritten_example :
    (get_header (rewritten request) (codes "Proxy-Authorization") ≡ none)
    × (get_header (rewritten request) (codes "Proxy-Connection") ≡ none)
    × (get_header (rewritten request) (codes "HOST") ≡ get_header request (codes "HOST"))
get_header-rewritten_example = get_header-rewritten request (codes "HOST") refl refl

-- A reader that has passed the byte `5` of a chunked body.
abbrev in_body : HttpReader
in_body = record {
  state = decoding_body;
  recv_buf = [];
  http_buf = [];
  body_length = negsuc 0;
  body_tail = b'5' ∷ [];
}

begun : ¬ EndsChunks (b'5' ∷ [])
begun (front, e) = absurd (omega (arith, ap length e, length-append front last_chunk))

chunking : Chunking (b'5' ∷ []) in_body
chunking = record {
  in_body = refl;
  idle = refl;
  head_gone = refl;
  chunked = (0, refl);
  tail = refl;
  unfinished = begun;
}

poll_read-Chunking_example :
    (r' : HttpReader) × (poll_read httparse 8192 in_body (got last_chunk)
      ≡ ok (ready last_chunk, r'))
    × ((EndsChunks ((b'5' ∷ []) ++ last_chunk) × Between r')
        ⊎ Chunking ((b'5' ∷ []) ++ last_chunk) r')
poll_read-Chunking_example =
    poll_read-Chunking httparse 8192 (b'5' ∷ []) in_body b'0' (13 ∷ 10 ∷ 13 ∷ 10 ∷ []) chunking
      (omega arith)

abbrev sized : HttpReader
sized = record {
  state = decoding_body;
  recv_buf = [];
  http_buf = [];
  body_length = pos 3;
  body_tail = [];
}

polls-Awaits_example :
    (r' : HttpReader) × (polls httparse 8192 ((7 ∷ []) ∷ (8 ∷ 9 ∷ []) ∷ []) sized
      ≡ ok (7 ∷ 8 ∷ 9 ∷ [], r'))
    × Awaits 0 r'
polls-Awaits_example =
    polls-Awaits httparse 8192 3 sized ((7 ∷ []) ∷ (8 ∷ 9 ∷ []) ∷ [])
      (record { state = refl; idle = refl; head_gone = refl; left = refl })
      ((omega arith, omega arith), ((omega arith, omega arith), tt)) refl

abbrev between : HttpReader
between = record {
  state = decoding_header;
  recv_buf = [];
  http_buf = [];
  body_length = negsuc 0;
  body_tail = last_chunk;
}

is_between : Between between
is_between = record { in_header = refl; idle = refl; head_gone = refl; tail = refl }

chunked : or_default (last_of says (forwarded request.headers)) (pos 0) ≡ negsuc 0
unfolding contains first_index
chunked = refl

short_head : length (to_bytes (head_for_next request)) ≤ 8192
short_head = omega (arith, ap length forwarded_head)

second_chunked_body_refused_example :
    (r' : HttpReader) × (poll_read httparse 8192 between (got head)
      ≡ ok (ready (to_bytes (head_for_next request)), r'))
    × (poll_read httparse 8192 r' (got (b'5' ∷ 13 ∷ 10 ∷ [])) ≡ err failed)
second_chunked_body_refused_example =
    second_chunked_body_refused httparse 8192 between request 0 b'P' b'5'
      (b'O' ∷ b'S' ∷ b'T' ∷ header_end) (13 ∷ 10 ∷ []) is_between refl chunked short_head refl

head_place : first_index header_end head ≡ some 4
unfolding first_index
head_place = refl

first_body_refused_example :
    (p : Proxied) × (r : HttpReader) × (handle_http find httparse 2 (bytes head ∷ []) ≡ ok p)
    × (p.reads ≡ [])
    × (poll_read httparse 8192 p.reader (got (b'5' ∷ []))
        ≡ ok (ready (to_bytes (head_for_next request)), r))
    × (poll_read httparse 8192 r (got (b'5' ∷ 13 ∷ 10 ∷ [])) ≡ err failed)
first_body_refused_example =
    first_body_refused httparse 8192 find 1 4 b'5' head (13 ∷ 10 ∷ []) [] request (got (b'5' ∷ []))
      (λ buf needle. refl) head_place refl refl short_head refl

read_until_separator-Ends_example :
    Ends find
      (λ buf needle. refl)
      header_end
      (head ++ [])
      (first_index header_end (head ++ []))
      (read_until_separator find header_end 2 (bytes head ∷ []))
read_until_separator-Ends_example =
    read_until_separator-Ends find (λ buf needle. refl) header_end 2 (bytes head ∷ []) (omega arith)
      (omega arith, tt)
