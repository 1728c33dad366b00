-- ===== src/Tunnel/Http/Parsing.antt =====
-- `parse_request` of src/tunnel/http.rs. The crate `httparse` is an argument: what it makes of the
-- bytes received so far.
use Prim.Native.String.{String}
use rsnova.Base.{
  ℕ, ◌+◌, ◌-◌, ◌*◌, ◌^◌, Bool, true, false, ◌&&◌, Option, none, some, List, [], ◌∷◌, ◌++◌, drop,
  ltb, leb, ◌==◌, if◌then◌else◌,
}
use rsnova.Base.Int.{ℤ, pos, negsuc}
use rsnova.Base.Text.{codes, to_ascii_lowercase, same_bytes, starts_with, contains, first_index}
use rsnova.Base.Outcome.{Outcome, ok, err, failed, ◌>>=◌}
use rsnova.Base.Slice.{slice_from}
use rsnova.Tunnel.Http.{Header, HttpRequest, to_bytes}

-- A complete request with the number of bytes of its head, a part of one, or an error.
pub data Parsed : Type 0 where
  complete : ℕ → HttpRequest → Parsed
  partial : Parsed
  malformed : Parsed

-- `str::parse::<u64>`: digits, with a plus sign before them or none, of a value below 2 ^ 64.
abbrev pub is_digit : ℕ → Bool
is_digit c = leb b'0' c && leb c b'9'

unfoldable pub parse_digits : List ℕ → ℕ → Option ℕ
parse_digits [] acc = some acc
parse_digits (c ∷ cs) acc =
    let later = parse_digits cs (acc * 10 + (c - b'0')) in
    if is_digit c && ltb (acc * 10 + (c - b'0')) (2 ^ 64) then later else none

abbrev pub nonempty_digits : List ℕ → Option ℕ
nonempty_digits [] = none
nonempty_digits (c ∷ cs) = parse_digits (c ∷ cs) 0

unfoldable pub parse_u64 : List ℕ → Option ℕ
unfolding parse_digits
parse_u64 [] = none
parse_u64 (c ∷ cs) = if c == b'+' then nonempty_digits cs else nonempty_digits (c ∷ cs)

-- `v as i64`
abbrev pub as_i64 : ℕ → ℤ
as_i64 v = if ltb v (2 ^ 63) then pos v else negsuc (2 ^ 64 - 1 - v)

-- What the loop over the headers gathers.
pub record Scan : Type 0 where
  pub headers : List Header
  pub body_length : ℤ
  pub remote_host : List ℕ

abbrev pub set_length : Option ℕ → Scan → Scan
set_length none s = s
set_length (some v) s = record s { body_length = as_i64 v }

abbrev pub name_is : Header → String → Bool
name_is h name = same_bytes (to_ascii_lowercase h.name) (codes name)

-- The arms of `match hn.as_str()` that keep the header.
unfoldable pub note_header : Header → Scan → Scan
unfolding parse_u64 contains
note_header h s =
    if name_is h "transfer-encoding"
    then (if contains (codes "chunked") h.value then record s { body_length = negsuc 0 } else s)
    else if name_is h "content-length"
    then set_length (parse_u64 h.value) s
    else if name_is h "host"
    then record s { remote_host = h.value }
    else s

abbrev pub push_header : Header → Scan → Scan
push_header h s = record s { headers = s.headers ++ (h ∷ []) }

unfoldable pub scan_header : Header → Scan → Scan
unfolding note_header
scan_header h s =
    if name_is h "proxy-authorization"
    then s
    else if name_is h "proxy-connection"
    then s
    else push_header h (note_header h s)

unfoldable pub scan_headers : List Header → Scan → Scan
unfolding scan_header
scan_headers [] s = s
scan_headers (h ∷ hs) s = scan_headers hs (scan_header h s)

abbrev pub no_headers : Scan
no_headers = record { headers = []; body_length = pos 0; remote_host = [] }

-- `http://host/path` becomes `/path`; with no slash behind the host the path stays as it is.
abbrev pub from_slash : List ℕ → List ℕ → Option ℕ → List ℕ
from_slash v vv none = v
from_slash v vv (some n) = drop n vv

abbrev pub rewrite_path : List ℕ → List ℕ
rewrite_path v =
    let vv = drop 7 v in
    if starts_with (codes "http://") v then from_slash v vv (first_index (b'/' ∷ []) vv) else v

abbrev pub map_path : Option (List ℕ) → Option (List ℕ)
map_path none = none
map_path (some v) = some (rewrite_path v)

-- The three results, the buffer that the rewritten head goes to, if there is one, and what is left
-- to parse.
pub record Request : Type 0 where
  pub success : Bool
  pub remote_host : List ℕ
  pub body_length : ℤ
  pub http_buf : Option (List ℕ)
  pub recv_buf : List ℕ

abbrev pub written : Option (List ℕ) → List ℕ → Option (List ℕ)
written none b = none
written (some hbuf) b = some b

unfoldable pub rewritten : HttpRequest → HttpRequest
unfolding scan_headers
rewritten req = record {
  method = req.method;
  path = map_path req.path;
  version = req.version;
  headers = (scan_headers req.headers no_headers).headers;
}

unfoldable pub with_request : List ℕ → Option (List ℕ) → Parsed → Outcome Request
unfolding rewritten
with_request recv_buf http_buf malformed = err failed
with_request recv_buf http_buf partial = ok (record {
  success = false;
  remote_host = [];
  body_length = pos 0;
  http_buf = http_buf;
  recv_buf = recv_buf;
})
with_request recv_buf http_buf (complete n req) =
    let scan = scan_headers req.headers no_headers in
    slice_from n recv_buf >>= λ rest. ok (record {
      success = true;
      remote_host = scan.remote_host;
      body_length = scan.body_length;
      http_buf = written http_buf (to_bytes (rewritten req));
      recv_buf = rest;
    })

module _ (httparse : List ℕ → Parsed) where
  unfoldable pub parse_request : List ℕ → Option (List ℕ) → Outcome Request
  unfolding with_request
  parse_request recv_buf http_buf = with_request recv_buf http_buf (httparse recv_buf)
