-- ===== src/Tunnel/Http/Handling.antt =====
-- `handle_http` and `handle_https` of src/tunnel/http.rs, up to the call of the relay, whose
-- arguments are the result. Whether `write_all` to an HTTPS client succeeds is the argument `writes`.
use rsnova.Base.{ℕ, Bool, not, none, List, [], ◌∷◌, ◌++◌, if◌then◌else◌}
use rsnova.Base.Text.{codes, has}
use rsnova.Base.Outcome.{Outcome, ok, err, panic, stuck, other, failed, ◌>>=◌, ◌>>◌, fail_if}
use rsnova.Crypto.Reader.{Read}
use rsnova.Io.Separator.{Finder, read_until_separator}
use rsnova.Tunnel.Http.Parsing.{Parsed, Request, parse_request}
use rsnova.Tunnel.Http.Reader.{HttpReader, new_http_reader, add_recv_content, reader_parse}

abbrev pub header_end : List ℕ
header_end = 13 ∷ 10 ∷ 13 ∷ 10 ∷ []

-- `Err(_e) => return Err(make_error(..))`
abbrev pub or_unparsed {ℓ} : {A : Type ℓ} → Outcome A → Outcome A
or_unparsed (err e) = err (other "failed to parse http header")
or_unparsed (ok a) = ok a
or_unparsed panic = panic
or_unparsed stuck = stuck

abbrev pub incomplete : Request → Outcome (Unit {0})
incomplete q = fail_if (not q.success) (other "failed to parse http header complete")

abbrev pub with_port : List ℕ → List ℕ
with_port target = if has b':' target then target else target ++ codes ":80"

-- The client's side of a relay: the target, the reader, and the reads to come.
pub record Proxied : Type 0 where
  pub target : List ℕ
  pub reader : HttpReader
  pub reads : List Read

pub record Tunnelled : Type 0 where
  pub target : List ℕ
  pub reads : List Read
  pub sent : List ℕ

module _ (find_bytes : Finder) (httparse : List ℕ → Parsed) where
  unfoldable pub handle_http : ℕ → List Read → Outcome Proxied
  unfolding reader_parse new_http_reader add_recv_content
  handle_http fuel reads = do
    s ← read_until_separator find_bytes header_end fuel reads
    let hreader = add_recv_content (add_recv_content new_http_reader s.head) s.body
    (q, hreader') ← or_unparsed (reader_parse httparse hreader)
    incomplete q
    ok (record { target = with_port q.remote_host; reader = hreader'; reads = s.reads })

  -- What was read behind the head is dropped.
  unfoldable pub handle_https : ℕ → List Read → Bool → Outcome Tunnelled
  handle_https fuel reads writes = do
    s ← read_until_separator find_bytes header_end fuel reads
    q ← or_unparsed (parse_request httparse s.head none)
    incomplete q
    fail_if (not writes) failed
    ok (record {
      target = q.remote_host;
      reads = s.reads;
      sent = codes "HTTP/1.0 200 Connection established" ++ header_end;
    })
