-- ===== src/Tunnel/Http/Rewriting.antt =====
-- What `parse_request` (src/tunnel/http.rs) makes of a complete head.
use rsnova.Base.{
  ℕ, ◌≤◌, ◌≡◌, refl, sym, ◌∙◌, ap, inl, inr, Bool, true, false, not, ◌||◌, Option, none, some, List,
  [], ◌∷◌, ◌++◌, length, drop, le→ltb, arith, Bool-cases, if◌then◌else◌, append-nil, append_assoc,
}
use rsnova.Base.Int.{ℤ, pos, negsuc}
use rsnova.Base.Text.{codes, to_ascii_lowercase, same_bytes, same_bytes_iff, contains}
use rsnova.Base.Fallback.{or_else, or_default, or_default-or_else}
use rsnova.Base.Outcome.{ok}
use rsnova.Tunnel.Http.{Header, HttpRequest, to_bytes, same_name, retain, first_value, get_header}
use rsnova.Tunnel.Http.Parsing.{
  Parsed, complete, Scan, set_length, parse_u64, as_i64, name_is, note_header, push_header,
  scan_header, scan_headers, no_headers, map_path, rewritten, with_request, parse_request,
}

abbrev pub is_hop : Header → Bool
is_hop h = name_is h "proxy-authorization" || name_is h "proxy-connection"

-- The headers that are for the next host.
abbrev pub forwarded : List Header → List Header
forwarded hs = retain (λ h. not (is_hop h)) hs

abbrev pub of_number : Option ℕ → Option ℤ
of_number none = none
of_number (some v) = some (as_i64 v)

-- What a header says of the body's length: -1 if it is chunked.
abbrev pub says : Header → Option ℤ
says h =
    if name_is h "transfer-encoding"
    then (if contains (codes "chunked") h.value then some (negsuc 0) else none)
    else if name_is h "content-length"
    then of_number (parse_u64 h.value)
    else none

abbrev pub names_host : Header → Option (List ℕ)
names_host h =
    if name_is h "transfer-encoding" || name_is h "content-length"
    then none
    else if name_is h "host"
    then some h.value
    else none

-- The last header that says something has the say.
abbrev pub last_of {ℓ} : {A : Type ℓ} → (Header → Option A) → List Header → Option A
last_of f [] = none
last_of f (h ∷ hs) = or_else (last_of f hs) (f h)

note_header_lem :
    (h : Header) (s : Scan)
    → note_header h s ≡ record s {
      body_length = or_default (says h) s.body_length;
      remote_host = or_default (names_host h) s.remote_host;
    }
unfolding note_header
note_header_lem h s = elim (Bool-cases (name_is h "transfer-encoding")) [
  | inl t ↦ elim (Bool-cases (contains (codes "chunked") h.value)) [
    | inl c ↦ rw (t, c) refl
    | inr c ↦ rw (t, c) refl
  ]
  | inr t ↦ elim (Bool-cases (name_is h "content-length")) [
    | inl l ↦ rw (t, l) (length_set (parse_u64 h.value))
    | inr l ↦ elim (Bool-cases (name_is h "host")) [
      | inl o ↦ rw (t, l, o) refl
      | inr o ↦ rw (t, l, o) refl
    ]
  ]
]
  where
    length_set :
        (v : Option ℕ)
        → set_length v s ≡ record s { body_length = or_default (of_number v) s.body_length }
    length_set none = refl
    length_set (some v) = refl

-- The scan after some more headers.
abbrev scanned : List Header → Scan → Scan
scanned hs s = record {
  headers = s.headers ++ forwarded hs;
  body_length = or_default (last_of says (forwarded hs)) s.body_length;
  remote_host = or_default (last_of names_host (forwarded hs)) s.remote_host;
}

scan_header-hop : (h : Header) (s : Scan) → is_hop h ≡ true → scan_header h s ≡ s
unfolding scan_header
scan_header-hop h s e = ground (arith, e)

scan_header-forwarded :
    (h : Header) (s : Scan) → is_hop h ≡ false → scan_header h s ≡ push_header h (note_header h s)
unfolding scan_header
scan_header-forwarded h s e = ground (arith, e)

scan_headers_lem : (hs : List Header) (s : Scan) → scan_headers hs s ≡ scanned hs s
unfolding scan_headers
scan_headers_lem [] s = λ i. record s { headers = sym (append-nil s.headers) i }
scan_headers_lem (h ∷ hs) s = elim (Bool-cases (is_hop h)) [
  | inl e ↦ rw (scan_header-hop h s e, e) (scan_headers_lem hs s)
  | inr e ↦
      scan_headers_lem hs (scan_header h s)
      ∙ ap (scanned hs) (scan_header-forwarded h s e ∙ ap (push_header h) (note_header_lem h s))
      ∙ rw e λ i. record {
        headers = append_assoc s.headers (h ∷ []) (forwarded hs) i;
        body_length =
            sym (or_default-or_else (last_of says (forwarded hs)) (says h) s.body_length) i;
        remote_host =
            sym
              (or_default-or_else (last_of names_host (forwarded hs)) (names_host h) s.remote_host)
              i;
      }
]

-- The head that goes to the next host: the request line with the path from the first slash behind
-- the host on, and the headers that are for that host, unchanged and in order.
abbrev pub head_for_next : HttpRequest → HttpRequest
head_for_next req = record {
  method = req.method;
  path = map_path req.path;
  version = req.version;
  headers = forwarded req.headers;
}

rewritten_lem : (req : HttpRequest) → rewritten req ≡ head_for_next req
unfolding rewritten
rewritten_lem req = λ i. record {
  method = req.method;
  path = map_path req.path;
  version = req.version;
  headers = (scan_headers_lem req.headers no_headers i).headers;
}

-- A head of `n` bytes that is complete. `parse_request` takes exactly these off the buffer, leaves
-- what follows them, and replaces the contents of the buffer for the head by the bytes of the
-- rewritten request. The body's length and the host are what the last of the forwarded headers says
-- that says one: -1 for a chunked body, 0 and no host if none does.
pub parse_request-Forwards :
    (httparse : List ℕ → Parsed) (buf hbuf : List ℕ) (n : ℕ) (req : HttpRequest)
    → httparse buf ≡ complete n req
    → n ≤ length buf
    → parse_request httparse buf (some hbuf)
      ≡ ok (record {
        success = true;
        remote_host = or_default (last_of names_host (forwarded req.headers)) [];
        body_length = or_default (last_of says (forwarded req.headers)) (pos 0);
        http_buf = some (to_bytes (head_for_next req));
        recv_buf = drop n buf;
      })
unfolding parse_request with_request
parse_request-Forwards httparse buf hbuf n req e h =
    ap (with_request buf (some hbuf)) e
    ∙ rw (le→ltb (length buf) n h) λ i. ok (record {
      success = true;
      remote_host = (scan_headers_lem req.headers no_headers i).remote_host;
      body_length = (scan_headers_lem req.headers no_headers i).body_length;
      http_buf = some (to_bytes (rewritten_lem req i));
      recv_buf = drop n buf;
    })

module _ (keep : Header → Bool) (name : List ℕ) where
  first_value-kept :
      (hs : List Header)
      → ((h : Header) → keep h ≡ false → same_name h.name name ≡ false)
      → first_value (retain keep hs) name ≡ first_value hs name
  first_value-kept [] other = refl
  first_value-kept (h ∷ hs) other = elim (Bool-cases (keep h)) [
    | inl k ↦ rw (k, first_value-kept hs other) refl
    | inr k ↦ rw (k, other h k) (first_value-kept hs other)
  ]

  first_value-gone :
      (hs : List Header)
      → ((h : Header) → keep h ≡ true → same_name h.name name ≡ false)
      → first_value (retain keep hs) name ≡ none
  first_value-gone [] none_left = refl
  first_value-gone (h ∷ hs) none_left = elim (Bool-cases (keep h)) [
    | inl k ↦ rw (k, none_left h k) (first_value-gone hs none_left)
    | inr k ↦ rw k (first_value-gone hs none_left)
  ]

-- Two names that a third equals are equal.
same_name-via :
    (a b c : List ℕ) → same_bytes a b ≡ true → same_bytes a c ≡ true → same_bytes b c ≡ true
same_name-via a b c p q =
    (same_bytes_iff b c).1 (sym ((same_bytes_iff a b).0 p) ∙ (same_bytes_iff a c).0 q)

-- The rewritten request has no header for this proxy, in whatever case its name is written, and each
-- other header that the client sent has the value that the client gave it.
pub get_header-rewritten :
    (req : HttpRequest) (name : List ℕ)
    → same_name (codes "Proxy-Authorization") name ≡ false
    → same_name (codes "Proxy-Connection") name ≡ false
    → (get_header (rewritten req) (codes "Proxy-Authorization") ≡ none)
      × (get_header (rewritten req) (codes "Proxy-Connection") ≡ none)
      × (get_header (rewritten req) name ≡ get_header req name)
unfolding get_header
get_header-rewritten req name a c =
    let keep = λ (h : Header). not (is_hop h) in
    let e = ap (λ (r : HttpRequest). r.headers) (rewritten_lem req) in
    let other : (h : Header) → keep h ≡ false → same_name h.name name ≡ false = (λ h k.
      elim (Bool-cases (same_name h.name name)) [
        | inr f ↦ f
        | inl t ↦ elim (Bool-cases (name_is h "proxy-authorization")) [
          | inl p ↦ cc (same_name-via (to_ascii_lowercase h.name) _ _ p t)
          | inr p ↦ elim (Bool-cases (name_is h "proxy-connection")) [
            | inl q ↦ cc (same_name-via (to_ascii_lowercase h.name) _ _ q t)
            | inr q ↦ ground (arith, k, p, q)
          ]
        ]
      ]) in
    (
      ap (λ hs. first_value hs (codes "Proxy-Authorization")) e
          ∙ first_value-gone keep _ req.headers (λ h k. ground (arith, k)),
      ap (λ hs. first_value hs (codes "Proxy-Connection")) e
          ∙ first_value-gone keep _ req.headers (λ h k. ground (arith, k)),
      ap (λ hs. first_value hs name) e ∙ first_value-kept keep name req.headers other,
    )
