-- ===== src/Tunnel/Tls/Hello.antt =====
-- The server name in a ClientHello, and that `peek_sni` (src/tunnel/tls.rs) finds it.
use rsnova.Base.{
  ℕ, ◌+◌, ◌%◌, ◌^◌, ◌<◌, ◌≤◌, ◌≡◌, refl, ap, false, List, [], ◌∷◌, ◌++◌, length, le→ltb, ◌==◌,
  arith, drop-append, length-append, All,
}
use rsnova.Base.Outcome.{ok}
use rsnova.Tunnel.Tls.{after_session_id, client_hello, peek_sni}
use rsnova.Tunnel.Socks5.Handshake.{to_be16, read_exact-append}
use rsnova.Tunnel.Tls.Extensions.{
  extension, extensions, names, IsOther, word-bytes, slice_from-append, scan_extensions-names,
}

-- A ClientHello: the 37 bytes behind its first one (its length, its version and its random bytes), the
-- session id, the cipher suites, the compression methods, and the extensions with the server's name.
pub record ClientHello : Type 0 where
  pub front : List ℕ
  pub sid : List ℕ
  pub ciphers : List ℕ
  pub compression : List ℕ
  pub before : List (ℕ × List ℕ)
  pub name : List ℕ
  pub after : List ℕ

abbrev pub all_extensions : ClientHello → List ℕ
all_extensions h = extensions h.before (extension (0, names h.name) h.after)

abbrev pub behind_ciphers : ClientHello → List ℕ
behind_ciphers h =
    length h.compression
    ∷ (h.compression ++ (to_be16 (length (all_extensions h)) ++ all_extensions h))

abbrev pub behind_sid : ClientHello → List ℕ
behind_sid h = to_be16 (length h.ciphers) ++ (h.ciphers ++ behind_ciphers h)

abbrev pub message : ClientHello → List ℕ
message h = 1 ∷ (h.front ++ (length h.sid ∷ (h.sid ++ behind_sid h)))

abbrev pub to_record : ClientHello → List ℕ
to_record h = 22 ∷ 3 ∷ 1 ∷ (to_be16 (length (message h)) ++ message h)

pub record IsHello (h : ClientHello) : Type 0 where
  pub front : length h.front ≡ 37
  pub even : length h.ciphers % 2 ≡ 0
  pub others : All IsOther h.before
  pub short : length (message h) < 2 ^ 16

length-extensions :
    (es : List (ℕ × List ℕ)) (more : List ℕ) → length es + length more ≤ length (extensions es more)
length-extensions [] more = omega arith
length-extensions ((t, c) ∷ es) more =
    omega (arith, length-extensions es more, length-append c (extensions es more))

room : (h : ClientHello) → length h.before + (9 + length h.name) ≤ length (all_extensions h)
room h = omega (
  arith,
  length-extensions h.before (extension (0, names h.name) h.after),
  length-append h.name h.after,
)

length-behind_ciphers :
    (h : ClientHello)
    → length (behind_ciphers h) ≡ 3 + length h.compression + length (all_extensions h)
length-behind_ciphers h =
    omega
      (arith, length-append h.compression (to_be16 (length (all_extensions h)) ++ all_extensions h))

length-behind_sid :
    (h : ClientHello) → length (behind_sid h) ≡ 2 + length h.ciphers + length (behind_ciphers h)
length-behind_sid h = omega (arith, length-append h.ciphers (behind_ciphers h))

length-message :
    (h : ClientHello)
    → length (message h) ≡ 2 + length h.front + length h.sid + length (behind_sid h)
length-message h = omega (
  arith,
  length-append h.front (length h.sid ∷ (h.sid ++ behind_sid h)),
  length-append h.sid (behind_sid h),
)

after_session_id-hello : (h : ClientHello) → IsHello h → after_session_id (behind_sid h) ≡ ok h.name
unfolding after_session_id
after_session_id-hello h w =
    let exts = all_extensions h in
    let c = length h.ciphers in
    let m = length h.compression in
    let p = length-message h in
    let q = length-behind_sid h in
    let r = length-behind_ciphers h in
    let big = room h in
    let short = w.short in
    let even = w.even in
    let e1 = le→ltb (length (behind_sid h)) 2 (omega (arith, q)) in
    let e2 = word-bytes c (omega (arith, p, q, short)) in
    let e3 : (c % 2 == 1) ≡ false = ap (λ k. k == 1) even in
    let e4 = le→ltb (length (behind_sid h)) (3 + c) (omega (arith, q, r)) in
    let e5 = slice_from-append (2 + c) (to_be16 c ++ h.ciphers) (behind_ciphers h) (omega arith) in
    let e6 = le→ltb (length (behind_ciphers h)) (1 + m) (omega (arith, r)) in
    let e7 =
      drop-append (1 + m) (m ∷ h.compression) (to_be16 (length exts) ++ exts) (omega arith) in
    let e8 = le→ltb (length (to_be16 (length exts) ++ exts)) 2 (omega arith) in
    let e9 = word-bytes (length exts) (omega (arith, p, q, r, short)) in
    let e10 = le→ltb (length exts) (length exts) (omega arith) in
    let e11 : (length exts == 0) ≡ false = ground (arith, big) in
    rw (e1, e2, e3, e4, e5, e6, e7, e8, e9, e10, e11)
      (scan_extensions-names (length exts + 1) h.before h.name h.after (omega (arith, big)) w.others
        (omega (arith, big, p, q, r, short)))

client_hello-message : (h : ClientHello) → IsHello h → client_hello (message h) ≡ ok h.name
unfolding client_hello
client_hello-message h w =
    let behind = length h.sid ∷ (h.sid ++ behind_sid h) in
    let front = w.front in
    let e1 = slice_from-append 38 (1 ∷ h.front) behind (omega (arith, front)) in
    let e2 =
      slice_from-append (1 + length h.sid) (length h.sid ∷ h.sid) (behind_sid h) (omega arith) in
    rw (e1, e2) (after_session_id-hello h w)

-- A ClientHello record with a name for the server, with any extensions of other types in front of
-- the one with the name and anything behind it, on a connection that goes on in any way. `peek_sni`
-- gives the name, the bytes of the record for the relay, and leaves the rest of the connection.
pub peek_sni-to_record :
    (h : ClientHello) (rest : List ℕ)
    → IsHello h
    → peek_sni (to_record h ++ rest) ≡ ok (h.name, to_record h, rest)
unfolding peek_sni
peek_sni-to_record h rest w =
    let n = length (message h) in
    let short = w.short in
    let big : 42 ≤ n =
      omega
        (arith, w.front, length-message h, length-behind_sid h, length-behind_ciphers h, room h) in
    let e1 = read_exact-append 5 (22 ∷ 3 ∷ 1 ∷ to_be16 n) (message h ++ rest) refl in
    let e2 = word-bytes n short in
    let e3 = le→ltb n 42 big in
    let e4 = read_exact-append n (message h) rest refl in
    rw (e1, e2, e3, e4, client_hello-message h w) refl
