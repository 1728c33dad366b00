-- ===== src/Tunnel/Socks5/Handshake.antt =====
-- The handshake of src/tunnel/socks5.rs with a client that keeps to the protocol.
use rsnova.Base.{
  ℕ, zero, suc, ◌+◌, ◌-◌, ◌*◌, ◌/◌, ◌%◌, ◌^◌, ◌<◌, ◌≡◌, refl, sym, ◌∙◌, ap, bit_or, true, false,
  List, [], ◌∷◌, ◌++◌, length, le→ltb, arith, take-append, drop-append, length-append, append_assoc,
}
use rsnova.Base.Bits.{bit_or-shl_byte}
use rsnova.Base.Text.{has}
use rsnova.Base.Utf8.{is_utf8}
use rsnova.Base.Outcome.{ok, err, other}
use rsnova.Base.Slice.{index}
use rsnova.Tunnel.Tls.{read_exact}
use rsnova.Tunnel.Socks5.{
  Target, ipv4, ipv6, domain, be16, name_port, read_ipv4, read_ipv6, read_domain, read_target,
  method_reply, resp, read_request, handle_socks5,
}

-- A 16-bit number, high byte first.
abbrev pub to_be16 : ℕ → List ℕ
to_be16 w = (w / 256) ∷ (w % 256) ∷ []

-- What a client sends: the methods that it offers, and the address.
abbrev pub greeting : List ℕ → List ℕ
greeting methods = 5 ∷ length methods ∷ methods

abbrev pub kind : Target → ℕ
kind (ipv4 a b c d port) = 1
kind (ipv6 a b c d e f g h port) = 4
kind (domain name port) = 3

abbrev pub address : Target → List ℕ
address (ipv4 a b c d port) = a ∷ b ∷ c ∷ d ∷ to_be16 port
address (ipv6 a b c d e f g h port) =
    to_be16 a
    ++ to_be16 b
    ++ to_be16 c
    ++ to_be16 d
    ++ to_be16 e
    ++ to_be16 f
    ++ to_be16 g
    ++ to_be16 h
    ++ to_be16 port
address (domain name port) = length name ∷ (name ++ to_be16 port)

abbrev pub request : Target → List ℕ
request t = 5 ∷ 1 ∷ 0 ∷ kind t ∷ []

-- 16-bit numbers, and a name that is a text.
abbrev pub IsTarget : Target → Type 0
IsTarget (ipv4 a b c d port) = port < 2 ^ 16
IsTarget (ipv6 a b c d e f g h port) =
    (a < 2 ^ 16)
    × (b < 2 ^ 16)
    × (c < 2 ^ 16)
    × (d < 2 ^ 16)
    × (e < 2 ^ 16)
    × (f < 2 ^ 16)
    × (g < 2 ^ 16)
    × (h < 2 ^ 16)
    × (port < 2 ^ 16)
IsTarget (domain name port) = (is_utf8 name ≡ true) × (port < 2 ^ 16)

be16-bytes : (w : ℕ) → w < 2 ^ 16 → be16 (w / 256) (w % 256) ≡ w
unfolding be16
be16-bytes w h =
    let e : w / 256 * 256 % 2 ^ 16 ≡ w / 256 * 256 = omega arith in
    ap (λ x. bit_or x (w % 256)) e ∙ bit_or-shl_byte (w / 256) (w % 256) (omega arith) ∙ omega arith

pub read_exact-append :
    (n : ℕ) (xs ys : List ℕ) → length xs ≡ n → read_exact n (xs ++ ys) ≡ ok (xs, ys)
read_exact-append n xs ys h =
    rw
      (
        le→ltb (length (xs ++ ys)) n (omega (arith, h, length-append xs ys)),
        take-append n xs ys h,
        drop-append n xs ys h,
      )
      refl

pub read_ipv4-address :
    (a b c d port : ℕ) (rest : List ℕ)
    → IsTarget (ipv4 a b c d port)
    → read_ipv4 (address (ipv4 a b c d port) ++ rest) ≡ ok (ipv4 a b c d port, rest)
unfolding read_ipv4
read_ipv4-address a b c d port rest h =
    rw (read_exact-append 6 (address (ipv4 a b c d port)) rest refl, be16-bytes port h) refl

pub read_ipv6-address :
    (a b c d e f g h port : ℕ) (rest : List ℕ)
    → IsTarget (ipv6 a b c d e f g h port)
    → read_ipv6 (address (ipv6 a b c d e f g h port) ++ rest) ≡ ok (ipv6 a b c d e f g h port, rest)
unfolding read_ipv6
read_ipv6-address a b c d e f g h port rest (ha, hb, hc, hd, he, hf, hg, hh, hp) =
    rw
      (
        read_exact-append 18 (address (ipv6 a b c d e f g h port)) rest refl,
        be16-bytes a ha,
        be16-bytes b hb,
        be16-bytes c hc,
        be16-bytes d hd,
        be16-bytes e he,
        be16-bytes f hf,
        be16-bytes g hg,
        be16-bytes h hh,
        be16-bytes port hp,
      )
      refl

index-append : (xs ys : List ℕ) (y i : ℕ) → i ≡ length xs → index (xs ++ (y ∷ ys)) i ≡ ok y
index-append [] ys y zero e = refl
index-append [] ys y (suc i) e = absurd (omega arith)
index-append (x ∷ xs) ys y zero e = absurd (omega arith)
index-append (x ∷ xs) ys y (suc i) e = index-append xs ys y i (omega arith)

name_port-address :
    (name : List ℕ) (port : ℕ)
    → is_utf8 name ≡ true
    → port < 2 ^ 16
    → name_port (name ++ to_be16 port) ≡ ok (domain name port)
unfolding name_port
name_port-address name port u h =
    let buf = name ++ to_be16 port in
    let l : length buf ≡ length name + 2 = length-append name (to_be16 port) in
    let n : length buf - 2 ≡ length name = omega (arith, l) in
    let hi = index-append name ((port % 256) ∷ []) (port / 256) (length name) refl in
    let lo : index buf (length name + 1) ≡ ok (port % 256) =
      ap (λ b. index b (length name + 1))
        (sym (append_assoc name ((port / 256) ∷ []) ((port % 256) ∷ [])))
      ∙ index-append (name ++ ((port / 256) ∷ [])) [] (port % 256) (length name + 1)
          (omega (arith, length-append name ((port / 256) ∷ []))) in
    rw
      (
        le→ltb (length buf) 2 (omega (arith, l)),
        n,
        le→ltb (length buf) (length name) (omega (arith, l)),
        take-append (length name) name (to_be16 port) refl,
        u,
        hi,
        lo,
        be16-bytes port h,
      )
      refl

pub name_port-refuses :
    (name : List ℕ) (port : ℕ)
    → is_utf8 name ≡ false
    → name_port (name ++ to_be16 port) ≡ err (other "can not get addr with domian")
unfolding name_port
name_port-refuses name port u =
    let buf = name ++ to_be16 port in
    let l : length buf ≡ length name + 2 = length-append name (to_be16 port) in
    let n : length buf - 2 ≡ length name = omega (arith, l) in
    rw
      (
        le→ltb (length buf) 2 (omega (arith, l)),
        n,
        le→ltb (length buf) (length name) (omega (arith, l)),
        take-append (length name) name (to_be16 port) refl,
        u,
      )
      refl

pub read_domain-address :
    (name : List ℕ) (port : ℕ) (rest : List ℕ)
    → is_utf8 name ≡ true
    → port < 2 ^ 16
    → read_domain (address (domain name port) ++ rest) ≡ ok (domain name port, rest)
unfolding read_domain
read_domain-address name port rest u h =
    rw
      (
        read_exact-append 1 (length name ∷ []) ((name ++ to_be16 port) ++ rest) refl,
        read_exact-append (length name + 2) (name ++ to_be16 port) rest
            (length-append name (to_be16 port)),
        name_port-address name port u h,
      )
      refl

read_target-address :
    (t : Target) (rest : List ℕ)
    → IsTarget t
    → read_target (kind t) (address t ++ rest) ≡ ok (t, rest)
unfolding read_target
read_target-address (ipv4 a b c d port) rest h = read_ipv4-address a b c d port rest h
read_target-address (ipv6 a b c d e f g h port) rest i =
    read_ipv6-address a b c d e f g h port rest i
read_target-address (domain name port) rest (u, h) = read_domain-address name port rest u h

-- A client that offers to go without authentication among its methods, and asks for a connection to
-- an address of any of the three kinds, with 16-bit numbers and a name that is UTF-8, is told so and
-- accepted with just that address, if both writes succeed; the bytes that it sends behind its request
-- are still to be read.
pub handle_socks5-request :
    (methods rest : List ℕ) (t : Target)
    → has 0 methods ≡ true
    → IsTarget t
    → handle_socks5 true true (greeting methods ++ (request t ++ (address t ++ rest)))
      ≡ ok (record { target = t; sent = method_reply ++ resp; rest = rest })
unfolding handle_socks5 read_request
handle_socks5-request methods rest t m h =
    let back = request t ++ (address t ++ rest) in
    rw
      (
        read_exact-append 2 (5 ∷ length methods ∷ []) (methods ++ back) refl,
        read_exact-append (length methods) methods back refl,
        m,
        read_exact-append 4 (request t) (address t ++ rest) refl,
        read_target-address t rest h,
      )
      refl
