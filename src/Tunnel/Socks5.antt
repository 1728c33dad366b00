-- ===== src/Tunnel/Socks5.antt =====
-- src/tunnel/socks5.rs: the handshake with a SOCKS5 client, up to the call of the relay. The
-- connection is the list of the bytes that it will give before it ends. The target is the address
-- that the source then prints; whether each of the two writes succeeds is an argument.
pub mod Handshake
pub mod Addresses
pub mod Totality
use Prim.Native.String.{String, ◌++◌ as append}
use rsnova.Base.{
  ℕ, ◌+◌, ◌-◌, ◌*◌, ◌/◌, ◌%◌, ◌^◌, bit_or, Bool, true, false, not, List, [], ◌∷◌, ◌++◌, length,
  take, replicate, ltb, ◌==◌, if◌then◌else◌,
}
use rsnova.Base.Text.{has}
use rsnova.Base.Utf8.{is_utf8}
use rsnova.Base.Outcome.{Outcome, ok, err, panic, Error, other, failed, ◌>>=◌, ◌>>◌, fail_if}
use rsnova.Base.Slice.{index, slice_to}
use rsnova.Tunnel.Tls.{read_exact}

abbrev pub version : ℕ
version = 5

abbrev pub meth_no_auth : ℕ
meth_no_auth = 0

abbrev pub cmd_connect : ℕ
cmd_connect = 1

abbrev pub atyp_ipv4 : ℕ
atyp_ipv4 = 1

abbrev pub atyp_ipv6 : ℕ
atyp_ipv6 = 4

abbrev pub atyp_domain : ℕ
atyp_domain = 3

abbrev pub socks_resp_success : ℕ
socks_resp_success = 0

pub data Target : Type 0 where
  ipv4 : (a b c d port : ℕ) → Target
  ipv6 : (a b c d e f g h port : ℕ) → Target
  domain : List ℕ → ℕ → Target

-- `((hi as u16) << 8) | (lo as u16)`
unfoldable pub be16 : ℕ → ℕ → ℕ
be16 hi lo = bit_or (hi * 256 % 2 ^ 16) lo

abbrev pub be16_at : List ℕ → ℕ → Outcome ℕ
be16_at buf i = index buf i >>= λ hi. index buf (i + 1) >>= λ lo. ok (be16 hi lo)

-- `addr_buf[..addr_buf.len() - 2]`, which a buffer of less than two bytes cannot take.
abbrev pub front_of : List ℕ → Outcome (List ℕ)
front_of buf = if ltb (length buf) 2 then panic else slice_to (length buf - 2) buf

-- The error is what `handle_socks5` makes of `None`.
unfoldable pub name_port : List ℕ → Outcome Target
name_port addr_buf = do
  hostname ← front_of addr_buf
  fail_if (not (is_utf8 hostname)) (other "can not get addr with domian")
  port ← be16_at addr_buf (length addr_buf - 2)
  ok (domain hostname port)

abbrev digit : ℕ → String
digit n =
    if n == 0
    then "0"
    else if n == 1
    then "1"
    else if n == 2
    then "2"
    else if n == 3
    then "3"
    else if n == 4
    then "4"
    else if n == 5
    then "5"
    else if n == 6
    then "6"
    else if n == 7
    then "7"
    else if n == 8
    then "8"
    else "9"

-- A `u8` in decimal.
pub show_u8 : ℕ → String
show_u8 n =
    if ltb n 10
    then digit n
    else if ltb n 100
    then append (digit (n / 10)) (digit (n % 10))
    else append (digit (n / 100)) (append (digit (n / 10 % 10)) (digit (n % 10)))

-- The arms of `match head[3]`.
unfoldable pub read_ipv4 : List ℕ → Outcome (Target × List ℕ)
read_ipv4 inbound = do
  (addr_buf, rest) ← read_exact 6 inbound
  a ← index addr_buf 0
  b ← index addr_buf 1
  c ← index addr_buf 2
  d ← index addr_buf 3
  port ← be16_at addr_buf 4
  ok (ipv4 a b c d port, rest)

unfoldable pub read_ipv6 : List ℕ → Outcome (Target × List ℕ)
read_ipv6 inbound = do
  (addr_buf, rest) ← read_exact 18 inbound
  a ← be16_at addr_buf 0
  b ← be16_at addr_buf 2
  c ← be16_at addr_buf 4
  d ← be16_at addr_buf 6
  e ← be16_at addr_buf 8
  f ← be16_at addr_buf 10
  g ← be16_at addr_buf 12
  h ← be16_at addr_buf 14
  port ← be16_at addr_buf 16
  ok (ipv6 a b c d e f g h port, rest)

unfoldable pub read_domain : List ℕ → Outcome (Target × List ℕ)
unfolding name_port
read_domain inbound = do
  (len_buf, inbound1) ← read_exact 1 inbound
  len ← index len_buf 0
  (addr_buf, rest) ← read_exact (len + 2) inbound1
  target ← name_port addr_buf
  ok (target, rest)

unfoldable pub read_target : ℕ → List ℕ → Outcome (Target × List ℕ)
unfolding read_ipv4 read_ipv6 read_domain
read_target atyp inbound =
    if atyp == atyp_ipv4
    then read_ipv4 inbound
    else if atyp == atyp_ipv6
    then read_ipv6 inbound
    else if atyp == atyp_domain
    then read_domain inbound
    else err (other (append "unknown ATYP received: " (show_u8 atyp)))

abbrev pub method_reply : List ℕ
method_reply = version ∷ meth_no_auth ∷ []

abbrev pub resp : List ℕ
resp = 5 ∷ socks_resp_success ∷ 0 ∷ 1 ∷ replicate 6 0

-- Where to relay to, what was written, and what is still to be read.
pub record Accepted : Type 0 where
  pub target : Target
  pub sent : List ℕ
  pub rest : List ℕ

-- From the request on.
unfoldable pub read_request : Bool → List ℕ → Outcome Accepted
unfolding read_target
read_request replies inbound2 = do
  (head, inbound3) ← read_exact 4 inbound2
  ver ← index head 0
  fail_if (not (ver == version)) (other "didn't confirm with v5 version")
  cmd ← index head 1
  fail_if (not (cmd == cmd_connect)) (other "unsupported command")
  atyp ← index head 3
  (target, rest) ← read_target atyp inbound3
  fail_if (not replies) failed
  ok (record { target = target; sent = method_reply ++ resp; rest = rest })

unfoldable pub handle_socks5 : Bool → Bool → List ℕ → Outcome Accepted
unfolding read_request
handle_socks5 greets replies inbound = do
  (num_methods_buf, inbound1) ← read_exact 2 inbound
  n ← index num_methods_buf 1
  (vdata, inbound2) ← read_exact n inbound1
  fail_if (not (has meth_no_auth vdata)) (other "no supported method given")
  fail_if (not greets) failed
  read_request replies inbound2
