-- ===== src/Tests/Accepting.antt =====
-- Clients of the local side: a SOCKS5 handshake, and the first bytes of other protocols.
use rsnova.Base.Word.{IsByte}
use rsnova.Base.{ℕ, All, ◌≡◌, refl, true, none, List, [], ◌∷◌, ◌++◌, arith}
use rsnova.Base.Text.{codes, to_upper, has}
use rsnova.Base.Utf8.{is_utf8, lead}
use rsnova.Base.Outcome.{ok}
use rsnova.Tunnel.Tls.{valid_tls_version}
use rsnova.Tunnel.Tls.Bounds.{Yields}
use rsnova.Tunnel.Socks5.{Target, domain, method_reply, resp, handle_socks5}
use rsnova.Tunnel.Socks5.Handshake.{greeting, request, address, IsTarget, handle_socks5-request}
use rsnova.Tunnel.Socks5.Totality.{Conforms, handle_socks5-Conforms}
use rsnova.Tunnel.Local.{https, listen_str, handle_inbound}
use rsnova.Tunnel.Local.Dispatch.{handle_inbound-to_upper}

abbrev target : Target
target = domain (codes "a.b") 443

is_target : IsTarget target
unfolding is_utf8 lead
is_target = (refl, omega arith)

offers : has 0 (2 ∷ 0 ∷ []) ≡ true
unfolding has
offers = refl

handle_socks5-request_example :
    handle_socks5 true true
      (greeting (2 ∷ 0 ∷ []) ++ (request target ++ (address target ++ (9 ∷ []))))
    ≡ ok (record { target = target; sent = method_reply ++ resp; rest = 9 ∷ [] })
handle_socks5-request_example = handle_socks5-request (2 ∷ 0 ∷ []) (9 ∷ []) target offers is_target

abbrev client_bytes : List ℕ
client_bytes = greeting (0 ∷ []) ++ (5 ∷ 1 ∷ 0 ∷ 1 ∷ 10 ∷ 0 ∷ 0 ∷ 1 ∷ 1 ∷ 187 ∷ 9 ∷ [])

are_bytes : All IsByte client_bytes
are_bytes = (
  omega arith,
  (
    omega arith,
    (
      omega arith,
      (
        omega arith,
        (
          omega arith,
          (
            omega arith,
            (
              omega arith,
              (
                omega arith,
                (
                  omega arith,
                  (omega arith, (omega arith, (omega arith, (omega arith, (omega arith, tt))))),
                ),
              ),
            ),
          ),
        ),
      ),
    ),
  ),
)

handle_socks5-Conforms_example :
    Yields (Conforms client_bytes) ⊥ (handle_socks5 true true client_bytes)
handle_socks5-Conforms_example = handle_socks5-Conforms true true client_bytes are_bytes

handle_inbound-to_upper_example :
    handle_inbound (to_upper b'c') (to_upper b'o') (to_upper b'N') none
    ≡ handle_inbound b'c' b'o' b'N' none
handle_inbound-to_upper_example =
    handle_inbound-to_upper b'c' b'o' b'N' none (omega arith) (omega arith) (omega arith)

connect : handle_inbound b'c' b'o' b'N' none ≡ ok https
unfolding handle_inbound valid_tls_version is_utf8 lead
connect = refl

-- The default scheme and port.
listens : listen_str (codes "0.0.0.0:80") none ≡ codes "local://0.0.0.0:80"
unfolding listen_str
listens = refl
