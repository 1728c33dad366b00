-- ===== src/Channel/Url.antt =====
-- `init_rmux_client` of src/channel/rmux.rs: the address to connect to, the transport by the scheme,
-- and what becomes of the result of `init_client` over it. The crate `url` is an argument, and so is
-- what the network answers.
use Prim.Native.String.{String}
use rsnova.Base.{ℕ, Bool, not, Option, none, some, List, ◌∷◌, ◌++◌, if◌then◌else◌}
use rsnova.Base.Text.{codes, same_bytes, has, found, first_index}
use rsnova.Base.Outcome.{
  Outcome, ok, err, panic, stuck, other, failed, ◌>>=◌, ◌>>◌, fail_if, or_panic,
}
use rsnova.Config.{ChannelConfig}

-- A parsed address. `port` is none for the known port of the scheme too; ports are in decimal.
pub record Url : Type 0 where
  pub scheme : List ℕ
  pub host : Option (List ℕ)
  pub port : Option (List ℕ)
  pub port_or_known_default : Option (List ℕ)

-- How the peer and the operating system answer a client. `handshake` is the description of the error
-- of the websocket handshake, and `shutdown` the result of the writer's shutdown.
pub record Network : Type 0 where
  pub connects : Bool
  pub tls : Outcome (Unit {0})
  pub handshake : Option String
  pub shutdown : Outcome (Unit {0})

-- How a session's bytes are carried, with the name that TLS asks for.
pub data Transport : Type 0 where
  plain : Transport
  websocket : Transport
  websocket_over_tls : List ℕ → Transport

unfoldable pub with_scheme : List ℕ → List ℕ
unfolding first_index
with_scheme url = if found (first_index (codes "://") url) then url else codes "rmux://" ++ url

abbrev pub proxy_addr : List ℕ → List ℕ
proxy_addr v = if has b':' v then v else v ++ codes ":443"

abbrev pub connect_addr : Option (List ℕ) → Url → Outcome (List ℕ)
connect_addr (some sni_proxy) url = ok (proxy_addr sni_proxy)
connect_addr none url = do
  host ← or_panic url.host
  port ← or_panic url.port_or_known_default
  ok (host ++ (b':' ∷ port))

abbrev pub connect_domain : Option (List ℕ) → Url → Outcome (List ℕ)
connect_domain (some sni) url = ok sni
connect_domain none url = or_panic url.host

abbrev pub or_io_error : Option String → Outcome (Unit {0})
or_io_error none = ok tt
or_io_error (some description) = err (other description)

-- A panic of `init_client` unwinds past the writer's shutdown.
abbrev pub shut_down : Network → Outcome (Unit {0}) → Outcome (Unit {0})
shut_down net (ok done) = net.shutdown
shut_down net (err why) = net.shutdown >> err why
shut_down net panic = panic
shut_down net stuck = stuck

abbrev pub or_invalid : Option Url → Outcome Url
or_invalid none = err (other "invalid connect url")
or_invalid (some u) = ok u

-- `init_client` is its result over a transport to an address.
module _ (parse : List ℕ → Option Url) (net : Network)
    (init_client : List ℕ → Transport → Outcome (Unit {0})) where
  unfoldable pub run_transport : List ℕ → List ℕ → List ℕ → Outcome (Unit {0})
  run_transport scheme addr domain =
      if same_bytes scheme (codes "rmux")
      then init_client addr plain
      else if same_bytes scheme (codes "ws")
      then or_io_error net.handshake >> shut_down net (init_client addr websocket)
      else if same_bytes scheme (codes "wss")
      then net.tls
        >> or_io_error net.handshake
        >> shut_down net (init_client addr (websocket_over_tls domain))
      else err (other "unknown url schema")

  unfoldable pub init_rmux_client : ChannelConfig → Outcome (Unit {0})
  unfolding with_scheme run_transport
  init_rmux_client config = do
    url ← or_invalid (parse (with_scheme config.url))
    addr ← connect_addr config.sni_proxy url
    domain ← connect_domain config.sni url
    fail_if (not net.connects) failed
    run_transport url.scheme addr domain
