-- ===== src/Tunnel/Local.antt =====
-- src/tunnel/local.rs: which protocol a connection of the local side speaks, and the address that a
-- tunnel listens at. Where a connection was headed before it was redirected (`get_origin_dst`), the
-- environment variable `PORT`, and whether `peek` succeeds are arguments.
pub mod Dispatch
use Prim.Native.String.{String}
use rsnova.Base.{
  ℕ, zero, suc, ◌+◌, ◌-◌, Bool, true, false, ◌&&◌, ◌||◌, not, Option, none, some, List, [], ◌∷◌,
  ◌++◌, map, ltb, leb, ◌==◌, if◌then◌else◌,
}
use rsnova.Base.Text.{codes, to_upper, same_bytes, found, first_index}
use rsnova.Base.Utf8.{is_utf8}
use rsnova.Base.Outcome.{Outcome, ok, err, Error, other, failed, ◌>>=◌, ◌>>◌, fail_if, or_panic}
use rsnova.Base.Word.{add32}
use rsnova.Config.{Regex, PacConfig, TunnelConfig, init}
use rsnova.Channel.Url.{Url}
use rsnova.Tunnel.Tls.{valid_tls_version}

-- The handler that takes the connection, if one does.
pub data Handler : Type 0 where
  socks5 : Handler
  tls : Handler
  https : Handler
  http : Handler
  redirected : List ℕ → Handler
  nobody : Handler

-- `to_uppercase` on three bytes: the letters outside ASCII give none of the methods.
abbrev pub to_uppercase : List ℕ → List ℕ
to_uppercase s = map to_upper s

abbrev pub is_one_of : List ℕ → List String → Bool
is_one_of s [] = false
is_one_of s (t ∷ ts) = same_bytes s (codes t) || is_one_of s ts

abbrev pub methods : List String
methods = "GET" ∷ "PUT" ∷ "POS" ∷ "DEL" ∷ "OPT" ∷ "TRA" ∷ "PAT" ∷ "HEA" ∷ "CON" ∷ "UPG" ∷ []

abbrev pub by_origin : Option (List ℕ) → Handler
by_origin none = nobody
by_origin (some target) = redirected target

unfoldable pub by_method : List ℕ → Option (List ℕ) → Handler
by_method peek_buf origin =
    let prefix_str = to_uppercase peek_buf in
    if is_utf8 peek_buf && is_one_of prefix_str methods
    then (if same_bytes prefix_str (codes "CON") then https else http)
    else by_origin origin

-- The three bytes that `peek` gave; those that it did not give are zero.
unfoldable pub handle_inbound : ℕ → ℕ → ℕ → Option (List ℕ) → Outcome Handler
unfolding by_method
handle_inbound a b c origin =
    let peek_buf = a ∷ b ∷ c ∷ [] in
    if a == 5
    then ok socks5
    else if a == 4
    then err (other "socks4 unimplemented")
    else if valid_tls_version peek_buf
    then ok tls
    else ok (by_method peek_buf origin)

abbrev pub last_colon : ℕ → Option ℕ → Option ℕ
last_colon c none = if c == b':' then some 0 else none
last_colon c (some i) = some (suc i)

-- `rfind(':')`
unfoldable pub rfind_colon : List ℕ → Option ℕ
rfind_colon [] = none
rfind_colon (c ∷ cs) = last_colon c (rfind_colon cs)

abbrev pub same_place : Option ℕ → Option ℕ → Bool
same_place none none = true
same_place none (some j) = false
same_place (some i) none = false
same_place (some i) (some j) = i == j

-- The default scheme, and the port of the environment, or 3000, where there is none.
abbrev pub port_of : Option (List ℕ) → List ℕ
port_of none = codes "3000"
port_of (some p) = p

unfoldable pub listen_str : List ℕ → Option (List ℕ) → List ℕ
unfolding rfind_colon first_index
listen_str listen env_port =
    let url =
      if found (first_index (codes "://") listen) then listen else codes "local://" ++ listen in
    if same_place (rfind_colon url) (first_index (b':' ∷ []) url)
    then url ++ (b':' ∷ port_of env_port)
    else url

-- `for pac in cfg.pac.iter_mut() { pac.init(); }`
module _ {R : Type 0} (regex : Regex R) where
  unfoldable pub init_all : List (PacConfig R) → Outcome (List (PacConfig R))
  init_all [] = ok []
  init_all (pac ∷ pacs) = init regex pac >>= λ pac'. init_all pacs >>= λ pacs'. ok (pac' ∷ pacs')

-- `match listen_url.scheme()` of each accepted connection: the ids of the tunnels count up.
pub data Server : Type 0 where
  local_server : Server
  rmux_server : Server
  ws_server : Server
  no_server : Server

abbrev pub server_of : List ℕ → Server
server_of scheme =
    if same_bytes scheme (codes "local")
    then local_server
    else if same_bytes scheme (codes "rmux")
    then rmux_server
    else if same_bytes scheme (codes "ws")
    then ws_server
    else no_server

-- What `start_tunnel_server` listens at, and whose connections it takes there.
pub record Listening (R : Type 0) : Type 0 where
  pub addr : List ℕ
  pub server : Server
  pub pac : List (PacConfig R)

abbrev pub or_bad_listen : Option Url → Outcome Url
or_bad_listen none = err (other "invalid listen url")
or_bad_listen (some u) = ok u

module _ {R : Type 0} (regex : Regex R) (parse : List ℕ → Option Url) where
  -- Up to the first connection. `binds` is whether the address is free.
  unfoldable pub start_tunnel_server :
      TunnelConfig R → Option (List ℕ) → Bool → Outcome (Listening R)
  unfolding init_all listen_str
  start_tunnel_server cfg env_port binds = do
    pac ← init_all regex cfg.pac
    url ← or_bad_listen (parse (listen_str cfg.listen env_port))
    host ← or_panic url.host
    port ← or_panic url.port
    fail_if (not binds) failed
    ok (record { addr = host ++ (b':' ∷ port); server = server_of url.scheme; pac = pac })

-- `while let Ok((inbound, _)) = listener.accept().await`, for so many connections: the tunnel ids.
unfoldable pub accept_loop : ℕ → ℕ → List ℕ
accept_loop zero seed = []
accept_loop (suc n) seed = seed ∷ accept_loop n (add32 seed 1)
