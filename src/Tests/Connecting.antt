-- ===== src/Tests/Connecting.antt =====
-- Clients over the transports of src/channel/rmux.rs.
use rsnova.Base.{ℕ, ◌≡◌, refl, true, Option, none, some, List, []}
use rsnova.Base.Text.{codes, first_index}
use rsnova.Base.Outcome.{Outcome, ok, err, write_zero, unexpected_eof}
use rsnova.Config.{ChannelConfig}
use rsnova.Channel.Url.{Url, Network, Transport, with_scheme, run_transport, init_rmux_client}

abbrev config : ChannelConfig
config = record {
  name = "far";
  url = codes "wss://h/relay";
  cipher = record { key = []; method = "none" };
  ping_interval_sec = 30;
  conns_per_host = 3;
  max_alive_mins = 5;
  proxy = none;
  work_time_frame = none;
  sni = none;
  sni_proxy = some (codes "front");
}

abbrev parse : List ℕ → Option Url
parse url = some (record {
  scheme = codes "wss";
  host = some (codes "h");
  port = none;
  port_or_known_default = some (codes "443");
})

abbrev client : List ℕ → Transport → Outcome (Unit {0})
client addr transport = err unexpected_eof

abbrev network : Outcome (Unit {0}) → Network
network shutdown = record { connects = true; tls = ok tt; handshake = none; shutdown = shutdown }

-- The error of the shutdown hides the error of the session.
shutdown_first : init_rmux_client parse (network (err write_zero)) client config ≡ err write_zero
unfolding init_rmux_client run_transport with_scheme first_index
shutdown_first = refl

session_error : init_rmux_client parse (network (ok tt)) client config ≡ err unexpected_eof
unfolding init_rmux_client run_transport with_scheme first_index
session_error = refl
