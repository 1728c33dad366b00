-- ===== src/Tests/Relaying.antt =====
-- Relays: the choice of a channel, the two directions, the clients that keep channels up, the ids of
-- streams, and the messages of a websocket.
use Prim.Native.String.{String}
use rsnova.Base.{
  ℕ, suc, ◌≡◌, refl, Bool, true, false, none, some, List, [], ◌∷◌, ◌++◌, length, replicate, arith,
}
use rsnova.Base.Fallback.{or_else, or_default}
use rsnova.Base.Text.{codes}
use rsnova.Base.Outcome.{ok}
use rsnova.Config.{Regex, PacConfig, ChannelConfig, is_valid_hour}
use rsnova.Stream.{ready}
use rsnova.Session.{get, get_channel_session_size, new_manager}
use rsnova.Session.Create.{create_stream}
use rsnova.Session.Setup.{MuxContext, start_session}
use rsnova.Session.Setup.Parity.{IsSeeded, Keeps, create_stream-Keeps}
use rsnova.Tunnel.Relay.{choose_channel, run, Turn, up, down}
use rsnova.Tunnel.Relay.Choice.{first_usable, last_match, no_empty, choose_channel_lem}
use rsnova.Tunnel.Relay.Closing.{of_client, IsFinal, run-IsFinal}
use rsnova.Tunnel.Relay.{Relay, moving, connection, shared}
use rsnova.Stream.{MuxStream, new}
use rsnova.Io.{buf_copy, goes, not_ready}
use rsnova.Channel.Routine.{Routine, round}
use rsnova.Channel.Routine.Refill.{configs, ids, ids_from, wanted, round-refills}
use rsnova.Io.Websocket.{
  WebsocketReader, WebsocketWriter, binary, poll_read, poll_write, no_room, flushing, done,
}
use rsnova.Io.Websocket.Messages.{
  HandsOn, poll_read-HandsOn, write_until, flushes, poll_write-repeats,
}
use rsnova.Crypto.{CryptoContext}

-- A pattern is its text, and matches everything but a target without a byte.
abbrev matches_any : String → List ℕ → Bool
matches_any re [] = false
matches_any re (c ∷ cs) = true

abbrev regex : Regex String
regex = record { new = λ host. some host; is_match = matches_any }

abbrev rule : String → PacConfig String
rule channel = record { host = "*"; channel = channel; re = some "*" }

abbrev target : List ℕ
target = codes "a:1"

abbrev rules : List (PacConfig String)
rules = rule "hk" ∷ rule "us" ∷ []

choose_channel_lem_example :
    choose_channel regex new_manager target rules
    ≡ no_empty regex new_manager target (
        or_default
          (or_else
            (first_usable regex new_manager target rules)
            (last_match regex new_manager target rules))
          "")
choose_channel_lem_example =
    choose_channel_lem regex new_manager target rules (("*", refl), (("*", refl), tt))

abbrev turns : List Turn
turns = up (goes 4) ∷ down not_ready ∷ up (goes 2) ∷ down (goes 1) ∷ []

-- The stream is marked while one byte of it is in the buffer and two are still to be taken.
abbrev half : Relay
half = record {
  client = shared true;
  server = connection;
  client_to_server = moving (record (buf_copy (2 ∷ 3 ∷ [])) { buf = 1 ∷ []; cap = 1 });
  server_to_client = moving (buf_copy (7 ∷ []));
}

run-IsFinal_example : IsFinal of_client half (run turns half)
run-IsFinal_example = run-IsFinal of_client turns half refl

abbrev opened : MuxStream
opened = new "hk" 1 2 (record { proto = codes "tcp"; addr = target })

abbrev ctx : CryptoContext
ctx = record { key = []; nonce = 0; sealing_key = none; opening_key = none }

abbrev client : MuxContext
client = record {
  channel = "hk";
  tunnel_id = 1;
  rctx = ctx;
  wctx = ctx;
  max_alive_secs = 600;
  recv_buf = [];
}

no_sessions_yet : IsSeeded new_manager
unfolding new_manager
no_sessions_yet = tt

create_stream-Keeps_example :
    IsSeeded (start_session new_manager client 0)
    × Keeps "hk" (create_stream (λ c. c.addr) new_manager "hk" (codes "tcp") target)
create_stream-Keeps_example =
    create_stream-Keeps (λ c. c.addr) new_manager client 0 "hk" (codes "tcp") target no_sessions_yet

abbrev channel : ChannelConfig
channel = record {
  name = "hk";
  url = codes "hk:1";
  cipher = record { key = []; method = "none" };
  ping_interval_sec = 30;
  conns_per_host = 3;
  max_alive_mins = 60;
  proxy = none;
  work_time_frame = some (8, 20);
  sni = none;
  sni_proxy = none;
}

abbrev seeds : Routine
seeds = record { session_id_seed = 4294967295; ping_time = 0 }

round-refills_example :
    (configs (round new_manager (some (channel ∷ [])) 9 100 5 seeds).clients
      ≡ wanted new_manager 9 (channel ∷ []))
    × (ids (round new_manager (some (channel ∷ [])) 9 100 5 seeds).clients
        ≡ ids_from 4294967295 (length (wanted new_manager 9 (channel ∷ []))))
round-refills_example = round-refills new_manager (some (channel ∷ [])) 9 100 5 seeds

three_clients :
    ids (round new_manager (some (channel ∷ [])) 9 100 5 seeds).clients ≡ 4294967295 ∷ 0 ∷ 1 ∷ []
unfolding round is_valid_hour get_channel_session_size new_manager get
three_clients = refl

abbrev left_over : WebsocketReader
left_over = record { recv_buf = [] }

poll_read-HandsOn_example :
    HandsOn 2 [] (1 ∷ 2 ∷ 3 ∷ []) (poll_read left_over 2 (binary (1 ∷ 2 ∷ 3 ∷ [])))
poll_read-HandsOn_example =
    poll_read-HandsOn left_over 2 (1 ∷ 2 ∷ 3 ∷ []) (omega arith) (omega arith) (omega arith)
      (omega arith)

abbrev writer : WebsocketWriter
writer = record { sink = [] }

poll_write-repeats_example :
    ((poll_write (write_until writer (5 ∷ []) (no_room ∷ flushing ∷ [])) (5 ∷ []) done).0
      ≡ ok (ready 1))
    × ((poll_write (write_until writer (5 ∷ []) (no_room ∷ flushing ∷ [])) (5 ∷ []) done).1.sink
        ≡ [] ++ replicate (suc (flushes (no_room ∷ flushing ∷ []))) (5 ∷ []))
poll_write-repeats_example =
    poll_write-repeats writer (5 ∷ []) (no_room ∷ flushing ∷ []) (tt, (tt, tt))
