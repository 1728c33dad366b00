-- ===== src/Tests/Sessions.antt =====
-- Sessions: the manager, the routine pass and the event loop.
use Prim.Native.String.{String}
use mathlib.Core.List.{Perm}
use rsnova.Base.{
  ℕ, ◌≡◌, ◌≢◌, refl, true, false, Option, none, some, List, [], ◌∷◌, ◌++◌, All, arith,
}
use rsnova.Message.{ConnectRequest}
use rsnova.Event.{new_fin_event, new_data_event, new_shutdown_event}
use rsnova.Stream.{MuxStream}
use rsnova.Stream
use rsnova.Session.{
  ChannelMuxSession, MuxSession, MuxSessionState, ChannelSessionManager, new_manager,
  store_mux_session, erase_mux_session, get,
}
use rsnova.Session.Slots.{sessions_of}
use rsnova.Session.Lifetime.{erase-store}
use rsnova.Session.Create.{create_stream}
use rsnova.Session.Create.Turns.{Placed, create_stream-Placed}
use rsnova.Session.Routine.{routine_all_sessions}
use rsnova.Session.Retiring.{leaves, ids, everyone, routine_all_sessions_lem}
use rsnova.Session.Loop.{Loop, Input, handle_event, handle_fin_event}
use rsnova.Session.Loop.Isolation.{Keeps, handle_event-Keeps}
use rsnova.Session.Loop.Ending.{Ended, handle_fin_event-Ended, Handled, handle_event-Handled}
use rsnova.Tests.Toy.{toy}

abbrev state : MuxSessionState
state = record {
  last_ping_send_time = 100;
  last_pong_recv_time = 20;
  born_time = 0;
  retired = true;
  io_active_unix_secs = 100;
  closed = false;
}

abbrev session : ℕ → MuxSession
session i = record {
  id = i;
  pendding_streams = [];
  stream_id_seed = 1;
  state = state;
  max_alive_secs = 600;
}

abbrev home : String
home = "local"

abbrev manager : ChannelSessionManager
manager = record {
  channels = (home, record { sessions = some (session 1) ∷ none ∷ []; cursor = 0 }) ∷ [];
  retired = session 9 ∷ [];
}

alone : All (λ t. t.id ≢ 2) (sessions_of manager home)
unfolding get
alone = (omega arith, tt)

erase-store_example :
    Perm
      (sessions_of (erase_mux_session (store_mux_session manager home (session 2)) home 2) home)
      (sessions_of manager home)
    × ((erase_mux_session (store_mux_session manager home (session 2)) home 2).retired
        ≡ manager.retired)
erase-store_example = erase-store manager home (session 2) alone

abbrev passed : ChannelSessionManager
passed = (routine_all_sessions 200 (λ i. 60) manager).0

routine_all_sessions_lem_example :
    ((k : String) → All (λ s. leaves k 200 (λ i. 60) s ≡ false) (sessions_of passed k))
    × ((fresh : List MuxSession) × (passed.retired ≡ manager.retired ++ fresh)
        × All (λ s. s.state.retired ≡ true) fresh)
    × Perm
        (ids (everyone passed.channels) ++ ids passed.retired)
        (ids (everyone manager.channels) ++ ids manager.retired)
routine_all_sessions_lem_example = routine_all_sessions_lem 200 (λ i. 60) manager

abbrev request : ConnectRequest
request = record { proto = 116 ∷ []; addr = 97 ∷ [] }

abbrev parse : List ℕ → Option ConnectRequest
parse bytes = some request

abbrev stream : ℕ → MuxStream
stream i = Stream.new "" 1 i request

abbrev loop : Loop
loop = record {
  streams = (1, stream 1) ∷ (3, stream 3) ∷ [];
  state = state;
  wctx = record { key = []; nonce = 0; sealing_key = none; opening_key = none };
  manager = new_manager;
  sent = [];
  offered = [];
}

abbrev fin : Input
fin = record { ev = new_fin_event 3 true; now = 100; tx_open = true; marked = false }

abbrev no_data : Input
no_data = record { ev = new_data_event 1 [] true; now = 100; tx_open = true; marked = false }

handle_event-Keeps_example : Keeps 1 loop (handle_event toy parse "" 1 fin loop)
unfolding new_fin_event
handle_event-Keeps_example = handle_event-Keeps toy parse "" 1 1 fin loop refl (omega arith)

handle_event-Handled_example : Handled no_data loop (handle_event toy parse "" 1 no_data loop)
handle_event-Handled_example = handle_event-Handled toy parse "" 1 no_data loop

handle_fin_event-Ended_example : Ended 3 loop (handle_fin_event 3 loop)
handle_fin_event-Ended_example = handle_fin_event-Ended 3 loop

abbrev stop : Input
stop = record { ev = new_shutdown_event 0 false; now = 100; tx_open = true; marked = false }

abbrev slots : ChannelMuxSession
slots = record { sessions = none ∷ some (session 1) ∷ []; cursor = 4 }

abbrev with_slots : ChannelSessionManager
with_slots = record { channels = (home, slots) ∷ []; retired = [] }

found : get home with_slots.channels ≡ some slots
unfolding get
found = refl

abbrev encode : ConnectRequest → List ℕ
encode r = r.proto ++ r.addr

create_stream-Placed_example :
    Placed home slots (create_stream encode with_slots home (116 ∷ []) (97 ∷ []))
create_stream-Placed_example =
    create_stream-Placed encode with_slots home (116 ∷ []) (97 ∷ []) slots found (omega arith)
