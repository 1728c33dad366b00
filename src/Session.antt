-- ===== src/Session.antt =====
-- src/rmux/session.rs, lines 35 to 310: the sessions of every channel, which all tasks share behind
-- one lock. Each function of the source holds the lock for its whole body, so it is one step on the
-- manager. A `HashMap` is an association list with one entry for a key, in the order of its
-- iteration. The sending end of a session's event queue is named by the session's id.
pub mod Slots
pub mod Lifetime
pub mod Routine
pub mod Retiring
pub mod Create
pub mod Setup
pub mod Loop
pub mod Tasks
pub mod Remote
use Prim.Native.String.{String}
use text.Mathlib.Text.{◌==◌ as str_eq}
use rsnova.Base.{
  ℕ, zero, suc, ◌+◌, ◌-◌, ◌%◌, ◌^◌, Bool, true, false, ◌&&◌, not, Option, none, some, List, [], ◌∷◌,
  ◌++◌, length, get_elem?, set, ltb, ◌==◌, if◌then◌else◌,
}
use rsnova.Base.Int.{ℤ, pos, sub_ℕ, lt_neg}
use rsnova.Base.Word.{add32, sub32}
use rsnova.Message.{ConnectRequest}
use rsnova.Event.{
  Event, new_shutdown_event, new_ping_event, new_routine_event, new_syn_event,
  new_window_update_event,
}
use rsnova.Stream.{MuxStream}
use rsnova.Stream

pub record MuxSessionState : Type 0 where
  pub last_ping_send_time : ℕ
  pub last_pong_recv_time : ℕ
  pub born_time : ℕ
  pub retired : Bool
  pub io_active_unix_secs : ℕ
  pub closed : Bool

unfoldable pub ping_pong_gap : MuxSessionState → ℤ
ping_pong_gap s =
    let t1 = s.last_ping_send_time in
    let t2 = s.last_pong_recv_time in if ltb 0 t1 && ltb 0 t2 then sub_ℕ t2 t1 else pos 0

abbrev pub is_retired : MuxSessionState → Bool
is_retired s = s.retired

abbrev pub is_closed : MuxSessionState → Bool
is_closed s = s.closed

unfoldable pub get_io_idle_secs : MuxSessionState → ℕ → ℕ
get_io_idle_secs s now_unix_secs =
    let secs = s.io_active_unix_secs in if secs == 0 then 0 else sub32 now_unix_secs secs

pub record MuxSession : Type 0 where
  pub id : ℕ
  pub pendding_streams : List MuxStream
  pub stream_id_seed : ℕ
  pub state : MuxSessionState
  pub max_alive_secs : ℕ

pub record ChannelMuxSession : Type 0 where
  pub sessions : List (Option MuxSession)
  pub cursor : ℕ

pub record ChannelSessionManager : Type 0 where
  pub channels : List (String × ChannelMuxSession)
  pub retired : List MuxSession

unfoldable pub new_manager : ChannelSessionManager
new_manager = record { channels = []; retired = [] }

-- `HashMap::get_mut`, for reading and for writing back.
module _ {ℓ} {V : Type ℓ} where
  unfoldable pub get : String → List (String × V) → Option V
  get k [] = none
  get k ((j, v) ∷ m) = if str_eq j k then some v else get k m

  unfoldable pub put : String → V → List (String × V) → List (String × V)
  put k v [] = (k, v) ∷ []
  put k v ((j, w) ∷ m) = if str_eq j k then (j, v) ∷ m else (j, w) ∷ put k v m

abbrev pub no_sessions : ChannelMuxSession
no_sessions = record { sessions = []; cursor = 0 }

-- The entry of a channel after `if cmap.get_mut(channel).is_none() { cmap.insert(..) }`.
abbrev pub or_new : Option ChannelMuxSession → ChannelMuxSession
or_new none = no_sessions
or_new (some c) = c

-- The first free slot, or a new one at the end.
unfoldable pub store_slot : MuxSession → List (Option MuxSession) → List (Option MuxSession)
store_slot s [] = some s ∷ []
store_slot s (none ∷ slots) = some s ∷ slots
store_slot s (some t ∷ slots) = some t ∷ store_slot s slots

unfoldable pub store_mux_session :
    ChannelSessionManager → String → MuxSession → ChannelSessionManager
store_mux_session m channel session =
    let c = or_new (get channel m.channels) in
    record m {
      channels = put channel (record c { sessions = store_slot session c.sessions }) m.channels;
    }

abbrev pub keep_slot :
    Option MuxSession → Option (List (Option MuxSession)) → Option (List (Option MuxSession))
keep_slot slot none = none
keep_slot slot (some slots) = some (slot ∷ slots)

-- The slots without the first session of that id, if there is one.
unfoldable pub erase_slot : ℕ → List (Option MuxSession) → Option (List (Option MuxSession))
erase_slot sid [] = none
erase_slot sid (none ∷ slots) = keep_slot none (erase_slot sid slots)
erase_slot sid (some s ∷ slots) =
    let later = keep_slot (some s) (erase_slot sid slots) in
    if s.id == sid then some (none ∷ slots) else later

unfoldable pub remove_retired : ℕ → List MuxSession → List MuxSession
remove_retired sid [] = []
remove_retired sid (s ∷ ss) = if s.id == sid then ss else s ∷ remove_retired sid ss

erase_found :
    ChannelSessionManager
    → String
    → ℕ
    → ChannelMuxSession
    → Option (List (Option MuxSession))
    → ChannelSessionManager
erase_found m channel sid c none = record m { retired = remove_retired sid m.retired }
erase_found m channel sid c (some slots) = record m {
  channels = put channel (record c { sessions = slots }) m.channels;
}

erase_in : ChannelSessionManager → String → ℕ → Option ChannelMuxSession → ChannelSessionManager
unfolding erase_found
erase_in m channel sid none = record m { retired = remove_retired sid m.retired }
erase_in m channel sid (some c) = erase_found m channel sid c (erase_slot sid c.sessions)

unfoldable pub erase_mux_session : ChannelSessionManager → String → ℕ → ChannelSessionManager
unfolding erase_in
erase_mux_session m channel sid = erase_in m channel sid (get channel m.channels)

-- A stream table, `HashMap<u32, MuxStream>`.
abbrev pub Streams : Type 0
Streams = List (ℕ × MuxStream)

unfoldable pub insert_stream : ℕ → MuxStream → Streams → Streams
insert_stream k v [] = (k, v) ∷ []
insert_stream k v ((j, w) ∷ m) = if j == k then (j, v) ∷ m else (j, w) ∷ insert_stream k v m

-- `pendding_streams.pop()` until it is empty: the last one first.
unfoldable pub move_pendding : List MuxStream → Streams → Streams
move_pendding [] streams = streams
move_pendding (s ∷ ss) streams =
    let later = move_pendding ss streams in insert_stream (Stream.id s) s later

-- The first session of that id gives its pending streams away.
unfoldable pub pendding_slots :
    ℕ → List (Option MuxSession) → Streams → List (Option MuxSession) × Streams
pendding_slots sid [] streams = ([], streams)
pendding_slots sid (none ∷ slots) streams =
    let (rest, moved) = pendding_slots sid slots streams in (none ∷ rest, moved)
pendding_slots sid (some s ∷ slots) streams =
    let later : List (Option MuxSession) × Streams =
      (let (rest, moved) = pendding_slots sid slots streams in (some s ∷ rest, moved)) in
    if s.id == sid
    then (
      some (record s { pendding_streams = [] }) ∷ slots,
      move_pendding s.pendding_streams streams,
    )
    else later

unfoldable pub hanle_pendding_mux_streams :
    ChannelSessionManager → String → ℕ → Streams → ChannelSessionManager × Streams
hanle_pendding_mux_streams m channel sid streams = elim (get channel m.channels) [
  | none ↦ (m, streams)
  | some c ↦
      let (slots, moved) = pendding_slots sid c.sessions streams in
      (record m { channels = put channel (record c { sessions = slots }) m.channels }, moved)
]

unfoldable pub live_count : List (Option MuxSession) → ℕ
live_count [] = 0
live_count (none ∷ slots) = live_count slots
live_count (some s ∷ slots) = live_count slots + 1

unfoldable pub get_channel_session_size : ChannelSessionManager → String → ℕ
get_channel_session_size m channel = elim (get channel m.channels) [
  | none ↦ 0
  | some c ↦ live_count c.sessions
]
