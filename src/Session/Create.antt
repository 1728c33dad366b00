-- ===== src/Session/Create.antt =====
-- `create_stream` and `report_update_window` (src/rmux/session.rs): a new stream takes the next live
-- session of its channel in turn.
pub mod Turns
use Prim.Native.String.{String}
use rsnova.Base.{
  ℕ, zero, suc, ◌%◌, Bool, true, false, Option, none, some, List, [], ◌∷◌, ◌++◌, length, get_elem?,
  set, ◌==◌, if◌then◌else◌,
}
use rsnova.Base.Word.{add32}
use rsnova.Message.{ConnectRequest}
use rsnova.Event.{Event, new_syn_event, new_window_update_event}
use rsnova.Stream.{MuxStream, Queue, accepts}
use rsnova.Stream
use rsnova.Session.{MuxSession, ChannelMuxSession, ChannelSessionManager, get, put}

-- The stream, the event that announces it, and the session whose queue takes the event.
pub record Created : Type 0 where
  pub stream : MuxStream
  pub ev : Event
  pub ev_sender : ℕ

-- `csession.cursor.fetch_add(1)`, modulo the number of slots.
abbrev pub next_idx : ChannelMuxSession → ℕ
next_idx c = c.cursor % length c.sessions

abbrev pub moved : ChannelMuxSession → ChannelMuxSession
moved c = record c { cursor = add32 c.cursor 1 }

-- `break` at the first session.
abbrev pub first_found :
    ChannelMuxSession × Option Created
    → ChannelMuxSession × Option Created
    → ChannelMuxSession × Option Created
first_found (here, none) later = later
first_found (here, some x) later = (moved here, some x)

module _ (serialize : ConnectRequest → List ℕ) where
  unfoldable pub create_in : String → List ℕ → List ℕ → MuxSession → MuxSession × Created
  create_in channel proto addr session =
      let creq : ConnectRequest = record { proto = proto; addr = addr } in
      let cev = new_syn_event serialize session.stream_id_seed creq in
      let stream = Stream.new channel session.id session.stream_id_seed creq in
      (
        record session {
          stream_id_seed = add32 session.stream_id_seed 2;
          pendding_streams = session.pendding_streams ++ (stream ∷ []);
        },
        record { stream = stream; ev = cev; ev_sender = session.id },
      )

  -- What the slot at the cursor gives, if there is a session in it.
  unfoldable pub try_slot :
      String
      → List ℕ
      → List ℕ
      → ChannelMuxSession
      → Option (Option MuxSession)
      → ChannelMuxSession × Option Created
  try_slot channel proto addr c none = (c, none)
  try_slot channel proto addr c (some none) = (c, none)
  try_slot channel proto addr c (some (some session)) =
      let (session', created) = create_in channel proto addr session in
      (record c { sessions = set c.sessions (next_idx c) (some session') }, some created)

  -- `for _ in 0..csession.sessions.len()`: each round moves the cursor on.
  unfoldable pub create_loop :
      ℕ → String → List ℕ → List ℕ → ChannelMuxSession → ChannelMuxSession × Option Created
  create_loop zero channel proto addr c = (c, none)
  create_loop (suc rounds) channel proto addr c =
      let here = try_slot channel proto addr c (get_elem? c.sessions (next_idx c)) in
      let later = create_loop rounds channel proto addr (moved c) in first_found here later

  abbrev pub create_for :
      ChannelSessionManager
      → String
      → List ℕ
      → List ℕ
      → Option ChannelMuxSession
      → ChannelSessionManager × Option Created
  create_for m channel proto addr none = (m, none)
  create_for m channel proto addr (some c) =
      let (c', created) = create_loop (length c.sessions) channel proto addr c in
      (record m { channels = put channel c' m.channels }, created)

  -- `none` is the error "no channel found."
  unfoldable pub create_stream :
      ChannelSessionManager → String → List ℕ → List ℕ → ChannelSessionManager × Option Created
  create_stream m channel proto addr = create_for m channel proto addr (get channel m.channels)

-- The answer of the call, and the event with the session whose queue took it. `ready` is what
-- `poll_ready` of a session's queue answers, and `sends` whether `try_send` behind it goes through.
unfoldable pub report_slots :
    (ℕ → Queue) → (ℕ → Bool) → ℕ → Event → List (Option MuxSession) → Bool × Option (ℕ × Event)
report_slots ready sends session_id ev [] = (true, none)
report_slots ready sends session_id ev (none ∷ slots) = report_slots ready sends session_id ev slots
report_slots ready sends session_id ev (some s ∷ slots) =
    let later = report_slots ready sends session_id ev slots in
    if s.id == session_id
    then elim (ready s.id) [
      | accepts ↦ if sends s.id then (true, some (s.id, ev)) else later
      | _ ↦ (false, none)
    ]
    else later

unfoldable pub report_update_window :
    (ℕ → Queue)
    → (ℕ → Bool)
    → ChannelSessionManager
    → String
    → ℕ
    → ℕ
    → ℕ
    → Bool × Option (ℕ × Event)
report_update_window ready sends m channel session_id stream_id window =
    let ev = new_window_update_event stream_id window false in
    elim (get channel m.channels) [
      | none ↦ (true, none)
      | some c ↦ report_slots ready sends session_id ev c.sessions
    ]
