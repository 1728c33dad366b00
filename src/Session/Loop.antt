-- ===== src/Session/Loop.antt =====
-- The event loop of a session, `process_event` and the handlers it calls (src/rmux/session.rs, lines
-- 409 to 600). The loop is one task: an event is one step on its streams, on the session's state, on
-- the sealing context and on the shared manager. `sent` is what went to the writing task, and
-- `offered` what closing streams put on the loop's own queue. Logging is left out.
pub mod Table
pub mod Cases
pub mod Isolation
pub mod Ending
pub mod Stopping
use Prim.Native.String.{String}
use rsnova.Base.{
  ℕ, ◌+◌, ◌≡◌, Bool, true, false, ◌&&◌, ◌||◌, not, Option, none, some, List, [], ◌∷◌, ◌++◌, leb,
  ◌==◌, if◌then◌else◌,
}
use rsnova.Base.Outcome.{Outcome, ok, err, panic, stuck, ◌>>=◌}
use rsnova.Message.{ConnectRequest}
use rsnova.Event.{
  Event, flags, len, flag_syn, flag_fin, flag_data, flag_win_update, flag_ping, flag_pong,
  flag_shutdown, flag_routine, new_pong_event,
}
use rsnova.Crypto.Primitives.{Cipher}
use rsnova.Crypto.{CryptoContext, encrypt}
use rsnova.Stream.{MuxStream, Poll, ready, pending, update_send_window, offer_data, close}
use rsnova.Stream
use rsnova.Session.{
  MuxSessionState, ChannelSessionManager, get_io_idle_secs, Streams, insert_stream,
  hanle_pendding_mux_streams,
}

pub record Loop : Type 0 where
  pub streams : Streams
  pub state : MuxSessionState
  pub wctx : CryptoContext
  pub manager : ChannelSessionManager
  pub sent : List (List ℕ)
  pub offered : List Event

-- `HashMap::get_mut`, `remove`, `entry(..).or_insert(..)` and the write back through `get_mut`.
unfoldable pub get_stream : ℕ → Streams → Option MuxStream
get_stream k [] = none
get_stream k ((j, s) ∷ m) = let later = get_stream k m in if j == k then some s else later

unfoldable pub remove_stream : ℕ → Streams → Streams
remove_stream k [] = []
remove_stream k ((j, s) ∷ m) =
    let later = remove_stream k m in if j == k then later else (j, s) ∷ later

abbrev pub fill_entry : ℕ → MuxStream → Streams → Option MuxStream → Streams
fill_entry k s m none = insert_stream k s m
fill_entry k s m (some old) = m

abbrev pub or_insert : ℕ → MuxStream → Streams → Streams
or_insert k s m = fill_entry k s m (get_stream k m)

abbrev pub is_empty : Streams → Bool
is_empty [] = true
is_empty (e ∷ m) = false

abbrev pub set_closed : MuxSessionState → MuxSessionState
set_closed s = record s { closed = true }

-- `SystemTime::now()`, in seconds as a `u32`, is an argument.
unfoldable pub handle_ping_event : MuxSessionState → ℕ → Bool → MuxSessionState
handle_ping_event s now is_remote = if is_remote then s else record s { last_ping_send_time = now }

unfoldable pub handle_routine_event : Loop → ℕ → Loop × Bool
handle_routine_event l now =
    let idle_io_secs = get_io_idle_secs l.state now in
    if (l.state.retired && is_empty l.streams) || leb 300 idle_io_secs
    then (record l { state = set_closed l.state }, true)
    else (l, false)

-- `streams.remove(&sid)`, and the end of the stream that was there.
abbrev pub drop_stream : ℕ → Loop → Option MuxStream → Loop
drop_stream sid l none = record l { streams = remove_stream sid l.streams }
drop_stream sid l (some s) = record l {
  streams = remove_stream sid l.streams;
  offered = l.offered ++ ((close s).1 ∷ []);
}

-- A retired session is over when its last stream ends.
abbrev pub close_if_drained : Loop → Loop × Bool
close_if_drained l =
    if l.state.retired && is_empty l.streams
    then (record l { state = set_closed l.state }, true)
    else (l, false)

unfoldable pub handle_fin_event : ℕ → Loop → Loop × Bool
handle_fin_event sid l = close_if_drained (drop_stream sid l (get_stream sid l.streams))

-- What the loop does after an event: it takes the next one, it is over, or it waits in the handler.
pub data Verdict : Type 0 where
  go_on leave waits : Verdict

abbrev pub go_on_if : Bool → Verdict
go_on_if b = if b then go_on else leave

abbrev pub after_local : Loop × Bool → Outcome (Loop × Verdict)
after_local (l, more) = ok (l, go_on_if more)

-- The stream after `offer_data`, which waits while the stream's channel is full.
abbrev pub after_offer : ℕ → Loop → Outcome (Poll MuxStream) → Outcome (Loop × Verdict)
after_offer sid l (ok (ready s)) = ok (record l { streams = insert_stream sid s l.streams }, go_on)
after_offer sid l (ok pending) = ok (l, waits)
after_offer sid l (err e) = err e
after_offer sid l panic = panic
after_offer sid l stuck = stuck

abbrev pub handle_data : ℕ → List ℕ → Loop → Option MuxStream → Outcome (Loop × Verdict)
handle_data sid body l none = ok (l, go_on)
handle_data sid body l (some s) = after_offer sid l (offer_data s body)

abbrev pub handle_window : ℕ → ℕ → Loop → Option MuxStream → Loop
handle_window sid inc l none = l
handle_window sid inc l (some s) = record l {
  streams = insert_stream sid (update_send_window s inc).0 l.streams;
}

-- An event as the loop takes it from its queue, the time then, whether the writing task still takes
-- frames, and whether another task has marked the session as closed before the loop waits for it.
pub record Input : Type 0 where
  pub ev : Event
  pub now : ℕ
  pub tx_open : Bool
  pub marked : Bool

module _ (p : Cipher) (deserialize : List ℕ → Option ConnectRequest) (channel : String)
    (tunnel_id : ℕ) where
  unfoldable pub send_local_event : Event → Bool → Loop → Loop × Bool
  send_local_event ev tx_open l =
      let (ctx, frame) = encrypt p l.wctx ev [] in
      (
        record l { wctx = ctx; sent = (if tx_open then l.sent ++ (frame ∷ []) else l.sent) },
        tx_open,
      )

  unfoldable pub take_pendding : Event → Loop → Loop
  take_pendding ev l =
      let (m, streams) = hanle_pendding_mux_streams l.manager channel tunnel_id l.streams in
      if flag_syn == flags ev.header then record l { manager = m; streams = streams } else l

  -- `true` goes on.
  unfoldable pub handle_local_event : Input → Loop → Loop × Bool
  handle_local_event i l0 =
      let ev = i.ev in
      let l = take_pendding ev l0 in
      let (after_fin, over) =
        if flag_fin == flags ev.header
        then handle_fin_event ev.header.stream_id l
        else (l, false) in
      let (after_routine, done) = handle_routine_event after_fin i.now in
      if flag_shutdown == flags ev.header
      then (l0, false)
      else if over
      then (after_fin, false)
      else if flag_routine == flags ev.header
      then (after_routine, not done)
      else send_local_event ev i.tx_open after_fin

  abbrev pub requested : ℕ → Option ConnectRequest → Option MuxStream
  requested sid none = none
  requested sid (some req) = some (Stream.new channel tunnel_id sid req)

  -- The task that relays the new stream is outside the loop.
  unfoldable pub handle_syn : Event → Option MuxStream
  handle_syn ev = requested ev.header.stream_id (deserialize ev.body)

  abbrev pub add_stream : Loop → Option MuxStream → Loop
  add_stream l none = l
  add_stream l (some s) = record l { streams = or_insert s.state.stream_id s l.streams }

  unfoldable pub handle_remote_event : Input → Loop → Outcome (Loop × Verdict)
  handle_remote_event i l =
      let flag = flags i.ev.header in
      let sid = i.ev.header.stream_id in
      if flag == flag_syn
      then ok (add_stream l (handle_syn i.ev), go_on)
      else if flag == flag_fin
      then (let (l', over) = handle_fin_event sid l in ok (l', go_on_if (not over)))
      else if flag == flag_data
      then handle_data sid i.ev.body l (get_stream sid l.streams)
      else if flag == flag_ping
      then (let (l', sent) = send_local_event (new_pong_event sid false) i.tx_open l in
          ok (l', go_on_if sent))
      else if flag == flag_pong
      then ok (record l { state = record (l.state) { last_pong_recv_time = i.now } }, go_on)
      else if flag == flag_win_update
      then ok (handle_window sid (len i.ev.header) l (get_stream sid l.streams), go_on)
      else ok (l, go_on)

  abbrev pub note_ping : Input → Loop → Loop
  note_ping i l =
      if flag_ping == flags i.ev.header
      then record l { state = handle_ping_event l.state i.now i.ev.remote }
      else l

  -- One round of the loop.
  unfoldable pub handle_event : Input → Loop → Outcome (Loop × Verdict)
  handle_event i l0 =
      let l = note_ping i l0 in
      if i.ev.remote then handle_remote_event i l else after_local (handle_local_event i l)

  unfoldable pub close_all : Streams → Streams × List Event
  close_all [] = ([], [])
  close_all ((k, s) ∷ m) =
      let (s', ev) = close s in let (rest, evs) = close_all m in ((k, s') ∷ rest, ev ∷ evs)

  -- Behind the loop; the empty vector ends the writing task.
  unfoldable pub finish : Bool → Loop → Loop
  finish tx_open l =
      let (streams, evs) = close_all l.streams in
      record l {
        state = set_closed l.state;
        streams = streams;
        offered = l.offered ++ evs;
        sent = (if tx_open then l.sent ++ ([] ∷ []) else l.sent);
      }

  unfoldable pub after_event :
      Bool → (Loop → Outcome (Poll Loop)) → Loop × Verdict → Outcome (Poll Loop)
  after_event tx_open later (l, go_on) = later l
  after_event tx_open later (l, leave) = ok (ready (finish tx_open l))
  after_event tx_open later (l, waits) = ok pending

  -- What the loop makes of the events that come. It holds a sender of its own queue, so the queue does
  -- not end: behind the last event the loop waits, as it may in a handler, which is `pending`.
  unfoldable pub process_event : List Input → Bool → Loop → Outcome (Poll Loop)
  unfolding after_event
  process_event [] tx_open l = if l.state.closed then ok (ready (finish tx_open l)) else ok pending
  process_event (i ∷ is) tx_open l =
      let later = process_event is tx_open in
      if l.state.closed || i.marked
      then ok (ready (finish tx_open l))
      else handle_event i l >>= after_event tx_open later
