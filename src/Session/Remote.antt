-- ===== src/Session/Remote.antt =====
-- `handle_rmux_stream` of src/rmux/session.rs: the task that `handle_syn` spawns for a stream that
-- the peer opened. `stream.clone()` shares the state of the stream, so it is the same record; the mark
-- of its end is that of the relay's end for the client.
pub mod Serving
use rsnova.Base.{ℕ, Bool, true, false, ◌&&◌, List, [], ◌∷◌, if◌then◌else◌}
use rsnova.Base.Outcome.{Outcome, ok, err, panic, stuck, Error, ◌>>=◌}
use rsnova.Event.{Event}
use rsnova.Message.{ConnectRequest}
use rsnova.Stream.{MuxStream, split, close, close_state}
use rsnova.Session.{ChannelSessionManager}
use rsnova.Channel.Opening.{ChannelStream, get_channel_stream}
use rsnova.Tunnel.Relay.{
  End, connection, shared, is_shut, Direction, moving, closing, ended, Relay, relay, Turn,
  take_turn,
}

-- The task while it relays, with the stream as it was at the start; behind the end of the relay; and
-- where no connection came up. `FIN` is the event of the stream's `close`.
pub data RemoteTask : Type 0 where
  relaying : MuxStream → Relay → RemoteTask
  served : Relay → MuxStream → Event → RemoteTask
  refused : Error → MuxStream → Event → RemoteTask

abbrev pub has_ended : Direction → Bool
has_ended (moving c) = false
has_ended (closing p) = false
has_ended (ended p) = true

abbrev pub is_over : Relay → Bool
is_over r = has_ended r.client_to_server && has_ended r.server_to_client

-- The stream with the mark that its two halves share.
abbrev pub stream_now : MuxStream → Relay → MuxStream
stream_now m r = if is_shut r.client then record m { state = close_state m.state } else m

-- `relay(..).await?; stream.close()`; `relay` has no error to give.
abbrev pub settle : MuxStream → Relay → RemoteTask
settle m r =
    let (m', fin) = close (stream_now m r) in if is_over r then served r m' fin else relaying m r

-- The stream gives `client`, and the other end `server`.
abbrev pub serve : List ℕ → List ℕ → MuxStream → Outcome ChannelStream → Outcome RemoteTask
serve client server m (ok remote) = split m >>= λ (reader, m').
    ok (settle m' (relay (shared m'.state.closed) connection client server))
serve client server m (err e) = ok (refused e (close m).0 (close m).1)
serve client server m panic = panic
serve client server m stuck = stuck

module _ (serialize : ConnectRequest → List ℕ) (manager : ChannelSessionManager) where
  unfoldable pub handle_rmux_stream : Bool → List ℕ → List ℕ → MuxStream → Outcome RemoteTask
  unfolding get_channel_stream
  handle_rmux_stream connects client server m =
      serve client server m (get_channel_stream serialize manager connects "direct" m.target.addr).1

abbrev pub poll_task : RemoteTask → Turn → RemoteTask
poll_task (relaying m r) t = settle m (take_turn r t)
poll_task (served r m fin) t = served r m fin
poll_task (refused e m fin) t = refused e m fin

unfoldable pub run_task : List Turn → RemoteTask → RemoteTask
run_task [] task = task
run_task (t ∷ ts) task = run_task ts (poll_task task t)
