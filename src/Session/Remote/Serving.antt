-- ===== src/Session/Remote/Serving.antt =====
-- What becomes of a stream that the peer opened (src/rmux/session.rs), under any order of polls.
use rsnova.Base.{ℕ, ◌≡◌, ◌⊎◌, Bool, true, false, List, if◌then◌else◌}
use rsnova.Base.Outcome.{failed}
use rsnova.Event.{Event, new_fin_event}
use rsnova.Io.{buf_copy}
use rsnova.Io
use rsnova.Stream.{MuxStream, close, close_state}
use rsnova.Tunnel.Relay.{End, connection, shared, is_shut, Direction, Relay}
use rsnova.Tunnel.Relay.Directions.{Carries}
use rsnova.Session.Remote.{RemoteTask, relaying, served, refused, has_ended, is_over, stream_now}

abbrev IsStream : End → Type 0
IsStream connection = ⊥
IsStream (shared b) = Unit

-- The direction that writes to an end has not ended, or the end is closed.
abbrev pub IsHalf : Direction → End → Type 0
IsHalf d e = (has_ended d ≡ false) ⊎ (is_shut e ≡ true)

record Holds (client server : List ℕ) (r : Relay) : Type 0 where
  stream : IsStream r.client
  half : IsHalf r.server_to_client r.client
  up_bytes : Carries client r.client_to_server
  down_bytes : Carries server r.server_to_client

-- A stream behind its `close`, with the event that tells the peer.
pub record IsClosed (id : ℕ) (m : MuxStream) (fin : Event) : Type 0 where
  pub marked : m.state.closed ≡ true
  pub told : fin ≡ new_fin_event id false

-- Both directions keep their bytes in order. While one has not ended, the stream has its state but
-- for the mark, which it has at the latest when the direction that writes to it has ended. When both
-- have, the stream is closed and the peer told. Without a connection it is closed at once.
abbrev pub Serves : Bool → List ℕ → List ℕ → MuxStream → RemoteTask → Type 0
Serves connects client server m (relaying m' r) =
    (connects ≡ true)
    × (is_over r ≡ false)
    × ((stream_now m' r).state ≡ (if is_shut r.client then close_state m.state else m.state))
    × IsHalf r.server_to_client r.client
    × Carries client r.client_to_server
    × Carries server r.server_to_client
Serves connects client server m (served r m' fin) =
    (connects ≡ true)
    × (is_over r ≡ true)
    × IsClosed m.state.stream_id m' fin
    × Carries client r.client_to_server
    × Carries server r.server_to_client
Serves connects client server m (refused e m' fin) =
    (connects ≡ false) × (e ≡ failed) × IsClosed m.state.stream_id m' fin

-- The task of the stream `m` is at its relay, or behind it.
abbrev by_end : Bool → MuxStream → Relay → RemoteTask
by_end b m r = let (m', fin) = close (stream_now m r) in if b then served r m' fin else relaying m r
