-- ===== src/Session/Loop/Stopping.antt =====
-- How the event loop of a session ends (src/rmux/session.rs).
use Prim.Native.String.{String}
use rsnova.Base.{ℕ, ◌≤◌, ◌≡◌, ◌⊎◌, true, Option, some, List, [], ◌∷◌, length, All}
use rsnova.Base.Outcome.{Outcome, ok, err, panic, stuck}
use rsnova.Message.{ConnectRequest}
use rsnova.Event.{flags, flag_data}
use rsnova.Crypto.Primitives.{Cipher}
use rsnova.Stream.{capacity, MuxStream, Poll, ready, pending}
use rsnova.Session.Loop.{Loop, Input, Verdict, go_on, leave, waits, get_stream, handle_event}
use rsnova.Session.Loop.Ending.{IsFatal}

-- Whether a stream is in the table with its end closed.
abbrev pub ClosedStream : ℕ × MuxStream → Type 0
ClosedStream (k, s) = s.state.closed ≡ true

-- The event in whose handler the loop waits: the peer's data for an open stream that has no room.
abbrev pub IsBlocked : Input → Loop → Type 0
IsBlocked i l =
    (i.ev.remote ≡ true)
    × (flags i.ev.header ≡ flag_data)
    × ((s : MuxStream) × (get_stream i.ev.header.stream_id l.streams ≡ some s)
        × (capacity ≤ length s.dat.queue))

abbrev WaitsAt : Input → Loop → Outcome (Loop × Verdict) → Type 0
WaitsAt i l (ok (l', go_on)) = Unit
WaitsAt i l (ok (l', leave)) = Unit
WaitsAt i l (ok (l', waits)) = IsBlocked i l
WaitsAt i l (err e) = Unit
WaitsAt i l panic = Unit
WaitsAt i l stuck = Unit

abbrev NoRoom : MuxStream → Outcome (Poll MuxStream) → Type 0
NoRoom s (ok (ready t)) = Unit
NoRoom s (ok pending) = capacity ≤ length s.dat.queue
NoRoom s (err e) = Unit
NoRoom s panic = Unit
NoRoom s stuck = Unit

module _ (p : Cipher) (deserialize : List ℕ → Option ConnectRequest) (channel : String)
    (tunnel_id : ℕ) where
  -- One of the events, at the state in which the loop takes it, is as `P` says.
  abbrev pub Meets : (Input → Loop → Type 0) → List Input → Loop → Type 0
  Meets P [] l = ⊥
  Meets P (i ∷ is) l =
      P i l
      ⊎ ((l' : Loop) × (handle_event p deserialize channel tunnel_id i l ≡ ok (l', go_on))
          × Meets P is l')

  -- The session behind the loop is closed, and so are all its streams; or the loop waits in the
  -- handler of an event, or an event has made it panic.
  abbrev pub Stops : List Input → Loop → Outcome (Poll Loop) → Type 0
  Stops is l (ok (ready l')) = (l'.state.closed ≡ true) × All ClosedStream l'.streams
  Stops is l (ok pending) = Meets IsBlocked is l
  Stops is l (err e) = ⊥
  Stops is l panic = Meets IsFatal is l
  Stops is l stuck = ⊥
