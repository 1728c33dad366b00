-- ===== src/Session/Routine.antt =====
-- `routine_all_sessions` (src/rmux/session.rs): one pass over every session of every channel. The
-- clock and the random increments are arguments: `now` in seconds, and for each session id a number
-- below 120, from which the source's increment is 60 less.
use Prim.Native.String.{String}
use rsnova.Base.{
  ℕ, ◌+◌, ◌-◌, ◌%◌, ◌^◌, Bool, true, false, ◌&&◌, not, Option, none, some, List, [], ◌∷◌, ◌++◌, ltb,
  if◌then◌else◌,
}
use rsnova.Base.Int.{lt_neg}
use rsnova.Event.{Event, new_shutdown_event, new_ping_event, new_routine_event}
use rsnova.Session.{MuxSession, ChannelMuxSession, ChannelSessionManager, ping_pong_gap}

-- An event for the queue of the session `sender`.
pub record RoutineAction : Type 0 where
  pub ev : Event
  pub sender : ℕ

-- What a pass over some slots leaves there, sends, and retires.
pub record Pass : Type 0 where
  pub slots : List (Option MuxSession)
  pub actions : List RoutineAction
  pub retired : List MuxSession

abbrev pub string_is_empty : String → Bool
string_is_empty String.[] = true
string_is_empty (String.◌∷◌ c s) = false

abbrev pub retire : MuxSession → MuxSession
retire s = record s { state = record (s.state) { retired = true } }

abbrev pub action : Event → MuxSession → RoutineAction
action ev s = record { ev = ev; sender = s.id }

-- `elapsed > (max_alive_secs as i64 + rand_inc) as u64`
abbrev pub is_aged : ℕ → (ℕ → ℕ) → MuxSession → Bool
is_aged now random s =
    ltb ((s.max_alive_secs + random s.id + 2 ^ 64 - 60) % 2 ^ 64) (now - s.state.born_time)

unfoldable pub is_overdue : String → ℕ → (ℕ → ℕ) → MuxSession → Bool
is_overdue channel now random s =
    ltb 0 s.max_alive_secs && not (string_is_empty channel) && is_aged now random s

abbrev pub is_lost : MuxSession → Bool
is_lost s = lt_neg (ping_pong_gap s.state) 60

unfoldable pub routine_session : String → ℕ → (ℕ → ℕ) → MuxSession → Pass
routine_session channel now random s =
    if is_lost s
    then record {
      slots = none ∷ [];
      actions = action (new_shutdown_event 0 false) s ∷ [];
      retired = retire s ∷ [];
    }
    else let pings =
        if string_is_empty channel then [] else action (new_ping_event 0 false) s ∷ [] in
      let actions = pings ++ (action (new_routine_event 0) s ∷ []) in
      if is_overdue channel now random s
      then record { slots = none ∷ []; actions = actions; retired = retire s ∷ [] }
      else record { slots = some s ∷ []; actions = actions; retired = [] }

abbrev pub join : Pass → Pass → Pass
join a b = record {
  slots = a.slots ++ b.slots;
  actions = a.actions ++ b.actions;
  retired = a.retired ++ b.retired;
}

abbrev pub nothing : Pass
nothing = record { slots = []; actions = []; retired = [] }

unfoldable pub routine_slots : String → ℕ → (ℕ → ℕ) → List (Option MuxSession) → Pass
routine_slots channel now random [] = nothing
routine_slots channel now random (none ∷ slots) =
    join (record { slots = none ∷ []; actions = []; retired = [] })
      (routine_slots channel now random slots)
routine_slots channel now random (some s ∷ slots) =
    join (routine_session channel now random s) (routine_slots channel now random slots)

pub record ChannelsPass : Type 0 where
  pub channels : List (String × ChannelMuxSession)
  pub actions : List RoutineAction
  pub retired : List MuxSession

unfoldable pub routine_channels : ℕ → (ℕ → ℕ) → List (String × ChannelMuxSession) → ChannelsPass
routine_channels now random [] = record { channels = []; actions = []; retired = [] }
routine_channels now random ((name, c) ∷ cs) =
    let here = routine_slots name now random c.sessions in
    let rest = routine_channels now random cs in
    record {
      channels = (name, record c { sessions = here.slots }) ∷ rest.channels;
      actions = here.actions ++ rest.actions;
      retired = here.retired ++ rest.retired;
    }

unfoldable pub routine_retired : List MuxSession → List RoutineAction
routine_retired [] = []
routine_retired (s ∷ ss) = action (new_routine_event 0) s ∷ routine_retired ss

-- The new manager, and the events that are sent once the lock is released.
unfoldable pub routine_all_sessions :
    ℕ → (ℕ → ℕ) → ChannelSessionManager → ChannelSessionManager × List RoutineAction
routine_all_sessions now random m =
    let pass = routine_channels now random m.channels in
    (
      record { channels = pass.channels; retired = m.retired ++ pass.retired },
      pass.actions ++ routine_retired m.retired,
    )
