-- ===== src/Tunnel/Relay.antt =====
-- src/tunnel/relay.rs: the choice of a channel for a target, and the relay of both directions.
pub mod Choice
pub mod Directions
pub mod Closing
use Prim.Native.String.{String}
use text.Mathlib.Text.{◌==◌ as str_eq}
use rsnova.Base.{ℕ, Bool, true, false, ◌&&◌, ◌||◌, not, List, [], ◌∷◌, ltb, ◌==◌, if◌then◌else◌}
use rsnova.Base.Outcome.{Outcome, ok, err, panic, stuck, Error, other, failed, ◌>>=◌, ◌>>◌, fail_if}
use rsnova.Buffer.{is_nil}
use rsnova.Config.{Regex, PacConfig, is_match}
use rsnova.Message.{ConnectRequest}
use rsnova.Session.{ChannelSessionManager, get_channel_session_size}
use rsnova.Session.Routine.{string_is_empty}
use rsnova.Channel.Opening.{ChannelStream, get_channel_stream}
use rsnova.Io.{BufCopy, buf_copy, Answer, not_ready, broken, goes, Progress, copying, done, ask}
use rsnova.Io

-- The test by which the loop does not go on behind a match.
unfoldable pub is_usable : ChannelSessionManager → String → Bool
is_usable m channel = str_eq channel "direct" || not (get_channel_session_size m channel == 0)

module _ {R : Type 0} (regex : Regex R) where
  -- `for pac in cfg.pac.iter()`, with the channel so far.
  unfoldable pub choose_loop :
      ChannelSessionManager → List ℕ → List (PacConfig R) → String → Outcome String
  choose_loop m target [] channel = ok channel
  choose_loop m target (pac ∷ pacs) channel = is_match regex pac target >>= λ matches.
      let later = choose_loop m target pacs (if matches then pac.channel else channel) in
      if matches && is_usable m pac.channel then ok pac.channel else later

  unfoldable pub choose_channel :
      ChannelSessionManager → List ℕ → List (PacConfig R) → Outcome String
  unfolding choose_loop
  choose_channel m target pacs = do
    channel ← choose_loop m target pacs ""
    fail_if (string_is_empty channel) (other "no valid channel found.")
    ok channel

  -- What a relay begins with: the remote end, and what has been written to it.
  pub record Opened : Type 0 where
    pub remote : ChannelStream
    pub written : List ℕ

  -- Before the relay: `writes` is whether `write_all` succeeds, which is not asked where there is
  -- nothing to write.
  abbrev pub first_write : Bool → List ℕ → Outcome (Unit {0})
  first_write writes relay_buf = fail_if (not (is_nil relay_buf) && not writes) failed

  abbrev pub opened : Bool → List ℕ → Outcome ChannelStream → Outcome Opened
  opened writes relay_buf remote = do
    r ← remote
    first_write writes relay_buf
    ok (record { remote = r; written = relay_buf })

  abbrev pub open_chosen :
      (ConnectRequest → List ℕ)
      → ChannelSessionManager
      → Bool
      → Bool
      → List ℕ
      → List ℕ
      → Outcome String
      → ChannelSessionManager × Outcome Opened
  open_chosen serialize m connects writes target relay_buf (ok channel) =
      let (m', remote) = get_channel_stream serialize m connects channel target in
      (m', opened writes relay_buf remote)
  open_chosen serialize m connects writes target relay_buf (err e) = (m, err e)
  open_chosen serialize m connects writes target relay_buf panic = (m, panic)
  open_chosen serialize m connects writes target relay_buf stuck = (m, stuck)

  -- `relay_stream`, up to the call of `relay`.
  unfoldable pub relay_stream :
      (ConnectRequest → List ℕ)
      → ChannelSessionManager
      → Bool
      → Bool
      → List ℕ
      → List (PacConfig R)
      → List ℕ
      → ChannelSessionManager × Outcome Opened
  unfolding choose_channel
  relay_stream serialize m connects writes target pacs relay_buf =
      open_chosen serialize m connects writes target relay_buf (choose_channel m target pacs)

-- An end of a relay: a connection, whose two halves are apart, or a stream of a session, whose halves
-- share the mark of its end (`state.closed`).
pub data End : Type 0 where
  connection : End
  shared : Bool → End

abbrev pub is_shut : End → Bool
is_shut connection = false
is_shut (shared closed) = closed

abbrev pub shut : End → End
shut connection = connection
shut (shared closed) = shared true

-- One of the two directions: copying, closing the writer whatever the copy came to, and at its end.
pub data Direction : Type 0 where
  moving : BufCopy → Direction
  closing : Progress → Direction
  ended : Progress → Direction

abbrev pub after_copy : Progress → Direction
after_copy (copying c) = moving c
after_copy (done n c) = closing (done n c)
after_copy (Io.failed c) = closing (Io.failed c)

abbrev pub relay_size : ℕ
relay_size = 8192

-- A read or a write: a stream that is marked as closed gives an error at once.
abbrev pub asked : End → Answer → Answer
asked e a = if is_shut e then broken else a

-- A stream has nothing to flush.
abbrev pub flushed : End → Answer → Answer
flushed connection a = a
flushed (shared closed) a = goes 0

-- A stream whose reader comes to its end marks itself as closed.
abbrev pub read_from : End → Progress → End
read_from e (copying c) = if c.read_done then shut e else e
read_from e (done n c) = e
read_from e (Io.failed c) = e

-- What the copy waits for: a read of the one end, a write to the other, or its flush.
unfoldable pub copy_step : End → End → BufCopy → Answer → End × Progress
copy_step source sink c a =
    let p = ask relay_size c (asked source a) in
    if c.pos == c.cap && not c.read_done
    then (read_from source p, p)
    else if ltb c.pos c.cap
    then (source, ask relay_size c (asked sink a))
    else (source, ask relay_size c (flushed sink a))

-- `writer.shutdown()`: at once on a stream, which is closed by it.
abbrev pub close_writer : End → Progress → Answer → End × Direction
close_writer (shared closed) p a = (shared true, ended p)
close_writer connection p not_ready = (connection, closing p)
close_writer connection p broken = (connection, ended p)
close_writer connection p (goes k) = (connection, ended p)

-- The next answer of what the direction waits for, and the two ends after it.
unfoldable pub advance : End → End → Direction → Answer → End × End × Direction
unfolding copy_step
advance source sink (moving c) a =
    let (source', p) = copy_step source sink c a in (source', sink, after_copy p)
advance source sink (closing p) a = let (sink', d) = close_writer sink p a in (source, sink', d)
advance source sink (ended p) a = (source, sink, ended p)

-- Both directions and both ends; `join` polls the directions in any order, and is done when both are.
pub record Relay : Type 0 where
  pub client : End
  pub server : End
  pub client_to_server : Direction
  pub server_to_client : Direction

unfoldable pub relay : End → End → List ℕ → List ℕ → Relay
relay client server from_client from_server = record {
  client = client;
  server = server;
  client_to_server = moving (buf_copy from_client);
  server_to_client = moving (buf_copy from_server);
}

-- An answer for the one direction, or for the other, or the session closes an end that is a stream.
pub data Turn : Type 0 where
  up : Answer → Turn
  down : Answer → Turn
  client_gone : Turn
  server_gone : Turn

unfoldable pub take_turn : Relay → Turn → Relay
unfolding advance
take_turn r (up a) =
    let (client, server, d) = advance r.client r.server r.client_to_server a in
    record r { client = client; server = server; client_to_server = d }
take_turn r (down a) =
    let (server, client, d) = advance r.server r.client r.server_to_client a in
    record r { client = client; server = server; server_to_client = d }
take_turn r client_gone = record r { client = shut r.client }
take_turn r server_gone = record r { server = shut r.server }

unfoldable pub run : List Turn → Relay → Relay
unfolding take_turn
run [] r = r
run (t ∷ ts) r = run ts (take_turn r t)
