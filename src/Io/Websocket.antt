-- ===== src/Io/Websocket.antt =====
-- src/utils/ws.rs: a byte stream over the messages of a websocket. The crate `tungstenite` and the
-- sink and stream of `futures` are arguments: what a poll of them gives.
pub mod Messages
use Prim.Native.String.{String}
use rsnova.Base.{
  ℕ, Bool, true, false, not, List, [], ◌∷◌, ◌++◌, length, take, drop, ltb, if◌then◌else◌,
}
use rsnova.Base.Outcome.{Outcome, ok, err, Error, other, ◌>>=◌}
use rsnova.Buffer.{fill_read_buf, is_nil}
use rsnova.Stream.{Poll, ready, pending}

-- The next item of the stream: a binary message, one of another kind, a failure with its
-- description, the end, or none yet.
pub data Item : Type 0 where
  binary : List ℕ → Item
  not_binary : Item
  broken : String → Item
  at_end : Item
  not_yet : Item

pub record WebsocketReader : Type 0 where
  pub recv_buf : List ℕ

unfoldable pub new_reader : WebsocketReader
new_reader = record { recv_buf = [] }

-- A binary message: none of it is the end of the stream, and what does not fit is kept.
unfoldable pub take_message : ℕ → List ℕ → Poll (List ℕ) × WebsocketReader
take_message buf_len [] = (ready [], record { recv_buf = [] })
take_message buf_len (b ∷ bs) =
    let dat = b ∷ bs in
    let copy_n = if ltb buf_len (length dat) then buf_len else length dat in
    (ready (take copy_n dat), record { recv_buf = drop copy_n dat })

unfoldable pub next_item : ℕ → Item → Outcome (Poll (List ℕ) × WebsocketReader)
unfolding take_message
next_item buf_len (binary dat) = ok (take_message buf_len dat)
next_item buf_len not_binary = err (other "invalid msg type")
next_item buf_len (broken why) = err (other why)
next_item buf_len at_end = ok (ready [], record { recv_buf = [] })
next_item buf_len not_yet = ok (pending, record { recv_buf = [] })

-- `poll_read` into a buffer of `buf_len` bytes.
unfoldable pub poll_read : WebsocketReader → ℕ → Item → Outcome (Poll (List ℕ) × WebsocketReader)
unfolding next_item
poll_read r buf_len item =
    if not (is_nil r.recv_buf)
    then (fill_read_buf r.recv_buf buf_len >>= λ (out, left).
        ok (ready out, record { recv_buf = left }))
    else next_item buf_len item

-- A poll of the future that `sink.send` makes: the sink has no room for the message, or has taken it
-- and is still flushing, or is done with it, or fails.
pub data SendAnswer : Type 0 where
  no_room : SendAnswer
  flushing : SendAnswer
  done : SendAnswer
  send_failed : String → SendAnswer

-- The messages that the sink has taken.
pub record WebsocketWriter : Type 0 where
  pub sink : List (List ℕ)

-- Each call makes a new future, with the whole of `buf` as its message.
unfoldable pub poll_write :
    WebsocketWriter → List ℕ → SendAnswer → Outcome (Poll ℕ) × WebsocketWriter
poll_write w buf no_room = (ok pending, w)
poll_write w buf flushing = (ok pending, record { sink = w.sink ++ (buf ∷ []) })
poll_write w buf done = (ok (ready (length buf)), record { sink = w.sink ++ (buf ∷ []) })
poll_write w buf (send_failed why) = (err (other why), w)

unfoldable pub poll_flush : WebsocketWriter → Outcome (Poll (Unit {0}))
poll_flush w = ok (ready tt)

-- The future of `sink.close`.
unfoldable pub poll_shutdown : SendAnswer → Outcome (Poll (Unit {0}))
poll_shutdown no_room = ok pending
poll_shutdown flushing = ok pending
poll_shutdown done = ok (ready tt)
poll_shutdown (send_failed why) = err (other why)
