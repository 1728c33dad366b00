-- ===== src/Stream.antt =====
-- src/rmux/stream.rs: one multiplexed stream, its flow-control counters, and the reading and writing
-- ends that the relay polls. A stream is one record: the clones of the source share it by `Arc`, and
-- what each of them does is a step on that record. The clock of `born_time`, which is only logged,
-- is left out.
pub mod Reading
pub mod Overlong
pub mod Flow
use Prim.Native.String.{String}
use rsnova.Base.{
  ℕ, zero, suc, ◌+◌, ◌-◌, ◌*◌, ◌%◌, ◌^◌, Bool, true, false, ◌&&◌, ◌||◌, not, Option, none, some,
  List, [], ◌∷◌, ◌++◌, length, take, drop, ltb, leb, ◌==◌, if◌then◌else◌,
}
use rsnova.Base.Outcome.{Outcome, ok, panic, ◌>>=◌}
use rsnova.Base.Word.{add32, sub32, is_negative}
use rsnova.Buffer.{fill_read_buf, is_nil}
use rsnova.Event.{Event, new_data_event, new_fin_event}
use rsnova.Message.{ConnectRequest}

-- A bounded channel of byte vectors: what is queued, whether the receiving end was closed, and
-- whether a sender is left.
pub record Channel : Type 0 where
  pub queue : List (List ℕ)
  pub rx_closed : Bool
  pub has_sender : Bool

abbrev pub capacity : ℕ
capacity = 16

unfoldable pub try_send : Channel → List ℕ → Channel × Bool
try_send c dat =
    if c.rx_closed || leb capacity (length c.queue)
    then (c, false)
    else (record c { queue = c.queue ++ (dat ∷ []) }, true)

pub data Poll {ℓ} (A : Type ℓ) : Type ℓ where
  ready : A → Poll A
  pending : Poll A

unfoldable pub poll_recv : Channel → Poll (Option (List ℕ)) × Channel
poll_recv c = elim c.queue [
  | [] ↦ (if c.rx_closed || not c.has_sender then ready none else pending, c)
  | d ∷ ds ↦ (ready (some d), record c { queue = ds })
]

pub record MuxStreamState : Type 0 where
  pub channel : String
  pub session_id : ℕ
  pub stream_id : ℕ
  pub send_buf_window : ℕ
  pub recv_buf_size : ℕ
  pub closed : Bool
  pub total_recv_bytes : ℕ
  pub total_send_bytes : ℕ

unfoldable pub close_state : MuxStreamState → MuxStreamState
close_state s = record s { closed = true }

abbrev pub min_report_window : ℕ
min_report_window = 32 * 1024

-- The answer of `report_update_window`: the event went out, there was no session to take it and the
-- call returned true all the same, or the session's queue refused it.
pub data Report : Type 0 where
  sent lost refused : Report

abbrev pub counts_as_reported : Report → Bool
counts_as_reported sent = true
counts_as_reported lost = true
counts_as_reported refused = false

-- The new counters, and the window that the call tried to report.
unfoldable pub inc_recv_buf_window : MuxStreamState → ℕ → Report → MuxStreamState × Option ℕ
inc_recv_buf_window s inc answer =
    let s' : MuxStreamState = record s {
      recv_buf_size = add32 s.recv_buf_size inc;
      total_recv_bytes = add32 s.total_recv_bytes inc;
    } in
    let current = s'.recv_buf_size in
    if not (is_negative current) && leb min_report_window current
    then (
      (if counts_as_reported answer
          then record s' { recv_buf_size = sub32 s'.recv_buf_size current }
          else s'),
      some current,
    )
    else (s', none)

-- What a poll of the reading end gives: bytes (none at the end of the stream), or an error.
pub data ReadResult : Type 0 where
  got : List ℕ → ReadResult
  closed_error : ReadResult

pub record MuxStreamReader : Type 0 where
  pub rx : Channel
  pub recv_buf : List ℕ
  pub state : MuxStreamState

unfoldable pub close_rx : Channel → Channel
close_rx c = record c { rx_closed = true }

-- `inc_recv_buf_window` behind a read of some bytes.
unfoldable pub count_read :
    MuxStreamReader → Report → List ℕ → List ℕ → Poll ReadResult × MuxStreamReader × Option ℕ
unfolding inc_recv_buf_window
count_read r answer out left =
    let (s, window) = inc_recv_buf_window r.state (length out) answer in
    (ready (got out), record r { recv_buf = left; state = s }, window)

-- A vector from the channel: the end of the stream if it is empty, else as much as fits.
unfoldable pub take_vector :
    MuxStreamReader → ℕ → Report → List ℕ → Poll ReadResult × MuxStreamReader × Option ℕ
unfolding count_read close_rx close_state
take_vector r buf_len answer [] = (
  ready (got []),
  record r { state = close_state r.state; rx = close_rx r.rx; recv_buf = [] },
  none,
)
take_vector r buf_len answer (b ∷ bs) =
    let dat = b ∷ bs in
    let copy_n = if ltb buf_len (length dat) then buf_len else length dat in
    count_read r answer (take copy_n dat) (drop copy_n dat)

unfoldable pub after_recv :
    MuxStreamReader
    → ℕ
    → Report
    → Poll (Option (List ℕ)) × Channel
    → Poll ReadResult × MuxStreamReader × Option ℕ
unfolding take_vector
after_recv r buf_len answer (pending, c) = (pending, record r { recv_buf = [] }, none)
after_recv r buf_len answer (ready none, c) =
    (ready (got []), record r { state = close_state r.state; rx = close_rx c; recv_buf = [] }, none)
after_recv r buf_len answer (ready (some d), c) =
    take_vector (record r { rx = c; recv_buf = [] }) buf_len answer d

-- `poll_read` into a buffer of `buf_len` bytes.
unfoldable pub poll_read :
    MuxStreamReader → ℕ → Report → Outcome (Poll ReadResult × MuxStreamReader × Option ℕ)
poll_read r buf_len answer =
    if r.state.closed
    then ok (ready closed_error, record r { rx = close_rx r.rx }, none)
    else if not (is_nil r.recv_buf)
    then (do (out, left) ← fill_read_buf r.recv_buf buf_len; ok (count_read r answer out left))
    else ok (after_recv r buf_len answer (poll_recv r.rx))

-- `tx.poll_ready` and `try_send` on the session's event queue, as the environment answers them.
pub data Queue : Type 0 where
  accepts full gone : Queue

pub data WriteResult : Type 0 where
  wrote : ℕ → WriteResult
  write_failed : WriteResult

pub record SharedIoState : Type 0 where
  pub has_waker : Bool
  pub has_data_tx : Bool
  pub has_data_rx : Bool

pub record MuxStream : Type 0 where
  pub target : ConnectRequest
  pub data_tx : Bool
  pub dat : Channel
  pub state : MuxStreamState
  pub io_state : SharedIoState

-- The result, the new stream and the event that was sent.
unfoldable pub poll_write : MuxStream → List ℕ → Queue → Poll WriteResult × MuxStream × Option Event
unfolding new_data_event
poll_write m buf queue =
    if m.state.closed
    then (ready write_failed, m, none)
    else if is_negative m.state.send_buf_window
    then (pending, record m { io_state = record io_state { has_waker = true } }, none)
    else elim queue [
      | full ↦ (pending, m, none)
      | gone ↦ (ready write_failed, m, none)
      | accepts ↦ (
        ready (wrote (length buf)),
        record m {
          state = record state {
            send_buf_window = sub32 state.send_buf_window (length buf);
            total_send_bytes = add32 state.total_send_bytes (length buf);
          };
        },
        some (new_data_event state.stream_id buf false),
      )
    ]
  where
    open m use {io_state, state}

unfoldable pub poll_flush : MuxStream → Poll Bool
poll_flush m = ready true

unfoldable pub poll_shutdown : MuxStream → MuxStream
unfolding close_state
poll_shutdown m = record m { state = close_state m.state }

abbrev pub initial_window : ℕ
initial_window = 128 * 1024

unfoldable pub new : String → ℕ → ℕ → ConnectRequest → MuxStream
new name id0 id1 target = record {
  target = target;
  data_tx = false;
  dat = record { queue = []; rx_closed = false; has_sender = true };
  state = record {
    channel = name;
    session_id = id0;
    stream_id = id1;
    send_buf_window = initial_window;
    recv_buf_size = 0;
    closed = false;
    total_recv_bytes = 0;
    total_send_bytes = 0;
  };
  io_state = record { has_waker = false; has_data_tx = true; has_data_rx = true };
}

-- The receiving end can be taken once. The writing end shares all its state with the stream.
unfoldable pub split : MuxStream → Outcome (MuxStreamReader × MuxStream)
split m =
    if m.io_state.has_data_rx
    then ok (
      record { rx = m.dat; recv_buf = []; state = m.state },
      record m { io_state = record io_state { has_data_rx = false } },
    )
    else panic
  where
    open m use {io_state}

unfoldable pub id : MuxStream → ℕ
id m = m.state.stream_id

unfoldable pub check_data_tx : MuxStream → MuxStream
check_data_tx m =
    if m.data_tx
    then m
    else if m.io_state.has_data_tx
    then record m { data_tx = true; io_state = record io_state { has_data_tx = false } }
    else m
  where
    open m use {io_state}

-- The new stream, and whether the writer was woken.
unfoldable pub update_send_window : MuxStream → ℕ → MuxStream × Bool
update_send_window m inc =
    let w = add32 state.send_buf_window inc in
    let m' : MuxStream = record m { state = record state { send_buf_window = w } } in
    if not (is_negative w) && ltb 0 w && io_state.has_waker
    then (record m' { io_state = record io_state { has_waker = false } }, true)
    else (m', false)
  where
    open m use {io_state, state}

-- `tx.send(data).await` waits while the channel is full, which is `pending`; an empty vector fails
-- the assertion; without a sender, or with the receiver closed, the data is dropped.
unfoldable pub offer_data : MuxStream → List ℕ → Outcome (Poll MuxStream)
unfolding check_data_tx
offer_data m [] = panic
offer_data m (b ∷ bs) =
    let m' = check_data_tx m in
    if m'.data_tx
    then if m'.dat.rx_closed
      then ok (ready m')
      else if leb capacity (length m'.dat.queue)
      then ok pending
      else ok
          (ready (record m' { dat = record (m'.dat) { queue = m'.dat.queue ++ ((b ∷ bs) ∷ []) } }))
    else ok (ready m')

-- `close` marks the stream, queues the end of the stream for the reader, wakes the writer, and sends
-- the `FIN`, which the session's queue may refuse.
unfoldable pub close : MuxStream → MuxStream × Event
unfolding try_send close_state new_fin_event
close m =
    let d1 = if m.data_tx then (try_send m.dat []).0 else m.dat in
    let d2 = if m.io_state.has_data_tx then (try_send d1 []).0 else d1 in
    (
      record m {
        state = close_state m.state;
        dat = d2;
        io_state = record io_state { has_waker = false };
      },
      new_fin_event m.state.stream_id false,
    )
  where
    open m use {io_state}
