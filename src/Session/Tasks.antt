-- ===== src/Session/Tasks.antt =====
-- The reading and the writing task of `process_rmux_session` (src/rmux/session.rs, lines 690 to 774
-- and 788 to 870). A task is run over a list of what its surroundings answer in each round; at the
-- end of the list it is still running.
pub mod Delivery
pub mod Sending
use rsnova.Base.{
  ℕ, zero, suc, Bool, true, false, Option, none, some, List, [], ◌∷◌, ◌++◌, length, take, concat,
  min, ltb, ◌==◌, ◌||◌, if◌then◌else◌,
}
use rsnova.Base.Outcome.{Outcome, ok, err, panic, stuck, ◌>>=◌}
use rsnova.Event.{Event, new_shutdown_event}
use rsnova.Crypto.Primitives.{Cipher}
use rsnova.Crypto.Reader.{Connection, read_encrypt_event}
use rsnova.Buffer.{VBuf, push, vlen, advance, bytes_vectored}
use rsnova.Session.{MuxSessionState}

-- What a round of the reading task sees: the session closed by another task, the writing task gone,
-- whether the event queue takes the event, and the time.
pub record RecvRound : Type 0 where
  pub closed : Bool
  pub dropped : Bool
  pub takes : Bool
  pub now : ℕ

-- What the task has put on the event queue, in order, the session's state and the connection.
pub record RecvTask : Type 0 where
  pub events : List Event
  pub state : MuxSessionState
  pub conn : Connection
  pub over : Bool

-- Behind the loop: the session is closed and the event loop is told.
abbrev pub end_recv : RecvTask → RecvTask
end_recv t = record t {
  state = record (t.state) { closed = true };
  events = t.events ++ (new_shutdown_event 0 false ∷ []);
  over = true;
}

abbrev pub accept_event : RecvRound → RecvTask → Event → Connection → RecvTask
accept_event r t ev c =
    let state : MuxSessionState = record (t.state) { io_active_unix_secs = r.now } in
    if r.takes
    then record t {
      state = state;
      events = t.events ++ (record ev { remote = true } ∷ []);
      conn = c;
    }
    else end_recv (record t { state = state; conn = c })

-- `match recv_event`
abbrev pub after_read_event :
    RecvRound → RecvTask → Outcome (Option (Event × Connection)) → Outcome RecvTask
after_read_event r t (ok (some (ev, c))) = ok (accept_event r t ev c)
after_read_event r t (ok none) = ok (end_recv t)
after_read_event r t (err e) = ok (end_recv t)
after_read_event r t panic = panic
after_read_event r t stuck = stuck

unfoldable pub recv_round : Cipher → RecvRound → RecvTask → Outcome RecvTask
recv_round p r t =
    let received = after_read_event r t (read_encrypt_event p t.conn) in
    if t.over then ok t else if r.closed || r.dropped then ok (end_recv t) else received

unfoldable pub handle_recv : Cipher → List RecvRound → RecvTask → Outcome RecvTask
handle_recv p [] t = ok t
handle_recv p (r ∷ rs) t = let later = handle_recv p rs in recv_round p r t >>= later

-- What a round of the writing task sees: the session closed by another task, how many vectors the
-- queue holds ready, how many slices the writer looks at, and how many bytes it takes, or a failure.
pub record SendRound : Type 0 where
  pub closed : Bool
  pub queued : ℕ
  pub places : ℕ
  pub writes : Option ℕ

-- The buffers, the vectors that are still to come from the queue, and the bytes that went out.
pub record SendTask : Type 0 where
  pub vbuf : VBuf
  pub queue : List (List ℕ)
  pub out : List ℕ
  pub over : Bool

abbrev pub stop : SendTask → SendTask
stop t = record t { over = true }

-- The next vector goes behind the buffers; an empty one or the end of the queue ends the task.
abbrev pub push_next : (SendTask → SendTask) → SendTask → List (List ℕ) → SendTask
push_next later t [] = stop t
push_next later t ([] ∷ ds) = stop (record t { queue = ds })
push_next later t ((b ∷ bs) ∷ ds) = later (record t { vbuf = (push t.vbuf (b ∷ bs)).0; queue = ds })

-- `while vbuf.vlen() < 60`, over the vectors that are ready.
unfoldable pub gather : ℕ → SendTask → SendTask
gather zero t = t
gather (suc n) t =
    let later = gather n in if ltb (vlen t.vbuf) 60 then push_next later t t.queue else t

-- `write_buf`: the writer takes bytes from the slices that it is shown, never more than these hold.
abbrev pub write_out : ℕ → SendTask → List (List ℕ) → SendTask
write_out n t slices =
    let count = min n (length (concat slices)) in
    let t' : SendTask = record t {
      vbuf = advance t.vbuf count;
      out = t.out ++ take count (concat slices);
    } in
    if count == 0 then stop t' else t'

abbrev pub write_buf : SendRound → SendTask → Option ℕ → Outcome SendTask
write_buf r t none = ok (stop t)
write_buf r t (some n) =
    bytes_vectored t.vbuf (suc r.places) >>= λ slices. ok (write_out n t slices)

unfoldable pub send_round : SendRound → SendTask → Outcome SendTask
unfolding gather
send_round r t0 =
    let t1 = if vlen t0.vbuf == 0 then push_next (λ t. t) t0 t0.queue else t0 in
    let t2 = gather r.queued t1 in
    let written = write_buf r t2 r.writes in
    if t0.over
    then ok t0
    else if r.closed
    then ok (stop t0)
    else if t1.over
    then ok t1
    else if t2.over
    then ok t2
    else written

unfoldable pub handle_send : List SendRound → SendTask → Outcome SendTask
handle_send [] t = ok t
handle_send (r ∷ rs) t = let later = handle_send rs in send_round r t >>= later
