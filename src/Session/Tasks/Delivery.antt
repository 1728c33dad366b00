-- ===== src/Session/Tasks/Delivery.antt =====
-- From the event loop of one end to the reading task of the other (src/rmux/session.rs).
use Prim.Native.String.{String}
use rsnova.Base.{
  ℕ, ◌≡◌, refl, sym, ◌∙◌, ap, true, false, Option, some, List, [], ◌∷◌, ◌++◌, length, map, concat,
  All, arith, append_assoc, append-nil, concat-append,
}
use rsnova.Base.Outcome.{Outcome, ok, ◌>>=◌}
use rsnova.Message.{ConnectRequest}
use rsnova.Event.{Event, IsFramed}
use rsnova.Crypto.Primitives.{Cipher, IsCipher}
use rsnova.Crypto.{CryptoContext, encrypt}
use rsnova.Crypto.RoundTrip.{InSync, frame}
use rsnova.Crypto.Reader.{Connection, read_encrypt_event}
use rsnova.Crypto.Reader.Stream.{incoming, AllData, read_encrypt_event-Delivers}
use rsnova.Session.Loop.{Loop, send_local_event}
use rsnova.Session.Tasks.{RecvRound, RecvTask, recv_round, handle_recv}

abbrev pub mark_remote : Event → Event
mark_remote ev = record ev { remote = true }

-- A round in which nothing ends the task.
pub record IsOpen (r : RecvRound) : Type 0 where
  pub not_closed : r.closed ≡ false
  pub not_dropped : r.dropped ≡ false
  pub taken : r.takes ≡ true

-- The task has handed on these events, in this order, and goes on with nothing left over.
pub record HandedOn (t : RecvTask) (evs : List Event) (r : Outcome RecvTask) : Type 0 where
  pub task : RecvTask
  pub result : r ≡ ok task
  pub events : task.events ≡ t.events ++ map mark_remote evs
  pub running : task.over ≡ false
  pub left : task.conn.recv_buf ++ incoming task.conn.reads ≡ []

recv_round-open :
    (p : Cipher) (r : RecvRound) (t : RecvTask) (ev : Event) (c : Connection)
    → IsOpen r
    → t.over ≡ false
    → read_encrypt_event p t.conn ≡ ok (some (ev, c))
    → recv_round p r t
      ≡ ok (record t {
        state = record (t.state) { io_active_unix_secs = r.now };
        events = t.events ++ (mark_remote ev ∷ []);
        conn = c;
      })
unfolding recv_round
recv_round-open p r t ev c o run e = simp (run, o.not_closed, o.not_dropped, e, o.taken)

module _ (p : Cipher) where
  abbrev pub frames : CryptoContext → List Event → List ℕ
  frames w [] = []
  frames w (ev ∷ evs) = frame p w ev ++ frames (encrypt p w ev []).0 evs

  handle_recv-HandedOn :
      (law : IsCipher p) (evs : List Event) (rs : List RecvRound) (w : CryptoContext) (t : RecvTask)
      → InSync w t.conn.ctx
      → All IsFramed evs
      → AllData t.conn.reads
      → t.conn.recv_buf ++ incoming t.conn.reads ≡ frames w evs
      → All IsOpen rs
      → length rs ≡ length evs
      → t.over ≡ false
      → HandedOn t evs (handle_recv p rs t)
  unfolding handle_recv
  handle_recv-HandedOn law [] [] w t s f d e o n run = record {
    task = t;
    result = refl;
    events = sym (append-nil t.events);
    running = run;
    left = e;
  }
  handle_recv-HandedOn law [] (r ∷ rs) w t s f d e o n run = absurd (omega (arith, n))
  handle_recv-HandedOn law (ev ∷ evs) [] w t s f d e o n run = absurd (omega (arith, n))
  handle_recv-HandedOn law (ev ∷ evs) (r ∷ rs) w t s f d e o n run =
      let w' = (encrypt p w ev []).0 in
      let (c, got, rest, s', d') =
        read_encrypt_event-Delivers p law w ev (frames w' evs) t.conn s f.0 d e in
      let t' : RecvTask = record t {
        state = record (t.state) { io_active_unix_secs = r.now };
        events = t.events ++ (mark_remote ev ∷ []);
        conn = c;
      } in
      let later = handle_recv-HandedOn law evs rs w' t' s' f.1 d' rest o.1 (omega (arith, n)) run in
      record {
        task = later.task;
        result =
            ap (λ x. x >>= handle_recv p rs) (recv_round-open p r t (mark_remote ev) c o.0 run got)
            ∙ later.result;
        events = later.events ∙ append_assoc t.events (mark_remote ev ∷ []) (map mark_remote evs);
        running = later.running;
        left = later.left;
      }

  module _ (deserialize : List ℕ → Option ConnectRequest) (channel : String) (tunnel_id : ℕ) where
    -- The event loop sends one event after the other.
    abbrev pub send_all : List Event → Loop → Loop
    send_all [] l = l
    send_all (ev ∷ evs) l =
        send_all evs (send_local_event p deserialize channel tunnel_id ev true l).0

    send_all-frames :
        (evs : List Event) (l : Loop)
        → concat (send_all evs l).sent ≡ concat l.sent ++ frames l.wctx evs
    unfolding send_local_event
    send_all-frames [] l = sym (append-nil _)
    send_all-frames (ev ∷ evs) l =
        send_all-frames evs _
        ∙ ap (λ x. x ++ frames (encrypt p l.wctx ev []).0 evs)
            (concat-append l.sent (frame p l.wctx ev ∷ [])
              ∙ ap (λ x. concat l.sent ++ x) (append-nil _))
        ∙ append_assoc (concat l.sent) _ _

    -- One end's event loop, with nothing sent so far, sends framed events to an open writing task, and
    -- the bytes of what it sent reach the other end, whose context is in step, cut into reads in any
    -- way. Then the reading task there hands exactly these events, marked as remote and in order, to
    -- its own event loop, one in each round that is left alone, and no byte is left over.
    pub handle_recv-send_all :
        (law : IsCipher p) (evs : List Event) (l : Loop) (t : RecvTask) (rs : List RecvRound)
        → InSync l.wctx t.conn.ctx
        → All IsFramed evs
        → l.sent ≡ []
        → AllData t.conn.reads
        → t.conn.recv_buf ++ incoming t.conn.reads ≡ concat (send_all evs l).sent
        → All IsOpen rs
        → length rs ≡ length evs
        → t.over ≡ false
        → HandedOn t evs (handle_recv p rs t)
    handle_recv-send_all law evs l t rs s f z d e o n run =
        handle_recv-HandedOn law evs rs l.wctx t s f d
          (e ∙ send_all-frames evs l ∙ ap (λ x. concat x ++ frames l.wctx evs) z) o n run
