-- ===== src/Tests/Tasks.antt =====
-- The reading and the writing task, with the toy cipher.
use rsnova.Base.{
  ℕ, ◌≡◌, refl, true, false, Option, none, some, List, [], ◌∷◌, ◌++◌, length, concat, replicate,
  All, arith,
}
use rsnova.Base.Outcome.{ok}
use rsnova.Message.{ConnectRequest}
use rsnova.Event.{Event, IsFramed, new_data_event, new_fin_event}
use rsnova.Event.Fields.{new_events-IsFramed}
use rsnova.Crypto.Primitives.{chacha20_poly1305}
use rsnova.Crypto.{CryptoContext, Key, encrypt, skip32_encrypt_key}
use rsnova.Crypto.RoundTrip.{frame}
use rsnova.Crypto.Reader.{bytes}
use rsnova.Crypto.Reader.Stream.{AllData}
use rsnova.Buffer.Contents.{contents}
use rsnova.Session.{MuxSessionState, new_manager}
use rsnova.Session.Loop.{Loop, send_local_event}
use rsnova.Session.Tasks.{RecvRound, RecvTask, handle_recv, SendRound, SendTask, handle_send}
use rsnova.Session.Tasks.Delivery.{HandedOn, IsOpen, send_all, handle_recv-send_all}
use rsnova.Session.Tasks.Sending.{fresh, handle_send_lem}
use rsnova.Tests.Toy.{toy, toy-IsCipher}

abbrev key : Key
key = record { algorithm = chacha20_poly1305; key_bytes = replicate 32 70; sequence = 5 }

abbrev ctx : CryptoContext
ctx = record { key = replicate 32 70; nonce = 5; sealing_key = some key; opening_key = some key }

abbrev dat : Event
dat = new_data_event 3 (10 ∷ 20 ∷ 30 ∷ []) false

abbrev fin : Event
fin = new_fin_event 3 false

framed : All IsFramed (dat ∷ fin ∷ [])
framed =
    let (f, _, _, d, _, _, _) =
      new_events-IsFramed (λ (bs : List ℕ). bs) [] 3 0 (10 ∷ 20 ∷ 30 ∷ []) false (omega arith)
        (omega arith) (omega arith) in
    (d, (f, tt))

abbrev wire : List ℕ
wire = frame toy ctx dat

abbrev next_wire : List ℕ
next_wire = frame toy (encrypt toy ctx dat []).0 fin

lengths : (length wire ≡ 27) × (length next_wire ≡ 8)
unfolding encrypt skip32_encrypt_key new_data_event new_fin_event
lengths = (refl, refl)

abbrev state : MuxSessionState
state = record {
  last_ping_send_time = 0;
  last_pong_recv_time = 0;
  born_time = 0;
  retired = false;
  io_active_unix_secs = 0;
  closed = false;
}

abbrev loop : Loop
loop = record {
  streams = [];
  state = state;
  wctx = ctx;
  manager = new_manager;
  sent = [];
  offered = [];
}

abbrev task : RecvTask
task = record {
  events = [];
  state = state;
  conn = record { ctx = ctx; recv_buf = []; reads = bytes wire ∷ bytes next_wire ∷ [] };
  over = false;
}

abbrev round : RecvRound
round = record { closed = false; dropped = false; takes = true; now = 50 }

round-IsOpen : IsOpen round
round-IsOpen = record { not_closed = refl; not_dropped = refl; taken = refl }

abbrev parse : List ℕ → Option ConnectRequest
parse bs = none

arrives :
    task.conn.recv_buf ++ (wire ++ (next_wire ++ []))
    ≡ concat (send_all toy parse "" 1 (dat ∷ fin ∷ []) loop).sent
unfolding send_local_event
arrives = refl

all_data : AllData task.conn.reads
all_data = (omega (arith, lengths.0), (omega (arith, lengths.1), tt))

handle_recv-send_all_example :
    HandedOn task (dat ∷ fin ∷ []) (handle_recv toy (round ∷ round ∷ []) task)
handle_recv-send_all_example =
    handle_recv-send_all toy parse "" 1 toy-IsCipher (dat ∷ fin ∷ []) loop task (round ∷ round ∷ [])
      (record { key = refl; nonce = refl; cipher = refl }) framed refl all_data arrives
      (round-IsOpen, (round-IsOpen, tt)) refl refl

abbrev rounds : List SendRound
rounds =
    record { closed = false; queued = 2; places = 3; writes = some 4 }
    ∷ record { closed = false; queued = 0; places = 3; writes = some 1 }
    ∷ []

abbrev queue : List (List ℕ)
queue = (1 ∷ 2 ∷ []) ∷ (3 ∷ 4 ∷ 5 ∷ []) ∷ []

handle_send_lem_example :
    (t : SendTask) × (handle_send rounds (fresh queue) ≡ ok t)
    × (t.out ++ (contents t.vbuf ++ concat t.queue) ≡ concat queue)
handle_send_lem_example = handle_send_lem rounds queue
