-- ===== src/Tests/Streams.antt =====
-- Streams: reading, and flow control.
use rsnova.Base.{
  ℕ, ◌+◌, ◌-◌, ◌<◌, ◌≡◌, ◌≢◌, refl, ◌⊎◌, true, false, Option, List, [], ◌∷◌, ◌^◌, length, replicate,
  length-replicate, arith,
}
use rsnova.Base.Outcome.{ok, panic}
use rsnova.Base.Word.{is_negative, sub32}
use rsnova.Stream.{
  ready, wrote, got, MuxStream, MuxStreamState, MuxStreamReader, sent, poll_read, initial_window,
  poll_write, accepts,
}
use rsnova.Stream.Reading.{Fits, Serves, poll_read-Serves}
use rsnova.Stream.Overlong.{poll_read_panics}
use rsnova.Stream.Flow.{
  Link, Reach, here, next, write, IsNew, Balanced, Reach-Balanced, never_stalls, window,
}

abbrev state : MuxStreamState
state = record {
  channel = "direct";
  session_id = 1;
  stream_id = 3;
  send_buf_window = initial_window;
  recv_buf_size = 0;
  closed = false;
  total_recv_bytes = 0;
  total_send_bytes = 0;
}

abbrev reader : MuxStreamReader
reader = record {
  rx = record { queue = (1 ∷ 2 ∷ 3 ∷ []) ∷ (4 ∷ []) ∷ []; rx_closed = false; has_sender = true };
  recv_buf = [];
  state = state;
}

fits : Fits 2 reader
fits = record { left_over = omega arith; vectors = (omega arith, (omega arith, tt)) }

poll_read-Serves_example : Serves 2 reader (poll_read reader 2 sent)
poll_read-Serves_example = poll_read-Serves 2 reader sent (omega arith) refl fits

poll_read_panics_example :
    (r' : MuxStreamReader) × (w : Option ℕ) × (poll_read reader 1 sent
      ≡ ok (ready (got (1 ∷ [])), r', w))
    × (poll_read r' 1 sent ≡ panic)
poll_read_panics_example =
    poll_read_panics 1 reader sent sent (1 ∷ 2 ∷ 3 ∷ []) ((4 ∷ []) ∷ []) (omega arith) refl refl
      refl (omega arith)

abbrev stream : MuxStream
stream = record {
  target = record { proto = []; addr = [] };
  data_tx = false;
  dat = record { queue = []; rx_closed = false; has_sender = true };
  state = state;
  io_state = record { has_waker = false; has_data_tx = true; has_data_rx = true };
}

-- A writer that has overdrawn its window by one byte.
unfoldable big : List ℕ
big = replicate 131073 0

abbrev link : Link
link = record { writer = stream; reader = state; in_flight = 0; credits = []; gone = 0 }

link-IsNew : IsNew link
link-IsNew = record {
  full_window = refl;
  unreported = refl;
  no_bytes = refl;
  no_credits = refl;
  none_gone = refl;
}

abbrev after : List ℕ → MuxStream
after buf = (poll_write stream buf accepts).1

abbrev written : List ℕ → Link
written buf = record {
  writer = after buf;
  reader = state;
  in_flight = 0 + length buf;
  credits = [];
  gone = 0;
}

wrote_any :
    (buf : List ℕ)
    → poll_write stream buf accepts
      ≡ (ready (wrote (length buf)), after buf, (poll_write stream buf accepts).2)
unfolding poll_write
wrote_any buf = refl

abbrev write_any : (buf : List ℕ) → length buf < 2 ^ 24 - initial_window → Reach link (written buf)
write_any buf small =
    next here (write buf (after buf) (poll_write stream buf accepts).2 small (wrote_any buf))

length-big : length big ≡ 131073
unfolding big
length-big = length-replicate {A = ℕ} 131073 0

small-big : length big < 2 ^ 24 - initial_window
small-big = omega (arith, length-big)

abbrev overdrawn : Reach link (written big)
overdrawn = write_any big small-big

window-after : (buf : List ℕ) → window (after buf) ≡ sub32 initial_window (length buf)
unfolding poll_write
window-after buf = refl

waits_writer : is_negative (window (after big)) ≡ true
waits_writer = ground (arith, window-after big, length-big)

Reach-Balanced_example : Balanced (written big)
Reach-Balanced_example = Reach-Balanced link-IsNew overdrawn

never_stalls_example : (0 < (written big).in_flight) ⊎ ((written big).credits ≢ [])
never_stalls_example = never_stalls link-IsNew overdrawn tt waits_writer
