-- ===== src/Stream/Flow.antt =====
-- Flow control between the two ends of a stream (src/rmux/stream.rs): the window of the writer, the
-- bytes on their way, what the reader has not reported yet, and the window updates on their way back.
-- A report travels in the length field of an event (`report_update_window` and `process_event` of
-- src/rmux/session.rs).
use rsnova.Base.{
  ℕ, zero, suc, ◌+◌, ◌-◌, ◌^◌, ◌<◌, ◌≤◌, ◌≡◌, ◌≢◌, refl, sym, ap, subst, ◌⊎◌, inl, inr, true, false,
  Option, none, some, List, [], ◌∷◌, ◌++◌, length, arith,
}
use rsnova.Base.Word.{add32, sub32, is_negative}
use rsnova.Event.{Event, len, new_window_update_event, flag_win_update}
use rsnova.Event.Fields.{get_flag_len_lem}
use rsnova.Stream.{
  MuxStream, MuxStreamState, ready, wrote, accepts, Report, sent, lost, refused,
  inc_recv_buf_window, poll_write, update_send_window, initial_window, min_report_window,
}

abbrev pub window : MuxStream → ℕ
window m = m.state.send_buf_window

-- One direction of a stream. `in_flight` counts the bytes that were written and not yet read at the
-- other end; `credits` are the window updates that were sent and not yet handled, as the writer's end
-- reads them; `gone` counts the bytes of the reports that were lost, for which there was no session.
pub record Link : Type 0 where
  pub writer : MuxStream
  pub reader : MuxStreamState
  pub in_flight : ℕ
  pub credits : List ℕ
  pub gone : ℕ

abbrev pub total : List ℕ → ℕ
total [] = 0
total (c ∷ cs) = c + total cs

-- What the writer's end reads off the event that reports a window.
unfoldable pub carried : ℕ → ℕ → ℕ
unfolding new_window_update_event len
carried sid w = len (new_window_update_event sid w false).header

abbrev pub credit_of : ℕ → Report → Option ℕ → List ℕ
credit_of sid sent (some w) = carried sid w ∷ []
credit_of sid answer w = []

abbrev pub reported : Report → Option ℕ → ℕ
reported sent (some w) = w
reported answer w = 0

abbrev pub lost_of : Report → Option ℕ → ℕ
lost_of lost (some w) = w
lost_of answer w = 0

-- The writes that keep a report within the 24 bits of a length: shorter than 2^24 bytes by a window.
abbrev pub max_write : ℕ
max_write = 2 ^ 24 - initial_window

-- What can happen: the writer's poll goes through, the reader hands out `n` bytes and whatever becomes
-- of its report, or the session handles a window update.
pub data Step : Link → Link → Type 0 where
  write :
      {l : Link} (buf : List ℕ) (m : MuxStream) (ev : Option Event)
      → length buf < max_write
      → poll_write l.writer buf accepts ≡ (ready (wrote (length buf)), m, ev)
      → Step l (record l { writer = m; in_flight = l.in_flight + length buf })
  read :
      {l : Link} (n : ℕ) (answer : Report)
      → n ≤ l.in_flight
      → Step l (record l {
        reader = (inc_recv_buf_window l.reader n answer).0;
        in_flight = l.in_flight - n;
        credits =
            l.credits
            ++ credit_of l.reader.stream_id answer (inc_recv_buf_window l.reader n answer).1;
        gone = l.gone + lost_of answer (inc_recv_buf_window l.reader n answer).1;
      })
  credit :
      {l : Link} (c : ℕ) (cs : List ℕ)
      → l.credits ≡ c ∷ cs
      → Step l (record l { writer = (update_send_window l.writer c).0; credits = cs })

pub data Reach (start : Link) : Link → Type 0 where
  here : Reach start start
  next : {l m : Link} → Reach start l → Step l m → Reach start m

-- What was written and has not come back as a handled window update.
abbrev pub outstanding : Link → ℕ
outstanding l = l.in_flight + l.reader.recv_buf_size + total l.credits + l.gone

abbrev Sum : ℕ → ℕ → Type 0
Sum w o = (w + o ≡ initial_window) ⊎ ((w + o ≡ initial_window + 2 ^ 32) × (initial_window < o))

-- The window and what is outstanding make up the initial window; where more is outstanding than
-- that, the window is the (negative) difference. One write can overdraw it by its own length.
pub record Balanced (l : Link) : Type 0 where
  pub sum : Sum (window l.writer) (outstanding l)
  pub bound : outstanding l < initial_window + max_write

total-append : (xs ys : List ℕ) → total (xs ++ ys) ≡ total xs + total ys
total-append [] ys = omega arith
total-append (x ∷ xs) ys = omega (arith, total-append xs ys)

poll_write-wrote :
    (m m' : MuxStream) (buf : List ℕ) (ev : Option Event)
    → poll_write m buf accepts ≡ (ready (wrote (length buf)), m', ev)
    → (window m < 2 ^ 31) × (window m' ≡ sub32 (window m) (length buf))
unfolding poll_write
poll_write-wrote m m' buf ev e = ground arith

update-window : (m : MuxStream) (c : ℕ) → window (update_send_window m c).0 ≡ add32 (window m) c
unfolding update_send_window
update-window m c = ground arith

-- A read adds to the counter of the reader, and a report takes the counter with it.
inc-balance :
    (s : MuxStreamState) (n : ℕ) (a : Report)
    → s.recv_buf_size + n < 2 ^ 31
    → let r = inc_recv_buf_window s n a in
      r.0.recv_buf_size + reported a r.1 + lost_of a r.1 ≡ s.recv_buf_size + n
unfolding inc_recv_buf_window
inc-balance s n sent l = ground arith
inc-balance s n lost l = ground arith
inc-balance s n refused l = ground arith

carried_lem : (sid w : ℕ) → w < 2 ^ 24 → carried sid w ≡ w
unfolding carried len new_window_update_event
carried_lem sid w h = omega (arith, get_flag_len_lem w flag_win_update (omega arith))

total-credit_of :
    (sid : ℕ) (a : Report) (o : Option ℕ)
    → reported a o < 2 ^ 24
    → total (credit_of sid a o) ≡ reported a o
total-credit_of sid sent none h = refl
total-credit_of sid sent (some w) h = omega (arith, carried_lem sid w h)
total-credit_of sid lost o h = refl
total-credit_of sid refused o h = refl

pub Step-Balanced : {l m : Link} → Step l m → Balanced l → Balanced m
Step-Balanced {l} (write buf m ev small e) b =
    let (w, w') = poll_write-wrote l.writer m buf ev e in ground arith
Step-Balanced {l} (read n answer le) b =
    let sid = l.reader.stream_id in
    let r = inc_recv_buf_window l.reader n answer in
    let k = inc-balance l.reader n answer (omega (arith, b.bound)) in
    let c = total-credit_of sid answer r.1 (omega (arith, b.bound, k)) in
    let t = total-append l.credits (credit_of sid answer r.1) in
    let l' : Link = record l {
      reader = r.0;
      in_flight = l.in_flight - n;
      credits = l.credits ++ credit_of sid answer r.1;
      gone = l.gone + lost_of answer r.1;
    } in
    let same : outstanding l' ≡ outstanding l = omega (arith, k, c, t) in
    record {
      sum = subst (λ o. Sum (window l.writer) o) (sym same) b.sum;
      bound = omega (arith, same, b.bound);
    }
Step-Balanced {l} (credit c cs e) b = ground (arith, ap total e, update-window l.writer c)

-- The two ends of a new stream, with nothing under way.
pub record IsNew (l : Link) : Type 0 where
  pub full_window : window l.writer ≡ initial_window
  pub unreported : l.reader.recv_buf_size ≡ 0
  pub no_bytes : l.in_flight ≡ 0
  pub no_credits : l.credits ≡ []
  pub none_gone : l.gone ≡ 0

IsNew-Balanced : {l : Link} → IsNew l → Balanced l
IsNew-Balanced {l} n = record {
  sum = inl (omega (arith, n, ap total n.no_credits));
  bound = omega (arith, n, ap total n.no_credits);
}

-- From a new stream on, by any interleaving of reads, window updates and writes of less than 2^24
-- bytes by a window, whatever becomes of the reports: the writer's window, the bytes on their way,
-- those that the reader has not reported, the window updates on their way and the reports that were
-- lost make up 128 KiB, and less than 2^24 bytes are outstanding. A longer write lets a report pass
-- the 24 bits of its event, which drops the bits above.
pub Reach-Balanced : {l m : Link} → IsNew l → Reach l m → Balanced m
Reach-Balanced n here = IsNew-Balanced n
Reach-Balanced n (next r s) = Step-Balanced s (Reach-Balanced n r)

-- A writer that waits, with no byte and no window update under way and no report lost, waits for a reader that owes it
-- a report of more than the whole window.
pub blocked_owes :
    {l m : Link}
    → IsNew l
    → Reach l m
    → is_negative (window m.writer) ≡ true
    → m.in_flight ≡ 0
    → m.credits ≡ []
    → m.gone ≡ 0
    → initial_window < m.reader.recv_buf_size
blocked_owes {m = m} n r neg f c g =
    let b = Reach-Balanced n r in ground (arith, b.sum, b.bound, ap total c)

-- Every report on the way was sent.
abbrev pub AllSent : {l m : Link} → Reach l m → Type 0
AllSent here = Unit {0}
AllSent (next r (write buf m ev small e)) = AllSent r
AllSent (next r (read n answer le)) = AllSent r × (answer ≡ sent)
AllSent (next r (credit c cs e)) = AllSent r

inc-reported :
    (s : MuxStreamState) (n : ℕ) (a : Report)
    → a ≡ sent
    → s.recv_buf_size + n < 2 ^ 31
    → (inc_recv_buf_window s n a).0.recv_buf_size < min_report_window
unfolding inc_recv_buf_window
inc-reported s n a h l = ground arith

reported_below :
    {l m : Link} (n : IsNew l) (r : Reach l m)
    → AllSent r
    → m.reader.recv_buf_size < min_report_window
reported_below n here h = omega (arith, n.unreported)
reported_below n (next r (write buf m ev small e)) h = reported_below n r h
reported_below n (next {l} r (read k answer le)) (h, s) =
    inc-reported l.reader k answer s (omega (arith, Reach-Balanced n r))
reported_below n (next r (credit c cs e)) h = reported_below n r h

none-gone : {l m : Link} (n : IsNew l) (r : Reach l m) → AllSent r → m.gone ≡ 0
none-gone n here h = n.none_gone
none-gone n (next r (write buf m ev small e)) h = none-gone n r h
none-gone n (next {l} r (read k sent le)) (h, s) = omega (arith, none-gone n r h)
none-gone n (next {l} r (read k lost le)) (h, s) = cc s
none-gone n (next {l} r (read k refused le)) (h, s) = cc s
none-gone n (next r (credit c cs e)) h = none-gone n r h

-- Where every report was sent and every write was shorter than 2^24 bytes by a window, a writer that
-- waits is never left alone: some bytes are on their way to the reader, or a window update on its way
-- back.
pub never_stalls :
    {l m : Link} (n : IsNew l) (r : Reach l m)
    → AllSent r
    → is_negative (window m.writer) ≡ true
    → (0 < m.in_flight) ⊎ (m.credits ≢ [])
never_stalls {m = m} n r h neg = go m.in_flight refl
  where
    go : (f : ℕ) → m.in_flight ≡ f → (0 < m.in_flight) ⊎ (m.credits ≢ [])
    go zero e =
        inr (λ c. omega (arith, blocked_owes n r neg e c (none-gone n r h), reported_below n r h))
    go (suc f) e = inl (omega arith)
