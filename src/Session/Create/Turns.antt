-- ===== src/Session/Create/Turns.antt =====
-- Which session `create_stream` (src/rmux/session.rs) gives a new stream to.
use Prim.Native.String.{String}
use native.Mathlib.Nat
use rsnova.Base.{
  ℕ, zero, suc, ◌+◌, ◌-◌, ◌%◌, ◌^◌, ◌<◌, ◌≤◌, ◌≡◌, ◌≢◌, refl, sym, ◌∙◌, ap, subst, inl, inr, Option,
  none, some, List, [], ◌∷◌, ◌++◌, length, get_elem?, set, ltb, ltb→lt, ltb→le, Bool-cases, arith,
}
use rsnova.Base.Word.{add32}
use rsnova.Message.{ConnectRequest}
use rsnova.Event.{new_syn_event, set_flag, set_flag_len}
use rsnova.Stream
use text.Mathlib.TextPositions.{eq_refl}
use rsnova.Session.{MuxSession, ChannelMuxSession, ChannelSessionManager, get, put}
use rsnova.Session.Slots.{live, get-put}
use rsnova.Session.Create.{
  Created, next_idx, moved, first_found, create_in, try_slot, create_loop, create_for,
  create_stream,
}

-- A session takes the stream: the event names the stream by the session's seed, the session will
-- get the event, and the slot holds the session with the next seed and the stream pending.
pub record Takes (c c' : ChannelMuxSession) (x : Created) : Type 0 where
  pub slot : ℕ
  pub session : MuxSession
  pub was_there : get_elem? c.sessions slot ≡ some (some session)
  pub sender : x.ev_sender ≡ session.id
  pub stream_id : x.stream.state.stream_id ≡ session.stream_id_seed
  pub event_id : x.ev.header.stream_id ≡ session.stream_id_seed
  pub slots :
      c'.sessions
      ≡ set c.sessions slot (
          some (record session {
            stream_id_seed = add32 session.stream_id_seed 2;
            pendding_streams = session.pendding_streams ++ (x.stream ∷ []);
          }))

-- So many slots from the cursor on, in a circle, hold no session.
abbrev Vacant : ℕ → ChannelMuxSession → Type 0
Vacant rounds c =
    (i : ℕ) (s : MuxSession)
    → i < rounds
    → get_elem? c.sessions ((c.cursor + i) % length c.sessions) ≢ some (some s)

abbrev Searched : ℕ → ChannelMuxSession → ChannelMuxSession × Option Created → Type 0
Searched rounds c (c', none) = Vacant rounds c
Searched rounds c (c', some x) = Takes c c' x

later-Searched :
    (rounds : ℕ) (c : ChannelMuxSession) (r : ChannelMuxSession × Option Created)
    → c.cursor + suc rounds ≤ 2 ^ 32
    → ((s : MuxSession) → get_elem? c.sessions (next_idx c) ≢ some (some s))
    → (0 < rounds → add32 c.cursor 1 ≡ c.cursor + 1)
    → Searched rounds (moved c) r
    → Searched (suc rounds) c r
later-Searched rounds c (c', none) l here step h = go
  where
    go : Vacant (suc rounds) c
    go zero s i =
        subst (λ k. get_elem? c.sessions (k % length c.sessions) ≢ some (some s)) (omega arith)
          (here s)
    go (suc i) s j =
        subst (λ k. get_elem? c.sessions (k % length c.sessions) ≢ some (some s))
          (let e = step (omega arith) in omega (arith, e)) (h i s (omega arith))
later-Searched rounds c (c', some x) l here step h = record {
  slot = h.slot;
  session = h.session;
  was_there = h.was_there;
  sender = h.sender;
  stream_id = h.stream_id;
  event_id = h.event_id;
  slots = h.slots;
}

module _ (serialize : ConnectRequest → List ℕ) (channel : String) (proto addr : List ℕ) where
  slot-Searched :
      (rounds : ℕ) (c : ChannelMuxSession) (o : Option (Option MuxSession))
      (later : ChannelMuxSession × Option Created)
      → c.cursor + suc rounds ≤ 2 ^ 32
      → get_elem? c.sessions (next_idx c) ≡ o
      → Searched rounds (moved c) later
      → Searched (suc rounds) c (first_found (try_slot serialize channel proto addr c o) later)
  unfolding try_slot create_in new_syn_event set_flag set_flag_len Stream.new
  slot-Searched rounds c none later l e h =
      later-Searched rounds c later l (λ s f. cc (sym e ∙ f)) (λ p. omega arith) h
  slot-Searched rounds c (some none) later l e h =
      later-Searched rounds c later l (λ s f. cc (sym e ∙ f)) (λ p. omega arith) h
  slot-Searched rounds c (some (some s)) later l e h = record {
    slot = next_idx c;
    session = s;
    was_there = e;
    sender = refl;
    stream_id = refl;
    event_id = refl;
    slots = refl;
  }

  create_loop-Searched :
      (rounds : ℕ) (c : ChannelMuxSession)
      → c.cursor + rounds ≤ 2 ^ 32
      → Searched rounds c (create_loop serialize rounds channel proto addr c)
  unfolding create_loop
  create_loop-Searched zero c l = λ i s j. absurd (omega (arith, j))
  create_loop-Searched (suc rounds) c l =
      slot-Searched rounds c (get_elem? c.sessions (next_idx c))
        (create_loop serialize rounds channel proto addr (moved c)) l refl
        (create_loop-Searched rounds (moved c) (omega arith))

get_elem-lt {ℓ} :
    {A : Type ℓ} (xs : List A) (k : ℕ) (a : A) → get_elem? xs k ≡ some a → k < length xs
get_elem-lt [] k a e = cc e
get_elem-lt (x ∷ xs) zero a e = omega arith
get_elem-lt (x ∷ xs) (suc k) a e = omega (arith, get_elem-lt xs k a e)

-- A round from the cursor on comes past every slot.
turn_to : (n k cursor : ℕ) → k < n → (i : ℕ) × (i < n) × ((cursor + i) % n ≡ k)
turn_to n k cursor l =
    let r = cursor % n in
    let small : r < n = Nat.mod-lt cursor (omega arith) in
    elim (Bool-cases (ltb k r)) [
      | inl before ↦
          let b = ltb→lt _ _ before in
          let e : r + (k + n - r) ≡ k + n = omega arith in
          (
            k + n - r,
            omega (arith, b),
            sym (Nat.mod-add-mod cursor n (k + n - r))
                ∙ ap (λ x. x % n) e
                ∙ Nat.add-mod_right k n
                ∙ Nat.mod-eq_of_lt l,
          )
      | inr behind ↦
          let b = ltb→le _ _ behind in
          let e : r + (k - r) ≡ k = omega arith in
          (
            k - r,
            omega arith,
            sym (Nat.mod-add-mod cursor n (k - r)) ∙ ap (λ x. x % n) e ∙ Nat.mod-eq_of_lt l,
          )
    ]

live-nil :
    (slots : List (Option MuxSession))
    → ((k : ℕ) (s : MuxSession) → get_elem? slots k ≢ some (some s))
    → live slots ≡ []
live-nil [] h = refl
live-nil (none ∷ slots) h = live-nil slots (λ k. h (suc k))
live-nil (some s ∷ slots) h = absurd (h 0 s refl)

Vacant-live : (c : ChannelMuxSession) → Vacant (length c.sessions) c → live c.sessions ≡ []
Vacant-live c v = live-nil c.sessions λ k s e.
    let (i, l, t) = turn_to (length c.sessions) k c.cursor (get_elem-lt c.sessions k _ e) in
    v i s l (ap (get_elem? c.sessions) t ∙ e)

-- What `create_stream` comes to for the channel `c`.
abbrev pub Placed : String → ChannelMuxSession → ChannelSessionManager × Option Created → Type 0
Placed channel c (m', none) = live c.sessions ≡ []
Placed channel c (m', some x) =
    (c' : ChannelMuxSession) × (get channel m'.channels ≡ some c') × Takes c c' x

placed :
    (channel : String) (m : ChannelSessionManager) (c : ChannelMuxSession)
    (r : ChannelMuxSession × Option Created)
    → Searched (length c.sessions) c r
    → Placed channel c (record m { channels = put channel r.0 m.channels }, r.1)
placed channel m c (c', none) h = Vacant-live c h
placed channel m c (c', some x) h =
    (c', get-put channel channel c' m.channels ∙ rw (eq_refl channel) refl, h)

-- A channel whose cursor does not wrap within one turn over its slots: `create_stream` fails only if
-- the channel has no session at all; else one of its sessions takes the stream, and the event that
-- announces it names it by the seed of that session, which moves on by two.
pub create_stream-Placed :
    (serialize : ConnectRequest → List ℕ) (m : ChannelSessionManager) (channel : String)
    (proto addr : List ℕ) (c : ChannelMuxSession)
    → get channel m.channels ≡ some c
    → c.cursor + length c.sessions ≤ 2 ^ 32
    → Placed channel c (create_stream serialize m channel proto addr)
unfolding create_stream
create_stream-Placed serialize m channel proto addr c e l =
    subst (λ o. Placed channel c (create_for serialize m channel proto addr o)) (sym e)
      (placed channel m c _
        (create_loop-Searched serialize channel proto addr (length c.sessions) c l))
