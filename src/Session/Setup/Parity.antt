-- ===== src/Session/Setup/Parity.antt =====
-- The ids of the streams that the two ends of a session open (src/rmux/session.rs): odd for a
-- client's session, even for a server's.
use Prim.Native.String.{String}
use text.Mathlib.Text.{◌==◌ as str_eq}
use text.Mathlib.TextEquality.{eq_iff}
use rsnova.Base.{
  ℕ, zero, suc, ◌%◌, ◌≡◌, refl, sym, subst, inl, inr, true, false, Option, none, some, List, [],
  ◌∷◌, All, length, get_elem?, set, arith, Bool, Bool-cases, if◌then◌else◌,
}
use rsnova.Message.{ConnectRequest}
use rsnova.Event.{new_syn_event, new_data_event, set_flag}
use rsnova.Session.{
  MuxSession, ChannelMuxSession, ChannelSessionManager, get, put, or_new, store_slot,
  store_mux_session,
}
use rsnova.Session.Slots.{live}
use rsnova.Session.Routine.{string_is_empty}
use rsnova.Session.Create.{
  Created, next_idx, moved, first_found, create_in, try_slot, create_loop, create_for,
  create_stream,
}
use rsnova.Session.Setup.{MuxContext, mux_session, start_session}

-- 0 for a server's sessions, which have no channel, and 1 for a client's.
abbrev pub side : String → ℕ
side channel = if string_is_empty channel then 0 else 1

abbrev pub Seeded : String → MuxSession → Type 0
Seeded channel s = s.stream_id_seed % 2 ≡ side channel

abbrev pub SlotsSeeded : String → List (Option MuxSession) → Type 0
SlotsSeeded channel slots = All (Seeded channel) (live slots)

-- The next stream of every session will have an id of its side.
abbrev pub IsSeeded : ChannelSessionManager → Type 0
IsSeeded m = All (λ (channel, c). SlotsSeeded channel c.sessions) m.channels

module _ (channel : String) where
  abbrev P : String × ChannelMuxSession → Type 0
  P (k, c) = SlotsSeeded k c.sessions

  get-Seeded :
      (cs : List (String × ChannelMuxSession))
      → All P cs
      → SlotsSeeded channel (or_new (get channel cs)).sessions
  unfolding get
  get-Seeded [] h = tt
  get-Seeded ((k, c) ∷ cs) h = elim (Bool-cases (str_eq k channel)) [
    | inl e ↦ rw e (subst (λ j. SlotsSeeded j c.sessions) ((eq_iff k channel).0 e) (h.0))
    | inr e ↦ rw e (get-Seeded cs (h.1))
  ]

  put-Seeded :
      (c : ChannelMuxSession) (cs : List (String × ChannelMuxSession))
      → All P cs
      → SlotsSeeded channel c.sessions
      → All P (put channel c cs)
  unfolding put
  put-Seeded c [] h s = (s, tt)
  put-Seeded c ((k, d) ∷ cs) h s = elim (Bool-cases (str_eq k channel)) [
    | inl e ↦ rw e (subst (λ j. SlotsSeeded j c.sessions) (sym ((eq_iff k channel).0 e)) s, h.1)
    | inr e ↦ rw e (h.0, put-Seeded c cs (h.1) s)
  ]

  store_slot-Seeded :
      (s : MuxSession) (slots : List (Option MuxSession))
      → Seeded channel s
      → SlotsSeeded channel slots
      → SlotsSeeded channel (store_slot s slots)
  unfolding store_slot
  store_slot-Seeded s [] a h = (a, tt)
  store_slot-Seeded s (none ∷ slots) a h = (a, h)
  store_slot-Seeded s (some t ∷ slots) a h = (h.0, store_slot-Seeded s slots a (h.1))

  set-Seeded :
      (s : MuxSession) (slots : List (Option MuxSession)) (i : ℕ)
      → Seeded channel s
      → SlotsSeeded channel slots
      → SlotsSeeded channel (set slots i (some s))
  set-Seeded s [] i a h = tt
  set-Seeded s (none ∷ slots) zero a h = (a, h)
  set-Seeded s (some t ∷ slots) zero a h = (a, h.1)
  set-Seeded s (none ∷ slots) (suc i) a h = set-Seeded s slots i a h
  set-Seeded s (some t ∷ slots) (suc i) a h = (h.0, set-Seeded s slots i a (h.1))

  at-Seeded :
      (slots : List (Option MuxSession)) (i : ℕ) (s : MuxSession)
      → get_elem? slots i ≡ some (some s)
      → SlotsSeeded channel slots
      → Seeded channel s
  at-Seeded [] i s e h = cc
  at-Seeded (none ∷ slots) zero s e h = cc
  at-Seeded (some t ∷ slots) zero s e h = let same : t ≡ s = cc in subst (Seeded channel) same (h.0)
  at-Seeded (none ∷ slots) (suc i) s e h = at-Seeded slots i s e h
  at-Seeded (some t ∷ slots) (suc i) s e h = at-Seeded slots i s e (h.1)

  -- What a search for a session leaves, and the stream that it found, if any.
  abbrev Opens : ChannelMuxSession × Option Created → Type 0
  Opens (c, none) = SlotsSeeded channel c.sessions
  Opens (c, some x) = SlotsSeeded channel c.sessions × (x.ev.header.stream_id % 2 ≡ side channel)

  module _ (serialize : ConnectRequest → List ℕ) (proto addr : List ℕ) where
    create_in-Seeded :
        (s : MuxSession)
        → Seeded channel s
        → Seeded channel (create_in serialize channel proto addr s).0
          × ((create_in serialize channel proto addr s).1.ev.header.stream_id % 2 ≡ side channel)
    unfolding create_in new_syn_event new_data_event set_flag
    create_in-Seeded s a = (omega (arith, a), a)

    try_slot-Opens :
        (c : ChannelMuxSession) (o : Option (Option MuxSession))
        → ((s : MuxSession) → o ≡ some (some s) → Seeded channel s)
        → SlotsSeeded channel c.sessions
        → Opens (try_slot serialize channel proto addr c o)
    unfolding try_slot
    try_slot-Opens c none a h = h
    try_slot-Opens c (some none) a h = h
    try_slot-Opens c (some (some s)) a h =
        let (kept, odd) = create_in-Seeded s (a s refl) in
        (
          set-Seeded (create_in serialize channel proto addr s).0 c.sessions (next_idx c) kept h,
          odd,
        )

    first_found-Opens :
        (here later : ChannelMuxSession × Option Created)
        → Opens here
        → Opens later
        → Opens (first_found here later)
    first_found-Opens (c, none) later h k = k
    first_found-Opens (c, some x) later h k = h

    create_loop-Opens :
        (rounds : ℕ) (c : ChannelMuxSession)
        → SlotsSeeded channel c.sessions
        → Opens (create_loop serialize rounds channel proto addr c)
    unfolding create_loop
    create_loop-Opens zero c h = h
    create_loop-Opens (suc rounds) c h =
        first_found-Opens
          (try_slot serialize channel proto addr c (get_elem? c.sessions (next_idx c)))
          (create_loop serialize rounds channel proto addr (moved c))
          (try_slot-Opens c (get_elem? c.sessions (next_idx c))
            (λ s e. at-Seeded c.sessions (next_idx c) s e h) h)
          (create_loop-Opens rounds (moved c) h)

  -- The manager after an attempt to open a stream, and the stream's id.
  abbrev pub Keeps : ChannelSessionManager × Option Created → Type 0
  Keeps (m, none) = IsSeeded m
  Keeps (m, some x) = IsSeeded m × (x.ev.header.stream_id % 2 ≡ side channel)

  put_back :
      (m : ChannelSessionManager) (r : ChannelMuxSession × Option Created)
      → IsSeeded m
      → Opens r
      → Keeps (record m { channels = put channel r.0 m.channels }, r.1)
  put_back m (c, none) h k = put-Seeded c m.channels h k
  put_back m (c, some x) h k = (put-Seeded c m.channels h (k.0), k.1)

  create_for-Keeps :
      (serialize : ConnectRequest → List ℕ) (m : ChannelSessionManager) (proto addr : List ℕ)
      (o : Option ChannelMuxSession)
      → IsSeeded m
      → SlotsSeeded channel (or_new o).sessions
      → Keeps (create_for serialize m channel proto addr o)
  create_for-Keeps serialize m proto addr none h k = h
  create_for-Keeps serialize m proto addr (some c) h k =
      put_back m (create_loop serialize (length c.sessions) channel proto addr c) h
        (create_loop-Opens serialize proto addr (length c.sessions) c k)

-- A manager whose sessions all go on with ids of their side, odd for a client's channel and even for
-- a server's. It stays so when a session is set up, and when a stream is opened, also where the seed
-- wraps at 2 ^ 32; and a stream that is opened has an id of its channel's side. So the streams of the
-- two ends of a session never have an id in common.
pub create_stream-Keeps :
    (serialize : ConnectRequest → List ℕ) (m : ChannelSessionManager) (ctx : MuxContext) (now : ℕ)
    (channel : String) (proto addr : List ℕ)
    → IsSeeded m
    → IsSeeded (start_session m ctx now)
      × Keeps channel (create_stream serialize m channel proto addr)
unfolding start_session store_mux_session create_stream mux_session
create_stream-Keeps serialize m ctx now channel proto addr h = (
  put-Seeded ctx.channel _ m.channels h (
      store_slot-Seeded ctx.channel (mux_session ctx now) _
        (fresh_side (string_is_empty ctx.channel)) (get-Seeded ctx.channel m.channels h)),
  create_for-Keeps channel serialize m proto addr (get channel m.channels) h
      (get-Seeded channel m.channels h),
)
  where
    fresh_side : (b : Bool) → (if b then 2 else 1) % 2 ≡ (if b then 0 else 1)
    fresh_side true = omega arith
    fresh_side false = omega arith
