-- ===== src/Session/Slots.antt =====
-- The slots of a channel (`store_mux_session` and `erase_mux_session` of src/rmux/session.rs) as
-- lists of sessions without order.
use Prim.Native.String.{String}
use text.Mathlib.Text.{◌==◌ as str_eq}
use text.Mathlib.TextEquality.{eq_iff}
use mathlib.Core.List.{Perm}
use mathlib.Core.List.Perm
use rsnova.Base.{
  ℕ, ◌≡◌, ◌≢◌, refl, sym, ap, subst, ◌⊎◌, inl, inr, true, false, Option, none, some, List, [], ◌∷◌,
  length, All, ◌==◌, ==_iff, Bool-cases, arith, if◌then◌else◌,
}
use rsnova.Session.{
  MuxSession, ChannelMuxSession, ChannelSessionManager, get, put, or_new, store_slot,
  store_mux_session, erase_slot, keep_slot, remove_retired, erase_mux_session, erase_in,
  erase_found, live_count,
}

abbrev pub live : List (Option MuxSession) → List MuxSession
live [] = []
live (none ∷ slots) = live slots
live (some s ∷ slots) = s ∷ live slots

-- The sessions of a channel.
abbrev pub slots_of : Option ChannelMuxSession → List MuxSession
slots_of none = []
slots_of (some c) = live c.sessions

abbrev pub sessions_of : ChannelSessionManager → String → List MuxSession
sessions_of m channel = slots_of (get channel m.channels)

pub get-put {ℓ} :
    {V : Type ℓ} (k j : String) (v : V) (m : List (String × V))
    → get j (put k v m) ≡ (if str_eq k j then some v else get j m)
unfolding get put
get-put k j v [] = refl
get-put k j v ((i, w) ∷ m) = ground (arith, eq_iff k j, eq_iff i k, eq_iff i j, get-put k j v m)

pub live_count-length : (slots : List (Option MuxSession)) → live_count slots ≡ length (live slots)
unfolding live_count
live_count-length [] = refl
live_count-length (none ∷ slots) = live_count-length slots
live_count-length (some s ∷ slots) = omega (arith, live_count-length slots)

store_slot-perm :
    (s : MuxSession) (slots : List (Option MuxSession))
    → Perm (live (store_slot s slots)) (s ∷ live slots)
unfolding store_slot
store_slot-perm s [] = Perm.refl _
store_slot-perm s (none ∷ slots) = Perm.refl _
store_slot-perm s (some t ∷ slots) =
    Perm.trans (Perm.cons t (store_slot-perm s slots)) (Perm.swap s t (live slots))

-- What taking a session out of the slots comes to.
abbrev pub Erases : ℕ → List (Option MuxSession) → Option (List (Option MuxSession)) → Type 0
Erases sid slots none = All (λ s. s.id ≢ sid) (live slots)
Erases sid slots (some rest) = (s : MuxSession) × (s.id ≡ sid) × Perm (live slots) (s ∷ live rest)

keep_slot-Erases :
    (sid : ℕ) (s : MuxSession) (slots : List (Option MuxSession))
    (r : Option (List (Option MuxSession)))
    → s.id ≢ sid
    → Erases sid slots r
    → Erases sid (some s ∷ slots) (keep_slot (some s) r)
keep_slot-Erases sid s slots none ne e = (ne, e)
keep_slot-Erases sid s slots (some rest) ne (t, i, p) =
    (t, i, Perm.trans (Perm.cons s p) (Perm.swap t s (live rest)))

keep_none-Erases :
    (sid : ℕ) (slots : List (Option MuxSession)) (r : Option (List (Option MuxSession)))
    → Erases sid slots r
    → Erases sid (none ∷ slots) (keep_slot none r)
keep_none-Erases sid slots none e = e
keep_none-Erases sid slots (some rest) e = e

erase_slot-Erases :
    (sid : ℕ) (slots : List (Option MuxSession)) → Erases sid slots (erase_slot sid slots)
unfolding erase_slot
erase_slot-Erases sid [] = tt
erase_slot-Erases sid (none ∷ slots) = keep_none-Erases sid slots _ (erase_slot-Erases sid slots)
erase_slot-Erases sid (some s ∷ slots) =
    let later = keep_slot-Erases sid s slots (erase_slot sid slots) in
    let ih = erase_slot-Erases sid slots in
    elim (Bool-cases (s.id == sid)) [
      | inl e ↦ rw e (s, (==_iff _ _).0 e, Perm.refl _)
      | inr e ↦ rw e (later (ground arith) ih)
    ]

pub store_slot_lem :
    (s : MuxSession) (o : Option ChannelMuxSession)
    → Perm (live (store_slot s (or_new o).sessions)) (s ∷ slots_of o)
store_slot_lem s none = unfold store_slot in Perm.refl _
store_slot_lem s (some c) = store_slot-perm s c.sessions

-- The two ways a name can compare to another.
pub name_cases : (k j : String) → ((str_eq k j ≡ true) × (k ≡ j)) ⊎ ((str_eq k j ≡ false) × (k ≢ j))
name_cases k j = elim (Bool-cases (str_eq k j)) [
  | inl e ↦ inl (e, (eq_iff k j).0 e)
  | inr e ↦ inr (e, λ p. cc ((eq_iff k j).1 p))
]

-- The sessions of channel `j` after a write to channel `k`.
pub sessions_of-put :
    (k j : String) (c : ChannelMuxSession) (cs : List (String × ChannelMuxSession))
    → ((k ≡ j) × (slots_of (get j (put k c cs)) ≡ live c.sessions))
      ⊎ ((k ≢ j) × (slots_of (get j (put k c cs)) ≡ slots_of (get j cs)))
sessions_of-put k j c cs = elim (name_cases k j) [
  | inl (e, p) ↦ inl (p, rw (get-put k j c cs) (rw e))
  | inr (e, p) ↦ inr (p, rw (get-put k j c cs) (rw e))
]

-- Storing adds the session to its channel, whatever slot it takes, and leaves the other channels
-- and the retired sessions as they are.
pub store_mux_session_cases :
    (m : ChannelSessionManager) (k j : String) (s : MuxSession)
    → (((k ≡ j) × Perm (sessions_of (store_mux_session m k s) j) (s ∷ sessions_of m j))
        ⊎ ((k ≢ j) × (sessions_of (store_mux_session m k s) j ≡ sessions_of m j)))
      × ((store_mux_session m k s).retired ≡ m.retired)
unfolding store_mux_session
store_mux_session_cases m k j s =
    let o = get k m.channels in
    let c : ChannelMuxSession = record (or_new o) { sessions = store_slot s (or_new o).sessions } in
    (
      elim (sessions_of-put k j c m.channels) [
        | inl (p, e) ↦ inl (
          p,
          rw e (
              subst (λ n. Perm (live c.sessions) (s ∷ slots_of (get n m.channels))) p
                (store_slot_lem s o)),
        )
        | inr (p, e) ↦ inr (p, e)
      ],
      refl,
    )

-- What `erase_mux_session` does to the manager.
abbrev pub Erased : ChannelSessionManager → String → ℕ → ChannelSessionManager → Type 0
Erased m k sid m' =
    ((s : MuxSession) × (s.id ≡ sid)
      × Perm (sessions_of m k) (s ∷ sessions_of m' k)
      × (m'.retired ≡ m.retired))
    ⊎ (All (λ s. s.id ≢ sid) (sessions_of m k)
        × (sessions_of m' k ≡ sessions_of m k)
        × (m'.retired ≡ remove_retired sid m.retired))

erase_found-Erased :
    (m : ChannelSessionManager) (k : String) (sid : ℕ) (c : ChannelMuxSession)
    (r : Option (List (Option MuxSession)))
    → get k m.channels ≡ some c
    → Erases sid c.sessions r
    → Erased m k sid (erase_found m k sid c r)
unfolding erase_found
erase_found-Erased m k sid c none g e =
    inr (subst (All (λ s. s.id ≢ sid)) (sym (ap slots_of g)) e, refl, refl)
erase_found-Erased m k sid c (some rest) g (s, i, p) =
    let e : sessions_of (record m { channels = put k (record c { sessions = rest }) m.channels }) k
        ≡ live rest =
      elim (sessions_of-put k k (record c { sessions = rest }) m.channels) [
        | inl (_, q) ↦ q
        | inr (q, _) ↦ absurd (q refl)
      ] in
    inl (s, i, rw (e, g) p, refl)

-- Erasing takes one session of that id out of the channel; where the channel has none, it leaves the
-- channel as it is and takes the first one of that id out of the retired sessions.
pub erase_mux_session-Erased :
    (m : ChannelSessionManager) (k : String) (sid : ℕ) → Erased m k sid (erase_mux_session m k sid)
unfolding erase_mux_session
erase_mux_session-Erased m k sid = go (get k m.channels) refl
  where
    go : (o : Option ChannelMuxSession) → get k m.channels ≡ o → Erased m k sid (erase_in m k sid o)
    go none g = inr (subst (All (λ s. s.id ≢ sid)) (sym (ap slots_of g)) tt, refl, refl)
    go (some c) g = erase_found-Erased m k sid c _ g (erase_slot-Erases sid c.sessions)
