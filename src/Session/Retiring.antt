-- ===== src/Session/Retiring.antt =====
-- What `routine_all_sessions` (src/rmux/session.rs) keeps, retires and sends.
use Prim.Native.String.{String}
use mathlib.Core.List.{Perm, perm_middle}
use mathlib.Core.List.Perm
use rsnova.Base.{
  ℕ, ◌≡◌, refl, sym, ◌∙◌, ap, subst, ◌⊎◌, inl, inr, Bool, true, false, ◌||◌, Option, none, some,
  List, [], ◌∷◌, ◌++◌, map, All, Bool-cases, arith, append_assoc, append-nil,
}
use rsnova.Session.{MuxSession, ChannelMuxSession, ChannelSessionManager, get}
use rsnova.Session.Slots.{live, slots_of, sessions_of, name_cases}
use rsnova.Session.Routine.{
  Pass, routine_session, routine_slots, routine_channels, routine_all_sessions, is_lost, is_overdue,
  retire, join,
}

abbrev pub ids : List MuxSession → List ℕ
ids = map (λ s. s.id)

-- Why a session leaves its channel.
abbrev pub leaves : String → ℕ → (ℕ → ℕ) → MuxSession → Bool
leaves channel now random s = is_lost s || is_overdue channel now random s

-- A pass over the slots of one channel: the sessions that stay are not lost and not overdue; those
-- that leave are marked as retired; between them they are the sessions that were there.
pub record Sorts (channel : String) (now : ℕ) (random : ℕ → ℕ) (slots : List (Option MuxSession))
    (p : Pass) : Type 0 where
  pub kept : All (λ s. leaves channel now random s ≡ false) (live p.slots)
  pub flagged : All (λ s. s.state.retired ≡ true) p.retired
  pub together : Perm (ids (live p.slots) ++ ids p.retired) (ids (live slots))

All-append {ℓ κ} :
    {A : Type ℓ} (P : A → Type κ) (xs ys : List A) → All P xs → All P ys → All P (xs ++ ys)
All-append P [] ys a b = b
All-append P (x ∷ xs) ys a b = (a.0, All-append P xs ys a.1 b)

live-append : (xs ys : List (Option MuxSession)) → live (xs ++ ys) ≡ live xs ++ live ys
live-append [] ys = refl
live-append (none ∷ xs) ys = live-append xs ys
live-append (some s ∷ xs) ys = ap (◌∷◌ s) (live-append xs ys)

-- One session: it stays in its slot, or the slot is free and it is retired.
session_cases :
    (channel : String) (now : ℕ) (random : ℕ → ℕ) (s : MuxSession)
    → let p = routine_session channel now random s in
      ((leaves channel now random s ≡ false) × (p.slots ≡ some s ∷ []) × (p.retired ≡ []))
      ⊎ ((leaves channel now random s ≡ true) × (p.slots ≡ none ∷ []) × (p.retired ≡ retire s ∷ []))
unfolding routine_session
session_cases channel now random s = elim (Bool-cases (is_lost s)) [
  | inl e ↦ inr (ground (arith, e), rw e refl, rw e refl)
  | inr e ↦ elim (Bool-cases (is_overdue channel now random s)) [
    | inl o ↦ inr (ground (arith, e, o), rw e (rw o refl), rw e (rw o refl))
    | inr o ↦ inl (ground (arith, e, o), rw e (rw o refl), rw e (rw o refl))
  ]
]

-- One session in front of a pass that sorts the others.
join-Sorts :
    (channel : String) (now : ℕ) (random : ℕ → ℕ) (s : MuxSession)
    (slots : List (Option MuxSession)) (here rest : Pass)
    → ((leaves channel now random s ≡ false) × (here.slots ≡ some s ∷ []) × (here.retired ≡ []))
      ⊎ ((leaves channel now random s ≡ true)
          × (here.slots ≡ none ∷ [])
          × (here.retired ≡ retire s ∷ []))
    → Sorts channel now random slots rest
    → Sorts channel now random (some s ∷ slots) (join here rest)
join-Sorts channel now random s slots here rest (inl (l, e, r)) h = record {
  kept = rw e (l, h.kept);
  flagged = rw r h.flagged;
  together = rw e (rw r (Perm.cons s.id h.together));
}
join-Sorts channel now random s slots here rest (inr (l, e, r)) h = record {
  kept = rw e h.kept;
  flagged = rw r (refl, h.flagged);
  together = rw e (rw r (Perm.trans (perm_middle _ _) (Perm.cons s.id h.together)));
}

pub routine_slots-Sorts :
    (channel : String) (now : ℕ) (random : ℕ → ℕ) (slots : List (Option MuxSession))
    → Sorts channel now random slots (routine_slots channel now random slots)
unfolding routine_slots
routine_slots-Sorts channel now random [] = record {
  kept = tt;
  flagged = tt;
  together = Perm.refl _;
}
routine_slots-Sorts channel now random (none ∷ slots) =
    let h = routine_slots-Sorts channel now random slots in
    record { kept = h.kept; flagged = h.flagged; together = h.together }
routine_slots-Sorts channel now random (some s ∷ slots) =
    join-Sorts channel now random s slots (routine_session channel now random s)
      (routine_slots channel now random slots) (session_cases channel now random s)
      (routine_slots-Sorts channel now random slots)

abbrev pub slots_or_none : Option ChannelMuxSession → List (Option MuxSession)
slots_or_none none = []
slots_or_none (some c) = c.sessions

-- The sessions of all channels.
abbrev pub everyone : List (String × ChannelMuxSession) → List MuxSession
everyone [] = []
everyone ((name, c) ∷ cs) = live c.sessions ++ everyone cs

get-routine_channels :
    (now : ℕ) (random : ℕ → ℕ) (k : String) (cs : List (String × ChannelMuxSession))
    → slots_of (get k (routine_channels now random cs).channels)
      ≡ live (routine_slots k now random (slots_or_none (get k cs))).slots
unfolding get routine_channels
get-routine_channels now random k [] = unfold routine_slots in refl
get-routine_channels now random k ((name, c) ∷ cs) = elim (name_cases name k) [
  | inl (e, p) ↦ rw e (ap (λ n. live (routine_slots n now random c.sessions).slots) p)
  | inr (e, p) ↦ rw e (get-routine_channels now random k cs)
]

append_comm {ℓ} : {A : Type ℓ} (xs ys : List A) → Perm (xs ++ ys) (ys ++ xs)
append_comm [] ys = subst (Perm ys) (sym (append-nil ys)) (Perm.refl ys)
append_comm (x ∷ xs) ys =
    Perm.trans (Perm.cons x (append_comm xs ys)) (Perm.symm (perm_middle ys xs))

regroup {ℓ} : {A : Type ℓ} (a b c d : List A) → (a ++ b) ++ (c ++ d) ≡ a ++ ((b ++ c) ++ d)
regroup a b c d = append_assoc a b (c ++ d) ∙ ap (λ l. a ++ l) (sym (append_assoc b c d))

-- Four lists, the middle two changing places.
interchange {ℓ} :
    {A : Type ℓ} (a b c d : List A) → Perm ((a ++ b) ++ (c ++ d)) ((a ++ c) ++ (b ++ d))
interchange a b c d =
    subst (λ l. Perm l ((a ++ c) ++ (b ++ d))) (sym (regroup a b c d))
      (subst (Perm (a ++ ((b ++ c) ++ d))) (sym (regroup a c b d))
        (Perm.append_left a (Perm.append_right d (append_comm b c))))

ids-append : (xs ys : List MuxSession) → ids (xs ++ ys) ≡ ids xs ++ ids ys
ids-append [] ys = refl
ids-append (s ∷ xs) ys = ap (◌∷◌ s.id) (ids-append xs ys)

together_all :
    (now : ℕ) (random : ℕ → ℕ) (cs : List (String × ChannelMuxSession))
    → let p = routine_channels now random cs in
      Perm (ids (everyone p.channels) ++ ids p.retired) (ids (everyone cs))
unfolding routine_channels
together_all now random [] = Perm.refl _
together_all now random ((name, c) ∷ cs) =
    let here = routine_slots name now random c.sessions in
    let rest = routine_channels now random cs in
    let h = routine_slots-Sorts name now random c.sessions in
    rw (ids-append (live here.slots) (everyone rest.channels)) (
      rw (ids-append here.retired rest.retired) (
        rw (ids-append (live c.sessions) (everyone cs)) (
          Perm.trans
            (interchange (ids (live here.slots)) (ids (everyone rest.channels)) (ids here.retired)
              (ids rest.retired))
            (Perm.append h.together (together_all now random cs)))))

retired-All :
    (now : ℕ) (random : ℕ → ℕ) (cs : List (String × ChannelMuxSession))
    → All (λ s. s.state.retired ≡ true) (routine_channels now random cs).retired
unfolding routine_channels
retired-All now random [] = tt
retired-All now random ((name, c) ∷ cs) =
    All-append (λ s. s.state.retired ≡ true) _ _
      (routine_slots-Sorts name now random c.sessions).flagged (retired-All now random cs)

-- After a pass at the time `now`: no session of any channel is lost or overdue; the retired sessions
-- are those that were retired before, followed by sessions that are marked as retired; and the ids
-- of the sessions of all channels and of the retired ones are those from before the pass, in some
-- order.
pub routine_all_sessions_lem :
    (now : ℕ) (random : ℕ → ℕ) (m : ChannelSessionManager)
    → let m' = (routine_all_sessions now random m).0 in
      ((k : String) → All (λ s. leaves k now random s ≡ false) (sessions_of m' k))
      × ((fresh : List MuxSession) × (m'.retired ≡ m.retired ++ fresh)
          × All (λ s. s.state.retired ≡ true) fresh)
      × Perm
          (ids (everyone m'.channels) ++ ids m'.retired)
          (ids (everyone m.channels) ++ ids m.retired)
unfolding routine_all_sessions
routine_all_sessions_lem now random m =
    let p = routine_channels now random m.channels in
    (
      λ k.
          subst (All (λ s. leaves k now random s ≡ false))
            (sym (get-routine_channels now random k m.channels))
            (routine_slots-Sorts k now random _).kept,
      (p.retired, refl, retired-All now random m.channels),
      rw (ids-append m.retired p.retired) (
          Perm.trans
            (Perm.append_left (ids (everyone p.channels))
              (append_comm (ids m.retired) (ids p.retired)))
            (subst (λ l. Perm l (ids (everyone m.channels) ++ ids m.retired))
              (append_assoc (ids (everyone p.channels)) (ids p.retired) (ids m.retired))
              (Perm.append_right (ids m.retired) (together_all now random m.channels)))),
    )
