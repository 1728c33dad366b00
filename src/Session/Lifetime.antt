-- ===== src/Session/Lifetime.antt =====
-- A session from `store_mux_session` to `erase_mux_session` (src/rmux/session.rs).
use Prim.Native.String.{String}
use mathlib.Core.List.{Perm, Perm-prop, Mem, mem-cons, not-mem-nil, mem-cons_self}
use mathlib.Core.List.Perm
use mathlib.Core.Logic.Or
use rsnova.Base.{
  ℕ, ◌≡◌, ◌≢◌, refl, sym, ◌∙◌, ap, subst, inl, inr, Option, none, some, List, [], ◌∷◌, length, All,
}
use rsnova.Session.{
  MuxSession, ChannelMuxSession, ChannelSessionManager, store_mux_session, erase_mux_session,
  get_channel_session_size, get, live_count,
}
use rsnova.Session.Slots.{
  slots_of, sessions_of, store_mux_session_cases, Erased, erase_mux_session-Erased,
  live_count-length,
}

All-Mem :
    (sid : ℕ) (t : MuxSession) (l : List MuxSession)
    → All (λ s. s.id ≢ sid) l
    → Mem t l
    → t.id ≢ sid
All-Mem sid t [] h m e = not-mem-nil m
All-Mem sid t (s ∷ l) h m e =
    Or.elim (λ (x : ⊥) y. absurd x) (mem-cons.0 m)
      (λ p. h.0 (ap (λ (s : MuxSession). s.id) (sym p) ∙ e)) (λ q. All-Mem sid t l h.1 q e)

erase-store_at :
    (m m2 : ChannelSessionManager) (k : String) (s : MuxSession)
    → Erased (store_mux_session m k s) k s.id m2
    → Perm (sessions_of (store_mux_session m k s) k) (s ∷ sessions_of m k)
    → All (λ t. t.id ≢ s.id) (sessions_of m k)
    → Perm (sessions_of m2 k) (sessions_of m k) × (m2.retired ≡ (store_mux_session m k s).retired)
erase-store_at m m2 k s (inr (none_left, _, _)) st fresh =
    absurd (All-Mem s.id s _ none_left (Perm.subset (Perm.symm st) s mem-cons_self) refl)
erase-store_at m m2 k s (inl (t, i, p, r)) st fresh = (
  Or.elim Perm-prop (mem-cons.0 (Perm.subset st t (Perm.subset (Perm.symm p) t mem-cons_self)))
      (λ e. Perm.cons_inv {a = t} (
        Perm.trans (Perm.symm p) (
          subst (λ x. Perm (sessions_of (store_mux_session m k s) k) (x ∷ sessions_of m k)) (sym e)
            st)))
      (λ q. absurd (All-Mem s.id t _ fresh q i)),
  r,
)

-- A session whose id no other session of the channel has: storing it and erasing it by its id leaves
-- the channel with the sessions that it had, and the retired sessions as they were.
pub erase-store :
    (m : ChannelSessionManager) (k : String) (s : MuxSession)
    → All (λ t. t.id ≢ s.id) (sessions_of m k)
    → let m' = erase_mux_session (store_mux_session m k s) k s.id in
      Perm (sessions_of m' k) (sessions_of m k) × (m'.retired ≡ m.retired)
erase-store m k s fresh =
    let m1 = store_mux_session m k s in
    let (c, r) = store_mux_session_cases m k k s in
    let st : Perm (sessions_of m1 k) (s ∷ sessions_of m k) = elim c [
      | inl (_, p) ↦ p
      | inr (n, _) ↦ absurd (n refl)
    ] in
    let (p, q) =
      erase-store_at m (erase_mux_session m1 k s.id) k s (erase_mux_session-Erased m1 k s.id) st
        fresh in
    (p, q ∙ r)

-- `get_channel_session_size` counts the sessions of the channel.
pub session_size-length :
    (m : ChannelSessionManager) (k : String)
    → get_channel_session_size m k ≡ length (sessions_of m k)
unfolding get_channel_session_size
session_size-length m k = go (get k m.channels)
  where
    go :
        (o : Option ChannelMuxSession)
        → (elim o [ none ↦ 0 | some c ↦ live_count c.sessions ]) ≡ length (slots_of o)
    go none = refl
    go (some c) = live_count-length c.sessions
