-- ===== src/Channel/Routine/Refill.antt =====
-- How many clients a round of `routine_channels` (src/channel/routine.rs) starts, and their ids.
use rsnova.Base.{
  ℕ, zero, suc, ◌+◌, ◌-◌, ◌≡◌, refl, sym, ◌∙◌, ap, ap₂, inl, inr, Option, List, [], ◌∷◌, ◌++◌, map,
  length, replicate, ltb, ltb→le, arith, Bool-cases, if◌then◌else◌, length-append,
}
use mathlib.Core.List.{map-append}
use rsnova.Base.Word.{add32}
use rsnova.Config.{ChannelConfig, is_valid_hour}
use rsnova.Session.{ChannelSessionManager, get_channel_session_size}
use rsnova.Channel.Routine.{
  Client, spawn_loop, check_channel, check_channels, Routine, if_any, round,
}

-- `n` numbers from a seed on, which wrap at 2 ^ 32.
abbrev pub ids_from : ℕ → ℕ → List ℕ
ids_from seed zero = []
ids_from seed (suc n) = seed ∷ ids_from (add32 seed 1) n

abbrev pub configs : List Client → List ChannelConfig
configs cs = map (λ (c : Client). c.config) cs

abbrev pub ids : List Client → List ℕ
ids cs = map (λ (c : Client). c.session_id) cs

module _ (m : ChannelSessionManager) (hour : ℕ) where
  -- What a channel lacks, in its hours.
  abbrev pub lacking : ChannelConfig → ℕ
  lacking cfg =
      if is_valid_hour cfg hour then cfg.conns_per_host - get_channel_session_size m cfg.name else 0

  abbrev pub wanted : List ChannelConfig → List ChannelConfig
  wanted [] = []
  wanted (cfg ∷ cfgs) = replicate (lacking cfg) cfg ++ wanted cfgs

abbrev step_on : ℕ → ℕ → ℕ
step_on seed zero = seed
step_on seed (suc n) = step_on (add32 seed 1) n

-- Clients for just these configurations, with ids from the seed on, and the seed behind them.
abbrev Starts : List ChannelConfig → ℕ → List Client × ℕ → Type 0
Starts cfgs seed (clients, seed') =
    (configs clients ≡ cfgs)
    × (ids clients ≡ ids_from seed (length cfgs))
    × (seed' ≡ step_on seed (length cfgs))

ids_from-add :
    (a b seed : ℕ) → ids_from seed (a + b) ≡ ids_from seed a ++ ids_from (step_on seed a) b
ids_from-add zero b seed = ap (ids_from seed) (omega arith)
ids_from-add (suc a) b seed =
    let e : suc a + b ≡ suc (a + b) = omega arith in
    ap (ids_from seed) e ∙ ap (λ t. seed ∷ t) (ids_from-add a b (add32 seed 1))

step_on-add : (a b seed : ℕ) → step_on seed (a + b) ≡ step_on (step_on seed a) b
step_on-add zero b seed = let e : 0 + b ≡ b = omega arith in ap (step_on seed) e
step_on-add (suc a) b seed =
    let e : suc a + b ≡ suc (a + b) = omega arith in
    ap (step_on seed) e ∙ step_on-add a b (add32 seed 1)

Starts-append :
    (xs ys : List ChannelConfig) (seed : ℕ) (here later : List Client × ℕ)
    → Starts xs seed here
    → Starts ys here.1 later
    → Starts (xs ++ ys) seed (here.0 ++ later.0, later.1)
Starts-append xs ys seed here later (c, i, s) (d, j, t) =
    let l = length-append xs ys in
    (
      map-append (λ (c : Client). c.config) (here.0) (later.0) ∙ ap₂ (λ a b. a ++ b) c d,
      map-append (λ (c : Client). c.session_id) (here.0) (later.0)
          ∙ ap₂ (λ a b. a ++ b) i (j ∙ ap (λ k. ids_from k (length ys)) s)
          ∙ sym (ids_from-add (length xs) (length ys) seed)
          ∙ ap (ids_from seed) (sym l),
      t
          ∙ ap (λ k. step_on k (length ys)) s
          ∙ sym (step_on-add (length xs) (length ys) seed)
          ∙ ap (step_on seed) (sym l),
    )

spawn_loop-Starts :
    (n : ℕ) (cfg : ChannelConfig) (seed : ℕ) → Starts (replicate n cfg) seed (spawn_loop n cfg seed)
unfolding spawn_loop
spawn_loop-Starts zero cfg seed = (refl, refl, refl)
spawn_loop-Starts (suc n) cfg seed =
    let (c, i, s) = spawn_loop-Starts n cfg (add32 seed 1) in
    (ap (λ t. cfg ∷ t) c, ap (λ t. seed ∷ t) i, s)

check_channel-Starts :
    (m : ChannelSessionManager) (hour : ℕ) (cfg : ChannelConfig) (seed : ℕ)
    → Starts (replicate (lacking m hour cfg) cfg) seed (check_channel m hour cfg seed)
unfolding check_channel
check_channel-Starts m hour cfg seed =
    let count = get_channel_session_size m cfg.name in
    elim (Bool-cases (is_valid_hour cfg hour)) [
      | inr out ↦ rw out (refl, refl, refl)
      | inl hours ↦ elim (Bool-cases (ltb count cfg.conns_per_host)) [
        | inl short ↦ rw (hours, short) (spawn_loop-Starts (cfg.conns_per_host - count) cfg seed)
        | inr full ↦
            let none_lack : cfg.conns_per_host - count ≡ 0 = omega (arith, ltb→le _ _ full) in
            rw (hours, full, none_lack) (refl, refl, refl)
      ]
    ]

check_channels-Starts :
    (m : ChannelSessionManager) (hour : ℕ) (cfgs : List ChannelConfig) (seed : ℕ)
    → Starts (wanted m hour cfgs) seed (check_channels m hour cfgs seed)
unfolding check_channels
check_channels-Starts m hour [] seed = (refl, refl, refl)
check_channels-Starts m hour (cfg ∷ cfgs) seed =
    Starts-append (replicate (lacking m hour cfg) cfg) (wanted m hour cfgs) seed
      (check_channel m hour cfg seed) (check_channels m hour cfgs (check_channel m hour cfg seed).1)
      (check_channel-Starts m hour cfg seed)
      (check_channels-Starts m hour cfgs (check_channel m hour cfg seed).1)

-- A round starts, channel by channel, one client for each session that the channel lacks: as many as
-- `conns_per_host` is above the number of its sessions, if the hour is one of its own, and none
-- else. The clients' session ids are consecutive from the seed on, modulo 2 ^ 32, over all channels.
pub round-refills :
    (m : ChannelSessionManager) (cfgs : Option (List ChannelConfig)) (hour now random : ℕ)
    (r : Routine)
    → let n = round m cfgs hour now random r in
      (configs n.clients ≡ wanted m hour (if_any cfgs))
      × (ids n.clients ≡ ids_from r.session_id_seed (length (wanted m hour (if_any cfgs))))
unfolding round
round-refills m cfgs hour now random r =
    let (c, i, _) = check_channels-Starts m hour (if_any cfgs) r.session_id_seed in (c, i)
