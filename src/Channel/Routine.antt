-- ===== src/Channel/Routine.antt =====
-- `routine_channels` of src/channel/routine.rs: one round of its loop. The hour and the time in
-- seconds are arguments, and so is a number below 20, from which the source's increment is 10 less.
pub mod Refill
use rsnova.Base.{
  ℕ, zero, suc, ◌+◌, ◌-◌, ◌%◌, ◌^◌, Bool, true, false, not, Option, none, some, List, [], ◌∷◌, ◌++◌,
  ltb, if◌then◌else◌,
}
use rsnova.Base.Word.{add32}
use rsnova.Config.{ChannelConfig, is_valid_hour}
use rsnova.Session.{ChannelSessionManager, get_channel_session_size}

-- A task that runs `init_rmux_client`.
pub record Client : Type 0 where
  pub config : ChannelConfig
  pub session_id : ℕ

-- `for _ in 0..n`, with the seed of the session ids.
unfoldable pub spawn_loop : ℕ → ChannelConfig → ℕ → List Client × ℕ
spawn_loop zero cfg seed = ([], seed)
spawn_loop (suc n) cfg seed =
    let (clients, seed') = spawn_loop n cfg (add32 seed 1) in
    (record { config = cfg; session_id = seed } ∷ clients, seed')

abbrev pub spawn : ℕ → ChannelConfig → ℕ → List Client × ℕ
spawn count cfg seed =
    if ltb count cfg.conns_per_host
    then spawn_loop (cfg.conns_per_host - count) cfg seed
    else ([], seed)

unfoldable pub check_channel : ChannelSessionManager → ℕ → ChannelConfig → ℕ → List Client × ℕ
unfolding spawn_loop
check_channel m hour cfg seed =
    if not (is_valid_hour cfg hour)
    then ([], seed)
    else spawn (get_channel_session_size m cfg.name) cfg seed

unfoldable pub check_channels : ChannelSessionManager → ℕ → List ChannelConfig → ℕ → List Client × ℕ
unfolding check_channel
check_channels m hour [] seed = ([], seed)
check_channels m hour (cfg ∷ cfgs) seed =
    let (here, seed') = check_channel m hour cfg seed in
    let (later, seed'') = check_channels m hour cfgs seed' in (here ++ later, seed'')

pub record Routine : Type 0 where
  pub session_id_seed : ℕ
  pub ping_time : ℕ

-- The clients that are started, whether `routine_all_sessions` runs, and the state of the loop.
pub record Round : Type 0 where
  pub clients : List Client
  pub pings : Bool
  pub state : Routine

abbrev pub if_any : Option (List ChannelConfig) → List ChannelConfig
if_any none = []
if_any (some cfgs) = cfgs

unfoldable pub round :
    ChannelSessionManager → Option (List ChannelConfig) → ℕ → ℕ → ℕ → Routine → Round
unfolding check_channels
round m cfgs hour now random r =
    let (clients, seed) = check_channels m hour (if_any cfgs) r.session_id_seed in
    let due = ltb (20 + random) ((now + 2 ^ 64 - r.ping_time) % 2 ^ 64) in
    record {
      clients = clients;
      pings = due;
      state = record { session_id_seed = seed; ping_time = if due then now else r.ping_time };
    }
