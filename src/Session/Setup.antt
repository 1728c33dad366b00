-- ===== src/Session/Setup.antt =====
-- The set-up of a session in `process_rmux_session` (src/rmux/session.rs, lines 602 to 681) and its
-- end: what is stored before the tasks run, and what is erased after them.
pub mod Parity
use Prim.Native.String.{String}
use rsnova.Base.{ℕ, Bool, true, false, List, [], if◌then◌else◌}
use rsnova.Crypto.{CryptoContext}
use rsnova.Session.{
  MuxSession, MuxSessionState, ChannelSessionManager, store_mux_session, erase_mux_session,
}
use rsnova.Session.Routine.{string_is_empty}

pub record MuxContext : Type 0 where
  pub channel : String
  pub tunnel_id : ℕ
  pub rctx : CryptoContext
  pub wctx : CryptoContext
  pub max_alive_secs : ℕ
  pub recv_buf : List ℕ

-- A session of no channel is a server's.
abbrev pub seed : String → ℕ
seed channel = if string_is_empty channel then 2 else 1

abbrev pub new_state : ℕ → MuxSessionState
new_state now = record {
  last_ping_send_time = 0;
  last_pong_recv_time = 0;
  born_time = now;
  retired = false;
  io_active_unix_secs = 0;
  closed = false;
}

unfoldable pub mux_session : MuxContext → ℕ → MuxSession
mux_session ctx now = record {
  id = ctx.tunnel_id;
  pendding_streams = [];
  stream_id_seed = seed ctx.channel;
  state = new_state now;
  max_alive_secs = ctx.max_alive_secs;
}

unfoldable pub start_session : ChannelSessionManager → MuxContext → ℕ → ChannelSessionManager
unfolding mux_session
start_session m ctx now = store_mux_session m ctx.channel (mux_session ctx now)

-- After `join3`.
unfoldable pub end_session : ChannelSessionManager → MuxContext → ChannelSessionManager
end_session m ctx = erase_mux_session m ctx.channel ctx.tunnel_id
