-- ===== src/Channel/Rmux.antt =====
-- src/channel/rmux.rs: `init_client`, up to the call of `process_rmux_session`, whose arguments are
-- the result.
use Prim.Native.String.{String}
use rsnova.Base.{ℕ, ◌*◌, Bool, not, List, []}
use rsnova.Base.Outcome.{Outcome, ok, connection_refused, ◌>>=◌, ◌>>◌, fail_if, or_panic}
use rsnova.Event.{Event, new_auth_event}
use rsnova.Message.{AuthRequest, AuthResponse, Codec}
use rsnova.Config.{CipherConfig, ChannelConfig}
use rsnova.Crypto.Primitives.{Cipher}
use rsnova.Crypto.{new}
use rsnova.Session.Setup.{MuxContext}
use rsnova.Crypto.Reader.{Connection, Read, read_encrypt_event, write_encrypt_event}
use rsnova.Tunnel.Rmux.{SessionStart, opening}
use rsnova.Tunnel.Ws.{first_event_or_why}

module _ (p : Cipher) (requests : Codec AuthRequest) (responses : Codec AuthResponse) where
  -- The event that a client begins with.
  unfoldable pub auth_event : CipherConfig → Event
  auth_event cipher = new_auth_event requests.serialize 0 (record { method = cipher.method })

  -- From the answer on; an answer that does not decode is a panic.
  unfoldable pub take_answer : CipherConfig → List ℕ → Event × Connection → Outcome SessionStart
  take_answer cipher sent (recv_ev, c) = do
    answer ← or_panic (responses.deserialize recv_ev.body)
    fail_if (not answer.success) connection_refused
    r ← new p cipher.method cipher.key answer.rand
    w ← new p cipher.method cipher.key answer.rand
    ok (record { rctx = r; wctx = w; recv_buf = c.recv_buf; reads = c.reads; sent = sent })

  unfoldable pub init_client : CipherConfig → Bool → String → List Read → Outcome SessionStart
  unfolding take_answer auth_event
  init_client cipher writes os reads = do
    rctx ← new p cipher.method cipher.key 0
    wctx ← new p cipher.method cipher.key 0
    (wctx', sent) ← write_encrypt_event p wctx (auth_event cipher) writes []
    first ← first_event_or_why os (read_encrypt_event p (opening rctx reads))
    take_answer cipher sent first

-- `MuxContext::new(..)`
unfoldable pub client_context : ChannelConfig → ℕ → SessionStart → MuxContext
client_context config session_id s = record {
  channel = config.name;
  tunnel_id = session_id;
  rctx = s.rctx;
  wctx = s.wctx;
  max_alive_secs = config.max_alive_mins * 60;
  recv_buf = s.recv_buf;
}
