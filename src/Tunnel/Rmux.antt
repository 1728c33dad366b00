-- ===== src/Tunnel/Rmux.antt =====
-- src/tunnel/rmux.rs: the server's side of the authentication, up to the call of
-- `handle_rmux_session`, whose arguments are the result. `rand::random` is an argument, and so is
-- whether `write_all` succeeds.
use Prim.Native.String.{String}
use rsnova.Base.{ℕ, Bool, true, not, Option, none, some, List, []}
use rsnova.Base.Outcome.{
  Outcome, ok, err, panic, stuck, other, failed, ◌>>=◌, ◌>>◌, fail_if, or_panic,
}
use rsnova.Event.{Event, new_auth_event}
use rsnova.Message.{AuthRequest, AuthResponse, Codec}
use rsnova.Config.{CipherConfig}
use rsnova.Crypto.Primitives.{Cipher}
use rsnova.Crypto.{CryptoContext, new, encrypt}
use rsnova.Session.Setup.{MuxContext}
use rsnova.Crypto.Reader.{Connection, Read, read_encrypt_event}

-- What a session starts with, and what has been sent before it.
pub record SessionStart : Type 0 where
  pub rctx : CryptoContext
  pub wctx : CryptoContext
  pub recv_buf : List ℕ
  pub reads : List Read
  pub sent : List ℕ

-- A connection before its first event.
abbrev pub opening : CryptoContext → List Read → Connection
opening ctx reads = record { ctx = ctx; recv_buf = []; reads = reads }

-- `can NOT read first auth envent.`, whether the read failed or the stream ended.
abbrev pub first_event : Outcome (Option (Event × Connection)) → Outcome (Event × Connection)
first_event (ok (some x)) = ok x
first_event (ok none) = err (other "can NOT read first auth envent.")
first_event (err e) = err (other "can NOT read first auth envent.")
first_event panic = panic
first_event stuck = stuck

abbrev pub or_error {ℓ} : {A : Type ℓ} → String → Option A → Outcome A
or_error why none = err (other why)
or_error why (some a) = ok a

abbrev pub welcome : ℕ → AuthRequest → AuthResponse
welcome rand auth_req = record { success = true; err = ""; rand = rand; method = auth_req.method }

module _ (p : Cipher) (requests : Codec AuthRequest) (responses : Codec AuthResponse) where
  -- From the first event on.
  unfoldable pub answer_auth :
      CipherConfig → ℕ → Bool → CryptoContext → Event × Connection → Outcome SessionStart
  answer_auth cfg rand writes wctx (recv_ev, c) = do
    auth_req ← or_error "Failed to parse AuthRequest" (requests.deserialize recv_ev.body)
    let auth_res = welcome rand auth_req
    let res = new_auth_event responses.serialize 0 auth_res
    let buf = (encrypt p wctx res []).1
    fail_if (not writes) failed
    r ← new p auth_res.method cfg.key auth_res.rand
    w ← new p auth_res.method cfg.key auth_res.rand
    ok (record { rctx = r; wctx = w; recv_buf = c.recv_buf; reads = c.reads; sent = buf })

  unfoldable pub handle_rmux : Option CipherConfig → ℕ → Bool → List Read → Outcome SessionStart
  unfolding answer_auth
  handle_rmux cipher rand writes reads = do
    cfg ← or_panic cipher
    rctx ← new p cfg.method cfg.key 0
    wctx ← new p cfg.method cfg.key 0
    first ← first_event (read_encrypt_event p (opening rctx reads))
    answer_auth cfg rand writes wctx first

-- `handle_rmux_session("", tunnel_id, inbound, rctx, wctx, &mut recv_buf, 0)`
unfoldable pub handle_rmux_session : ℕ → SessionStart → MuxContext
handle_rmux_session tunnel_id s = record {
  channel = "";
  tunnel_id = tunnel_id;
  rctx = s.rctx;
  wctx = s.wctx;
  max_alive_secs = 0;
  recv_buf = s.recv_buf;
}
