-- ===== src/Tunnel/Ws.antt =====
-- src/tunnel/ws.rs: the server's side of the authentication over a websocket. The handshake of the
-- crate `tungstenite` is an argument: the description of its failure, or none.
use Prim.Native.String.{String}
use rsnova.Base.{ℕ, Bool, Option, none, some, List}
use rsnova.Base.Outcome.{
  Outcome, ok, err, panic, stuck, Error, other, unexpected_eof, write_zero, connection_refused,
  connection_aborted, failed, ◌>>=◌, ◌>>◌, or_panic,
}
use rsnova.Event.{Event}
use rsnova.Message.{AuthRequest, AuthResponse, Codec}
use rsnova.Config.{CipherConfig}
use rsnova.Crypto.Primitives.{Cipher}
use rsnova.Crypto.{new}
use rsnova.Crypto.Reader.{Connection, Read, read_encrypt_event}
use rsnova.Tunnel.Rmux.{SessionStart, opening, answer_auth}

-- `Error::description`; for a failure of the operating system its text is an argument.
abbrev pub description : String → Error → String
description os (other m) = m
description os unexpected_eof = "unexpected end of file"
description os write_zero = "write zero"
description os connection_refused = "connection refused"
description os connection_aborted = "connection aborted"
description os failed = os

-- The first event, where the caller passes the description of an error on.
abbrev pub first_event_or_why :
    String → Outcome (Option (Event × Connection)) → Outcome (Event × Connection)
first_event_or_why os (ok (some x)) = ok x
first_event_or_why os (ok none) = err (other "can NOT read first auth envent.")
first_event_or_why os (err e) = err (other (description os e))
first_event_or_why os panic = panic
first_event_or_why os stuck = stuck

abbrev pub accepted : Option String → Outcome (Unit {0})
accepted none = ok tt
accepted (some why) = err (other why)

module _ (p : Cipher) (requests : Codec AuthRequest) (responses : Codec AuthResponse) where
  unfoldable pub handle_websocket :
      Option String → Option CipherConfig → String → ℕ → Bool → List Read → Outcome SessionStart
  unfolding answer_auth
  handle_websocket accept cipher os rand writes reads = do
    accepted accept
    cfg ← or_panic cipher
    rctx ← new p cfg.method cfg.key 0
    wctx ← new p cfg.method cfg.key 0
    first ← first_event_or_why os (read_encrypt_event p (opening rctx reads))
    answer_auth p requests responses cfg rand writes wctx first
