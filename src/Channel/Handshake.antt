-- ===== src/Channel/Handshake.antt =====
-- Both ends of the authentication: `init_client` (src/channel/rmux.rs) and `handle_rmux`
-- (src/tunnel/rmux.rs) over one connection.
use Prim.Native.String.{String}
use rsnova.Base.{
  ℕ, ◌<◌, ◌^◌, ◌≡◌, refl, sym, subst, inl, inr, true, false, some, List, [], ◌++◌, length, arith,
}
use rsnova.Base.Outcome.{ok}
use rsnova.Event.{Event, IsFramed, new_auth_event, new_data_event}
use rsnova.Event.Fields.{new_events-IsFramed}
use rsnova.Message.{AuthRequest, AuthResponse, Codec, Restores}
use rsnova.Config.{CipherConfig}
use rsnova.Crypto.Primitives.{Cipher, IsCipher}
use rsnova.Crypto.RoundTrip.{InSync, frame}
use rsnova.Crypto.Context.{IsSupported, IsFresh, new_cases}
use rsnova.Crypto.{CryptoContext, new}
use rsnova.Crypto.Reader.{Connection, Read, read_encrypt_event, write_encrypt_event}
use rsnova.Crypto.Reader.Stream.{incoming, AllData, read_encrypt_event-Delivers}
use rsnova.Tunnel.Rmux.{SessionStart, welcome, opening, answer_auth, handle_rmux}
use rsnova.Channel.Rmux.{auth_event, take_answer, init_client}

-- Two ends of which each decrypts what the other encrypts, with nothing lost of what was sent
-- behind the authentication: `to_server` and `to_client` are still to be read.
pub record Joined (server client : SessionStart) (to_server to_client : List ℕ) : Type 0 where
  pub upward : InSync client.wctx server.rctx
  pub downward : InSync server.wctx client.rctx
  pub server_has : server.recv_buf ++ incoming server.reads ≡ to_server
  pub client_has : client.recv_buf ++ incoming client.reads ≡ to_client

abbrev pub request : CipherConfig → AuthRequest
request cipher = record { method = cipher.method }

-- The events that the two ends send, given the server's random number.
abbrev pub hello : Codec AuthRequest → CipherConfig → Event
hello requests cipher = new_auth_event requests.serialize 0 (request cipher)

abbrev pub answer : Codec AuthResponse → CipherConfig → ℕ → Event
answer responses cipher rand = new_auth_event responses.serialize 0 (welcome rand (request cipher))

module _ (p : Cipher) (law : IsCipher p) (requests : Codec AuthRequest)
    (responses : Codec AuthResponse) (cipher : CipherConfig) where
  fresh :
      (nonce : ℕ)
      → IsSupported cipher.method
      → (c : CryptoContext) × (new p cipher.method cipher.key nonce ≡ ok c) × IsFresh nonce c
  fresh nonce s = elim (new_cases p law cipher.method cipher.key nonce) [
    | inl (_, c) ↦ c
    | inr (no_way, _) ↦ absurd (no_way s)
  ]

  small-IsFramed {ℓ} :
      {T : Type ℓ} (serialize : T → List ℕ) (msg : T)
      → length (serialize msg) < 2 ^ 24
      → IsFramed (new_auth_event serialize 0 msg)
  small-IsFramed serialize msg h =
      (new_events-IsFramed serialize msg 0 0 [] false (omega arith) (omega arith) h).6

  answer_auth-welcome :
      (rand : ℕ) (w0 c1 : CryptoContext) (c : Connection)
      → Restores requests (request cipher)
      → new p cipher.method cipher.key rand ≡ ok c1
      → answer_auth p requests responses cipher rand true w0
          (record (hello requests cipher) { remote = true }, c)
        ≡ ok (record {
          rctx = c1;
          wctx = c1;
          recv_buf = c.recv_buf;
          reads = c.reads;
          sent = frame p w0 (answer responses cipher rand);
        })
  unfolding answer_auth new_auth_event new_data_event
  answer_auth-welcome rand w0 c1 c q e1 = rw (q, e1) refl

  take_answer-welcome :
      (rand : ℕ) (sent : List ℕ) (c1 : CryptoContext) (c : Connection)
      → Restores responses (welcome rand (request cipher))
      → new p cipher.method cipher.key rand ≡ ok c1
      → take_answer p requests responses cipher sent
          (record (answer responses cipher rand) { remote = true }, c)
        ≡ ok (record { rctx = c1; wctx = c1; recv_buf = c.recv_buf; reads = c.reads; sent = sent })
  unfolding take_answer new_auth_event new_data_event
  take_answer-welcome rand sent c1 c q e1 = rw (q, e1) refl

  -- The server over a connection on which the client's request arrives first.
  handle_rmux-joins :
      (rand : ℕ) (c0 c1 : CryptoContext) (c : Connection) (reads : List Read)
      → Restores requests (request cipher)
      → new p cipher.method cipher.key 0 ≡ ok c0
      → new p cipher.method cipher.key rand ≡ ok c1
      → read_encrypt_event p (opening c0 reads)
        ≡ ok (some (record (hello requests cipher) { remote = true }, c))
      → handle_rmux p requests responses (some cipher) rand true reads
        ≡ ok (record {
          rctx = c1;
          wctx = c1;
          recv_buf = c.recv_buf;
          reads = c.reads;
          sent = frame p c0 (answer responses cipher rand);
        })
  handle_rmux-joins rand c0 c1 c reads q e0 e1 r =
      unfold handle_rmux in rw (e0, r) (answer_auth-welcome rand c0 c1 c q e1)

  init_client-joins :
      (rand : ℕ) (os : String) (c0 c1 : CryptoContext) (c : Connection) (reads : List Read)
      → Restores responses (welcome rand (request cipher))
      → new p cipher.method cipher.key 0 ≡ ok c0
      → new p cipher.method cipher.key rand ≡ ok c1
      → read_encrypt_event p (opening c0 reads)
        ≡ ok (some (record (answer responses cipher rand) { remote = true }, c))
      → init_client p requests responses cipher true os reads
        ≡ ok (record {
          rctx = c1;
          wctx = c1;
          recv_buf = c.recv_buf;
          reads = c.reads;
          sent = frame p c0 (hello requests cipher);
        })
  init_client-joins rand os c0 c1 c reads q e0 e1 r =
      unfold init_client write_encrypt_event auth_event in
      rw (e0, r) (take_answer-welcome rand (frame p c0 (hello requests cipher)) c1 c q e1)

  -- The two ends with one cipher configuration of a supported method, whose messages are read back
  -- as they were written and have less than 2 ^ 24 bytes. Let the client's request reach
  -- the server and the server's answer reach the client, cut into reads in any way, each with any
  -- bytes behind it. Then both start a session: each has sent just the message that the other one
  -- waits for, the contexts of each direction are in step, and neither has lost a byte of what was
  -- behind the messages.
  pub handshake-Joined :
      (rand : ℕ) (os : String) (c0 : CryptoContext) (up down : List Read)
      (to_server to_client : List ℕ)
      → IsSupported cipher.method
      → new p cipher.method cipher.key 0 ≡ ok c0
      → Restores requests (request cipher)
      → Restores responses (welcome rand (request cipher))
      → length (requests.serialize (request cipher)) < 2 ^ 24
      → length (responses.serialize (welcome rand (request cipher))) < 2 ^ 24
      → AllData up
      → AllData down
      → incoming up ≡ frame p c0 (hello requests cipher) ++ to_server
      → incoming down ≡ frame p c0 (answer responses cipher rand) ++ to_client
      → (s t : SessionStart) × (handle_rmux p requests responses (some cipher) rand true up ≡ ok s)
        × (init_client p requests responses cipher true os down ≡ ok t)
        × (t.sent ++ to_server ≡ incoming up)
        × (s.sent ++ to_client ≡ incoming down)
        × Joined s t to_server to_client
  handshake-Joined rand os c0 up down to_server to_client m e0 qq qr hq hr du dd iu id =
      let (f0, g0, fresh0) = fresh 0 m in
      let same : f0 ≡ c0 = cc in
      let sync : InSync c0 c0 = subst (λ c. InSync c c) same (fresh0.sync) in
      let (c1, e1, fresh1) = fresh rand m in
      let (sc, sr, sleft, _, _) =
        read_encrypt_event-Delivers p law c0 (hello requests cipher) to_server (opening c0 up) sync
          (small-IsFramed requests.serialize (request cipher) hq) du iu in
      let (tc, tr, tleft, _, _) =
        read_encrypt_event-Delivers p law c0 (answer responses cipher rand) to_client
          (opening c0 down) sync
          (small-IsFramed responses.serialize (welcome rand (request cipher)) hr) dd id in
      (
        _,
        _,
        handle_rmux-joins rand c0 c1 sc up qq e0 e1 sr,
        init_client-joins rand os c0 c1 tc down qr e0 e1 tr,
        sym iu,
        sym id,
        record {
          upward = fresh1.sync;
          downward = fresh1.sync;
          server_has = sleft;
          client_has = tleft;
        },
      )
