-- ===== src/Tests/Joining.antt =====
-- A client and a server that authenticate without encryption, over reads cut in two.
use rsnova.Base.{
  ℕ, ◌<◌, ◌≡◌, refl, inl, inr, true, Option, none, some, List, [], ◌∷◌, ◌++◌, length, append-nil,
  arith,
}
use rsnova.Base.Outcome.{ok}
use rsnova.Message.{AuthRequest, AuthResponse, Codec}
use rsnova.Config.{CipherConfig}
use rsnova.Event.{new_data_event, new_auth_event}
use rsnova.Crypto.{CryptoContext, new, pad_key, encrypt}
use rsnova.Crypto.RoundTrip.{frame}
use rsnova.Crypto.Reader.{Read, bytes}
use rsnova.Crypto.Reader.Stream.{incoming}
use rsnova.Tunnel.Rmux.{SessionStart, handle_rmux}
use rsnova.Channel.Rmux.{init_client}
use rsnova.Channel.Handshake.{Joined, hello, answer, handshake-Joined}
use rsnova.Tests.Toy.{toy, toy-IsCipher}

-- Stand-ins for `bincode` that know the method "none" alone.
abbrev read_request : List ℕ → Option AuthRequest
read_request [] = none
read_request (n ∷ rest) = some (record { method = "none" })

abbrev read_response : List ℕ → Option AuthResponse
read_response [] = none
read_response (r ∷ rest) = some (record { success = true; err = ""; rand = r; method = "none" })

abbrev requests : Codec AuthRequest
requests = record { serialize = λ m. 4 ∷ 0 ∷ []; deserialize = read_request }

abbrev responses : Codec AuthResponse
responses = record { serialize = λ m. m.rand ∷ []; deserialize = read_response }

abbrev cipher : CipherConfig
cipher = record { key = b'k' ∷ []; method = "none" }

abbrev ctx : CryptoContext
ctx = record { key = pad_key 32 (b'k' ∷ []); nonce = 0; sealing_key = none; opening_key = none }

new_none : new toy "none" (b'k' ∷ []) 0 ≡ ok ctx
unfolding new
new_none = refl

abbrev up_frame : List ℕ
up_frame = frame toy ctx (hello requests cipher)

abbrev down_frame : List ℕ
down_frame = frame toy ctx (answer responses cipher 77)

abbrev up : List Read
up = bytes up_frame ∷ bytes (1 ∷ 2 ∷ []) ∷ []

abbrev down : List Read
down = bytes (down_frame ++ (9 ∷ [])) ∷ []

long_up : 0 < length up_frame
unfolding encrypt new_auth_event new_data_event
long_up = omega arith

long_down : 0 < length (down_frame ++ (9 ∷ []))
unfolding encrypt new_auth_event new_data_event
long_down = omega arith

handshake-Joined_example :
    (s t : SessionStart) × (handle_rmux toy requests responses (some cipher) 77 true up ≡ ok s)
    × (init_client toy requests responses cipher true "reset" down ≡ ok t)
    × (t.sent ++ (1 ∷ 2 ∷ []) ≡ incoming up)
    × (s.sent ++ (9 ∷ []) ≡ incoming down)
    × Joined s t (1 ∷ 2 ∷ []) (9 ∷ [])
handshake-Joined_example =
    handshake-Joined toy toy-IsCipher requests responses cipher 77 "reset" ctx up down (1 ∷ 2 ∷ [])
      (9 ∷ []) (inr (inl refl)) new_none refl refl (omega arith) (omega arith)
      (long_up, (omega arith, tt)) (long_down, tt) refl (append-nil (down_frame ++ (9 ∷ [])))
