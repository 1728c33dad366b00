-- ===== src/Message.antt =====
-- src/rmux/message.rs: the requests that travel in the bodies of events. An address is its bytes, a
-- method a text. The crate `bincode` is the record `Codec` of each message type.
use Prim.Native.String.{String}
use rsnova.Base.{ℕ, ◌≡◌, Bool, Option, some, List}

pub record ConnectRequest : Type 0 where
  pub proto : List ℕ
  pub addr : List ℕ

pub record AuthRequest : Type 0 where
  pub method : String

pub record AuthResponse : Type 0 where
  pub success : Bool
  pub err : String
  pub rand : ℕ
  pub method : String

pub record Codec {ℓ} (T : Type ℓ) : Type ℓ where
  pub serialize : T → List ℕ
  pub deserialize : List ℕ → Option T

-- What the program relies on: what one end has written, the other end reads.
abbrev pub Restores {ℓ} : {T : Type ℓ} → Codec T → T → Type ℓ
Restores c t = c.deserialize (c.serialize t) ≡ some t
