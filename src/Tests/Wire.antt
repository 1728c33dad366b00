-- ===== src/Tests/Wire.antt =====
-- Frames on a connection, with the toy cipher.
use rsnova.Base.{
  ℕ, ◌<◌, ◌≡◌, refl, ◌⊎◌, false, some, List, [], ◌∷◌, ◌++◌, length, replicate, take, drop,
  length-drop, take-append-drop, arith,
}
use rsnova.Base.Outcome.{ok, panic}
use rsnova.Event.{Event, IsFramed, new_data_event}
use rsnova.Event.Fields.{new_data_event-IsFramed}
use rsnova.Crypto.Primitives.{chacha20_poly1305}
use rsnova.Crypto.{CryptoContext, Key, encrypt, decrypt, new, skip32_encrypt_key}
use rsnova.Crypto.RoundTrip.{InSync, ReadsBack, frame, decrypt-encrypt}
use rsnova.Crypto.Partial.{Waits, decrypt-front}
use rsnova.Crypto.Context.{IsSupported, IsFresh, new_cases}
use rsnova.Crypto.Reader.{Connection, bytes, read_encrypt_event}
use rsnova.Crypto.Reader.Stream.{AllData, Delivers, read_encrypt_event-Delivers}
use rsnova.Tests.Toy.{toy, toy-IsCipher}

abbrev key : Key
key = record { algorithm = chacha20_poly1305; key_bytes = replicate 32 70; sequence = 5 }

abbrev ctx : CryptoContext
ctx = record { key = replicate 32 70; nonce = 5; sealing_key = some key; opening_key = some key }

abbrev ev : Event
ev = new_data_event 3 (10 ∷ 20 ∷ 30 ∷ []) false

in_sync : InSync ctx ctx
in_sync = record { key = refl; nonce = refl; cipher = refl }

framed : IsFramed ev
framed = new_data_event-IsFramed 3 (10 ∷ 20 ∷ 30 ∷ []) false (omega arith) (omega arith)

abbrev wire : List ℕ
wire = frame toy ctx ev

decrypt-encrypt_example :
    ReadsBack ev (1 ∷ 2 ∷ []) (encrypt toy ctx ev []).0 (decrypt toy ctx (wire ++ (1 ∷ 2 ∷ [])))
decrypt-encrypt_example = decrypt-encrypt toy toy-IsCipher ctx ctx ev (1 ∷ 2 ∷ []) in_sync framed

abbrev connection : Connection
connection = record { ctx = ctx; recv_buf = []; reads = bytes wire ∷ bytes (9 ∷ []) ∷ [] }

abbrev front : List ℕ
front = take 9 wire

abbrev back : List ℕ
back = drop 9 wire

length-wire : length wire ≡ 27
unfolding encrypt skip32_encrypt_key new_data_event
length-wire = refl

long_back : 0 < length back
long_back = omega (arith, length-drop 9 wire, length-wire)

all_data : AllData connection.reads
all_data = (omega (arith, length-wire), (omega arith, tt))

decrypt-front_example : Waits ctx front (length back) (decrypt toy ctx front)
decrypt-front_example =
    decrypt-front toy toy-IsCipher ctx ctx ev front back in_sync framed (take-append-drop 9 wire)
      long_back

read_encrypt_event-Delivers_example :
    Delivers ev (encrypt toy ctx ev []).0 (9 ∷ []) (read_encrypt_event toy connection)
read_encrypt_event-Delivers_example =
    read_encrypt_event-Delivers toy toy-IsCipher ctx ev (9 ∷ []) connection in_sync framed all_data
      refl

new_cases_example :
    (IsSupported "rc4"
      × ((c : CryptoContext) × (new toy "rc4" (1 ∷ 2 ∷ []) 5 ≡ ok c) × IsFresh 5 c))
    ⊎ (¬ IsSupported "rc4" × (new toy "rc4" (1 ∷ 2 ∷ []) 5 ≡ panic))
new_cases_example = new_cases toy toy-IsCipher "rc4" (1 ∷ 2 ∷ []) 5
