-- ===== src/Tests/Hello.antt =====
-- A ClientHello with a name, and one whose session id claims more bytes than the record has.
use rsnova.Base.{ℕ, ◌≡◌, refl, List, [], ◌∷◌, ◌++◌, replicate, arith}
use rsnova.Base.Text.{codes}
use rsnova.Base.Outcome.{ok, panic}
use rsnova.Tunnel.Tls.{peek_sni}
use rsnova.Tunnel.Tls.Peeking.{Peeks, peek_sni-Peeks, peek_sni_panics}
use rsnova.Tunnel.Tls.Hello.{ClientHello, to_record, IsHello, peek_sni-to_record}

abbrev hello : List ℕ
hello = 0x16 ∷ 3 ∷ 1 ∷ 0 ∷ 42 ∷ 1 ∷ (replicate 37 0 ++ (200 ∷ 0 ∷ 0 ∷ 0 ∷ []))

peek_sni-Peeks_example : Peeks hello (peek_sni hello)
peek_sni-Peeks_example = peek_sni-Peeks hello

peek_sni_panics_example : peek_sni hello ≡ panic
peek_sni_panics_example =
    peek_sni_panics hello 42 200 refl (omega arith) (omega arith) refl refl (omega arith)

abbrev named : ClientHello
named = record {
  front = replicate 37 0;
  sid = 1 ∷ 2 ∷ [];
  ciphers = 0x13 ∷ 1 ∷ [];
  compression = 0 ∷ [];
  before = (43, 2 ∷ 3 ∷ 4 ∷ []) ∷ [];
  name = codes "a.b";
  after = 0 ∷ 23 ∷ 0 ∷ 0 ∷ [];
}

is_hello : IsHello named
is_hello = record {
  front = refl;
  even = refl;
  others = ((omega arith, omega arith, omega arith), tt);
  short = omega arith;
}

peek_sni-to_record_example :
    peek_sni (to_record named ++ (9 ∷ [])) ≡ ok (codes "a.b", to_record named, 9 ∷ [])
peek_sni-to_record_example = peek_sni-to_record named (9 ∷ []) is_hello
