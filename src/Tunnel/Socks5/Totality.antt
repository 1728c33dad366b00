-- ===== src/Tunnel/Socks5/Totality.antt =====
-- The handshake of src/tunnel/socks5.rs with any client at all.
use rsnova.Base.{
  ℕ, All, ◌≡◌, refl, sym, ◌∙◌, Bool, true, false, not, List, [], ◌∷◌, ◌++◌, length, ◌==◌, ==_iff,
  arith, subst,
}
use rsnova.Base.Text.{has}
use rsnova.Base.Outcome.{Outcome, ok, err, panic, stuck}
use rsnova.Base.Slice.{index}
use rsnova.Tunnel.Tls.{read_exact}
use rsnova.Tunnel.Tls.Bounds.{Yields, bind, index-Yields}
use rsnova.Tunnel.Socks5.{read_target, method_reply, resp, Accepted, read_request, handle_socks5}
use rsnova.Base.Word.{IsByte}
use rsnova.Tunnel.Socks5.Handshake.{kind, address, IsTarget}
use rsnova.Tunnel.Socks5.Addresses.{Safe, read_exact-Safe, fail_if-Safe, All-rest, read_target-Safe}

two_of : (xs : List ℕ) (n : ℕ) → length xs ≡ 2 → index xs 1 ≡ ok n → (v : ℕ) × (xs ≡ v ∷ n ∷ [])
two_of [] n l e = absurd (omega arith)
two_of (a ∷ []) n l e = absurd (omega arith)
two_of (a ∷ b ∷ []) n l e = (a, cc)
two_of (a ∷ b ∷ c ∷ xs) n l e = absurd (omega arith)

four_of :
    (xs : List ℕ) (a b d : ℕ)
    → length xs ≡ 4
    → index xs 0 ≡ ok a
    → index xs 1 ≡ ok b
    → index xs 3 ≡ ok d
    → (c : ℕ) × (xs ≡ a ∷ b ∷ c ∷ d ∷ [])
four_of [] a b d l e f g = absurd (omega arith)
four_of (u ∷ []) a b d l e f g = absurd (omega arith)
four_of (u ∷ v ∷ []) a b d l e f g = absurd (omega arith)
four_of (u ∷ v ∷ w ∷ []) a b d l e f g = absurd (omega arith)
four_of (u ∷ v ∷ w ∷ x ∷ []) a b d l e f g = (w, cc)
four_of (u ∷ v ∷ w ∷ x ∷ y ∷ xs) a b d l e f g = absurd (omega arith)

-- From the request on: version 5, the command to connect, and the address; the third byte is not
-- looked at.
abbrev pub Asks : List ℕ → Accepted → Type 0
Asks inbound r =
    IsTarget r.target
    × ((x : ℕ) × (inbound ≡ (5 ∷ 1 ∷ x ∷ kind r.target ∷ []) ++ (address r.target ++ r.rest)))
    × (r.sent ≡ method_reply ++ resp)

passed : (b : Bool) → not b ≡ false → b ≡ true
passed true h = refl
passed false h = cc

read_request-Safe :
    (replies : Bool) (inbound : List ℕ)
    → All IsByte inbound
    → Safe (Asks inbound) (read_request replies inbound)
unfolding read_request
read_request-Safe replies inbound b =
    let P = Asks inbound in
    bind ⊥ _ P (read_exact 4 inbound) _ (read_exact-Safe 4 inbound) λ (head, inbound3) (e, l).
      bind ⊥ _ P (index head 0) _ (index-Yields ⊥ head 0 (omega arith)) λ ver v.
        fail_if-Safe P (not (ver == 5)) _ _ λ v5.
          bind ⊥ _ P (index head 1) _ (index-Yields ⊥ head 1 (omega arith)) λ cmd c.
            fail_if-Safe P (not (cmd == 1)) _ _ λ c1.
              bind ⊥ _ P (index head 3) _ (index-Yields ⊥ head 3 (omega arith)) λ atyp a.
                bind ⊥ _ P (read_target atyp inbound3) _
                  (read_target-Safe atyp inbound3
                    (All-rest IsByte head inbound3 (subst (All IsByte) (sym e) b)))
                  λ (t, rest) (k, h, f). fail_if-Safe P (not replies) _ _ λ _.
                    let (x, q) = four_of head ver cmd atyp l v c a in
                    let ver5 : ver ≡ 5 = (==_iff ver 5).0 (passed _ v5) in
                    let cmd1 : cmd ≡ 1 = (==_iff cmd 1).0 (passed _ c1) in
                    let whole : inbound ≡ (5 ∷ 1 ∷ x ∷ kind t ∷ []) ++ (address t ++ rest) =
                      sym e ∙ rw (q, ver5, cmd1, k, f) refl in
                    (h, (x, whole), refl)

-- A request behind a greeting that offers to go without authentication. The version in the greeting
-- is not looked at.
abbrev pub Conforms : List ℕ → Accepted → Type 0
Conforms inbound r =
    (v : ℕ) × (methods after : List ℕ) × (inbound ≡ (v ∷ length methods ∷ methods) ++ after)
    × (has 0 methods ≡ true)
    × Asks after r

-- The handshake on any connection, whatever becomes of the writes, never panics and always ends. It
-- gives an error or an address. In the second case the client has sent, byte for byte, a greeting of
-- any version whose methods include the one without authentication, a request of version 5 to
-- connect with any third byte, and just that address, with 16-bit numbers or a name that is UTF-8;
-- the two replies have been written, and what follows the address is still to be read.
pub handle_socks5-Conforms :
    (greets replies : Bool) (inbound : List ℕ)
    → All IsByte inbound
    → Yields (Conforms inbound) ⊥ (handle_socks5 greets replies inbound)
unfolding handle_socks5
handle_socks5-Conforms greets replies inbound b =
    let P = Conforms inbound in
    bind ⊥ _ P (read_exact 2 inbound) _ (read_exact-Safe 2 inbound) λ (nums, inbound1) (e, l).
      bind ⊥ _ P (index nums 1) _ (index-Yields ⊥ nums 1 (omega arith)) λ n i.
        bind ⊥ _ P (read_exact n inbound1) _ (read_exact-Safe n inbound1)
          λ (methods, inbound2) (f, m). fail_if-Safe P (not (has 0 methods)) _ _ λ free.
            fail_if-Safe P (not greets) _ _ λ _.
              let (v, h) = two_of nums n l i in
              let b1 = All-rest IsByte nums inbound1 (subst (All IsByte) (sym e) b) in
              let b2 = All-rest IsByte methods inbound2 (subst (All IsByte) (sym f) b1) in
              conforming inbound v methods inbound2 (sym e ∙ rw (h, sym m, sym f) refl)
                (passed _ free) (read_request replies inbound2)
                (read_request-Safe replies inbound2 b2)
  where
    conforming :
        (inbound : List ℕ) (v : ℕ) (methods after : List ℕ)
        → inbound ≡ (v ∷ length methods ∷ methods) ++ after
        → has 0 methods ≡ true
        → (m : Outcome Accepted) → Safe (Asks after) m
        → Safe (Conforms inbound) m
    conforming inbound v methods after e h (ok r) y = (v, methods, after, e, h, y)
    conforming inbound v methods after e h (err x) y = tt
    conforming inbound v methods after e h panic y = y
    conforming inbound v methods after e h stuck y = y
