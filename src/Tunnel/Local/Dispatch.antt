-- ===== src/Tunnel/Local/Dispatch.antt =====
-- How `handle_inbound` (src/tunnel/local.rs) tells the protocols apart.
use rsnova.Base.{
  ℕ, ◌<◌, ◌≡◌, sym, ◌∙◌, Bool, true, ◌&&◌, Option, List, [], ◌∷◌, ◌==◌, arith, if◌then◌else◌,
}
use rsnova.Base.Text.{codes, to_upper, same_bytes}
use rsnova.Base.Utf8.{is_utf8, lead}
use rsnova.Tunnel.Tls.{valid_tls_version}
use rsnova.Base.Outcome.{Outcome, ok, err, other}
use rsnova.Tunnel.Local.{
  Handler, socks5, tls, https, http, is_one_of, methods, by_origin, by_method, handle_inbound,
}

to_upper_idem : (c : ℕ) → to_upper (to_upper c) ≡ to_upper c
to_upper_idem c = ground arith

ascii_utf8 : (a b c : ℕ) → a < 128 → b < 128 → c < 128 → is_utf8 (a ∷ b ∷ c ∷ []) ≡ true
unfolding is_utf8 lead
ascii_utf8 a b c ha hb hc = ground arith

-- The two decisions, as functions of what they look at.
abbrev dispatch : Bool → Bool → Bool → Handler → Outcome Handler
dispatch is_5 is_4 is_tls m =
    if is_5
    then ok socks5
    else if is_4
    then err (other "socks4 unimplemented")
    else if is_tls
    then ok tls
    else ok m

abbrev choose : Option (List ℕ) → Bool → List ℕ → Handler
choose origin text prefix_str =
    if text && is_one_of prefix_str methods
    then (if same_bytes prefix_str (codes "CON") then https else http)
    else by_origin origin

five : (a : ℕ) → (to_upper a == 5) ≡ (a == 5)
five a = ground arith

four : (a : ℕ) → (to_upper a == 4) ≡ (a == 4)
four a = ground arith

tls_same :
    (a b c : ℕ)
    → valid_tls_version (to_upper a ∷ to_upper b ∷ to_upper c ∷ [])
      ≡ valid_tls_version (a ∷ b ∷ c ∷ [])
unfolding valid_tls_version
tls_same a b c = ground arith

upper_small : (a : ℕ) → a < 128 → to_upper a < 128
upper_small a h = ground arith

by_method-to_upper :
    (a b c : ℕ) (origin : Option (List ℕ))
    → a < 128
    → b < 128
    → c < 128
    → by_method (to_upper a ∷ to_upper b ∷ to_upper c ∷ []) origin
      ≡ by_method (a ∷ b ∷ c ∷ []) origin
unfolding by_method
by_method-to_upper a b c origin ha hb hc =
    let here = ascii_utf8 a b c ha hb hc in
    let there =
      ascii_utf8 (to_upper a) (to_upper b) (to_upper c) (upper_small a ha) (upper_small b hb)
        (upper_small c hc) in
    λ i.
      choose origin ((there ∙ sym here) i)
        (to_upper_idem a i ∷ to_upper_idem b i ∷ to_upper_idem c i ∷ [])

-- The case of ASCII letters makes no difference to the protocol that a connection is taken for.
pub handle_inbound-to_upper :
    (a b c : ℕ) (origin : Option (List ℕ))
    → a < 128
    → b < 128
    → c < 128
    → handle_inbound (to_upper a) (to_upper b) (to_upper c) origin ≡ handle_inbound a b c origin
unfolding handle_inbound valid_tls_version
handle_inbound-to_upper a b c origin ha hb hc = λ i.
    dispatch (five a i) (four a i) (tls_same a b c i) (by_method-to_upper a b c origin ha hb hc i)
