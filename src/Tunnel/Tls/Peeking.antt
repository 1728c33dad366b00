-- ===== src/Tunnel/Tls/Peeking.antt =====
-- `peek_sni` (src/tunnel/tls.rs) on a connection.
use rsnova.Base.{
  ℕ, ◌+◌, ◌<◌, ◌≤◌, ◌≡◌, refl, ◌∙◌, ap, ap₂, subst, not, inl, inr, List, ◌++◌, length, take, drop,
  length-drop, length-take, ltb, ltb→lt, ltb→le, le→ltb, lt→ltb, ◌==◌, arith, take-append-drop,
  Bool-cases, append_assoc,
}
use rsnova.Base.Outcome.{Outcome, ok, panic}
use rsnova.Base.Slice.{index, slice_from}
use rsnova.Tunnel.Tls.{read_exact, word_at, client_hello, peek_sni}
use rsnova.Tunnel.Tls.Bounds.{
  Yields, Any, bind, refuse-Yields, index-Yields, word_at-Yields, slice_from-Yields,
  after_session_id-Yields,
}

-- The record announces `n` bytes, and the session id in it claims to go on behind its end.
abbrev pub Overruns : List ℕ → Type 0
Overruns inbound =
    (n sid_len : ℕ) × (word_at (take 5 inbound) 3 ≡ ok n)
    × (index (drop 38 (take n (drop 5 inbound))) 0 ≡ ok sid_len)
    × (n < 39 + sid_len)

-- What `peek_sni` comes to.
abbrev pub Peeks : List ℕ → Outcome (List ℕ × List ℕ × List ℕ) → Type 0
Peeks inbound = Yields (λ (name, peek_buf, rest). peek_buf ++ rest ≡ inbound) (Overruns inbound)

read_exact-Yields :
    (X : Type 0) (n : ℕ) (xs : List ℕ)
    → Yields (λ (a, b). (a ≡ take n xs) × (b ≡ drop n xs) × (n ≤ length xs)) X (read_exact n xs)
read_exact-Yields X n xs = elim (Bool-cases (ltb (length xs) n)) [
  | inl short ↦ rw short tt
  | inr long ↦ rw long (refl, refl, ltb→le _ _ long)
]

client_hello-Yields :
    (n : ℕ) (inbound vdata : List ℕ)
    → word_at (take 5 inbound) 3 ≡ ok n
    → vdata ≡ take n (drop 5 inbound)
    → length vdata ≡ n
    → 42 ≤ n
    → Yields Any (Overruns inbound) (client_hello vdata)
unfolding client_hello
client_hello-Yields n inbound vdata w e l big =
    let X = Overruns inbound in
    bind X _ Any (index vdata 0) _ (index-Yields X vdata 0 (omega arith)) λ handshake _.
      refuse-Yields X {A = List ℕ} Any (not (handshake == 1)) _ _ λ _.
        bind X _ Any (slice_from 38 vdata) _ (slice_from-Yields X 38 vdata (omega arith)) λ rest r.
          let p = ap length r ∙ length-drop 38 vdata in
          bind X _ Any (index rest 0) _ (index-Yields X rest 0 (omega (arith, p))) λ sid_len s.
            elim (Bool-cases (ltb (length rest) (1 + sid_len))) [
              | inl over ↦ rw over (
                n,
                sid_len,
                w,
                subst (λ v. index v 0 ≡ ok sid_len) (r ∙ ap (drop 38) e) s,
                omega (arith, ltb→lt _ _ over, p),
              )
              | inr fits ↦
                  bind X _ Any (slice_from (1 + sid_len) rest) _
                    (slice_from-Yields X (1 + sid_len) rest (ltb→le _ _ fits))
                    λ rest0 _. after_session_id-Yields X rest0
            ]

put_back :
    (n : ℕ) (xs front rest : List ℕ) → front ≡ take n xs → rest ≡ drop n xs → front ++ rest ≡ xs
put_back n xs front rest a b = ap₂ (λ x y. x ++ y) a b ∙ take-append-drop n xs

-- `peek_sni` on any connection: it never runs out of bounds or forever but for one case, a session
-- id that is longer than the rest of its record, which is a panic. Where it gives a name, the bytes
-- that it has read and the rest of the connection are the connection.
pub peek_sni-Peeks : (inbound : List ℕ) → Peeks inbound (peek_sni inbound)
unfolding peek_sni
peek_sni-Peeks inbound =
    let X = Overruns inbound in
    let P : List ℕ × List ℕ × List ℕ → Type 0 =
      (λ (name, peek_buf, rest). peek_buf ++ rest ≡ inbound) in
    bind X _ P (read_exact 5 inbound) _ (read_exact-Yields X 5 inbound)
      λ (head, inbound1) (a, b, l).
        bind X _ P (word_at head 3) _
          (word_at-Yields X head 3 (omega (arith, ap length a, length-take 5 inbound)))
          λ n w. refuse-Yields X P (ltb n 42) _ _ λ big.
            bind X _ P (read_exact n inbound1) _ (read_exact-Yields X n inbound1)
              λ (vdata, inbound2) (c, d, m).
                bind X Any P (client_hello vdata) _
                  (client_hello-Yields n inbound vdata (subst (λ h. word_at h 3 ≡ ok n) a w)
                    (c ∙ ap (take n) b) (omega (arith, ap length c, length-take n inbound1))
                    (ltb→le _ _ big))
                  λ name _.
                    append_assoc head vdata inbound2
                    ∙ ap (λ x. head ++ x) (put_back n inbound1 vdata inbound2 c d)
                    ∙ put_back 5 inbound head inbound1 a b

-- A whole ClientHello record whose session id claims more bytes than the record has left makes
-- `peek_sni` panic.
pub peek_sni_panics :
    (inbound : List ℕ) (n sid_len : ℕ)
    → word_at (take 5 inbound) 3 ≡ ok n
    → 42 ≤ n
    → n + 5 ≤ length inbound
    → index (take n (drop 5 inbound)) 0 ≡ ok 1
    → index (drop 38 (take n (drop 5 inbound))) 0 ≡ ok sid_len
    → n < 39 + sid_len
    → peek_sni inbound ≡ panic
unfolding peek_sni client_hello
peek_sni_panics inbound n sid_len w big whole hello s over =
    let vdata = take n (drop 5 inbound) in
    let lv : length vdata ≡ n =
      omega (arith, length-take n (drop 5 inbound), length-drop 5 inbound) in
    let e1 = le→ltb (length inbound) 5 (omega arith) in
    let e2 = le→ltb n 42 big in
    let e3 = le→ltb (length (drop 5 inbound)) n (omega (arith, length-drop 5 inbound)) in
    let e4 = le→ltb (length vdata) 38 (omega (arith, lv)) in
    let e5 =
      lt→ltb (length (drop 38 vdata)) (1 + sid_len) (omega (arith, length-drop 38 vdata, lv)) in
    rw (e1, w, e2, e3, hello, e4, s, e5) refl
