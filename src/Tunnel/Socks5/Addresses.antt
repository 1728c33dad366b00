-- ===== src/Tunnel/Socks5/Addresses.antt =====
-- The addresses that the handshake of src/tunnel/socks5.rs reads off any bytes.
use rsnova.Base.{
  ℕ, zero, suc, ◌+◌, ◌*◌, ◌/◌, ◌%◌, ◌^◌, ◌<◌, All, drop, ◌≡◌, refl, sym, ◌∙◌, ap, Bool, true, false,
  inl, inr, List, [], ◌∷◌, ◌++◌, length, take, ltb, ltb→le, ◌==◌, ==_iff, arith, length-take,
  take-append-drop, length-append, length-drop, ap₂, append_assoc, Bool-cases, if_split, subst,
}
use rsnova.Base.Utf8.{is_utf8}
use rsnova.Base.Outcome.{Outcome, ok, Error, ◌>>◌, fail_if}
use rsnova.Tunnel.Tls.{read_exact}
use rsnova.Tunnel.Tls.Bounds.{Yields}
use rsnova.Tunnel.Socks5.{
  Target, ipv4, ipv6, domain, read_ipv4, read_ipv6, read_domain, read_target,
}
use rsnova.Base.Word.{IsByte}
use rsnova.Tunnel.Socks5.Handshake.{
  to_be16, kind, address, IsTarget, read_exact-append, name_port-refuses, read_ipv4-address,
  read_ipv6-address, read_domain-address,
}

abbrev pub Safe {ℓ} : {A : Type ℓ} → (A → Type 0) → Outcome A → Type 0
Safe P m = Yields P ⊥ m

pub read_exact-Safe :
    (n : ℕ) (xs : List ℕ) → Safe (λ (a, b). (a ++ b ≡ xs) × (length a ≡ n)) (read_exact n xs)
read_exact-Safe n xs = elim (Bool-cases (ltb (length xs) n)) [
  | inl short ↦ rw short tt
  | inr long ↦
      let l = ltb→le _ _ long in rw long (take-append-drop n xs, omega (arith, length-take n xs))
]

pub fail_if-Safe {ℓ} :
    {A : Type ℓ} (P : A → Type 0) (bad : Bool) (e : Error) (later : Outcome A)
    → (bad ≡ false → Safe P later)
    → Safe P (fail_if bad e >> later)
fail_if-Safe P true e later h = tt
fail_if-Safe P false e later h = h refl

pub All-rest {ℓ} : {A : Type ℓ} (P : A → Type 0) (xs ys : List A) → All P (xs ++ ys) → All P ys
All-rest P [] ys h = h
All-rest P (x ∷ xs) ys (hx, h) = All-rest P xs ys h

All-front {ℓ} : {A : Type ℓ} (P : A → Type 0) (xs ys : List A) → All P (xs ++ ys) → All P xs
All-front P [] ys h = tt
All-front P (x ∷ xs) ys (hx, h) = (hx, All-front P xs ys h)

-- So many 16-bit numbers, and their bytes.
abbrev Words : ℕ → Type 0
Words zero = Unit
Words (suc n) = ((w : ℕ) × (w < 2 ^ 16)) × Words n

abbrev spell : (n : ℕ) → Words n → List ℕ
spell zero ws = []
spell (suc n) ((w, h), ws) = to_be16 w ++ spell n ws

spelled :
    (n : ℕ) (xs : List ℕ) → length xs ≡ 2 * n → All IsByte xs → (ws : Words n) × (xs ≡ spell n ws)
spelled zero [] l b = (tt, refl)
spelled zero (x ∷ xs) l b = absurd (omega arith)
spelled (suc n) [] l b = absurd (omega arith)
spelled (suc n) (x ∷ []) l b = absurd (omega arith)
spelled (suc n) (hi ∷ lo ∷ xs) l (bh, (bl, b)) =
    let (ws, e) = spelled n xs (omega arith) b in
    let q : (hi * 256 + lo) / 256 ≡ hi = omega arith in
    let r : (hi * 256 + lo) % 256 ≡ lo = omega arith in
    (((hi * 256 + lo, omega arith), ws), rw (q, r) (ap (λ t. hi ∷ lo ∷ t) e))

-- The address is of its kind, and it and the rest are the connection.
abbrev pub Reads : ℕ → List ℕ → Target × List ℕ → Type 0
Reads atyp inbound (t, rest) = (kind t ≡ atyp) × IsTarget t × (inbound ≡ address t ++ rest)

-- The bytes spell an address of the kind, and the reader gives that one.
abbrev Spells : (List ℕ → Outcome (Target × List ℕ)) → ℕ → List ℕ → Type 0
Spells read k xs =
    (t : Target) × (kind t ≡ k)
    × IsTarget t
    × (xs ≡ address t)
    × ((rest : List ℕ) → read (address t ++ rest) ≡ ok (t, rest))

Spells-Safe :
    (read : List ℕ → Outcome (Target × List ℕ)) (k : ℕ) (xs rest inbound : List ℕ)
    → Spells read k xs
    → inbound ≡ xs ++ rest
    → Safe (Reads k inbound) (read inbound)
Spells-Safe read k xs rest inbound (t, kt, h, e, r) split =
    let whole = split ∙ ap (λ x. x ++ rest) e in
    subst (Safe (Reads k inbound)) (sym (ap read whole ∙ r rest)) (kt, h, whole)

ipv4-Spells : (xs : List ℕ) → length xs ≡ 6 → All IsByte xs → Spells read_ipv4 1 xs
ipv4-Spells [] l b = absurd (omega arith)
ipv4-Spells (x ∷ []) l b = absurd (omega arith)
ipv4-Spells (x ∷ y ∷ []) l b = absurd (omega arith)
ipv4-Spells (x ∷ y ∷ z ∷ []) l b = absurd (omega arith)
ipv4-Spells (x ∷ y ∷ z ∷ w ∷ xs) l b =
    let (((port, h), _), e) = spelled 1 xs (omega arith) (b.1.1.1.1) in
    (
      ipv4 x y z w port,
      refl,
      h,
      ap (λ t. x ∷ y ∷ z ∷ w ∷ t) e,
      λ rest. read_ipv4-address x y z w port rest h,
    )

ipv6-Spells : (xs : List ℕ) → length xs ≡ 18 → All IsByte xs → Spells read_ipv6 4 xs
ipv6-Spells xs l b =
    let (
      (
        (a, ha),
        (
          (c, hc),
          ((d, hd), ((f, hf), ((g, hg), ((i, hi), ((j, hj), ((k, hk), ((port, hp), _))))))),
        ),
      ),
      e,
    ) =
      spelled 9 xs (omega arith) b in
    let h : IsTarget (ipv6 a c d f g i j k port) = (ha, hc, hd, hf, hg, hi, hj, hk, hp) in
    (ipv6 a c d f g i j k port, refl, h, e, λ rest. read_ipv6-address a c d f g i j k port rest h)

read_ipv4-Safe :
    (inbound : List ℕ) → All IsByte inbound → Safe (Reads 1 inbound) (read_ipv4 inbound)
read_ipv4-Safe inbound b = elim (Bool-cases (ltb (length inbound) 6)) [
  | inl short ↦ unfold read_ipv4 in rw short tt
  | inr long ↦
      let l = ltb→le _ _ long in
      let e = sym (take-append-drop 6 inbound) in
      Spells-Safe read_ipv4 1 (take 6 inbound) (drop 6 inbound) inbound
        (ipv4-Spells (take 6 inbound) (omega (arith, length-take 6 inbound))
          (All-front IsByte (take 6 inbound) (drop 6 inbound) (subst (All IsByte) e b)))
        e
]

read_ipv6-Safe :
    (inbound : List ℕ) → All IsByte inbound → Safe (Reads 4 inbound) (read_ipv6 inbound)
read_ipv6-Safe inbound b = elim (Bool-cases (ltb (length inbound) 18)) [
  | inl short ↦ unfold read_ipv6 in rw short tt
  | inr long ↦
      let l = ltb→le _ _ long in
      let e = sym (take-append-drop 18 inbound) in
      Spells-Safe read_ipv6 4 (take 18 inbound) (drop 18 inbound) inbound
        (ipv6-Spells (take 18 inbound) (omega (arith, length-take 18 inbound))
          (All-front IsByte (take 18 inbound) (drop 18 inbound) (subst (All IsByte) e b)))
        e
]

-- A name of the length that is told, and a port behind it.
domain-Safe :
    (len : ℕ) (name xs rest : List ℕ)
    → length name ≡ len
    → length xs ≡ 2
    → All IsByte xs
    → Safe (Reads 3 (len ∷ ((name ++ xs) ++ rest))) (read_domain (len ∷ ((name ++ xs) ++ rest)))
domain-Safe len name xs rest ln lx b =
    let (((port, h), _), e) = spelled 1 xs lx b in
    let whole : len ∷ ((name ++ xs) ++ rest) ≡ address (domain name port) ++ rest =
      ap₂ (λ n x. n ∷ ((name ++ x) ++ rest)) (sym ln) e in
    subst (λ i. Safe (Reads 3 i) (read_domain i)) (sym whole) (go port h (is_utf8 name) refl)
  where
    go :
        (port : ℕ)
        → port < 2 ^ 16
        → (u : Bool) → is_utf8 name ≡ u
        → Safe
            (Reads 3 (address (domain name port) ++ rest))
            (read_domain (address (domain name port) ++ rest))
    go port h true u = rw (read_domain-address name port rest u h) (refl, (u, h), refl)
    go port h false u =
        unfold read_domain in
        rw
          (
            read_exact-append 1 (length name ∷ []) ((name ++ to_be16 port) ++ rest) refl,
            read_exact-append (length name + 2) (name ++ to_be16 port) rest
                (length-append name (to_be16 port)),
            name_port-refuses name port u,
          )
          tt

read_domain-Safe :
    (inbound : List ℕ) → All IsByte inbound → Safe (Reads 3 inbound) (read_domain inbound)
read_domain-Safe [] b = unfold read_domain in tt
read_domain-Safe (len ∷ xs) b = elim (Bool-cases (ltb (length xs) (len + 2))) [
  | inl short ↦ unfold read_domain in rw (read_exact-append 1 (len ∷ []) xs refl, short) tt
  | inr long ↦
      let l = ltb→le _ _ long in
      let back = drop len xs in
      let e : (take len xs ++ take 2 back) ++ drop 2 back ≡ xs =
        append_assoc (take len xs) (take 2 back) (drop 2 back)
        ∙ ap (λ t. take len xs ++ t) (take-append-drop 2 back)
        ∙ take-append-drop len xs in
      let bytes =
        All-rest IsByte (take len xs) back
          (subst (All IsByte) (sym (take-append-drop len xs)) (b.1)) in
      subst (λ x. Safe (Reads 3 (len ∷ x)) (read_domain (len ∷ x))) e
        (domain-Safe len (take len xs) (take 2 back) (drop 2 back)
          (omega (arith, length-take len xs))
          (omega (arith, length-take 2 back, length-drop len xs))
          (All-front IsByte (take 2 back) (drop 2 back)
            (subst (All IsByte) (sym (take-append-drop 2 back)) bytes)))
]

pub read_target-Safe :
    (atyp : ℕ) (inbound : List ℕ)
    → All IsByte inbound
    → Safe (Reads atyp inbound) (read_target atyp inbound)
unfolding read_target
read_target-Safe atyp inbound b =
    if_split (Safe (Reads atyp inbound)) (atyp == 1)
      (λ e.
        subst (λ a. Safe (Reads a inbound) (read_ipv4 inbound)) (sym ((==_iff atyp 1).0 e))
          (read_ipv4-Safe inbound b))
      λ _.
        if_split (Safe (Reads atyp inbound)) (atyp == 4)
          (λ e.
            subst (λ a. Safe (Reads a inbound) (read_ipv6 inbound)) (sym ((==_iff atyp 4).0 e))
              (read_ipv6-Safe inbound b))
          λ _.
            if_split (Safe (Reads atyp inbound)) (atyp == 3)
              (λ e.
                subst (λ a. Safe (Reads a inbound) (read_domain inbound))
                  (sym ((==_iff atyp 3).0 e)) (read_domain-Safe inbound b))
              λ _. tt
