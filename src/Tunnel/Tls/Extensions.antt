-- ===== src/Tunnel/Tls/Extensions.antt =====
-- The extensions of a ClientHello, and that the loop over them (src/tunnel/tls.rs) finds the name.
use rsnova.Base.{
  ℕ, zero, suc, ◌+◌, ◌*◌, ◌/◌, ◌%◌, ◌^◌, ◌<◌, ◌≤◌, ◌≡◌, refl, ◌∙◌, ap, false, none, some, List, [],
  ◌∷◌, ◌++◌, length, le→ltb, ◌==◌, arith, take-append, drop-append, length-append, All,
}
use rsnova.Base.Outcome.{ok, ◌>>=◌}
use rsnova.Base.Slice.{slice_from}
use rsnova.Tunnel.Tls.{or_go_on, find_name, server_name, scan_extensions}
use rsnova.Tunnel.Socks5.Handshake.{to_be16}

pub word-bytes : (w : ℕ) → w < 2 ^ 16 → w / 256 * 256 + w % 256 ≡ w
word-bytes w h = omega arith

-- An extension, by its type and its contents.
abbrev pub extension : ℕ × List ℕ → List ℕ → List ℕ
extension (t, c) more = to_be16 t ++ (to_be16 (length c) ++ (c ++ more))

abbrev pub extensions : List (ℕ × List ℕ) → List ℕ → List ℕ
extensions [] more = more
extensions (e ∷ es) more = extension e (extensions es more)

-- The contents of the extension that names the server: the length of the list of names, and one name
-- of the type of a host.
abbrev pub names : List ℕ → List ℕ
names name = to_be16 (3 + length name) ++ (0 ∷ (to_be16 (length name) ++ name))

-- An extension of another type.
abbrev pub IsOther : ℕ × List ℕ → Type 0
IsOther (t, c) = (0 < t) × (t < 2 ^ 16) × (length c < 2 ^ 16)

pub slice_from-append : (n : ℕ) (xs ys : List ℕ) → length xs ≡ n → slice_from n (xs ++ ys) ≡ ok ys
slice_from-append n xs ys h =
    rw (le→ltb (length (xs ++ ys)) n (omega (arith, h, length-append xs ys)), drop-append n xs ys h)
      refl

find_name-name :
    (k : ℕ) (name tail : List ℕ)
    → 0 < k
    → length name < 2 ^ 16
    → find_name k (0 ∷ (to_be16 (length name) ++ (name ++ tail))) ≡ ok (some name)
unfolding find_name
find_name-name zero name tail pos_k h = absurd (omega arith)
find_name-name (suc k) name tail pos_k h =
    let e1 = le→ltb (length (0 ∷ (to_be16 (length name) ++ (name ++ tail)))) 3 (omega arith) in
    let e2 = word-bytes (length name) h in
    let e3 =
      le→ltb (length (name ++ tail)) (length name) (omega (arith, length-append name tail)) in
    rw (e1, e2, e3, take-append (length name) name tail refl) refl

server_name-names :
    (len : ℕ) (name tail : List ℕ)
    → 2 ≤ len
    → 3 + length name < 2 ^ 16
    → server_name 0 len (names name ++ tail) ≡ ok (some name)
unfolding server_name
server_name-names len name tail big h =
    let e1 = le→ltb len 2 big in
    let e2 = word-bytes (3 + length name) h in
    let e3 =
      slice_from-append 2 (to_be16 (3 + length name))
        (0 ∷ (to_be16 (length name) ++ (name ++ tail))) refl in
    rw (e1, e2, e3) (find_name-name (3 + length name) name tail (omega arith) (omega arith))

other-server_name : (t len : ℕ) (buf : List ℕ) → 0 < t → server_name t len buf ≡ ok none
unfolding server_name
other-server_name t len buf h = let e : (t == 0) ≡ false = ground arith in rw e refl

-- The head of an extension, read off its bytes.
scan-head :
    (fuel t : ℕ) (c more : List ℕ)
    → t < 2 ^ 16
    → length c < 2 ^ 16
    → scan_extensions (suc fuel) (extension (t, c) more)
      ≡ (server_name t (length c) (c ++ more) >>= or_go_on (scan_extensions fuel more))
unfolding scan_extensions
scan-head fuel t c more ht hc =
    let e1 = le→ltb (length (extension (t, c) more)) 4 (omega arith) in
    let e2 = word-bytes t ht in
    let e3 = word-bytes (length c) hc in
    let e5 = le→ltb (length (c ++ more)) (length c) (omega (arith, length-append c more)) in
    let e6 = drop-append (length c) c more refl in rw (e1, e2, e3, e5, e6) refl

pub scan_extensions-names :
    (fuel : ℕ) (before : List (ℕ × List ℕ)) (name after : List ℕ)
    → length before < fuel
    → All IsOther before
    → 5 + length name < 2 ^ 16
    → scan_extensions fuel (extensions before (extension (0, names name) after)) ≡ ok name
scan_extensions-names zero before name after l o h = absurd (omega arith)
scan_extensions-names (suc fuel) [] name after l o h =
    scan-head fuel 0 (names name) after (omega arith) (omega arith)
    ∙ ap (λ r. r >>= or_go_on (scan_extensions fuel after))
        (server_name-names (length (names name)) name after (omega arith) (omega arith))
scan_extensions-names (suc fuel) ((t, c) ∷ es) name after l ((pos_t, ht, hc), o) h =
    let more = extensions es (extension (0, names name) after) in
    scan-head fuel t c more ht hc
    ∙ ap (λ r. r >>= or_go_on (scan_extensions fuel more))
        (other-server_name t (length c) (c ++ more) pos_t)
    ∙ scan_extensions-names fuel es name after (omega arith) o h
