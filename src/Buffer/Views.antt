-- ===== src/Buffer/Views.antt =====
-- `push` and the reading side of `VBuf`, and `fill_read_buf` (src/utils/buf.rs).
use rsnova.Base.{
  ℕ, zero, suc, ◌+◌, ◌-◌, ◌<◌, ◌≤◌, ◌≡◌, refl, sym, ◌∙◌, ap, ◌⊎◌, inl, inr, true, false, List, [],
  ◌∷◌, ◌++◌, length, take, drop, concat, All, min, ltb, leb, arith, if◌then◌else◌, length-append,
  append_assoc, append-nil, drop-append_le, length-drop, le→ltb, lt→ltb, drop-all, take-all,
  Bool-cases, ltb→lt, ltb→le, leb→le, take-append-drop, concat-append,
}
use rsnova.Base.Outcome.{ok, panic}
use rsnova.Buffer.Contents.{contents, IsFilled, InFirst, IsWellFormed, length-concat}
use rsnova.Buffer.{VBuf, fill_read_buf, push, remaining, bytes_vectored, vlen}

IsFilled-append :
    (cs : List (List ℕ)) (d : List ℕ) → All IsFilled cs → IsFilled d → All IsFilled (cs ++ (d ∷ []))
IsFilled-append [] d f h = (h, tt)
IsFilled-append (c ∷ cs) d f h = (f.0, IsFilled-append cs d f.1 h)

first-append :
    (cs : List (List ℕ)) (d : List ℕ) (cur : ℕ)
    → InFirst cur cs
    → IsFilled d
    → InFirst cur (cs ++ (d ∷ []))
first-append [] d cur i h = omega arith
first-append (c ∷ cs) d cur i h = i

cursor-le : (cs : List (List ℕ)) (cur : ℕ) → InFirst cur cs → cur ≤ length (concat cs)
cursor-le [] cur i = omega arith
cursor-le (c ∷ cs) cur i = omega (arith, length-append c (concat cs))

contents-append :
    (cs : List (List ℕ)) (d : List ℕ) (cur : ℕ)
    → InFirst cur cs
    → drop cur (concat (cs ++ (d ∷ []))) ≡ drop cur (concat cs) ++ d
contents-append cs d cur i =
    ap (drop cur) (concat-append cs (d ∷ []) ∙ ap (◌++◌ (concat cs)) (append-nil d))
    ∙ drop-append_le cur (concat cs) d (cursor-le cs cur i)

-- `push` on a well-formed queue: it takes a buffer that is not empty while fewer than 64 are queued,
-- and puts its bytes behind the others; it refuses any other, and changes nothing then.
pub push_cases :
    (v : VBuf) (d : List ℕ)
    → IsWellFormed v
    → ((vlen v < 64)
        × (0 < length d)
        × ((push v d).1 ≡ true)
        × IsWellFormed (push v d).0
        × (contents (push v d).0 ≡ contents v ++ d)
        × (vlen (push v d).0 ≡ vlen v + 1))
      ⊎ (((64 ≤ vlen v) ⊎ (d ≡ [])) × (push v d ≡ (v, false)))
unfolding push vlen
push_cases v [] w = inr (inr refl, ground arith)
push_cases v (x ∷ xs) w = elim (Bool-cases (leb 64 (length v.inner))) [
  | inl full ↦ inr (inl (leb→le _ _ full), rw full)
  | inr room ↦
      let filled_d : IsFilled (x ∷ xs) = omega arith in
      inl (
        ground arith,
        filled_d,
        rw room,
        rw room (record {
          filled = IsFilled-append v.inner (x ∷ xs) w.filled filled_d;
          cursor = first-append v.inner (x ∷ xs) v.cur w.cursor filled_d;
        }),
        rw room (contents-append v.inner (x ∷ xs) v.cur w.cursor),
        rw room (omega (arith, length-append v.inner ((x ∷ xs) ∷ []))),
      )
]

pub remaining_lem : (v : VBuf) → remaining v ≡ length (contents v)
unfolding remaining
remaining_lem v = omega (arith, length-drop v.cur (concat v.inner), length-concat v.inner)

min-zero : (a : ℕ) → min a 0 ≡ 0
min-zero a = omega arith

zero-min : (a : ℕ) → min 0 a ≡ 0
zero-min a = omega arith

min-suc : (a b : ℕ) → min (suc a) (suc b) ≡ suc (min a b)
min-suc a b = omega arith

take-min {ℓ} : {A : Type ℓ} (n : ℕ) (xs : List A) → take (min (length xs) n) xs ≡ take n xs
take-min zero [] = refl
take-min {A = A} (suc n) [] = ap (λ k. take {A = A} k []) (zero-min (suc n))
take-min zero (x ∷ xs) = ap (λ k. take k (x ∷ xs)) (min-zero (suc (length xs)))
take-min (suc n) (x ∷ xs) =
    ap (λ k. take k (x ∷ xs)) (min-suc (length xs) n) ∙ ap (◌∷◌ x) (take-min n xs)

pub concat-cut : (n : ℕ) (cs : List (List ℕ)) → concat (take n cs) ++ concat (drop n cs) ≡ concat cs
concat-cut n cs = sym (concat-append (take n cs) (drop n cs)) ∙ ap concat (take-append-drop n cs)

bytes_vectored_of :
    (c : List ℕ) (cs : List (List ℕ)) (cur m : ℕ)
    → cur < length c
    → (s : List (List ℕ)) × (bytes_vectored (record { cur = cur; inner = c ∷ cs }) (suc m) ≡ ok s)
      × (concat s ++ concat (drop m cs) ≡ drop cur (c ++ concat cs))
unfolding bytes_vectored
bytes_vectored_of c cs cur m i =
    let n = min (suc (length cs)) (suc m) in
    let e : n - 1 ≡ min (length cs) m = omega arith in
    (
      drop cur c ∷ take (n - 1) cs,
      rw (lt→ltb 0 n (omega arith), le→ltb (length c) cur (omega arith)),
      append_assoc (drop cur c) (concat (take (n - 1) cs)) (concat (drop m cs))
          ∙ ap (◌++◌ (drop cur c)) (
              ap (λ k. concat (take k cs) ++ concat (drop m cs)) e
              ∙ ap (λ t. concat t ++ concat (drop m cs)) (take-min m cs)
              ∙ concat-cut m cs)
          ∙ sym (drop-append_le cur c (concat cs) (omega arith)),
    )

-- Into one place or more, the slices of a well-formed queue hold its bytes in order, from the first
-- on; what is missing is the buffers that have no place.
pub bytes_vectored_lem :
    (v : VBuf) (m : ℕ)
    → IsWellFormed v
    → (s : List (List ℕ)) × (bytes_vectored v (suc m) ≡ ok s)
      × (concat s ++ concat (drop (suc m) v.inner) ≡ contents v)
bytes_vectored_lem v m w = go v.cur v.inner w.cursor
  where
    go :
        (cur : ℕ) (cs : List (List ℕ))
        → InFirst cur cs
        → (s : List (List ℕ)) × (bytes_vectored (record { cur = cur; inner = cs }) (suc m) ≡ ok s)
          × (concat s ++ concat (drop (suc m) cs) ≡ drop cur (concat cs))
    go cur [] i = (
      [],
      unfold bytes_vectored in rw (le→ltb 0 (min 0 (suc m)) (omega arith)),
      sym (drop-all cur [] (omega arith)),
    )
    go cur (c ∷ cs) i = bytes_vectored_of c cs cur m i

-- The copy moves the whole source, where the destination has room for it, and panics wherever the
-- source is the longer of the two.
pub fill_read_buf_cases :
    (src : List ℕ) (dst_len : ℕ)
    → ((length src ≤ dst_len) × (fill_read_buf src dst_len ≡ ok (src, [])))
      ⊎ ((dst_len < length src) × (fill_read_buf src dst_len ≡ panic))
unfolding fill_read_buf
fill_read_buf_cases [] dst_len = inl (omega arith, refl)
fill_read_buf_cases (b ∷ bs) dst_len =
    let src = b ∷ bs in
    let same : (if ltb (length src) (length src) then length src else length src) ≡ length src =
      ground arith in
    elim (Bool-cases (ltb dst_len (length src))) [
      | inl long ↦ inr (ltb→lt _ _ long, rw (same, long))
      | inr fits ↦ inl (
        ltb→le _ _ fits,
        rw (same, fits)
            (λ i. ok (
              take-all (length src) src (omega arith) i,
              drop-all (length src) src (omega arith) i,
            )),
      )
    ]

-- A source that fits the destination is copied whole.
pub fill_read_buf-fits :
    (src : List ℕ) (dst_len : ℕ) → length src ≤ dst_len → fill_read_buf src dst_len ≡ ok (src, [])
fill_read_buf-fits src dst_len h = elim (fill_read_buf_cases src dst_len) [
  | inl (_, e) ↦ e
  | inr (long, _) ↦ absurd (omega arith)
]
