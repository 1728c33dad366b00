-- ===== src/Tunnel/Http/Tail.antt =====
-- The last bytes of a body, as `check_body_complete_and_fill_read_buf` (src/tunnel/http.rs) keeps
-- them, and what it makes of them.
use rsnova.Base.{
  ℕ, suc, ◌-◌, ◌<◌, ◌≤◌, ◌≡◌, refl, sym, ◌∙◌, ap, ◌↔◌, inl, inr, true, List, [], ◌∷◌, ◌++◌, length,
  drop, take, ltb, ltb→lt, ltb→le, arith, Bool-cases, append-nil, append_assoc, length-append,
  length-drop, drop-drop, drop-append_le, drop-append_ge, take-append-drop,
}
use rsnova.Base.Int.{pos, negsuc, sub_ℕ}
use rsnova.Base.Outcome.{ok}
use rsnova.Buffer.Views.{fill_read_buf-fits}
use rsnova.Tunnel.Http.Body.{
  pop_front, push_tail, push_all, next_tail, is_last_chunk, Checked, is_zero,
  check_body_complete_and_fill_read_buf,
}

-- The last `n` elements.
abbrev pub keep : ℕ → List ℕ → List ℕ
keep n xs = drop (length xs - n) xs

abbrev pub last_chunk : List ℕ
last_chunk = b'0' ∷ 13 ∷ 10 ∷ 13 ∷ 10 ∷ []

keep-keep-append : (n : ℕ) (xs ys : List ℕ) → keep n (keep n xs ++ ys) ≡ keep n (xs ++ ys)
keep-keep-append n xs ys =
    let k = length xs - n in
    let e : drop k xs ++ ys ≡ drop k (xs ++ ys) = sym (drop-append_le k xs ys (omega arith)) in
    ap (keep n) e
    ∙ drop-drop (length (drop k (xs ++ ys)) - n) k (xs ++ ys)
    ∙ ap (λ j. drop j (xs ++ ys)) (omega (arith, length-drop k (xs ++ ys), length-append xs ys))

keep-long : (n : ℕ) (xs ys : List ℕ) → n ≤ length ys → keep n (xs ++ ys) ≡ keep n ys
keep-long n xs ys h =
    drop-append_ge (length (xs ++ ys) - n) xs ys (omega (arith, length-append xs ys))
    ∙ ap (λ j. drop j ys) (omega (arith, length-append xs ys))

length-keep : (n : ℕ) (xs : List ℕ) → length (keep n xs) ≤ n
length-keep n xs = omega (arith, length-drop (length xs - n) xs)

keep-short : (n : ℕ) (xs : List ℕ) → length xs ≤ n → keep n xs ≡ xs
keep-short n xs h = let e : length xs - n ≡ 0 = omega arith in ap (λ j. drop j xs) e

push_tail-keep : (t : List ℕ) (b : ℕ) → length t ≤ 5 → push_tail t b ≡ keep 5 (t ++ (b ∷ []))
push_tail-keep t b h = elim (Bool-cases (ltb 5 (length (t ++ (b ∷ []))))) [
  | inl long ↦
      rw long
        (front_off t (t ++ (b ∷ [])) (omega (arith, length-append t (b ∷ []), ltb→lt _ _ long)))
  | inr short ↦ rw short (sym (keep-short 5 (t ++ (b ∷ [])) (ltb→le _ _ short)))
]
  where
    front_off : (t longer : List ℕ) → length longer ≡ 6 → pop_front longer ≡ keep 5 longer
    front_off t [] h = absurd (omega (arith, h))
    front_off t (x ∷ xs) h =
        let e : suc (length xs) - 5 ≡ 1 = omega arith in sym (ap (λ j. drop j (x ∷ xs)) e)

push_all-keep : (bs t : List ℕ) → length t ≤ 5 → push_all bs t ≡ keep 5 (t ++ bs)
unfolding push_all
push_all-keep [] t h = sym (keep-short 5 t h) ∙ ap (keep 5) (sym (append-nil t))
push_all-keep (b ∷ bs) t h =
    let e = push_tail-keep t b h in
    push_all-keep bs (push_tail t b) (omega (arith, ap length e, length-keep 5 (t ++ (b ∷ []))))
    ∙ ap (λ x. keep 5 (x ++ bs)) e
    ∙ keep-keep-append 5 (t ++ (b ∷ [])) bs
    ∙ ap (keep 5) (append_assoc t (b ∷ []) bs)

next_tail-keep : (buf t : List ℕ) → length t ≤ 5 → next_tail buf t ≡ keep 5 (t ++ buf)
unfolding next_tail
next_tail-keep buf t h = elim (Bool-cases (ltb 5 (length buf))) [
  | inl long ↦ rw long (
      push_all-keep (keep 5 buf) [] (omega arith)
      ∙ keep-short 5 (keep 5 buf) (length-keep 5 buf)
      ∙ sym (keep-long 5 t buf (omega (arith, ltb→lt _ _ long))))
  | inr short ↦ rw short (push_all-keep buf t h)
]

pub is_last_chunk-only : (t : List ℕ) → is_last_chunk t ≡ true → t ≡ last_chunk
unfolding is_last_chunk
is_last_chunk-only (a ∷ b ∷ c ∷ d ∷ e ∷ []) h = ground arith
is_last_chunk-only [] h = cc
is_last_chunk-only (a ∷ []) h = cc
is_last_chunk-only (a ∷ b ∷ []) h = cc
is_last_chunk-only (a ∷ b ∷ c ∷ []) h = cc
is_last_chunk-only (a ∷ b ∷ c ∷ d ∷ []) h = cc
is_last_chunk-only (a ∷ b ∷ c ∷ d ∷ e ∷ x ∷ xs) h = cc

-- The text ends with `0\r\n\r\n`.
abbrev pub EndsChunks : List ℕ → Type 0
EndsChunks xs = (front : List ℕ) × (xs ≡ front ++ last_chunk)

pub is_last_chunk_iff : (xs : List ℕ) → (is_last_chunk (keep 5 xs) ≡ true) ↔ EndsChunks xs
is_last_chunk_iff xs = (
  λ h. (
    take (length xs - 5) xs,
    sym (take-append-drop (length xs - 5) xs)
        ∙ ap (λ t. take (length xs - 5) xs ++ t) (is_last_chunk-only (keep 5 xs) h),
  ),
  λ (front, e).
      unfold is_last_chunk in rw (ap (keep 5) e ∙ keep-long 5 front last_chunk (omega arith)) refl,
)

-- The call on a chunked body, as a value.
pub check_chunked :
    (seen buf : List ℕ) (dst_len n : ℕ)
    → length buf ≤ dst_len
    → check_body_complete_and_fill_read_buf buf dst_len (keep 5 seen) (negsuc n)
      ≡ ok (record {
        complete = is_last_chunk (keep 5 (seen ++ buf));
        out = buf;
        recv_buf = [];
        tail = keep 5 (seen ++ buf);
        body_len = negsuc n;
      })
unfolding check_body_complete_and_fill_read_buf
check_chunked seen buf dst_len n h =
    let t = next_tail-keep buf (keep 5 seen) (length-keep 5 seen) ∙ keep-keep-append 5 seen buf in
    rw (fill_read_buf-fits buf dst_len h, t) refl

-- A chunked body. `seen` is what the earlier calls have had, of which the tail keeps the last five
-- bytes; the call has `buf` and room for it. It hands `buf` on, keeps the last five bytes of all of
-- it, and says that the body is complete if and only if all of it ends with `0\r\n\r\n`,
-- however it was cut.
pub check-Chunked :
    (seen buf : List ℕ) (dst_len n : ℕ)
    → length buf ≤ dst_len
    → (c : Checked) × (check_body_complete_and_fill_read_buf buf dst_len (keep 5 seen) (negsuc n)
        ≡ ok c)
      × (c.out ≡ buf)
      × (c.recv_buf ≡ [])
      × (c.tail ≡ keep 5 (seen ++ buf))
      × (c.body_len ≡ negsuc n)
      × ((c.complete ≡ true) ↔ EndsChunks (seen ++ buf))
check-Chunked seen buf dst_len n h =
    (_, check_chunked seen buf dst_len n h, refl, refl, refl, refl, is_last_chunk_iff (seen ++ buf))

-- A body of a known length, of which `suc m` bytes are still to come, in a call that has `buf` and
-- room for it: the call hands all of `buf` on, and the body is complete just if that is all of it.
-- If it is less, the rest is still to come; if it is more, the count goes below zero, where it
-- stands for a chunked body.
pub check-Sized :
    (buf tail : List ℕ) (dst_len m : ℕ)
    → length buf ≤ dst_len
    → (c : Checked) × (check_body_complete_and_fill_read_buf buf dst_len tail (pos (suc m)) ≡ ok c)
      × (c.out ≡ buf)
      × (c.recv_buf ≡ [])
      × (c.tail ≡ tail)
      × ((c.complete ≡ true) ↔ (length buf ≡ suc m))
      × (length buf ≤ suc m → c.body_len ≡ pos (suc m - length buf))
      × (suc m < length buf → c.body_len ≡ negsuc (length buf - suc m - 1))
unfolding check_body_complete_and_fill_read_buf
check-Sized buf tail dst_len m h = (
  record {
    complete = is_zero (sub_ℕ (suc m) (length buf));
    out = buf;
    recv_buf = [];
    tail = tail;
    body_len = sub_ℕ (suc m) (length buf);
  },
  rw (fill_read_buf-fits buf dst_len h) refl,
  refl,
  refl,
  refl,
  ground arith,
  λ l. ground arith,
  λ l. ground arith,
)
