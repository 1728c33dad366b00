-- ===== src/Buffer.antt =====
-- src/utils/buf.rs: `fill_read_buf`, and the queue of buffers `VBuf` that the session writes from.
pub mod Contents
pub mod Views
use rsnova.Base.{
  ℕ, zero, suc, ◌+◌, ◌-◌, Bool, true, false, ◌||◌, List, [], ◌∷◌, ◌++◌, length, take, drop, min,
  ltb, leb, ◌==◌, if◌then◌else◌,
}
use rsnova.Base.Outcome.{Outcome, ok, panic, ◌>>=◌}
use rsnova.Base.Slice.{slice_from}

abbrev pub is_nil {ℓ} : {A : Type ℓ} → List A → Bool
is_nil [] = true
is_nil (x ∷ xs) = false

-- What was copied to the destination of `dst_len` bytes, and what is left of the source. The range
-- `dst[0..n]` panics where the destination is shorter.
unfoldable pub fill_read_buf : List ℕ → ℕ → Outcome (List ℕ × List ℕ)
fill_read_buf [] dst_len = ok ([], [])
fill_read_buf (b ∷ bs) dst_len =
    let src = b ∷ bs in
    let n = if ltb (length src) (length src) then length src else length src in
    if ltb dst_len n then panic else ok (take n src, drop n src)

abbrev pub max_vec_buf : ℕ
max_vec_buf = 64

pub record VBuf : Type 0 where
  pub cur : ℕ
  pub inner : List (List ℕ)

unfoldable pub new : VBuf
new = record { cur = 0; inner = [] }

unfoldable pub vlen : VBuf → ℕ
vlen v = length v.inner

unfoldable pub push : VBuf → List ℕ → VBuf × Bool
push v dat =
    if leb max_vec_buf (length v.inner) || is_nil dat
    then (v, false)
    else (record v { inner = v.inner ++ (dat ∷ []) }, true)

abbrev pub sum_lengths : List (List ℕ) → ℕ
sum_lengths [] = 0
sum_lengths (c ∷ cs) = length c + sum_lengths cs

-- `sum - self.cur`, which the well-formedness of the buffer keeps from going below zero.
unfoldable pub remaining : VBuf → ℕ
remaining v = sum_lengths v.inner - v.cur

bytes_of : List (List ℕ) → ℕ → Outcome (List ℕ)
bytes_of [] cur = ok []
bytes_of (c ∷ cs) cur = slice_from cur c

unfoldable pub bytes : VBuf → Outcome (List ℕ)
unfolding bytes_of
bytes v = bytes_of v.inner v.cur

-- `while !self.inner.is_empty() && cnt > 0`: each round takes a buffer off, or returns.
advance_loop : List (List ℕ) → ℕ → ℕ → VBuf
advance_loop [] cur cnt = record { cur = cur; inner = [] }
advance_loop (c ∷ cs) cur cnt =
    let dropped = advance_loop cs 0 (cnt - (length c - cur)) in
    if ltb 0 cnt
    then if leb (length c) (cur + cnt) then dropped else record { cur = cur + cnt; inner = c ∷ cs }
    else record { cur = cur; inner = c ∷ cs }

unfoldable pub advance : VBuf → ℕ → VBuf
unfolding advance_loop
advance v cnt = advance_loop v.inner v.cur cnt

-- `for i in 1..len { dst[i] = IoSlice::new(&self.inner[i]) }`
abbrev pub tail_slices : ℕ → List (List ℕ) → List (List ℕ)
tail_slices n [] = []
tail_slices n (c ∷ cs) = take (n - 1) cs

-- The slices that go into a destination of `dst_len` places.
unfoldable pub bytes_vectored : VBuf → ℕ → Outcome (List (List ℕ))
unfolding bytes
bytes_vectored v dst_len =
    let n = min (length v.inner) dst_len in
    if ltb 0 n then (do first ← bytes v; ok (first ∷ tail_slices n v.inner)) else ok []
