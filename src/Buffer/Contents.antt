-- ===== src/Buffer/Contents.antt =====
-- The operations of `VBuf` (src/utils/buf.rs) on the bytes that it stands for.
use rsnova.Base.{
  ℕ, ◌+◌, ◌-◌, ◌<◌, ◌≤◌, ◌≡◌, refl, sym, ◌∙◌, ap, inl, inr, List, [], ◌∷◌, ◌++◌, length, drop,
  concat, All, ltb, leb, arith, length-append, drop-append_ge, drop-drop, drop-all, Bool-cases,
  ltb→le, leb→le,
}
use rsnova.Buffer.{VBuf, advance, advance_loop, sum_lengths}

-- The bytes that are still to be written.
abbrev pub contents : VBuf → List ℕ
contents v = drop v.cur (concat v.inner)

abbrev pub IsFilled : List ℕ → Type 0
IsFilled c = 0 < length c

abbrev pub InFirst : ℕ → List (List ℕ) → Type 0
InFirst cur [] = cur ≡ 0
InFirst cur (c ∷ cs) = cur < length c

-- No buffer of the queue is empty, and the cursor stands inside the first one.
pub record IsWellFormed (v : VBuf) : Type 0 where
  pub filled : All IsFilled v.inner
  pub cursor : InFirst v.cur v.inner

pub length-concat : (cs : List (List ℕ)) → length (concat cs) ≡ sum_lengths cs
length-concat [] = refl
length-concat (c ∷ cs) = omega (arith, length-append c (concat cs), length-concat cs)

first_zero : (cs : List (List ℕ)) → All IsFilled cs → InFirst 0 cs
first_zero [] f = refl
first_zero (c ∷ cs) f = f.0

-- Dropping through the end of the first buffer.
drop_through :
    (c rest : List ℕ) (cur cnt : ℕ)
    → cur < length c
    → length c ≤ cur + cnt
    → drop (cnt - (length c - cur)) rest ≡ drop cnt (drop cur (c ++ rest))
drop_through c rest cur cnt i l =
    let e : cnt - (length c - cur) ≡ cur + cnt - length c = omega arith in
    ap (λ k. drop k rest) e
    ∙ sym (drop-append_ge (cur + cnt) c rest l)
    ∙ sym (drop-drop cnt cur (c ++ rest))

advance_loop_lem :
    (cs : List (List ℕ)) (cur cnt : ℕ)
    → All IsFilled cs
    → InFirst cur cs
    → IsWellFormed (advance_loop cs cur cnt)
      × (contents (advance_loop cs cur cnt) ≡ drop cnt (drop cur (concat cs)))
unfolding advance_loop
advance_loop_lem [] cur cnt f i = (
  record { filled = tt; cursor = i },
  drop-all cur [] (omega arith)
      ∙ sym (ap (drop cnt) (drop-all cur [] (omega arith)) ∙ drop-all cnt [] (omega arith)),
)
advance_loop_lem (c ∷ cs) cur cnt f i =
    let (w, e) = advance_loop_lem cs 0 (cnt - (length c - cur)) f.1 (first_zero cs f.1) in
    elim (Bool-cases (ltb 0 cnt)) [
      | inr stop ↦
          let z : cnt ≡ 0 = omega (arith, ltb→le 0 cnt stop) in
          rw (stop, z) (record { filled = f; cursor = i }, refl)
      | inl go ↦ elim (Bool-cases (leb (length c) (cur + cnt))) [
        | inl through ↦
            rw (go, through) (w, e ∙ drop_through c (concat cs) cur cnt i (leb→le _ _ through))
        | inr inside ↦
            rw (go, inside)
              (
                record { filled = f; cursor = ground arith },
                sym (drop-drop cnt cur (c ++ concat cs)),
              )
      ]
    ]

-- `advance` drops that many bytes from the front, of a well-formed buffer, and keeps it well formed.
pub advance_lem :
    (v : VBuf) (cnt : ℕ)
    → IsWellFormed v
    → IsWellFormed (advance v cnt) × (contents (advance v cnt) ≡ drop cnt (contents v))
unfolding advance
advance_lem v cnt w = advance_loop_lem v.inner v.cur cnt w.filled w.cursor
