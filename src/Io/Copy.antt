-- ===== src/Io/Copy.antt =====
-- Where the bytes of the reader are while `BufCopy` (src/utils/io.rs) copies them.
use rsnova.Base.{
  ℕ, suc, ◌+◌, ◌-◌, ◌%◌, ◌^◌, ◌<◌, ◌≤◌, ◌≡◌, refl, sym, ◌∙◌, ap, ap₂, min, inl, inr, true, false,
  ◌&&◌, not, List, [], ◌∷◌, ◌++◌, length, take, drop, ltb, ltb→le, ◌==◌, ==_iff, Bool-cases,
  if_split, arith, append_assoc, append-nil, take-append-drop, length-append, length-take,
  length-drop, drop-all, drop-drop,
}
use rsnova.Io.{
  BufCopy, Answer, not_ready, broken, goes, Progress, copying, done, failed, buf_copy, read_some,
  write_some, flush, go_on, ask, poll,
}

-- What was copied, what is in the buffer and what is still to be read are the bytes of the reader.
pub record Copies (all : List ℕ) (c : BufCopy) : Type 0 where
  pub filled : length c.buf ≡ c.cap
  pub within : c.pos ≤ c.cap
  pub counted : c.amt ≡ length c.sink % 2 ^ 64
  pub order : c.sink ++ (drop c.pos c.buf ++ c.source) ≡ all
  pub ended : c.read_done ≡ true → c.source ≡ []

-- A copy that is done has copied everything and tells how many bytes that were.
abbrev pub Progresses : List ℕ → Progress → Type 0
Progresses all (copying c) = Copies all c
Progresses all (done n c) = (c.sink ≡ all) × (n ≡ length all % 2 ^ 64)
Progresses all (failed c) = Copies all c

nil_of_length : (xs : List ℕ) → length xs ≡ 0 → xs ≡ []
nil_of_length [] e = refl
nil_of_length (x ∷ xs) e = absurd (omega (arith, e))

read_some-Progresses :
    (all : List ℕ) (size : ℕ) (c : BufCopy) (a : Answer)
    → 0 < size
    → c.pos ≡ c.cap
    → c.read_done ≡ false
    → Copies all c
    → Progresses all (read_some size c a)
read_some-Progresses all size c not_ready s e r h = h
read_some-Progresses all size c broken s e r h = h
read_some-Progresses all size c (goes k) s e r h =
    let n = min (suc k) (min size (length c.source)) in
    elim (Bool-cases (n == 0)) [
      | inl z ↦ rw z (record {
        filled = h.filled;
        within = h.within;
        counted = h.counted;
        order = h.order;
        ended = λ _. nil_of_length c.source (omega (arith, (==_iff n 0).0 z, s));
      })
      | inr z ↦ rw z (record {
        filled = length-take n c.source ∙ omega arith;
        within = omega arith;
        counted = h.counted;
        order =
            ap (λ x. c.sink ++ x)
              (take-append-drop n c.source
                ∙ ap (λ x. x ++ c.source) (sym (drop-all c.pos c.buf (omega (arith, h.filled, e)))))
            ∙ h.order;
        ended = λ f. cc (sym r ∙ f);
      })
    ]

write_some-Progresses :
    (all : List ℕ) (c : BufCopy) (a : Answer) → Copies all c → Progresses all (write_some c a)
write_some-Progresses all c not_ready h = h
write_some-Progresses all c broken h = h
write_some-Progresses all c (goes k) h =
    let i = min k (c.cap - c.pos) in
    let rest = drop c.pos c.buf in
    elim (Bool-cases (i == 0)) [
      | inl z ↦ rw z h
      | inr z ↦ rw z (record {
        filled = h.filled;
        within = omega (arith, h.within);
        counted = omega (
          arith,
          h.counted,
          length-append c.sink (take i rest),
          length-take i rest,
          length-drop c.pos c.buf,
          h.filled,
        );
        order =
            append_assoc c.sink (take i rest) _
            ∙ ap (λ x. c.sink ++ x)
                (sym (append_assoc (take i rest) (drop (c.pos + i) c.buf) c.source)
                  ∙ ap (λ x. x ++ c.source)
                      (ap (λ x. take i rest ++ x) (sym (drop-drop i c.pos c.buf))
                        ∙ take-append-drop i rest))
            ∙ h.order;
        ended = h.ended;
      })
    ]

flush-Progresses :
    (all : List ℕ) (c : BufCopy) (a : Answer)
    → c.cap ≤ c.pos
    → c.read_done ≡ true
    → Copies all c
    → Progresses all (flush c a)
flush-Progresses all c not_ready l r h = h
flush-Progresses all c broken l r h = h
flush-Progresses all c (goes k) l r h =
    let everything : c.sink ≡ all =
      sym (append-nil c.sink)
      ∙ ap (λ x. c.sink ++ x)
          (sym
            (ap₂ (λ x y. x ++ y) (drop-all c.pos c.buf (omega (arith, h.filled, l))) (h.ended r)))
      ∙ h.order in
    (everything, h.counted ∙ ap (λ x. length x % 2 ^ 64) everything)

pub ask-Progresses :
    (all : List ℕ) (size : ℕ) (c : BufCopy) (a : Answer)
    → 0 < size
    → Copies all c
    → Progresses all (ask size c a)
unfolding ask
ask-Progresses all size c a s h =
    let P = Progresses all in
    if_split P (c.pos == c.cap && not c.read_done)
      (λ t. read_some-Progresses all size c a s (ground (arith, t)) (ground (arith, t)) h)
      (λ f.
        if_split P (ltb c.pos c.cap) (λ _. write_some-Progresses all c a h)
          (λ g.
            let l = ltb→le _ _ g in flush-Progresses all c a l (ground (arith, f, l, h.within)) h))

go_on-Progresses :
    (all : List ℕ) (later : BufCopy → Progress) (r : Progress)
    → ((c : BufCopy) → Copies all c → Progresses all (later c))
    → Progresses all r
    → Progresses all (go_on later r)
go_on-Progresses all later (copying c) h k = h c k
go_on-Progresses all later (done n c) h k = k
go_on-Progresses all later (failed c) h k = k

poll-Progresses :
    (all : List ℕ) (size : ℕ) (answers : List Answer) (c : BufCopy)
    → 0 < size
    → Copies all c
    → Progresses all (poll size answers c)
unfolding poll
poll-Progresses all size [] c s h = h
poll-Progresses all size (a ∷ answers) c s h =
    go_on-Progresses all (poll size answers) (ask size c a)
      (λ c' k. poll-Progresses all size answers c' s k) (ask-Progresses all size c a s h)

pub buf_copy-Copies : (all : List ℕ) → Copies all (buf_copy all)
unfolding buf_copy
buf_copy-Copies all = record {
  filled = refl;
  within = omega arith;
  counted = omega arith;
  order = refl;
  ended = λ f. cc f;
}

-- Into a buffer of one byte or more, and whatever the reader and the writer answer: at every point
-- the bytes that were written, those in the buffer and those still to be read are the bytes of the
-- reader in order, and a copy that is done has written all of them and returns their number, modulo
-- 2 ^ 64.
pub poll_lem :
    (all : List ℕ) (size : ℕ) (answers : List Answer)
    → 0 < size
    → Progresses all (poll size answers (buf_copy all))
poll_lem all size answers s =
    poll-Progresses all size answers (buf_copy all) s (buf_copy-Copies all)
