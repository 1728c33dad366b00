-- ===== src/Tests/Copying.antt =====
-- A copy through a buffer of two bytes.
use rsnova.Base.{ℕ, List, [], ◌∷◌, arith}
use rsnova.Io.{Answer, not_ready, goes, buf_copy, poll}
use rsnova.Io.Copy.{Progresses, poll_lem}

abbrev all : List ℕ
all = 1 ∷ 2 ∷ 3 ∷ []

abbrev answers : List Answer
answers = not_ready ∷ goes 5 ∷ goes 1 ∷ not_ready ∷ goes 9 ∷ goes 7 ∷ goes 1 ∷ goes 0 ∷ goes 0 ∷ []

poll_lem_example : Progresses all (poll 2 answers (buf_copy all))
poll_lem_example = poll_lem all 2 answers (omega arith)
