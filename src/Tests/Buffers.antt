-- ===== src/Tests/Buffers.antt =====
-- The queue of outgoing buffers.
use rsnova.Base.{◌≡◌, [], ◌∷◌, drop, arith}
use rsnova.Buffer.{VBuf, advance}
use rsnova.Buffer.Contents.{contents, IsWellFormed, advance_lem}

abbrev buffer : VBuf
buffer = record { cur = 1; inner = (1 ∷ 2 ∷ 3 ∷ []) ∷ (4 ∷ []) ∷ (5 ∷ 6 ∷ []) ∷ [] }

well_formed : IsWellFormed buffer
well_formed = record {
  filled = (omega arith, (omega arith, (omega arith, tt)));
  cursor = omega arith;
}

advance_lem_example :
    IsWellFormed (advance buffer 4) × (contents (advance buffer 4) ≡ drop 4 (contents buffer))
advance_lem_example = advance_lem buffer 4 well_formed
