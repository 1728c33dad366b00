-- ===== src/Base/Slice.antt =====
-- Slices and indices of Rust: out of range they panic.
use rsnova.Base.Lists.{length, get_elem?, take, drop}
use rsnova.Base.Outcome.{Outcome, ok, panic, or_panic}
use rsnova.Base.Tests.{ltb, if◌then◌else◌}
use Prim.Native.Nat.{ℕ}
use mathlib.Core.List.{List}

module _ {ℓ} {A : Type ℓ} where
  -- `&xs[..n]`
  abbrev pub slice_to : ℕ → List A → Outcome (List A)
  slice_to n xs = if ltb (length xs) n then panic else ok (take n xs)

  -- `&xs[n..]`
  abbrev pub slice_from : ℕ → List A → Outcome (List A)
  slice_from n xs = if ltb (length xs) n then panic else ok (drop n xs)

  -- `xs[i]`
  abbrev pub index : List A → ℕ → Outcome A
  index xs i = or_panic (get_elem? xs i)
