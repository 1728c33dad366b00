-- ===== src/Base/Bits.antt =====
-- The native bit operations as arithmetic: low masks, and a union of separate bits.
use Prim.Native.Nat.{
  digits, bit_and, bit_or, bit_and-bitwise, bit_or-bitwise, min, max, ◌/◌, ◌%◌, ◌*◌, ◌+◌, ◌<◌, ◌≤◌,
  zero, suc, ℕ,
}
use mathlib.Core.Path.{◌≡◌, refl, ◌∙◌}
use native.Mathlib.Omega.{arith}

-- Both operations go through the digits of the first number, with `edge` for what the second one
-- has left; any fuel that is no less than the first number serves.
module _ (edge : ℕ → ℕ) (digit : ℕ → ℕ → ℕ) where
  digits-enough :
      (x y : ℕ) (fuel spare : ℕ)
      → x ≤ spare
      → x ≤ fuel
      → digits edge digit fuel x y ≡ digits edge digit spare x y
  digits-enough zero y zero zero k l = refl
  digits-enough zero y zero (suc spare) k l = refl
  digits-enough zero y (suc fuel) zero k l = refl
  digits-enough zero y (suc fuel) (suc spare) k l = refl
  digits-enough (suc x) y zero spare k l = absurd (omega arith)
  digits-enough (suc x) y (suc fuel) zero k l = absurd (omega arith)
  digits-enough (suc x) y (suc fuel) (suc spare) k l =
      let half = digits-enough (suc x / 2) (y / 2) fuel spare (omega arith) (omega arith) in
      omega (arith, half)

-- The lowest digit of both, and the rest.
pub bit_and-step : (x y : ℕ) → bit_and x y ≡ min (x % 2) (y % 2) + 2 * bit_and (x / 2) (y / 2)
bit_and-step zero y = omega (arith, bit_and-bitwise 0 y, bit_and-bitwise 0 (y / 2))
bit_and-step (suc x) y =
    let h = suc x / 2 in
    let half = digits-enough (λ t. zero) min h (y / 2) x h (omega arith) (omega arith) in
    omega (arith, half, bit_and-bitwise h (y / 2), bit_and-bitwise (suc x) y)

pub zero-bit_or : (b : ℕ) → bit_or 0 b ≡ b
zero-bit_or b = bit_or-bitwise 0 b

pub bit_or-step : (x y : ℕ) → bit_or x y ≡ max (x % 2) (y % 2) + 2 * bit_or (x / 2) (y / 2)
bit_or-step zero y = omega (arith, zero-bit_or y, zero-bit_or (y / 2))
bit_or-step (suc x) y =
    let h = suc x / 2 in
    let half = digits-enough (λ t. t) max h (y / 2) x h (omega arith) (omega arith) in
    omega (arith, half, bit_or-bitwise h (y / 2), bit_or-bitwise (suc x) y)

bit_or-zero_fuel : (n a : ℕ) → a ≤ n → bit_or a 0 ≡ a
bit_or-zero_fuel n zero h = refl
bit_or-zero_fuel zero (suc a) h = absurd (omega arith)
bit_or-zero_fuel (suc n) (suc a) h =
    omega (arith, bit_or-step (suc a) 0, bit_or-zero_fuel n (suc a / 2) (omega arith))

pub bit_or-zero : (a : ℕ) → bit_or a 0 ≡ a
bit_or-zero a = bit_or-zero_fuel a a (omega arith)

bit_and-nothing : (bound x : ℕ) → x ≤ bound → bit_and x 0 ≡ 0
bit_and-nothing bound zero l = refl
bit_and-nothing zero (suc x) l = absurd (omega arith)
bit_and-nothing (suc bound) (suc x) l =
    let half = bit_and-nothing bound (suc x / 2) (omega arith) in
    omega (arith, half, bit_and-step (suc x) 0)

bit_or-double : (b f : ℕ) → bit_or (2 * b) f ≡ 2 * bit_or b (f / 2) + f % 2
bit_or-double b f =
    let e : 2 * b / 2 ≡ b = omega arith in
    let s : bit_or (2 * b) f ≡ max (2 * b % 2) (f % 2) + 2 * bit_or b (f / 2) =
      rw e at (bit_or-step (2 * b) f) in
    omega arith

-- `a << k`, by doubling.
abbrev doubled : ℕ → ℕ → ℕ
doubled zero a = a
doubled (suc k) a = 2 * doubled k a

-- A number shifted left by `k` and a number below 2 ^ k have no bit in common.
bit_or-doubled : (k a f : ℕ) → f < doubled k 1 → bit_or (doubled k a) f ≡ doubled k a + f
bit_or-doubled zero a f h = let z : f ≡ 0 = omega arith in rw z (bit_or-zero a ∙ omega arith)
bit_or-doubled (suc k) a f h =
    omega (arith, bit_or-double (doubled k a) f, bit_or-doubled k a (f / 2) (omega arith))

pub bit_or-shl_byte : (a f : ℕ) → f < 256 → bit_or (a * 256) f ≡ a * 256 + f
bit_or-shl_byte a f h =
    let e : a * 256 ≡ doubled 8 a = omega arith in rw e (bit_or-doubled 8 a f (omega arith))

bit_and_one : (a : ℕ) → bit_and a 1 ≡ a % 2
bit_and_one a = omega (arith, bit_and-step a 1, bit_and-nothing (a / 2) (a / 2) (omega arith))

bit_and_fifteen : (a : ℕ) → bit_and a 15 ≡ a % 16
bit_and_fifteen a = omega (
  arith,
  bit_and-step a 15,
  bit_and-step (a / 2) 7,
  bit_and-step (a / 2 / 2) 3,
  bit_and_one (a / 2 / 2 / 2),
)

pub bit_and_byte : (a : ℕ) → bit_and a 255 ≡ a % 256
bit_and_byte a = omega (
  arith,
  bit_and-step a 255,
  bit_and-step (a / 2) 127,
  bit_and-step (a / 2 / 2) 63,
  bit_and-step (a / 2 / 2 / 2) 31,
  bit_and_fifteen (a / 2 / 2 / 2 / 2),
)
