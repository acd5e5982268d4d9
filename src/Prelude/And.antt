-- ===== src/Prelude/And.antt =====
-- The binary digits that bitwise and tests.
use Prim.Native.Nat.{
  ℕ, zero, suc, ◌+◌, ◌*◌, ◌/◌, ◌%◌, ◌≤◌, ◌<◌, bit_and, digits, min, bit_and-bitwise,
}
use native.Mathlib.Omega.{arith}
use mathlib.Core.Path.{◌≡◌, refl, ap, sym, ◌∙◌}
use mathlib.Core.Logic.{inl, inr}
use vault_os.Prelude.Tests.{◌==◌, Bool-cases, ==→eq, ==→ne}

-- The and of two numbers, with fuel for the digits of the first.
abbrev with_fuel : ℕ → ℕ → ℕ → ℕ
with_fuel fuel x y = digits (λ b. zero) min fuel x y

with_fuel-suc : (fuel x y : ℕ) → x ≤ fuel → with_fuel (suc fuel) x y ≡ with_fuel fuel x y
with_fuel-suc zero (suc x) y short = absurd (omega arith)
with_fuel-suc zero zero y short = refl
with_fuel-suc (suc fuel) (suc x) y short =
    let halves = with_fuel-suc fuel (suc x / 2) (y / 2) (omega arith) in
    ap (λ n. n * 2 + min (suc x % 2) (y % 2)) halves
with_fuel-suc (suc fuel) zero y short = refl

with_fuel-enough : (fuel x y : ℕ) → x ≤ fuel → with_fuel fuel x y ≡ with_fuel x x y
with_fuel-enough zero x y short = let none : x ≡ 0 = omega arith in rw none refl
with_fuel-enough (suc fuel) x y short = elim (Bool-cases (x == suc fuel)) [
  | inl exact ↦ ap (λ f. with_fuel f x y) (sym (==→eq x (suc fuel) exact))
  | inr spare ↦
      let ne = ==→ne x (suc fuel) spare in
      with_fuel-suc fuel x y (omega arith) ∙ with_fuel-enough fuel x y (omega arith)
]

min_one : (a : ℕ) → a < 2 → min a 1 ≡ a
min_one zero h = refl
min_one (suc zero) h = refl
min_one (suc (suc a)) h = absurd (omega arith)

min_zero : (a : ℕ) → a < 2 → min a 0 ≡ 0
min_zero zero h = refl
min_zero (suc zero) h = refl
min_zero (suc (suc a)) h = absurd (omega arith)

zero_min : (b : ℕ) → min 0 b ≡ 0
zero_min b = omega arith

bit_and_step : (x y : ℕ) → bit_and x y ≡ bit_and (x / 2) (y / 2) * 2 + min (x % 2) (y % 2)
bit_and_step zero y =
    let top : bit_and 0 y ≡ 0 = bit_and-bitwise 0 y in
    let half : bit_and (0 / 2) (y / 2) ≡ 0 = bit_and-bitwise 0 (y / 2) in
    omega (arith, zero_min (y % 2))
bit_and_step (suc x) y =
    bit_and-bitwise (suc x) y
    ∙ ap (λ n. n * 2 + min (suc x % 2) (y % 2))
        (sym (
          bit_and-bitwise (suc x / 2) (y / 2)
          ∙ sym (with_fuel-enough x (suc x / 2) (y / 2) (omega arith))))

bit_and-no_bits : (fuel x : ℕ) → x ≤ fuel → bit_and x 0 ≡ 0
bit_and-no_bits zero zero h = refl
bit_and-no_bits zero (suc x) h = absurd (omega arith)
bit_and-no_bits (suc fuel) x h = elim (Bool-cases (x == 0)) [
  | inl none ↦ ap (λ n. bit_and n 0) (==→eq x 0 none)
  | inr more ↦
      let ne = ==→ne x 0 more in
      omega (
        arith,
        bit_and_step x 0,
        bit_and-no_bits fuel (x / 2) (omega arith),
        min_zero (x % 2) (omega arith),
      )
]

-- The digits 0, 1 and 2.
pub bit_and_one : (x : ℕ) → bit_and x 1 ≡ x % 2
bit_and_one x = omega (
  arith,
  bit_and_step x 1,
  bit_and-no_bits (x / 2) (x / 2) (omega arith),
  min_one (x % 2) (omega arith),
)

pub bit_and_two : (x : ℕ) → bit_and x 2 ≡ 2 * (x / 2 % 2)
bit_and_two x = omega (arith, bit_and_step x 2, bit_and_one (x / 2), min_zero (x % 2) (omega arith))

pub bit_and_four : (x : ℕ) → bit_and x 4 ≡ 4 * (x / 4 % 2)
bit_and_four x =
    omega (arith, bit_and_step x 4, bit_and_two (x / 2), min_zero (x % 2) (omega arith))
