-- ===== src/Prelude/Xor.antt =====
-- The laws of exclusive or on native numbers, from its digits.
use Prim.Native.Nat.{
  ℕ, zero, suc, ◌+◌, ◌*◌, ◌/◌, ◌%◌, ◌^◌, ◌≤◌, ◌<◌, bit_xor, digits, differ, bit_xor-bitwise,
}
use native.Mathlib.Nat.{le_refl, pow-suc}
use native.Mathlib.Omega.{arith}
use mathlib.Core.Path.{◌≡◌, refl, ap, sym, ◌∙◌}
use mathlib.Core.Logic.{inl, inr}
use vault_os.Prelude.Tests.{◌==◌, Bool-cases, ==→eq, ==→ne}

-- The exclusive or of two numbers, with fuel for the digits of the first.
abbrev with_fuel : ℕ → ℕ → ℕ → ℕ
with_fuel fuel x y = digits (λ rest. rest) differ fuel x y

-- More fuel than the number changes nothing: one more, and any amount.
with_fuel-suc : (fuel x y : ℕ) → x ≤ fuel → with_fuel (suc fuel) x y ≡ with_fuel fuel x y
with_fuel-suc zero (suc x) y short = absurd (omega arith)
with_fuel-suc zero zero y short = refl
with_fuel-suc (suc fuel) (suc x) y short =
    let halves = with_fuel-suc fuel (suc x / 2) (y / 2) (omega arith) in omega (arith, halves)
with_fuel-suc (suc fuel) zero y short = refl

with_fuel-enough : (fuel x y : ℕ) → x ≤ fuel → with_fuel fuel x y ≡ with_fuel x x y
with_fuel-enough zero x y short = let none : x ≡ 0 = omega arith in rw none refl
with_fuel-enough (suc fuel) x y short = elim (Bool-cases (x == suc fuel)) [
  | inl exact ↦ ap (λ f. with_fuel f x y) (sym (==→eq x (suc fuel) exact))
  | inr spare ↦
      let ne = ==→ne x (suc fuel) spare in
      with_fuel-suc fuel x y (omega arith) ∙ with_fuel-enough fuel x y (omega arith)
]

pub zero-bit_xor : (b : ℕ) → bit_xor 0 b ≡ b
zero-bit_xor b = bit_xor-bitwise 0 b

differ_bits : (a b : ℕ) → a < 2 → b < 2 → differ a b ≡ (a + b) % 2
differ_bits zero b h k = omega arith
differ_bits (suc zero) zero h k = refl
differ_bits (suc zero) (suc zero) h k = refl
differ_bits (suc zero) (suc (suc b)) h k = absurd (omega arith)
differ_bits (suc (suc a)) b h k = absurd (omega arith)

bit_xor_step : (x y : ℕ) → bit_xor x y ≡ (x + y) % 2 + 2 * bit_xor (x / 2) (y / 2)
bit_xor_step (suc x) y =
    let top = bit_xor-bitwise (suc x) y in
    let below = with_fuel-enough x (suc x / 2) (y / 2) (omega arith) in
    let half = bit_xor-bitwise (suc x / 2) (y / 2) in
    let lowest = differ_bits (suc x % 2) (y % 2) (omega arith) (omega arith) in omega arith
bit_xor_step zero y = omega (arith, zero-bit_xor y, zero-bit_xor (y / 2))

pub bit_xor-half : (a b : ℕ) → bit_xor a b / 2 ≡ bit_xor (a / 2) (b / 2)
bit_xor-half a b = omega (arith, bit_xor_step a b)

pub bit_xor-low : (a b : ℕ) → bit_xor a b % 2 ≡ (a + b) % 2
bit_xor-low a b = omega (arith, bit_xor_step a b)

bit_xor_assoc_fuel :
    (n a b c : ℕ) → a ≤ n → b ≤ n → c ≤ n → bit_xor (bit_xor a b) c ≡ bit_xor a (bit_xor b c)
bit_xor_assoc_fuel zero zero zero zero h k l = refl
bit_xor_assoc_fuel zero (suc a) b c h k l = absurd (omega arith)
bit_xor_assoc_fuel zero zero (suc b) c h k l = absurd (omega arith)
bit_xor_assoc_fuel zero zero zero (suc c) h k l = absurd (omega arith)
bit_xor_assoc_fuel (suc n) a b c h k l =
    let left = bit_xor-half (bit_xor a b) c ∙ ap (λ x. bit_xor x (c / 2)) (bit_xor-half a b) in
    let right = bit_xor-half a (bit_xor b c) ∙ ap (bit_xor (a / 2)) (bit_xor-half b c) in
    let halves =
      bit_xor_assoc_fuel n (a / 2) (b / 2) (c / 2) (omega arith) (omega arith) (omega arith) in
    omega (
      arith,
      left,
      right,
      halves,
      bit_xor-low (bit_xor a b) c,
      bit_xor-low a b,
      bit_xor-low a (bit_xor b c),
      bit_xor-low b c,
    )

pub bit_xor_assoc : (a b c : ℕ) → bit_xor (bit_xor a b) c ≡ bit_xor a (bit_xor b c)
bit_xor_assoc a b c = bit_xor_assoc_fuel (a + b + c) a b c (omega arith) (omega arith) (omega arith)

bit_xor_comm_fuel : (n a b : ℕ) → a ≤ n → b ≤ n → bit_xor a b ≡ bit_xor b a
bit_xor_comm_fuel zero zero zero h k = refl
bit_xor_comm_fuel zero (suc a) b h k = absurd (omega arith)
bit_xor_comm_fuel zero zero (suc b) h k = absurd (omega arith)
bit_xor_comm_fuel (suc n) a b h k = omega (
  arith,
  bit_xor_step a b,
  bit_xor_step b a,
  bit_xor_comm_fuel n (a / 2) (b / 2) (omega arith) (omega arith),
)

pub bit_xor_comm : (a b : ℕ) → bit_xor a b ≡ bit_xor b a
bit_xor_comm a b = bit_xor_comm_fuel (a + b) a b (omega arith) (omega arith)

bit_xor_self_fuel : (n a : ℕ) → a ≤ n → bit_xor a a ≡ 0
bit_xor_self_fuel zero zero h = refl
bit_xor_self_fuel zero (suc a) h = absurd (omega arith)
bit_xor_self_fuel (suc n) a h =
    omega (arith, bit_xor_step a a, bit_xor_self_fuel n (a / 2) (omega arith))

pub bit_xor_self : (a : ℕ) → bit_xor a a ≡ 0
bit_xor_self a = bit_xor_self_fuel a a (le_refl a)

pub bit_xor-zero : (a : ℕ) → bit_xor a 0 ≡ a
bit_xor-zero a = bit_xor_comm a 0 ∙ zero-bit_xor a

-- The same key twice.
pub bit_xor_twice : (a k : ℕ) → bit_xor (bit_xor a k) k ≡ a
bit_xor_twice a k = bit_xor_assoc a k k ∙ ap (bit_xor a) (bit_xor_self k) ∙ bit_xor-zero a

-- The exclusive or of two pairs, pairwise.
pub bit_xor_four :
    (a b c d : ℕ) → bit_xor (bit_xor a b) (bit_xor c d) ≡ bit_xor (bit_xor a c) (bit_xor b d)
bit_xor_four a b c d =
    bit_xor_assoc a b (bit_xor c d)
    ∙ ap (bit_xor a)
        (sym (bit_xor_assoc b c d) ∙ ap (λ x. bit_xor x d) (bit_xor_comm b c) ∙ bit_xor_assoc c b d)
    ∙ sym (bit_xor_assoc a c (bit_xor b d))

bit_xor-lt : (k a b : ℕ) → a < 2 ^ k → b < 2 ^ k → bit_xor a b < 2 ^ k
bit_xor-lt zero zero zero h l = omega arith
bit_xor-lt zero (suc a) b h l = absurd (omega arith)
bit_xor-lt zero zero (suc b) h l = absurd (omega arith)
bit_xor-lt (suc k) a b h l =
    let below : bit_xor (a / 2) (b / 2) < 2 ^ k =
      bit_xor-lt k (a / 2) (b / 2) (omega (arith, pow-suc 2 k)) (omega (arith, pow-suc 2 k)) in
    omega (arith, pow-suc 2 k, bit_xor_step a b)

-- Bytes stay bytes.
pub bit_xor-byte : (a b : ℕ) → a < 256 → b < 256 → bit_xor a b < 256
bit_xor-byte a b h k = bit_xor-lt 8 a b h k
