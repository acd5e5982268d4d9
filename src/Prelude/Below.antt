-- ===== src/Prelude/Below.antt =====
-- Statements about all bytes, decided by evaluation.
use Prim.Native.Nat.{ℕ, zero, suc, ◌<◌}
use native.Mathlib.Omega.{arith}
use mathlib.Core.Path.{◌≡◌, refl, ◌∙◌, ap}
use mathlib.Core.Logic.{inl, inr}
use mathlib.Core.Bool.{Bool, true, false}
use vault_os.Prelude.Tests.{◌==◌, ltb, if◌then◌else◌, ==→eq, ==→ne, ltb→lt, Bool-cases}

-- Whether the test passes at every number under the limit.
unfoldable pub every : (ℕ → Bool) → ℕ → Bool
every test zero = true
every test (suc limit) = if test limit then every test limit else false

if_both : (b c : Bool) → (if b then c else false) ≡ true → (b ≡ true) × (c ≡ true)
if_both true true e = (refl, refl)
if_both true false e = (refl, e)
if_both false c e = absurd cc

pub every-holds :
    (test : ℕ → Bool) (limit i : ℕ) → i < limit → every test limit ≡ true → test i ≡ true
unfolding every
every-holds test zero i below passes = absurd (omega arith)
every-holds test (suc limit) i below passes =
    let (top, rest) = if_both (test limit) (every test limit) passes in
    elim (Bool-cases (i == limit)) [
      | inl last ↦ ap test (==→eq i limit last) ∙ top
      | inr earlier ↦ let ne = ==→ne i limit earlier in every-holds test limit i (omega arith) rest
    ]

-- Two functions that agree below 256, and a function that stays below 256 there.
pub agree_on_bytes :
    (f g : ℕ → ℕ) (x : ℕ) → every (λ y. f y == g y) 256 ≡ true → x < 256 → f x ≡ g x
agree_on_bytes f g x h lt = ==→eq (f x) (g x) (every-holds (λ y. f y == g y) 256 x lt h)

pub bounded_on_bytes :
    (f : ℕ → ℕ) (x : ℕ) → every (λ y. ltb (f y) 256) 256 ≡ true → x < 256 → f x < 256
bounded_on_bytes f x h lt = ltb→lt (f x) 256 (every-holds (λ y. ltb (f y) 256) 256 x lt h)
