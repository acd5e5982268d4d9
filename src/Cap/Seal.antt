-- ===== src/Cap/Seal.antt =====
-- The comparison of seals, `hmac_verify` of kernel/crypto/hmac.c.
use Prim.Native.Nat.{bit_or, bit_xor, digits, differ, max, bit_or-bitwise, bit_xor-bitwise}
use native.Mathlib.Nat.{le_refl}
use vault_os.Prelude.{
  ℕ, zero, suc, ◌/◌, ◌%◌, ◌≤◌, List, [], ◌∷◌, Bool, true, ◌==◌, ◌≡◌, refl, arith, ◌∙◌, ap, sym,
  length, ==→eq,
}

-- The loop of `hmac_verify`, over the bytes that both hold.
unfoldable pub difference : ℕ → List ℕ → List ℕ → ℕ
difference diff [] ys = diff
difference diff (x ∷ xs) [] = diff
difference diff (x ∷ xs) (y ∷ ys) = difference (bit_or diff (bit_xor x y)) xs ys

unfoldable pub hmac_verify : List ℕ → List ℕ → Bool
unfolding difference
hmac_verify expected computed = difference 0 expected computed == 0

differ_self : (x : ℕ) → differ x x ≡ 0
differ_self zero = refl
differ_self (suc x) = differ_self x

differ-eq : (x y : ℕ) → differ x y ≡ 0 → x ≡ y
differ-eq zero y h = sym h
differ-eq (suc x) zero h = absurd (omega arith)
differ-eq (suc x) (suc y) h = ap suc (differ-eq x y h)

digits-differ_self : (n a : ℕ) → a ≤ n → digits (λ b. b) differ n a a ≡ 0
digits-differ_self zero a h = omega arith
digits-differ_self (suc n) zero h = refl
digits-differ_self (suc n) (suc a) h =
    omega (arith, digits-differ_self n (suc a / 2) (omega arith), differ_self (suc a % 2))

pub bit_xor_self : (a : ℕ) → bit_xor a a ≡ 0
bit_xor_self a = bit_xor-bitwise a a ∙ digits-differ_self a a (le_refl a)

digits-differ-eq : (n a b : ℕ) → a ≤ n → digits (λ b. b) differ n a b ≡ 0 → a ≡ b
digits-differ-eq zero a b h e = omega arith
digits-differ-eq (suc n) zero b h e = sym e
digits-differ-eq (suc n) (suc a) b h e =
    let high = digits-differ-eq n (suc a / 2) (b / 2) (omega arith) (omega arith) in
    let low = differ-eq (suc a % 2) (b % 2) (omega arith) in omega arith

pub bit_xor-eq : (a b : ℕ) → bit_xor a b ≡ 0 → a ≡ b
bit_xor-eq a b h = digits-differ-eq a a b (le_refl a) (sym (bit_xor-bitwise a b) ∙ h)

digits-max-zero : (n a b : ℕ) → a ≤ n → digits (λ b. b) max n a b ≡ 0 → (a ≡ 0) × (b ≡ 0)
digits-max-zero zero a b h e = (omega arith, e)
digits-max-zero (suc n) zero b h e = (refl, e)
digits-max-zero (suc n) (suc a) b h e =
    let high = digits-max-zero n (suc a / 2) (b / 2) (omega arith) (omega arith) in
    (omega arith, omega arith)

pub bit_or-zero : (a b : ℕ) → bit_or a b ≡ 0 → (a ≡ 0) × (b ≡ 0)
bit_or-zero a b h = digits-max-zero a a b (le_refl a) (sym (bit_or-bitwise a b) ∙ h)

difference_self : (xs : List ℕ) → difference 0 xs xs ≡ 0
unfolding difference
difference_self [] = refl
difference_self (x ∷ xs) = simp bit_xor_self (difference_self xs)

difference-zero :
    (diff : ℕ) (xs ys : List ℕ)
    → length xs ≡ length ys
    → difference diff xs ys ≡ 0
    → (diff ≡ 0) × (xs ≡ ys)
unfolding difference
difference-zero diff [] [] l h = (h, refl)
difference-zero diff [] (y ∷ ys) l h = absurd (omega arith)
difference-zero diff (x ∷ xs) [] l h = absurd (omega arith)
difference-zero diff (x ∷ xs) (y ∷ ys) l h =
    let (here, rest) = difference-zero (bit_or diff (bit_xor x y)) xs ys (omega arith) h in
    let (before, same) = bit_or-zero diff (bit_xor x y) here in
    let e = bit_xor-eq x y same in (before, cc)

-- The comparison passes on two equal seals.
pub hmac_verify_self : (xs : List ℕ) → hmac_verify xs xs ≡ true
unfolding hmac_verify
hmac_verify_self xs = rw difference_self

-- On seals of one length, if `hmac_verify` answers true they are the same bytes: no pair of
-- differences cancels out in the accumulator.
pub hmac_verify_sound :
    (xs ys : List ℕ) → length xs ≡ length ys → hmac_verify xs ys ≡ true → xs ≡ ys
unfolding hmac_verify
hmac_verify_sound xs ys l h = (difference-zero 0 xs ys l (==→eq (difference 0 xs ys) 0 h)).1
