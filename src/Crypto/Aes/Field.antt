-- ===== src/Crypto/Aes/Field.antt =====
-- The product tables of kernel/crypto/aes.c are linear, and the columns that `mix_columns` mixes
-- come back from `inv_mix_columns`.
use Prim.Native.Nat.{bit_xor}
use vault_os.Prelude.{
  ℕ, zero, suc, ◌+◌, ◌/◌, ◌%◌, ◌<◌, List, [], ◌∷◌, true, if◌then◌else◌, ◌==◌, ◌≡◌, refl, ap, sym,
  ◌∙◌, arith,
}
use vault_os.Prelude.Xor.{
  bit_xor-half, bit_xor-low, bit_xor_self, bit_xor-zero, zero-bit_xor, bit_xor_assoc, bit_xor_comm,
  bit_xor_four, bit_xor-byte,
}
use vault_os.Prelude.Below.{every, agree_on_bytes, bounded_on_bytes}
use vault_os.Crypto.Aes.{at, xor4, inv_mix_column}
use vault_os.Crypto.Aes.Tables.{mul2, mul3, mul9, mul11, mul13, mul14}

-- `c` if the bit is set.
pick : ℕ → ℕ → ℕ
pick c bit = if bit == 0 then 0 else c

-- The exclusive or of the coefficients at the bits of `x`.
weigh : List ℕ → ℕ → ℕ
weigh [] x = 0
weigh (c ∷ cs) x = bit_xor (pick c (x % 2)) (weigh cs (x / 2))

pick_add : (c a b : ℕ) → a < 2 → b < 2 → pick c ((a + b) % 2) ≡ bit_xor (pick c a) (pick c b)
unfolding pick
pick_add c zero zero h k = refl
pick_add c zero (suc zero) h k = sym (zero-bit_xor c)
pick_add c (suc zero) zero h k = sym (bit_xor-zero c)
pick_add c (suc zero) (suc zero) h k = sym (bit_xor_self c)
pick_add c zero (suc (suc b)) h k = absurd (omega arith)
pick_add c (suc zero) (suc (suc b)) h k = absurd (omega arith)
pick_add c (suc (suc a)) b h k = absurd (omega arith)

weigh-bit_xor : (cs : List ℕ) (x y : ℕ) → weigh cs (bit_xor x y) ≡ bit_xor (weigh cs x) (weigh cs y)
unfolding weigh
weigh-bit_xor [] x y = refl
weigh-bit_xor (c ∷ cs) x y =
    let low : bit_xor x y % 2 ≡ (x % 2 + y % 2) % 2 = omega (arith, bit_xor-low x y) in
    let first = ap (pick c) low ∙ pick_add c (x % 2) (y % 2) (omega arith) (omega arith) in
    let rest = ap (weigh cs) (bit_xor-half x y) ∙ weigh-bit_xor cs (x / 2) (y / 2) in
    ap (λ a. bit_xor a (weigh cs (bit_xor x y / 2))) first
    ∙ ap (bit_xor (bit_xor (pick c (x % 2)) (pick c (y % 2)))) rest
    ∙ bit_xor_four (pick c (x % 2)) (pick c (y % 2)) (weigh cs (x / 2)) (weigh cs (y / 2))

-- The entries of a table at the powers of 2.
basis : List ℕ → List ℕ
basis t = at t 1 ∷ at t 2 ∷ at t 4 ∷ at t 8 ∷ at t 16 ∷ at t 32 ∷ at t 64 ∷ at t 128 ∷ []

abbrev pub IsLinear : List ℕ → Type 0
IsLinear t = (x y : ℕ) → x < 256 → y < 256 → at t (bit_xor x y) ≡ bit_xor (at t x) (at t y)

basis-IsLinear : (t : List ℕ) → every (λ x. at t x == weigh (basis t) x) 256 ≡ true → IsLinear t
basis-IsLinear t h x y p q =
    agree_on_bytes (at t) (weigh (basis t)) (bit_xor x y) h (bit_xor-byte x y p q)
    ∙ weigh-bit_xor (basis t) x y
    ∙ ap (λ a. bit_xor a (weigh (basis t) y)) (sym (agree_on_bytes (at t) (weigh (basis t)) x h p))
    ∙ ap (bit_xor (at t x)) (sym (agree_on_bytes (at t) (weigh (basis t)) y h q))

pub mul9-IsLinear : IsLinear mul9
unfolding mul9 weigh basis pick every
mul9-IsLinear = basis-IsLinear mul9 refl

pub mul11-IsLinear : IsLinear mul11
unfolding mul11 weigh basis pick every
mul11-IsLinear = basis-IsLinear mul11 refl

pub mul13-IsLinear : IsLinear mul13
unfolding mul13 weigh basis pick every
mul13-IsLinear = basis-IsLinear mul13 refl

pub mul14-IsLinear : IsLinear mul14
unfolding mul14 weigh basis pick every
mul14-IsLinear = basis-IsLinear mul14 refl

pub xor4_rotate : (a b c d : ℕ) → xor4 a b c d ≡ xor4 b c d a
unfolding xor4
xor4_rotate a b c d =
    ap (λ x. bit_xor x d) (bit_xor_assoc a b c)
    ∙ bit_xor_assoc a (bit_xor b c) d
    ∙ bit_xor_comm a (bit_xor (bit_xor b c) d)

-- The exclusive or of two rows, column by column.
pub xor4_add :
    (a b c d p q r s : ℕ)
    → bit_xor (xor4 a b c d) (xor4 p q r s)
      ≡ xor4 (bit_xor a p) (bit_xor b q) (bit_xor c r) (bit_xor d s)
unfolding xor4
xor4_add a b c d p q r s =
    bit_xor_four (bit_xor (bit_xor a b) c) d (bit_xor (bit_xor p q) r) s
    ∙ ap (λ x. bit_xor x (bit_xor d s))
        (bit_xor_four (bit_xor a b) c (bit_xor p q) r
          ∙ ap (λ x. bit_xor x (bit_xor c r)) (bit_xor_four a b p q))

pub xor4-byte : (a b c d : ℕ) → a < 256 → b < 256 → c < 256 → d < 256 → xor4 a b c d < 256
unfolding xor4
xor4-byte a b c d ha hb hc hd =
    bit_xor-byte (bit_xor (bit_xor a b) c) d
      (bit_xor-byte (bit_xor a b) c (bit_xor-byte a b ha hb) hc) hd

at-xor4 :
    (t : List ℕ)
    → IsLinear t
    → (a b c d : ℕ) → a < 256
    → b < 256
    → c < 256
    → d < 256
    → at t (xor4 a b c d) ≡ xor4 (at t a) (at t b) (at t c) (at t d)
unfolding xor4
at-xor4 t linear a b c d ha hb hc hd =
    let ab = bit_xor-byte a b ha hb in
    linear (bit_xor (bit_xor a b) c) d (bit_xor-byte (bit_xor a b) c ab hc) hd
    ∙ ap (λ x. bit_xor x (at t d))
        (linear (bit_xor a b) c ab hc ∙ ap (λ x. bit_xor x (at t c)) (linear a b ha hb))

-- The sum of four rows by their columns.
transpose :
    (a b c d p q r s i j k l w x y z : ℕ)
    → xor4 (xor4 a b c d) (xor4 p q r s) (xor4 i j k l) (xor4 w x y z)
      ≡ xor4 (xor4 a p i w) (xor4 b q j x) (xor4 c r k y) (xor4 d s l z)
transpose a b c d p q r s i j k l w x y z =
    let two = xor4_add a b c d p q r s in
    let three = xor4_add (bit_xor a p) (bit_xor b q) (bit_xor c r) (bit_xor d s) i j k l in
    let four =
      xor4_add (bit_xor (bit_xor a p) i) (bit_xor (bit_xor b q) j) (bit_xor (bit_xor c r) k)
        (bit_xor (bit_xor d s) l) w x y z in
    unfold xor4 in
    ap (λ v. bit_xor (bit_xor v (xor4 i j k l)) (xor4 w x y z)) two
    ∙ ap (λ v. bit_xor v (xor4 w x y z)) three
    ∙ four

pub mul2-byte : (x : ℕ) → x < 256 → at mul2 x < 256
unfolding mul2 every
mul2-byte x h = bounded_on_bytes (at mul2) x refl h

pub mul3-byte : (x : ℕ) → x < 256 → at mul3 x < 256
unfolding mul3 every
mul3-byte x h = bounded_on_bytes (at mul3) x refl h

-- What becomes of each byte of a column on its way through both matrices.
through_first :
    (x : ℕ)
    → x < 256
    → xor4 (at mul14 (at mul2 x)) (at mul11 x) (at mul13 x) (at mul9 (at mul3 x)) ≡ x
unfolding mul2 mul3 mul9 mul11 mul13 mul14 xor4 every
through_first x h =
    agree_on_bytes
      (λ x. xor4 (at mul14 (at mul2 x)) (at mul11 x) (at mul13 x) (at mul9 (at mul3 x))) (λ x. x) x
      refl h

through_second :
    (x : ℕ)
    → x < 256
    → xor4 (at mul14 (at mul3 x)) (at mul11 (at mul2 x)) (at mul13 x) (at mul9 x) ≡ 0
unfolding mul2 mul3 mul9 mul11 mul13 mul14 xor4 every
through_second x h =
    agree_on_bytes
      (λ x. xor4 (at mul14 (at mul3 x)) (at mul11 (at mul2 x)) (at mul13 x) (at mul9 x)) (λ x. 0) x
      refl h

through_third :
    (x : ℕ)
    → x < 256
    → xor4 (at mul14 x) (at mul11 (at mul3 x)) (at mul13 (at mul2 x)) (at mul9 x) ≡ 0
unfolding mul2 mul3 mul9 mul11 mul13 mul14 xor4 every
through_third x h =
    agree_on_bytes
      (λ x. xor4 (at mul14 x) (at mul11 (at mul3 x)) (at mul13 (at mul2 x)) (at mul9 x)) (λ x. 0) x
      refl h

through_fourth :
    (x : ℕ)
    → x < 256
    → xor4 (at mul14 x) (at mul11 x) (at mul13 (at mul3 x)) (at mul9 (at mul2 x)) ≡ 0
unfolding mul2 mul3 mul9 mul11 mul13 mul14 xor4 every
through_fourth x h =
    agree_on_bytes
      (λ x. xor4 (at mul14 x) (at mul11 x) (at mul13 (at mul3 x)) (at mul9 (at mul2 x))) (λ x. 0) x
      refl h

xor4-zeros : (a : ℕ) → xor4 a 0 0 0 ≡ a
unfolding xor4
xor4-zeros a = bit_xor-zero (bit_xor (bit_xor a 0) 0) ∙ bit_xor-zero (bit_xor a 0) ∙ bit_xor-zero a

-- The first row of the inverse matrix.
inv_row : ℕ → ℕ → ℕ → ℕ → ℕ
inv_row p q r s = xor4 (at mul14 p) (at mul11 q) (at mul13 r) (at mul9 s)

module _ (a b c d : ℕ) (ha : a < 256) (hb : b < 256) (hc : c < 256) (hd : d < 256) where
  inv_row-mixed :
      inv_row
        (xor4 (at mul2 a) (at mul3 b) c d)
        (xor4 a (at mul2 b) (at mul3 c) d)
        (xor4 a b (at mul2 c) (at mul3 d))
        (xor4 (at mul3 a) b c (at mul2 d))
      ≡ a
  unfolding inv_row
  inv_row-mixed = rw (
    at-xor4 mul14 mul14-IsLinear (at mul2 a) (at mul3 b) c d (mul2-byte a ha) (mul3-byte b hb) hc
        hd,
    at-xor4 mul11 mul11-IsLinear a (at mul2 b) (at mul3 c) d ha (mul2-byte b hb) (mul3-byte c hc)
        hd,
    at-xor4 mul13 mul13-IsLinear a b (at mul2 c) (at mul3 d) ha hb (mul2-byte c hc)
        (mul3-byte d hd),
    at-xor4 mul9 mul9-IsLinear (at mul3 a) b c (at mul2 d) (mul3-byte a ha) hb hc (mul2-byte d hd),
    transpose,
    through_first a ha,
    through_second b hb,
    through_third c hc,
    through_fourth d hd,
    xor4-zeros,
  )

inv_row_same :
    (p q r s p' q' r' s' x : ℕ)
    → p ≡ p'
    → q ≡ q'
    → r ≡ r'
    → s ≡ s'
    → inv_row p' q' r' s' ≡ x
    → inv_row p q r s ≡ x
inv_row_same p q r s p' q' r' s' x ep eq er es h = rw (ep, eq, er, es) h

xor4_rotate_two : (a b c d : ℕ) → xor4 a b c d ≡ xor4 c d a b
xor4_rotate_two a b c d = xor4_rotate a b c d ∙ xor4_rotate b c d a

xor4_rotate_three : (a b c d : ℕ) → xor4 a b c d ≡ xor4 d a b c
xor4_rotate_three a b c d = xor4_rotate_two a b c d ∙ xor4_rotate c d a b

pub list4 :
    {a b c d p q r s : ℕ} → a ≡ p → b ≡ q → c ≡ r → d ≡ s → a ∷ b ∷ c ∷ d ∷ [] ≡ p ∷ q ∷ r ∷ s ∷ []
list4 ea eb ec ed = cc

-- A column that has been mixed comes back.
pub inv_mix_column-mixed :
    (a b c d : ℕ)
    → a < 256
    → b < 256
    → c < 256
    → d < 256
    → inv_mix_column
        (xor4 (at mul2 a) (at mul3 b) c d)
        (xor4 a (at mul2 b) (at mul3 c) d)
        (xor4 a b (at mul2 c) (at mul3 d))
        (xor4 (at mul3 a) b c (at mul2 d))
      ≡ a ∷ b ∷ c ∷ d ∷ []
unfolding inv_mix_column
inv_mix_column-mixed a b c d ha hb hc hd =
    let m0 = xor4 (at mul2 a) (at mul3 b) c d in
    let m1 = xor4 a (at mul2 b) (at mul3 c) d in
    let m2 = xor4 a b (at mul2 c) (at mul3 d) in
    let m3 = xor4 (at mul3 a) b c (at mul2 d) in
    list4 (unfold inv_row in inv_row-mixed a b c d ha hb hc hd)
      (xor4_rotate (at mul9 m0) (at mul14 m1) (at mul11 m2) (at mul13 m3)
        ∙ unfold inv_row in
          inv_row_same m1 m2 m3 m0 _ _ _ _ b (xor4_rotate a (at mul2 b) (at mul3 c) d)
            (xor4_rotate a b (at mul2 c) (at mul3 d)) (xor4_rotate (at mul3 a) b c (at mul2 d))
            (xor4_rotate (at mul2 a) (at mul3 b) c d) (inv_row-mixed b c d a hb hc hd ha))
      (xor4_rotate_two (at mul13 m0) (at mul9 m1) (at mul14 m2) (at mul11 m3)
        ∙ unfold inv_row in
          inv_row_same m2 m3 m0 m1 _ _ _ _ c (xor4_rotate_two a b (at mul2 c) (at mul3 d))
            (xor4_rotate_two (at mul3 a) b c (at mul2 d))
            (xor4_rotate_two (at mul2 a) (at mul3 b) c d)
            (xor4_rotate_two a (at mul2 b) (at mul3 c) d) (inv_row-mixed c d a b hc hd ha hb))
      (xor4_rotate_three (at mul11 m0) (at mul13 m1) (at mul9 m2) (at mul14 m3)
        ∙ unfold inv_row in
          inv_row_same m3 m0 m1 m2 _ _ _ _ d (xor4_rotate_three (at mul3 a) b c (at mul2 d))
            (xor4_rotate_three (at mul2 a) (at mul3 b) c d)
            (xor4_rotate_three a (at mul2 b) (at mul3 c) d)
            (xor4_rotate_three a b (at mul2 c) (at mul3 d)) (inv_row-mixed d a b c hd ha hb hc))
