-- ===== src/Crypto/Aes/Round.antt =====
-- Each step of a round of kernel/crypto/aes.c is undone by its counterpart.
use vault_os.Prelude.{
  ℕ, zero, suc, ◌*◌, ◌<◌, List, [], ◌∷◌, ◌++◌, ◌≡◌, refl, ap, sym, ◌∙◌, arith, length, take, drop,
  map,
}
use vault_os.Prelude.Xor.{bit_xor_twice, bit_xor-byte}
use vault_os.Prelude.Below.{every, agree_on_bytes, bounded_on_bytes}
use vault_os.Crypto.Aes.{
  at, sub_bytes, inv_sub_bytes, shift_rows, inv_shift_rows, columns, mix_column, mix_columns,
  inv_mix_columns, xor_bytes, round_key,
}
use vault_os.Crypto.Aes.Tables.{sbox, inv_sbox}
use vault_os.Crypto.Aes.Field.{xor4-byte, mul2-byte, mul3-byte, inv_mix_column-mixed}

abbrev pub AllBytes : List ℕ → Type 0
AllBytes [] = Unit
AllBytes (x ∷ xs) = (x < 256) × AllBytes xs

-- A block of 16 bytes.
abbrev pub IsBlock : List ℕ → Type 0
IsBlock s = (length s ≡ 16) × AllBytes s

pub at-byte : (s : List ℕ) (i : ℕ) → AllBytes s → at s i < 256
at-byte [] i h = omega arith
at-byte (x ∷ s) zero h = h.0
at-byte (x ∷ s) (suc i) h = at-byte s i h.1

-- `n` entries from `i` on.
cells : ℕ → ℕ → List ℕ → List ℕ
cells zero i s = []
cells (suc n) i s = at s i ∷ cells n (suc i) s

cells-cons : (n i x : ℕ) (s : List ℕ) → cells n (suc i) (x ∷ s) ≡ cells n i s
unfolding cells
cells-cons zero i x s = refl
cells-cons (suc n) i x s = ap (◌∷◌ (at s i)) (cells-cons n (suc i) x s)

cells_lem : (s : List ℕ) → cells (length s) 0 s ≡ s
unfolding cells
cells_lem [] = refl
cells_lem (x ∷ s) = ap (◌∷◌ x) (cells-cons (length s) 0 x s ∙ cells_lem s)

cells-block : (s : List ℕ) → length s ≡ 16 → cells 16 0 s ≡ s
cells-block s h = ap (λ n. cells n 0 s) (sym h) ∙ cells_lem s

pub inv_shift_rows-shift_rows : (s : List ℕ) → length s ≡ 16 → inv_shift_rows (shift_rows s) ≡ s
unfolding inv_shift_rows shift_rows cells
inv_shift_rows-shift_rows s h = cells-block s h

pub shift_rows-IsBlock : (s : List ℕ) → IsBlock s → IsBlock (shift_rows s)
unfolding shift_rows
shift_rows-IsBlock s (n, h) =
    let b = λ (i : ℕ). at-byte s i h in
    (
      refl,
      (
        b 0,
        (
          b 5,
          (
            b 10,
            (
              b 15,
              (
                b 4,
                (b 9, (b 14, (b 3, (b 8, (b 13, (b 2, (b 7, (b 12, (b 1, (b 6, (b 11, tt))))))))))),
              ),
            ),
          ),
        ),
      ),
    )

pub sbox_inverse : (x : ℕ) → x < 256 → at inv_sbox (at sbox x) ≡ x
unfolding sbox inv_sbox every
sbox_inverse x h = agree_on_bytes (λ y. at inv_sbox (at sbox y)) (λ y. y) x refl h

pub sbox-byte : (x : ℕ) → x < 256 → at sbox x < 256
unfolding sbox every
sbox-byte x h = bounded_on_bytes (at sbox) x refl h

pub inv_sub_bytes-sub_bytes : (s : List ℕ) → AllBytes s → inv_sub_bytes (sub_bytes s) ≡ s
unfolding inv_sub_bytes sub_bytes
inv_sub_bytes-sub_bytes [] h = refl
inv_sub_bytes-sub_bytes (x ∷ s) h =
    let here = sbox_inverse x h.0 in
    let rest = inv_sub_bytes-sub_bytes s h.1 in
    ap (λ y. y ∷ map (at inv_sbox) (map (at sbox) s)) here ∙ ap (◌∷◌ x) rest

pub sub_bytes-AllBytes : (s : List ℕ) → AllBytes s → AllBytes (sub_bytes s)
unfolding sub_bytes
sub_bytes-AllBytes [] h = tt
sub_bytes-AllBytes (x ∷ s) h = (sbox-byte x h.0, sub_bytes-AllBytes s h.1)

length-sub_bytes : (s : List ℕ) → length (sub_bytes s) ≡ length s
unfolding sub_bytes
length-sub_bytes [] = refl
length-sub_bytes (x ∷ s) = ap suc (length-sub_bytes s)

pub sub_bytes-IsBlock : (s : List ℕ) → IsBlock s → IsBlock (sub_bytes s)
sub_bytes-IsBlock s (n, h) = (length-sub_bytes s ∙ n, sub_bytes-AllBytes s h)

pub append4 :
    {p q r s p' q' r' s' : List ℕ}
    → p ≡ p'
    → q ≡ q'
    → r ≡ r'
    → s ≡ s'
    → p ++ (q ++ (r ++ s)) ≡ p' ++ (q' ++ (r' ++ s'))
append4 ep eq er es = cc

pub inv_mix_columns-mix_columns : (s : List ℕ) → IsBlock s → inv_mix_columns (mix_columns s) ≡ s
unfolding inv_mix_columns mix_columns columns mix_column cells
inv_mix_columns-mix_columns s (n, h) =
    let b = λ (i : ℕ). at-byte s i h in
    append4 (inv_mix_column-mixed (at s 0) (at s 1) (at s 2) (at s 3) (b 0) (b 1) (b 2) (b 3))
      (inv_mix_column-mixed (at s 4) (at s 5) (at s 6) (at s 7) (b 4) (b 5) (b 6) (b 7))
      (inv_mix_column-mixed (at s 8) (at s 9) (at s 10) (at s 11) (b 8) (b 9) (b 10) (b 11))
      (inv_mix_column-mixed (at s 12) (at s 13) (at s 14) (at s 15) (b 12) (b 13) (b 14) (b 15))
    ∙ cells-block s n

mix_column-AllBytes :
    (a b c d : ℕ) (rest : List ℕ)
    → a < 256
    → b < 256
    → c < 256
    → d < 256
    → AllBytes rest
    → AllBytes (mix_column a b c d ++ rest)
unfolding mix_column
mix_column-AllBytes a b c d rest ha hb hc hd h = (
  xor4-byte _ _ c d (mul2-byte a ha) (mul3-byte b hb) hc hd,
  (
    xor4-byte a _ _ d ha (mul2-byte b hb) (mul3-byte c hc) hd,
    (
      xor4-byte a b _ _ ha hb (mul2-byte c hc) (mul3-byte d hd),
      (xor4-byte _ b c _ (mul3-byte a ha) hb hc (mul2-byte d hd), h),
    ),
  ),
)

mix_column-last :
    (a b c d : ℕ) → a < 256 → b < 256 → c < 256 → d < 256 → AllBytes (mix_column a b c d)
unfolding mix_column
mix_column-last a b c d ha hb hc hd =
    unfold mix_column in mix_column-AllBytes a b c d [] ha hb hc hd tt

pub mix_columns-IsBlock : (s : List ℕ) → AllBytes s → IsBlock (mix_columns s)
unfolding mix_columns columns
mix_columns-IsBlock s h =
    let b = λ (i : ℕ). at-byte s i h in
    (
      unfold mix_column in refl,
      mix_column-AllBytes _ _ _ _ _ (b 0) (b 1) (b 2) (b 3) (
          mix_column-AllBytes _ _ _ _ _ (b 4) (b 5) (b 6) (b 7) (
            mix_column-AllBytes _ _ _ _ _ (b 8) (b 9) (b 10) (b 11)
              (mix_column-last _ _ _ _ (b 12) (b 13) (b 14) (b 15)))),
    )

pub xor_bytes_twice : (s k : List ℕ) → xor_bytes (xor_bytes s k) k ≡ s
unfolding xor_bytes
xor_bytes_twice [] k = refl
xor_bytes_twice (x ∷ s) [] = let rest = xor_bytes_twice s [] in let here = bit_xor_twice x 0 in cc
xor_bytes_twice (x ∷ s) (k ∷ ks) =
    let rest = xor_bytes_twice s ks in let here = bit_xor_twice x k in cc

pub length-xor_bytes : (s k : List ℕ) → length (xor_bytes s k) ≡ length s
unfolding xor_bytes
length-xor_bytes [] k = refl
length-xor_bytes (x ∷ s) [] = ap suc (length-xor_bytes s [])
length-xor_bytes (x ∷ s) (k ∷ ks) = ap suc (length-xor_bytes s ks)

pub xor_bytes-AllBytes : (s k : List ℕ) → AllBytes s → AllBytes k → AllBytes (xor_bytes s k)
unfolding xor_bytes
xor_bytes-AllBytes [] k h l = tt
xor_bytes-AllBytes (x ∷ s) [] h l =
    (bit_xor-byte x 0 h.0 (omega arith), xor_bytes-AllBytes s [] h.1 tt)
xor_bytes-AllBytes (x ∷ s) (k ∷ ks) h l =
    (bit_xor-byte x k h.0 l.0, xor_bytes-AllBytes s ks h.1 l.1)

pub xor_bytes-IsBlock : (s k : List ℕ) → IsBlock s → AllBytes k → IsBlock (xor_bytes s k)
xor_bytes-IsBlock s k (n, h) l = (length-xor_bytes s k ∙ n, xor_bytes-AllBytes s k h l)

pub take-AllBytes : (n : ℕ) (s : List ℕ) → AllBytes s → AllBytes (take n s)
take-AllBytes zero s h = tt
take-AllBytes (suc n) [] h = tt
take-AllBytes (suc n) (x ∷ s) h = (h.0, take-AllBytes n s h.1)

pub drop-AllBytes : (n : ℕ) (s : List ℕ) → AllBytes s → AllBytes (drop n s)
drop-AllBytes zero s h = h
drop-AllBytes (suc n) [] h = tt
drop-AllBytes (suc n) (x ∷ s) h = drop-AllBytes n s h.1

pub append-AllBytes : (s t : List ℕ) → AllBytes s → AllBytes t → AllBytes (s ++ t)
append-AllBytes [] t h l = l
append-AllBytes (x ∷ s) t h l = (h.0, append-AllBytes s t h.1 l)

pub round_key-AllBytes : (rk : List ℕ) (r : ℕ) → AllBytes rk → AllBytes (round_key rk r)
unfolding round_key
round_key-AllBytes rk r h = take-AllBytes 16 (drop (r * 16) rk) (drop-AllBytes (r * 16) rk h)
