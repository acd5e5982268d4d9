-- ===== src/Crypto/Aes/Instructions.antt =====
-- kernel/crypto/aes.c: what is encrypted or decrypted by the processor's instructions is what the
-- software computes, when the instructions do what their documentation says.
use Prim.Native.Nat.{bit_xor}
use vault_os.Prelude.{
  ℕ, zero, suc, ◌<◌, ◌≤◌, List, [], ◌∷◌, Bool, true, false, ltb, ◌≡◌, refl, ap, sym, ◌∙◌, arith,
  length,
}
use vault_os.Prelude.Below.{every, bounded_on_bytes}
use vault_os.Crypto.Aes.{
  at, xor4, sub_bytes, inv_sub_bytes, shift_rows, inv_shift_rows, columns, mix_columns,
  inv_mix_column, inv_mix_columns, xor_bytes, round_key, add_round_key, encrypt_rounds,
  encrypt_block_sw, decrypt_rounds, decrypt_block_sw, Hardware, encrypt_rounds_ni, encrypt_block_ni,
  decrypt_rounds_ni, decrypt_block_ni, encrypt_block, decrypt_block,
}
use vault_os.Crypto.Aes.Tables.{inv_sbox, mul9, mul11, mul13, mul14}
use vault_os.Crypto.Aes.Field.{
  IsLinear, mul9-IsLinear, mul11-IsLinear, mul13-IsLinear, mul14-IsLinear, xor4_add, xor4-byte,
  list4,
}
use vault_os.Crypto.Aes.Round.{
  AllBytes, IsBlock, at-byte, xor_bytes-IsBlock, append4, append-AllBytes,
}
use vault_os.Crypto.Aes.Inverse.{
  IsSchedule, round_key-IsBlock, encrypt_rounds-IsBlock, add_round_key-IsBlock,
}

-- The documentation of the instructions: a round of encryption, the last round, a round of
-- decryption with the key behind `InvMixColumns`, the last one, and `InvMixColumns`.
pub record Documented (hw : Hardware) : Type 0 where
  pub enc :
      (s k : List ℕ)
      → IsBlock s
      → IsBlock k
      → hw.aesenc s k ≡ xor_bytes (mix_columns (shift_rows (sub_bytes s))) k
  pub enclast :
      (s k : List ℕ)
      → IsBlock s
      → IsBlock k
      → hw.aesenclast s k ≡ xor_bytes (shift_rows (sub_bytes s)) k
  pub dec :
      (s k : List ℕ)
      → IsBlock s
      → IsBlock k
      → hw.aesdec s k ≡ xor_bytes (inv_mix_columns (inv_sub_bytes (inv_shift_rows s))) k
  pub declast :
      (s k : List ℕ)
      → IsBlock s
      → IsBlock k
      → hw.aesdeclast s k ≡ xor_bytes (inv_sub_bytes (inv_shift_rows s)) k
  pub imc : (k : List ℕ) → IsBlock k → hw.aesimc k ≡ inv_mix_columns k

inv_shift_rows-IsBlock : (s : List ℕ) → AllBytes s → IsBlock (inv_shift_rows s)
unfolding inv_shift_rows
inv_shift_rows-IsBlock s h =
    let b = λ (i : ℕ). at-byte s i h in
    (
      refl,
      (
        b 0,
        (
          b 13,
          (
            b 10,
            (
              b 7,
              (
                b 4,
                (b 1, (b 14, (b 11, (b 8, (b 5, (b 2, (b 15, (b 12, (b 9, (b 6, (b 3, tt))))))))))),
              ),
            ),
          ),
        ),
      ),
    )

inv_sbox-byte : (x : ℕ) → x < 256 → at inv_sbox x < 256
unfolding inv_sbox every
inv_sbox-byte x h = bounded_on_bytes (at inv_sbox) x refl h

inv_sub_bytes-AllBytes : (s : List ℕ) → AllBytes s → AllBytes (inv_sub_bytes s)
unfolding inv_sub_bytes
inv_sub_bytes-AllBytes [] h = tt
inv_sub_bytes-AllBytes (x ∷ s) h = (inv_sbox-byte x h.0, inv_sub_bytes-AllBytes s h.1)

length-inv_sub_bytes : (s : List ℕ) → length (inv_sub_bytes s) ≡ length s
unfolding inv_sub_bytes
length-inv_sub_bytes [] = refl
length-inv_sub_bytes (x ∷ s) = ap suc (length-inv_sub_bytes s)

pub unshifted-IsBlock : (s : List ℕ) → IsBlock s → IsBlock (inv_sub_bytes (inv_shift_rows s))
unshifted-IsBlock s (n, h) =
    let t = inv_shift_rows-IsBlock s h in
    (length-inv_sub_bytes (inv_shift_rows s) ∙ t.0, inv_sub_bytes-AllBytes (inv_shift_rows s) t.1)

at-xor_bytes :
    (s k : List ℕ) (i : ℕ) → length s ≡ length k → at (xor_bytes s k) i ≡ bit_xor (at s i) (at k i)
unfolding xor_bytes
at-xor_bytes [] [] i h = refl
at-xor_bytes [] (k ∷ ks) i h = absurd (omega arith)
at-xor_bytes (x ∷ s) [] i h = absurd (omega arith)
at-xor_bytes (x ∷ s) (k ∷ ks) zero h = refl
at-xor_bytes (x ∷ s) (k ∷ ks) (suc i) h = at-xor_bytes s ks i (omega arith)

-- One row of the inverse matrix on a sum of two columns.
module _ (t u v w : List ℕ) (lt : IsLinear t) (lu : IsLinear u) (lv : IsLinear v)
    (lw : IsLinear w) where
  row_add :
      (a b c d p q r s : ℕ)
      → a < 256
      → b < 256
      → c < 256
      → d < 256
      → p < 256
      → q < 256
      → r < 256
      → s < 256
      → xor4 (at t (bit_xor a p)) (at u (bit_xor b q)) (at v (bit_xor c r)) (at w (bit_xor d s))
        ≡ bit_xor
            (xor4 (at t a) (at u b) (at v c) (at w d))
            (xor4 (at t p) (at u q) (at v r) (at w s))
  row_add a b c d p q r s ha hb hc hd hp hq hr hs =
      rw (lt a p ha hp, lu b q hb hq, lv c r hc hr, lw d s hd hs, xor4_add)

inv_mix_column_add :
    (a b c d p q r s : ℕ)
    → a < 256
    → b < 256
    → c < 256
    → d < 256
    → p < 256
    → q < 256
    → r < 256
    → s < 256
    → inv_mix_column (bit_xor a p) (bit_xor b q) (bit_xor c r) (bit_xor d s)
      ≡ xor_bytes (inv_mix_column a b c d) (inv_mix_column p q r s)
unfolding inv_mix_column xor_bytes
inv_mix_column_add a b c d p q r s ha hb hc hd hp hq hr hs =
    list4
      (row_add mul14 mul11 mul13 mul9 mul14-IsLinear mul11-IsLinear mul13-IsLinear mul9-IsLinear a b
        c d p q r s ha hb hc hd hp hq hr hs)
      (row_add mul9 mul14 mul11 mul13 mul9-IsLinear mul14-IsLinear mul11-IsLinear mul13-IsLinear a b
        c d p q r s ha hb hc hd hp hq hr hs)
      (row_add mul13 mul9 mul14 mul11 mul13-IsLinear mul9-IsLinear mul14-IsLinear mul11-IsLinear a b
        c d p q r s ha hb hc hd hp hq hr hs)
      (row_add mul11 mul13 mul9 mul14 mul11-IsLinear mul13-IsLinear mul9-IsLinear mul14-IsLinear a b
        c d p q r s ha hb hc hd hp hq hr hs)

-- A column of the sum of two blocks.
module _ (s k : List ℕ) (hs : IsBlock s) (hk : IsBlock k) where
  column_add :
      (i j l m : ℕ)
      → inv_mix_column
          (at (xor_bytes s k) i)
          (at (xor_bytes s k) j)
          (at (xor_bytes s k) l)
          (at (xor_bytes s k) m)
        ≡ xor_bytes
            (inv_mix_column (at s i) (at s j) (at s l) (at s m))
            (inv_mix_column (at k i) (at k j) (at k l) (at k m))
  column_add i j l m =
      let same : length s ≡ length k = hs.0 ∙ sym hk.0 in
      let b = λ (x : ℕ). at-byte s x hs.1 in
      let c = λ (x : ℕ). at-byte k x hk.1 in
      rw
        (
          at-xor_bytes s k i same,
          at-xor_bytes s k j same,
          at-xor_bytes s k l same,
          at-xor_bytes s k m same,
        )
        (inv_mix_column_add (at s i) (at s j) (at s l) (at s m) (at k i) (at k j) (at k l) (at k m)
          (b i) (b j) (b l) (b m) (c i) (c j) (c l) (c m))

  inv_mix_columns-xor_bytes :
      inv_mix_columns (xor_bytes s k) ≡ xor_bytes (inv_mix_columns s) (inv_mix_columns k)
  inv_mix_columns-xor_bytes =
      unfold inv_mix_columns columns in
      append4 (column_add 0 1 2 3) (column_add 4 5 6 7) (column_add 8 9 10 11)
        (column_add 12 13 14 15)
      ∙ unfold inv_mix_column xor_bytes in refl

mul_bytes : List ℕ → Bool
mul_bytes t = every (λ x. ltb (at t x) 256) 256

row-byte :
    (t u v w : List ℕ)
    → mul_bytes t ≡ true
    → mul_bytes u ≡ true
    → mul_bytes v ≡ true
    → mul_bytes w ≡ true
    → (a b c d : ℕ) → a < 256
    → b < 256
    → c < 256
    → d < 256
    → xor4 (at t a) (at u b) (at v c) (at w d) < 256
unfolding mul_bytes
row-byte t u v w ht hu hv hw a b c d ha hb hc hd =
    xor4-byte (at t a) (at u b) (at v c) (at w d) (bounded_on_bytes (at t) a ht ha)
      (bounded_on_bytes (at u) b hu hb) (bounded_on_bytes (at v) c hv hc)
      (bounded_on_bytes (at w) d hw hd)

products_are_bytes :
    (mul_bytes mul9 ≡ true)
    × ((mul_bytes mul11 ≡ true) × ((mul_bytes mul13 ≡ true) × (mul_bytes mul14 ≡ true)))
unfolding mul_bytes every mul9 mul11 mul13 mul14
products_are_bytes = (refl, (refl, (refl, refl)))

inv_mix_column-AllBytes :
    (a b c d : ℕ) → a < 256 → b < 256 → c < 256 → d < 256 → AllBytes (inv_mix_column a b c d)
unfolding inv_mix_column
inv_mix_column-AllBytes a b c d ha hb hc hd =
    let (b9, (b11, (b13, b14))) = products_are_bytes in
    (
      row-byte mul14 mul11 mul13 mul9 b14 b11 b13 b9 a b c d ha hb hc hd,
      (
        row-byte mul9 mul14 mul11 mul13 b9 b14 b11 b13 a b c d ha hb hc hd,
        (
          row-byte mul13 mul9 mul14 mul11 b13 b9 b14 b11 a b c d ha hb hc hd,
          (row-byte mul11 mul13 mul9 mul14 b11 b13 b9 b14 a b c d ha hb hc hd, tt),
        ),
      ),
    )

inv_mix_columns-IsBlock : (s : List ℕ) → AllBytes s → IsBlock (inv_mix_columns s)
unfolding inv_mix_columns columns
inv_mix_columns-IsBlock s h =
    let b = λ (i : ℕ). at-byte s i h in
    let column = λ (i j l m : ℕ).
      inv_mix_column-AllBytes (at s i) (at s j) (at s l) (at s m) (b i) (b j) (b l) (b m) in
    (
      unfold inv_mix_column in refl,
      append-AllBytes _ _ (column 0 1 2 3) (
          append-AllBytes _ _ (column 4 5 6 7)
            (append-AllBytes _ _ (column 8 9 10 11) (column 12 13 14 15))),
    )

module _ (hw : Hardware) (doc : Documented hw) (rk : List ℕ) (hk : IsSchedule rk) where
  encrypt_rounds_ni-sw :
      (n : ℕ) (s : List ℕ) → n ≤ 9 → IsBlock s → encrypt_rounds_ni hw n rk s ≡ encrypt_rounds n rk s
  unfolding encrypt_rounds_ni encrypt_rounds add_round_key
  encrypt_rounds_ni-sw zero s low h = refl
  encrypt_rounds_ni-sw (suc n) s low h =
      let key = round_key-IsBlock rk (suc n) hk (omega arith) in
      ap (λ t. hw.aesenc t (round_key rk (suc n))) (encrypt_rounds_ni-sw n s (omega arith) h)
      ∙ doc.enc _ _ (encrypt_rounds-IsBlock n rk s h hk.1) key

  encrypt_block_ni-sw : (s : List ℕ) → IsBlock s → encrypt_block_ni hw rk s ≡ encrypt_block_sw rk s
  unfolding encrypt_block_ni encrypt_block_sw add_round_key
  encrypt_block_ni-sw s h =
      let start =
        xor_bytes-IsBlock s (round_key rk 0) h (round_key-IsBlock rk 0 hk (omega arith)).1 in
      ap (λ t. hw.aesenclast t (round_key rk 10)) (encrypt_rounds_ni-sw 9 _ (omega arith) start)
      ∙ doc.enclast _ _ (encrypt_rounds-IsBlock 9 rk _ start hk.1)
          (round_key-IsBlock rk 10 hk (omega arith))

  -- A round of `aesdec` behind `aesimc` is a round of the software.
  dec_round :
      (n : ℕ) (s : List ℕ)
      → n ≤ 9
      → IsBlock s
      → hw.aesdec s (hw.aesimc (round_key rk n))
        ≡ inv_mix_columns (add_round_key (inv_sub_bytes (inv_shift_rows s)) (round_key rk n))
  unfolding add_round_key
  dec_round n s low h =
      let key = round_key-IsBlock rk n hk (omega arith) in
      ap (hw.aesdec s) (doc.imc _ key)
      ∙ doc.dec s _ h (inv_mix_columns-IsBlock _ key.1)
      ∙ sym (inv_mix_columns-xor_bytes _ _ (unshifted-IsBlock s h) key)

  decrypted-IsBlock :
      (n : ℕ) (s : List ℕ)
      → IsBlock s
      → IsBlock
          (inv_mix_columns (add_round_key (inv_sub_bytes (inv_shift_rows s)) (round_key rk n)))
  decrypted-IsBlock n s h =
      inv_mix_columns-IsBlock _ (add_round_key-IsBlock _ rk n (unshifted-IsBlock s h) hk.1).1

  decrypt_rounds_ni-sw :
      (n : ℕ) (s : List ℕ)
      → n ≤ 9
      → IsBlock s
      → (decrypt_rounds_ni hw n rk s ≡ decrypt_rounds n rk s) × IsBlock (decrypt_rounds n rk s)
  unfolding decrypt_rounds_ni decrypt_rounds
  decrypt_rounds_ni-sw zero s low h = (refl, h)
  decrypt_rounds_ni-sw (suc n) s low h =
      let (same, block) = decrypt_rounds_ni-sw n _ (omega arith) (decrypted-IsBlock (suc n) s h) in
      (ap (decrypt_rounds_ni hw n rk) (dec_round (suc n) s low h) ∙ same, block)

  decrypt_block_ni-sw : (s : List ℕ) → IsBlock s → decrypt_block_ni hw rk s ≡ decrypt_block_sw rk s
  unfolding decrypt_block_ni decrypt_block_sw add_round_key
  decrypt_block_ni-sw s h =
      let start =
        xor_bytes-IsBlock s (round_key rk 10) h (round_key-IsBlock rk 10 hk (omega arith)).1 in
      let (same, block) = decrypt_rounds_ni-sw 9 _ (omega arith) start in
      ap (λ t. hw.aesdeclast t (round_key rk 0)) same
      ∙ doc.declast _ _ block (round_key-IsBlock rk 0 hk (omega arith))

  -- When the instructions are as documented, the schedule is 11 round keys of bytes, and the block
  -- is 16 bytes: `aes_encrypt_block` and `aes_decrypt_block` compute the same by the instructions
  -- as by the software, whichever of the two is chosen.
  pub encrypt_block-software :
      (aesni_available : Bool) (block : List ℕ)
      → IsBlock block
      → (encrypt_block aesni_available hw rk block ≡ encrypt_block_sw rk block)
        × (decrypt_block aesni_available hw rk block ≡ decrypt_block_sw rk block)
  unfolding encrypt_block decrypt_block
  encrypt_block-software true block h = (encrypt_block_ni-sw block h, decrypt_block_ni-sw block h)
  encrypt_block-software false block h = (refl, refl)
