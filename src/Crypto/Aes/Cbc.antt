-- ===== src/Crypto/Aes/Cbc.antt =====
-- kernel/crypto/aes.c: decryption in the mode CBC undoes encryption.
use mathlib.Core.Path.{subst}
use vault_os.Prelude.{
  ℕ, zero, suc, ◌*◌, ◌/◌, ◌%◌, List, [], ◌∷◌, ◌++◌, Bool, ◌≡◌, refl, ap, sym, ◌∙◌, arith, length,
  take, drop, length-append, length-take, length-drop, take-append-drop, take-length-append,
  drop-length-append,
}
use vault_os.Crypto.Aes.{
  xor_bytes, Hardware, encrypt_block, decrypt_block, cbc_encrypt_blocks, cbc_encrypt,
  cbc_decrypt_blocks, cbc_decrypt,
}
use vault_os.Crypto.Aes.Round.{
  AllBytes, IsBlock, take-AllBytes, drop-AllBytes, append-AllBytes, xor_bytes_twice,
  xor_bytes-IsBlock,
}
use vault_os.Crypto.Aes.Inverse.{
  IsSchedule, encrypt_block_sw-IsBlock, decrypt_block_sw-encrypt_block_sw,
}
use vault_os.Crypto.Aes.Instructions.{Documented, encrypt_block-software}

take_block : (xs : List ℕ) → length xs ≡ 16 → (ys : List ℕ) → take 16 (xs ++ ys) ≡ xs
take_block xs h ys = ap (λ k. take k (xs ++ ys)) (sym h) ∙ take-length-append xs ys

drop_block : (xs : List ℕ) → length xs ≡ 16 → (ys : List ℕ) → drop 16 (xs ++ ys) ≡ ys
drop_block xs h ys = ap (λ k. drop k (xs ++ ys)) (sym h) ∙ drop-length-append xs ys

module _ (aesni : Bool) (hw : Hardware) (doc : Documented hw) (rk : List ℕ)
    (hk : IsSchedule rk) where
  encrypt_block-IsBlock : (b : List ℕ) → IsBlock b → IsBlock (encrypt_block aesni hw rk b)
  encrypt_block-IsBlock b h =
      subst IsBlock (sym (encrypt_block-software hw doc rk hk aesni b h).0)
        (encrypt_block_sw-IsBlock rk b h hk.1)

  decrypt_block-encrypt_block :
      (b : List ℕ) → IsBlock b → decrypt_block aesni hw rk (encrypt_block aesni hw rk b) ≡ b
  decrypt_block-encrypt_block b h =
      ap (decrypt_block aesni hw rk) (encrypt_block-software hw doc rk hk aesni b h).0
      ∙ (encrypt_block-software hw doc rk hk aesni _ (encrypt_block_sw-IsBlock rk b h hk.1)).1
      ∙ decrypt_block_sw-encrypt_block_sw rk b h hk.1

  first-IsBlock :
      (n : ℕ) (prev plain : List ℕ)
      → AllBytes prev
      → length plain ≡ suc n * 16
      → AllBytes plain
      → IsBlock (xor_bytes (take 16 plain) prev)
  first-IsBlock n prev plain hp size h =
      xor_bytes-IsBlock (take 16 plain) prev
        (omega (arith, length-take 16 plain), take-AllBytes 16 plain h) hp

  cbc_encrypt_blocks-AllBytes :
      (n : ℕ) (prev plain : List ℕ)
      → AllBytes prev
      → length plain ≡ n * 16
      → AllBytes plain
      → (length (cbc_encrypt_blocks aesni hw n rk prev plain) ≡ n * 16)
        × AllBytes (cbc_encrypt_blocks aesni hw n rk prev plain)
  unfolding cbc_encrypt_blocks
  cbc_encrypt_blocks-AllBytes zero prev plain hp size h = (omega arith, tt)
  cbc_encrypt_blocks-AllBytes (suc n) prev plain hp size h =
      let block = encrypt_block-IsBlock _ (first-IsBlock n prev plain hp size h) in
      let (count, bytes) =
        cbc_encrypt_blocks-AllBytes n (encrypt_block aesni hw rk (xor_bytes (take 16 plain) prev))
          (drop 16 plain) block.1 (omega (arith, length-drop 16 plain))
          (drop-AllBytes 16 plain h) in
      (
        omega (
          arith,
          count,
          block.0,
          length-append (encrypt_block aesni hw rk (xor_bytes (take 16 plain) prev)) (
              cbc_encrypt_blocks aesni hw n rk
                (encrypt_block aesni hw rk (xor_bytes (take 16 plain) prev)) (drop 16 plain)),
        ),
        append-AllBytes _ _ block.1 bytes,
      )

  cbc_decrypt_blocks-encrypt :
      (n : ℕ) (prev plain : List ℕ)
      → AllBytes prev
      → length plain ≡ n * 16
      → AllBytes plain
      → cbc_decrypt_blocks aesni hw n rk prev (cbc_encrypt_blocks aesni hw n rk prev plain) ≡ plain
  unfolding cbc_encrypt_blocks cbc_decrypt_blocks
  cbc_decrypt_blocks-encrypt zero prev [] hp size h = refl
  cbc_decrypt_blocks-encrypt zero prev (x ∷ plain) hp size h = absurd (omega arith)
  cbc_decrypt_blocks-encrypt (suc n) prev plain hp size h =
      let mixed = first-IsBlock n prev plain hp size h in
      let c = encrypt_block aesni hw rk (xor_bytes (take 16 plain) prev) in
      let rest = cbc_encrypt_blocks aesni hw n rk c (drop 16 plain) in
      let block = encrypt_block-IsBlock _ mixed in
      let again =
        cbc_decrypt_blocks-encrypt n c (drop 16 plain) block.1 (omega (arith, length-drop 16 plain))
          (drop-AllBytes 16 plain h) in
      ap
        (λ t.
          xor_bytes (decrypt_block aesni hw rk t) prev
          ++ cbc_decrypt_blocks aesni hw n rk t (drop 16 (c ++ rest)))
        (take_block c block.0 rest)
      ∙ ap
          (λ t.
            xor_bytes (decrypt_block aesni hw rk c) prev ++ cbc_decrypt_blocks aesni hw n rk c t)
          (drop_block c block.0 rest)
      ∙ ap (λ t. xor_bytes t prev ++ cbc_decrypt_blocks aesni hw n rk c rest)
          (decrypt_block-encrypt_block _ mixed)
      ∙ ap (λ t. t ++ cbc_decrypt_blocks aesni hw n rk c rest)
          (xor_bytes_twice (take 16 plain) prev)
      ∙ ap (λ t. take 16 plain ++ t) again
      ∙ take-append-drop 16 plain

  -- When the instructions are as documented, the schedule is 11 round keys of bytes, the vector is
  -- of bytes, and the plaintext is bytes in a number that 16 divides: the ciphertext has the
  -- plaintext's length and consists of bytes, and `aes_cbc_decrypt` under the same vector gives
  -- the plaintext back.
  pub cbc_decrypt-cbc_encrypt :
      (iv plain : List ℕ)
      → AllBytes iv
      → length plain % 16 ≡ 0
      → AllBytes plain
      → (length (cbc_encrypt aesni hw rk iv plain) ≡ length plain)
        × (AllBytes (cbc_encrypt aesni hw rk iv plain)
            × (cbc_decrypt aesni hw rk iv (cbc_encrypt aesni hw rk iv plain) ≡ plain))
  unfolding cbc_encrypt cbc_decrypt
  cbc_decrypt-cbc_encrypt iv plain hv whole h =
      let n = length plain / 16 in
      let size : length plain ≡ n * 16 = omega arith in
      let (count, bytes) = cbc_encrypt_blocks-AllBytes n iv plain hv size h in
      let c = cbc_encrypt_blocks aesni hw n rk iv plain in
      let rounds : length c / 16 ≡ n = omega (arith, count) in
      (
        count ∙ sym size,
        (
          bytes,
          ap (λ k. cbc_decrypt_blocks aesni hw k rk iv c) rounds
              ∙ cbc_decrypt_blocks-encrypt n iv plain hv size h,
        ),
      )
