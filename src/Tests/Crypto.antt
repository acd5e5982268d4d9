-- ===== src/Tests/Crypto.antt =====
-- kernel/crypto at concrete inputs: a key of ones, a block of threes, and instructions that do what
-- their documentation says.
use vault_os.Prelude.{
  ℕ, zero, suc, ◌<◌, List, [], ◌∷◌, true, length, take, replicate, ◌≡◌, refl, arith,
}
use vault_os.Crypto.Aes.{
  Hardware, sub_bytes, inv_sub_bytes, shift_rows, inv_shift_rows, mix_columns, inv_mix_columns,
  xor_bytes, encrypt_block_sw, decrypt_block_sw, encrypt_block, decrypt_block, cbc_encrypt,
  cbc_decrypt,
}
use vault_os.Crypto.Aes
use vault_os.Crypto.Aes.Round.{AllBytes, IsBlock}
use vault_os.Crypto.Aes.Inverse.{IsSchedule, init-IsSchedule, decrypt_block_sw-encrypt_block_sw}
use vault_os.Crypto.Aes.Instructions.{Documented, encrypt_block-software}
use vault_os.Crypto.Aes.Cbc.{cbc_decrypt-cbc_encrypt}
use vault_os.Crypto.Pkcs7.{padded_size, pad, unpad, unpad-pad}
use vault_os.Crypto.Sha256.{final, init}
use vault_os.Crypto.Sha256.Blocks.{digest}
use vault_os.Crypto.Sha256.Final.{updates, joined, final-updates}
use vault_os.Crypto.Hmac.{hmac_init, compute, hmac_sha256, standard_hmac, compute-hmac_init}

abbrev pub processor : Hardware
processor = record {
  aesenc = λ s k. xor_bytes (mix_columns (shift_rows (sub_bytes s))) k;
  aesenclast = λ s k. xor_bytes (shift_rows (sub_bytes s)) k;
  aesdec = λ s k. xor_bytes (inv_mix_columns (inv_sub_bytes (inv_shift_rows s))) k;
  aesdeclast = λ s k. xor_bytes (inv_sub_bytes (inv_shift_rows s)) k;
  aesimc = λ k. inv_mix_columns k;
}

pub processor-Documented : Documented processor
processor-Documented = record {
  enc = λ s k hs hk. refl;
  enclast = λ s k hs hk. refl;
  dec = λ s k hs hk. refl;
  declast = λ s k hs hk. refl;
  imc = λ k hk. refl;
}

pub replicate-AllBytes : (n b : ℕ) → b < 256 → AllBytes (replicate n b)
replicate-AllBytes zero b h = tt
replicate-AllBytes (suc n) b h = (h, replicate-AllBytes n b h)

abbrev pub schedule : List ℕ
schedule = Aes.init (replicate 16 1)

pub schedule-IsSchedule : IsSchedule schedule
schedule-IsSchedule =
    init-IsSchedule (replicate 16 1) (omega arith) (replicate-AllBytes 16 1 (omega arith))

sample-IsBlock : IsBlock (replicate 16 3)
sample-IsBlock = (refl, replicate-AllBytes 16 3 (omega arith))

decrypt_block_sw-encrypt_block_sw_example :
    decrypt_block_sw schedule (encrypt_block_sw schedule (replicate 16 3)) ≡ replicate 16 3
decrypt_block_sw-encrypt_block_sw_example =
    decrypt_block_sw-encrypt_block_sw schedule (replicate 16 3) sample-IsBlock schedule-IsSchedule.1

encrypt_block-software_example :
    (encrypt_block true processor schedule (replicate 16 3)
      ≡ encrypt_block_sw schedule (replicate 16 3))
    × (decrypt_block true processor schedule (replicate 16 3)
        ≡ decrypt_block_sw schedule (replicate 16 3))
encrypt_block-software_example =
    encrypt_block-software processor processor-Documented schedule schedule-IsSchedule true
      (replicate 16 3) sample-IsBlock

cbc_decrypt-cbc_encrypt_example :
    let plain : List ℕ = replicate 32 5 in
    let c = cbc_encrypt true processor schedule (replicate 16 9) plain in
    (length c ≡ length plain)
    × (AllBytes c × (cbc_decrypt true processor schedule (replicate 16 9) c ≡ plain))
cbc_decrypt-cbc_encrypt_example =
    cbc_decrypt-cbc_encrypt true processor processor-Documented schedule schedule-IsSchedule
      (replicate 16 9) (replicate 32 5) (replicate-AllBytes 16 9 (omega arith)) refl
      (replicate-AllBytes 32 5 (omega arith))

abbrev five : List ℕ
five = 1 ∷ 2 ∷ 3 ∷ 4 ∷ 5 ∷ []

unpad-pad_example :
    let padded = pad five (padded_size (length five)) in
    (unpad padded ≡ length five) × (take (unpad padded) padded ≡ five)
unpad-pad_example = unpad-pad five

abbrev pieces : List (List ℕ)
pieces = (97 ∷ []) ∷ (98 ∷ 99 ∷ []) ∷ []

final-updates_example : final (updates init pieces) ≡ digest (joined pieces)
final-updates_example = final-updates pieces

compute-hmac_init_example :
    (compute (hmac_init five) (replicate 3 7) ≡ standard_hmac five (replicate 3 7))
    × (hmac_sha256 five (replicate 3 7) ≡ standard_hmac five (replicate 3 7))
compute-hmac_init_example = compute-hmac_init five (replicate 3 7)
