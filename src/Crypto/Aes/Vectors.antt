-- ===== src/Crypto/Aes/Vectors.antt =====
-- kernel/crypto/aes.c on the published test vector of AES-128.
use vault_os.Prelude.{ℕ, List, [], ◌∷◌, ◌≡◌, refl}
use vault_os.Crypto.Aes.{
  init, expand, schedule_word, rotated, encrypt_block_sw, encrypt_rounds, add_round_key, round_key,
  xor_bytes, mix_columns, mix_column, columns, shift_rows, sub_bytes, xor4,
}
use vault_os.Crypto.Aes.Tables.{sbox, rcon, mul2, mul3}

abbrev key : List ℕ
key = 43 ∷ 126 ∷ 21 ∷ 22 ∷ 40 ∷ 174 ∷ 210 ∷ 166 ∷ 171 ∷ 247 ∷ 21 ∷ 136 ∷ 9 ∷ 207 ∷ 79 ∷ 60 ∷ []

abbrev plain : List ℕ
plain = 50 ∷ 67 ∷ 246 ∷ 168 ∷ 136 ∷ 90 ∷ 48 ∷ 141 ∷ 49 ∷ 49 ∷ 152 ∷ 162 ∷ 224 ∷ 55 ∷ 7 ∷ 52 ∷ []

encrypts_vector :
    encrypt_block_sw (init key) plain
    ≡ 57 ∷ 37 ∷ 132 ∷ 29 ∷ 2 ∷ 220 ∷ 9 ∷ 251 ∷ 220 ∷ 17 ∷ 133 ∷ 151 ∷ 25 ∷ 106 ∷ 11 ∷ 50 ∷ []
unfolding init expand schedule_word rotated encrypt_block_sw encrypt_rounds add_round_key round_key
    xor_bytes mix_columns mix_column columns shift_rows sub_bytes xor4 sbox rcon mul2 mul3
encrypts_vector = refl
