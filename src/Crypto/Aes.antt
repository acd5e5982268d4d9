-- ===== src/Crypto/Aes.antt =====
-- kernel/crypto/aes.c: AES-128 in software and by the processor's instructions, the mode CBC, and
-- the padding of PKCS7. A state and a buffer are lists of bytes; a function that changes its
-- buffer in place returns it. `Hardware` has the AES instructions of the processor.
pub mod Tables
pub mod Field
pub mod Round
pub mod Inverse
pub mod Instructions
pub mod Cbc
mod Vectors
use Prim.Native.Nat.{bit_xor}
use vault_os.Prelude.{
  ℕ, zero, suc, ◌+◌, ◌-◌, ◌*◌, ◌/◌, ◌%◌, List, [], ◌∷◌, ◌++◌, Bool, ◌||◌, not, if◌then◌else◌, ◌==◌,
  ltb, length, get_or, take, drop, replicate, map,
}
use vault_os.Crypto.Aes.Tables.{sbox, inv_sbox, rcon, mul2, mul3, mul9, mul11, mul13, mul14}

-- `state[i]`, or an entry of a table
abbrev pub at : List ℕ → ℕ → ℕ
at xs i = get_or xs i 0

-- `sub_bytes`, `inv_sub_bytes`
pub sub_bytes : List ℕ → List ℕ
sub_bytes s = map (at sbox) s

pub inv_sub_bytes : List ℕ → List ℕ
inv_sub_bytes s = map (at inv_sbox) s

-- `shift_rows`, `inv_shift_rows`: where each byte of the new state comes from.
pub shift_rows : List ℕ → List ℕ
shift_rows s =
    at s 0
    ∷ at s 5
    ∷ at s 10
    ∷ at s 15
    ∷ at s 4
    ∷ at s 9
    ∷ at s 14
    ∷ at s 3
    ∷ at s 8
    ∷ at s 13
    ∷ at s 2
    ∷ at s 7
    ∷ at s 12
    ∷ at s 1
    ∷ at s 6
    ∷ at s 11
    ∷ []

pub inv_shift_rows : List ℕ → List ℕ
inv_shift_rows s =
    at s 0
    ∷ at s 13
    ∷ at s 10
    ∷ at s 7
    ∷ at s 4
    ∷ at s 1
    ∷ at s 14
    ∷ at s 11
    ∷ at s 8
    ∷ at s 5
    ∷ at s 2
    ∷ at s 15
    ∷ at s 12
    ∷ at s 9
    ∷ at s 6
    ∷ at s 3
    ∷ []

-- `a ^ b ^ c ^ d`
pub xor4 : ℕ → ℕ → ℕ → ℕ → ℕ
xor4 a b c d = bit_xor (bit_xor (bit_xor a b) c) d

-- One round of the loops of `mix_columns` and `inv_mix_columns`.
pub mix_column : ℕ → ℕ → ℕ → ℕ → List ℕ
mix_column a b c d =
    xor4 (at mul2 a) (at mul3 b) c d
    ∷ xor4 a (at mul2 b) (at mul3 c) d
    ∷ xor4 a b (at mul2 c) (at mul3 d)
    ∷ xor4 (at mul3 a) b c (at mul2 d)
    ∷ []

pub inv_mix_column : ℕ → ℕ → ℕ → ℕ → List ℕ
inv_mix_column a b c d =
    xor4 (at mul14 a) (at mul11 b) (at mul13 c) (at mul9 d)
    ∷ xor4 (at mul9 a) (at mul14 b) (at mul11 c) (at mul13 d)
    ∷ xor4 (at mul13 a) (at mul9 b) (at mul14 c) (at mul11 d)
    ∷ xor4 (at mul11 a) (at mul13 b) (at mul9 c) (at mul14 d)
    ∷ []

-- The four columns, each by `f`.
pub columns : (ℕ → ℕ → ℕ → ℕ → List ℕ) → List ℕ → List ℕ
columns f s =
    f (at s 0) (at s 1) (at s 2) (at s 3)
    ++ (f (at s 4) (at s 5) (at s 6) (at s 7)
        ++ (f (at s 8) (at s 9) (at s 10) (at s 11) ++ f (at s 12) (at s 13) (at s 14) (at s 15)))

pub mix_columns : List ℕ → List ℕ
mix_columns s = columns mix_column s

pub inv_mix_columns : List ℕ → List ℕ
inv_mix_columns s = columns inv_mix_column s

-- The loop that xors bytes into a buffer, as long as the buffer is.
pub xor_bytes : List ℕ → List ℕ → List ℕ
xor_bytes [] ks = []
xor_bytes (x ∷ xs) [] = bit_xor x 0 ∷ xor_bytes xs []
xor_bytes (x ∷ xs) (k ∷ ks) = bit_xor x k ∷ xor_bytes xs ks

-- `round_key + round * 16`
pub round_key : List ℕ → ℕ → List ℕ
round_key rk round = take 16 (drop (round * 16) rk)

pub add_round_key : List ℕ → List ℕ → List ℕ
add_round_key s k = xor_bytes s k

-- The schedule of `aes_init`: the temporary word of round `i`, and the words from `i` on.
pub rotated : List ℕ → ℕ → List ℕ
rotated t i =
    bit_xor (at sbox (at t 1)) (at rcon (i / 4))
    ∷ at sbox (at t 2)
    ∷ at sbox (at t 3)
    ∷ at sbox (at t 0)
    ∷ []

pub schedule_word : List ℕ → ℕ → List ℕ
schedule_word rk i =
    let temp = take 4 (drop ((i - 1) * 4) rk) in
    xor_bytes (take 4 (drop ((i - 4) * 4) rk)) (if i % 4 == 0 then rotated temp i else temp)

pub expand : ℕ → ℕ → List ℕ → List ℕ
expand zero i rk = rk
expand (suc n) i rk = expand n (i + 1) (rk ++ schedule_word rk i)

-- `aes_init` on a key of 16 bytes: the words 4 to 43 behind it.
pub init : List ℕ → List ℕ
init key = expand 40 4 (take 16 key)

-- `AES_NUM_ROUNDS`
abbrev pub num_rounds : ℕ
num_rounds = 10

-- The rounds 1 to `n` of `aes_encrypt_block_sw`.
pub encrypt_rounds : ℕ → List ℕ → List ℕ → List ℕ
encrypt_rounds zero rk s = s
encrypt_rounds (suc n) rk s =
    add_round_key (mix_columns (shift_rows (sub_bytes (encrypt_rounds n rk s))))
      (round_key rk (suc n))

-- `aes_encrypt_block_sw`
pub encrypt_block_sw : List ℕ → List ℕ → List ℕ
encrypt_block_sw rk block =
    let s = encrypt_rounds (num_rounds - 1) rk (add_round_key block (round_key rk 0)) in
    add_round_key (shift_rows (sub_bytes s)) (round_key rk num_rounds)

-- The rounds `n` down to 1 of `aes_decrypt_block_sw`.
pub decrypt_rounds : ℕ → List ℕ → List ℕ → List ℕ
decrypt_rounds zero rk s = s
decrypt_rounds (suc n) rk s =
    decrypt_rounds n rk
      (inv_mix_columns (add_round_key (inv_sub_bytes (inv_shift_rows s)) (round_key rk (suc n))))

-- `aes_decrypt_block_sw`
pub decrypt_block_sw : List ℕ → List ℕ → List ℕ
decrypt_block_sw rk block =
    let s = decrypt_rounds (num_rounds - 1) rk (add_round_key block (round_key rk num_rounds)) in
    add_round_key (inv_sub_bytes (inv_shift_rows s)) (round_key rk 0)

-- The processor's instructions, each on a state and a key register.
pub record Hardware : Type 0 where
  pub aesenc : List ℕ → List ℕ → List ℕ
  pub aesenclast : List ℕ → List ℕ → List ℕ
  pub aesdec : List ℕ → List ℕ → List ℕ
  pub aesdeclast : List ℕ → List ℕ → List ℕ
  pub aesimc : List ℕ → List ℕ

-- `n` pairs of a load of the next key and an `aesenc`.
pub encrypt_rounds_ni : Hardware → ℕ → List ℕ → List ℕ → List ℕ
encrypt_rounds_ni hw zero rk s = s
encrypt_rounds_ni hw (suc n) rk s = hw.aesenc (encrypt_rounds_ni hw n rk s) (round_key rk (suc n))

-- `aes_encrypt_block_ni`
pub encrypt_block_ni : Hardware → List ℕ → List ℕ → List ℕ
encrypt_block_ni hw rk block =
    hw.aesenclast (encrypt_rounds_ni hw 9 rk (xor_bytes block (round_key rk 0))) (round_key rk 10)

pub decrypt_rounds_ni : Hardware → ℕ → List ℕ → List ℕ → List ℕ
decrypt_rounds_ni hw zero rk s = s
decrypt_rounds_ni hw (suc n) rk s =
    decrypt_rounds_ni hw n rk (hw.aesdec s (hw.aesimc (round_key rk (suc n))))

-- `aes_decrypt_block_ni`
pub decrypt_block_ni : Hardware → List ℕ → List ℕ → List ℕ
decrypt_block_ni hw rk block =
    hw.aesdeclast (decrypt_rounds_ni hw 9 rk (xor_bytes block (round_key rk 10))) (round_key rk 0)

module _ (aesni_available : Bool) (hw : Hardware) where
  -- `aes_encrypt_block`, `aes_decrypt_block`
  pub encrypt_block : List ℕ → List ℕ → List ℕ
  encrypt_block rk block =
      if aesni_available then encrypt_block_ni hw rk block else encrypt_block_sw rk block

  pub decrypt_block : List ℕ → List ℕ → List ℕ
  decrypt_block rk block =
      if aesni_available then decrypt_block_ni hw rk block else decrypt_block_sw rk block

  -- The loop of `aes_cbc_encrypt` over `n` blocks; `prev` is the block that it xors in.
  pub cbc_encrypt_blocks : ℕ → List ℕ → List ℕ → List ℕ → List ℕ
  cbc_encrypt_blocks zero rk prev plaintext = []
  cbc_encrypt_blocks (suc n) rk prev plaintext =
      let c = encrypt_block rk (xor_bytes (take 16 plaintext) prev) in
      c ++ cbc_encrypt_blocks n rk c (drop 16 plaintext)

  -- `aes_cbc_encrypt`, on a length that is a multiple of 16
  pub cbc_encrypt : List ℕ → List ℕ → List ℕ → List ℕ
  cbc_encrypt rk iv plaintext = cbc_encrypt_blocks (length plaintext / 16) rk iv plaintext

  pub cbc_decrypt_blocks : ℕ → List ℕ → List ℕ → List ℕ → List ℕ
  cbc_decrypt_blocks zero rk prev ciphertext = []
  cbc_decrypt_blocks (suc n) rk prev ciphertext =
      let c = take 16 ciphertext in
      xor_bytes (decrypt_block rk c) prev ++ cbc_decrypt_blocks n rk c (drop 16 ciphertext)

  -- `aes_cbc_decrypt`
  pub cbc_decrypt : List ℕ → List ℕ → List ℕ → List ℕ
  cbc_decrypt rk iv ciphertext = cbc_decrypt_blocks (length ciphertext / 16) rk iv ciphertext
