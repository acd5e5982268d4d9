-- ===== src/Crypto/Aes/Inverse.antt =====
-- kernel/crypto/aes.c: the software decryption of a block undoes its encryption, and blocks of
-- bytes stay blocks of bytes.
use vault_os.Prelude.{
  ℕ, zero, suc, ◌+◌, ◌-◌, ◌*◌, ◌/◌, ◌%◌, ◌≤◌, List, ◌++◌, Bool, true, false, if◌then◌else◌, ◌==◌,
  ◌≡◌, refl, ap, ◌∙◌, arith, length, take, drop, length-append, length-take, length-drop,
}
use vault_os.Prelude.Xor.{bit_xor-byte}
use vault_os.Crypto.Aes.{
  sub_bytes, inv_sub_bytes, shift_rows, inv_shift_rows, inv_mix_columns, round_key, add_round_key,
  encrypt_rounds, encrypt_block_sw, decrypt_rounds, decrypt_block_sw, rotated, schedule_word,
  expand, init,
}
use vault_os.Crypto.Aes.Tables.{rcon}
use vault_os.Crypto.Aes.Round.{
  AllBytes, IsBlock, inv_shift_rows-shift_rows, shift_rows-IsBlock, inv_sub_bytes-sub_bytes,
  sub_bytes-IsBlock, inv_mix_columns-mix_columns, mix_columns-IsBlock, xor_bytes_twice,
  xor_bytes-IsBlock, round_key-AllBytes, take-AllBytes, drop-AllBytes, append-AllBytes,
  xor_bytes-AllBytes, sbox-byte, at-byte, length-xor_bytes,
}

-- The part of a round before the columns are mixed, and back.
unshifted : (s : List ℕ) → IsBlock s → inv_sub_bytes (inv_shift_rows (shift_rows (sub_bytes s))) ≡ s
unshifted s h =
    let b = sub_bytes-IsBlock s h in
    ap inv_sub_bytes (inv_shift_rows-shift_rows (sub_bytes s) b.0) ∙ inv_sub_bytes-sub_bytes s h.1

pub shifted-IsBlock : (s : List ℕ) → IsBlock s → IsBlock (shift_rows (sub_bytes s))
shifted-IsBlock s h = shift_rows-IsBlock (sub_bytes s) (sub_bytes-IsBlock s h)

pub add_round_key-IsBlock :
    (s rk : List ℕ) (r : ℕ) → IsBlock s → AllBytes rk → IsBlock (add_round_key s (round_key rk r))
unfolding add_round_key
add_round_key-IsBlock s rk r h k =
    xor_bytes-IsBlock s (round_key rk r) h (round_key-AllBytes rk r k)

add_round_key_twice : (s k : List ℕ) → add_round_key (add_round_key s k) k ≡ s
unfolding add_round_key
add_round_key_twice s k = xor_bytes_twice s k

pub encrypt_rounds-IsBlock :
    (n : ℕ) (rk s : List ℕ) → IsBlock s → AllBytes rk → IsBlock (encrypt_rounds n rk s)
unfolding encrypt_rounds
encrypt_rounds-IsBlock zero rk s h k = h
encrypt_rounds-IsBlock (suc n) rk s h k =
    let before = encrypt_rounds-IsBlock n rk s h k in
    let mixed = mix_columns-IsBlock _ (shifted-IsBlock (encrypt_rounds n rk s) before).1 in
    add_round_key-IsBlock _ rk (suc n) mixed k

pub encrypt_block_sw-IsBlock :
    (rk block : List ℕ) → IsBlock block → AllBytes rk → IsBlock (encrypt_block_sw rk block)
unfolding encrypt_block_sw
encrypt_block_sw-IsBlock rk block h k =
    let start = add_round_key-IsBlock block rk 0 h k in
    let rounds = encrypt_rounds-IsBlock 9 rk _ start k in
    add_round_key-IsBlock _ rk 10 (shifted-IsBlock _ rounds) k

decrypt_rounds-encrypt_rounds :
    (n : ℕ) (rk s : List ℕ)
    → IsBlock s
    → AllBytes rk
    → decrypt_rounds n rk (shift_rows (sub_bytes (encrypt_rounds n rk s)))
      ≡ shift_rows (sub_bytes s)
unfolding encrypt_rounds decrypt_rounds
decrypt_rounds-encrypt_rounds zero rk s h k = refl
decrypt_rounds-encrypt_rounds (suc n) rk s h k =
    let before = shifted-IsBlock (encrypt_rounds n rk s) (encrypt_rounds-IsBlock n rk s h k) in
    let after = encrypt_rounds-IsBlock (suc n) rk s h k in
    let key = round_key rk (suc n) in
    ap (λ t. decrypt_rounds n rk (inv_mix_columns (add_round_key t key))) (unshifted _ after)
    ∙ ap (λ t. decrypt_rounds n rk (inv_mix_columns t)) (add_round_key_twice _ key)
    ∙ ap (decrypt_rounds n rk) (inv_mix_columns-mix_columns _ before)
    ∙ decrypt_rounds-encrypt_rounds n rk s h k

-- For every schedule of bytes and every block of 16 bytes, `aes_decrypt_block_sw` undoes
-- `aes_encrypt_block_sw`.
pub decrypt_block_sw-encrypt_block_sw :
    (rk block : List ℕ)
    → IsBlock block
    → AllBytes rk
    → decrypt_block_sw rk (encrypt_block_sw rk block) ≡ block
unfolding encrypt_block_sw decrypt_block_sw
decrypt_block_sw-encrypt_block_sw rk block h k =
    let start = add_round_key-IsBlock block rk 0 h k in
    let first = round_key rk 0 in
    ap (λ t. add_round_key (inv_sub_bytes (inv_shift_rows (decrypt_rounds 9 rk t))) first)
      (add_round_key_twice _ (round_key rk 10))
    ∙ ap (λ t. add_round_key (inv_sub_bytes (inv_shift_rows t)) first)
        (decrypt_rounds-encrypt_rounds 9 rk _ start k)
    ∙ ap (λ t. add_round_key t first) (unshifted _ start)
    ∙ add_round_key_twice block first

rcon-AllBytes : AllBytes rcon
unfolding rcon
rcon-AllBytes = (
  omega arith,
  (
    omega arith,
    (
      omega arith,
      (
        omega arith,
        (
          omega arith,
          (
            omega arith,
            (omega arith, (omega arith, (omega arith, (omega arith, (omega arith, tt))))),
          ),
        ),
      ),
    ),
  ),
)

rotated-AllBytes : (t : List ℕ) (i : ℕ) → AllBytes t → AllBytes (rotated t i)
unfolding rotated
rotated-AllBytes t i h = (
  bit_xor-byte _ _ (sbox-byte _ (at-byte t 1 h)) (at-byte rcon (i / 4) rcon-AllBytes),
  (sbox-byte _ (at-byte t 2 h), (sbox-byte _ (at-byte t 3 h), (sbox-byte _ (at-byte t 0 h), tt))),
)

chosen-AllBytes :
    (b : Bool) (s t : List ℕ) → AllBytes s → AllBytes t → AllBytes (if b then s else t)
chosen-AllBytes true s t h k = h
chosen-AllBytes false s t h k = k

schedule_word-AllBytes : (rk : List ℕ) (i : ℕ) → AllBytes rk → AllBytes (schedule_word rk i)
unfolding schedule_word
schedule_word-AllBytes rk i h =
    let temp = take-AllBytes 4 (drop ((i - 1) * 4) rk) (drop-AllBytes ((i - 1) * 4) rk h) in
    xor_bytes-AllBytes _ _
      (take-AllBytes 4 (drop ((i - 4) * 4) rk) (drop-AllBytes ((i - 4) * 4) rk h))
      (chosen-AllBytes (i % 4 == 0) _ _ (rotated-AllBytes _ i temp) temp)

expand-AllBytes : (n i : ℕ) (rk : List ℕ) → AllBytes rk → AllBytes (expand n i rk)
unfolding expand
expand-AllBytes zero i rk h = h
expand-AllBytes (suc n) i rk h =
    expand-AllBytes n (i + 1) (rk ++ schedule_word rk i)
      (append-AllBytes rk (schedule_word rk i) h (schedule_word-AllBytes rk i h))

-- A key of bytes has a schedule of bytes.
pub init-AllBytes : (key : List ℕ) → AllBytes key → AllBytes (init key)
unfolding init
init-AllBytes key h = expand-AllBytes 40 4 (take 16 key) (take-AllBytes 16 key h)

length-schedule_word :
    (rk : List ℕ) (i : ℕ) → length rk ≡ i * 4 → 4 ≤ i → length (schedule_word rk i) ≡ 4
unfolding schedule_word
length-schedule_word rk i size low =
    length-xor_bytes (take 4 (drop ((i - 4) * 4) rk)) _
    ∙ omega (arith, length-take 4 (drop ((i - 4) * 4) rk), length-drop ((i - 4) * 4) rk)

length-expand :
    (n i : ℕ) (rk : List ℕ) → length rk ≡ i * 4 → 4 ≤ i → length (expand n i rk) ≡ (n + i) * 4
unfolding expand
length-expand zero i rk size low = omega arith
length-expand (suc n) i rk size low =
    let word = length-schedule_word rk i size low in
    let more : length (rk ++ schedule_word rk i) ≡ (i + 1) * 4 =
      omega (arith, length-append rk (schedule_word rk i)) in
    length-expand n (i + 1) (rk ++ schedule_word rk i) more (omega arith) ∙ omega arith

-- A schedule of 11 round keys.
abbrev pub IsSchedule : List ℕ → Type 0
IsSchedule rk = (length rk ≡ 176) × AllBytes rk

-- `aes_init` makes one from every key of at least 16 bytes.
pub init-IsSchedule : (key : List ℕ) → 16 ≤ length key → AllBytes key → IsSchedule (init key)
unfolding init
init-IsSchedule key n h =
    let size : length (take 16 key) ≡ 16 = omega (arith, length-take 16 key) in
    (length-expand 40 4 (take 16 key) size (omega arith), init-AllBytes key h)

pub round_key-IsBlock : (rk : List ℕ) (r : ℕ) → IsSchedule rk → r ≤ 10 → IsBlock (round_key rk r)
round_key-IsBlock rk r (n, h) low = (
  unfold round_key in omega (arith, length-take 16 (drop (r * 16) rk), length-drop (r * 16) rk),
  round_key-AllBytes rk r h,
)
