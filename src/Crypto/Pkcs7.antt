-- ===== src/Crypto/Pkcs7.antt =====
-- The padding of PKCS7 in kernel/crypto/aes.c.
use vault_os.Prelude.{
  ℕ, zero, suc, ◌+◌, ◌-◌, ◌*◌, ◌/◌, ◌%◌, ◌≤◌, ◌<◌, List, [], ◌∷◌, ◌++◌, Bool, true, ◌||◌, ◌&&◌, not,
  if◌then◌else◌, ◌==◌, ltb, length, get_or, take, drop, replicate, ◌≡◌, refl, arith, length-append,
  length-replicate, ap, ◌∙◌, take-length-append, drop-length-append,
}

-- `aes_padded_size`
unfoldable pub padded_size : ℕ → ℕ
padded_size data_len = (data_len / 16 + 1) * 16

-- `aes_pkcs7_pad` of the bytes `buf` up to the length `buf_len`
unfoldable pub pad : List ℕ → ℕ → List ℕ
pad buf buf_len = buf ++ replicate (buf_len - length buf) ((buf_len - length buf) % 256)

-- The loop of `aes_pkcs7_unpad` over the last bytes.
unfoldable pub all_are : ℕ → List ℕ → Bool
all_are b [] = true
all_are b (x ∷ xs) = x == b && all_are b xs

-- `aes_pkcs7_unpad`
unfoldable pub unpad : List ℕ → ℕ
unpad buf =
    let n = length buf in
    let b = get_or buf (n - 1) 0 in
    if n == 0 || not (n % 16 == 0)
    then 0
    else if b == 0 || ltb 16 b
    then 0
    else if all_are b (drop (n - b) buf)
    then n - b
    else 0

all_are-replicate : (n b : ℕ) → all_are b (replicate n b) ≡ true
unfolding all_are
all_are-replicate zero b = refl
all_are-replicate (suc n) b = ground (arith, all_are-replicate n b)

get_or-append : (xs ys : List ℕ) (i d : ℕ) → get_or (xs ++ ys) (length xs + i) d ≡ get_or ys i d
get_or-append [] ys i d = ap (λ k. get_or ys k d) (omega arith)
get_or-append (x ∷ xs) ys i d =
    let shift : suc (length xs) + i ≡ suc (length xs + i) = omega arith in
    rw shift (get_or-append xs ys i d)

get_or-replicate_lt : (n i b d : ℕ) → i < n → get_or (replicate n b) i d ≡ b
get_or-replicate_lt zero i b d h = absurd (omega arith)
get_or-replicate_lt (suc n) zero b d h = refl
get_or-replicate_lt (suc n) (suc i) b d h = get_or-replicate_lt n i b d (omega arith)

pub length-pad :
    (buf : List ℕ) → length (pad buf (padded_size (length buf))) ≡ padded_size (length buf)
unfolding pad padded_size
length-pad buf =
    let k = (length buf / 16 + 1) * 16 - length buf in
    omega (arith, length-append buf (replicate k (k % 256)), length-replicate k (k % 256))

unpad_lem :
    (xs : List ℕ) (len b : ℕ)
    → length xs ≡ len + b
    → 0 < b
    → b ≤ 16
    → (len + b) % 16 ≡ 0
    → get_or xs (length xs - 1) 0 ≡ b
    → all_are b (drop len xs) ≡ true
    → unpad xs ≡ len
unfolding unpad
unpad_lem xs len b size pos small whole last same =
    let start : length xs - b ≡ len = omega arith in
    let aligned : length xs % 16 ≡ 0 = ap (λ n. n % 16) size ∙ whole in
    let kept : all_are b (drop (length xs - b) xs) ≡ true =
      ap (λ i. all_are b (drop i xs)) start ∙ same in
    rw last (ground (arith, kept))

pub unpad-padded : (buf : List ℕ) → unpad (pad buf (padded_size (length buf))) ≡ length buf
unfolding pad padded_size
unpad-padded buf =
    let k = (length buf / 16 + 1) * 16 - length buf in
    let byte : k % 256 ≡ k = omega arith in
    rw byte (
      let size : length (buf ++ replicate k k) ≡ length buf + k =
        length-append buf (replicate k k) ∙ ap (λ n. length buf + n) (length-replicate k k) in
      let last : length (buf ++ replicate k k) - 1 ≡ length buf + (k - 1) = omega arith in
      unpad_lem (buf ++ replicate k k) (length buf) k size (omega arith) (omega arith) (omega arith)
        (ap (λ i. get_or (buf ++ replicate k k) i 0) last
          ∙ get_or-append buf (replicate k k) (k - 1) 0
          ∙ get_or-replicate_lt k (k - 1) k 0 (omega arith))
        (ap (all_are k) (drop-length-append buf (replicate k k)) ∙ all_are-replicate k k))

-- A buffer that is padded to `aes_padded_size` of its length is found again by
-- `aes_pkcs7_unpad`: its length is the result, and the bytes before that are the buffer.
pub unpad-pad :
    (buf : List ℕ)
    → let padded = pad buf (padded_size (length buf)) in
      (unpad padded ≡ length buf) × (take (unpad padded) padded ≡ buf)
unpad-pad buf =
    let padded = pad buf (padded_size (length buf)) in
    (
      unpad-padded buf,
      ap (λ n. take n padded) (unpad-padded buf) ∙ unfold pad in take-length-append buf _,
    )
