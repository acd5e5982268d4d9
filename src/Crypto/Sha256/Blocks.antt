-- ===== src/Crypto/Sha256/Blocks.antt =====
-- SHA-256 as its standard states it: the padded message in blocks of 64 bytes, each through the
-- compression function of kernel/crypto/sha256.c.
use vault_os.Prelude.{
  ℕ, zero, suc, ◌+◌, ◌-◌, ◌*◌, ◌/◌, ◌%◌, ◌^◌, ◌≤◌, List, [], ◌∷◌, ◌++◌, ◌≡◌, refl, ap, sym, ◌∙◌,
  arith, length, take, drop, replicate, lt→ltb, le→ltb, length-take, length-drop, take-append-drop,
  take_all, take-append_le, drop-append_le,
}
use vault_os.Crypto.Sha256.{transform, initial, full_blocks, be_bytes, output}

-- `n` blocks of the bytes.
unfoldable pub blocks : ℕ → List ℕ → List ℕ → List ℕ
blocks zero state bytes = state
blocks (suc n) state bytes = blocks n (transform state (take 64 bytes)) (drop 64 bytes)

-- The mark, zeros up to 8 bytes before the end of a block, and the length in bits.
unfoldable pub padding : ℕ → List ℕ
padding len = 128 ∷ (replicate ((119 - len % 64) % 64) 0 ++ be_bytes 8 (len * 8 % 2 ^ 64))

unfoldable pub digest : List ℕ → List ℕ
digest message =
    let padded = message ++ padding (length message) in
    output (blocks (length padded / 64) initial padded)

-- Blocks behind `n` blocks that are `xs`.
pub blocks-append :
    (n k : ℕ) (state xs ys : List ℕ)
    → length xs ≡ n * 64
    → blocks (n + k) state (xs ++ ys) ≡ blocks k (blocks n state xs) ys
unfolding blocks
blocks-append zero k state [] ys h =
    let none_more : 0 + k ≡ k = omega arith in ap (λ m. blocks m state ys) none_more
blocks-append zero k state (x ∷ xs) ys h = absurd (omega arith)
blocks-append (suc n) k state xs ys h =
    let more : suc n + k ≡ suc (n + k) = omega arith in
    let first = take-append_le 64 xs ys (omega arith) in
    let others = drop-append_le 64 xs ys (omega arith) in
    ap (λ m. blocks m state (xs ++ ys)) more
    ∙ ap (λ t. blocks (n + k) (transform state t) (drop 64 (xs ++ ys))) first
    ∙ ap (blocks (n + k) (transform state (take 64 xs))) others
    ∙ blocks-append n k (transform state (take 64 xs)) (drop 64 xs) ys
        (omega (arith, length-drop 64 xs))

-- One block more.
pub blocks-suc :
    (n : ℕ) (state xs b : List ℕ)
    → length xs ≡ n * 64
    → length b ≡ 64
    → blocks (n + 1) state (xs ++ b) ≡ transform (blocks n state xs) b
blocks-suc n state xs b h full =
    blocks-append n 1 state xs b h
    ∙ unfold blocks in ap (transform (blocks n state xs)) (take_all 64 b (omega arith))

-- Only the bytes of the blocks count.
pub blocks-take :
    (n : ℕ) (state bytes : List ℕ)
    → n * 64 ≤ length bytes
    → blocks n state bytes ≡ blocks n state (take (n * 64) bytes)
blocks-take n state bytes h =
    let size : length (take (n * 64) bytes) ≡ n * 64 = omega (arith, length-take (n * 64) bytes) in
    let none_more : n ≡ n + 0 = omega arith in
    ap (λ m. blocks m state bytes) none_more
    ∙ ap (blocks (n + 0) state) (sym (take-append-drop (n * 64) bytes))
    ∙ blocks-append n 0 state (take (n * 64) bytes) (drop (n * 64) bytes) size
    ∙ unfold blocks in refl

drop-drop : (i j : ℕ) (bytes : List ℕ) → drop i (drop j bytes) ≡ drop (j + i) bytes
drop-drop i zero bytes = let same : 0 + i ≡ i = omega arith in rw same
drop-drop zero (suc j) [] = let same : suc j + 0 ≡ suc j = omega arith in rw same
drop-drop (suc i) (suc j) [] = let same : suc j + suc i ≡ suc (j + suc i) = omega arith in rw same
drop-drop i (suc j) (b ∷ bytes) =
    let same : suc j + i ≡ suc (j + i) = omega arith in rw same (drop-drop i j bytes)

-- With enough fuel the loop takes the whole blocks, and leaves what is behind them.
pub full_blocks-blocks :
    (fuel k : ℕ) (state bytes : List ℕ)
    → length bytes ≤ fuel
    → length bytes / 64 ≡ k
    → full_blocks fuel state bytes ≡ (blocks k state bytes, drop (k * 64) bytes)
unfolding full_blocks blocks
full_blocks-blocks zero k state bytes enough e = let none : k ≡ 0 = omega arith in rw none refl
full_blocks-blocks (suc fuel) zero state bytes enough e =
    rw (lt→ltb (length bytes) 64 (omega arith))
full_blocks-blocks (suc fuel) (suc k) state bytes enough e =
    let rest =
      full_blocks-blocks fuel k (transform state (take 64 bytes)) (drop 64 bytes)
        (omega (arith, length-drop 64 bytes)) (omega (arith, length-drop 64 bytes)) in
    let next : suc k * 64 ≡ 64 + k * 64 = omega arith in
    let whole = le→ltb (length bytes) 64 (omega arith) in rw (whole, rest, drop-drop, next)
