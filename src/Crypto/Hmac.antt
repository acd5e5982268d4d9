-- ===== src/Crypto/Hmac.antt =====
-- kernel/crypto/hmac.c: the keyed hash HMAC-SHA256, with the contexts of both pads kept.
use Prim.Native.Nat.{bit_xor}
use vault_os.Prelude.{
  ℕ, zero, suc, ◌-◌, ◌≤◌, List, [], ◌∷◌, ◌++◌, refl, sym, arith, Bool-cases, inl, inr, ltb→le,
  if◌then◌else◌, ltb, length, replicate, map, ◌≡◌, ap, ◌∙◌,
}
use vault_os.Prelude.Xor.{zero-bit_xor}
use vault_os.Crypto.Sha256.{Context, init, update, final, sha256}
use vault_os.Crypto.Sha256.Blocks.{digest}
use vault_os.Crypto.Sha256.Stream.{init-Absorbed, update-Absorbed}
use vault_os.Crypto.Sha256.Final.{
  final-Absorbed, sha256-digest, sha256-IsDigest, IsDigest, final-IsDigest,
}

-- `hmac_ctx_t`
pub record HmacContext : Type 0 where
  pub inner_base : Context
  pub outer_base : Context

-- `key_block` of `hmac_ctx_init`: the key, or its hash, with zeros up to 64 bytes.
unfoldable pub key_block : List ℕ → List ℕ
key_block key =
    if ltb 64 (length key)
    then sha256 key ++ replicate (64 - 32) 0
    else key ++ replicate (64 - length key) 0

unfoldable pub padded_with : ℕ → List ℕ → List ℕ
padded_with pad key = map (λ b. bit_xor b pad) (key_block key)

-- `hmac_ctx_init`
unfoldable pub hmac_init : List ℕ → HmacContext
hmac_init key = record {
  inner_base = update init (padded_with 54 key);
  outer_base = update init (padded_with 92 key);
}

-- `hmac_ctx_compute`
unfoldable pub compute : HmacContext → List ℕ → List ℕ
compute ctx bytes =
    let inner_hash = final (update ctx.inner_base bytes) in final (update ctx.outer_base inner_hash)

-- `hmac_sha256`
unfoldable pub hmac_sha256 : List ℕ → List ℕ → List ℕ
hmac_sha256 key bytes = compute (hmac_init key) bytes

-- A context that has taken in a pad answers for the pad and the data behind it.
after_pad : (pad bytes : List ℕ) → final (update (update init pad) bytes) ≡ digest (pad ++ bytes)
after_pad pad bytes =
    final-Absorbed (update (update init pad) bytes) (pad ++ bytes)
      (update-Absorbed (update init pad) pad bytes (update-Absorbed init [] pad init-Absorbed))

-- The standard's pads: each of the `n` bytes is the pad's, exclusive or'ed with that of the key as
-- far as the key goes.
unfoldable pub pad_bytes : ℕ → ℕ → List ℕ → List ℕ
pad_bytes zero pad key = []
pad_bytes (suc n) pad [] = pad ∷ pad_bytes n pad []
pad_bytes (suc n) pad (b ∷ key) = bit_xor b pad ∷ pad_bytes n pad key

-- The key as the standard has it: hashed if it is longer than a block of 64 bytes.
unfoldable pub standard_key : List ℕ → List ℕ
standard_key key = if ltb 64 (length key) then digest key else key

-- The standard's HMAC.
unfoldable pub standard_hmac : List ℕ → List ℕ → List ℕ
standard_hmac key bytes =
    let k = standard_key key in digest (pad_bytes 64 92 k ++ digest (pad_bytes 64 54 k ++ bytes))

zeros-pad_bytes : (n pad : ℕ) → map (λ b. bit_xor b pad) (replicate n 0) ≡ pad_bytes n pad []
unfolding pad_bytes
zeros-pad_bytes zero pad = refl
zeros-pad_bytes (suc n) pad =
    let rest = zeros-pad_bytes n pad in
    ap (λ b. b ∷ map (λ b. bit_xor b pad) (replicate n 0)) (zero-bit_xor pad) ∙ ap (◌∷◌ pad) rest

filled-pad_bytes :
    (n pad : ℕ) (key : List ℕ)
    → length key ≤ n
    → map (λ b. bit_xor b pad) (key ++ replicate (n - length key) 0) ≡ pad_bytes n pad key
unfolding pad_bytes
filled-pad_bytes zero pad [] h = refl
filled-pad_bytes zero pad (b ∷ key) h = absurd (omega arith)
filled-pad_bytes (suc n) pad [] h =
    let whole : suc n - 0 ≡ suc n = omega arith in
    ap (λ k. map (λ b. bit_xor b pad) (replicate k 0)) whole ∙ zeros-pad_bytes (suc n) pad
filled-pad_bytes (suc n) pad (b ∷ key) h =
    let one : suc n - suc (length key) ≡ n - length key = omega arith in
    ap (λ k. bit_xor b pad ∷ map (λ c. bit_xor c pad) (key ++ replicate k 0)) one
    ∙ ap (◌∷◌ (bit_xor b pad)) (filled-pad_bytes n pad key (omega arith))

padded_with-standard :
    (pad : ℕ) (key : List ℕ) → padded_with pad key ≡ pad_bytes 64 pad (standard_key key)
unfolding padded_with key_block standard_key
padded_with-standard pad key = elim (Bool-cases (ltb 64 (length key))) [
  | inl long ↦
      let hash = sha256-digest key in
      let size : length (digest key) ≡ 32 = ap length (sym hash) ∙ (sha256-IsDigest key).0 in
      let spare : 64 - length (digest key) ≡ 32 = omega arith in
      rw long (
        ap (λ k. map (λ b. bit_xor b pad) (k ++ replicate 32 0)) hash
        ∙ ap (λ n. map (λ b. bit_xor b pad) (digest key ++ replicate n 0)) (sym spare)
        ∙ filled-pad_bytes 64 pad (digest key) (omega arith))
  | inr short ↦
      let fits = ltb→le 64 (length key) short in rw short (filled-pad_bytes 64 pad key fits)
]

-- For every key and all data, `hmac_ctx_compute` with the contexts that `hmac_ctx_init` has kept,
-- and `hmac_sha256` too, is the standard's HMAC over the standard's hash: a key of more than 64
-- bytes is hashed, the pads have 64 bytes, made from the key and 0x36 or 0x5c.
pub compute-hmac_init :
    (key bytes : List ℕ)
    → (compute (hmac_init key) bytes ≡ standard_hmac key bytes)
      × (hmac_sha256 key bytes ≡ standard_hmac key bytes)
unfolding compute hmac_init hmac_sha256 standard_hmac
compute-hmac_init key bytes =
    let k = standard_key key in
    let pads : digest (padded_with 92 key ++ digest (padded_with 54 key ++ bytes))
        ≡ digest (pad_bytes 64 92 k ++ digest (pad_bytes 64 54 k ++ bytes)) =
      rw (padded_with-standard 92 key, padded_with-standard 54 key) refl in
    let mac =
      after_pad (padded_with 92 key) (final (update (update init (padded_with 54 key)) bytes))
      ∙ ap (λ m. digest (padded_with 92 key ++ m)) (after_pad (padded_with 54 key) bytes)
      ∙ pads in
    (mac, mac)

-- A seal has 32 bytes.
pub compute-IsDigest : (ctx : HmacContext) (bytes : List ℕ) → IsDigest (compute ctx bytes)
unfolding compute
compute-IsDigest ctx bytes =
    final-IsDigest (update ctx.outer_base (final (update ctx.inner_base bytes)))

pub hmac_sha256-IsDigest : (key bytes : List ℕ) → IsDigest (hmac_sha256 key bytes)
unfolding hmac_sha256
hmac_sha256-IsDigest key bytes = compute-IsDigest (hmac_init key) bytes
