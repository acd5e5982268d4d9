-- ===== src/Crypto/Sha256/Final.antt =====
-- kernel/crypto/sha256.c: the digest of what a context has taken in, and of data at once.
use mathlib.Core.Path.{subst}
use vault_os.Prelude.{
  ℕ, zero, suc, ◌+◌, ◌-◌, ◌*◌, ◌/◌, ◌%◌, ◌^◌, ◌≤◌, List, [], ◌∷◌, ◌++◌, ◌≡◌, refl, ap, sym, ◌∙◌,
  arith, length, replicate, ltb, length-append, length-replicate, append_assoc, append-nil,
  Bool-cases, inl, inr, ltb→lt, ltb→le,
}
use vault_os.Crypto.Sha256.{
  Context, transform, initial, init, write, update, be_bytes, output, finish, final, sha256,
}
use vault_os.Crypto.Aes.Round.{AllBytes, append-AllBytes}
use vault_os.Crypto.Sha256.Buffer.{Holds, write-Holds, empty-Holds, full-Holds}
use vault_os.Crypto.Sha256.Blocks.{blocks, padding, digest, blocks-suc}
use vault_os.Crypto.Sha256.Stream.{Absorbed, init-Absorbed, update-Absorbed}

length-be_bytes : (k v : ℕ) → length (be_bytes k v) ≡ k
unfolding be_bytes
length-be_bytes zero v = refl
length-be_bytes (suc k) v = ap suc (length-be_bytes k v)

replicate_add : (m n v : ℕ) → replicate (m + n) v ≡ replicate m v ++ replicate n v
replicate_add zero n v = let same : 0 + n ≡ n = omega arith in rw same
replicate_add (suc m) n v =
    let same : suc m + n ≡ suc (m + n) = omega arith in rw (same, replicate_add m n v)

last_block : List ℕ → ℕ → List ℕ
last_block xs bits = (xs ++ replicate (56 - length xs) 0) ++ be_bytes 8 bits

length-last_block : (xs : List ℕ) (bits : ℕ) → length xs ≤ 56 → length (last_block xs bits) ≡ 64
unfolding last_block
length-last_block xs bits h = omega (
  arith,
  length-append (xs ++ replicate (56 - length xs) 0) (be_bytes 8 bits),
  length-append xs (replicate (56 - length xs) 0),
  length-replicate {A = ℕ} (56 - length xs) 0,
  length-be_bytes 8 bits,
)

finish-last_block :
    (bits : ℕ) (state buffer xs : List ℕ) (pad_start : ℕ)
    → pad_start ≡ length xs
    → Holds buffer xs
    → length xs ≤ 56
    → finish bits state buffer pad_start ≡ output (transform state (last_block xs bits))
unfolding finish last_block
finish-last_block bits state buffer xs pad_start at held h =
    let zeros = replicate (56 - length xs) 0 in
    let zeroed =
      write-Holds buffer xs zeros (length xs) refl held
        (omega (arith, length-replicate {A = ℕ} (56 - length xs) 0)) in
    let end : 56 ≡ length (xs ++ zeros) =
      omega (arith, length-append xs zeros, length-replicate {A = ℕ} (56 - length xs) 0) in
    let counted =
      write-Holds (write buffer (length xs) zeros) (xs ++ zeros) (be_bytes 8 bits) 56 end zeroed
        (omega (arith, length-be_bytes 8 bits)) in
    rw at (
      ap (λ b. output (transform state b))
        (full-Holds _ (last_block xs bits) counted
          (unfold last_block in length-last_block xs bits h)))

divided : (n k : ℕ) → n ≡ k * 64 → n / 64 ≡ k
divided n k h = omega arith

module _ (ctx : Context) (message : List ℕ) (a : Absorbed ctx message) where
  bits : ℕ
  bits = ctx.count * 8 % 2 ^ 64

  in_buffer : ctx.count % 64 ≡ length a.rest
  in_buffer =
      let size = ap length a.split ∙ length-append a.done a.rest in
      omega (arith, size, a.counted, a.whole, a.part)

  bits_of_message : bits ≡ length message * 8 % 2 ^ 64
  unfolding bits
  bits_of_message = omega (arith, a.counted)

  marked : Holds (write ctx.buffer (length a.rest) (128 ∷ [])) (a.rest ++ 128 ∷ [])
  marked =
      write-Holds ctx.buffer a.rest (128 ∷ []) (length a.rest) refl a.held (omega (arith, a.part))

  length-marked : length (a.rest ++ 128 ∷ []) ≡ length a.rest + 1
  length-marked = length-append a.rest (128 ∷ [])

  low : length message % 64 ≡ length a.rest
  low = omega (arith, ap length a.split ∙ length-append a.done a.rest, a.whole, a.part)

  -- The padded message, with `z` zeros.
  padded_split :
      (z : ℕ)
      → (119 - length message % 64) % 64 ≡ z
      → message ++ padding (length message)
        ≡ a.done ++ (a.rest ++ (128 ∷ (replicate z 0 ++ be_bytes 8 bits)))
  unfolding padding
  padded_split z zeros =
      ap (λ k. message ++ (128 ∷ (replicate k 0 ++ be_bytes 8 (length message * 8 % 2 ^ 64)))) zeros
      ∙ ap (λ c. message ++ (128 ∷ (replicate z 0 ++ be_bytes 8 c))) (sym bits_of_message)
      ∙ ap (λ m. m ++ (128 ∷ (replicate z 0 ++ be_bytes 8 bits))) a.split
      ∙ append_assoc a.done a.rest _

  digest_of_padded :
      (padded : List ℕ) (n : ℕ)
      → message ++ padding (length message) ≡ padded
      → length padded ≡ n * 64
      → digest message ≡ output (blocks n initial padded)
  unfolding digest
  digest_of_padded padded n same size =
      ap (λ p. output (blocks (length p / 64) initial p)) same
      ∙ ap (λ k. output (blocks k initial padded)) (divided (length padded) n size)

  -- The padding fits in the block.
  digest_one :
      length a.rest ≤ 55
      → digest message ≡ output (transform ctx.state (last_block (a.rest ++ 128 ∷ []) bits))
  digest_one fits =
      let xs = a.rest ++ 128 ∷ [] in
      let b = last_block xs bits in
      let size = length-last_block xs bits (omega (arith, length-marked)) in
      let same : message ++ padding (length message) ≡ a.done ++ b =
        padded_split (56 - length xs) (omega (arith, low, length-marked))
        ∙ ap (λ t. a.done ++ t)
            (sym (append_assoc a.rest (128 ∷ []) _)
              ∙ unfold last_block in
                sym (append_assoc xs (replicate (56 - length xs) 0) (be_bytes 8 bits))) in
      digest_of_padded (a.done ++ b) (a.full + 1) same
        (omega (arith, length-append a.done b, a.whole, size))
      ∙ ap output
          (blocks-suc a.full initial a.done b a.whole size ∙ ap (λ s. transform s b) (sym a.ran))

  -- The mark fills the block, or leaves less than the count of bits takes: zeros to its end.
  overflowing : List ℕ
  overflowing = (a.rest ++ 128 ∷ []) ++ replicate (64 - (length a.rest + 1)) 0

  length-overflowing : length overflowing ≡ 64
  unfolding overflowing
  length-overflowing = omega (
    arith,
    a.part,
    length-marked,
    length-append (a.rest ++ 128 ∷ []) (replicate (64 - (length a.rest + 1)) 0),
    length-replicate {A = ℕ} (64 - (length a.rest + 1)) 0,
  )

  digest_two :
      56 ≤ length a.rest
      → digest message ≡ output (transform (transform ctx.state overflowing) (last_block [] bits))
  unfolding last_block overflowing
  digest_two long =
      let gap = 64 - (length a.rest + 1) in
      let b = overflowing in
      let c = last_block [] bits in
      let zeros : (119 - length message % 64) % 64 ≡ gap + 56 = omega (arith, low, a.part) in
      let same : message ++ padding (length message) ≡ (a.done ++ b) ++ c =
        padded_split (gap + 56) zeros
        ∙ ap (λ z. a.done ++ (a.rest ++ (128 ∷ (z ++ be_bytes 8 bits)))) (replicate_add gap 56 0)
        ∙ ap (λ t. a.done ++ (a.rest ++ (128 ∷ t)))
            (append_assoc (replicate gap 0) (replicate 56 0) (be_bytes 8 bits))
        ∙ ap (λ t. a.done ++ t)
            (sym (append_assoc a.rest (128 ∷ []) _)
              ∙ sym (append_assoc (a.rest ++ 128 ∷ []) (replicate gap 0) (last_block [] bits)))
        ∙ sym (append_assoc a.done b c) in
      let size = length-last_block [] bits (omega arith) in
      let first = length-append a.done b in
      digest_of_padded ((a.done ++ b) ++ c) (a.full + 1 + 1) same
        (omega (arith, first, length-append (a.done ++ b) c, a.whole, size, length-overflowing))
      ∙ ap output (
          blocks-suc (a.full + 1) initial (a.done ++ b) c
            (omega (arith, first, a.whole, length-overflowing)) size
          ∙ ap (λ s. transform s c)
              (blocks-suc a.full initial a.done b a.whole length-overflowing
                ∙ ap (λ s. transform s b) (sym a.ran)))

  final-long :
      56 ≤ length a.rest
      → let zeroed =
          write
            (write ctx.buffer (length a.rest) (128 ∷ []))
            (length a.rest + 1)
            (replicate (64 - (length a.rest + 1)) 0) in
        finish bits (transform ctx.state zeroed) zeroed 0 ≡ digest message
  unfolding overflowing
  final-long long =
      let gap : List ℕ = replicate (64 - (length a.rest + 1)) 0 in
      let zeroed = write (write ctx.buffer (length a.rest) (128 ∷ [])) (length a.rest + 1) gap in
      let holds : Holds zeroed overflowing =
        write-Holds _ (a.rest ++ 128 ∷ []) gap (length a.rest + 1) (sym length-marked) marked (
          omega (
            arith,
            a.part,
            length-marked,
            length-replicate {A = ℕ} (64 - (length a.rest + 1)) 0,
          )) in
      finish-last_block bits (transform ctx.state zeroed) zeroed [] 0 refl
        (empty-Holds zeroed holds.0) (omega arith)
      ∙ ap (λ b. output (transform (transform ctx.state b) (last_block [] bits)))
          (full-Holds zeroed overflowing holds length-overflowing)
      ∙ sym (digest_two long)

  -- The digest that `sha256_final` gives is the message's.
  pub final-Absorbed : final ctx ≡ digest message
  unfolding final
  final-Absorbed = rw in_buffer (elim (Bool-cases (ltb 56 (length a.rest + 1))) [
    | inl long ↦
        rw long (unfold bits in final-long (omega (arith, ltb→lt 56 (length a.rest + 1) long)))
    | inr short ↦
        let fits = ltb→le 56 (length a.rest + 1) short in
        rw short (
          unfold bits in
          finish-last_block bits ctx.state _ (a.rest ++ 128 ∷ []) (length a.rest + 1)
            (sym length-marked) marked (omega (arith, fits, length-marked))
          ∙ sym (digest_one (omega arith)))
  ])

-- Calls of `sha256_update` on one piece after another, and the message that they make.
pub updates : Context → List (List ℕ) → Context
updates ctx [] = ctx
updates ctx (p ∷ ps) = updates (update ctx p) ps

pub joined : List (List ℕ) → List ℕ
joined [] = []
joined (p ∷ ps) = p ++ joined ps

updates-Absorbed :
    (ctx : Context) (message : List ℕ) (ps : List (List ℕ))
    → Absorbed ctx message
    → Absorbed (updates ctx ps) (message ++ joined ps)
unfolding updates joined
updates-Absorbed ctx message [] a = subst (Absorbed ctx) (sym (append-nil message)) a
updates-Absorbed ctx message (p ∷ ps) a =
    subst (Absorbed (updates (update ctx p) ps)) (append_assoc message p (joined ps))
      (updates-Absorbed (update ctx p) (message ++ p) ps (update-Absorbed ctx message p a))

-- A message that `sha256_update` takes in any pieces, from the context of `sha256_init` on, has
-- from `sha256_final` the digest of the standard: the padded message in blocks of 64 bytes,
-- each through the compression function.
pub final-updates : (pieces : List (List ℕ)) → final (updates init pieces) ≡ digest (joined pieces)
final-updates pieces =
    final-Absorbed (updates init pieces) (joined pieces)
      (updates-Absorbed init [] pieces init-Absorbed)

pub sha256-digest : (bytes : List ℕ) → sha256 bytes ≡ digest bytes
unfolding sha256
sha256-digest bytes =
    final-Absorbed (update init bytes) bytes (update-Absorbed init [] bytes init-Absorbed)

be_bytes-AllBytes : (k v : ℕ) → AllBytes (be_bytes k v)
unfolding be_bytes
be_bytes-AllBytes zero v = tt
be_bytes-AllBytes (suc k) v = (omega arith, be_bytes-AllBytes k v)

output-AllBytes : (ws : List ℕ) → AllBytes (output ws)
unfolding output
output-AllBytes [] = tt
output-AllBytes (w ∷ ws) =
    append-AllBytes (be_bytes 4 w) (output ws) (be_bytes-AllBytes 4 w) (output-AllBytes ws)

length-output : (ws : List ℕ) → length (output ws) ≡ length ws * 4
unfolding output
length-output [] = refl
length-output (w ∷ ws) =
    omega (arith, length-append (be_bytes 4 w) (output ws), length-be_bytes 4 w, length-output ws)

length-transform : (state bytes : List ℕ) → length (transform state bytes) ≡ 8
unfolding transform
length-transform state bytes = refl

-- Every digest has 32 bytes.
abbrev pub IsDigest : List ℕ → Type 0
IsDigest d = (length d ≡ 32) × AllBytes d

finish-IsDigest : (bits : ℕ) (state buffer : List ℕ) (i : ℕ) → IsDigest (finish bits state buffer i)
unfolding finish
finish-IsDigest bits state buffer i =
    let last = write (write buffer i (replicate (56 - i) 0)) 56 (be_bytes 8 bits) in
    (
      length-output (transform state last) ∙ ap (λ n. n * 4) (length-transform state last),
      output-AllBytes (transform state last),
    )

pub final-IsDigest : (ctx : Context) → IsDigest (final ctx)
unfolding final
final-IsDigest ctx = elim (Bool-cases (ltb 56 (ctx.count % 64 + 1))) [
  | inl e ↦ rw e (finish-IsDigest _ _ _ 0)
  | inr e ↦ rw e (finish-IsDigest _ _ _ (ctx.count % 64 + 1))
]

pub sha256-IsDigest : (bytes : List ℕ) → IsDigest (sha256 bytes)
unfolding sha256
sha256-IsDigest bytes = final-IsDigest (update init bytes)
