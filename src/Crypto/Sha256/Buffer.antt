-- ===== src/Crypto/Sha256/Buffer.antt =====
-- kernel/crypto/sha256.c: what the 64 bytes of a context's buffer hold.
use vault_os.Prelude.{
  ℕ, ◌+◌, ◌≤◌, List, [], ◌++◌, ◌≡◌, refl, ap, sym, ◌∙◌, arith, length, take, drop, length-append,
  length-take, length-drop, take-length-append, append_assoc, take_all,
}
use vault_os.Crypto.Sha256.{write}

-- The buffer begins with `xs`.
abbrev pub Holds : List ℕ → List ℕ → Type 0
Holds buffer xs = (length buffer ≡ 64) × (take (length xs) buffer ≡ xs)

length-write :
    (dst src : List ℕ) (i : ℕ) → i + length src ≤ length dst → length (write dst i src) ≡ length dst
unfolding write
length-write dst src i h = omega (
  arith,
  length-append (take i dst) (src ++ drop (i + length src) dst),
  length-append src (drop (i + length src) dst),
  length-take i dst,
  length-drop (i + length src) dst,
)

-- What is written behind `xs` is held behind `xs`.
pub write-Holds :
    (buffer xs ys : List ℕ) (i : ℕ)
    → i ≡ length xs
    → Holds buffer xs
    → length xs + length ys ≤ 64
    → Holds (write buffer i ys) (xs ++ ys)
write-Holds buffer xs ys i behind (n, h) room =
    let tail = drop (length xs + length ys) buffer in
    let laid : write buffer (length xs) ys ≡ (xs ++ ys) ++ tail =
      unfold write in ap (λ t. t ++ (ys ++ tail)) h ∙ sym (append_assoc xs ys tail) in
    rw behind (
      length-write buffer ys (length xs) (omega arith) ∙ n,
      ap (take (length (xs ++ ys))) laid ∙ take-length-append (xs ++ ys) tail,
    )

pub empty-Holds : (buffer : List ℕ) → length buffer ≡ 64 → Holds buffer []
empty-Holds buffer n = (n, refl)

-- A full buffer is what it holds.
pub full-Holds : (buffer xs : List ℕ) → Holds buffer xs → length xs ≡ 64 → buffer ≡ xs
full-Holds buffer xs (n, h) full = sym (take_all (length xs) buffer (omega arith)) ∙ h
