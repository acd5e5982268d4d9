-- ===== src/Prelude/Bytes.antt =====
-- Little-endian integers as byte lists, and back.
use Prim.Native.Nat.{ℕ, zero, suc, ◌+◌, ◌*◌, ◌/◌, ◌%◌, ◌^◌, ◌<◌}
use native.Mathlib.Nat.{pow-suc}
use native.Mathlib.Omega.{arith}
use mathlib.Core.Path.{◌≡◌, refl, ap}
use mathlib.Core.List.{List, [], ◌∷◌, ◌++◌}
use vault_os.Prelude.Lists.{length, drop}

-- The `k` low bytes of a number, lowest first.
unfoldable pub le_bytes : ℕ → ℕ → List ℕ
le_bytes zero v = []
le_bytes (suc k) v = v % 256 ∷ le_bytes k (v / 256)

-- The number that the first `k` bytes stand for.
unfoldable pub read_le : ℕ → List ℕ → ℕ
read_le zero bs = 0
read_le (suc k) [] = 0
read_le (suc k) (b ∷ bs) = b + 256 * read_le k bs

pub length-le_bytes : (k v : ℕ) → length (le_bytes k v) ≡ k
unfolding le_bytes
length-le_bytes zero v = refl
length-le_bytes (suc k) v = ap suc (length-le_bytes k (v / 256))

pub read_le-le_bytes :
    (k v : ℕ) (rest : List ℕ) → v < 256 ^ k → read_le k (le_bytes k v ++ rest) ≡ v
unfolding le_bytes read_le
read_le-le_bytes zero v rest h = omega arith
read_le-le_bytes (suc k) v rest h =
    omega (arith, read_le-le_bytes k (v / 256) rest (omega (arith, pow-suc 256 k)))

pub drop-le_bytes : (k v : ℕ) (rest : List ℕ) → drop k (le_bytes k v ++ rest) ≡ rest
unfolding le_bytes
drop-le_bytes zero v rest = refl
drop-le_bytes (suc k) v rest = drop-le_bytes k (v / 256) rest
