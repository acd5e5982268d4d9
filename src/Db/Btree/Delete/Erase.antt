-- ===== src/Db/Btree/Delete/Erase.antt =====
-- Deleting a key from the sorted list that a B-tree of kernel/db/btree.c stands for.
use vault_os.Prelude.{
  ℕ, zero, suc, ◌≤◌, ◌<◌, List, [], ◌∷◌, ◌++◌, none, if◌then◌else◌, ◌==◌, ◌≡◌, refl, arith, length,
}
use vault_os.Db.Btree.{Entry, entry_at}
use vault_os.Db.Btree.Delete.{remove_at}
use vault_os.Db.Btree.Model.{AllLt, AllGt, Sorted, lookup, lookup-greater}

-- The entry of the key is taken out.
unfoldable pub erase : ℕ → List Entry → List Entry
erase key [] = []
erase key ((k, v) ∷ es) = let rest = erase key es in if k == key then es else (k, v) ∷ rest

pub erase-before :
    (key : ℕ) (xs ys : List Entry) → AllLt key xs → erase key (xs ++ ys) ≡ xs ++ erase key ys
unfolding erase
erase-before key [] ys a = refl
erase-before key ((k, w) ∷ xs) ys a = ground (arith, erase-before key xs ys)

erase-greater : (key : ℕ) (ys : List Entry) → AllGt key ys → erase key ys ≡ ys
unfolding erase
erase-greater key [] a = refl
erase-greater key ((k, w) ∷ ys) a = ground (arith, erase-greater key ys)

pub erase-after :
    (key : ℕ) (xs ys : List Entry) → AllGt key ys → erase key (xs ++ ys) ≡ erase key xs ++ ys
unfolding erase
erase-after key [] ys a = erase-greater key ys a
erase-after key ((k, w) ∷ xs) ys a = ground (arith, erase-after key xs ys)

pub lookup-erase :
    (j key : ℕ) (es : List Entry)
    → Sorted es
    → lookup j (erase key es) ≡ (if key == j then none else lookup j es)
unfolding lookup erase
lookup-erase j key [] s = ground arith
lookup-erase j key ((k, w) ∷ es) s = ground (arith, lookup-erase j key es, lookup-greater k es s.0)

erase-AllGt : (j key : ℕ) (es : List Entry) → AllGt j es → AllGt j (erase key es)
unfolding erase
erase-AllGt j key [] a = tt
erase-AllGt j key ((k, w) ∷ es) a = ground (arith, erase-AllGt j key es)

pub erase-Sorted : (key : ℕ) (es : List Entry) → Sorted es → Sorted (erase key es)
unfolding erase
erase-Sorted key [] s = tt
erase-Sorted key ((k, w) ∷ es) s = ground (arith, erase-AllGt k key es s.0, erase-Sorted key es s.1)

-- Taking out the entry at the key's own place.
pub remove_at-erase :
    (key : ℕ) (es : List Entry) (i : ℕ)
    → Sorted es
    → i < length es
    → (entry_at es i).0 ≡ key
    → remove_at i es ≡ erase key es
unfolding remove_at erase entry_at
remove_at-erase key [] i s l e = refl
remove_at-erase key ((k, w) ∷ es) zero s l e = ground arith
remove_at-erase key ((k, w) ∷ es) (suc i) s l e =
    ground (arith, remove_at-erase key es i, AllGt-at k es i s.0)
  where
    AllGt-at :
        (j : ℕ) (es : List Entry) (i : ℕ) → AllGt j es → i < length es → j < (entry_at es i).0
    AllGt-at j [] i a l = absurd (omega arith)
    AllGt-at j (e ∷ es) zero a l = a.0
    AllGt-at j (e ∷ es) (suc i) a l = AllGt-at j es i a.1 (omega arith)

pub length-remove_at : (i : ℕ) (es : List Entry) → length (remove_at i es) ≤ length es
unfolding remove_at
length-remove_at i [] = omega arith
length-remove_at zero (e ∷ es) = omega arith
length-remove_at (suc i) (e ∷ es) = omega (arith, length-remove_at i es)
