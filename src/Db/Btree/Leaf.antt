-- ===== src/Db/Btree/Leaf.antt =====
-- The scans of `btree_insert_nonfull` in kernel/db/btree.c, and its leaf case.
use vault_os.Prelude.{
  ℕ, zero, suc, ◌-◌, ◌≤◌, ◌<◌, List, [], ◌∷◌, Option, true, false, ◌==◌, ◌≡◌, refl, ap, arith, ltb,
  length, take, drop, Bool-cases, ==→eq, ==→ne, inl, inr, ◌∙◌, sym, take-append-drop, length-append,
}
use mathlib.Core.Path.{subst}
use vault_os.Db.Btree.{Entry, entry_at, scan_right, same_key, set_value, insert_at, insert_leaf}
use vault_os.Db.Btree.Model.{AllLt, AllGt, Sorted, AllGt-weaken, upsert, upsert-between}
use vault_os.Db.Btree.Weave.{Passed}

pub scan-le : (key : ℕ) (es : List Entry) (n : ℕ) → scan_right key es n ≤ n
unfolding scan_right
scan-le key es zero = omega arith
scan-le key es (suc n) = ground (arith, scan-le key es n)

-- The key where the scan stops is above.
pub scan-above :
    (key : ℕ) (es : List Entry) (n : ℕ)
    → scan_right key es n < n
    → key < (entry_at es (scan_right key es n)).0
unfolding scan_right
scan-above key es zero h = absurd (omega arith)
scan-above key es (suc n) h = elim (Bool-cases (ltb key (entry_at es n).0)) [
  | inl e ↦ rw e (go (scan_right key es n) (scan-le key es n) (scan-above key es n))
  | inr e ↦ absurd (ground arith)
]
  where
    go : (r : ℕ) → r ≤ n → (r < n → key < (entry_at es r).0) → key < (entry_at es r).0
    go r le ih = elim (Bool-cases (r == n)) [
      | inl f ↦ subst (λ k. key < (entry_at es k).0) (sym (==→eq r n f)) (ground arith)
      | inr f ↦ let ne = ==→ne r n f in ih (omega arith)
    ]

-- The key before it is below, unless it is the key itself.
pub scan-Passed :
    (key : ℕ) (es : List Entry) (n : ℕ)
    → same_key key es (scan_right key es n) ≡ false
    → Passed key es (scan_right key es n)
unfolding scan_right same_key
scan-Passed key es zero h = tt
scan-Passed key es (suc n) h = elim (Bool-cases (ltb key (entry_at es n).0)) [
  | inl e ↦ rw e (scan-Passed key es n (rw e at h))
  | inr e ↦ rw e (let f : (entry_at es n).0 == key ≡ false = rw e at h in ground arith)
]

pub same_key-pos :
    (key : ℕ) (es : List Entry) (r : ℕ)
    → same_key key es r ≡ true
    → (0 < r) × ((entry_at es (r - 1)).0 ≡ key)
unfolding same_key
same_key-pos key es zero h = cc
same_key-pos key es (suc r) h =
    let back : suc r - 1 ≡ r = omega arith in (omega arith, rw back (==→eq (entry_at es r).0 key h))

AllGt-at :
    (key : ℕ) (es : List Entry) (i : ℕ) → AllGt key es → i < length es → key < (entry_at es i).0
unfolding entry_at
AllGt-at key [] i a h = absurd (omega arith)
AllGt-at key ((k, v) ∷ es) zero a h = a.0
AllGt-at key ((k, v) ∷ es) (suc i) a h = AllGt-at key es i a.1 (omega arith)

take-AllLt :
    (key : ℕ) (es : List Entry) (i : ℕ)
    → Sorted es
    → i ≤ length es
    → Passed key es i
    → AllLt key (take i es)
unfolding entry_at
take-AllLt key es zero s l p = tt
take-AllLt key [] (suc i) s l p = tt
take-AllLt key ((k, v) ∷ es) (suc zero) s l p = (p, tt)
take-AllLt key ((k, v) ∷ es) (suc (suc i)) s l p =
    let small = AllGt-at k es i s.0 (omega arith) in
    (omega arith, take-AllLt key es (suc i) s.1 (omega arith) p)

drop-AllGt :
    (key : ℕ) (es : List Entry) (i : ℕ)
    → Sorted es
    → (i < length es → key < (entry_at es i).0)
    → AllGt key (drop i es)
unfolding entry_at
drop-AllGt key [] zero s h = tt
drop-AllGt key [] (suc i) s h = tt
drop-AllGt key ((k, v) ∷ es) zero s h =
    let small : key < k = h (omega arith) in (small, AllGt-weaken es (omega arith) s.0)
drop-AllGt key ((k, v) ∷ es) (suc i) s h = drop-AllGt key es i s.1 (λ l. h (omega arith))

set_value-upsert :
    (key : ℕ) (v : Option ℕ) (es : List Entry) (i : ℕ)
    → Sorted es
    → i < length es
    → (entry_at es i).0 ≡ key
    → set_value es i v ≡ upsert key v es
unfolding entry_at set_value upsert
set_value-upsert key v [] i s l e = absurd (omega arith)
set_value-upsert key v ((k, w) ∷ es) zero s l e = ground arith
set_value-upsert key v ((k, w) ∷ es) (suc i) s l e =
    let small = AllGt-at k es i s.0 (omega arith) in ground (arith, set_value-upsert key v es i)

pub insert_leaf-upsert :
    (key : ℕ) (v : Option ℕ) (es : List Entry) → Sorted es → insert_leaf key v es ≡ upsert key v es
unfolding insert_leaf insert_at
insert_leaf-upsert key v es s =
    let i = scan_right key es (length es) in
    let le = scan-le key es (length es) in
    elim (Bool-cases (same_key key es i)) [
      | inl e ↦
          let (pos, at) = same_key-pos key es i e in
          rw e (set_value-upsert key v es (i - 1) s (omega arith) at)
      | inr e ↦ rw e (
          sym (
            upsert-between key v (take i es) (drop i es)
              (take-AllLt key es i s le (scan-Passed key es (length es) e))
              (drop-AllGt key es i s (scan-above key es (length es))))
          ∙ ap (upsert key v) (take-append-drop i es))
    ]

pub length-set_value :
    (es : List Entry) (i : ℕ) (v : Option ℕ) → length (set_value es i v) ≡ length es
unfolding set_value
length-set_value [] i v = refl
length-set_value ((k, w) ∷ es) zero v = refl
length-set_value ((k, w) ∷ es) (suc i) v = ap suc (length-set_value es i v)

pub length-insert_at :
    (es : List Entry) (i : ℕ) (m : Entry) → length (insert_at i m es) ≡ suc (length es)
unfolding insert_at
length-insert_at es i m = omega (
  arith,
  length-append {0} (take i es) (m ∷ drop i es),
  ap (length {A = Entry}) (take-append-drop i es),
  length-append {0} (take i es) (drop i es),
)

pub length-insert_leaf :
    (key : ℕ) (v : Option ℕ) (es : List Entry) → length (insert_leaf key v es) ≤ suc (length es)
unfolding insert_leaf
length-insert_leaf key v es =
    let i = scan_right key es (length es) in
    ground (arith, length-set_value es (i - 1) v, length-insert_at es i (key, v))
