-- ===== src/Db/Btree/Weave.antt =====
-- The entries of a B-tree node of kernel/db/btree.c in key order, and how they split at a child.
use vault_os.Prelude.{
  ℕ, zero, suc, ◌≤◌, ◌<◌, List, [], ◌∷◌, ◌++◌, Option, some, ◌≡◌, refl, ap, arith, length, ◌∙◌, sym,
  append_assoc, append-nil,
}
use mathlib.Core.Path.{subst}
use vault_os.Db.Btree.{
  Entry, Node, Nodes, leaf, inner, nil, cons, entry_at, set_value, insert_at, child_at, put,
  put_two,
}
use vault_os.Db.Btree.Model.{
  AllLt, AllGt, Sorted, AllLt-weaken, AllGt-weaken, AllLt-append, AllGt-right, Sorted-right,
  Sorted-before, upsert, lookup, upsert-here, upsert-past, lookup-past, lookup-before,
}

-- All entries below a node in order: each child's, then the key behind it.
unfoldable mutual
  pub flat : Node → List Entry
  flat (leaf es) = es
  flat (inner es cs) = weave cs es

  pub weave : Nodes → List Entry → List Entry
  weave nil es = []
  weave (cons c cs) [] = flat c
  weave (cons c cs) (e ∷ es) = flat c ++ (e ∷ weave cs es)

unfoldable pub count : Nodes → ℕ
count nil = 0
count (cons c cs) = suc (count cs)

-- What stands before and behind the child at an index.
unfoldable pub pre : Nodes → List Entry → ℕ → List Entry
pre nil es i = []
pre (cons c cs) es zero = []
pre (cons c cs) [] (suc i) = flat c
pre (cons c cs) (e ∷ es) (suc i) = flat c ++ (e ∷ pre cs es i)

unfoldable pub post : Nodes → List Entry → ℕ → List Entry
post nil es i = []
post (cons c cs) [] zero = []
post (cons c cs) (e ∷ es) zero = e ∷ weave cs es
post (cons c cs) [] (suc i) = []
post (cons c cs) (e ∷ es) (suc i) = post cs es i

pub weave-split :
    (cs : Nodes) (es : List Entry) (i : ℕ) (c : Node)
    → child_at cs i ≡ some c
    → i ≤ length es
    → weave cs es ≡ pre cs es i ++ (flat c ++ post cs es i)
unfolding weave pre post child_at
weave-split nil es i c h l = cc
weave-split (cons d cs) [] zero c h l = ground (arith, append-nil (flat c))
weave-split (cons d cs) (e ∷ es) zero c h l = ground arith
weave-split (cons d cs) [] (suc i) c h l = absurd (omega arith)
weave-split (cons d cs) (e ∷ es) (suc i) c h l =
    ap (λ r. flat d ++ (e ∷ r)) (weave-split cs es i c h (omega arith))
    ∙ sym (append_assoc (flat d) (e ∷ pre cs es i) (flat c ++ post cs es i))

pub weave-put :
    (cs : Nodes) (es : List Entry) (i : ℕ) (c n : Node)
    → child_at cs i ≡ some c
    → i ≤ length es
    → weave (put cs i n) es ≡ pre cs es i ++ (flat n ++ post cs es i)
unfolding weave pre post child_at put
weave-put nil es i c n h l = cc
weave-put (cons d cs) [] zero c n h l = sym (append-nil (flat n))
weave-put (cons d cs) (e ∷ es) zero c n h l = refl
weave-put (cons d cs) [] (suc i) c n h l = absurd (omega arith)
weave-put (cons d cs) (e ∷ es) (suc i) c n h l =
    ap (λ r. flat d ++ (e ∷ r)) (weave-put cs es i c n h (omega arith))
    ∙ sym (append_assoc (flat d) (e ∷ pre cs es i) (flat n ++ post cs es i))

pub weave-two :
    (cs : Nodes) (es : List Entry) (i : ℕ) (c l r : Node) (m : Entry)
    → child_at cs i ≡ some c
    → i ≤ length es
    → weave (put_two cs i l r) (insert_at i m es)
      ≡ pre cs es i ++ ((flat l ++ (m ∷ flat r)) ++ post cs es i)
unfolding weave pre post child_at put_two insert_at
weave-two nil es i c l r m h le = cc
weave-two (cons d cs) [] zero c l r m h le = sym (append-nil (flat l ++ (m ∷ flat r)))
weave-two (cons d cs) (e ∷ es) zero c l r m h le =
    sym (append_assoc (flat l) (m ∷ flat r) (e ∷ weave cs es))
weave-two (cons d cs) [] (suc i) c l r m h le = absurd (omega arith)
weave-two (cons d cs) (e ∷ es) (suc i) c l r m h le =
    ap (λ t. flat d ++ (e ∷ t)) (weave-two cs es i c l r m h (omega arith))
    ∙ sym (append_assoc (flat d) (e ∷ pre cs es i) ((flat l ++ (m ∷ flat r)) ++ post cs es i))

-- Every index up to the number of keys has a child.
pub child-exists : (cs : Nodes) (i : ℕ) → i < count cs → (c : Node) × (child_at cs i ≡ some c)
unfolding child_at count
child-exists nil i h = absurd (omega arith)
child-exists (cons c cs) zero h = (c, refl)
child-exists (cons c cs) (suc i) h = child-exists cs i (omega arith)

-- The key at an index lies among what follows.
pub AllGt-entry :
    (key : ℕ) (cs : Nodes) (es : List Entry) (i : ℕ)
    → count cs ≡ suc (length es)
    → AllGt key (weave cs es)
    → i < length es
    → key < (entry_at es i).0
unfolding weave count entry_at
AllGt-entry key nil es i n a h = absurd (omega arith)
AllGt-entry key (cons c cs) [] i n a h = absurd (omega arith)
AllGt-entry key (cons c cs) (e ∷ es) zero n a h = (AllGt-right key (flat c) (e ∷ weave cs es) a).0
AllGt-entry key (cons c cs) (e ∷ es) (suc i) n a h =
    AllGt-entry key cs es i (omega arith) (AllGt-right key (flat c) (e ∷ weave cs es) a).1
      (omega arith)

-- The key before an index is below `key`, and the key at it is not.
abbrev pub Passed : ℕ → List Entry → ℕ → Type 0
Passed key es zero = Unit
Passed key es (suc i) = (entry_at es i).0 < key

-- What stands before a child is below `key`, if the key before the child is.
pub pre-AllLt :
    (key : ℕ) (cs : Nodes) (es : List Entry) (i : ℕ)
    → count cs ≡ suc (length es)
    → Sorted (weave cs es)
    → i ≤ length es
    → Passed key es i
    → AllLt key (pre cs es i)
unfolding weave count entry_at pre
pre-AllLt key nil es i n s l b = tt
pre-AllLt key (cons c cs) es zero n s l b = tt
pre-AllLt key (cons c cs) [] (suc i) n s l b = absurd (omega arith)
pre-AllLt key (cons c cs) ((k, v) ∷ es) (suc zero) n s l b =
    AllLt-append key (flat c) ((k, v) ∷ pre cs es zero)
      (AllLt-weaken (flat c) (omega arith) (Sorted-before (flat c) k v (weave cs es) s))
      (
        b,
        pre-AllLt key cs es zero (omega arith) (Sorted-right (flat c) ((k, v) ∷ weave cs es) s).1
            (omega arith) tt,
      )
pre-AllLt key (cons c cs) ((k, v) ∷ es) (suc (suc i)) n s l b =
    let tail = Sorted-right (flat c) ((k, v) ∷ weave cs es) s in
    let small : k < (entry_at es i).0 = AllGt-entry k cs es i (omega arith) tail.0 (omega arith) in
    AllLt-append key (flat c) ((k, v) ∷ pre cs es (suc i))
      (AllLt-weaken (flat c) (omega arith) (Sorted-before (flat c) k v (weave cs es) s))
      (omega arith, pre-AllLt key cs es (suc i) (omega arith) tail.1 (omega arith) b)

-- What stands behind a child is above `key`, if the key behind the child is.
pub post-AllGt :
    (key : ℕ) (cs : Nodes) (es : List Entry) (i : ℕ)
    → count cs ≡ suc (length es)
    → Sorted (weave cs es)
    → (i < length es → key < (entry_at es i).0)
    → AllGt key (post cs es i)
unfolding weave count entry_at post
post-AllGt key nil es i n s b = tt
post-AllGt key (cons c cs) [] zero n s b = tt
post-AllGt key (cons c cs) ((k, v) ∷ es) zero n s b =
    let tail = Sorted-right (flat c) ((k, v) ∷ weave cs es) s in
    let small : key < k = b (omega arith) in
    (small, AllGt-weaken (weave cs es) (omega arith) tail.0)
post-AllGt key (cons c cs) [] (suc i) n s b = tt
post-AllGt key (cons c cs) ((k, v) ∷ es) (suc i) n s b =
    post-AllGt key cs es i (omega arith) (Sorted-right (flat c) ((k, v) ∷ weave cs es) s).1
      (λ h. b (omega arith))

-- A value set at the key's own place is an upsert, and is found there.
pub weave-set_value :
    (key : ℕ) (v : Option ℕ) (cs : Nodes) (es : List Entry) (i : ℕ)
    → count cs ≡ suc (length es)
    → Sorted (weave cs es)
    → i < length es
    → (entry_at es i).0 ≡ key
    → weave cs (set_value es i v) ≡ upsert key v (weave cs es)
unfolding weave count entry_at set_value
weave-set_value key v nil es i n s l e = absurd (omega arith)
weave-set_value key v (cons c cs) [] i n s l e = absurd (omega arith)
weave-set_value key v (cons c cs) ((k, w) ∷ es) zero n s l e =
    let below = Sorted-before (flat c) k w (weave cs es) s in
    subst (λ j. flat c ++ ((k, v) ∷ weave cs es) ≡ upsert j v (flat c ++ ((k, w) ∷ weave cs es))) e
      (sym (upsert-here k v w (flat c) (weave cs es) below))
weave-set_value key v (cons c cs) ((k, w) ∷ es) (suc i) n s l e =
    let tail = Sorted-right (flat c) ((k, w) ∷ weave cs es) s in
    let small : k < (entry_at es i).0 = AllGt-entry k cs es i (omega arith) tail.0 (omega arith) in
    let below : AllLt key (flat c) =
      AllLt-weaken (flat c) (omega arith) (Sorted-before (flat c) k w (weave cs es) s) in
    ap (λ r. flat c ++ ((k, w) ∷ r))
      (weave-set_value key v cs es i (omega arith) tail.1 (omega arith) e)
    ∙ upsert-past key v (flat c) k w (weave cs es) below (omega arith)

pub weave-lookup :
    (key : ℕ) (cs : Nodes) (es : List Entry) (i : ℕ)
    → count cs ≡ suc (length es)
    → Sorted (weave cs es)
    → i < length es
    → (entry_at es i).0 ≡ key
    → lookup key (weave cs es) ≡ (entry_at es i).1
unfolding weave count entry_at lookup
weave-lookup key nil es i n s l e = absurd (omega arith)
weave-lookup key (cons c cs) [] i n s l e = absurd (omega arith)
weave-lookup key (cons c cs) ((k, w) ∷ es) zero n s l e =
    let below = Sorted-before (flat c) k w (weave cs es) s in
    subst (λ j. lookup j (flat c ++ ((k, w) ∷ weave cs es)) ≡ w) e
      (lookup-before k (flat c) ((k, w) ∷ weave cs es) below ∙ ground arith)
weave-lookup key (cons c cs) ((k, w) ∷ es) (suc i) n s l e =
    let tail = Sorted-right (flat c) ((k, w) ∷ weave cs es) s in
    let small : k < (entry_at es i).0 = AllGt-entry k cs es i (omega arith) tail.0 (omega arith) in
    let below : AllLt key (flat c) =
      AllLt-weaken (flat c) (omega arith) (Sorted-before (flat c) k w (weave cs es) s) in
    lookup-past key (flat c) k w (weave cs es) below (omega arith)
    ∙ weave-lookup key cs es i (omega arith) tail.1 (omega arith) e
