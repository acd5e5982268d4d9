-- ===== src/Db/Btree/Search.antt =====
-- `btree_search` of kernel/db/btree.c finds what the entries of the tree hold.
use vault_os.Prelude.{
  ℕ, zero, suc, ◌-◌, ◌≤◌, ◌<◌, List, [], ◌∷◌, ◌++◌, none, some, false, ◌==◌, ◌≡◌, refl, arith, ltb,
  length, get_elem?, Bool-cases, ==→eq, inl, inr, ◌⊎◌, ◌∙◌, sym,
}
use mathlib.Core.Path.{subst}
use vault_os.Db.Btree.{
  Entry, Node, Nodes, leaf, inner, nil, cons, entry_at, child_at, find, hit, search_node,
  search_child, max_keys,
}
use vault_os.Db.Btree.Model.{
  AllApart, AllApart-left, AllApart-right, Sorted, Sorted-left, Sorted-right, lookup, lookup-before,
  lookup-after, lookup-greater, AllGt-weaken,
}
use vault_os.Db.Btree.Weave.{
  flat, weave, count, pre, post, Passed, weave-split, pre-AllLt, post-AllGt, weave-lookup,
  child-exists,
}

-- All leaves at one depth, one child more than keys, and no node over its capacity.
unfoldable mutual
  pub Shape : ℕ → Node → Type 0
  Shape h (leaf es) = (h ≡ 0) × (length es ≤ max_keys)
  Shape h (inner es cs) =
      (length es ≤ max_keys) × (count cs ≡ suc (length es)) × (0 < h) × Shapes (h - 1) cs

  pub Shapes : ℕ → Nodes → Type 0
  Shapes h nil = Unit
  Shapes h (cons c cs) = Shape h c × Shapes h cs

pub find-le : (key : ℕ) (es : List Entry) → find key es ≤ length es
unfolding find
find-le key [] = omega arith
find-le key ((k, v) ∷ es) = ground (arith, find-le key es)

pub find-Passed : (key : ℕ) (es : List Entry) → Passed key es (find key es)
unfolding find entry_at
find-Passed key [] = tt
find-Passed key ((k, v) ∷ es) = elim (Bool-cases (ltb k key)) [
  | inl e ↦ rw e (go (find key es) (find-Passed key es) (ground arith))
  | inr e ↦ rw e tt
]
  where
    go : (i : ℕ) → Passed key es i → k < key → (entry_at ((k, v) ∷ es) i).0 < key
    go zero p h = h
    go (suc i) p h = p

-- Where the search of a node stops: before a greater key, or at the key itself.
abbrev pub Stop : ℕ → List Entry → ℕ → Type 0
Stop key es i =
    ((hit key (get_elem? es i) ≡ none) × (i < length es → key < (entry_at es i).0))
    ⊎ ((i < length es)
        × ((entry_at es i).0 ≡ key)
        × (hit key (get_elem? es i) ≡ some (entry_at es i).1))

pub find-Stop : (key : ℕ) (es : List Entry) → Stop key es (find key es)
unfolding find hit entry_at
find-Stop key [] = inl (refl, λ h. absurd (omega arith))
find-Stop key ((k, v) ∷ es) = elim (Bool-cases (ltb k key)) [
  | inl e ↦ rw e (further (find key es) (find-Stop key es))
  | inr e ↦ rw e (elim (Bool-cases (k == key)) [
    | inl f ↦ inr (omega arith, ==→eq k key f, rw f refl)
    | inr f ↦ inl (rw f refl, λ h. ground arith)
  ])
]
  where
    further : (i : ℕ) → Stop key es i → Stop key ((k, v) ∷ es) (suc i)
    further i (inl (miss, above)) = inl (miss, λ h. above (omega arith))
    further i (inr (l, e, h)) = inr (omega arith, e, h)

pub lookup-child :
    (key : ℕ) (cs : Nodes) (es : List Entry) (i : ℕ) (c : Node)
    → count cs ≡ suc (length es)
    → Sorted (weave cs es)
    → i ≤ length es
    → Passed key es i
    → (i < length es → key < (entry_at es i).0)
    → child_at cs i ≡ some c
    → lookup key (weave cs es) ≡ lookup key (flat c)
lookup-child key cs es i c n s l below above h = rw (weave-split cs es i c h l) (
    lookup-before key (pre cs es i) (flat c ++ post cs es i) (pre-AllLt key cs es i n s l below)
    ∙ lookup-after key (flat c) (post cs es i) (post-AllGt key cs es i n s above))

pub Sorted-child :
    (cs : Nodes) (es : List Entry) (i : ℕ) (c : Node)
    → child_at cs i ≡ some c
    → i ≤ length es
    → Sorted (weave cs es)
    → Sorted (flat c)
Sorted-child cs es i c h l s =
    let t =
      Sorted-right (pre cs es i) (flat c ++ post cs es i)
        (subst Sorted (weave-split cs es i c h l) s) in
    Sorted-left (flat c) (post cs es i) t

pub AllApart-child :
    (key : ℕ) (cs : Nodes) (es : List Entry) (i : ℕ) (c : Node)
    → child_at cs i ≡ some c
    → i ≤ length es
    → AllApart key (weave cs es)
    → AllApart key (flat c)
AllApart-child key cs es i c h l a =
    let t =
      AllApart-right key (pre cs es i) (flat c ++ post cs es i)
        (subst (AllApart key) (weave-split cs es i c h l) a) in
    AllApart-left key (flat c) (post cs es i) t

leaf-lookup : (key : ℕ) (es : List Entry) → Sorted es → search_node (leaf es) key ≡ lookup key es
unfolding search_node find hit lookup
leaf-lookup key [] s = refl
leaf-lookup key ((k, v) ∷ es) s = elim (Bool-cases (ltb k key)) [
  | inl e ↦ let ne : k == key ≡ false = ground arith in rw (e, ne) (leaf-lookup key es s.1)
  | inr e ↦ elim (Bool-cases (k == key)) [
    | inl f ↦ rw (e, f) refl
    | inr f ↦ rw (e, f) (sym (lookup-greater key es (AllGt-weaken es (ground arith) s.0)))
  ]
]

mutual
  unfolding search_node search_child Shape Shapes flat child_at

  search_node_lem :
      (n : Node) (h key : ℕ) → Shape h n → Sorted (flat n) → search_node n key ≡ lookup key (flat n)
  search_node_lem (leaf es) h key shape s = leaf-lookup key es s
  search_node_lem (inner es cs) h key (cap', n, pos, shapes) s = elim (find-Stop key es) [
    | inr (l, e, same) ↦ rw same (sym (weave-lookup key cs es (find key es) n s l e))
    | inl (miss, above) ↦
        let l = find-le key es in
        let (c, there) = child-exists cs (find key es) (omega arith) in
        rw miss (
          search_child_lem cs (find key es) (h - 1) key c shapes there
            (Sorted-child cs es (find key es) c there l s)
          ∙ sym (lookup-child key cs es (find key es) c n s l (find-Passed key es) above there))
  ]

  search_child_lem :
      (cs : Nodes) (i h key : ℕ) (c : Node)
      → Shapes h cs
      → child_at cs i ≡ some c
      → Sorted (flat c)
      → search_child cs i key ≡ lookup key (flat c)
  search_child_lem nil i h key c shapes e s = cc
  search_child_lem (cons d cs) zero h key c shapes e s =
      let same : d ≡ c = cc in
      subst (λ x. search_node d key ≡ lookup key (flat x)) same
        (search_node_lem d h key shapes.0 (subst (λ x. Sorted (flat x)) (sym same) s))
  search_child_lem (cons d cs) (suc i) h key c shapes e s =
      search_child_lem cs i h key c shapes.1 e s

-- On a well-shaped node with ascending keys the search gives the value of the key's entry, and
-- nothing if there is none or the value is NULL.
pub search_node-lookup :
    (n : Node) (h key : ℕ) → Shape h n → Sorted (flat n) → search_node n key ≡ lookup key (flat n)
search_node-lookup n h key shape s = search_node_lem n h key shape s
