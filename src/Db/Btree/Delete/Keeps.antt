-- ===== src/Db/Btree/Delete/Keeps.antt =====
-- `btree_delete` of kernel/db/btree.c deletes the key, and leaves the tree a search tree.
use mathlib.Core.Path.{subst}
use vault_os.Prelude.{
  ℕ, zero, suc, ◌+◌, ◌-◌, ◌≤◌, ◌<◌, List, ◌++◌, Option, none, some, if◌then◌else◌, ◌==◌, ◌≡◌, ◌⊎◌,
  refl, ap, sym, ◌∙◌, arith, Bool-cases, ==→eq, ◌%◌, ◌^◌, inl, inr, length, get_elem?,
}
use vault_os.Db.Btree.{
  Entry, Node, Nodes, leaf, inner, nil, cons, Btree, find, hit, entry_at, child_at, put, search,
  search_node, max_keys,
}
use vault_os.Db.Btree.Model.{
  Sorted, upsert, lookup, lookup-upsert, upsert-Sorted, upsert-before, upsert-after,
}
use vault_os.Db.Btree.Weave.{
  flat, weave, count, pre, post, weave-split, weave-put, weave-set_value, child-exists, Passed,
  pre-AllLt, post-AllGt,
}
use vault_os.Db.Btree.Search.{
  Shape, Shapes, Stop, find-Stop, find-le, find-Passed, search_node-lookup, lookup-child,
  Sorted-child,
}
use vault_os.Db.Btree.Leaf.{length-set_value}
use vault_os.Db.Btree.Split.{count-put, Shapes-put}
use vault_os.Db.Btree.Laws.{IsTree, search-lookup}
use vault_os.Db.Btree.Delete.{
  delete_leaf, delete_inner, with_first, with_rest, delete_node, delete_child, deleted, delete,
}
use vault_os.Db.Btree.Delete.Erase.{
  erase, erase-before, erase-after, erase-Sorted, lookup-erase, remove_at-erase, length-remove_at,
}

-- The entry of the key is taken out, or its value is NULL.
abbrev Deletes : ℕ → List Entry → List Entry → Type 0
Deletes key es es' = (es' ≡ erase key es) ⊎ (es' ≡ upsert key none es)

abbrev Deleted : ℕ → ℕ → Node → Option Node → Type 0
Deleted h key n none = (lookup key (flat n) ≡ none)
Deleted h key n (some n') = Shape h n' × Deletes key (flat n) (flat n')

abbrev DeletedBelow : ℕ → ℕ → Nodes → ℕ → Node → Option Nodes → Type 0
DeletedBelow h key cs i c none = (lookup key (flat c) ≡ none)
DeletedBelow h key cs i c (some ds) =
    (c' : Node) × (ds ≡ put cs i c') × Shape h c' × Deletes key (flat c) (flat c')

Deletes-middle :
    (key : ℕ) (xs es es' ys : List Entry)
    → (erase key (xs ++ (es ++ ys)) ≡ xs ++ (erase key es ++ ys))
    → (upsert key none (xs ++ (es ++ ys)) ≡ xs ++ (upsert key none es ++ ys))
    → Deletes key es es'
    → Deletes key (xs ++ (es ++ ys)) (xs ++ (es' ++ ys))
Deletes-middle key xs es es' ys out marked (inl e) = inl (ap (λ z. xs ++ (z ++ ys)) e ∙ sym out)
Deletes-middle key xs es es' ys out marked (inr e) = inr (ap (λ z. xs ++ (z ++ ys)) e ∙ sym marked)

leaf-Deleted :
    (h key : ℕ) (es : List Entry)
    → Shape h (leaf es)
    → Sorted es
    → Stop key es (find key es)
    → Deleted h key (leaf es) (delete_leaf (hit key (get_elem? es (find key es))) (find key es) es)
unfolding delete_leaf Shape flat search_node
leaf-Deleted h key es shape s (inr (l, e, same)) = rw same (
  (shape.0, omega (arith, length-remove_at (find key es) es)),
  inl (remove_at-erase key es (find key es) s l e),
)
leaf-Deleted h key es shape s (inl (miss, above)) =
    rw miss (sym (search_node-lookup (leaf es) h key shape s) ∙ rw miss refl)

module _ (h key : ℕ) (es : List Entry) (cs : Nodes) (c : Node) (room : length es ≤ max_keys)
    (n : count cs ≡ suc (length es)) (pos : 0 < h) (shapes : Shapes (h - 1) cs)
    (s : Sorted (weave cs es)) (i : ℕ) (l : i ≤ length es) (passed : Passed key es i)
    (above : i < length es → key < (entry_at es i).0) (there : child_at cs i ≡ some c) where
  below-Deleted :
      (r : Option Nodes)
      → DeletedBelow (h - 1) key cs i c r
      → Deleted h key (inner es cs) (delete_inner none i es cs r)
  unfolding delete_inner Shape flat
  below-Deleted none absent = lookup-child key cs es i c n s l passed above there ∙ absent
  below-Deleted (some ds) (c', same, shape, d) =
      let before = pre-AllLt key cs es i n s l passed in
      let behind = post-AllGt key cs es i n s above in
      let out =
        erase-before key (pre cs es i) (flat c ++ post cs es i) before
        ∙ ap (λ z. pre cs es i ++ z) (erase-after key (flat c) (post cs es i) behind) in
      let marked =
        upsert-before key none (pre cs es i) (flat c ++ post cs es i) before
        ∙ ap (λ z. pre cs es i ++ z) (upsert-after key none (flat c) (post cs es i) behind) in
      (
        (
          room,
          ap count same ∙ count-put cs i c' ∙ n,
          pos,
          subst (Shapes (h - 1)) (sym same) (Shapes-put (h - 1) cs i c' shapes shape),
        ),
        subst (λ z. Deletes key z (weave ds es)) (sym (weave-split cs es i c there l))
            (subst (Deletes key (pre cs es i ++ (flat c ++ post cs es i)))
              (sym (ap (λ z. weave z es) same ∙ weave-put cs es i c c' there l))
              (Deletes-middle key (pre cs es i) (flat c) (flat c') (post cs es i) out marked d)),
      )

first-DeletedBelow :
    (h key : ℕ) (c : Node) (cs : Nodes) (r : Option Node)
    → Deleted h key c r
    → DeletedBelow h key (cons c cs) zero c (with_first cs r)
unfolding with_first put
first-DeletedBelow h key c cs none d = d
first-DeletedBelow h key c cs (some n) d = (n, refl, d.0, d.1)

rest-DeletedBelow :
    (h key : ℕ) (d : Node) (cs : Nodes) (i : ℕ) (c : Node) (r : Option Nodes)
    → DeletedBelow h key cs i c r
    → DeletedBelow h key (cons d cs) (suc i) c (with_rest d r)
unfolding with_rest put
rest-DeletedBelow h key d cs i c none x = x
rest-DeletedBelow h key d cs i c (some ds) (c', same, shape, x) = (c', ap (cons d) same, shape, x)

mutual
  unfolding delete_node delete_child Shape Shapes flat child_at delete_inner

  delete_node_lem :
      (n : Node) (h key : ℕ) → Shape h n → Sorted (flat n) → Deleted h key n (delete_node n key)
  delete_node_lem (leaf es) h key shape s = leaf-Deleted h key es shape s (find-Stop key es)
  delete_node_lem (inner es cs) h key (room, n, pos, shapes) s = elim (find-Stop key es) [
    | inr (l, e, same) ↦
        let len = length-set_value es (find key es) none in
        rw same (
          (omega arith, n ∙ sym (ap suc len), pos, shapes),
          inr (weave-set_value key none cs es (find key es) n s l e),
        )
    | inl (miss, above) ↦
        let l = find-le key es in
        let (c, there) = child-exists cs (find key es) (omega arith) in
        rw miss (
          below-Deleted h key es cs c room n pos shapes s (find key es) l (find-Passed key es) above
            there (delete_child cs (find key es) key)
            (delete_child_lem cs (find key es) (h - 1) key c shapes there
              (Sorted-child cs es (find key es) c there l s)))
  ]

  delete_child_lem :
      (cs : Nodes) (i h key : ℕ) (c : Node)
      → Shapes h cs
      → child_at cs i ≡ some c
      → Sorted (flat c)
      → DeletedBelow h key cs i c (delete_child cs i key)
  delete_child_lem nil i h key c shapes e s = cc
  delete_child_lem (cons d cs) zero h key c shapes e s =
      let same : d ≡ c = cc in
      subst (λ x. DeletedBelow h key (cons d cs) zero x (with_first cs (delete_node d key))) same
        (first-DeletedBelow h key d cs (delete_node d key)
          (delete_node_lem d h key shapes.0 (subst (λ x. Sorted (flat x)) (sym same) s)))
  delete_child_lem (cons d cs) (suc i) h key c shapes e s =
      rest-DeletedBelow h key d cs i c (delete_child cs i key)
        (delete_child_lem cs i h key c shapes.1 e s)

Deletes-Sorted : (key : ℕ) (es es' : List Entry) → Sorted es → Deletes key es es' → Sorted es'
Deletes-Sorted key es es' s (inl e) = subst Sorted (sym e) (erase-Sorted key es s)
Deletes-Sorted key es es' s (inr e) = subst Sorted (sym e) (upsert-Sorted key none es s)

lookup-Deletes :
    (j key : ℕ) (es es' : List Entry)
    → Sorted es
    → Deletes key es es'
    → lookup j es' ≡ (if key == j then none else lookup j es)
lookup-Deletes j key es es' s (inl e) = ap (lookup j) e ∙ lookup-erase j key es s
lookup-Deletes j key es es' s (inr e) = ap (lookup j) e ∙ lookup-upsert j key none es

-- What `btree_delete` leaves.
abbrev pub Forgets : ℕ → ℕ → Btree → Btree → Type 0
Forgets h key t t' = IsTree h t' × ((j : ℕ) → search t' j ≡ (if key == j then none else search t j))

absent_key :
    (j key : ℕ) (es : List Entry)
    → lookup key es ≡ none
    → lookup j es ≡ (if key == j then none else lookup j es)
absent_key j key es absent = elim (Bool-cases (key == j)) [
  | inl same ↦ rw same (ap (λ k. lookup k es) (sym (==→eq key j same)) ∙ absent)
  | inr other ↦ rw other refl
]

deleted-Forgets :
    (h key : ℕ) (t : Btree) (r : Option Node)
    → IsTree h t
    → Deleted h key t.root r
    → Forgets h key t (deleted t r).1
unfolding deleted
deleted-Forgets h key t none v absent = (
  v,
  λ j.
      search-lookup h j t v
      ∙ absent_key j key (flat t.root) absent
      ∙ ap (λ o. if key == j then none else o) (sym (search-lookup h j t v)),
)
deleted-Forgets h key t (some n) v (shape, d) =
    let t' : Btree = record t { root = n; count = (t.count + 2 ^ 64 - 1) % 2 ^ 64 } in
    let v' : IsTree h t' = record {
      shape = shape;
      sorted = Deletes-Sorted key (flat t.root) (flat n) v.sorted d;
    } in
    (
      v',
      λ j.
          search-lookup h j t' v'
          ∙ lookup-Deletes j key (flat t.root) (flat n) v.sorted d
          ∙ ap (λ o. if key == j then none else o) (sym (search-lookup h j t v)),
    )

-- On a search tree `btree_delete` leaves a search tree of the same height, in which a search for
-- the key finds nothing, and every other search gives what it gave before.
pub delete-Forgets : (h key : ℕ) (t : Btree) → IsTree h t → Forgets h key t (delete t key).1
unfolding delete
delete-Forgets h key t v =
    deleted-Forgets h key t (delete_node t.root key) v
      (delete_node_lem t.root h key v.shape v.sorted)
