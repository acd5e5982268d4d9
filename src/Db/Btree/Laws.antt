-- ===== src/Db/Btree/Laws.antt =====
-- `btree_init`, `btree_insert` and `btree_search` of kernel/db/btree.c keep a search tree and
-- behave as a map from row ids to values.
use vault_os.Prelude.{
  ℕ, suc, ◌+◌, ◌≤◌, ◌<◌, ◌%◌, ◌^◌, [], Option, some, if◌then◌else◌, ◌==◌, ◌≡◌, refl, ap, arith, ◌≢◌,
  Bool-cases, ==→eq, ==→ne, inl, inr, ◌∙◌, sym,
}
use mathlib.Core.Path.{subst}
use vault_os.Db.Btree.{
  Btree, Node, nil, cons, hit, put_two, insert_at, set_value, num_keys, max_keys, into_split,
  aliased, at_or_below, insert_nonfull, grow_root, insert_root, insert, init, search,
}
use vault_os.Db.Btree.Model.{
  Sorted, AllApart, lookup-AllApart, lookup, lookup-upsert, upsert-Sorted,
}
use vault_os.Db.Btree.Weave.{flat}
use vault_os.Db.Btree.Search.{Shape, search_node-lookup}
use vault_os.Db.Btree.Place.{Inserted, Shape-num_keys}
use vault_os.Db.Btree.Insert.{insert_nonfull-Inserted, grown-Inserted}

-- The new root of a full tree: a split below an empty root, as in `btree_insert_nonfull`.
grow_root-split :
    (fuel : ℕ) (root : Node) (key : ℕ) (v : Option ℕ)
    → grow_root fuel root key v
      ≡ into_split (λ n. insert_nonfull fuel n key v) [] (cons root nil) 0 root key v
unfolding grow_root into_split aliased at_or_below insert_at put_two hit set_value
grow_root-split fuel root key v = ground arith

-- A tree whose leaves lie at depth `h`, with its keys in ascending order.
pub record IsTree (h : ℕ) (t : Btree) : Type 0 where
  pub shape : Shape h t.root
  pub sorted : Sorted (flat t.root)

pub init-IsTree : (id : ℕ) → IsTree 0 (init id)
unfolding init Shape flat
init-IsTree id = record { shape = (refl, omega arith); sorted = tt }

pub search-lookup : (h j : ℕ) (t : Btree) → IsTree h t → search t j ≡ lookup j (flat t.root)
unfolding search
search-lookup h j t v = search_node-lookup t.root h j v.shape v.sorted

-- The root that an insertion leaves, at its old height or one above.
insert_root-Inserted :
    (fuel h key : ℕ) (v : Option ℕ) (root : Node)
    → h < fuel
    → Shape h root
    → Sorted (flat root)
    → AllApart key (flat root)
    → (h' : ℕ) × (h' ≤ h + 1) × Inserted h' key v (flat root) (insert_root fuel root key v)
unfolding insert_root
insert_root-Inserted fuel h key v root f shape s a = elim (Bool-cases (num_keys root == max_keys)) [
  | inl e ↦ (
    suc h,
    omega arith,
    rw (e, grow_root-split fuel root key v)
        (grown-Inserted fuel h key v root f shape s a (==→eq (num_keys root) max_keys e)),
  )
  | inr e ↦
      let ne = ==→ne (num_keys root) max_keys e in
      let fits = Shape-num_keys h root shape in
      (h, omega arith, rw e (insert_nonfull-Inserted fuel h key v root f shape s a (omega arith)))
]

-- No search in the tree gives the number `key`.
abbrev pub IsApart : ℕ → Btree → Type 0
IsApart key t = (j : ℕ) → search t j ≢ some key

IsApart-AllApart : (h key : ℕ) (t : Btree) → IsTree h t → IsApart key t → AllApart key (flat t.root)
IsApart-AllApart h key t tree apart =
    lookup-AllApart key (flat t.root) tree.sorted (λ j e. apart j (search-lookup h j t tree ∙ e))

-- On a search tree with leaves at depth `h`, with fuel above `h`, and for a key that is not itself
-- a value of the tree, `btree_insert` ends in a search tree that is at most one level higher, and
-- in which every search gives what it gave before, but for the inserted key, which gives the
-- inserted value.
pub insert-search :
    (fuel h key : ℕ) (v : Option ℕ) (t : Btree)
    → h < fuel
    → IsTree h t
    → IsApart key t
    → (t' : Btree) × (h' : ℕ) × (insert fuel t key v ≡ some t')
      × (h' ≤ h + 1)
      × IsTree h' t'
      × ((j : ℕ) → search t' j ≡ (if key == j then v else search t j))
unfolding insert
insert-search fuel h key v t f tree apart =
    let (h', le, (n, run, shape, e)) =
      insert_root-Inserted fuel h key v t.root f tree.shape tree.sorted
        (IsApart-AllApart h key t tree apart) in
    let t' : Btree = record t { root = n; count = (t.count + 1) % 2 ^ 64 } in
    let tree' : IsTree h' t' = record {
      shape = shape;
      sorted = subst Sorted (sym e) (upsert-Sorted key v (flat t.root) tree.sorted);
    } in
    (
      t',
      h',
      rw (run, insert) refl,
      le,
      tree',
      λ j.
          search-lookup h' j t' tree'
          ∙ ap (lookup j) e
          ∙ lookup-upsert j key v (flat t.root)
          ∙ ap (λ o. if key == j then v else o) (sym (search-lookup h j t tree)),
    )
