-- ===== src/Tests/Btree.antt =====
-- kernel/db/btree.c on small trees.
use vault_os.Prelude.{
  ℕ, zero, suc, List, [], ◌∷◌, ◌++◌, some, none, ◌≤◌, ◌+◌, ◌==◌, ◌≡◌, refl, arith, sym, ◌∙◌,
  if◌then◌else◌,
}
use vault_os.Db.Btree.{
  Btree, Node, Entry, leaf, num_keys, max_keys, search_node, insert, search, lower, median, upper,
}
use vault_os.Db.Btree.Model.{Sorted, lookup}
use vault_os.Db.Btree.Weave.{flat}
use vault_os.Db.Btree.Search.{Shape, search_node-lookup}
use vault_os.Db.Btree.Split.{flat-split}
use vault_os.Db.Btree.Laws.{IsTree, IsApart, search-lookup, insert-search}
use vault_os.Db.Btree.Delete.{delete, scan}
use vault_os.Db.Btree.Delete.Keeps.{Forgets, delete-Forgets}
use vault_os.Db.Btree.Delete.Scan.{Calls, scan-Calls}

abbrev pair : Node
pair = leaf ((3, some 30) ∷ (8, none) ∷ [])

pair-Shape : Shape 0 pair
unfolding Shape
pair-Shape = (refl, omega arith)

pair-Sorted : Sorted (flat pair)
unfolding flat
pair-Sorted = ((omega arith, tt), (tt, tt))

abbrev small_tree : Btree
small_tree = record { root = pair; table_id = 1; count = 2 }

small_tree-IsTree : IsTree 0 small_tree
small_tree-IsTree = record { shape = pair-Shape; sorted = pair-Sorted }

small_tree-IsApart : IsApart 5 small_tree
unfolding flat lookup
small_tree-IsApart j e =
    let found = sym (search-lookup 0 j small_tree small_tree-IsTree) ∙ e in ground arith

insert-search_example :
    (t' : Btree) × (h' : ℕ) × (insert 1 small_tree 5 (some 50) ≡ some t')
    × (h' ≤ 0 + 1)
    × IsTree h' t'
    × ((j : ℕ) → search t' j ≡ (if 5 == j then some 50 else search small_tree j))
insert-search_example =
    insert-search 1 0 5 (some 50) small_tree (omega arith) small_tree-IsTree small_tree-IsApart

search_node-lookup_example : search_node pair 3 ≡ lookup 3 (flat pair)
search_node-lookup_example = search_node-lookup pair 0 3 pair-Shape pair-Sorted

-- `n` entries with keys from `k` on.
abbrev ascending : ℕ → ℕ → List Entry
ascending zero k = []
ascending (suc n) k = (k, some k) ∷ ascending n (suc k)

abbrev full_leaf : Node
full_leaf = leaf (ascending 63 10)

full_leaf-Shape : Shape 0 full_leaf
unfolding Shape
full_leaf-Shape = (refl, omega arith)

full_leaf-full : num_keys full_leaf ≡ max_keys
unfolding num_keys
full_leaf-full = refl

flat-split_example :
    flat full_leaf ≡ flat (lower full_leaf) ++ (median full_leaf ∷ flat (upper full_leaf))
flat-split_example = flat-split 0 full_leaf full_leaf-Shape full_leaf-full

delete-Forgets_example : Forgets 0 3 small_tree (delete small_tree 3).1
delete-Forgets_example = delete-Forgets 0 3 small_tree small_tree-IsTree

scan-Calls_example : Calls (flat small_tree.root) (scan small_tree)
scan-Calls_example = scan-Calls 0 small_tree small_tree-IsTree
