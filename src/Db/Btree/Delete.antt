-- ===== src/Db/Btree/Delete.antt =====
-- `btree_delete` and `btree_scan` of kernel/db/btree.c.
pub mod Erase
pub mod Keeps
pub mod Scan
use vault_os.Prelude.{
  ℕ, zero, suc, ◌+◌, ◌-◌, ◌%◌, ◌^◌, List, [], ◌∷◌, ◌++◌, Option, none, some, Bool, true, false,
  take, drop, get_elem?,
}
use vault_os.Db.Btree.{Entry, Node, Nodes, leaf, inner, nil, cons, Btree, find, hit, set_value}

-- The leaf case: the later keys and values are moved down by one.
unfoldable pub remove_at : ℕ → List Entry → List Entry
remove_at i [] = []
remove_at zero (e ∷ es) = es
remove_at (suc i) (e ∷ es) = e ∷ remove_at i es

-- What is done with the key found, or not found, in a leaf.
unfoldable pub delete_leaf : Option (Option ℕ) → ℕ → List Entry → Option Node
delete_leaf none i es = none
delete_leaf (some v) i es = some (leaf (remove_at i es))

-- In an inner node the value becomes NULL; otherwise the loop goes on in a child.
unfoldable pub delete_inner :
    Option (Option ℕ) → ℕ → List Entry → Nodes → Option Nodes → Option Node
delete_inner (some v) i es cs below = some (inner (set_value es i none) cs)
delete_inner none i es cs none = none
delete_inner none i es cs (some ds) = some (inner es ds)

unfoldable pub with_first : Nodes → Option Node → Option Nodes
with_first cs none = none
with_first cs (some n) = some (cons n cs)

unfoldable pub with_rest : Node → Option Nodes → Option Nodes
with_rest c none = none
with_rest c (some cs) = some (cons c cs)

-- The loop of `btree_delete` from a node on; `none` is the result -1, with nothing changed.
mutual
  pub delete_node : Node → ℕ → Option Node
  delete_node (leaf es) key = delete_leaf (hit key (get_elem? es (find key es))) (find key es) es
  delete_node (inner es cs) key =
      delete_inner (hit key (get_elem? es (find key es))) (find key es) es cs
        (delete_child cs (find key es) key)

  pub delete_child : Nodes → ℕ → ℕ → Option Nodes
  delete_child nil i key = none
  delete_child (cons c cs) zero key = with_first cs (delete_node c key)
  delete_child (cons c cs) (suc i) key = with_rest c (delete_child cs i key)

unfoldable pub deleted : Btree → Option Node → Bool × Btree
deleted t none = (false, t)
deleted t (some n) = (true, record t { root = n; count = (t.count + 2 ^ 64 - 1) % 2 ^ 64 })

-- `btree_delete`: whether it returns 0, and the tree.
unfoldable pub delete : Btree → ℕ → Bool × Btree
delete t key = deleted t (delete_node t.root key)

-- The calls of the callback for one entry: none where the value is NULL.
unfoldable pub visit : Entry → List (ℕ × ℕ)
visit (k, none) = []
visit (k, some v) = (k, v) ∷ []

unfoldable pub visit_all : List Entry → List (ℕ × ℕ)
visit_all [] = []
visit_all (e ∷ es) = visit e ++ visit_all es

-- `btree_scan_node`: the arguments of the calls of the callback, in order.
unfoldable mutual
  pub scan_node : Node → List (ℕ × ℕ)
  scan_node (leaf es) = visit_all es
  scan_node (inner es cs) = scan_children cs es

  -- The loop over the keys, and the last child behind it.
  pub scan_children : Nodes → List Entry → List (ℕ × ℕ)
  scan_children nil [] = []
  scan_children nil (e ∷ es) = visit e ++ scan_children nil es
  scan_children (cons c cs) [] = scan_node c
  scan_children (cons c cs) (e ∷ es) = scan_node c ++ (visit e ++ scan_children cs es)

-- `btree_scan`
unfoldable pub scan : Btree → List (ℕ × ℕ)
scan t = scan_node t.root
