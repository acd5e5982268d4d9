-- ===== src/Db/Btree.antt =====
-- kernel/db/btree.c and kernel/db/btree.h: the B-tree that indexes a table by row id.
-- A node holds its live keys with their values, `keys[0..num_keys)` and `values[0..num_keys)`, and
-- its children; a value is `none` where the source stores NULL. Nodes are not shared, so a node
-- that the source changes through a pointer is a new node in its parent.
pub mod Model
pub mod Weave
pub mod Search
pub mod Leaf
pub mod Split
pub mod Place
pub mod Descend
pub mod Insert
pub mod Laws
pub mod Delete
use vault_os.Prelude.{
  ℕ, zero, suc, ◌+◌, ◌-◌, ◌/◌, ◌%◌, ◌^◌, List, [], ◌∷◌, ◌++◌, Option, none, some, Bool, true, false,
  ◌&&◌, if◌then◌else◌, ◌==◌, ltb, length, get_elem?, set, take, drop,
}

abbrev pub Entry : Type 0
Entry = ℕ × Option ℕ

-- `btree_node_t`: a leaf, or an inner node with its children.
mutual
  pub data Node : Type 0 where
    leaf : List Entry → Node
    inner : List Entry → Nodes → Node

  pub data Nodes : Type 0 where
    nil : Nodes
    cons : Node → Nodes → Nodes

-- `BTREE_MAX_KEYS`
abbrev pub max_keys : ℕ
max_keys = 63

unfoldable pub num_keys : Node → ℕ
num_keys (leaf es) = length es
num_keys (inner es cs) = length es

-- `while (i < num_keys && key > keys[i]) i++`
unfoldable pub find : ℕ → List Entry → ℕ
find key [] = 0
find key ((k, v) ∷ es) = if ltb k key then suc (find key es) else 0

-- The value at `i`, if the key there is the one looked for.
unfoldable pub hit : ℕ → Option Entry → Option (Option ℕ)
hit key none = none
hit key (some (k, v)) = if k == key then some v else none

-- The value found in the node, or else what the search below gives.
abbrev pub found_or : Option (Option ℕ) → Option ℕ → Option ℕ
found_or (some v) below = v
found_or none below = below

-- `btree_search_node`. A child that is not there is NULL, where the search ends.
mutual
  pub search_node : Node → ℕ → Option ℕ
  search_node (leaf es) key = found_or (hit key (get_elem? es (find key es))) none
  search_node (inner es cs) key =
      let below = search_child cs (find key es) key in
      found_or (hit key (get_elem? es (find key es))) below

  pub search_child : Nodes → ℕ → ℕ → Option ℕ
  search_child nil i key = none
  search_child (cons c cs) zero key = search_node c key
  search_child (cons c cs) (suc i) key = search_child cs i key

-- `children[i]`, and the array with `children[i]` replaced, by one node or by two.
unfoldable pub child_at : Nodes → ℕ → Option Node
child_at nil i = none
child_at (cons c cs) zero = some c
child_at (cons c cs) (suc i) = child_at cs i

unfoldable pub put : Nodes → ℕ → Node → Nodes
put nil i n = nil
put (cons c cs) zero n = cons n cs
put (cons c cs) (suc i) n = cons c (put cs i n)

unfoldable pub put_two : Nodes → ℕ → Node → Node → Nodes
put_two nil i l r = nil
put_two (cons c cs) zero l r = cons l (cons r cs)
put_two (cons c cs) (suc i) l r = cons c (put_two cs i l r)

unfoldable pub take_nodes : ℕ → Nodes → Nodes
take_nodes zero cs = nil
take_nodes (suc n) nil = nil
take_nodes (suc n) (cons c cs) = cons c (take_nodes n cs)

unfoldable pub drop_nodes : ℕ → Nodes → Nodes
drop_nodes zero cs = cs
drop_nodes (suc n) nil = nil
drop_nodes (suc n) (cons c cs) = drop_nodes n cs

unfoldable pub insert_at : ℕ → Entry → List Entry → List Entry
insert_at i e es = take i es ++ (e ∷ drop i es)

-- `keys[mid]`; a full child has it.
abbrev pub mid : ℕ
mid = max_keys / 2

unfoldable pub entry_at : List Entry → ℕ → Entry
entry_at [] i = (0, none)
entry_at (e ∷ es) zero = e
entry_at (e ∷ es) (suc i) = entry_at es i

-- What `btree_split_child` makes of a full child: its lower half, the median, the new node.
unfoldable pub lower : Node → Node
lower (leaf es) = leaf (take mid es)
lower (inner es cs) = inner (take mid es) (take_nodes (mid + 1) cs)

unfoldable pub median : Node → Entry
median (leaf es) = entry_at es mid
median (inner es cs) = entry_at es mid

unfoldable pub upper : Node → Node
upper (leaf es) = leaf (drop (mid + 1) es)
upper (inner es cs) = inner (drop (mid + 1) es) (drop_nodes (mid + 1) cs)

-- `while (i >= 0 && key < keys[i]) i--` from `n` keys on; the result is the source's `i + 1`.
unfoldable pub scan_right : ℕ → List Entry → ℕ → ℕ
scan_right key es zero = zero
scan_right key es (suc i) =
    let rest = scan_right key es i in if ltb key (entry_at es i).0 then rest else suc i

-- `i >= 0 && keys[i] == key`, at the source's `i + 1`.
unfoldable pub same_key : ℕ → List Entry → ℕ → Bool
same_key key es zero = false
same_key key es (suc i) = (entry_at es i).0 == key

unfoldable pub set_value : List Entry → ℕ → Option ℕ → List Entry
set_value [] i v = []
set_value ((k, w) ∷ es) zero v = (k, v) ∷ es
set_value (e ∷ es) (suc i) v = e ∷ set_value es i v

-- The leaf case of `btree_insert_nonfull`.
unfoldable pub insert_leaf : ℕ → Option ℕ → List Entry → List Entry
insert_leaf key v es =
    let i = scan_right key es (length es) in
    if same_key key es i then set_value es (i - 1) v else insert_at i (key, v) es

-- The last call of `btree_insert_nonfull`: into the child at `i`, which the source changes in place.
unfoldable pub into_child : (Node → Option Node) → List Entry → Nodes → ℕ → Option Node
into_child recurse es cs i = elim (child_at cs i) [
  | none ↦ none
  | some d ↦ elim (recurse d) [ none ↦ none | some d' ↦ some (inner es (put cs i d')) ]
]

-- A value as the number that its pointer is; NULL is 0.
unfoldable pub word : Option ℕ → ℕ
word none = 0
word (some a) = a

-- Is `key == node->keys[63]`? The array ends there, and in `btree_node_t` `values[0]` follows it.
unfoldable pub aliased : List Entry → ℕ → ℕ → Bool
aliased es i key = (i == max_keys) && (word (entry_at es 0).1 == key)

-- What follows a split in `btree_insert_nonfull`, at the index that it has chosen. The test
-- `key == node->keys[i]` reads one past the live keys where `i` has been moved to the last child.
-- With fewer than 63 keys that slot holds 0, as `kzalloc` left it, or a key that a split of this
-- node moved up or away, which no key that is inserted below the node reaches any more; a key at
-- the last child is above the median, so it is not 0 either. With 63 keys the slot is `values[0]`,
-- and a hit overwrites `children[0]` with the value: the tree is then lost, and the result `none`.
unfoldable pub at_or_below :
    (Node → Option Node) → List Entry → Nodes → ℕ → ℕ → Option ℕ → Option Node
at_or_below recurse es cs i key v = elim (hit key (get_elem? es i)) [
  | some w ↦ some (inner (set_value es i v) cs)
  | none ↦ elim (aliased es i key) [ true ↦ none | false ↦ into_child recurse es cs i ]
]

-- `btree_split_child` of the full child `c` at `i`, and what follows it.
unfoldable pub into_split :
    (Node → Option Node) → List Entry → Nodes → ℕ → Node → ℕ → Option ℕ → Option Node
into_split recurse es cs i c key v =
    at_or_below recurse (insert_at i (median c) es) (put_two cs i (lower c) (upper c))
      (if ltb (median c).0 key then suc i else i) key v

-- The inner case of `btree_insert_nonfull`, where the key is not in the node.
unfoldable pub into_inner :
    (Node → Option Node) → List Entry → Nodes → ℕ → ℕ → Option ℕ → Option Node
into_inner recurse es cs i key v = elim (child_at cs i) [
  | none ↦ none
  | some c ↦
      if num_keys c == max_keys
      then into_split recurse es cs i c key v
      else into_child recurse es cs i
]

-- `btree_insert_nonfull`, with fuel for the depth of the tree. `none`: the fuel is used up, or a
-- child pointer is followed that is not there, or `children[0]` has been overwritten.
unfoldable pub insert_nonfull : ℕ → Node → ℕ → Option ℕ → Option Node
insert_nonfull zero n key v = none
insert_nonfull (suc fuel) (leaf es) key v = some (leaf (insert_leaf key v es))
insert_nonfull (suc fuel) (inner es cs) key v =
    let i = scan_right key es (length es) in
    let below = into_inner (λ n. insert_nonfull fuel n key v) es cs i key v in
    if same_key key es i then some (inner (set_value es (i - 1) v) cs) else below

-- `btree_t`
pub record Btree : Type 0 where
  pub root : Node
  pub count : ℕ
  pub table_id : ℕ

-- `btree_init`
unfoldable pub init : ℕ → Btree
init table_id = record { root = leaf []; count = 0; table_id = table_id }

-- The new root of `btree_insert`, where the old one is full.
unfoldable pub grow_root : ℕ → Node → ℕ → Option ℕ → Option Node
grow_root fuel root key v =
    let cs = cons (lower root) (cons (upper root) nil) in
    let i = if ltb (median root).0 key then 1 else 0 in
    if key == (median root).0
    then some (inner (((median root).0, v) ∷ []) cs)
    else into_child (λ n. insert_nonfull fuel n key v) (median root ∷ []) cs i

-- `btree_insert`; its result is always 0.
unfoldable pub insert_root : ℕ → Node → ℕ → Option ℕ → Option Node
insert_root fuel root key v =
    if num_keys root == max_keys then grow_root fuel root key v else insert_nonfull fuel root key v

unfoldable pub insert : ℕ → Btree → ℕ → Option ℕ → Option Btree
insert fuel t key v = elim (insert_root fuel t.root key v) [
  | none ↦ none
  | some n ↦ some (record t { root = n; count = (t.count + 1) % 2 ^ 64 })
]

-- `btree_search`
unfoldable pub search : Btree → ℕ → Option ℕ
search t key = search_node t.root key
