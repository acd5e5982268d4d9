-- ===== src/Db/Btree/Place.antt =====
-- A place in an inner node of a B-tree of kernel/db/btree.c at which a key belongs below it.
use vault_os.Prelude.{
  ℕ, suc, ◌-◌, ◌≤◌, ◌<◌, List, ◌++◌, Option, none, some, ◌≡◌, refl, ap, length, ◌∙◌, sym,
}
use vault_os.Db.Btree.{
  Entry, Node, Nodes, leaf, inner, entry_at, child_at, put, num_keys, max_keys, into_child,
}
use vault_os.Db.Btree.Model.{AllApart, Sorted, upsert, upsert-before, upsert-after}
use vault_os.Db.Btree.Weave.{
  flat, weave, count, pre, post, Passed, weave-split, weave-put, pre-AllLt, post-AllGt,
}
use vault_os.Db.Btree.Search.{Shape, Shapes, Sorted-child, AllApart-child}
use vault_os.Db.Btree.Split.{count-put, Shapes-put, Shapes-child}

-- The result of an insertion into entries `es`: a tree of height `h` that holds them with the key.
abbrev pub Inserted : ℕ → ℕ → Option ℕ → List Entry → Option Node → Type 0
Inserted h key v es r = (n : Node) × (r ≡ some n) × Shape h n × (flat n ≡ upsert key v es)

-- What is known of an inner node and of an index at which the key belongs below it.
pub record Place (h key : ℕ) (es : List Entry) (cs : Nodes) (i : ℕ) : Type 0 where
  pub room : length es ≤ max_keys
  pub counted : count cs ≡ suc (length es)
  pub height : 0 < h
  pub shapes : Shapes (h - 1) cs
  pub sorted : Sorted (weave cs es)
  pub apart : AllApart key (weave cs es)
  pub index : i ≤ length es
  pub passed : Passed key es i
  pub above : i < length es → key < (entry_at es i).0

pub Shape-num_keys : (h : ℕ) (n : Node) → Shape h n → num_keys n ≤ max_keys
unfolding Shape num_keys
Shape-num_keys h (leaf es) s = s.1
Shape-num_keys h (inner es cs) s = s.0

-- An insertion into the right child is one into the node.
pub weave-upsert :
    (h key : ℕ) (v : Option ℕ) (es : List Entry) (cs : Nodes) (i : ℕ) (c n : Node)
    → Place h key es cs i
    → child_at cs i ≡ some c
    → flat n ≡ upsert key v (flat c)
    → weave (put cs i n) es ≡ upsert key v (weave cs es)
weave-upsert h key v es cs i c n p there e =
    let before = pre-AllLt key cs es i p.counted p.sorted p.index p.passed in
    let behind = post-AllGt key cs es i p.counted p.sorted p.above in
    weave-put cs es i c n there p.index
    ∙ ap (λ r. pre cs es i ++ (r ++ post cs es i)) e
    ∙ ap (λ r. pre cs es i ++ r) (sym (upsert-after key v (flat c) (post cs es i) behind))
    ∙ sym (upsert-before key v (pre cs es i) (flat c ++ post cs es i) before)
    ∙ ap (upsert key v) (sym (weave-split cs es i c there p.index))

pub put-Inserted :
    (h key : ℕ) (v : Option ℕ) (es : List Entry) (cs : Nodes) (i : ℕ) (c : Node) (r : Option Node)
    → Place h key es cs i
    → child_at cs i ≡ some c
    → Inserted (h - 1) key v (flat c) r
    → Inserted h key v
        (weave cs es)
        (elim r [ none ↦ none | some d ↦ some (inner es (put cs i d)) ])
unfolding Shape flat
put-Inserted h key v es cs i c r p there (n, run, shape, e) = (
  inner es (put cs i n),
  rw run refl,
  (p.room, count-put cs i n ∙ p.counted, p.height, Shapes-put (h - 1) cs i n p.shapes shape),
  weave-upsert h key v es cs i c n p there e,
)

-- The recursive call, wherever it is made: on nodes of one height that are not full.
abbrev pub Recurses : ℕ → ℕ → Option ℕ → (Node → Option Node) → Type 0
Recurses h key v recurse =
    (c : Node)
    → Shape h c
    → Sorted (flat c)
    → AllApart key (flat c)
    → num_keys c < max_keys
    → Inserted h key v (flat c) (recurse c)

pub into_child_lem :
    (h key : ℕ) (v : Option ℕ) (recurse : Node → Option Node) (es : List Entry) (cs : Nodes) (i : ℕ)
    (c : Node)
    → Recurses (h - 1) key v recurse
    → Place h key es cs i
    → child_at cs i ≡ some c
    → num_keys c < max_keys
    → Inserted h key v (weave cs es) (into_child recurse es cs i)
unfolding into_child
into_child_lem h key v recurse es cs i c ih p there room =
    rw (there, into_child)
      (put-Inserted h key v es cs i c (recurse c) p there (
        ih c (Shapes-child (h - 1) cs i c p.shapes there)
          (Sorted-child cs es i c there p.index p.sorted)
          (AllApart-child key cs es i c there p.index p.apart) room))
