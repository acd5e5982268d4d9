-- ===== src/Db/Btree/Insert.antt =====
-- `btree_insert_nonfull` and `btree_insert` of kernel/db/btree.c insert into the sorted entries.
use vault_os.Prelude.{
  ℕ, zero, suc, ◌-◌, ◌<◌, [], Option, ◌≡◌, refl, ap, arith, length, Bool-cases, inl, inr, ◌∙◌, sym,
}
use mathlib.Core.Path.{subst}
use vault_os.Db.Btree.{
  Node, leaf, inner, nil, cons, scan_right, same_key, set_value, insert_leaf, child_at, num_keys,
  max_keys, into_split, insert_nonfull,
}
use vault_os.Db.Btree.Model.{Sorted, AllApart}
use vault_os.Db.Btree.Weave.{flat, weave, count, weave-set_value}
use vault_os.Db.Btree.Search.{Shape, Shapes}
use vault_os.Db.Btree.Leaf.{
  scan-le, scan-above, scan-Passed, same_key-pos, insert_leaf-upsert, length-set_value,
  length-insert_leaf,
}
use vault_os.Db.Btree.Place.{Inserted}
use vault_os.Db.Btree.Descend.{into_split_lem, into_inner_lem}

-- On a well-shaped node with ascending keys that is not full and has no value that is the key, and
-- with fuel above its height, `btree_insert_nonfull` ends, keeps the shape and the height, and turns
-- the entries into those with the key inserted or its value replaced.
pub insert_nonfull-Inserted :
    (fuel h key : ℕ) (v : Option ℕ) (n : Node)
    → h < fuel
    → Shape h n
    → Sorted (flat n)
    → AllApart key (flat n)
    → num_keys n < max_keys
    → Inserted h key v (flat n) (insert_nonfull fuel n key v)
unfolding insert_nonfull Shape flat num_keys
insert_nonfull-Inserted zero h key v n f shape s a room = absurd (omega arith)
insert_nonfull-Inserted (suc fuel) h key v (leaf es) f shape s a room =
    let e = insert_leaf-upsert key v es s in
    (leaf (insert_leaf key v es), refl, (shape.0, omega (arith, length-insert_leaf key v es)), e)
insert_nonfull-Inserted (suc fuel) h key v (inner es cs) f shape s a room =
    let i = scan_right key es (length es) in
    elim (Bool-cases (same_key key es i)) [
      | inl e ↦
          let (pos, at) = same_key-pos key es i e in
          let le = scan-le key es (length es) in
          rw e (
            inner (set_value es (i - 1) v) cs,
            refl,
            (
              rw length-set_value shape.0,
              shape.1 ∙ ap suc (sym (length-set_value es (i - 1) v)),
              shape.2,
              shape.3,
            ),
            weave-set_value key v cs es (i - 1) shape.1 s (omega arith) at,
          )
      | inr e ↦ rw e (
          into_inner_lem h key v (λ n. insert_nonfull fuel n key v) es cs i
            (λ c Shape-c sorted_c apart_c room_c.
              insert_nonfull-Inserted fuel (h - 1) key v c (omega (arith, shape.2)) Shape-c sorted_c
                apart_c room_c)
            (record {
              room = shape.0;
              counted = shape.1;
              height = shape.2;
              shapes = shape.3;
              sorted = s;
              apart = a;
              index = scan-le key es (length es);
              passed = scan-Passed key es (length es) e;
              above = scan-above key es (length es);
            })
            room)
    ]

-- A full root of height `h` is split below a new one, and the key inserted.
pub grown-Inserted :
    (fuel h key : ℕ) (v : Option ℕ) (root : Node)
    → h < fuel
    → Shape h root
    → Sorted (flat root)
    → AllApart key (flat root)
    → num_keys root ≡ max_keys
    → Inserted
        (suc h)
        key
        v
        (flat root)
        (into_split (λ n. insert_nonfull fuel n key v) [] (cons root nil) 0 root key v)
unfolding Shapes weave count child_at
grown-Inserted fuel h key v root f shape s a full =
    let down : suc h - 1 ≡ h = omega arith in
    into_split_lem (suc h) key v (λ n. insert_nonfull fuel n key v) [] (cons root nil) 0 root
      (λ c Shape-c sorted_c apart_c room.
        subst (λ k. Inserted k key v (flat c) (insert_nonfull fuel c key v)) (sym down)
          (insert_nonfull-Inserted fuel h key v c f (subst (λ k. Shape k c) down Shape-c) sorted_c
            apart_c room))
      (record {
        room = omega arith;
        counted = refl;
        height = omega arith;
        shapes = (subst (λ k. Shape k root) (sym down) shape, tt);
        sorted = s;
        apart = a;
        index = omega arith;
        passed = tt;
        above = λ l. absurd (omega arith);
      })
      refl full (omega arith)
