-- ===== src/Db/Btree/Descend.antt =====
-- The inner case of `btree_insert_nonfull` of kernel/db/btree.c: the split of a full child, and the
-- call for the child below which the key belongs.
use vault_os.Prelude.{
  ℕ, zero, suc, ◌-◌, ◌≤◌, ◌<◌, List, ◌++◌, Option, none, some, if◌then◌else◌, ◌==◌, ◌≡◌, refl, ap,
  arith, ltb, length, get_elem?, Bool-cases, ==→eq, ==→ne, ne→==, ◌≢◌, false, [], ◌∷◌, ltb→lt,
  ltb→le, inl, inr, ◌∙◌, sym,
}
use mathlib.Core.Path.{subst}
use vault_os.Db.Btree.{
  Entry, Node, Nodes, inner, nil, cons, entry_at, hit, set_value, insert_at, child_at, put_two,
  num_keys, lower, median, upper, max_keys, into_child, into_split, word, aliased, at_or_below,
  into_inner,
}
use vault_os.Db.Btree.Model.{AllApart, AllApart-right, Sorted}
use vault_os.Db.Btree.Weave.{
  flat, weave, count, pre, post, Passed, weave-split, weave-two, weave-set_value, child-exists,
}
use vault_os.Db.Btree.Search.{Shape}
use vault_os.Db.Btree.Leaf.{length-set_value, length-insert_at}
use vault_os.Db.Btree.Split.{
  flat-split, halves-Shape, count-put_two, Shapes-put_two, Shapes-child, entry_at-insert_at,
  entry_at-insert_at-suc, entry_at-insert_at_lt, child_at-put_two, hit-none, hit-some,
}
use vault_os.Db.Btree.Place.{Inserted, Place, Recurses, Shape-num_keys, into_child_lem}

word-apart : (key : ℕ) (v : Option ℕ) → 0 < key → v ≢ some key → word v == key ≡ false
unfolding word
word-apart key none pos ne = ne→== 0 key (λ e. omega arith)
word-apart key (some a) pos ne = ne→== a key (λ e. ne (ap some e))

first-apart :
    (key : ℕ) (es : List Entry) (cs : Nodes)
    → 0 < length es
    → 0 < count cs
    → AllApart key (weave cs es)
    → (entry_at es 0).1 ≢ some key
unfolding weave count entry_at
first-apart key [] cs pos some_child a = absurd (omega arith)
first-apart key (e ∷ es) nil pos some_child a = absurd (omega arith)
first-apart key ((k, v) ∷ es) (cons c cs) pos some_child a =
    (AllApart-right key (flat c) ((k, v) ∷ weave cs es) a).0

-- The slot past the array does not hold the key where no value is the key.
aliased-apart :
    (key i : ℕ) (es : List Entry) (cs : Nodes)
    → 0 < key
    → 0 < length es
    → 0 < count cs
    → AllApart key (weave cs es)
    → aliased es i key ≡ false
unfolding aliased
aliased-apart key i es cs pos some_key some_child a =
    let apart =
      word-apart key (entry_at es 0).1 pos (first-apart key es cs some_key some_child a) in
    elim (Bool-cases (i == max_keys)) [ inl e ↦ rw (e, apart) refl | inr e ↦ rw e refl ]

aliased-inside : (key i : ℕ) (es : List Entry) → i < max_keys → aliased es i key ≡ false
unfolding aliased
aliased-inside key i es h = let out = ne→== i max_keys (λ e. omega arith) in rw out refl

module _ (h key : ℕ) (v : Option ℕ) (recurse : Node → Option Node) (es : List Entry) (cs : Nodes)
    (i : ℕ) (c : Node) (ih : Recurses (h - 1) key v recurse) (p : Place h key es cs i)
    (there : child_at cs i ≡ some c) (full : num_keys c ≡ max_keys)
    (room : length es < max_keys) where
  es' : List Entry
  es' = insert_at i (median c) es

  cs' : Nodes
  cs' = put_two cs i (lower c) (upper c)

  Shape-c : Shape (h - 1) c
  Shape-c = Shapes-child (h - 1) cs i c p.shapes there

  same_entries : weave cs' es' ≡ weave cs es
  unfolding es' cs'
  same_entries =
      weave-two cs es i c (lower c) (upper c) (median c) there p.index
      ∙ ap (λ r. pre cs es i ++ (r ++ post cs es i)) (sym (flat-split (h - 1) c Shape-c full))
      ∙ sym (weave-split cs es i c there p.index)

  -- The parent behind the split, at an index where the key belongs.
  place' :
      (j : ℕ)
      → j ≤ suc (length es)
      → Passed key es' j
      → (j < suc (length es) → key < (entry_at es' j).0)
      → Place h key es' cs' j
  unfolding es' cs'
  place' j le passed above =
      let halves = halves-Shape (h - 1) c Shape-c full in
      let len = length-insert_at es i (median c) in
      let idx = p.index in
      record {
        room = omega arith;
        counted = omega (arith, count-put_two cs i (lower c) (upper c), p.counted);
        height = p.height;
        shapes = Shapes-put_two (h - 1) cs i (lower c) (upper c) p.shapes halves.0 halves.1;
        sorted = subst Sorted (sym same_entries) p.sorted;
        apart = subst (AllApart key) (sym same_entries) p.apart;
        index = omega arith;
        passed = passed;
        above = λ l. above (omega arith);
      }

  below_count : i < count cs
  below_count = omega (arith, p.counted, p.index)

  into_split-right :
      (median c).0 < key → Inserted h key v (weave cs' es') (into_child recurse es' cs' (suc i))
  unfolding es' cs'
  into_split-right lt =
      let halves = halves-Shape (h - 1) c Shape-c full in
      into_child_lem h key v recurse es' cs' (suc i) (upper c) ih
        (place' (suc i) (omega (arith, p.index))
          (subst (λ e. e.0 < key) (sym (entry_at-insert_at es i (median c) p.index)) lt)
          (λ l.
            subst (λ e. key < e.0) (sym (entry_at-insert_at-suc es i (median c) p.index))
              (p.above (omega arith))))
        (child_at-put_two cs i (lower c) (upper c) below_count).1 (omega (arith, halves.3))

  into_split-left :
      key < (median c).0 → Inserted h key v (weave cs' es') (into_child recurse es' cs' i)
  unfolding es' cs'
  into_split-left lt =
      let halves = halves-Shape (h - 1) c Shape-c full in
      into_child_lem h key v recurse es' cs' i (lower c) ih
        (place' i (omega (arith, p.index))
          (passed' i p.index p.passed (λ j l. entry_at-insert_at_lt es i j (median c) p.index l))
          (λ l. subst (λ e. key < e.0) (sym (entry_at-insert_at es i (median c) p.index)) lt))
        (child_at-put_two cs i (lower c) (upper c) below_count).0 (omega (arith, halves.2))
    where
      passed' :
          (k : ℕ)
          → k ≤ length es
          → Passed key es k
          → ((j : ℕ) → j < k → entry_at (insert_at i (median c) es) j ≡ entry_at es j)
          → Passed key (insert_at i (median c) es) k
      passed' zero le q same = tt
      passed' (suc k) le q same = subst (λ e. e.0 < key) (sym (same k (omega arith))) q

  into_split-here :
      (median c).0 ≡ key → Inserted h key v (weave cs' es') (some (inner (set_value es' i v) cs'))
  unfolding Shape flat es' cs'
  into_split-here e =
      let halves = halves-Shape (h - 1) c Shape-c full in
      let len = length-insert_at es i (median c) in
      let len' = length-set_value es' i v in
      let n = count-put_two cs i (lower c) (upper c) below_count in
      let counted = p.counted in
      let idx = p.index in
      (
        inner (set_value es' i v) cs',
        refl,
        (
          omega arith,
          omega arith,
          p.height,
          Shapes-put_two (h - 1) cs i (lower c) (upper c) p.shapes halves.0 halves.1,
        ),
        weave-set_value key v cs' es' i (omega arith) (subst Sorted (sym same_entries) p.sorted)
            (omega arith) (ap (λ x. x.0) (entry_at-insert_at es i (median c) p.index) ∙ e),
      )

  miss_right : (median c).0 < key → hit key (get_elem? es' (suc i)) ≡ none
  unfolding es'
  miss_right lt = hit-none key es' (suc i) λ l same.
      let len = length-insert_at es i (median c) in
      let e = ap (λ (x : Entry). x.0) (entry_at-insert_at-suc es i (median c) p.index) in
      let above = p.above (omega arith) in absurd (omega arith)

  miss_left : key < (median c).0 → hit key (get_elem? es' i) ≡ none
  unfolding es'
  miss_left lt = hit-none key es' i λ l same.
      let e = ap (λ (x : Entry). x.0) (entry_at-insert_at es i (median c) p.index) in
      absurd (omega arith)

  hit_here : (median c).0 ≡ key → hit key (get_elem? es' i) ≡ some (entry_at es' i).1
  unfolding es'
  hit_here e =
      let len = length-insert_at es i (median c) in
      let idx = p.index in
      hit-some key es' i (omega arith)
        (ap (λ x. x.0) (entry_at-insert_at es i (median c) p.index) ∙ e)

  clear_right : (median c).0 < key → aliased es' (suc i) key ≡ false
  unfolding es' cs'
  clear_right lt =
      aliased-apart key (suc i) es' cs' (omega arith)
        (omega (arith, length-insert_at es i (median c), p.index))
        (omega (arith, count-put_two cs i (lower c) (upper c), p.counted))
        (subst (AllApart key) (sym same_entries) p.apart)

  -- The source's choice of the index.
  chosen :
      (j : ℕ)
      → (if ltb (median c).0 key then suc i else i) ≡ j
      → Inserted h key v (weave cs' es') (at_or_below recurse es' cs' j key v)
      → Inserted h key v (weave cs' es') (into_split recurse es cs i c key v)
  unfolding into_split es' cs'
  chosen j e t =
      subst (λ k. Inserted h key v (weave cs' es') (at_or_below recurse es' cs' k key v)) (sym e) t

  pub into_split_lem : Inserted h key v (weave cs es) (into_split recurse es cs i c key v)
  unfolding at_or_below
  into_split_lem =
      subst (λ l. Inserted h key v l (into_split recurse es cs i c key v)) same_entries
        (elim (Bool-cases (ltb (median c).0 key)) [
          | inl lt ↦ chosen (suc i) (rw lt refl) (
              rw
                (
                  miss_right (ltb→lt (median c).0 key lt),
                  clear_right (ltb→lt (median c).0 key lt),
                  at_or_below,
                )
                (into_split-right (ltb→lt (median c).0 key lt)))
          | inr ge ↦ chosen i (rw ge refl) (elim (Bool-cases ((median c).0 == key)) [
            | inl e ↦
                rw (hit_here (==→eq (median c).0 key e), at_or_below)
                  (into_split-here (==→eq (median c).0 key e))
            | inr ne ↦
                let le = ltb→le (median c).0 key ge in
                let apart = ==→ne (median c).0 key ne in
                rw
                  (
                    miss_left (omega arith),
                    aliased-inside key i es' (omega (arith, p.index)),
                    at_or_below,
                  )
                  (into_split-left (omega arith))
          ])
        ])

pub into_inner_lem :
    (h key : ℕ) (v : Option ℕ) (recurse : Node → Option Node) (es : List Entry) (cs : Nodes) (i : ℕ)
    → Recurses (h - 1) key v recurse
    → Place h key es cs i
    → length es < max_keys
    → Inserted h key v (weave cs es) (into_inner recurse es cs i key v)
unfolding into_inner
into_inner_lem h key v recurse es cs i ih p room =
    let (c, there) = child-exists cs i (omega (arith, p.counted, p.index)) in
    rw (there, into_inner) (go c there)
  where
    go :
        (c : Node)
        → child_at cs i ≡ some c
        → Inserted h key v (weave cs es) (
            if num_keys c == max_keys
            then into_split recurse es cs i c key v
            else into_child recurse es cs i)
    go c there = elim (Bool-cases (num_keys c == max_keys)) [
      | inl e ↦
          rw e (
            into_split_lem h key v recurse es cs i c ih p there (==→eq (num_keys c) max_keys e)
              room)
      | inr e ↦
          let ne = ==→ne (num_keys c) max_keys e in
          let cap' = Shape-num_keys (h - 1) c (Shapes-child (h - 1) cs i c p.shapes there) in
          rw e (into_child_lem h key v recurse es cs i c ih p there (omega arith))
    ]
