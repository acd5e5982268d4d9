-- ===== src/Db/Btree/Split.antt =====
-- `btree_split_child` of kernel/db/btree.c: the two halves and the median hold the entries of the
-- child, and the parent's arrays keep their shape.
use vault_os.Prelude.{
  ℕ, zero, suc, ◌-◌, ◌≤◌, ◌<◌, List, [], ◌∷◌, ◌++◌, none, some, ◌≡◌, ◌≢◌, refl, ap, arith, length,
  take, drop, get_elem?, ◌∙◌, sym, append_assoc, length-take, length-drop, min,
}
use mathlib.Core.Path.{subst}
use vault_os.Db.Btree.{
  Entry, Node, Nodes, leaf, inner, nil, cons, entry_at, hit, insert_at, child_at, put, put_two,
  take_nodes, drop_nodes, num_keys, lower, median, upper, max_keys,
}
use vault_os.Db.Btree.Weave.{flat, weave, count}
use vault_os.Db.Btree.Search.{Shape, Shapes}

split-leaf :
    (es : List Entry) (i : ℕ) → i < length es → es ≡ take i es ++ (entry_at es i ∷ drop (suc i) es)
unfolding entry_at
split-leaf [] i h = absurd (omega arith)
split-leaf (e ∷ es) zero h = refl
split-leaf (e ∷ es) (suc i) h = ap (◌∷◌ e) (split-leaf es i (omega arith))

split-inner :
    (cs : Nodes) (es : List Entry) (i : ℕ)
    → count cs ≡ suc (length es)
    → i < length es
    → weave cs es
      ≡ weave (take_nodes (suc i) cs) (take i es)
        ++ (entry_at es i ∷ weave (drop_nodes (suc i) cs) (drop (suc i) es))
unfolding entry_at weave count take_nodes drop_nodes
split-inner nil es i n h = absurd (omega arith)
split-inner (cons c cs) [] i n h = absurd (omega arith)
split-inner (cons c cs) (e ∷ es) zero n h = refl
split-inner (cons c cs) (e ∷ es) (suc i) n h =
    ap (λ r. flat c ++ (e ∷ r)) (split-inner cs es i (omega arith) (omega arith))
    ∙ sym (
        append_assoc (flat c) (e ∷ weave (take_nodes (suc i) cs) (take i es))
          (entry_at es i ∷ weave (drop_nodes (suc i) cs) (drop (suc i) es)))

-- Splitting a full node changes no entry and no order.
pub flat-split :
    (h : ℕ) (c : Node)
    → Shape h c
    → num_keys c ≡ max_keys
    → flat c ≡ flat (lower c) ++ (median c ∷ flat (upper c))
unfolding Shape flat lower median upper num_keys
flat-split h (leaf es) shape full = split-leaf es 31 (omega arith)
flat-split h (inner es cs) shape full = split-inner cs es 31 shape.1 (omega arith)

count-take : (n : ℕ) (cs : Nodes) → count (take_nodes n cs) ≡ min n (count cs)
unfolding count take_nodes
count-take zero cs = omega arith
count-take (suc n) nil = omega arith
count-take (suc n) (cons c cs) = omega (arith, count-take n cs)

count-drop : (n : ℕ) (cs : Nodes) → count (drop_nodes n cs) ≡ count cs - n
unfolding count drop_nodes
count-drop zero cs = omega arith
count-drop (suc n) nil = omega arith
count-drop (suc n) (cons c cs) = omega (arith, count-drop n cs)

Shapes-take : (n h : ℕ) (cs : Nodes) → Shapes h cs → Shapes h (take_nodes n cs)
unfolding Shapes take_nodes
Shapes-take zero h cs s = tt
Shapes-take (suc n) h nil s = tt
Shapes-take (suc n) h (cons c cs) s = (s.0, Shapes-take n h cs s.1)

Shapes-drop : (n h : ℕ) (cs : Nodes) → Shapes h cs → Shapes h (drop_nodes n cs)
unfolding Shapes drop_nodes
Shapes-drop zero h cs s = s
Shapes-drop (suc n) h nil s = s
Shapes-drop (suc n) h (cons c cs) s = Shapes-drop n h cs s.1

-- The halves of a full node have 31 keys each, and its height.
pub halves-Shape :
    (h : ℕ) (c : Node)
    → Shape h c
    → num_keys c ≡ max_keys
    → Shape h (lower c) × Shape h (upper c) × (num_keys (lower c) ≡ 31) × (num_keys (upper c) ≡ 31)
unfolding Shape lower upper num_keys
halves-Shape h (leaf es) shape full =
    let lo = length-take 31 es in
    let hi = length-drop 32 es in
    ((shape.0, omega arith), (shape.0, omega arith), omega arith, omega arith)
halves-Shape h (inner es cs) shape full =
    let lo = length-take 31 es in
    let hi = length-drop 32 es in
    (
      (
        omega arith,
        omega (arith, count-take 32 cs, shape.1),
        shape.2,
        Shapes-take 32 (h - 1) cs shape.3,
      ),
      (
        omega arith,
        omega (arith, count-drop 32 cs, shape.1),
        shape.2,
        Shapes-drop 32 (h - 1) cs shape.3,
      ),
      omega arith,
      omega arith,
    )

pub count-put : (cs : Nodes) (i : ℕ) (n : Node) → count (put cs i n) ≡ count cs
unfolding count put
count-put nil i n = refl
count-put (cons c cs) zero n = refl
count-put (cons c cs) (suc i) n = ap suc (count-put cs i n)

pub count-put_two :
    (cs : Nodes) (i : ℕ) (l r : Node) → i < count cs → count (put_two cs i l r) ≡ suc (count cs)
unfolding count put_two
count-put_two nil i l r h = absurd (omega arith)
count-put_two (cons c cs) zero l r h = refl
count-put_two (cons c cs) (suc i) l r h = ap suc (count-put_two cs i l r (omega arith))

pub Shapes-put :
    (h : ℕ) (cs : Nodes) (i : ℕ) (n : Node) → Shapes h cs → Shape h n → Shapes h (put cs i n)
unfolding Shapes put
Shapes-put h nil i n s t = s
Shapes-put h (cons c cs) zero n s t = (t, s.1)
Shapes-put h (cons c cs) (suc i) n s t = (s.0, Shapes-put h cs i n s.1 t)

pub Shapes-put_two :
    (h : ℕ) (cs : Nodes) (i : ℕ) (l r : Node)
    → Shapes h cs
    → Shape h l
    → Shape h r
    → Shapes h (put_two cs i l r)
unfolding Shapes put_two
Shapes-put_two h nil i l r s a b = s
Shapes-put_two h (cons c cs) zero l r s a b = (a, (b, s.1))
Shapes-put_two h (cons c cs) (suc i) l r s a b = (s.0, Shapes-put_two h cs i l r s.1 a b)

pub Shapes-child :
    (h : ℕ) (cs : Nodes) (i : ℕ) (c : Node) → Shapes h cs → child_at cs i ≡ some c → Shape h c
unfolding Shapes child_at
Shapes-child h nil i c s e = cc
Shapes-child h (cons d cs) zero c s e = let same : d ≡ c = cc in subst (Shape h) same s.0
Shapes-child h (cons d cs) (suc i) c s e = Shapes-child h cs i c s.1 e

-- The parent's entries and children behind a split.
pub entry_at-insert_at :
    (es : List Entry) (i : ℕ) (m : Entry) → i ≤ length es → entry_at (insert_at i m es) i ≡ m
unfolding entry_at insert_at
entry_at-insert_at es zero m h = refl
entry_at-insert_at [] (suc i) m h = absurd (omega arith)
entry_at-insert_at (e ∷ es) (suc i) m h = entry_at-insert_at es i m (omega arith)

pub entry_at-insert_at-suc :
    (es : List Entry) (i : ℕ) (m : Entry)
    → i ≤ length es
    → entry_at (insert_at i m es) (suc i) ≡ entry_at es i
unfolding entry_at insert_at
entry_at-insert_at-suc [] zero m h = refl
entry_at-insert_at-suc (e ∷ es) zero m h = refl
entry_at-insert_at-suc [] (suc i) m h = absurd (omega arith)
entry_at-insert_at-suc (e ∷ es) (suc i) m h = entry_at-insert_at-suc es i m (omega arith)

pub entry_at-insert_at_lt :
    (es : List Entry) (i j : ℕ) (m : Entry)
    → i ≤ length es
    → j < i
    → entry_at (insert_at i m es) j ≡ entry_at es j
unfolding entry_at insert_at
entry_at-insert_at_lt es zero j m h l = absurd (omega arith)
entry_at-insert_at_lt [] (suc i) j m h l = absurd (omega arith)
entry_at-insert_at_lt (e ∷ es) (suc i) zero m h l = refl
entry_at-insert_at_lt (e ∷ es) (suc i) (suc j) m h l =
    entry_at-insert_at_lt es i j m (omega arith) (omega arith)

pub child_at-put_two :
    (cs : Nodes) (i : ℕ) (l r : Node)
    → i < count cs
    → (child_at (put_two cs i l r) i ≡ some l) × (child_at (put_two cs i l r) (suc i) ≡ some r)
unfolding child_at put_two count
child_at-put_two nil i l r h = absurd (omega arith)
child_at-put_two (cons c cs) zero l r h = (refl, refl)
child_at-put_two (cons c cs) (suc i) l r h = child_at-put_two cs i l r (omega arith)

pub hit-none :
    (key : ℕ) (es : List Entry) (i : ℕ)
    → (i < length es → (entry_at es i).0 ≢ key)
    → hit key (get_elem? es i) ≡ none
unfolding hit entry_at
hit-none key [] i h = refl
hit-none key ((k, v) ∷ es) zero h = let ne : k ≢ key = h (omega arith) in ground arith
hit-none key ((k, v) ∷ es) (suc i) h = hit-none key es i (λ l. h (omega arith))

pub hit-some :
    (key : ℕ) (es : List Entry) (i : ℕ)
    → i < length es
    → (entry_at es i).0 ≡ key
    → hit key (get_elem? es i) ≡ some (entry_at es i).1
unfolding hit entry_at
hit-some key [] i l e = absurd (omega arith)
hit-some key ((k, v) ∷ es) zero l e = ground arith
hit-some key ((k, v) ∷ es) (suc i) l e = hit-some key es i (omega arith) e
