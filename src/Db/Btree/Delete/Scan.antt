-- ===== src/Db/Btree/Delete/Scan.antt =====
-- `btree_scan` of kernel/db/btree.c calls back once for each entry with a value, in key order.
use vault_os.Prelude.{
  ℕ, suc, ◌-◌, List, [], ◌∷◌, ◌++◌, none, some, ◌≡◌, refl, ap, sym, ◌∙◌, arith, append_assoc,
  length,
}
use mathlib.Core.Path.{subst}
use vault_os.Db.Btree.{Entry, Node, Nodes, leaf, inner, nil, cons, Btree}
use vault_os.Db.Btree.Weave.{flat, weave, count}
use vault_os.Db.Btree.Search.{Shape, Shapes}
use vault_os.Db.Btree.Laws.{IsTree}
use vault_os.Db.Btree.Delete.{visit, visit_all, scan_node, scan_children, scan}

visit_all-append : (xs ys : List Entry) → visit_all (xs ++ ys) ≡ visit_all xs ++ visit_all ys
unfolding visit_all
visit_all-append [] ys = refl
visit_all-append (x ∷ xs) ys =
    ap (λ r. visit x ++ r) (visit_all-append xs ys)
    ∙ sym (append_assoc (visit x) (visit_all xs) (visit_all ys))

mutual
  unfolding scan_node scan_children flat weave visit_all Shape Shapes count

  scan_node_lem : (n : Node) (h : ℕ) → Shape h n → scan_node n ≡ visit_all (flat n)
  scan_node_lem (leaf es) h shape = refl
  scan_node_lem (inner es cs) h (cap', n, pos, shapes) = scan_children_lem cs es (h - 1) n shapes

  scan_children_lem :
      (cs : Nodes) (es : List Entry) (h : ℕ)
      → count cs ≡ suc (length es)
      → Shapes h cs
      → scan_children cs es ≡ visit_all (weave cs es)
  scan_children_lem nil es h n shapes = absurd (omega arith)
  scan_children_lem (cons c cs) [] h n shapes = scan_node_lem c h shapes.0
  scan_children_lem (cons c cs) (e ∷ es) h n shapes =
      let first = scan_node_lem c h shapes.0 in
      let rest = scan_children_lem cs es h (omega arith) shapes.1 in
      ap (λ r. r ++ (visit e ++ scan_children cs es)) first
      ∙ ap (λ r. visit_all (flat c) ++ (visit e ++ r)) rest
      ∙ sym (visit_all-append (flat c) (e ∷ weave cs es))

-- The entries with a value, in their order, are called back, and no others.
pub data Calls : List Entry → List (ℕ × ℕ) → Type 0 where
  done : Calls [] []
  skip : (k : ℕ) (es : List Entry) (out : List (ℕ × ℕ)) → Calls es out → Calls ((k, none) ∷ es) out
  call :
      (k a : ℕ) (es : List Entry) (out : List (ℕ × ℕ))
      → Calls es out
      → Calls ((k, some a) ∷ es) ((k, a) ∷ out)

visit_all-Calls : (es : List Entry) → Calls es (visit_all es)
unfolding visit_all visit
visit_all-Calls [] = done
visit_all-Calls ((k, none) ∷ es) = skip k es (visit_all es) (visit_all-Calls es)
visit_all-Calls ((k, some a) ∷ es) = call k a es (visit_all es) (visit_all-Calls es)

-- On a search tree `btree_scan` calls back, in the order of the sorted list that the tree stands
-- for, for exactly the entries whose value is not NULL.
pub scan-Calls : (h : ℕ) (t : Btree) → IsTree h t → Calls (flat t.root) (scan t)
unfolding scan
scan-Calls h t v =
    subst (Calls (flat t.root)) (sym (scan_node_lem t.root h v.shape))
      (visit_all-Calls (flat t.root))
