-- ===== src/Db/Btree/Model.antt =====
-- Sorted lists of keys with values: the map that a B-tree of kernel/db/btree.c stands for.
use vault_os.Prelude.{
  ℕ, ◌≤◌, ◌<◌, List, [], ◌∷◌, ◌++◌, Option, none, some, ◌≢◌, ==→eq, sym, ◌∙◌, if◌then◌else◌, ◌==◌,
  ◌≡◌, refl, arith, ltb, Bool-cases, inl, inr,
}
use vault_os.Db.Btree.{Entry}

abbrev pub AllLt : ℕ → List Entry → Type 0
AllLt key [] = Unit
AllLt key ((k, v) ∷ es) = (k < key) × AllLt key es

abbrev pub AllGt : ℕ → List Entry → Type 0
AllGt key [] = Unit
AllGt key ((k, v) ∷ es) = (key < k) × AllGt key es

-- No value is the number `key`.
abbrev pub AllApart : ℕ → List Entry → Type 0
AllApart key [] = Unit
AllApart key ((k, v) ∷ es) = (v ≢ some key) × AllApart key es

-- Strictly ascending keys.
abbrev pub Sorted : List Entry → Type 0
Sorted [] = Unit
Sorted ((k, v) ∷ es) = AllGt k es × Sorted es

unfoldable pub lookup : ℕ → List Entry → Option ℕ
lookup key [] = none
lookup key ((k, v) ∷ es) = if k == key then v else lookup key es

-- The specification of an insertion: the entry of the key is replaced, or put in its place.
unfoldable pub upsert : ℕ → Option ℕ → List Entry → List Entry
upsert key v [] = (key, v) ∷ []
upsert key v ((k, w) ∷ es) =
    let rest = upsert key v es in
    if ltb key k then (key, v) ∷ (k, w) ∷ es else if k == key then (k, v) ∷ es else (k, w) ∷ rest

pub AllLt-weaken : {j k : ℕ} (es : List Entry) → j ≤ k → AllLt j es → AllLt k es
AllLt-weaken [] h a = tt
AllLt-weaken ((i, v) ∷ es) h a = (omega arith, AllLt-weaken es h a.1)

pub AllGt-weaken : {j k : ℕ} (es : List Entry) → k ≤ j → AllGt j es → AllGt k es
AllGt-weaken [] h a = tt
AllGt-weaken ((i, v) ∷ es) h a = (omega arith, AllGt-weaken es h a.1)

pub AllLt-append :
    (key : ℕ) (xs ys : List Entry) → AllLt key xs → AllLt key ys → AllLt key (xs ++ ys)
AllLt-append key [] ys a b = b
AllLt-append key ((k, v) ∷ xs) ys a b = (a.0, AllLt-append key xs ys a.1 b)

pub AllGt-append :
    (key : ℕ) (xs ys : List Entry) → AllGt key xs → AllGt key ys → AllGt key (xs ++ ys)
AllGt-append key [] ys a b = b
AllGt-append key ((k, v) ∷ xs) ys a b = (a.0, AllGt-append key xs ys a.1 b)

pub AllGt-left : (key : ℕ) (xs ys : List Entry) → AllGt key (xs ++ ys) → AllGt key xs
AllGt-left key [] ys a = tt
AllGt-left key ((k, v) ∷ xs) ys a = (a.0, AllGt-left key xs ys a.1)

pub AllGt-right : (key : ℕ) (xs ys : List Entry) → AllGt key (xs ++ ys) → AllGt key ys
AllGt-right key [] ys a = a
AllGt-right key ((k, v) ∷ xs) ys a = AllGt-right key xs ys a.1

pub Sorted-left : (xs ys : List Entry) → Sorted (xs ++ ys) → Sorted xs
Sorted-left [] ys s = tt
Sorted-left ((k, v) ∷ xs) ys s = (AllGt-left k xs ys s.0, Sorted-left xs ys s.1)

pub Sorted-right : (xs ys : List Entry) → Sorted (xs ++ ys) → Sorted ys
Sorted-right [] ys s = s
Sorted-right ((k, v) ∷ xs) ys s = Sorted-right xs ys s.1

-- In a sorted list what stands before an entry has smaller keys.
pub Sorted-before :
    (xs : List Entry) (k : ℕ) (v : Option ℕ) (ys : List Entry)
    → Sorted (xs ++ ((k, v) ∷ ys))
    → AllLt k xs
Sorted-before [] k v ys s = tt
Sorted-before ((j, w) ∷ xs) k v ys s =
    ((AllGt-right j xs ((k, v) ∷ ys) s.0).0, Sorted-before xs k v ys s.1)

pub upsert-before :
    (key : ℕ) (v : Option ℕ) (xs ys : List Entry)
    → AllLt key xs
    → upsert key v (xs ++ ys) ≡ xs ++ upsert key v ys
unfolding upsert
upsert-before key v [] ys a = refl
upsert-before key v ((k, w) ∷ xs) ys a = ground (arith, upsert-before key v xs ys)

upsert-front :
    (key : ℕ) (v : Option ℕ) (ys : List Entry) → AllGt key ys → upsert key v ys ≡ (key, v) ∷ ys
unfolding upsert
upsert-front key v [] a = refl
upsert-front key v ((k, w) ∷ ys) a = ground arith

pub upsert-after :
    (key : ℕ) (v : Option ℕ) (xs ys : List Entry)
    → AllGt key ys
    → upsert key v (xs ++ ys) ≡ upsert key v xs ++ ys
unfolding upsert
upsert-after key v [] ys a = upsert-front key v ys a
upsert-after key v ((k, w) ∷ xs) ys a = ground (arith, upsert-after key v xs ys)

-- An entry put between the smaller and the greater keys.
pub upsert-between :
    (key : ℕ) (v : Option ℕ) (xs ys : List Entry)
    → AllLt key xs
    → AllGt key ys
    → upsert key v (xs ++ ys) ≡ xs ++ ((key, v) ∷ ys)
upsert-between key v xs ys a b = ground (arith, upsert-before key v xs ys, upsert-front key v ys)

pub upsert-here :
    (key : ℕ) (v w : Option ℕ) (xs ys : List Entry)
    → AllLt key xs
    → upsert key v (xs ++ ((key, w) ∷ ys)) ≡ xs ++ ((key, v) ∷ ys)
unfolding upsert
upsert-here key v w xs ys a = ground (arith, upsert-before key v xs ((key, w) ∷ ys))

pub lookup-before :
    (key : ℕ) (xs ys : List Entry) → AllLt key xs → lookup key (xs ++ ys) ≡ lookup key ys
unfolding lookup
lookup-before key [] ys a = refl
lookup-before key ((k, w) ∷ xs) ys a = ground (arith, lookup-before key xs ys)

pub lookup-greater : (key : ℕ) (ys : List Entry) → AllGt key ys → lookup key ys ≡ none
unfolding lookup
lookup-greater key [] a = refl
lookup-greater key ((k, w) ∷ ys) a = ground (arith, lookup-greater key ys)

pub lookup-after :
    (key : ℕ) (xs ys : List Entry) → AllGt key ys → lookup key (xs ++ ys) ≡ lookup key xs
unfolding lookup
lookup-after key [] ys a = lookup-greater key ys a
lookup-after key ((k, w) ∷ xs) ys a = ground (arith, lookup-after key xs ys)

-- The map law of `upsert`.
pub lookup-upsert :
    (j key : ℕ) (v : Option ℕ) (es : List Entry)
    → lookup j (upsert key v es) ≡ (if key == j then v else lookup j es)
unfolding lookup upsert
lookup-upsert j key v [] = refl
lookup-upsert j key v ((k, w) ∷ es) = ground (arith, lookup-upsert j key v es)

upsert-AllGt :
    (j key : ℕ) (v : Option ℕ) (es : List Entry) → j < key → AllGt j es → AllGt j (upsert key v es)
unfolding upsert
upsert-AllGt j key v [] h a = (h, tt)
upsert-AllGt j key v ((k, w) ∷ es) h a = ground (arith, upsert-AllGt j key v es)

pub upsert-Sorted :
    (key : ℕ) (v : Option ℕ) (es : List Entry) → Sorted es → Sorted (upsert key v es)
unfolding upsert
upsert-Sorted key v [] s = (tt, tt)
upsert-Sorted key v ((k, w) ∷ es) s = elim (Bool-cases (ltb key k)) [
  | inl e ↦ rw e ((ground arith, AllGt-weaken es (ground arith) s.0), s)
  | inr e ↦ elim (Bool-cases (k == key)) [
    | inl f ↦ rw (e, f) s
    | inr f ↦ rw (e, f) (upsert-AllGt k key v es (ground arith) s.0, upsert-Sorted key v es s.1)
  ]
]

pub upsert-past :
    (key : ℕ) (v : Option ℕ) (xs : List Entry) (k : ℕ) (w : Option ℕ) (ys : List Entry)
    → AllLt key xs
    → k < key
    → xs ++ ((k, w) ∷ upsert key v ys) ≡ upsert key v (xs ++ ((k, w) ∷ ys))
unfolding upsert
upsert-past key v xs k w ys a h = ground (arith, upsert-before key v xs ((k, w) ∷ ys))

pub lookup-past :
    (key : ℕ) (xs : List Entry) (k : ℕ) (w : Option ℕ) (ys : List Entry)
    → AllLt key xs
    → k < key
    → lookup key (xs ++ ((k, w) ∷ ys)) ≡ lookup key ys
unfolding lookup
lookup-past key xs k w ys a h = ground (arith, lookup-before key xs ((k, w) ∷ ys))

pub AllApart-left : (key : ℕ) (xs ys : List Entry) → AllApart key (xs ++ ys) → AllApart key xs
AllApart-left key [] ys a = tt
AllApart-left key ((k, v) ∷ xs) ys a = (a.0, AllApart-left key xs ys a.1)

pub AllApart-right : (key : ℕ) (xs ys : List Entry) → AllApart key (xs ++ ys) → AllApart key ys
AllApart-right key [] ys a = a
AllApart-right key ((k, v) ∷ xs) ys a = AllApart-right key xs ys a.1

-- In a sorted list every entry is looked up under its key.
pub lookup-AllApart :
    (key : ℕ) (es : List Entry) → Sorted es → ((j : ℕ) → lookup j es ≢ some key) → AllApart key es
unfolding lookup
lookup-AllApart key [] s h = tt
lookup-AllApart key ((k, v) ∷ es) s h = (head, lookup-AllApart key es s.1 tail)
  where
    head : v ≢ some key
    head e = h k (ground arith)

    tail : (j : ℕ) → lookup j es ≢ some key
    tail j e = elim (Bool-cases (k == j)) [
      | inl same ↦
          let gone : lookup j es ≡ none = ground (arith, lookup-greater k es s.0, ==→eq k j same) in
          absurd (let both : none ≡ some key = sym gone ∙ e in cc)
      | inr other ↦ h j (rw other e)
    ]
