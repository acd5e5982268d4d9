-- ===== src/Db/Engine/Tables.antt =====
-- kernel/db/database.c: the invariant of the tables, and what `db_create_table` and the writes of
-- an index or an object keep of it.
use vault_os.Prelude.{
  ℕ, zero, suc, ◌≢◌, List, [], ◌∷◌, Option, none, some, get_elem?, ◌≡◌, refl, ap, sym, ◌∙◌, eq→==,
  ne→==,
}
use vault_os.Crypto.Aes.Inverse.{IsSchedule}
use vault_os.Db.Btree.{Btree, search}
use vault_os.Db.Btree.Laws.{IsTree}
use vault_os.Db.Engine.{Encrypted, Table, Database, set_index, set_object}

-- Every entry of an index is the address of an object that carries the table's number and the
-- entry's key. So no two entries share an object.
abbrev pub Owns : (ℕ → Option Encrypted) → ℕ → Btree → Type 0
Owns objects t index =
    (j a : ℕ)
    → search index j ≡ some a
    → (enc : Encrypted) × (objects a ≡ some enc) × (enc.table_id ≡ t) × (enc.row_id ≡ j)

-- A table whose index is a search tree with leaves at some depth.
pub record IsTable (objects : ℕ → Option Encrypted) (t : ℕ) (tb : Table) : Type 0 where
  pub height : ℕ
  pub tree : IsTree height tb.index
  pub key : IsSchedule tb.aes_key
  pub owns : Owns objects t tb.index

abbrev pub IsDatabase : Database → Type 0
IsDatabase db = (t : ℕ) (tb : Table) → get_elem? db.tables t ≡ some tb → IsTable db.objects t tb

pub set_index_self :
    (tbs : List Table) (t : ℕ) (tb : Table) (index : Btree)
    → get_elem? tbs t ≡ some tb
    → get_elem? (set_index tbs t index) t ≡ some (record tb { index = index })
unfolding set_index
set_index_self [] t tb index h = absurd (cc)
set_index_self (x ∷ tbs) zero tb index h =
    let same : x ≡ tb = cc in ap {A = Table} (λ y. some (record y { index = index })) same
set_index_self (x ∷ tbs) (suc t) tb index h = set_index_self tbs t tb index h

pub set_index_ne :
    (tbs : List Table) (t u : ℕ) (index : Btree)
    → t ≢ u
    → get_elem? (set_index tbs t index) u ≡ get_elem? tbs u
unfolding set_index
set_index_ne [] t u index h = refl
set_index_ne (x ∷ tbs) zero zero index h = absurd (h refl)
set_index_ne (x ∷ tbs) zero (suc u) index h = refl
set_index_ne (x ∷ tbs) (suc t) zero index h = refl
set_index_ne (x ∷ tbs) (suc t) (suc u) index h = set_index_ne tbs t u index (λ e. h (ap suc e))

pub set_object_self :
    (objects : ℕ → Option Encrypted) (a : ℕ) (o : Option Encrypted) → set_object objects a o a ≡ o
unfolding set_object
set_object_self objects a o = rw (eq→== a a refl) refl

pub set_object_ne :
    (objects : ℕ → Option Encrypted) (a b : ℕ) (o : Option Encrypted)
    → a ≢ b
    → set_object objects a o b ≡ objects b
unfolding set_object
set_object_ne objects a b o h = rw (ne→== a b h) refl

-- Where a new object is at an address that was free, all entries keep theirs.
pub Owns-fresh :
    (objects : ℕ → Option Encrypted) (a : ℕ) (o : Option Encrypted) (t : ℕ) (index : Btree)
    → objects a ≡ none
    → Owns objects t index
    → Owns (set_object objects a o) t index
Owns-fresh objects a o t index free owns j b found =
    let (enc, here, table, row) = owns j b found in
    let other : a ≢ b =
      λ same. absurd (let gone = ap objects same in let both : none ≡ some enc = cc in cc) in
    (enc, set_object_ne objects a b o other ∙ here, table, row)

-- Where the object of one entry goes, all others keep theirs.
pub Owns-freed :
    (objects : ℕ → Option Encrypted) (a : ℕ) (gone : Encrypted) (t : ℕ) (index : Btree)
    → objects a ≡ some gone
    → Owns objects t index
    → ((j : ℕ) → search index j ≡ some a → ⊥)
    → Owns (set_object objects a none) t index
Owns-freed objects a gone t index was owns unused j b found =
    let (enc, here, table, row) = owns j b found in
    let other : a ≢ b = λ same. unused j (found ∙ ap some (sym same)) in
    (enc, set_object_ne objects a b none other ∙ here, table, row)
