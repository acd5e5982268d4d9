-- ===== src/Db/Engine/Rows.antt =====
-- kernel/db/database.c: what `db_get_record` reads where one index and the objects are written.
use vault_os.Prelude.{
  ℕ, ◌≢◌, ◌⊎◌, Option, none, some, Bool, ◌==◌, get_elem?, ◌≡◌, refl, ap, sym, ◌∙◌, Bool-cases, inl,
  inr, ==→eq, ==→ne, Option-cases,
}
use mathlib.Core.Path.{subst}
use vault_os.Crypto.Aes.{Hardware}
use vault_os.Db.Btree.{Btree, search}
use vault_os.Db.Record.{Row}
use vault_os.Db.Engine.{
  Encrypted, Table, Database, set_index, opened, decrypt_with, decrypt_record, object_of,
  get_record,
}
use vault_os.Db.Engine.Tables.{IsTable, IsDatabase, set_index_self, set_index_ne}

-- The object that an index leads to.
unfoldable pub found : (ℕ → Option Encrypted) → Btree → ℕ → Option Encrypted
found objects index j = elim (search index j) [ none ↦ none | some a ↦ objects a ]

found-same :
    (objects objects' : ℕ → Option Encrypted) (index index' : Btree) (j : ℕ)
    → search index' j ≡ search index j
    → ((b : ℕ) → search index j ≡ some b → objects' b ≡ objects b)
    → found objects' index' j ≡ found objects index j
unfolding found
found-same objects objects' index index' j same kept = elim (Option-cases (search index j)) [
  | inl e ↦ rw (found, same, e) refl
  | inr (b, e) ↦ rw (found, same, e) (kept b e)
]

module _ (aesni : Bool) (hw : Hardware) (memory : Bool) where
  unfoldable pub decrypt_found : Table → Option Encrypted → Option Row
  decrypt_found tb none = none
  decrypt_found tb (some enc) = decrypt_with aesni hw memory tb enc

  pub get_record-found :
      (db : Database) (t j : ℕ) (tb : Table)
      → get_elem? db.tables t ≡ some tb
      → get_record aesni hw memory db t j ≡ decrypt_found tb (found db.objects tb.index j)
  unfolding get_record object_of decrypt_record found decrypt_found
  get_record-found db t j tb here = elim (Option-cases (search tb.index j)) [
    | inl e ↦ rw (get_record, here, object_of, found, e) refl
    | inr (a, e) ↦ elim (Option-cases (db.objects a)) [
      | inl o ↦ rw (get_record, here, object_of, found, e, o) refl
      | inr (enc, o) ↦ rw (get_record, here, object_of, found, e, o, decrypt_record, here) refl
    ]
  ]

  get_record-missing :
      (db : Database) (t j : ℕ)
      → get_elem? db.tables t ≡ none
      → get_record aesni hw memory db t j ≡ none
  unfolding get_record
  get_record-missing db t j none_there = rw (get_record, none_there) refl

  -- The index of a table does not enter the decryption.
  pub decrypt_found-index :
      (tb : Table) (index : Btree) (o : Option Encrypted)
      → decrypt_found (record tb { index = index }) o ≡ decrypt_found tb o
  unfolding decrypt_found decrypt_with opened
  decrypt_found-index tb index none = refl
  decrypt_found-index tb index (some enc) = refl

-- What the other fields hold does not enter a read.
pub get_record-only :
    (aesni : Bool) (hw : Hardware) (memory : Bool) (db db' : Database) (t j : ℕ)
    → db'.tables ≡ db.tables
    → db'.objects ≡ db.objects
    → get_record aesni hw memory db' t j ≡ get_record aesni hw memory db t j
unfolding get_record object_of decrypt_record
get_record-only aesni hw memory db db' t j tables objects =
    elim (Option-cases (get_elem? db.tables t)) [
      | inl e ↦
          let e' = ap (λ tbs. get_elem? tbs t) tables ∙ e in
          get_record-missing aesni hw memory db' t j e'
          ∙ sym (get_record-missing aesni hw memory db t j e)
      | inr (tb, e) ↦
          let e' = ap (λ tbs. get_elem? tbs t) tables ∙ e in
          get_record-found aesni hw memory db' t j tb e'
          ∙ ap (λ o. decrypt_found aesni hw memory tb (found o tb.index j)) objects
          ∙ sym (get_record-found aesni hw memory db t j tb e)
    ]

-- One index and the objects are written.
abbrev pub written : Database → ℕ → Btree → (ℕ → Option Encrypted) → Database
written db t index' objects' = record db {
  tables = set_index db.tables t index';
  objects = objects';
}

module _ (db : Database) (t : ℕ) (tb : Table) (index' : Btree) (objects' : ℕ → Option Encrypted)
    (here : get_elem? db.tables t ≡ some tb) where
  pub written-IsDatabase :
      IsTable objects' t (record tb { index = index' })
      → ((u : ℕ) (tu : Table) → t ≢ u → get_elem? db.tables u ≡ some tu → IsTable objects' u tu)
      → IsDatabase (written db t index' objects')
  written-IsDatabase own others u tu at_u = elim (Bool-cases (t == u)) [
    | inl same ↦
        let e = ==→eq t u same in
        let lookup = ap (get_elem? (set_index db.tables t index')) e ∙ at_u in
        let tables : record tb { index = index' } ≡ tu =
          let self = set_index_self db.tables t tb index' here in cc in
        subst (λ v. IsTable objects' v tu) e (subst (IsTable objects' t) tables own)
    | inr differs ↦
        let ne = ==→ne t u differs in
        others u tu ne (sym (set_index_ne db.tables t u index' ne) ∙ at_u)
  ]

-- What the other entries lead to is kept.
module _ (aesni : Bool) (hw : Hardware) (memory : Bool) (db : Database) (t key : ℕ) (tb : Table)
    (index' : Btree) (objects' : ℕ → Option Encrypted) (here : get_elem? db.tables t ≡ some tb)
    (searches : (j : ℕ) → key ≢ j → search index' j ≡ search tb.index j)
    (kept : (u j b : ℕ) (tu : Table)
      → get_elem? db.tables u ≡ some tu
      → search tu.index j ≡ some b
      → (t ≢ u) ⊎ (key ≢ j)
      → objects' b ≡ db.objects b) where
  -- In the table itself.
  others_in_table :
      (j : ℕ)
      → key ≢ j
      → get_record aesni hw memory (written db t index' objects') t j
        ≡ get_record aesni hw memory db t j
  others_in_table j other =
      get_record-found aesni hw memory
        (record db { tables = set_index db.tables t index'; objects = objects' }) t j
        (record tb { index = index' }) (set_index_self db.tables t tb index' here)
      ∙ decrypt_found-index aesni hw memory tb index' (found objects' index' j)
      ∙ ap (decrypt_found aesni hw memory tb) (
          found-same db.objects objects' tb.index index' j (searches j other)
            (λ b e. kept t j b tb here e (inr other)))
      ∙ sym (get_record-found aesni hw memory db t j tb here)

  -- In another table.
  others_elsewhere :
      (u j : ℕ)
      → t ≢ u
      → get_record aesni hw memory (written db t index' objects') u j
        ≡ get_record aesni hw memory db u j
  others_elsewhere u j other =
      let db' : Database = record db {
        tables = set_index db.tables t index';
        objects = objects';
      } in
      let same = set_index_ne db.tables t u index' other in
      elim (Option-cases (get_elem? db.tables u)) [
        | inl e ↦
            get_record-missing aesni hw memory db' u j (same ∙ e)
            ∙ sym (get_record-missing aesni hw memory db u j e)
        | inr (tu, e) ↦
            get_record-found aesni hw memory db' u j tu (same ∙ e)
            ∙ ap (decrypt_found aesni hw memory tu) (
                found-same db.objects objects' tu.index tu.index j refl
                  (λ b f. kept u j b tu e f (inl other)))
            ∙ sym (get_record-found aesni hw memory db u j tu e)
      ]

  pub written-others :
      (u j : ℕ)
      → (t ≢ u) ⊎ (key ≢ j)
      → get_record aesni hw memory (written db t index' objects') u j
        ≡ get_record aesni hw memory db u j
  written-others u j (inl other) = others_elsewhere u j other
  written-others u j (inr other) = elim (Bool-cases (t == u)) [
    | inl same ↦
        subst
          (λ v.
            get_record aesni hw memory (written db t index' objects') v j
            ≡ get_record aesni hw memory db v j)
          (==→eq t u same) (others_in_table j other)
    | inr differs ↦ others_elsewhere u j (==→ne t u differs)
  ]
