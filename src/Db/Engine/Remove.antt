-- ===== src/Db/Engine/Remove.antt =====
-- kernel/db/database.c: what `db_get_record` gives after `db_delete_record`.
use vault_os.Prelude.{
  ℕ, ◌≢◌, ◌⊎◌, Option, none, some, Bool, if◌then◌else◌, ◌==◌, get_elem?, ◌≡◌, refl, ap, sym, ◌∙◌,
  Bool-cases, inl, inr, ==→ne, eq→==, ne→==,
}
use vault_os.ErrorCode.{ErrorCode}
use vault_os.Crypto.Aes.{Hardware}
use vault_os.Db.Btree.{Btree, search}
use vault_os.Db.Btree.Delete.{delete}
use vault_os.Db.Btree.Delete.Keeps.{delete-Forgets}
use vault_os.Db.Engine.{
  Encrypted, Table, Database, set_object, give_back, get_record, delete_from, delete_record,
}
use vault_os.Db.Engine.Tables.{Owns, IsTable, IsDatabase, set_index_self, set_object_ne}
use vault_os.Db.Engine.Rows.{
  found, decrypt_found, get_record-found, get_record-only, written, written-IsDatabase,
  written-others,
}

-- The entries of the index behind a deletion.
removed-Owns :
    (objects : ℕ → Option Encrypted) (t key a : ℕ) (index index' : Btree)
    → search index key ≡ some a
    → ((j : ℕ) → search index' j ≡ (if key == j then none else search index j))
    → Owns objects t index
    → Owns (set_object objects a none) t index'
removed-Owns objects t key a index index' at_key searches owns j b leads =
    elim (Bool-cases (key == j)) [
      | inl same ↦
          let e : search index' j ≡ none =
            searches j ∙ ap (λ c. if c then none else search index j) same in
          absurd cc
      | inr other ↦
          let e : search index' j ≡ search index j =
            searches j ∙ ap (λ c. if c then none else search index j) other in
          let (enc, is_there, table, row) = owns j b (sym e ∙ leads) in
          let (enc', is_there', table', row') = owns key a at_key in
          let unlike : a ≢ b = λ same.
            let o = ap objects same in
            let one : enc ≡ enc' = cc in
            ==→ne key j other (sym row' ∙ sym (ap (λ x. x.row_id) one) ∙ row) in
          (enc, set_object_ne objects a b none unlike ∙ is_there, table, row)
    ]

-- The objects of two rows are two objects.
apart :
    (db : Database) (db-ok : IsDatabase db) (t u key j a b : ℕ) (tb tu : Table)
    → get_elem? db.tables t ≡ some tb
    → get_elem? db.tables u ≡ some tu
    → search tb.index key ≡ some a
    → search tu.index j ≡ some b
    → (t ≢ u) ⊎ (key ≢ j)
    → a ≢ b
apart db db-ok t u key j a b tb tu at_t at_u at_key at_j two same =
    let (enc, is_there, table, row) = (db-ok t tb at_t).owns key a at_key in
    let (enc', is_there', table', row') = (db-ok u tu at_u).owns j b at_j in
    let o = ap db.objects same in
    let one : enc ≡ enc' = cc in
    elim two [
      | inl ne ↦ ne (sym table ∙ ap (λ x. x.table_id) one ∙ table')
      | inr ne ↦ ne (sym row ∙ ap (λ x. x.row_id) one ∙ row')
    ]

-- The blocks of the record at `a` are taken back.
abbrev pub freed : Database → ℕ → Database
freed db a = give_back (give_back db (db.ciphertext_at a)) a

pub delete_record-runs :
    (db : Database) (t key a : ℕ) (tb : Table)
    → get_elem? db.tables t ≡ some tb
    → search tb.index key ≡ some a
    → delete_record db t key ≡ (
      ErrorCode.ok,
      written (freed db a) t (delete tb.index key).1 (set_object db.objects a none),
    )
unfolding delete_record delete_from
delete_record-runs db t key a tb here at_key = rw (delete_record, here, delete_from, at_key) refl

found-none :
    (aesni : Bool) (hw : Hardware) (memory : Bool) (tb : Table) (objects : ℕ → Option Encrypted)
    (key : ℕ)
    → search tb.index key ≡ none
    → decrypt_found aesni hw memory tb (found objects tb.index key) ≡ none
unfolding found decrypt_found
found-none aesni hw memory tb objects key e = rw (found, e, decrypt_found) refl

module _ (aesni : Bool) (hw : Hardware) where
  -- In a database whose indexes are search trees over objects of their own, `db_delete_record` of
  -- a row that the index of a table leads to succeeds and keeps the invariant. Then
  -- `db_get_record` finds nothing under the row's id, and gives for every other row of every table
  -- what it gave before.
  pub get_record-delete_record :
      (db : Database) (t key a : ℕ) (tb : Table)
      → IsDatabase db
      → get_elem? db.tables t ≡ some tb
      → search tb.index key ≡ some a
      → let db' = written (freed db a) t (delete tb.index key).1 (set_object db.objects a none) in
        (delete_record db t key ≡ (ErrorCode.ok, db'))
        × IsDatabase db'
        × ((memory : Bool) → get_record aesni hw memory db' t key ≡ none)
        × ((memory : Bool) (u j : ℕ)
            → (t ≢ u) ⊎ (key ≢ j)
            → get_record aesni hw memory db' u j ≡ get_record aesni hw memory db u j)
  get_record-delete_record db t key a tb db-ok here at_key =
      let ok = db-ok t tb here in
      let index' = (delete tb.index key).1 in
      let objects' = set_object db.objects a none in
      let (tree, searches) = delete-Forgets ok.height key tb.index ok.tree in
      let own : IsTable objects' t (record tb { index = index' }) = record {
        height = ok.height;
        tree = tree;
        key = ok.key;
        owns = removed-Owns db.objects t key a tb.index index' at_key searches ok.owns;
      } in
      let gone : search index' key ≡ none =
        searches key ∙ ap (λ c. if c then none else search tb.index key) (eq→== key key refl) in
      (
        delete_record-runs db t key a tb here at_key,
        written-IsDatabase (freed db a) t tb index' objects' here own (λ u tu ne at_u.
            let other = db-ok u tu at_u in
            record {
              height = other.height;
              tree = other.tree;
              key = other.key;
              owns = λ j b leads.
                  let (enc, is_there, table, row) = other.owns j b leads in
                  (
                    enc,
                    set_object_ne db.objects a b none
                          (apart db db-ok t u key j a b tb tu here at_u at_key leads (inl ne))
                        ∙ is_there,
                    table,
                    row,
                  );
            }),
        λ memory.
            get_record-found aesni hw memory (written (freed db a) t index' objects') t key
              (record tb { index = index' }) (set_index_self db.tables t tb index' here)
            ∙ found-none aesni hw memory (record tb { index = index' }) objects' key gone,
        λ memory u j other.
            written-others aesni hw memory (freed db a) t key tb index' objects' here
              (λ k ne.
                searches k ∙ ap (λ c. if c then none else search tb.index k) (ne→== key k ne))
              (λ v k b tv at_v leads_to away.
                set_object_ne db.objects a b none
                  (apart db db-ok t v key k a b tb tv here at_v at_key leads_to away))
              u j other
            ∙ get_record-only aesni hw memory db (freed db a) u j refl refl,
      )
