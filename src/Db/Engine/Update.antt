-- ===== src/Db/Engine/Update.antt =====
-- kernel/db/database.c: what `db_get_record` gives after `db_update_encrypted`,
-- when it succeeds and when memory runs out on the way.
use vault_os.Prelude.{
  ℕ, ◌≤◌, ◌<◌, ◌≢◌, ◌⊎◌, List, none, some, Bool, true, if◌then◌else◌, ◌==◌, Bool-cases, inl, inr,
  sym, length, get_elem?, ◌≡◌, ap, ◌∙◌,
}
use vault_os.ErrorCode.{ErrorCode}
use vault_os.Crypto.Aes.{Hardware}
use vault_os.Crypto.Aes.Round.{AllBytes}
use vault_os.Crypto.Aes.Instructions.{Documented}
use vault_os.Db.Btree.{Btree, search}
use vault_os.Db.Btree.Laws.{IsTree, IsApart}
use vault_os.Db.Btree.Delete.{delete}
use vault_os.Db.Btree.Delete.Keeps.{delete-Forgets}
use vault_os.Db.Record.{Row}
use vault_os.Db.Record.Codec.{Fits, row_bytes}
use vault_os.Db.Engine.{
  Table, Database, Resources, max_record_size, set_object, insert_record, get_record, after_delete,
  update_encrypted,
}
use vault_os.Db.Engine.Sealing.{FieldsBytes}
use vault_os.Db.Engine.Tables.{IsDatabase, set_index_self}
use vault_os.Db.Engine.Rows.{written, get_record-only}
use vault_os.Db.Engine.Memory.{given}
use vault_os.Db.Engine.Insert.{get_record-insert_record, insert_record-nomem}
use vault_os.Db.Engine.Remove.{freed, delete_record-runs, get_record-delete_record}

-- A deletion adds no value.
deleted-IsApart :
    (h key : ℕ) (t : Btree) → IsTree h t → IsApart key t → IsApart key (delete t key).1
deleted-IsApart h key t tree away j e =
    let searches = (delete-Forgets h key t tree).1 j in
    elim (Bool-cases (key == j)) [
      | inl same ↦
          let gone = searches ∙ ap (λ c. if c then none else search t j) same in
          absurd (let both : none ≡ some key = sym gone ∙ e in cc)
      | inr other ↦
          let kept = searches ∙ ap (λ c. if c then none else search t j) other in
          away j (sym kept ∙ e)
    ]

module _ (aesni : Bool) (hw : Hardware) where
  -- `db_update_encrypted` of a row that is there is its deletion and the insertion of the record
  -- under the row's ids.
  update_encrypted-runs :
      (db : Database) (depth t key a : ℕ) (tb : Table) (modified : Row) (res : Resources)
      → get_elem? db.tables t ≡ some tb
      → search tb.index key ≡ some a
      → update_encrypted aesni hw depth db t key modified res
        ≡ insert_record aesni hw depth
            (written (freed db a) t (delete tb.index key).1 (set_object db.objects a none))
            t
            (record modified { row_id = key; table_id = t })
            res
  unfolding update_encrypted after_delete
  update_encrypted-runs db depth t key a tb modified res here at_key =
      ap (after_delete aesni hw depth t key modified res)
        (delete_record-runs db t key a tb here at_key)

  -- As for `db_insert_record`, at an address that is free once the old object is: on a row that is
  -- there `db_update_encrypted` succeeds and keeps the invariant. Then `db_get_record` gives the
  -- modified record under the row's ids, and for every other row what it gave before.
  pub get_record-update_encrypted :
      (doc : Documented hw) (db : Database) (depth h t key a a' c m : ℕ) (tb : Table)
      (modified : Row) (iv : List ℕ)
      → IsDatabase db
      → get_elem? db.tables t ≡ some tb
      → search tb.index key ≡ some a
      → IsTree h tb.index
      → h < depth
      → IsApart key tb.index
      → set_object db.objects a none a' ≡ none
      → AllBytes iv
      → let rec : Row = record modified { row_id = key; table_id = t } in
        Fits rec
        → FieldsBytes rec.fields
        → length (row_bytes rec) ≤ max_record_size
        → (db' : Database) × (update_encrypted aesni hw depth db t key modified (given a' c m iv)
            ≡ some (ErrorCode.ok, db'))
          × IsDatabase db'
          × (get_record aesni hw true db' t key ≡ some rec)
          × ((memory : Bool) (u j : ℕ)
              → (t ≢ u) ⊎ (key ≢ j)
              → get_record aesni hw memory db' u j ≡ get_record aesni hw memory db u j)
  get_record-update_encrypted doc db depth h t key a a' c m tb modified iv db-ok here at_key tree
        deep away free hv fits bytes room =
      let rec : Row = record modified { row_id = key; table_id = t } in
      let index' = (delete tb.index key).1 in
      let between = written (freed db a) t index' (set_object db.objects a none) in
      let (deleted, ok', none_left, others) =
        get_record-delete_record aesni hw db t key a tb db-ok here at_key in
      let (db', run, ok'', back, others') =
        get_record-insert_record aesni hw doc between depth h t a' c m
          (record tb { index = index' }) rec iv ok' (set_index_self db.tables t tb index' here)
          (delete-Forgets h key tb.index tree).0 deep (deleted-IsApart h key tb.index tree away)
          free hv fits bytes room in
      (
        db',
        update_encrypted-runs db depth t key a tb modified (given a' c m iv) here at_key ∙ run,
        ok'',
        back,
        λ memory u j apart. others' memory u j apart ∙ others memory u j apart,
      )

  -- On a row that is there, for a record that fits the buffer: when the heap has no block for the
  -- ciphertext or for the input of the seal, `db_update_encrypted` reports that, and has lost the
  -- row. `db_get_record` finds nothing under its id, and for every other row what it found before.
  pub update_encrypted-loses :
      (db : Database) (depth t key a a' : ℕ) (tb : Table) (modified : Row) (res : Resources)
      → IsDatabase db
      → get_elem? db.tables t ≡ some tb
      → search tb.index key ≡ some a
      → length (row_bytes (record modified { row_id = key; table_id = t })) ≤ max_record_size
      → res.enc_at ≡ some a'
      → (res.ciphertext ≡ none) ⊎ (res.mac_input ≡ none)
      → (db' : Database) × (update_encrypted aesni hw depth db t key modified res
          ≡ some (ErrorCode.nomem, db'))
        × ((memory : Bool) → get_record aesni hw memory db' t key ≡ none)
        × ((memory : Bool) (u j : ℕ)
            → (t ≢ u) ⊎ (key ≢ j)
            → get_record aesni hw memory db' u j ≡ get_record aesni hw memory db u j)
  update_encrypted-loses db depth t key a a' tb modified res db-ok here at_key room at_a full =
      let between = written (freed db a) t (delete tb.index key).1 (set_object db.objects a none) in
      let (deleted, ok', none_left, others) =
        get_record-delete_record aesni hw db t key a tb db-ok here at_key in
      let index' = (delete tb.index key).1 in
      let (db', run, same) =
        insert_record-nomem aesni hw depth between t a' (record tb { index = index' })
          (record modified { row_id = key; table_id = t }) res
          (set_index_self db.tables t tb index' here) room at_a full in
      (
        db',
        update_encrypted-runs db depth t key a tb modified res here at_key ∙ run,
        λ memory.
            get_record-only aesni hw memory between db' t key same.tables same.objects
            ∙ none_left memory,
        λ memory u j other.
            get_record-only aesni hw memory between db' u j same.tables same.objects
            ∙ others memory u j other,
      )
