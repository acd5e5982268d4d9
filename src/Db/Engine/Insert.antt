-- ===== src/Db/Engine/Insert.antt =====
-- kernel/db/database.c: what `db_get_record` gives after `db_insert_record`.
use vault_os.Prelude.{
  ℕ, ◌+◌, ◌≤◌, ◌<◌, ◌≢◌, ◌⊎◌, List, Option, none, some, Bool, true, false, if◌then◌else◌, ◌==◌,
  length, get_elem?, ◌≡◌, refl, ap, sym, ◌∙◌, arith, Bool-cases, inl, inr, ==→eq, eq→==, ne→==,
  take, take_all, ltb, le→ltb, ◌*◌, ◌/◌, length-append,
}
use vault_os.ErrorCode.{ErrorCode}
use vault_os.Crypto.Aes.{Hardware}
use vault_os.Crypto.Aes.Round.{AllBytes}
use vault_os.Crypto.Aes.Instructions.{Documented}
use vault_os.Crypto.Pkcs7.{padded_size}
use vault_os.Db.Btree.{Btree, search}
use vault_os.Db.Btree
use vault_os.Db.Btree.Laws.{IsTree, IsApart, insert-search}
use vault_os.Db.Record.{Row, header, serialize}
use vault_os.Db.Record.Codec.{Fits, row_bytes, serialize-exact, length-header, fields_bytes}
use vault_os.Db.Engine.{
  Encrypted, Table, Database, Resources, max_record_size, set_object, seal, store_sealed,
  insert_written, insert_record, decrypt_with, get_record,
}
use vault_os.Db.Engine.Sealing.{FieldsBytes, decrypt_with-seal}
use vault_os.Db.Engine.Tables.{
  Owns, IsTable, IsDatabase, set_index_self, set_object_self, set_object_ne, Owns-fresh,
}
use vault_os.Db.Engine.Rows.{
  found, decrypt_found, get_record-found, get_record-only, decrypt_found-index, written,
  written-IsDatabase, written-others,
}
use vault_os.Db.Engine.Memory.{given, holding, Same, store_sealed-runs, store_sealed-nomem}

module _ (aesni : Bool) (hw : Hardware) where
  -- A record with room reaches the allocations, sealed.
  insert_record-reaches :
      (depth : ℕ) (db : Database) (t : ℕ) (tb : Table) (rec : Row) (res : Resources)
      → get_elem? db.tables t ≡ some tb
      → length (row_bytes rec) ≤ max_record_size
      → insert_record aesni hw depth db t rec res
        ≡ store_sealed aesni hw depth db t tb
            (seal aesni hw tb t rec.row_id (row_bytes rec) res.iv)
            res
  unfolding insert_record insert_written
  insert_record-reaches depth db t tb rec res here room =
      let bytes = row_bytes rec in
      let size : 16 ≤ length bytes =
        omega (arith, length-append (header rec) (fields_bytes rec.fields), length-header rec) in
      let fits : ltb (max_record_size + 16) (padded_size (length bytes)) ≡ false =
        unfold padded_size in
        le→ltb (max_record_size + 16) ((length bytes / 16 + 1) * 16) (omega arith) in
      let some_bytes : length bytes == 0 ≡ false = ne→== (length bytes) 0 (λ e. omega arith) in
      let reached : insert_record aesni hw depth db t rec res
          ≡ insert_written aesni hw depth db t tb rec.row_id res (serialize rec max_record_size) =
        rw (insert_record, here) refl in
      let chosen : insert_written aesni hw depth db t tb rec.row_id res (length bytes, bytes)
          ≡ store_sealed aesni hw depth db t tb
              (seal aesni hw tb t rec.row_id (take (length bytes) bytes) res.iv) res =
        rw (insert_written, some_bytes, fits) refl in
      reached
      ∙ ap (insert_written aesni hw depth db t tb rec.row_id res)
          (serialize-exact rec max_record_size room)
      ∙ chosen
      ∙ ap (λ b. store_sealed aesni hw depth db t tb (seal aesni hw tb t rec.row_id b res.iv) res)
          (take_all (length bytes) bytes (omega arith))

  insert_record-stores :
      (depth : ℕ) (db : Database) (t a c m : ℕ) (tb : Table) (rec : Row) (iv : List ℕ)
      (index' : Btree)
      → get_elem? db.tables t ≡ some tb
      → length (row_bytes rec) ≤ max_record_size
      → Btree.insert depth tb.index rec.row_id (some a) ≡ some index'
      → insert_record aesni hw depth db t rec (given a c m iv)
        ≡ some (
          ErrorCode.ok,
          written
              (holding db a c m)
              t
              index'
              (set_object db.objects a (some (seal aesni hw tb t rec.row_id (row_bytes rec) iv))),
        )
  insert_record-stores depth db t a c m tb rec iv index' here room run =
      let enc = seal aesni hw tb t rec.row_id (row_bytes rec) iv in
      insert_record-reaches depth db t tb rec (given a c m iv) here room
      ∙ store_sealed-runs aesni hw depth db t a c m tb enc iv index' (unfold seal in run)

  -- Without memory for the ciphertext or for the input of the seal nothing is stored, and the
  -- blocks given so far are taken back.
  pub insert_record-nomem :
      (depth : ℕ) (db : Database) (t a : ℕ) (tb : Table) (rec : Row) (res : Resources)
      → get_elem? db.tables t ≡ some tb
      → length (row_bytes rec) ≤ max_record_size
      → res.enc_at ≡ some a
      → (res.ciphertext ≡ none) ⊎ (res.mac_input ≡ none)
      → (db' : Database) × (insert_record aesni hw depth db t rec res ≡ some (ErrorCode.nomem, db'))
        × Same db db'
  insert_record-nomem depth db t a tb rec res here room at_a full =
      let enc = seal aesni hw tb t rec.row_id (row_bytes rec) res.iv in
      let (db', run, same) = store_sealed-nomem aesni hw depth db t a tb enc res at_a full in
      (db', insert_record-reaches depth db t tb rec res here room ∙ run, same)

  -- The new object behind its key.
  get_record-written :
      (db : Database) (t a : ℕ) (tb : Table) (rec : Row) (enc : Encrypted) (index' : Btree)
      → get_elem? db.tables t ≡ some tb
      → search index' rec.row_id ≡ some a
      → decrypt_with aesni hw true tb enc ≡ some rec
      → get_record aesni hw true
          (written db t index' (set_object db.objects a (some enc)))
          t
          rec.row_id
        ≡ some rec
  unfolding found decrypt_found
  get_record-written db t a tb rec enc index' here leads back =
      let objects' = set_object db.objects a (some enc) in
      get_record-found aesni hw true (written db t index' objects') t rec.row_id
        (record tb { index = index' }) (set_index_self db.tables t tb index' here)
      ∙ decrypt_found-index aesni hw true tb index' (found objects' index' rec.row_id)
      ∙ rw (found, leads, set_object_self db.objects a (some enc), decrypt_found) back

-- The entries of the index behind an insertion.
inserted-Owns :
    (objects : ℕ → Option Encrypted) (t key a : ℕ) (enc : Encrypted) (index index' : Btree)
    → objects a ≡ none
    → enc.table_id ≡ t
    → enc.row_id ≡ key
    → ((j : ℕ) → search index' j ≡ (if key == j then some a else search index j))
    → Owns objects t index
    → Owns (set_object objects a (some enc)) t index'
inserted-Owns objects t key a enc index index' free table row searches owns j b leads =
    elim (Bool-cases (key == j)) [
      | inl same ↦
          let e : search index' j ≡ some a =
            searches j ∙ ap (λ c. if c then some a else search index j) same in
          let at_a : some a ≡ some b = sym e ∙ leads in
          let address : a ≡ b = cc in
          (
            enc,
            ap (set_object objects a (some enc)) (sym address)
                ∙ set_object_self objects a (some enc),
            table,
            row ∙ ==→eq key j same,
          )
      | inr other ↦
          let e : search index' j ≡ search index j =
            searches j ∙ ap (λ c. if c then some a else search index j) other in
          Owns-fresh objects a (some enc) t index free owns j b (sym e ∙ leads)
    ]

module _ (aesni : Bool) (hw : Hardware) (doc : Documented hw) where
  -- In a database whose indexes are search trees over objects of their own, where every key
  -- schedule is 11 round keys of bytes: with the allocations and the random bytes given, at an
  -- address that is free, with fuel above the height of the index, and under a row id that is not
  -- the address of a record of the table, `db_insert_record` of a record that fits, in a table that exists, succeeds and keeps the invariant. Then
  -- `db_get_record` gives back exactly the record, decrypted and verified, and for every other
  -- row of every table what it gave before. The AES instructions are as documented.
  pub get_record-insert_record :
      (db : Database) (depth h t a c m : ℕ) (tb : Table) (rec : Row) (iv : List ℕ)
      → IsDatabase db
      → get_elem? db.tables t ≡ some tb
      → IsTree h tb.index
      → h < depth
      → IsApart rec.row_id tb.index
      → db.objects a ≡ none
      → AllBytes iv
      → Fits rec
      → FieldsBytes rec.fields
      → length (row_bytes rec) ≤ max_record_size
      → (db' : Database) × (insert_record aesni hw depth db t rec (given a c m iv)
          ≡ some (ErrorCode.ok, db'))
        × IsDatabase db'
        × (get_record aesni hw true db' t rec.row_id ≡ some rec)
        × ((memory : Bool) (u j : ℕ)
            → (t ≢ u) ⊎ (rec.row_id ≢ j)
            → get_record aesni hw memory db' u j ≡ get_record aesni hw memory db u j)
  get_record-insert_record db depth h t a c m tb rec iv db-ok here old deep away free hv fits bytes
        room =
      let ok = db-ok t tb here in
      let enc = seal aesni hw tb t rec.row_id (row_bytes rec) iv in
      let (index', h', run, low, tree, searches) =
        insert-search depth h rec.row_id (some a) tb.index deep old away in
      let objects' = set_object db.objects a (some enc) in
      let owner : enc.table_id ≡ t = unfold seal in refl in
      let row : enc.row_id ≡ rec.row_id = unfold seal in refl in
      let own : IsTable objects' t (record tb { index = index' }) = record {
        height = h';
        tree = tree;
        key = ok.key;
        owns =
            inserted-Owns db.objects t rec.row_id a enc tb.index index' free owner row searches
              ok.owns;
      } in
      let leads : search index' rec.row_id ≡ some a =
        searches rec.row_id
        ∙ ap (λ c. if c then some a else search tb.index rec.row_id)
            (eq→== rec.row_id rec.row_id refl) in
      let size : 0 < length (row_bytes rec) =
        omega (arith, length-append (header rec) (fields_bytes rec.fields), length-header rec) in
      let back =
        decrypt_with-seal aesni hw doc tb ok.key t rec.row_id rec iv hv fits bytes size room in
      (
        written (holding db a c m) t index' objects',
        insert_record-stores aesni hw depth db t a c m tb rec iv index' here room run,
        written-IsDatabase (holding db a c m) t tb index' objects' here own (λ u tu ne at_u.
            let other = db-ok u tu at_u in
            record {
              height = other.height;
              tree = other.tree;
              key = other.key;
              owns = Owns-fresh db.objects a (some enc) u tu.index free other.owns;
            }),
        get_record-written aesni hw (holding db a c m) t a tb rec enc index' here leads back,
        λ memory u j apart.
            written-others aesni hw memory (holding db a c m) t rec.row_id tb index' objects' here
              (λ k ne.
                searches k
                ∙ ap (λ c. if c then some a else search tb.index k) (ne→== rec.row_id k ne))
              (λ v k b tv at_v leads_to apart'.
                let (kept, is_there, table, key) = (db-ok v tv at_v).owns k b leads_to in
                let unlike : a ≢ b = λ same.
                  absurd
                    (let gone = ap db.objects same in let both : none ≡ some kept = cc in cc) in
                set_object_ne db.objects a b (some enc) unlike)
              u j apart
            ∙ get_record-only aesni hw memory db (holding db a c m) u j refl refl,
      )
