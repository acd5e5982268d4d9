-- ===== src/Tests/Engine.antt =====
-- kernel/db/database.c at concrete inputs: a database of one table, with one row or with none.
use mathlib.Core.Path.{subst}
use vault_os.Prelude.{
  ℕ, zero, suc, ◌<◌, ◌≤◌, ◌≢◌, ◌⊎◌, List, [], ◌∷◌, ◌++◌, none, some, Bool, true, false, length,
  replicate, ◌≡◌, refl, arith, inl, inr, if◌then◌else◌, ◌==◌, Bool-cases, ==→eq, ap, sym, ◌∙◌,
}
use vault_os.Prelude.Bytes.{le_bytes}
use vault_os.ErrorCode.{ErrorCode}
use vault_os.Crypto.Aes.Round.{AllBytes}
use vault_os.Crypto.Hmac.{HmacContext, compute, compute-IsDigest}
use vault_os.Db.Btree.{leaf, search}
use vault_os.Db.Btree.Model.{lookup}
use vault_os.Db.Btree.Weave.{flat}
use vault_os.Db.Btree.Search.{Shape}
use vault_os.Db.Btree.Laws.{IsTree, IsApart, search-lookup}
use vault_os.Db.Btree.Delete.{delete}
use vault_os.Db.Record.{Row, header, u64, bool}
use vault_os.Db.Record.Codec.{Fits, row_bytes, fields_bytes, value_bytes}
use vault_os.Db.Engine.{
  Schema, Encrypted, Table, Database, Resources, max_record_size, init, create_table, new_table,
  set_object, seal, insert_record, decrypt_with, get_record, delete_record, update_encrypted,
}
use vault_os.Db.Engine.Sealing.{decrypt_with-seal}
use vault_os.Db.Engine.Tables.{Owns, IsTable, IsDatabase}
use vault_os.Db.Engine.Rows.{written}
use vault_os.Db.Engine.Memory.{given}
use vault_os.Db.Engine.Insert.{get_record-insert_record}
use vault_os.Db.Engine.Remove.{freed, get_record-delete_record}
use vault_os.Db.Engine.Update.{get_record-update_encrypted, update_encrypted-loses}
use vault_os.Db.Engine.Create.{Creates, init-IsDatabase, create_table-Creates}
use vault_os.Db.Engine.Errors.{decrypt_with_sound}
use vault_os.Tests.Crypto.{
  processor, processor-Documented, replicate-AllBytes, schedule, schedule-IsSchedule,
}

abbrev schema : Schema
schema = record {
  name = 84 ∷ [];
  table_id = 0;
  columns = [];
  encrypted = true;
  system_table = false;
}

abbrev mac_ctx : HmacContext
mac_ctx = (new_table [] 0 schema).mac_ctx

-- The row 7 stands at the address 100.
abbrev table : Table
table = record {
  schema = schema;
  index = record { root = leaf ((7, some 100) ∷ []); count = 1; table_id = 0 };
  aes_key = schedule;
  mac_ctx = mac_ctx;
}

abbrev row : Row
row = record { row_id = 7; table_id = 0; fields = u64 12 ∷ bool true ∷ [] }

abbrev iv : List ℕ
iv = replicate 16 9

abbrev object : Encrypted
object = seal true processor table 0 7 (row_bytes row) iv

abbrev database : Database
database = record {
  tables = table ∷ [];
  global_row_id = 8;
  master_db_key = [];
  objects = λ a. if a == 100 then some object else none;
  ciphertext_at = λ a. 104;
  allocated = 100 ∷ 104 ∷ [];
}

tree : IsTree 0 table.index
unfolding Shape flat
tree = record { shape = (refl, omega arith); sorted = (tt, tt) }

row-Fits : Fits row
row-Fits = record {
  row_id = omega arith;
  table_id = omega arith;
  columns = omega arith;
  fields = (omega arith, (tt, tt));
}

row-size : (0 < length (row_bytes row)) × (length (row_bytes row) ≤ max_record_size)
unfolding header fields_bytes value_bytes le_bytes
row-size = (omega arith, omega arith)

found_only : (j : ℕ) → search table.index j ≡ (if 7 == j then some 100 else none)
found_only j = search-lookup 0 j table.index tree ∙ unfold flat lookup in refl

search-7 : search table.index 7 ≡ some 100
search-7 = found_only 7

only : (j a : ℕ) → search table.index j ≡ some a → (7 ≡ j) × (100 ≡ a)
only j a leads = elim (Bool-cases (7 == j)) [
  | inl same ↦
      let e : search table.index j ≡ some 100 =
        found_only j ∙ ap (λ c. if c then some 100 else none) same in
      (==→eq 7 j same, cc)
  | inr other ↦
      let e : search table.index j ≡ none =
        found_only j ∙ ap (λ c. if c then some 100 else none) other in
      absurd cc
]

index-IsApart : IsApart 7 table.index
index-IsApart j e = let leads = only j 7 e in absurd (omega (arith, leads.1))

table-Owns : Owns database.objects 0 table.index
unfolding seal
table-Owns j a leads =
    let (key, address) = only j a leads in
    (object, ap (λ b. if b == 100 then some object else none) (sym address), refl, key)

table-IsTable : IsTable database.objects 0 table
table-IsTable = record { height = 0; tree = tree; key = schedule-IsSchedule; owns = table-Owns }

database-IsDatabase : IsDatabase database
database-IsDatabase zero tb h =
    let same : table ≡ tb = cc in subst (IsTable database.objects 0) same table-IsTable
database-IsDatabase (suc t) tb h = absurd cc

iv-AllBytes : AllBytes iv
iv-AllBytes = replicate-AllBytes 16 9 (omega arith)

create_table-Creates_example : Creates (init []) schema (create_table (init []) schema)
create_table-Creates_example = create_table-Creates (init []) schema (init-IsDatabase [])

get_record-insert_record_example :
    (db' : Database) × (insert_record true processor 1 database 0 row (given 200 204 208 iv)
      ≡ some (ErrorCode.ok, db'))
    × IsDatabase db'
    × (get_record true processor true db' 0 7 ≡ some row)
    × ((memory : Bool) (u j : ℕ)
        → (0 ≢ u) ⊎ (7 ≢ j)
        → get_record true processor memory db' u j ≡ get_record true processor memory database u j)
get_record-insert_record_example =
    get_record-insert_record true processor processor-Documented database 1 0 0 200 204 208 table
      row iv database-IsDatabase refl tree (omega arith) index-IsApart refl iv-AllBytes row-Fits
      (tt, (tt, tt)) row-size.1

get_record-delete_record_example :
    let db' =
      written
        (freed database 100)
        0
        (delete table.index 7).1
        (set_object database.objects 100 none) in
    (delete_record database 0 7 ≡ (ErrorCode.ok, db'))
    × IsDatabase db'
    × ((memory : Bool) → get_record true processor memory db' 0 7 ≡ none)
    × ((memory : Bool) (u j : ℕ)
        → (0 ≢ u) ⊎ (7 ≢ j)
        → get_record true processor memory db' u j ≡ get_record true processor memory database u j)
get_record-delete_record_example =
    get_record-delete_record true processor database 0 7 100 table database-IsDatabase refl search-7

get_record-update_encrypted_example :
    (db' : Database) × (update_encrypted true processor 1 database 0 7 row (given 200 204 208 iv)
      ≡ some (ErrorCode.ok, db'))
    × IsDatabase db'
    × (get_record true processor true db' 0 7 ≡ some row)
    × ((memory : Bool) (u j : ℕ)
        → (0 ≢ u) ⊎ (7 ≢ j)
        → get_record true processor memory db' u j ≡ get_record true processor memory database u j)
get_record-update_encrypted_example =
    get_record-update_encrypted true processor processor-Documented database 1 0 0 7 100 200 204 208
      table row iv database-IsDatabase refl search-7 tree (omega arith) index-IsApart
      (unfold set_object in refl) iv-AllBytes row-Fits (tt, (tt, tt)) row-size.1

abbrev no_memory : Resources
no_memory = record { enc_at = some 200; ciphertext = some 204; mac_input = none; iv = iv }

update_encrypted-loses_example :
    (db' : Database) × (update_encrypted true processor 1 database 0 7 row no_memory
      ≡ some (ErrorCode.nomem, db'))
    × ((memory : Bool) → get_record true processor memory db' 0 7 ≡ none)
    × ((memory : Bool) (u j : ℕ)
        → (0 ≢ u) ⊎ (7 ≢ j)
        → get_record true processor memory db' u j ≡ get_record true processor memory database u j)
update_encrypted-loses_example =
    update_encrypted-loses true processor database 1 0 7 100 200 table row no_memory
      database-IsDatabase refl search-7 row-size.1 refl (inr refl)

opens : decrypt_with true processor true table object ≡ some row
opens =
    decrypt_with-seal true processor processor-Documented table schedule-IsSchedule 0 7 row iv
      iv-AllBytes row-Fits (tt, (tt, tt)) row-size.0 row-size.1

seal-size : length object.mac ≡ 32
unfolding seal
seal-size = (compute-IsDigest mac_ctx (iv ++ object.ciphertext)).0

decrypt_with_sound_example : object.mac ≡ compute table.mac_ctx (object.iv ++ object.ciphertext)
decrypt_with_sound_example = decrypt_with_sound true processor true table object row seal-size opens
