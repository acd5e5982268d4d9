-- ===== src/Db/Engine/System.antt =====
-- kernel/db/database.c: the tables and rows that `db_init_system_tables` makes
-- at boot, and the record of `db_audit_log`.
use vault_os.Prelude.{
  ℕ, ◌-◌, ◌≡◌, refl, arith, List, [], ◌∷◌, ◌++◌, Option, none, some, Bool, true, false, length,
  take, replicate, length-append, length-replicate, length-take,
}
use vault_os.ErrorCode.{ErrorCode}
use vault_os.Crypto.Aes.{Hardware}
use vault_os.Db.Record.{u64, str, Row, max_str_len}
use vault_os.Db.Engine.{
  Column, ColumnType, Schema, Database, Resources, create_table, insert_record, next_row_id, init,
}
use vault_os.Prelude.Bytes.{length-le_bytes}
use vault_os.Db.Record.{header}
use vault_os.Db.Record.Codec.{row_bytes, fields_bytes, value_bytes}
use vault_os.Db.Engine.Fields.{set_u64, set_str}
use vault_os.Db.Engine.Tables.{IsDatabase}
use vault_os.Db.Engine.Create.{create_table-IsDatabase, init-IsDatabase}

unfoldable pub column : List ℕ → ColumnType → Bool → Bool → Column
column name column_type primary_key not_null = record {
  name = name;
  column_type = column_type;
  primary_key = primary_key;
  not_null = not_null;
  indexed = false;
}

-- SystemTable
unfoldable pub system_table : Schema
system_table = record {
  name = (83 ∷ 121 ∷ 115 ∷ 116 ∷ 101 ∷ 109 ∷ 84 ∷ 97 ∷ 98 ∷ 108 ∷ 101 ∷ []);
  table_id = 0;
  columns =
      column (105 ∷ 100 ∷ []) ColumnType.col_u64 true false
      ∷ column (107 ∷ 101 ∷ 121 ∷ []) ColumnType.col_str false true
      ∷ column (118 ∷ 97 ∷ 108 ∷ 117 ∷ 101 ∷ []) ColumnType.col_str false false
      ∷ column (99 ∷ 114 ∷ 101 ∷ 97 ∷ 116 ∷ 101 ∷ 100 ∷ []) ColumnType.col_u64 false false
      ∷ [];
  encrypted = true;
  system_table = true;
}

-- ProcessTable
unfoldable pub process_table : Schema
process_table = record {
  name = (80 ∷ 114 ∷ 111 ∷ 99 ∷ 101 ∷ 115 ∷ 115 ∷ 84 ∷ 97 ∷ 98 ∷ 108 ∷ 101 ∷ []);
  table_id = 0;
  columns =
      column (112 ∷ 105 ∷ 100 ∷ []) ColumnType.col_u64 true false
      ∷ column (110 ∷ 97 ∷ 109 ∷ 101 ∷ []) ColumnType.col_str false false
      ∷ column (115 ∷ 116 ∷ 97 ∷ 116 ∷ 101 ∷ []) ColumnType.col_str false false
      ∷ column (112 ∷ 114 ∷ 105 ∷ 111 ∷ 114 ∷ 105 ∷ 116 ∷ 121 ∷ []) ColumnType.col_u32 false false
      ∷ column (99 ∷ 97 ∷ 112 ∷ 95 ∷ 114 ∷ 111 ∷ 111 ∷ 116 ∷ []) ColumnType.col_u64 false false
      ∷ column (99 ∷ 114 ∷ 101 ∷ 97 ∷ 116 ∷ 101 ∷ 100 ∷ []) ColumnType.col_u64 false false
      ∷ [];
  encrypted = true;
  system_table = true;
}

-- CapabilityTable
unfoldable pub capability_table : Schema
capability_table = record {
  name = (67 ∷ 97 ∷ 112 ∷ 97 ∷ 98 ∷ 105 ∷ 108 ∷ 105 ∷ 116 ∷ 121 ∷ 84 ∷ 97 ∷ 98 ∷ 108 ∷ 101 ∷ []);
  table_id = 0;
  columns =
      column (99 ∷ 97 ∷ 112 ∷ 95 ∷ 105 ∷ 100 ∷ []) ColumnType.col_u64 true false
      ∷ column (111 ∷ 98 ∷ 106 ∷ 101 ∷ 99 ∷ 116 ∷ 95 ∷ 105 ∷ 100 ∷ []) ColumnType.col_u64 false
          false
      ∷ column (111 ∷ 119 ∷ 110 ∷ 101 ∷ 114 ∷ 95 ∷ 112 ∷ 105 ∷ 100 ∷ []) ColumnType.col_u64 false
          false
      ∷ column (114 ∷ 105 ∷ 103 ∷ 104 ∷ 116 ∷ 115 ∷ []) ColumnType.col_u32 false false
      ∷ column (112 ∷ 97 ∷ 114 ∷ 101 ∷ 110 ∷ 116 ∷ 95 ∷ 105 ∷ 100 ∷ []) ColumnType.col_u64 false
          false
      ∷ column (114 ∷ 101 ∷ 118 ∷ 111 ∷ 107 ∷ 101 ∷ 100 ∷ []) ColumnType.col_bool false false
      ∷ column (99 ∷ 114 ∷ 101 ∷ 97 ∷ 116 ∷ 101 ∷ 100 ∷ []) ColumnType.col_u64 false false
      ∷ [];
  encrypted = true;
  system_table = true;
}

-- ObjectTable
unfoldable pub object_table : Schema
object_table = record {
  name = (79 ∷ 98 ∷ 106 ∷ 101 ∷ 99 ∷ 116 ∷ 84 ∷ 97 ∷ 98 ∷ 108 ∷ 101 ∷ []);
  table_id = 0;
  columns =
      column (111 ∷ 98 ∷ 106 ∷ 95 ∷ 105 ∷ 100 ∷ []) ColumnType.col_u64 true false
      ∷ column (110 ∷ 97 ∷ 109 ∷ 101 ∷ []) ColumnType.col_str false true
      ∷ column (116 ∷ 121 ∷ 112 ∷ 101 ∷ []) ColumnType.col_str false false
      ∷ column (100 ∷ 97 ∷ 116 ∷ 97 ∷ []) ColumnType.col_str false false
      ∷ column (111 ∷ 119 ∷ 110 ∷ 101 ∷ 114 ∷ 95 ∷ 112 ∷ 105 ∷ 100 ∷ []) ColumnType.col_u64 false
          false
      ∷ column (115 ∷ 105 ∷ 122 ∷ 101 ∷ []) ColumnType.col_u64 false false
      ∷ column (99 ∷ 114 ∷ 101 ∷ 97 ∷ 116 ∷ 101 ∷ 100 ∷ []) ColumnType.col_u64 false false
      ∷ [];
  encrypted = true;
  system_table = false;
}

-- MessageTable
unfoldable pub message_table : Schema
message_table = record {
  name = (77 ∷ 101 ∷ 115 ∷ 115 ∷ 97 ∷ 103 ∷ 101 ∷ 84 ∷ 97 ∷ 98 ∷ 108 ∷ 101 ∷ []);
  table_id = 0;
  columns =
      column (109 ∷ 115 ∷ 103 ∷ 95 ∷ 105 ∷ 100 ∷ []) ColumnType.col_u64 true false
      ∷ column (115 ∷ 114 ∷ 99 ∷ 95 ∷ 112 ∷ 105 ∷ 100 ∷ []) ColumnType.col_u64 false false
      ∷ column (100 ∷ 115 ∷ 116 ∷ 95 ∷ 112 ∷ 105 ∷ 100 ∷ []) ColumnType.col_u64 false false
      ∷ column (116 ∷ 121 ∷ 112 ∷ 101 ∷ []) ColumnType.col_str false false
      ∷ column (112 ∷ 97 ∷ 121 ∷ 108 ∷ 111 ∷ 97 ∷ 100 ∷ []) ColumnType.col_str false false
      ∷ column (100 ∷ 101 ∷ 108 ∷ 105 ∷ 118 ∷ 101 ∷ 114 ∷ 101 ∷ 100 ∷ []) ColumnType.col_bool false
          false
      ∷ [];
  encrypted = true;
  system_table = true;
}

-- AuditTable
unfoldable pub audit_table : Schema
audit_table = record {
  name = (65 ∷ 117 ∷ 100 ∷ 105 ∷ 116 ∷ 84 ∷ 97 ∷ 98 ∷ 108 ∷ 101 ∷ []);
  table_id = 0;
  columns =
      column (97 ∷ 117 ∷ 100 ∷ 105 ∷ 116 ∷ 95 ∷ 105 ∷ 100 ∷ []) ColumnType.col_u64 true false
      ∷ column (116 ∷ 105 ∷ 109 ∷ 101 ∷ 115 ∷ 116 ∷ 97 ∷ 109 ∷ 112 ∷ []) ColumnType.col_u64 false
          false
      ∷ column (112 ∷ 105 ∷ 100 ∷ []) ColumnType.col_u64 false false
      ∷ column (97 ∷ 99 ∷ 116 ∷ 105 ∷ 111 ∷ 110 ∷ []) ColumnType.col_str false false
      ∷ column (116 ∷ 97 ∷ 114 ∷ 103 ∷ 101 ∷ 116 ∷ 95 ∷ 105 ∷ 100 ∷ []) ColumnType.col_u64 false
          false
      ∷ column (114 ∷ 101 ∷ 115 ∷ 117 ∷ 108 ∷ 116 ∷ []) ColumnType.col_str false false
      ∷ [];
  encrypted = true;
  system_table = true;
}

-- The calls of `db_create_table`, in order; its results are not looked at.
unfoldable pub create_tables : Database → List Schema → Database
create_tables db [] = db
create_tables db (schema ∷ schemas) = create_tables (create_table db schema).1 schemas

unfoldable pub system_schemas : List Schema
system_schemas =
    system_table ∷ process_table ∷ capability_table ∷ object_table ∷ message_table ∷ audit_table
    ∷ []

-- A row of the boot metadata, under the row id that `db_next_row_id` gives.
unfoldable pub metadata_row : ℕ → List ℕ → List ℕ → Row
metadata_row row_id key value =
    let cleared : Row = record { row_id = row_id; table_id = 0; fields = [] } in
    set_u64 (set_str (set_str (set_u64 cleared 0 row_id) 1 key) 2 value) 3 0

unfoldable pub metadata : List (List ℕ × List ℕ)
metadata =
    ((111 ∷ 115 ∷ 46 ∷ 110 ∷ 97 ∷ 109 ∷ 101 ∷ []), (86 ∷ 97 ∷ 117 ∷ 108 ∷ 116 ∷ 79 ∷ 83 ∷ []))
    ∷ (
      (111 ∷ 115 ∷ 46 ∷ 118 ∷ 101 ∷ 114 ∷ 115 ∷ 105 ∷ 111 ∷ 110 ∷ []),
      (48 ∷ 46 ∷ 49 ∷ 46 ∷ 48 ∷ []),
    )
    ∷ (
      (111 ∷ 115 ∷ 46 ∷ 112 ∷ 104 ∷ 105 ∷ 108 ∷ 111 ∷ 115 ∷ 111 ∷ 112 ∷ 104 ∷ 121 ∷ []),
      (69 ∷ 118 ∷ 101 ∷ 114 ∷ 121 ∷ 116 ∷ 104 ∷ 105 ∷ 110 ∷ 103 ∷ 32 ∷ 105 ∷ 115 ∷ 32 ∷ 97 ∷ 32
          ∷ 100 ∷ 97 ∷ 116 ∷ 97 ∷ 98 ∷ 97 ∷ 115 ∷ 101 ∷ 32 ∷ 97 ∷ 110 ∷ 100 ∷ 32 ∷ 97 ∷ 108 ∷ 108
          ∷ 32 ∷ 100 ∷ 97 ∷ 116 ∷ 97 ∷ 32 ∷ 105 ∷ 115 ∷ 32 ∷ 99 ∷ 111 ∷ 110 ∷ 102 ∷ 105 ∷ 100 ∷ 101
          ∷ 110 ∷ 116 ∷ 105 ∷ 97 ∷ 108 ∷ []),
    )
    ∷ []

module _ (aesni : Bool) (hw : Hardware) (depth : ℕ) where
  -- The insertions, each with what the heap answers to it; their results are not looked at.
  unfoldable pub insert_metadata :
      Database → List (List ℕ × List ℕ) → List Resources → Option Database
  insert_metadata db [] rs = some db
  insert_metadata db (row ∷ rows) [] = none
  insert_metadata db (row ∷ rows) (r ∷ rs) =
      let next = next_row_id db in
      elim (insert_record aesni hw depth next.1 0 (metadata_row next.0 row.0 row.1) r) [
        | none ↦ none
        | some (err, db') ↦ insert_metadata db' rows rs
      ]

  -- `db_init_system_tables`
  unfoldable pub init_system_tables : Database → List Resources → Option Database
  init_system_tables db rs = insert_metadata (create_tables db system_schemas) metadata rs

-- `memset` and `memcpy` of `db_audit_log`: a text cut or filled up with zeros to 255 characters.
unfoldable pub padded_text : List ℕ → List ℕ
padded_text text = take max_str_len text ++ replicate (max_str_len - length text) 0

-- The record of `db_audit_log`.
unfoldable pub audit_row : ℕ → ℕ → ℕ → List ℕ → ℕ → List ℕ → Row
audit_row row_id ticks pid action target_id result = record {
  row_id = row_id;
  table_id = 5;
  fields =
      u64 row_id
      ∷ u64 ticks
      ∷ u64 pid
      ∷ str (padded_text action)
      ∷ u64 target_id
      ∷ str (padded_text result)
      ∷ [];
}

module _ (aesni : Bool) (hw : Hardware) (depth : ℕ) where
  -- `db_audit_log`; the result of the insertion is not looked at.
  unfoldable pub audit_log :
      Database → ℕ → ℕ → List ℕ → ℕ → List ℕ → Resources → Option (ErrorCode × Database)
  audit_log db ticks pid action target_id result res =
      let next = next_row_id db in
      insert_record aesni hw depth next.1 5 (audit_row next.0 ticks pid action target_id result) res

-- The tables of the system satisfy the invariant, and there are six of them.
create_tables-IsDatabase :
    (schemas : List Schema) (db : Database) → IsDatabase db → IsDatabase (create_tables db schemas)
unfolding create_tables
create_tables-IsDatabase [] db h = h
create_tables-IsDatabase (schema ∷ schemas) db h =
    create_tables-IsDatabase schemas (create_table db schema).1
      (create_table-IsDatabase db schema h)

pub system_tables-IsDatabase :
    (random : List ℕ) → IsDatabase (create_tables (init random) system_schemas)
system_tables-IsDatabase random =
    create_tables-IsDatabase system_schemas (init random) (init-IsDatabase random)

pub length-padded_text : (text : List ℕ) → length (padded_text text) ≡ max_str_len
unfolding padded_text
length-padded_text text = omega (
  arith,
  length-append (take max_str_len text) (replicate (max_str_len - length text) 0),
  length-take max_str_len text,
  length-replicate {A = ℕ} (max_str_len - length text) 0,
)

-- The record of the audit log has as many bytes whatever the texts are, so its encryption and its
-- seal take as many rounds.
pub length-audit_row :
    (row_id ticks pid target_id : ℕ) (action result : List ℕ)
    → length (row_bytes (audit_row row_id ticks pid action target_id result)) ≡ 586
unfolding audit_row header fields_bytes value_bytes
length-audit_row row_id ticks pid target_id action result =
    simp (length-append, length-le_bytes, length-padded_text) refl
