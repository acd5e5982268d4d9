-- ===== src/Db/Query/Add.antt =====
-- kernel/db/query.c: the statement INSERT. The record's array of fields is a list of all of its 16
-- places, cleared to the number 0, until the count of columns is set.
use vault_os.Prelude.{
  ℕ, zero, suc, ◌-◌, ◌%◌, ◌^◌, List, [], ◌∷◌, Option, none, some, Bool, true, false, ◌||◌,
  if◌then◌else◌, length, get_or, set, take, replicate,
}
use vault_os.ErrorCode.{ErrorCode}
use vault_os.Strings.{strtou64}
use vault_os.Crypto.Aes.{Hardware}
use vault_os.Db.Record.{Field, u64, str, u32, Row, max_columns, max_str_len}
use vault_os.Db.Engine.{Column, ColumnType, Schema, Database, Resources, next_row_id, insert_record}
use vault_os.Db.Engine.System.{audit_log}
use vault_os.Db.Query.{TokenType, Parser, max_column_name, next_token}
use vault_os.Db.Query.Where.{find_column_index, is_ident}
use vault_os.Db.Query.Execute.{get_schema, is_comma}
use vault_os.Db.Query.Change.{max_insert_vals, text_ok}

unfoldable pub is_into : TokenType → Bool
is_into TokenType.tok_into = true
is_into t = false

unfoldable pub is_values : TokenType → Bool
is_values TokenType.tok_values = true
is_values t = false

unfoldable pub is_lparen : TokenType → Bool
is_lparen TokenType.tok_lparen = true
is_lparen t = false

unfoldable pub is_rparen : TokenType → Bool
is_rparen TokenType.tok_rparen = true
is_rparen t = false

unfoldable pub is_eof : TokenType → Bool
is_eof TokenType.tok_eof = true
is_eof t = false

-- The texts that `exec_insert` looks for, and that of the audit log.
abbrev pub text_insert : List ℕ
text_insert = 73 ∷ 78 ∷ 83 ∷ 69 ∷ 82 ∷ 84 ∷ []

abbrev pub text_owner_pid : List ℕ
text_owner_pid = 111 ∷ 119 ∷ 110 ∷ 101 ∷ 114 ∷ 95 ∷ 112 ∷ 105 ∷ 100 ∷ []

abbrev pub text_created : List ℕ
text_created = 99 ∷ 114 ∷ 101 ∷ 97 ∷ 116 ∷ 101 ∷ 100 ∷ []

abbrev pub text_size : List ℕ
text_size = 115 ∷ 105 ∷ 122 ∷ 101 ∷ []

abbrev pub text_data : List ℕ
text_data = 100 ∷ 97 ∷ 116 ∷ 97 ∷ []

-- The loop over the names of columns, for at most `n` more.
unfoldable pub parse_columns : ℕ → Parser → List (List ℕ) × Parser
parse_columns zero p = ([], p)
parse_columns (suc n) p =
    let name = take (max_column_name - 1) p.value in
    let p' = next_token p in
    let rest = parse_columns n (next_token p') in
    if is_ident p.token_type
    then if is_comma p'.token_type then (name ∷ rest.0, rest.1) else (name ∷ [], p')
    else ([], p)

-- The value that a token gives to a column: a text, or a number by the column's type.
unfoldable pub number_for : ColumnType → List ℕ → Field
number_for ColumnType.col_u64 text = u64 (strtou64 text 10).0
number_for ColumnType.col_u32 text = u32 ((strtou64 text 10).0 % 2 ^ 32)
number_for ColumnType.col_i64 text = str (take max_str_len text)
number_for ColumnType.col_str text = str (take max_str_len text)
number_for ColumnType.col_blob text = str (take max_str_len text)
number_for ColumnType.col_bool text = str (take max_str_len text)
number_for ColumnType.col_u8 text = str (take max_str_len text)

unfoldable pub inserted_value : ColumnType → TokenType → List ℕ → Option Field
inserted_value column_type TokenType.tok_string text = some (str (take max_str_len text))
inserted_value column_type TokenType.tok_number text = some (number_for column_type text)
inserted_value column_type t text = none

unfoldable pub type_at : List Column → ℕ → ColumnType
type_at [] i = ColumnType.col_u64
type_at (c ∷ cs) zero = c.column_type
type_at (c ∷ cs) (suc i) = type_at cs i

-- One round of the loop over the values; `none` is the error of an unknown column.
unfoldable pub with_inserted :
    (Parser → List Field → Option (List Field))
    → ℕ
    → Option Field
    → Parser
    → List Field
    → Option (List Field)
with_inserted recurse ci none p fields = some fields
with_inserted recurse ci (some v) p fields =
    let p' = next_token p in
    let more = recurse (next_token p') (set fields ci v) in
    if is_comma p'.token_type then more else some (set fields ci v)

unfoldable pub insert_value :
    Schema
    → (Parser → List Field → Option (List Field))
    → Option ℕ
    → Parser
    → List Field
    → Option (List Field)
insert_value schema recurse none p fields = none
insert_value schema recurse (some ci) p fields =
    with_inserted recurse ci (inserted_value (type_at schema.columns ci) p.token_type p.value) p
      fields

unfoldable pub insert_values : Schema → List (List ℕ) → Parser → List Field → Option (List Field)
insert_values schema [] p fields = some fields
insert_values schema (name ∷ names) p fields =
    let round =
      insert_value schema (λ q fs. insert_values schema names q fs) (find_column_index schema name)
        p fields in
    if is_rparen p.token_type || is_eof p.token_type then some fields else round

-- A number written where a column of that name is.
unfoldable pub set_if : Option ℕ → ℕ → List Field → List Field
set_if none n fields = fields
set_if (some i) n fields = set fields i (u64 n)

-- `str_val.length` of a field; a record that was cleared has 0 there behind any other value.
unfoldable pub str_length : Field → ℕ
str_length (str s) = length s
str_length f = 0

unfoldable pub set_size : Option ℕ → Option ℕ → List Field → List Field
set_size (some i) (some d) fields = set fields i (u64 (str_length (get_or fields d (u64 0))))
set_size (some i) none fields = fields
set_size none d fields = fields

-- The primary key, where the first column is one.
unfoldable pub set_key : List Column → ℕ → List Field → List Field
set_key [] row_id fields = fields
set_key (c ∷ cs) row_id fields = if c.primary_key then set fields 0 (u64 row_id) else fields

-- The fields that the kernel fills in behind those of the statement, and the count.
unfoldable pub complete : Schema → ℕ → ℕ → List Field → List Field
complete schema pid ticks fields =
    let owned = set_if (find_column_index schema text_owner_pid) pid fields in
    let dated = set_if (find_column_index schema text_created) ticks owned in
    take (length schema.columns)
      (set_size (find_column_index schema text_size) (find_column_index schema text_data) dated)

module _ (aesni : Bool) (hw : Hardware) (depth ticks pid : ℕ) where
  -- The entry of the audit log behind an insertion that has succeeded.
  unfoldable pub log_insert :
      ℕ → Resources → Option (ErrorCode × Database) → Option (ErrorCode × Database)
  log_insert row_id r none = none
  log_insert row_id r (some (ErrorCode.ok, db)) =
      elim (audit_log aesni hw depth db ticks pid text_insert row_id text_ok r) [
        | none ↦ none
        | some (err, db') ↦ some (ErrorCode.ok, db')
      ]
  log_insert row_id r (some (err, db)) = some (err, db)

  -- `exec_insert` from the values on: a row id is drawn, the record filled and inserted.
  unfoldable pub insert_fields :
      Database
      → ℕ
      → Schema
      → Option (List Field)
      → Resources
      → Resources
      → Option (ErrorCode × Database)
  insert_fields db row_id schema none r r' = some (ErrorCode.inval, db)
  insert_fields db row_id schema (some fields) r r' =
      let rec : Row = record {
        row_id = row_id;
        table_id = schema.table_id;
        fields = complete schema pid ticks fields;
      } in
      log_insert row_id r' (insert_record aesni hw depth db schema.table_id rec r)

  unfoldable pub insert_row :
      Database
      → Schema
      → List (List ℕ)
      → Parser
      → Resources
      → Resources
      → Option (ErrorCode × Database)
  insert_row db schema names p r r' =
      let next = next_row_id db in
      let cleared = set_key schema.columns next.0 (replicate max_columns (u64 0)) in
      insert_fields next.1 next.0 schema (insert_values schema names p cleared) r r'

  -- What `exec_insert` expects around the names: `(` before them, `) VALUES (` behind them.
  unfoldable pub after_names :
      Database
      → Schema
      → List (List ℕ) × Parser
      → Resources
      → Resources
      → Option (ErrorCode × Database)
  after_names db schema (names, p) r r' =
      let p1 = next_token p in
      let p2 = next_token p1 in
      if is_rparen p.token_type
      then if is_values p1.token_type
        then if is_lparen p2.token_type
          then insert_row db schema names (next_token p2) r r'
          else some (ErrorCode.syntax, db)
        else some (ErrorCode.syntax, db)
      else some (ErrorCode.syntax, db)

  unfoldable pub insert_in :
      Database → Schema → Parser → Resources → Resources → Option (ErrorCode × Database)
  insert_in db schema p r r' =
      if is_lparen p.token_type
      then after_names db schema (parse_columns max_insert_vals (next_token p)) r r'
      else some (ErrorCode.syntax, db)

  -- `exec_insert` behind INTO, and the whole of it.
  unfoldable pub insert_named :
      Database → Parser → Resources → Resources → Option (ErrorCode × Database)
  insert_named db p r r' =
      if is_ident p.token_type
      then (elim (get_schema db.tables p.value) [
        | none ↦ some (ErrorCode.notfound, db)
        | some tb ↦ insert_in db tb.schema (next_token p) r r'
      ])
      else some (ErrorCode.syntax, db)

  unfoldable pub exec_insert :
      Database → Parser → Resources → Resources → Option (ErrorCode × Database)
  exec_insert db p r r' =
      if is_into p.token_type
      then insert_named db (next_token p) r r'
      else some (ErrorCode.syntax, db)
