-- ===== src/Db/Query/Change.antt =====
-- kernel/db/query.c: the statements DELETE and UPDATE. Each insertion of a row, those of the
-- audit log included, takes one of the given answers of the heap and the source of random bytes;
-- `none` is the result where they, or the fuel of an insertion into an index, are used up.
use vault_os.Prelude.{
  ℕ, zero, suc, ◌-◌, List, [], ◌∷◌, Option, none, some, Bool, true, false, if◌then◌else◌, set, take,
}
use vault_os.ErrorCode.{ErrorCode}
use vault_os.Crypto.Aes.{Hardware}
use vault_os.Db.Record.{Field, Row}
use vault_os.Db.Engine.{Schema, Table, Database, Resources, delete_record, update_encrypted}
use vault_os.Db.Engine.System.{audit_log}
use vault_os.Db.Query.{TokenType, Parser, max_column_name, next_token}
use vault_os.Db.Query.Where.{Condition, find_column_index, parse_where, value_of, is_ident}
use vault_os.Db.Query.Select.{select_rows}
use vault_os.Db.Query.Execute.{get_schema, is_comma, is_from}

-- `MAX_INSERT_VALS`
abbrev pub max_insert_vals : ℕ
max_insert_vals = 16

unfoldable pub is_eq : TokenType → Bool
is_eq TokenType.tok_eq = true
is_eq t = false

unfoldable pub is_set : TokenType → Bool
is_set TokenType.tok_set = true
is_set t = false

-- The texts of the audit log: DELETE, UPDATE, OK.
abbrev pub text_delete : List ℕ
text_delete = 68 ∷ 69 ∷ 76 ∷ 69 ∷ 84 ∷ 69 ∷ []

abbrev pub text_update : List ℕ
text_update = 85 ∷ 80 ∷ 68 ∷ 65 ∷ 84 ∷ 69 ∷ []

abbrev pub text_ok : List ℕ
text_ok = 79 ∷ 75 ∷ []

-- An assignment of UPDATE: the end of its round, behind the sign, and the loop.
unfoldable pub with_assigned :
    (Parser → List (List ℕ × Field) × Parser) → List ℕ → Parser → List (List ℕ × Field) × Parser
with_assigned recurse column p = elim (value_of p.token_type p.value) [
  | none ↦ ([], p)
  | some v ↦
      let p' = next_token p in
      let more = recurse (next_token p') in
      if is_comma p'.token_type then ((column, v) ∷ more.0, more.1) else ((column, v) ∷ [], p')
]

unfoldable pub parse_sets : ℕ → Parser → List (List ℕ × Field) × Parser
parse_sets zero p = ([], p)
parse_sets (suc n) p =
    let p' = next_token p in
    let round =
      with_assigned (λ q. parse_sets n q) (take (max_column_name - 1) p.value) (next_token p') in
    if is_ident p.token_type then if is_eq p'.token_type then round else ([], p') else ([], p)

-- The loop over the assignments, on the fields of one row; a column that is not there is passed over.
unfoldable pub assign : Option ℕ → Field → List Field → List Field
assign none v fields = fields
assign (some ci) v fields = set fields ci v

unfoldable pub apply_sets : Schema → List (List ℕ × Field) → List Field → List Field
apply_sets schema [] fields = fields
apply_sets schema ((column, v) ∷ sets) fields =
    apply_sets schema sets (assign (find_column_index schema column) v fields)

module _ (aesni : Bool) (hw : Hardware) (memory : Bool) (room : ℕ → Bool)
    (depth ticks pid : ℕ) where
  -- The loop of `exec_delete` over the rows that match.
  unfoldable pub delete_rows : Database → ℕ → List Row → List Resources → Option Database
  delete_rows db t [] rs = some db
  delete_rows db t (row ∷ rows) [] = none
  delete_rows db t (row ∷ rows) (r ∷ rs) =
      elim (audit_log aesni hw depth (delete_record db t row.row_id).1 ticks pid text_delete
        row.row_id text_ok r) [ none ↦ none | some (err, db') ↦ delete_rows db' t rows rs ]

  unfoldable pub delete_matching :
      Database → Table → List Condition → List Resources → Option (ErrorCode × Database)
  delete_matching db tb conds rs =
      elim (delete_rows db tb.schema.table_id (select_rows aesni hw memory room db tb conds).rows
        rs) [ none ↦ none | some db' ↦ some (ErrorCode.ok, db') ]

  -- `exec_delete` behind FROM, and the whole of it.
  unfoldable pub delete_in : Database → Parser → List Resources → Option (ErrorCode × Database)
  delete_in db p rs =
      if is_ident p.token_type
      then (elim (get_schema db.tables p.value) [
        | none ↦ some (ErrorCode.notfound, db)
        | some tb ↦ delete_matching db tb (parse_where (next_token p)).0 rs
      ])
      else some (ErrorCode.syntax, db)

  unfoldable pub exec_delete : Database → Parser → List Resources → Option (ErrorCode × Database)
  exec_delete db p rs =
      if is_from p.token_type then delete_in db (next_token p) rs else some (ErrorCode.syntax, db)

  -- The loop of `exec_update` over the rows that match, and its entry of the audit log.
  unfoldable pub update_rows :
      Database
      → Schema
      → List (List ℕ × Field)
      → List Row
      → List Resources
      → Option (Database × List Resources)
  update_rows db schema sets [] rs = some (db, rs)
  update_rows db schema sets (row ∷ rows) [] = none
  update_rows db schema sets (row ∷ rows) (r ∷ rs) =
      elim (update_encrypted aesni hw depth db schema.table_id row.row_id
        (record row { fields = apply_sets schema sets row.fields }) r) [
          | none ↦ none
          | some (err, db') ↦ update_rows db' schema sets rows rs
        ]

  unfoldable pub log_update : Option (Database × List Resources) → Option (ErrorCode × Database)
  log_update none = none
  log_update (some (db, [])) = none
  log_update (some (db, r ∷ rs)) =
      elim (audit_log aesni hw depth db ticks pid text_update 0 text_ok r) [
        | none ↦ none
        | some (err, db') ↦ some (ErrorCode.ok, db')
      ]

  unfoldable pub update_matching :
      Database
      → Table
      → List (List ℕ × Field) × Parser
      → List Resources
      → Option (ErrorCode × Database)
  update_matching db tb (sets, p) rs =
      let rows = (select_rows aesni hw memory room db tb (parse_where p).0).rows in
      log_update (update_rows db tb.schema sets rows rs)

  -- `exec_update` behind the name of the table, and the whole of it.
  unfoldable pub update_in :
      Database → Table → Parser → List Resources → Option (ErrorCode × Database)
  update_in db tb p rs =
      if is_set p.token_type
      then update_matching db tb (parse_sets max_insert_vals (next_token p)) rs
      else some (ErrorCode.syntax, db)

  unfoldable pub exec_update : Database → Parser → List Resources → Option (ErrorCode × Database)
  exec_update db p rs =
      if is_ident p.token_type
      then (elim (get_schema db.tables p.value) [
        | none ↦ some (ErrorCode.notfound, db)
        | some tb ↦ update_in db tb (next_token p) rs
      ])
      else some (ErrorCode.syntax, db)
