-- ===== src/Db/Query/Select.antt =====
-- kernel/db/query.c and the result sets of kernel/db/database.c: the execution of SELECT. What
-- krealloc answers to a request for more rows is the argument `room`.
use vault_os.Prelude.{
  ℕ, ◌+◌, ◌*◌, ◌%◌, ◌^◌, ◌≤◌, ◌<◌, List, [], ◌∷◌, ◌++◌, Option, none, some, Bool, true,
  if◌then◌else◌, ◌==◌, leb, length, ◌≡◌, map,
}
use vault_os.Crypto.Aes.{Hardware}
use vault_os.Db.Btree.Delete.{scan}
use vault_os.Db.Record.{Row}
use vault_os.Db.Engine.{Schema, Table, Database, decrypt_record}
use vault_os.Db.Query.Where.{Condition, holds_at, find_column_index, record_matches}

-- The rows of a `query_result_t`, and how many there is memory for.
pub record Results : Type 0 where
  pub rows : List Row
  pub row_capacity : ℕ

-- `db_result_create`, where its memory is given.
unfoldable pub result_create : ℕ → Results
result_create capacity = record { rows = []; row_capacity = capacity }

-- `db_result_add_row`
unfoldable pub add_row : (ℕ → Bool) → Results → Row → Results
add_row room r row =
    let new_cap = if r.row_capacity == 0 then 16 else r.row_capacity * 2 % 2 ^ 32 in
    if leb r.row_capacity (length r.rows)
    then if room new_cap then record { rows = r.rows ++ row ∷ []; row_capacity = new_cap } else r
    else record r { rows = r.rows ++ row ∷ [] }

module _ (aesni : Bool) (hw : Hardware) (memory : Bool) (room : ℕ → Bool) where
  -- `select_scan_callback` on what `db_decrypt_record` has returned.
  unfoldable pub add_matching : Schema → List Condition → Results → Option Row → Results
  add_matching schema conds r none = r
  add_matching schema conds r (some rec) =
      if record_matches rec schema conds then add_row room r rec else r

  -- `btree_scan` with that callback, over the entries that it visits.
  unfoldable pub select_entries :
      Database → Schema → List Condition → List (ℕ × ℕ) → Results → Results
  select_entries db schema conds [] r = r
  select_entries db schema conds ((key, address) ∷ es) r = select_entries db schema conds es (
      add_matching schema conds r
        (decrypt_record aesni hw memory db schema.table_id (db.objects address)))

  -- The end of `exec_select`. A table stands at the place of its id, so that `db_get_index` gives
  -- its own index.
  unfoldable pub select_rows : Database → Table → List Condition → Results
  select_rows db tb conds = select_entries db tb.schema conds (scan tb.index) (result_create 16)

-- Every condition is on a column of the table and holds of the record's field there.
abbrev pub Satisfies : Row → Schema → List Condition → Type 0
Satisfies rec schema [] = Unit
Satisfies rec schema (c ∷ cs) =
    (holds_at rec c (find_column_index schema c.column) ≡ true) × Satisfies rec schema cs

-- From what the objects decrypt to, exactly the records that satisfy all conditions, in order.
pub data Selects (schema : Schema) (conds : List Condition)
    : List (Option Row) → List Row → Type 0 where
  done : Selects schema conds [] []
  lost :
      (os : List (Option Row)) (rows : List Row)
      → Selects schema conds os rows
      → Selects schema conds (none ∷ os) rows
  pick :
      (rec : Row) (os : List (Option Row)) (rows : List Row)
      → Satisfies rec schema conds
      → Selects schema conds os rows
      → Selects schema conds (some rec ∷ os) (rec ∷ rows)
  drop :
      (rec : Row) (os : List (Option Row)) (rows : List Row)
      → ¬ Satisfies rec schema conds
      → Selects schema conds os rows
      → Selects schema conds (some rec ∷ os) rows

-- The rows have room in the memory that they have, and more entries to come can still be counted.
abbrev Room : ℕ → Results → Type 0
Room more r = (length r.rows ≤ r.row_capacity) × (length r.rows + more < 2 ^ 31)

-- The objects behind the entries, decrypted.
pub decrypted : Bool → Hardware → Bool → Database → Schema → List (ℕ × ℕ) → List (Option Row)
decrypted aesni hw memory db schema es =
    map (λ e. decrypt_record aesni hw memory db schema.table_id (db.objects e.1)) es

-- The rows behind those of `r` are the ones selected, and all have room.
abbrev Selected : Schema → List Condition → List (Option Row) → Results → Results → Type 0
Selected schema conds os r r' =
    (rows : List Row) × (r'.rows ≡ r.rows ++ rows)
    × Selects schema conds os rows
    × (length r'.rows ≤ r'.row_capacity)
