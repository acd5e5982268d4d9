-- ===== src/Db/Record/RoundTrip.antt =====
-- `record_deserialize` of kernel/db/record_serde.c reads back what `record_serialize` writes.
use vault_os.Prelude.{
  ℕ, ◌-◌, ◌≤◌, ◌<◌, ◌^◌, List, [], ◌∷◌, ◌++◌, some, true, false, ltb, length, drop, ◌≡◌, refl, ap,
  sym, ◌∙◌, arith, length-append, append_assoc, take-length-append, drop-length-append, le→ltb,
}
use mathlib.Core.Path.{subst}
use vault_os.Prelude.Bytes.{le_bytes, read_le, length-le_bytes, read_le-le_bytes, drop-le_bytes}
use vault_os.Db.Record.{
  Field, u64, i64, str, blob, bool, u32, u8, Row, max_columns, max_str_len, max_blob_len,
  type_number, header, serialize, read_within, with_number, with_bytes, get_value, get_field,
  get_fields, deserialize,
}
use vault_os.Db.Record.Codec.{
  value_bytes, fields_bytes, FieldFits, FieldsFit, Fits, row_bytes, serialize-exact, length-header,
}

read_back :
    (k v : ℕ) (rest : List ℕ) → v < 256 ^ k → read_within k (le_bytes k v ++ rest) ≡ some (v, rest)
unfolding read_within
read_back k v rest h =
    let len = length-append (le_bytes k v) rest in
    let own = length-le_bytes k v in
    rw
      (
        le→ltb (length (le_bytes k v ++ rest)) k (omega arith),
        read_le-le_bytes k v rest h,
        drop-le_bytes k v rest,
      )
      refl

with_bytes-back :
    (limit : ℕ) (f : List ℕ → Field) (s rest : List ℕ)
    → length s ≤ limit
    → with_bytes limit f (some (length s, s ++ rest)) ≡ some (f s, rest)
unfolding with_bytes
with_bytes-back limit f s rest h =
    let len = length-append s rest in
    rw
      (
        le→ltb limit (length s) h,
        le→ltb (length (s ++ rest)) (length s) (omega arith),
        take-length-append s rest,
        drop-length-append s rest,
      )
      refl

get_value-back :
    (f : Field) (rest : List ℕ)
    → FieldFits f
    → get_value (type_number f) (value_bytes f ++ rest) ≡ some (f, rest)
unfolding get_value type_number value_bytes with_number
get_value-back (u64 n) rest h = rw (read_back 8 n rest h) refl
get_value-back (i64 n) rest h = rw (read_back 8 n rest h) refl
get_value-back (u32 n) rest h = rw (read_back 4 n rest h) refl
get_value-back (u8 n) rest h = rw (read_back 1 n rest h) refl
get_value-back (bool true) rest h = rw (read_back 1 1 rest (omega arith)) refl
get_value-back (bool false) rest h = rw (read_back 1 0 rest (omega arith)) refl
get_value-back (str s) rest h =
    rw
      (
        append_assoc (le_bytes 2 (length s)) s rest,
        read_back 2 (length s) (s ++ rest) (omega arith),
      )
      (with_bytes-back max_str_len str s rest h)
get_value-back (blob s) rest h =
    rw
      (
        append_assoc (le_bytes 4 (length s)) s rest,
        read_back 4 (length s) (s ++ rest) (omega arith),
      )
      (with_bytes-back max_blob_len blob s rest h)

type_number-lt : (f : Field) → type_number f < 256 ^ 4
unfolding type_number
type_number-lt (u64 n) = omega arith
type_number-lt (i64 n) = omega arith
type_number-lt (str n) = omega arith
type_number-lt (blob n) = omega arith
type_number-lt (bool n) = omega arith
type_number-lt (u32 n) = omega arith
type_number-lt (u8 n) = omega arith

get_field-back :
    (f : Field) (rest : List ℕ)
    → FieldFits f
    → get_field ((le_bytes 4 (type_number f) ++ value_bytes f) ++ rest) ≡ some (f, rest)
unfolding get_field
get_field-back f rest h =
    rw
      (
        append_assoc (le_bytes 4 (type_number f)) (value_bytes f) rest,
        get_field,
        read_back 4 (type_number f) (value_bytes f ++ rest) (type_number-lt f),
      )
      (get_value-back f rest h)

get_fields-back :
    (fs : List Field) (rest : List ℕ)
    → FieldsFit fs
    → get_fields (length fs) (fields_bytes fs ++ rest) ≡ some (fs, rest)
unfolding get_fields fields_bytes
get_fields-back [] rest h = refl
get_fields-back (f ∷ fs) rest h =
    rw
      (
        append_assoc (le_bytes 4 (type_number f) ++ value_bytes f) (fields_bytes fs) rest,
        get_fields,
        get_field-back f (fields_bytes fs ++ rest) h.0,
        get_fields-back fs rest h.1,
      )
      refl

-- What the reader sees of the header.
Reads : Row → List ℕ → List ℕ → Type 0
Reads rec rest buf =
    (read_le 8 buf ≡ rec.row_id)
    × (read_le 4 (drop 8 buf) ≡ rec.table_id)
    × (read_le 4 (drop 4 (drop 8 buf)) ≡ length rec.fields)
    × (drop 4 (drop 4 (drop 8 buf)) ≡ rest)

header-Reads : (rec : Row) (rest : List ℕ) → Fits rec → Reads rec rest (header rec ++ rest)
unfolding header Reads
header-Reads rec rest v =
    let row = le_bytes 8 rec.row_id in
    let table = le_bytes 4 rec.table_id in
    let count = le_bytes 4 (length rec.fields) in
    let columns = v.columns in
    let flatten =
      append_assoc row (table ++ count) rest ∙ ap (λ r. row ++ r) (append_assoc table count rest) in
    let after_row = drop-le_bytes 8 rec.row_id (table ++ (count ++ rest)) in
    let after_table = ap (drop 4) after_row ∙ drop-le_bytes 4 rec.table_id (count ++ rest) in
    subst (Reads rec rest) (sym flatten) (
      read_le-le_bytes 8 rec.row_id (table ++ (count ++ rest)) v.row_id,
      ap (read_le 4) after_row ∙ read_le-le_bytes 4 rec.table_id (count ++ rest) v.table_id,
      ap (read_le 4) after_table ∙ read_le-le_bytes 4 (length rec.fields) rest (omega arith),
      ap (drop 4) after_table ∙ drop-le_bytes 4 (length rec.fields) rest,
    )

deserialize-back :
    (rec : Row) (extra : List ℕ)
    → Fits rec
    → deserialize (header rec ++ (fields_bytes rec.fields ++ extra))
      ≡ some (rec, length (row_bytes rec))
unfolding deserialize Reads
deserialize-back rec extra v =
    let body = fields_bytes rec.fields in
    let (row, table, count, rest) = header-Reads rec (body ++ extra) v in
    let len = length-header rec in
    let whole = length-append (header rec) (body ++ extra) in
    let inner = length-append body extra in
    let own = length-append (header rec) body in
    let columns = v.columns in
    let room : ltb (length (header rec ++ (body ++ extra))) 16 ≡ false =
      le→ltb (length (header rec ++ (body ++ extra))) 16 (omega arith) in
    let used : length (header rec ++ (body ++ extra)) - length extra ≡ length (header rec ++ body) =
      omega arith in
    rw
      (
        room,
        count,
        rest,
        le→ltb max_columns (length rec.fields) columns,
        get_fields-back rec.fields extra v.fields,
        row,
        table,
        used,
      )
      refl

-- A record whose values fit their types and limits, serialized into a buffer with room for it,
-- comes back from `record_deserialize`, which reads exactly the bytes that were written, whatever
-- bytes follow them in the buffer.
pub deserialize-serialize :
    (rec : Row) (size : ℕ) (extra : List ℕ)
    → Fits rec
    → length (row_bytes rec) ≤ size
    → let (n, bytes) = serialize rec size in deserialize (bytes ++ extra) ≡ some (rec, n)
deserialize-serialize rec size extra v room =
    rw (serialize-exact rec size room, append_assoc (header rec) (fields_bytes rec.fields) extra)
      (deserialize-back rec extra v)
