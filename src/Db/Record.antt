-- ===== src/Db/Record.antt =====
-- kernel/db/record.h and kernel/db/record_serde.c: records, and their bytes.
-- The buffer that `record_serialize` fills is the list of the bytes written so far, so its length is
-- `off`; `record_deserialize` keeps the bytes that it has not read yet.
pub mod Codec
pub mod RoundTrip
use vault_os.Prelude.{
  ℕ, zero, suc, ◌+◌, ◌-◌, ◌≤◌, ◌<◌, ◌^◌, List, [], ◌∷◌, ◌++◌, Option, none, some, Bool, true, false,
  not, ◌||◌, if◌then◌else◌, ◌==◌, ltb, length, take, drop,
}
use vault_os.Prelude.Bytes.{le_bytes, read_le}

-- `field_value_t`: the union under its tag; an int64_t is its bit pattern, and a string or a blob is
-- the bytes below its length.
pub data Field : Type 0 where
  u64 : ℕ → Field
  i64 : ℕ → Field
  str : List ℕ → Field
  blob : List ℕ → Field
  bool : Bool → Field
  u32 : ℕ → Field
  u8 : ℕ → Field

-- `record_t`; the fields below `field_count`.
pub record Row : Type 0 where
  pub row_id : ℕ
  pub table_id : ℕ
  pub fields : List Field

-- `MAX_COLUMNS`, `MAX_STR_LEN`, `MAX_BLOB_LEN`
abbrev pub max_columns : ℕ
max_columns = 16

abbrev pub max_str_len : ℕ
max_str_len = 255

abbrev pub max_blob_len : ℕ
max_blob_len = 2048

-- `column_type_t` as a number.
unfoldable pub type_number : Field → ℕ
type_number (u64 n) = 0
type_number (i64 n) = 1
type_number (str s) = 2
type_number (blob s) = 3
type_number (bool b) = 4
type_number (u32 n) = 5
type_number (u8 n) = 6

-- What a test of room answers: the bytes with `more` behind them, or the bytes as they are.
unfoldable pub append_within : ℕ → List ℕ → ℕ → List ℕ → List ℕ × Bool
append_within size out need more =
    if ltb size (length out + need) then (out, false) else (out ++ more, true)

-- The switch of `record_serialize`.
unfoldable pub put_value : ℕ → List ℕ → Field → List ℕ × Bool
put_value size out (u64 n) = append_within size out 8 (le_bytes 8 n)
put_value size out (i64 n) = append_within size out 8 (le_bytes 8 n)
put_value size out (u32 n) = append_within size out 4 (le_bytes 4 n)
put_value size out (u8 n) = append_within size out 1 (le_bytes 1 n)
put_value size out (bool b) = append_within size out 1 (le_bytes 1 (if b then 1 else 0))
put_value size out (str s) = append_within size out (2 + length s) (le_bytes 2 (length s) ++ s)
put_value size out (blob s) = append_within size out (4 + length s) (le_bytes 4 (length s) ++ s)

-- One round of its loop.
unfoldable pub put_field : ℕ → List ℕ → Field → List ℕ × Bool
put_field size out f =
    let tagged = append_within size out 4 (le_bytes 4 (type_number f)) in
    if tagged.1 then put_value size tagged.0 f else tagged

unfoldable pub put_fields : ℕ → List ℕ → List Field → List ℕ × Bool
put_fields size out [] = (out, true)
put_fields size out (f ∷ fs) =
    let r = put_field size out f in let rest = put_fields size r.0 fs in if r.1 then rest else r

unfoldable pub header : Row → List ℕ
header rec = le_bytes 8 rec.row_id ++ (le_bytes 4 rec.table_id ++ le_bytes 4 (length rec.fields))

-- `record_serialize` into a buffer of `size` bytes: its result, and the bytes it has written.
unfoldable pub serialize : Row → ℕ → ℕ × List ℕ
serialize rec size =
    if ltb size 16
    then (0, [])
    else let r = put_fields size (header rec) rec.fields in (if r.1 then length r.0 else 0, r.0)

-- A read of `k` bytes, refused where they are not there.
unfoldable pub read_within : ℕ → List ℕ → Option (ℕ × List ℕ)
read_within k rest = if ltb (length rest) k then none else some (read_le k rest, drop k rest)

unfoldable pub with_number : (ℕ → Field) → Option (ℕ × List ℕ) → Option (Field × List ℕ)
with_number f none = none
with_number f (some (n, rest)) = some (f n, rest)

-- A length of at most `limit`, and that many bytes.
unfoldable pub with_bytes : ℕ → (List ℕ → Field) → Option (ℕ × List ℕ) → Option (Field × List ℕ)
with_bytes limit f none = none
with_bytes limit f (some (n, rest)) =
    if ltb limit n || ltb (length rest) n then none else some (f (take n rest), drop n rest)

-- The switch of `record_deserialize`.
unfoldable pub get_value : ℕ → List ℕ → Option (Field × List ℕ)
get_value tag rest =
    if tag == 0
    then with_number u64 (read_within 8 rest)
    else if tag == 1
    then with_number i64 (read_within 8 rest)
    else if tag == 2
    then with_bytes max_str_len str (read_within 2 rest)
    else if tag == 3
    then with_bytes max_blob_len blob (read_within 4 rest)
    else if tag == 4
    then with_number (λ n. bool (not (n == 0))) (read_within 1 rest)
    else if tag == 5
    then with_number u32 (read_within 4 rest)
    else if tag == 6
    then with_number u8 (read_within 1 rest)
    else none

-- One round of its loop, and the loop over `n` fields.
unfoldable pub get_field : List ℕ → Option (Field × List ℕ)
get_field rest = elim (read_within 4 rest) [ none ↦ none | some (tag, rest') ↦ get_value tag rest' ]

unfoldable pub get_fields : ℕ → List ℕ → Option (List Field × List ℕ)
get_fields zero rest = some ([], rest)
get_fields (suc n) rest = elim (get_field rest) [
  | none ↦ none
  | some (f, rest') ↦ elim (get_fields n rest') [
    | none ↦ none
    | some (fs, end) ↦ some (f ∷ fs, end)
  ]
]

-- `record_deserialize`: the record and the number of bytes read; `none` where it returns 0.
unfoldable pub deserialize : List ℕ → Option (Row × ℕ)
deserialize buf =
    let rest = drop 8 buf in
    let count = read_le 4 (drop 4 rest) in
    if ltb (length buf) 16
    then none
    else if ltb max_columns count
    then none
    else (elim (get_fields count (drop 4 (drop 4 rest))) [
      | none ↦ none
      | some (fs, end) ↦ some (
        record { row_id = read_le 8 buf; table_id = read_le 4 rest; fields = fs },
        length buf - length end,
      )
    ])
