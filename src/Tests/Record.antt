-- ===== src/Tests/Record.antt =====
-- kernel/db/record_serde.c on a record of a process table.
use vault_os.Prelude.{[], ◌∷◌, ◌++◌, some, true, ◌≤◌, ◌≡◌, arith, length}
use vault_os.Prelude.Bytes.{le_bytes}
use vault_os.Db.Record.{Row, header, serialize, deserialize, u64, str, bool, u8}
use vault_os.Db.Record.Codec.{
  Fits, row_bytes, fields_bytes, value_bytes, serialize-within, serialize-exact,
}
use vault_os.Db.Record.RoundTrip.{deserialize-serialize}

abbrev row : Row
row = record {
  row_id = 7;
  table_id = 2;
  fields = u64 12 ∷ str (105 ∷ 110 ∷ 105 ∷ 116 ∷ []) ∷ bool true ∷ u8 200 ∷ [];
}

row-Fits : Fits row
row-Fits = record {
  row_id = omega arith;
  table_id = omega arith;
  columns = omega arith;
  fields = (omega arith, (omega arith, (tt, (omega arith, tt))));
}

row-short : length (row_bytes row) ≤ 80
unfolding header fields_bytes value_bytes le_bytes
row-short = omega arith

serialize-within_example : length (serialize row 30).1 ≤ 30
serialize-within_example = serialize-within row 30

serialize-exact_example : serialize row 80 ≡ (length (row_bytes row), row_bytes row)
serialize-exact_example = serialize-exact row 80 row-short

deserialize-serialize_example :
    let (n, bytes) = serialize row 80 in deserialize (bytes ++ (9 ∷ [])) ≡ some (row, n)
deserialize-serialize_example = deserialize-serialize row 80 (9 ∷ []) row-Fits row-short
