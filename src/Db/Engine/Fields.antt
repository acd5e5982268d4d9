-- ===== src/Db/Engine/Fields.antt =====
-- kernel/db/record.c: the functions that set a field of a record.
use vault_os.Prelude.{ℕ, zero, suc, ◌+◌, List, [], ◌∷◌, Bool, if◌then◌else◌, leb, length, take}
use vault_os.Db.Record.{
  Field, u64, i64, u32, str, bool, blob, Row, max_columns, max_str_len, max_blob_len,
}

-- The fields with one written; those between are zeros, a number 0.
unfoldable pub put_at : List Field → ℕ → Field → List Field
put_at [] zero f = f ∷ []
put_at [] (suc i) f = u64 0 ∷ put_at [] i f
put_at (g ∷ gs) zero f = f ∷ gs
put_at (g ∷ gs) (suc i) f = g ∷ put_at gs i f

-- `record_set_u64` and so on, on a record that `memset` has cleared before its first field.
unfoldable pub set_field : Row → ℕ → Field → Row
set_field rec idx f =
    if leb max_columns idx then rec else record rec { fields = put_at rec.fields idx f }

unfoldable pub set_u64 : Row → ℕ → ℕ → Row
set_u64 rec idx val = set_field rec idx (u64 val)

unfoldable pub set_i64 : Row → ℕ → ℕ → Row
set_i64 rec idx val = set_field rec idx (i64 val)

unfoldable pub set_u32 : Row → ℕ → ℕ → Row
set_u32 rec idx val = set_field rec idx (u32 val)

unfoldable pub set_str : Row → ℕ → List ℕ → Row
set_str rec idx val = set_field rec idx (str (take max_str_len val))

unfoldable pub set_bool : Row → ℕ → Bool → Row
set_bool rec idx val = set_field rec idx (bool val)

unfoldable pub set_blob : Row → ℕ → List ℕ → Row
set_blob rec idx bytes =
    if leb (max_blob_len + 1) (length bytes) then rec else set_field rec idx (blob bytes)
