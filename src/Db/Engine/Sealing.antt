-- ===== src/Db/Engine/Sealing.antt =====
-- kernel/db/database.c: what `db_insert_record` encrypts and seals, `db_decrypt_record` verifies
-- and decrypts.
use vault_os.Prelude.{
  ℕ, zero, suc, ◌+◌, ◌-◌, ◌*◌, ◌/◌, ◌%◌, ◌≤◌, ◌<◌, List, [], ◌∷◌, ◌++◌, none, some, Bool, true, not,
  if◌then◌else◌, length, take, replicate, ◌≡◌, refl, ap, sym, ◌∙◌, arith, le→ltb, ne→==, eq→==, ◌%◌,
  append-nil,
}
use vault_os.Prelude.Bytes.{le_bytes}
use vault_os.Cap.Seal.{hmac_verify, hmac_verify_self}
use vault_os.Crypto.Aes.{Hardware, cbc_encrypt}
use vault_os.Crypto.Aes.Round.{AllBytes, append-AllBytes}
use vault_os.Crypto.Aes.Inverse.{IsSchedule}
use vault_os.Crypto.Aes.Instructions.{Documented}
use vault_os.Crypto.Aes.Cbc.{cbc_decrypt-cbc_encrypt}
use vault_os.Crypto.Pkcs7.{padded_size, pad, length-pad, unpad-pad}
use vault_os.Crypto.Hmac.{compute}
use vault_os.Db.Record.{
  Field, u64, i64, str, blob, bool, u32, u8, Row, type_number, header, deserialize,
}
use vault_os.Db.Record.Codec.{value_bytes, fields_bytes, Fits, row_bytes, serialize-exact}
use vault_os.Db.Record.RoundTrip.{deserialize-serialize}
use vault_os.Db.Engine.{Table, max_record_size, seal, opened, decrypt_with}

replicate-AllBytes : (n b : ℕ) → b < 256 → AllBytes (replicate n b)
replicate-AllBytes zero b h = tt
replicate-AllBytes (suc n) b h = (h, replicate-AllBytes n b h)

pad-AllBytes : (bytes : List ℕ) (n : ℕ) → AllBytes bytes → AllBytes (pad bytes n)
unfolding pad
pad-AllBytes bytes n h =
    append-AllBytes bytes _ h
      (replicate-AllBytes (n - length bytes) ((n - length bytes) % 256) (omega arith))

pub le_bytes-AllBytes : (k v : ℕ) → AllBytes (le_bytes k v)
unfolding le_bytes
le_bytes-AllBytes zero v = tt
le_bytes-AllBytes (suc k) v = (omega arith, le_bytes-AllBytes k (v / 256))

-- The characters of a string and the contents of a blob are bytes.
abbrev pub FieldBytes : Field → Type 0
FieldBytes (u64 n) = Unit
FieldBytes (i64 n) = Unit
FieldBytes (u32 n) = Unit
FieldBytes (u8 n) = Unit
FieldBytes (bool b) = Unit
FieldBytes (str s) = AllBytes s
FieldBytes (blob s) = AllBytes s

abbrev pub FieldsBytes : List Field → Type 0
FieldsBytes [] = Unit
FieldsBytes (f ∷ fs) = FieldBytes f × FieldsBytes fs

value_bytes-AllBytes : (f : Field) → FieldBytes f → AllBytes (value_bytes f)
unfolding value_bytes
value_bytes-AllBytes (u64 n) h = le_bytes-AllBytes 8 n
value_bytes-AllBytes (i64 n) h = le_bytes-AllBytes 8 n
value_bytes-AllBytes (u32 n) h = le_bytes-AllBytes 4 n
value_bytes-AllBytes (u8 n) h = le_bytes-AllBytes 1 n
value_bytes-AllBytes (bool b) h = le_bytes-AllBytes 1 (if b then 1 else 0)
value_bytes-AllBytes (str s) h =
    append-AllBytes (le_bytes 2 (length s)) s (le_bytes-AllBytes 2 (length s)) h
value_bytes-AllBytes (blob s) h =
    append-AllBytes (le_bytes 4 (length s)) s (le_bytes-AllBytes 4 (length s)) h

fields_bytes-AllBytes : (fs : List Field) → FieldsBytes fs → AllBytes (fields_bytes fs)
unfolding fields_bytes
fields_bytes-AllBytes [] h = tt
fields_bytes-AllBytes (f ∷ fs) h =
    append-AllBytes (le_bytes 4 (type_number f) ++ value_bytes f) (fields_bytes fs)
      (append-AllBytes (le_bytes 4 (type_number f)) (value_bytes f)
        (le_bytes-AllBytes 4 (type_number f)) (value_bytes-AllBytes f h.0))
      (fields_bytes-AllBytes fs h.1)

header-AllBytes : (rec : Row) → AllBytes (header rec)
unfolding header
header-AllBytes rec = append-AllBytes (le_bytes 8 rec.row_id) _ (le_bytes-AllBytes 8 rec.row_id) (
    append-AllBytes (le_bytes 4 rec.table_id) _ (le_bytes-AllBytes 4 rec.table_id)
      (le_bytes-AllBytes 4 (length rec.fields)))

pub row_bytes-AllBytes : (rec : Row) → FieldsBytes rec.fields → AllBytes (row_bytes rec)
row_bytes-AllBytes rec h =
    append-AllBytes (header rec) (fields_bytes rec.fields) (header-AllBytes rec)
      (fields_bytes-AllBytes rec.fields h)

-- What `record_deserialize` makes of exactly the bytes of a record.
pub deserialize-row_bytes :
    (rec : Row)
    → Fits rec
    → length (row_bytes rec) ≤ max_record_size
    → deserialize (row_bytes rec) ≡ some (rec, length (row_bytes rec))
deserialize-row_bytes rec fits room =
    let exact = serialize-exact rec max_record_size room in
    let back = deserialize-serialize rec max_record_size [] fits room in
    sym (ap (λ r. deserialize (r.1 ++ [])) exact ∙ ap deserialize (append-nil (row_bytes rec)))
    ∙ back
    ∙ ap (λ r. some (rec, r.0)) exact

module _ (aesni : Bool) (hw : Hardware) (doc : Documented hw) (tb : Table)
    (key : IsSchedule tb.aes_key) where
  opened-seal :
      (table_id row_id : ℕ) (plain iv : List ℕ)
      → AllBytes iv
      → AllBytes plain
      → 0 < length plain
      → length plain ≤ max_record_size
      → opened aesni hw tb (seal aesni hw tb table_id row_id plain iv)
        ≡ (elim (deserialize plain) [ none ↦ none | some (rec, consumed) ↦ some rec ])
  unfolding opened seal
  opened-seal table_id row_id plain iv hv h some_bytes room =
      let padded = pad plain (padded_size (length plain)) in
      let size = length-pad plain in
      let whole : padded_size (length plain) ≡ (length plain / 16 + 1) * 16 =
        unfold padded_size in refl in
      let (same, (bytes, back)) =
        cbc_decrypt-cbc_encrypt aesni hw doc tb.aes_key key iv padded hv
          (omega (arith, size, whole)) (pad-AllBytes plain (padded_size (length plain)) h) in
      let (count, kept) = unpad-pad plain in
      let blocks : length (cbc_encrypt aesni hw tb.aes_key iv padded) % 16 ≡ 0 =
        omega (arith, size, whole, same) in
      rw
        (
          eq→== (length (cbc_encrypt aesni hw tb.aes_key iv padded) % 16) 0 blocks,
          le→ltb (max_record_size + 16) (length (cbc_encrypt aesni hw tb.aes_key iv padded))
              (omega (arith, size, whole, same)),
          back,
          count,
          ne→== (length plain) 0 (λ e. omega arith),
        )
        (ap (λ p. elim (deserialize p) [ none ↦ none | some (rec, consumed) ↦ some rec ])
          (sym (ap (λ n. take n padded) count) ∙ kept))

  -- A record that has been sealed comes back.
  pub decrypt_with-seal :
      (table_id row_id : ℕ) (rec : Row) (iv : List ℕ)
      → AllBytes iv
      → Fits rec
      → FieldsBytes rec.fields
      → 0 < length (row_bytes rec)
      → length (row_bytes rec) ≤ max_record_size
      → decrypt_with aesni hw true tb (seal aesni hw tb table_id row_id (row_bytes rec) iv)
        ≡ some rec
  unfolding decrypt_with seal
  decrypt_with-seal table_id row_id rec iv hv fits bytes some_bytes room =
      let verified : hmac_verify (seal aesni hw tb table_id row_id (row_bytes rec) iv).mac (
            compute tb.mac_ctx
              (iv ++ (seal aesni hw tb table_id row_id (row_bytes rec) iv).ciphertext))
          ≡ true =
        unfold seal in hmac_verify_self _ in
      ap
        (λ b.
          if not b
          then none
          else opened aesni hw tb (seal aesni hw tb table_id row_id (row_bytes rec) iv))
        verified
      ∙ opened-seal table_id row_id (row_bytes rec) iv hv (row_bytes-AllBytes rec bytes) some_bytes
          room
      ∙ ap (λ d. elim d [ none ↦ none | some (r, consumed) ↦ some r ])
          (deserialize-row_bytes rec fits room)
