-- ===== src/Db/Record/Codec.antt =====
-- `record_serialize` and `record_deserialize` of kernel/db/record_serde.c: bounds and round trip.
use vault_os.Prelude.{
  ℕ, ◌+◌, ◌≤◌, ◌<◌, ◌^◌, List, [], ◌∷◌, ◌++◌, Bool, true, false, if◌then◌else◌, ltb, length, ◌≡◌,
  refl, ap, sym, ◌∙◌, arith, length-append, append_assoc, append-nil, Bool-cases, inl, inr, le→ltb,
}
use vault_os.Prelude.Bytes.{le_bytes, length-le_bytes}
use vault_os.Db.Record.{
  Field, u64, i64, str, blob, bool, u32, u8, Row, max_columns, max_str_len, max_blob_len,
  type_number, append_within, put_value, put_field, put_fields, header, serialize,
}

-- The bytes of a value, and of a field with its tag.
unfoldable pub value_bytes : Field → List ℕ
value_bytes (u64 n) = le_bytes 8 n
value_bytes (i64 n) = le_bytes 8 n
value_bytes (u32 n) = le_bytes 4 n
value_bytes (u8 n) = le_bytes 1 n
value_bytes (bool b) = le_bytes 1 (if b then 1 else 0)
value_bytes (str s) = le_bytes 2 (length s) ++ s
value_bytes (blob s) = le_bytes 4 (length s) ++ s

unfoldable pub fields_bytes : List Field → List ℕ
fields_bytes [] = []
fields_bytes (f ∷ fs) = (le_bytes 4 (type_number f) ++ value_bytes f) ++ fields_bytes fs

-- Each value in the range of its C type, each length within its limit.
abbrev pub FieldFits : Field → Type 0
FieldFits (u64 n) = n < 2 ^ 64
FieldFits (i64 n) = n < 2 ^ 64
FieldFits (u32 n) = n < 2 ^ 32
FieldFits (u8 n) = n < 2 ^ 8
FieldFits (bool b) = Unit
FieldFits (str s) = length s ≤ max_str_len
FieldFits (blob s) = length s ≤ max_blob_len

abbrev pub FieldsFit : List Field → Type 0
FieldsFit [] = Unit
FieldsFit (f ∷ fs) = FieldFits f × FieldsFit fs

pub record Fits (rec : Row) : Type 0 where
  pub row_id : rec.row_id < 2 ^ 64
  pub table_id : rec.table_id < 2 ^ 32
  pub columns : length rec.fields ≤ max_columns
  pub fields : FieldsFit rec.fields

append_within_lem :
    (size : ℕ) (out : List ℕ) (need : ℕ) (more : List ℕ)
    → length more ≡ need
    → append_within size out need more
      ≡ (if ltb size (length out + length more) then (out, false) else (out ++ more, true))
unfolding append_within
append_within_lem size out need more e = rw e refl

put_value_lem :
    (size : ℕ) (out : List ℕ) (f : Field)
    → put_value size out f ≡ (
        if ltb size (length out + length (value_bytes f))
        then (out, false)
        else (out ++ value_bytes f, true))
unfolding put_value value_bytes
put_value_lem size out (u64 n) = append_within_lem size out 8 (le_bytes 8 n) (length-le_bytes 8 n)
put_value_lem size out (i64 n) = append_within_lem size out 8 (le_bytes 8 n) (length-le_bytes 8 n)
put_value_lem size out (u32 n) = append_within_lem size out 4 (le_bytes 4 n) (length-le_bytes 4 n)
put_value_lem size out (u8 n) = append_within_lem size out 1 (le_bytes 1 n) (length-le_bytes 1 n)
put_value_lem size out (bool b) =
    append_within_lem size out 1 (le_bytes 1 (if b then 1 else 0))
      (length-le_bytes 1 (if b then 1 else 0))
put_value_lem size out (str s) =
    append_within_lem size out (2 + length s) (le_bytes 2 (length s) ++ s) (
      length-append (le_bytes 2 (length s)) s
      ∙ ap (λ k. k + length s) (length-le_bytes 2 (length s)))
put_value_lem size out (blob s) =
    append_within_lem size out (4 + length s) (le_bytes 4 (length s) ++ s) (
      length-append (le_bytes 4 (length s)) s
      ∙ ap (λ k. k + length s) (length-le_bytes 4 (length s)))

-- A write keeps within the buffer; it says true exactly if `more` fits, and has then appended it.
record Appends (size : ℕ) (out more : List ℕ) (r : List ℕ × Bool) : Type 0 where
  within : length r.0 ≤ size
  exact : r.1 ≡ true → r.0 ≡ out ++ more
  succeeds : length out + length more ≤ size → r.1 ≡ true

if-Appends :
    (size : ℕ) (out more : List ℕ)
    → length out ≤ size
    → Appends size out more
        (if ltb size (length out + length more) then (out, false) else (out ++ more, true))
if-Appends size out more h = elim (Bool-cases (ltb size (length out + length more))) [
  | inl e ↦ rw e (record { within = h; exact = λ f. cc; succeeds = λ l. absurd (ground arith) })
  | inr e ↦ rw e (record {
    within = ground (arith, length-append out more);
    exact = λ f. refl;
    succeeds = λ l. refl;
  })
]

-- Two writes in a row.
then-Appends :
    (size : ℕ) (out a b : List ℕ) (r : List ℕ × Bool) (q : List ℕ → List ℕ × Bool)
    → Appends size out a r
    → ((out' : List ℕ) → length out' ≤ size → Appends size out' b (q out'))
    → Appends size out (a ++ b) (if r.1 then q r.0 else r)
then-Appends size out a b (o, false) q x y = record {
  within = x.within;
  exact = λ f. cc;
  succeeds = λ l. x.succeeds (omega (arith, length-append a b));
}
then-Appends size out a b (o, true) q x y =
    let z = y o x.within in
    let e = x.exact refl in
    record {
      within = z.within;
      exact = λ f. z.exact f ∙ ap (λ p. p ++ b) e ∙ append_assoc out a b;
      succeeds =
          λ l. z.succeeds (omega (arith, ap length e, length-append out a, length-append a b));
    }

put_field-Appends :
    (size : ℕ) (out : List ℕ) (f : Field)
    → length out ≤ size
    → Appends size out (le_bytes 4 (type_number f) ++ value_bytes f) (put_field size out f)
unfolding put_field
put_field-Appends size out f h =
    then-Appends size out (le_bytes 4 (type_number f)) (value_bytes f)
      (append_within size out 4 (le_bytes 4 (type_number f))) (λ o. put_value size o f)
      (rw
        (append_within_lem size out 4 (le_bytes 4 (type_number f))
          (length-le_bytes 4 (type_number f)))
        (if-Appends size out (le_bytes 4 (type_number f)) h))
      (λ o l. rw (put_value_lem size o f) (if-Appends size o (value_bytes f) l))

put_fields-Appends :
    (size : ℕ) (out : List ℕ) (fs : List Field)
    → length out ≤ size
    → Appends size out (fields_bytes fs) (put_fields size out fs)
unfolding put_fields fields_bytes
put_fields-Appends size out [] h = record {
  within = h;
  exact = λ f. sym (append-nil out);
  succeeds = λ l. refl;
}
put_fields-Appends size out (f ∷ fs) h =
    then-Appends size out (le_bytes 4 (type_number f) ++ value_bytes f) (fields_bytes fs)
      (put_field size out f) (λ o. put_fields size o fs) (put_field-Appends size out f h)
      (λ o l. put_fields-Appends size o fs l)

pub length-header : (rec : Row) → length (header rec) ≡ 16
unfolding header le_bytes
length-header rec = omega (
  arith,
  length-append {0} (le_bytes 8 rec.row_id)
      (le_bytes 4 rec.table_id ++ le_bytes 4 (length rec.fields)),
  length-append {0} (le_bytes 4 rec.table_id) (le_bytes 4 (length rec.fields)),
  length-le_bytes,
)

-- `record_serialize` writes no byte beyond the buffer, on any path, the failing ones included.
pub serialize-within : (rec : Row) (size : ℕ) → length (serialize rec size).1 ≤ size
unfolding serialize
serialize-within rec size = elim (Bool-cases (ltb size 16)) [
  | inl e ↦ rw e (omega arith)
  | inr e ↦
      let h = length-header rec in
      let big : 16 ≤ size = ground arith in
      rw e ((put_fields-Appends size (header rec) rec.fields (omega arith)).within)
]

-- The bytes of a whole record.
abbrev pub row_bytes : Row → List ℕ
row_bytes rec = header rec ++ fields_bytes rec.fields

-- Into a buffer that has room for all its bytes `record_serialize` writes exactly the record's
-- bytes, and returns their number.
pub serialize-exact :
    (rec : Row) (size : ℕ)
    → length (row_bytes rec) ≤ size
    → serialize rec size ≡ (length (row_bytes rec), row_bytes rec)
unfolding serialize
serialize-exact rec size h =
    let len = length-header rec in
    let sum = length-append (header rec) (fields_bytes rec.fields) in
    let big : ltb size 16 ≡ false = le→ltb size 16 (omega arith) in
    let x = put_fields-Appends size (header rec) rec.fields (omega arith) in
    let done = x.succeeds (omega arith) in rw (big, done, x.exact done) refl
