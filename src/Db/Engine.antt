-- ===== src/Db/Engine.antt =====
-- kernel/db/database.c with kernel/db/schema.h: tables of encrypted records. An index holds the
-- addresses of encrypted records; `objects` is what is allocated at each address, `ciphertext_at`
-- the pointer `ciphertext` of the record there, and `allocated` has the address of each block that
-- kmalloc has given and kfree has not taken back. What the heap and the source of random bytes
-- answer during a call is an argument of it, and `depth` is the fuel of an insertion into an index.
pub mod Sealing
pub mod Tables
pub mod Rows
pub mod Memory
pub mod Insert
pub mod Remove
pub mod Update
pub mod Create
pub mod Fields
pub mod System
pub mod Errors
use vault_os.Prelude.{
  ℕ, zero, suc, ◌+◌, ◌%◌, ◌^◌, List, [], ◌∷◌, ◌++◌, Option, none, some, Bool, true, false, not,
  ◌||◌, if◌then◌else◌, ◌==◌, ltb, leb, length, get_elem?, take, replicate,
}
use vault_os.Prelude.Bytes.{le_bytes}
use vault_os.ErrorCode.{ErrorCode}
use vault_os.Cap.Seal.{hmac_verify}
use vault_os.Crypto.Aes.{Hardware, cbc_encrypt, cbc_decrypt}
use vault_os.Crypto.Aes
use vault_os.Crypto.Pkcs7.{padded_size, pad, unpad}
use vault_os.Crypto.Hmac.{HmacContext, hmac_init, compute, hmac_sha256}
use vault_os.Db.Btree.{Btree, search}
use vault_os.Db.Btree
use vault_os.Db.Btree.Delete.{delete}
use vault_os.Db.Record.{Row, serialize, deserialize}

-- `column_type_t`, `column_def_t`, `table_schema_t`; a name is its characters before the NUL.
pub data ColumnType : Type 0 where
  col_u64 col_i64 col_str col_blob col_bool col_u32 col_u8 : ColumnType

pub record Column : Type 0 where
  pub name : List ℕ
  pub column_type : ColumnType
  pub primary_key : Bool
  pub not_null : Bool
  pub indexed : Bool

pub record Schema : Type 0 where
  pub name : List ℕ
  pub table_id : ℕ
  pub columns : List Column
  pub encrypted : Bool
  pub system_table : Bool

-- `encrypted_record_t`; the ciphertext below its length.
pub record Encrypted : Type 0 where
  pub iv : List ℕ
  pub ciphertext : List ℕ
  pub mac : List ℕ
  pub row_id : ℕ
  pub table_id : ℕ

-- An entry of `schemas`, `indexes`, `table_aes_keys` and `table_mac_ctxs`.
pub record Table : Type 0 where
  pub schema : Schema
  pub index : Btree
  pub aes_key : List ℕ
  pub mac_ctx : HmacContext

pub record Database : Type 0 where
  pub tables : List Table
  pub global_row_id : ℕ
  pub master_db_key : List ℕ
  pub objects : ℕ → Option Encrypted
  pub ciphertext_at : ℕ → ℕ
  pub allocated : List ℕ

-- `MAX_TABLES`, `MAX_RECORD_SIZE`
abbrev pub max_tables : ℕ
max_tables = 16

abbrev pub max_record_size : ℕ
max_record_size = 4096

-- `db_init`, with the random bytes of the key.
unfoldable pub init : List ℕ → Database
init random = record {
  tables = [];
  global_row_id = 1;
  master_db_key = random;
  objects = λ a. none;
  ciphertext_at = λ a. 0;
  allocated = [];
}

-- `db_next_row_id`: the id, and the state
unfoldable pub next_row_id : Database → ℕ × Database
next_row_id db = (db.global_row_id, record db { global_row_id = (db.global_row_id + 1) % 2 ^ 64 })

-- `derive_table_key`: the schedule, and the contexts of the seal.
unfoldable pub derive_aes : List ℕ → ℕ → List ℕ
derive_aes master table_id = Aes.init (hmac_sha256 master (65 ∷ 69 ∷ 83 ∷ le_bytes 4 table_id))

unfoldable pub derive_mac : List ℕ → ℕ → HmacContext
derive_mac master table_id = hmac_init (hmac_sha256 master (77 ∷ 65 ∷ 67 ∷ le_bytes 4 table_id))

-- The table that `db_create_table` adds.
unfoldable pub new_table : List ℕ → ℕ → Schema → Table
new_table master count schema = record {
  schema = record schema { table_id = count };
  index = Btree.init count;
  aes_key = derive_aes master count;
  mac_ctx = derive_mac master count;
}

-- `db_create_table`
unfoldable pub create_table : Database → Schema → ErrorCode × Database
create_table db schema = if leb max_tables (length db.tables) then (ErrorCode.full, db) else (
  ErrorCode.ok,
  record db { tables = db.tables ++ new_table db.master_db_key (length db.tables) schema ∷ [] },
)

-- The tables with an index replaced, and the objects with one replaced.
unfoldable pub set_index : List Table → ℕ → Btree → List Table
set_index [] t index = []
set_index (tb ∷ tbs) zero index = record tb { index = index } ∷ tbs
set_index (tb ∷ tbs) (suc t) index = tb ∷ set_index tbs t index

unfoldable pub set_object : (ℕ → Option Encrypted) → ℕ → Option Encrypted → ℕ → Option Encrypted
set_object objects address o a = if address == a then o else objects a

-- What a call of kmalloc or kzalloc that gives the address `a`, and one of kfree, do to `allocated`.
abbrev pub take_block : Database → ℕ → Database
take_block db a = record db { allocated = a ∷ db.allocated }

unfoldable pub without : ℕ → List ℕ → List ℕ
without a [] = []
without a (b ∷ bs) = let rest = without a bs in if b == a then bs else b ∷ rest

abbrev pub give_back : Database → ℕ → Database
give_back db a = record db { allocated = without a db.allocated }

-- `enc->ciphertext = c`
abbrev pub set_ciphertext : Database → ℕ → ℕ → Database
set_ciphertext db a c = record db { ciphertext_at = λ b. if a == b then c else db.ciphertext_at b }

-- What `kzalloc`, `kmalloc` and `random_bytes` answer to `db_insert_record`.
pub record Resources : Type 0 where
  pub enc_at : Option ℕ
  pub ciphertext : Option ℕ
  pub mac_input : Option ℕ
  pub iv : List ℕ

-- `db_delete_record`
unfoldable pub delete_from : Database → ℕ → Table → ℕ → ErrorCode × Database
delete_from db t tb row_id = elim (search tb.index row_id) [
  | none ↦ (ErrorCode.notfound, db)
  | some a ↦ (
    ErrorCode.ok,
    record (give_back (give_back db (db.ciphertext_at a)) a) {
      tables = set_index db.tables t (delete tb.index row_id).1;
      objects = set_object db.objects a none;
    },
  )
]

unfoldable pub delete_record : Database → ℕ → ℕ → ErrorCode × Database
delete_record db t row_id = elim (get_elem? db.tables t) [
  | none ↦ (ErrorCode.inval, db)
  | some tb ↦ delete_from db t tb row_id
]

module _ (aesni : Bool) (hw : Hardware) where
  -- Steps 2, 4 and 5 of `db_insert_record`: pad, encrypt, and seal.
  unfoldable pub seal : Table → ℕ → ℕ → List ℕ → List ℕ → Encrypted
  seal tb table_id row_id plain iv =
      let ciphertext =
        cbc_encrypt aesni hw tb.aes_key iv (pad plain (padded_size (length plain))) in
      record {
        iv = iv;
        ciphertext = ciphertext;
        mac = compute tb.mac_ctx (iv ++ ciphertext);
        row_id = row_id;
        table_id = table_id;
      }

  -- Its step 6. `none`: the fuel of the insertion is used up, or the index lost.
  unfoldable pub store_indexed :
      ℕ → Database → ℕ → Table → Encrypted → ℕ → Option (ErrorCode × Database)
  store_indexed depth db t tb enc a = elim (Btree.insert depth tb.index enc.row_id (some a)) [
    | none ↦ none
    | some index ↦ some (
      ErrorCode.ok,
      record db {
        tables = set_index db.tables t index;
        objects = set_object db.objects a (some enc);
      },
    )
  ]

  -- Its steps from the allocation of `mac_input` on, for the record at `a` with its ciphertext at `c`.
  unfoldable pub store_input :
      ℕ → Database → ℕ → Table → Encrypted → ℕ → ℕ → Option ℕ → Option (ErrorCode × Database)
  store_input depth db t tb enc a c none = some (ErrorCode.nomem, give_back (give_back db c) a)
  store_input depth db t tb enc a c (some m) =
      store_indexed depth (give_back (take_block db m) m) t tb enc a

  -- Its steps from the allocation of the ciphertext on.
  unfoldable pub store_ciphertext :
      ℕ → Database → ℕ → Table → Encrypted → ℕ → Option ℕ → Option ℕ → Option (ErrorCode × Database)
  store_ciphertext depth db t tb enc a none m = some (ErrorCode.nomem, give_back db a)
  store_ciphertext depth db t tb enc a (some c) m =
      store_input depth (set_ciphertext (take_block db c) a c) t tb enc a c m

  -- Its steps from the first allocation on. What is written to the new blocks is in `enc`.
  unfoldable pub store_sealed :
      ℕ → Database → ℕ → Table → Encrypted → Resources → Option (ErrorCode × Database)
  store_sealed depth db t tb enc res = elim res.enc_at [
    | none ↦ some (ErrorCode.nomem, db)
    | some a ↦ store_ciphertext depth (take_block db a) t tb enc a res.ciphertext res.mac_input
  ]

  -- `db_insert_record` on what `record_serialize` has returned and written, and the whole of it.
  unfoldable pub insert_written :
      ℕ → Database → ℕ → Table → ℕ → Resources → ℕ × List ℕ → Option (ErrorCode × Database)
  insert_written depth db t tb row_id res (plain_len, bytes) =
      if plain_len == 0 || ltb (max_record_size + 16) (padded_size plain_len)
      then some (ErrorCode.inval, db)
      else store_sealed depth db t tb (seal tb t row_id (take plain_len bytes) res.iv) res

  unfoldable pub insert_record : ℕ → Database → ℕ → Row → Resources → Option (ErrorCode × Database)
  insert_record depth db t rec res = elim (get_elem? db.tables t) [
    | none ↦ some (ErrorCode.inval, db)
    | some tb ↦ insert_written depth db t tb rec.row_id res (serialize rec max_record_size)
  ]

  -- Steps 2 to 4 of `db_decrypt_record`: decrypt, unpad, and deserialize.
  unfoldable pub opened : Table → Encrypted → Option Row
  opened tb enc =
      let plain = cbc_decrypt aesni hw tb.aes_key enc.iv enc.ciphertext in
      let plain_len = if length enc.ciphertext % 16 == 0 then unpad plain else 0 in
      if ltb (max_record_size + 16) (length enc.ciphertext)
      then none
      else if plain_len == 0
      then none
      else (elim (deserialize (take plain_len plain)) [
        | none ↦ none
        | some (rec, consumed) ↦ some rec
      ])

  -- `db_decrypt_record`, with whether its buffer could be allocated.
  unfoldable pub decrypt_with : Bool → Table → Encrypted → Option Row
  decrypt_with mac_input_ok tb enc =
      if not mac_input_ok
      then none
      else if not (hmac_verify enc.mac (compute tb.mac_ctx (enc.iv ++ enc.ciphertext)))
      then none
      else opened tb enc

  unfoldable pub decrypt_record : Bool → Database → ℕ → Option Encrypted → Option Row
  decrypt_record mac_input_ok db t none = none
  decrypt_record mac_input_ok db t (some enc) = elim (get_elem? db.tables t) [
    | none ↦ none
    | some tb ↦ decrypt_with mac_input_ok tb enc
  ]

  -- `btree_search` for the row, and the object at the address that it finds.
  unfoldable pub object_of : Database → Table → ℕ → Option Encrypted
  object_of db tb row_id = elim (search tb.index row_id) [ none ↦ none | some a ↦ db.objects a ]

  -- `db_get_record`
  unfoldable pub get_record : Bool → Database → ℕ → ℕ → Option Row
  get_record mac_input_ok db t row_id = elim (get_elem? db.tables t) [
    | none ↦ none
    | some tb ↦ decrypt_record mac_input_ok db t (object_of db tb row_id)
  ]

  -- `db_update_encrypted`; its own test of the table is the one that the deletion begins with.
  unfoldable pub after_delete :
      ℕ → ℕ → ℕ → Row → Resources → ErrorCode × Database → Option (ErrorCode × Database)
  after_delete depth t row_id modified res (ErrorCode.ok, db) =
      insert_record depth db t (record modified { row_id = row_id; table_id = t }) res
  after_delete depth t row_id modified res (err, db) = some (err, db)

  unfoldable pub update_encrypted :
      ℕ → Database → ℕ → ℕ → Row → Resources → Option (ErrorCode × Database)
  update_encrypted depth db t row_id modified res =
      after_delete depth t row_id modified res (delete_record db t row_id)
