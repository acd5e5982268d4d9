-- ===== src/Db/Engine/Create.antt =====
-- kernel/db/database.c: `db_create_table` keeps the invariant of the tables.
use vault_os.Prelude.{
  ℕ, zero, suc, List, [], ◌∷◌, ◌++◌, Option, none, some, ◌⊎◌, leb, leb→le, ◌≤◌, ◌<◌, false, length,
  get_elem?, ◌≡◌, refl, ap, sym, ◌∙◌, arith, Bool-cases, inl, inr,
}
use mathlib.Core.Path.{subst}
use vault_os.Prelude.Bytes.{le_bytes}
use vault_os.Db.Btree.Model.{lookup}
use vault_os.Db.Btree.Weave.{flat}
use vault_os.Crypto.Hmac.{
  hmac_sha256, compute, standard_hmac, compute-hmac_init, hmac_sha256-IsDigest,
}
use vault_os.Crypto.Aes
use vault_os.ErrorCode.{ErrorCode}
use vault_os.Crypto.Aes.Inverse.{IsSchedule, init-IsSchedule}
use vault_os.Db.Btree.{Btree, search}
use vault_os.Db.Btree
use vault_os.Db.Btree.Laws.{init-IsTree, search-lookup}
use vault_os.Db.Engine.{
  Encrypted, Schema, Table, Database, init, derive_aes, derive_mac, new_table, create_table,
  max_tables,
}
use vault_os.Db.Engine.Tables.{IsTable, IsDatabase}

derive_aes-IsSchedule : (master : List ℕ) (t : ℕ) → IsSchedule (derive_aes master t)
unfolding derive_aes
derive_aes-IsSchedule master t =
    let (size, bytes) = hmac_sha256-IsDigest master (65 ∷ 69 ∷ 83 ∷ le_bytes 4 t) in
    init-IsSchedule _ (omega arith) bytes

leb→gt : (a b : ℕ) → leb a b ≡ false → b < a
leb→gt a b h = ground arith

search-init : (t j : ℕ) → search (Btree.init t) j ≡ none
search-init t j =
    search-lookup 0 j (Btree.init t) (init-IsTree t) ∙ unfold Btree.init flat lookup in refl

new_table-IsTable :
    (objects : ℕ → Option Encrypted) (master : List ℕ) (t : ℕ) (schema : Schema)
    → IsTable objects t (new_table master t schema)
unfolding new_table
new_table-IsTable objects master t schema = record {
  height = 0;
  tree = init-IsTree t;
  key = derive_aes-IsSchedule master t;
  owns = λ j a leads.
      absurd
        (let nothing = search-init t j in let both : none ≡ some a = sym nothing ∙ leads in cc);
}

get_elem?-append :
    (tbs : List Table) (new tb : Table) (t : ℕ)
    → get_elem? (tbs ++ new ∷ []) t ≡ some tb
    → (get_elem? tbs t ≡ some tb) ⊎ ((t ≡ length tbs) × (new ≡ tb))
get_elem?-append [] new tb zero h = inr (refl, cc)
get_elem?-append [] new tb (suc t) h = absurd cc
get_elem?-append (x ∷ tbs) new tb zero h = inl h
get_elem?-append (x ∷ tbs) new tb (suc t) h = elim (get_elem?-append tbs new tb t h) [
  | inl e ↦ inl e
  | inr (e, same) ↦ inr (ap suc e, same)
]

pub init-IsDatabase : (random : List ℕ) → IsDatabase (init random)
unfolding init
init-IsDatabase random t tb h = absurd cc

-- `db_create_table` keeps the invariant of the tables.
pub create_table-IsDatabase :
    (db : Database) (schema : Schema) → IsDatabase db → IsDatabase (create_table db schema).1
unfolding create_table
create_table-IsDatabase db schema db-ok = elim (Bool-cases (leb max_tables (length db.tables))) [
  | inl e ↦ rw e db-ok
  | inr e ↦ rw e (λ t tb at_t.
      elim (get_elem?-append db.tables (new_table db.master_db_key (length db.tables) schema) tb t
        at_t) [
          | inl old ↦ db-ok t tb old
          | inr (last, new) ↦ subst (IsTable db.objects t) new (
              subst (λ k. IsTable db.objects t (new_table db.master_db_key k schema)) last
                (new_table-IsTable db.objects db.master_db_key t schema))
        ])
]

-- A table as it is created under the number `t`: empty, with keys of its own.
pub record IsNew (master : List ℕ) (t : ℕ) (tb : Table) : Type 0 where
  pub number : tb.schema.table_id ≡ t
  pub empty : (j : ℕ) → search tb.index j ≡ none
  pub aes_key : tb.aes_key ≡ Aes.init (hmac_sha256 master (65 ∷ 69 ∷ 83 ∷ le_bytes 4 t))
  pub mac_key :
      (bytes : List ℕ)
      → compute tb.mac_ctx bytes
        ≡ standard_hmac (standard_hmac master (77 ∷ 65 ∷ 67 ∷ le_bytes 4 t)) bytes

-- What a call may return: that there are 16 tables, with nothing changed, or one table more.
pub data Creates (db : Database) (schema : Schema) : ErrorCode × Database → Type 0 where
  full : 16 ≤ length db.tables → IsDatabase db → Creates db schema (ErrorCode.full, db)
  created :
      (tb : Table)
      → length db.tables < 16
      → IsNew db.master_db_key (length db.tables) tb
      → tb.schema ≡ record schema { table_id = length db.tables }
      → IsDatabase (record db { tables = db.tables ++ tb ∷ [] })
      → Creates db schema (ErrorCode.ok, record db { tables = db.tables ++ tb ∷ [] })

new_table-IsNew :
    (master : List ℕ) (t : ℕ) (schema : Schema) → IsNew master t (new_table master t schema)
unfolding new_table derive_aes derive_mac
new_table-IsNew master t schema =
    let label = 77 ∷ 65 ∷ 67 ∷ le_bytes 4 t in
    record {
      number = refl;
      empty = search-init t;
      aes_key = refl;
      mac_key = λ bytes.
          (compute-hmac_init (hmac_sha256 master label) bytes).0
          ∙ ap (λ k. standard_hmac k bytes) (compute-hmac_init master label).1;
    }

-- In a database whose indexes are search trees over objects of their own, where every key schedule
-- is 11 round keys of bytes, `db_create_table` keeps this. With 16 tables or more it reports
-- VOS_ERR_FULL and changes nothing; with fewer it succeeds and adds behind the others a table with
-- the schema under its number, an empty index, the schedule of the master key's HMAC of "AES" and
-- the number, and seals under its HMAC of "MAC" and the number.
pub create_table-Creates :
    (db : Database) (schema : Schema) → IsDatabase db → Creates db schema (create_table db schema)
create_table-Creates db schema db-ok =
    let kept = create_table-IsDatabase db schema db-ok in
    elim (Bool-cases (leb max_tables (length db.tables))) [
      | inl e ↦ unfold create_table in rw e (full (leb→le 16 (length db.tables) e) db-ok)
      | inr e ↦
          let tb = new_table db.master_db_key (length db.tables) schema in
          let after : create_table db schema
              ≡ (ErrorCode.ok, record db { tables = db.tables ++ tb ∷ [] }) =
            unfold create_table in rw e refl in
          subst (Creates db schema) (sym after) (
            created tb (leb→gt 16 (length db.tables) e)
              (new_table-IsNew db.master_db_key (length db.tables) schema)
              (unfold new_table in refl) (subst (λ r. IsDatabase (r.1)) after kept))
    ]
