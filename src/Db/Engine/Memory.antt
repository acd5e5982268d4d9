-- ===== src/Db/Engine/Memory.antt =====
-- kernel/db/database.c: the blocks that `db_insert_record` takes from the heap and gives back.
use vault_os.Prelude.{
  ℕ, ◌⊎◌, List, ◌∷◌, Option, none, some, Bool, ◌≡◌, refl, ap, ◌∙◌, inl, inr, eq→==,
}
use vault_os.ErrorCode.{ErrorCode}
use vault_os.Crypto.Aes.{Hardware}
use vault_os.Db.Btree.{Btree, search}
use vault_os.Db.Btree
use vault_os.Db.Engine.{
  Encrypted, Table, Database, Resources, set_object, take_block, without, give_back, set_ciphertext,
  store_indexed, store_input, store_ciphertext, store_sealed,
}
use vault_os.Db.Engine.Rows.{written}

-- All that the heap and the source of random bytes are asked for is there.
abbrev pub given : ℕ → ℕ → ℕ → List ℕ → Resources
given a c m iv = record { enc_at = some a; ciphertext = some c; mac_input = some m; iv = iv }

-- The blocks at `a` and `c` are allocated, and the one at `m` for a while.
abbrev pub holding : Database → ℕ → ℕ → ℕ → Database
holding db a c m = give_back (take_block (set_ciphertext (take_block (take_block db a) c) a c) m) m

-- Two states that agree but for the pointers in blocks that are free.
pub record Same (db db' : Database) : Type 0 where
  pub tables : db'.tables ≡ db.tables
  pub objects : db'.objects ≡ db.objects
  pub allocated : db'.allocated ≡ db.allocated
  pub global_row_id : db'.global_row_id ≡ db.global_row_id
  pub master_db_key : db'.master_db_key ≡ db.master_db_key

without-first : (a : ℕ) (bs : List ℕ) → without a (a ∷ bs) ≡ bs
unfolding without
without-first a bs = let e = eq→== a a refl in rw e refl

Same-freed :
    (db db1 : Database) (a : ℕ)
    → db1.allocated ≡ a ∷ db.allocated
    → db1.tables ≡ db.tables
    → db1.objects ≡ db.objects
    → db1.global_row_id ≡ db.global_row_id
    → db1.master_db_key ≡ db.master_db_key
    → Same db (give_back db1 a)
Same-freed db db1 a blocks tables objects ids key = record {
  tables = tables;
  objects = objects;
  allocated = ap (without a) blocks ∙ without-first a db.allocated;
  global_row_id = ids;
  master_db_key = key;
}

module _ (aesni : Bool) (hw : Hardware) where
  pub store_sealed-runs :
      (depth : ℕ) (db : Database) (t a c m : ℕ) (tb : Table) (enc : Encrypted) (iv : List ℕ)
      (index' : Btree)
      → Btree.insert depth tb.index enc.row_id (some a) ≡ some index'
      → store_sealed aesni hw depth db t tb enc (given a c m iv)
        ≡ some
            (ErrorCode.ok, written (holding db a c m) t index' (set_object db.objects a (some enc)))
  unfolding store_sealed store_ciphertext store_input store_indexed
  store_sealed-runs depth db t a c m tb enc iv index' run = rw (store_indexed, run) refl

  pub store_sealed-given :
      (depth : ℕ) (db : Database) (t a c m : ℕ) (tb : Table) (enc : Encrypted) (res : Resources)
      (index' : Btree)
      → res.enc_at ≡ some a
      → res.ciphertext ≡ some c
      → res.mac_input ≡ some m
      → Btree.insert depth tb.index enc.row_id (some a) ≡ some index'
      → store_sealed aesni hw depth db t tb enc res
        ≡ some
            (ErrorCode.ok, written (holding db a c m) t index' (set_object db.objects a (some enc)))
  store_sealed-given depth db t a c m tb enc res index' at_a at_c at_m run =
      let same : res ≡ given a c m res.iv =
        λ i. record { enc_at = at_a i; ciphertext = at_c i; mac_input = at_m i; iv = res.iv } in
      ap (store_sealed aesni hw depth db t tb enc) same
      ∙ store_sealed-runs depth db t a c m tb enc res.iv index' run

  store_ciphertext-nomem :
      (depth : ℕ) (db : Database) (t a : ℕ) (tb : Table) (enc : Encrypted) (c m : Option ℕ)
      → (c ≡ none) ⊎ (m ≡ none)
      → (db' : Database) × (store_ciphertext aesni hw depth (take_block db a) t tb enc a c m
          ≡ some (ErrorCode.nomem, db'))
        × Same db db'
  unfolding store_ciphertext store_input
  store_ciphertext-nomem depth db t a tb enc none m full =
      (give_back (take_block db a) a, refl, Same-freed db _ a refl refl refl refl refl)
  store_ciphertext-nomem depth db t a tb enc (some c) none full = (
    give_back (give_back (set_ciphertext (take_block (take_block db a) c) a c) c) a,
    refl,
    Same-freed db _ a (without-first c (a ∷ db.allocated)) refl refl refl refl,
  )
  store_ciphertext-nomem depth db t a tb enc (some c) (some m) (inl e) = absurd cc
  store_ciphertext-nomem depth db t a tb enc (some c) (some m) (inr e) = absurd cc

  pub store_sealed-nomem :
      (depth : ℕ) (db : Database) (t a : ℕ) (tb : Table) (enc : Encrypted) (res : Resources)
      → res.enc_at ≡ some a
      → (res.ciphertext ≡ none) ⊎ (res.mac_input ≡ none)
      → (db' : Database) × (store_sealed aesni hw depth db t tb enc res
          ≡ some (ErrorCode.nomem, db'))
        × Same db db'
  unfolding store_sealed
  store_sealed-nomem depth db t a tb enc res at_a full =
      let (db', run, same) =
        store_ciphertext-nomem depth db t a tb enc res.ciphertext res.mac_input full in
      (db', rw (store_sealed, at_a) run, same)
