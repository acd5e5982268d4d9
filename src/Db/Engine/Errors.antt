-- ===== src/Db/Engine/Errors.antt =====
-- kernel/db/database.c: the failures of `db_insert_record` and the checks of `db_decrypt_record`.
use vault_os.Prelude.{
  ◌⊎◌, ◌++◌, Option, none, some, Bool, true, false, not, if◌then◌else◌, length, ◌≡◌, refl, sym, ◌∙◌,
}
use vault_os.ErrorCode.{ErrorCode}
use vault_os.Cap.Seal.{hmac_verify, hmac_verify_sound}
use vault_os.Crypto.Aes.{Hardware}
use vault_os.Crypto.Hmac.{compute, compute-IsDigest}
use vault_os.Db.Engine.Memory.{Same}
use vault_os.Db.Record.{Row}
use vault_os.Db.Engine.{Encrypted, Table, Database, decrypt_with}

-- The call ends, with a success, or with a failure of this kind that leaves the state as it was.
abbrev Ends : Database → Option (ErrorCode × Database) → Type 0
Ends db r =
    (e : ErrorCode) × (db' : Database) × (r ≡ some (e, db'))
    × ((e ≡ ErrorCode.ok) ⊎ (((e ≡ ErrorCode.inval) ⊎ (e ≡ ErrorCode.nomem)) × Same db db'))

passed :
    (b : Bool) (o : Option Row) (rec : Row)
    → (if not b then none else o) ≡ some rec
    → (b ≡ true) × (o ≡ some rec)
passed true o rec h = (refl, h)
passed false o rec h = absurd cc

-- If `db_decrypt_record` gives a record from an object whose seal has 32 bytes, the seal is the
-- keyed hash, under the table's key, of exactly the vector and the ciphertext in the object: so
-- an object whose seal is not the one of its contents gives none.
pub decrypt_with_sound :
    (aesni : Bool) (hw : Hardware) (memory : Bool) (tb : Table) (enc : Encrypted) (rec : Row)
    → length enc.mac ≡ 32
    → decrypt_with aesni hw memory tb enc ≡ some rec
    → enc.mac ≡ compute tb.mac_ctx (enc.iv ++ enc.ciphertext)
unfolding decrypt_with
decrypt_with_sound aesni hw memory tb enc rec size h =
    let mac = compute tb.mac_ctx (enc.iv ++ enc.ciphertext) in
    let (given, verified) = passed memory _ rec h in
    let (same, opens) = passed (hmac_verify enc.mac mac) _ rec verified in
    hmac_verify_sound enc.mac mac
      (size ∙ sym (compute-IsDigest tb.mac_ctx (enc.iv ++ enc.ciphertext)).0) same
