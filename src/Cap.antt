-- ===== src/Cap.antt =====
-- kernel/cap/capability.c: creating, validating, checking, granting, revoking and delegating
-- capabilities. `seal` is `hmac_ctx_compute` under the master key that `cap_init` draws at random;
-- `now` is what `pit_get_ticks` returns during the call.
pub mod Table
pub mod Seal
pub mod Sealed
pub mod Keep
pub mod Permit
pub mod Check
pub mod Revoke
use Prim.Native.Nat.{bit_and}
use vault_os.Prelude.{
  ℕ, zero, suc, ◌+◌, ◌-◌, ◌/◌, ◌%◌, ◌^◌, List, [], ◌∷◌, ◌++◌, Option, none, some, Bool, true, false,
  if◌then◌else◌, ◌==◌, ltb, get_or, set, replicate, ◌&&◌, ◌||◌, not,
}
use vault_os.Prelude.Bytes.{le_bytes}
use vault_os.ErrorCode.{ErrorCode}
use vault_os.Cap.Table.{Capability, ObjectType, CapTable}
use vault_os.Cap.Table
use vault_os.Cap.Seal.{hmac_verify}

-- `CAP_GRANT`, `CAP_ALL`
abbrev pub cap_grant_right : ℕ
cap_grant_right = 2 ^ 4

abbrev pub cap_all : ℕ
cap_all = 0x3f

-- `CAP_CACHE_SIZE`, `CAP_CACHE_TTL`
abbrev pub cache_size : ℕ
cache_size = 64

abbrev pub cache_ttl : ℕ
cache_ttl = 1000

-- `cap_cache_entry_t`
pub record CacheEntry : Type 0 where
  pub cap_id : ℕ
  pub validated_at : ℕ
  pub valid : Bool
  pub occupied : Bool

abbrev pub zero_entry : CacheEntry
zero_entry = record { cap_id = 0; validated_at = 0; valid = false; occupied = false }

-- The static variables of capability.c, and the table of cap_table.c.
pub record CapState : Type 0 where
  pub next_cap_id : ℕ
  pub cache : List CacheEntry
  pub table : CapTable

-- `cap_cache_invalidate`
unfoldable pub cache_invalidate : ℕ → List CacheEntry → List CacheEntry
cache_invalidate cap_id cache =
    let idx = cap_id % cache_size in
    let entry = get_or cache idx zero_entry in
    if entry.cap_id == cap_id then set cache idx (record entry { occupied = false }) else cache

-- `(uint32_t)cap->object_type`
unfoldable pub type_number : ObjectType → ℕ
type_number ObjectType.table_row = 0
type_number ObjectType.table = 1
type_number ObjectType.process = 2
type_number ObjectType.device = 3
type_number ObjectType.system = 4

-- The 40 bytes of `cap_compute_hmac`.
unfoldable pub sealed_bytes : Capability → List ℕ
sealed_bytes cap =
    le_bytes 8 cap.cap_id
    ++ le_bytes 8 cap.object_id
    ++ le_bytes 8 cap.owner_pid
    ++ le_bytes 4 cap.rights
    ++ le_bytes 4 (type_number cap.object_type)
    ++ le_bytes 8 cap.parent_cap_id

-- The tests of `cap_check` on one entry, before it is validated.
unfoldable pub matches : ℕ → ℕ → ℕ → Capability → Bool
matches pid object_id required_rights cap =
    cap.owner_pid == pid
    && (cap.object_id == object_id || type_number cap.object_type == 4)
    && bit_and cap.rights required_rights == required_rights

module _ (seal : List ℕ → List ℕ) where
  -- `cap_compute_hmac`
  unfoldable pub compute_hmac : Capability → Capability
  compute_hmac cap = record cap { hmac = seal (sealed_bytes cap) }

  -- `cap_create`
  unfoldable pub create : ℕ → ℕ → ObjectType → ℕ → ℕ → ℕ → CapState → Capability × CapState
  create now object_id type owner_pid rights parent_cap_id s = (
    compute_hmac (record {
      cap_id = s.next_cap_id;
      object_id = object_id;
      object_type = type;
      owner_pid = owner_pid;
      rights = rights;
      hmac = replicate 32 0;
      parent_cap_id = parent_cap_id;
      created_at = now;
      expires_at = 0;
      revoked = false;
    }),
    record s { next_cap_id = (s.next_cap_id + 1) % 2 ^ 64 },
  )

  -- `cap_init`, after the key is drawn: the root capability is created and inserted.
  unfoldable pub init : ℕ → ℕ → CapState
  init now next_cap_id =
      let (root, s) = create now 0 ObjectType.system 0 cap_all 0 (record {
        next_cap_id = next_cap_id;
        cache = replicate cache_size zero_entry;
        table = Table.empty;
      }) in
      record s { table = (Table.insert root s.table).1 }

  -- The part of `cap_validate` behind the first two tests: the cache, then the seal.
  unfoldable pub check_seal : ℕ → Capability → CapState → Bool × CapState
  check_seal now cap s =
      let idx = cap.cap_id % cache_size in
      let entry = get_or s.cache idx zero_entry in
      let valid = hmac_verify cap.hmac (compute_hmac cap).hmac in
      if entry.occupied
        && entry.cap_id == cap.cap_id
        && ltb ((now + 2 ^ 64 - entry.validated_at) % 2 ^ 64) cache_ttl
      then (entry.valid, s)
      else (
        valid,
        record s {
          cache =
              set s.cache idx (record {
                cap_id = cap.cap_id;
                validated_at = now;
                valid = valid;
                occupied = true;
              });
        },
      )

  -- `cap_validate`
  unfoldable pub validate : ℕ → Capability → CapState → Bool × CapState
  validate now cap s =
      if cap.revoked
      then (false, s)
      else if not (cap.expires_at == 0) && ltb cap.expires_at now
      then (false, s)
      else check_seal now cap s

  -- One round of the loop of `cap_check`: whether it returns true, and the state after it.
  unfoldable pub check_one : ℕ → ℕ → ℕ → ℕ → Option Capability → CapState → Bool × CapState
  check_one now pid object_id rights none s = (false, s)
  check_one now pid object_id rights (some cap) s =
      if matches pid object_id rights cap then validate now cap s else (false, s)

  -- The loop of `cap_check`: `rounds` ids from `i` on.
  unfoldable pub check_from : ℕ → ℕ → ℕ → ℕ → ℕ → ℕ → CapState → Bool × CapState
  check_from zero i now pid object_id rights s = (false, s)
  check_from (suc rounds) i now pid object_id rights s =
      let r = check_one now pid object_id rights (Table.lookup i s.table) s in
      let rest = check_from rounds (i + 1) now pid object_id rights r.1 in if r.0 then r else rest

  -- `cap_check`
  unfoldable pub check : ℕ → ℕ → ℕ → ℕ → CapState → Bool × CapState
  check now pid object_id rights s =
      if pid == 0 then (true, s) else check_from (s.next_cap_id - 1) 1 now pid object_id rights s

  -- The end of `cap_grant`, once the parent has been found and validated.
  unfoldable pub grant_child : ℕ → ℕ → ℕ → ℕ → Capability → CapState → ErrorCode × CapState
  grant_child now cap_id target_pid rights parent s =
      let (child, s') =
        create now parent.object_id parent.object_type target_pid (bit_and rights parent.rights)
          cap_id s in
      let (e, t) = Table.insert child s'.table in (e, record s' { table = t })

  -- `cap_grant`
  unfoldable pub grant : ℕ → ℕ → ℕ → ℕ → ℕ → CapState → ErrorCode × CapState
  grant now granter_pid cap_id target_pid rights s = elim (Table.lookup cap_id s.table) [
    | none ↦ (ErrorCode.notfound, s)
    | some parent ↦
        let v = validate now parent s in
        if not (parent.owner_pid == granter_pid)
        then (ErrorCode.perm, s)
        else if not v.0
        then (ErrorCode.cap_invalid, v.1)
        else if bit_and parent.rights cap_grant_right == 0
        then (ErrorCode.perm, v.1)
        else grant_child now cap_id target_pid rights parent v.1
  ]

  -- `cap_delegate`
  unfoldable pub delegate : ℕ → ℕ → ℕ → ℕ → CapState → ErrorCode × CapState
  delegate now from_pid cap_id to_pid s = elim (Table.lookup cap_id s.table) [
    | none ↦ (ErrorCode.notfound, s)
    | some cap ↦
        let v = validate now cap s in
        if not (cap.owner_pid == from_pid)
        then (ErrorCode.perm, s)
        else if not v.0
        then (ErrorCode.cap_invalid, v.1)
        else (
          ErrorCode.ok,
          record (v.1) {
            table = Table.store cap_id (compute_hmac (record cap { owner_pid = to_pid })) v.1.table;
            cache = cache_invalidate cap_id v.1.cache;
          },
        )
  ]

-- The first part of `cap_revoke`: the entry is marked, and its validation forgotten.
unfoldable pub mark : ℕ → Capability → CapState → CapState
mark cap_id cap s = record s {
  table = Table.store cap_id (record cap { revoked = true }) s.table;
  cache = cache_invalidate cap_id s.cache;
}

-- The test of the loop of `cap_revoke`.
unfoldable pub live_child : ℕ → Option Capability → Bool
live_child cap_id none = false
live_child cap_id (some child) = child.parent_cap_id == cap_id && not child.revoked

-- The loop of `cap_revoke` over `rounds` ids from `i` on; `revoke_child` is the recursive call.
unfoldable pub cascade :
    ℕ → (ℕ → CapState → Option (ErrorCode × CapState)) → ℕ → ℕ → CapState → Option CapState
cascade zero revoke_child cap_id i s = some s
cascade (suc rounds) revoke_child cap_id i s =
    let rest = cascade rounds revoke_child cap_id (i + 1) s in
    if live_child cap_id (Table.lookup i s.table)
    then (elim (revoke_child i s) [
      | none ↦ none
      | some (e, s') ↦ cascade rounds revoke_child cap_id (i + 1) s'
    ])
    else rest

-- `cap_revoke`, with fuel for the depth of its recursion; `none` is fuel used up.
unfoldable pub revoke : ℕ → ℕ → ℕ → CapState → Option (ErrorCode × CapState)
revoke zero owner_pid cap_id s = none
revoke (suc fuel) owner_pid cap_id s = elim (Table.lookup cap_id s.table) [
  | none ↦ some (ErrorCode.notfound, s)
  | some cap ↦
      if not (cap.owner_pid == owner_pid) && not (owner_pid == 0)
      then some (ErrorCode.perm, s)
      else (elim (cascade (s.next_cap_id - 1) (revoke fuel owner_pid) cap_id 1
          (mark cap_id cap s)) [ none ↦ none | some s' ↦ some (ErrorCode.ok, s') ])
]
