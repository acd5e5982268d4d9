-- ===== src/Cap/Table.antt =====
-- kernel/cap/cap_table.c with include/vaultos/capability_types.h: the table of capabilities.
-- A pointer into the table is the id of the entry that it points to.
use vault_os.Prelude.{
  ℕ, ◌+◌, ◌-◌, ◌%◌, ◌^◌, ◌≤◌, ◌<◌, List, Option, none, some, Bool, true, false, if◌then◌else◌, ◌==◌,
  ◌≡◌, refl, ltb, leb, arith, length, get_or, set, replicate, ◌||◌, not, length-set,
  length-replicate, get_or-set_self, get_or-set_ne, get_or-replicate, Bool-cases, inl, inr, ==→eq,
  ◌⊎◌,
}
use vault_os.ErrorCode.{ErrorCode}

-- `cap_object_type_t`
pub data ObjectType : Type 0 where
  table_row table process device system : ObjectType

-- `capability_t`
pub record Capability : Type 0 where
  pub cap_id : ℕ
  pub object_id : ℕ
  pub object_type : ObjectType
  pub owner_pid : ℕ
  pub rights : ℕ
  pub hmac : List ℕ
  pub parent_cap_id : ℕ
  pub created_at : ℕ
  pub expires_at : ℕ
  pub revoked : Bool

-- An entry of zero bytes.
abbrev pub zero_capability : Capability
zero_capability = record {
  cap_id = 0;
  object_id = 0;
  object_type = ObjectType.table_row;
  owner_pid = 0;
  rights = 0;
  hmac = replicate 32 0;
  parent_cap_id = 0;
  created_at = 0;
  expires_at = 0;
  revoked = false;
}

-- `CAP_TABLE_SIZE`
abbrev pub table_size : ℕ
table_size = 1024

-- The static variables of cap_table.c.
pub record CapTable : Type 0 where
  pub slots : List Capability
  pub count : ℕ

unfoldable pub empty : CapTable
empty = record { slots = replicate table_size zero_capability; count = 0 }

abbrev pub bad_id : ℕ → Bool
bad_id cap_id = cap_id == 0 || ltb table_size cap_id

-- `cap_table_insert`
unfoldable pub insert : Capability → CapTable → ErrorCode × CapTable
insert cap t =
    if leb table_size t.count
    then (ErrorCode.full, t)
    else if bad_id cap.cap_id
    then (ErrorCode.full, t)
    else (ErrorCode.ok, record t { slots = set t.slots (cap.cap_id - 1) cap; count = t.count + 1 })

-- `cap_table_lookup`
unfoldable pub lookup : ℕ → CapTable → Option Capability
lookup cap_id t =
    if bad_id cap_id
    then none
    else let cap = get_or t.slots (cap_id - 1) zero_capability in
      if cap.cap_id == cap_id then some cap else none

-- `cap_table_remove`; `count--` wraps.
unfoldable pub remove : ℕ → CapTable → ErrorCode × CapTable
remove cap_id t =
    if bad_id cap_id
    then (ErrorCode.notfound, t)
    else if not ((get_or t.slots (cap_id - 1) zero_capability).cap_id == cap_id)
    then (ErrorCode.notfound, t)
    else (
      ErrorCode.ok,
      record {
        slots = set t.slots (cap_id - 1) zero_capability;
        count = (t.count + 2 ^ 64 - 1) % 2 ^ 64;
      },
    )

-- A write of a whole entry through a pointer that `lookup` returned.
unfoldable pub store : ℕ → Capability → CapTable → CapTable
store cap_id cap t = record t { slots = set t.slots (cap_id - 1) cap }

abbrev pub IsValid : CapTable → Type 0
IsValid t = length t.slots ≡ table_size

pub empty-IsValid : IsValid empty
unfolding empty
empty-IsValid = length-replicate 1024 zero_capability

pub store-IsValid :
    (id : ℕ) (cap : Capability) (t : CapTable) → IsValid t → IsValid (store id cap t)
unfolding store
store-IsValid id cap t v = rw length-set v

pub insert-IsValid : (cap : Capability) (t : CapTable) → IsValid t → IsValid (insert cap t).1
unfolding insert
insert-IsValid cap t v = ground (arith, length-set t.slots (cap.cap_id - 1) cap)

pub remove-IsValid : (id : ℕ) (t : CapTable) → IsValid t → IsValid (remove id t).1
unfolding remove
remove-IsValid id t v = ground (arith, length-set t.slots (id - 1) zero_capability)

-- What a successful lookup says of the id and the entry.
pub lookup-id : (id : ℕ) (t : CapTable) (c : Capability) → lookup id t ≡ some c → c.cap_id ≡ id
unfolding lookup
lookup-id id t c h = ground arith

pub lookup-range :
    (id : ℕ) (t : CapTable) (c : Capability) → lookup id t ≡ some c → (0 < id) × (id ≤ 1024)
unfolding lookup
lookup-range id t c h = ground arith

-- A write through a pointer, read back.
pub lookup-store :
    (id j : ℕ) (cap : Capability) (t : CapTable)
    → IsValid t
    → cap.cap_id ≡ id
    → 0 < id
    → id ≤ 1024
    → lookup j (store id cap t) ≡ (if j == id then some cap else lookup j t)
unfolding lookup store
lookup-store id j cap t v e lo hi = elim (Bool-cases (j == id)) [
  | inl same ↦
      let s = ==→eq j id same in
      ground (arith, get_or-set_self t.slots (id - 1) cap zero_capability)
  | inr other ↦ ground (arith, get_or-set_ne t.slots (id - 1) (j - 1) cap zero_capability)
]

pub lookup-insert :
    (j : ℕ) (cap : Capability) (t : CapTable)
    → IsValid t
    → (insert cap t).0 ≡ ErrorCode.ok
    → lookup j (insert cap t).1 ≡ (if j == cap.cap_id then some cap else lookup j t)
unfolding insert lookup
lookup-insert j cap t v h = ground (
  arith,
  get_or-set_self t.slots (cap.cap_id - 1) cap zero_capability,
  get_or-set_ne t.slots (cap.cap_id - 1) (j - 1) cap zero_capability,
)

-- Every id is looked up in the new table as in the old one, or gives the entry written.
abbrev pub Writes : Capability → CapTable → CapTable → Type 0
Writes cap t t' = (j : ℕ) → (lookup j t' ≡ lookup j t) ⊎ (lookup j t' ≡ some cap)

pub insert-Writes : (cap : Capability) (t : CapTable) → IsValid t → Writes cap t (insert cap t).1
unfolding insert lookup
insert-Writes cap t v j = ground (
  arith,
  get_or-set_self t.slots (cap.cap_id - 1) cap zero_capability,
  get_or-set_ne t.slots (cap.cap_id - 1) (j - 1) cap zero_capability,
)

pub store-Writes :
    (cap : Capability) (t : CapTable)
    → IsValid t
    → 0 < cap.cap_id
    → cap.cap_id ≤ 1024
    → Writes cap t (store cap.cap_id cap t)
store-Writes cap t v lo hi j =
    either (j == cap.cap_id) (lookup-store cap.cap_id j cap t v refl lo hi)
  where
    either :
        (b : Bool)
        → lookup j (store cap.cap_id cap t) ≡ (if b then some cap else lookup j t)
        → (lookup j (store cap.cap_id cap t) ≡ lookup j t)
          ⊎ (lookup j (store cap.cap_id cap t) ≡ some cap)
    either true h = inr h
    either false h = inl h

pub lookup-zero : (t : CapTable) → lookup 0 t ≡ none
unfolding lookup
lookup-zero t = refl

pub lookup-empty : (id : ℕ) → lookup id empty ≡ none
unfolding lookup empty
lookup-empty id = ground (arith, get_or-replicate 1024 (id - 1) zero_capability)

-- On a table of 1024 slots: after `cap_table_remove` the id is gone and every other id is looked
-- up as before, whether or not the id was there.
pub lookup-remove :
    (id j : ℕ) (t : CapTable)
    → IsValid t
    → lookup j (remove id t).1 ≡ (if j == id then none else lookup j t)
unfolding remove lookup
lookup-remove id j t v = ground (
  arith,
  get_or-set_self t.slots (id - 1) zero_capability zero_capability,
  get_or-set_ne t.slots (id - 1) (j - 1) zero_capability zero_capability,
)
