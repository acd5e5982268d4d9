-- ===== src/Cap/Permit.antt =====
-- When a capability of kernel/cap/capability.c permits a request, apart from the code of `cap_check`.
use mathlib.Core.Path.{subst}
use vault_os.Prelude.{ℕ, ◌≤◌, ◌<◌, some, true, false, ◌≡◌, refl, sym, arith, inl, inr}
use vault_os.Cap.Table.{Capability, CapTable, ObjectType}
use vault_os.Cap.Table
use Prim.Native.Nat.{bit_and}
use vault_os.Prelude.{◌⊎◌}
use vault_os.Cap.{type_number, matches}
use vault_os.Cap.Sealed.{live}

-- The capability is the process's, for the object or for the system, with all the rights.
abbrev pub Permits : ℕ → ℕ → ℕ → Capability → Type 0
Permits pid object_id rights c =
    (c.owner_pid ≡ pid)
    × ((c.object_id ≡ object_id) ⊎ (c.object_type ≡ ObjectType.system))
    × (bit_and c.rights rights ≡ rights)

-- Neither revoked nor past its expiry.
abbrev pub Unspent : ℕ → Capability → Type 0
Unspent now c = (c.revoked ≡ false) × ((c.expires_at ≡ 0) ⊎ (now ≤ c.expires_at))

-- Some id below `next` names a capability that permits the request, and is neither revoked nor
-- expired.
abbrev pub Granted : ℕ → ℕ → ℕ → ℕ → ℕ → CapTable → Type 0
Granted next now pid object_id rights t =
    (i : ℕ) × (c : Capability) × (1 ≤ i)
    × (i < next)
    × (Table.lookup i t ≡ some c)
    × Permits pid object_id rights c
    × Unspent now c

system-type_number : (t : ObjectType) → type_number t ≡ 4 → t ≡ ObjectType.system
unfolding type_number
system-type_number ObjectType.table_row h = absurd (omega arith)
system-type_number ObjectType.table h = absurd (omega arith)
system-type_number ObjectType.process h = absurd (omega arith)
system-type_number ObjectType.device h = absurd (omega arith)
system-type_number ObjectType.system h = refl

pub matches→Permits :
    (pid object_id rights : ℕ) (c : Capability)
    → matches pid object_id rights c ≡ true
    → Permits pid object_id rights c
unfolding matches
matches→Permits pid object_id rights c h = ground (arith, system-type_number c.object_type)

pub Permits→matches :
    (pid object_id rights : ℕ) (c : Capability)
    → Permits pid object_id rights c
    → matches pid object_id rights c ≡ true
unfolding matches
Permits→matches pid object_id rights c (owner, inl same, enough) = ground arith
Permits→matches pid object_id rights c (owner, inr system, enough) =
    let number : type_number c.object_type ≡ 4 =
      subst (λ t. type_number t ≡ 4) (sym system) (unfold type_number in refl) in
    ground arith

pub live→Unspent : (now : ℕ) (c : Capability) → live now c ≡ true → Unspent now c
unfolding live
live→Unspent now c h = ground arith

pub Unspent→live : (now : ℕ) (c : Capability) → Unspent now c → live now c ≡ true
unfolding live
Unspent→live now c (kept, inl never) = ground arith
Unspent→live now c (kept, inr early) = ground arith
