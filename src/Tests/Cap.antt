-- ===== src/Tests/Cap.antt =====
-- kernel/cap with a table of two capabilities.
use vault_os.Prelude.{
  ℕ, zero, suc, List, [], ◌∷◌, ◌-◌, some, none, true, false, ◌==◌, ◌≡◌, ◌↔◌, refl, arith, take,
  replicate, get_or-replicate, if◌then◌else◌, get_or, ap,
}
use vault_os.ErrorCode.{ErrorCode}
use vault_os.Cap.Table.{
  Capability, CapTable, zero_capability, empty, empty-IsValid, lookup, remove, lookup-remove,
}
use vault_os.Cap.{
  CapState, zero_entry, sealed_bytes, init, validate, grant, delegate, check, revoke,
}
use vault_os.Cap.Seal.{hmac_verify, hmac_verify_sound}
use vault_os.Cap.Sealed.{IsSealed, HasSeal, SameTable, live, validate-live}
use vault_os.Cap.Keep.{init-IsSealed, grant-IsSealed, delegate-IsSealed}
use vault_os.Cap.Permit.{Granted}
use vault_os.Cap.Check.{check_iff}
use vault_os.Cap.Revoke.{Extends, revoked_at, flag, origin}
use vault_os.Cap.Revoke.Cascade.{Bounded}
use vault_os.Cap.Revoke.Total.{Cascaded, revoke_cascades}
use vault_os.Cap.Revoke.Foreign.{Keeps, revoke-Keeps}

-- A seal of 32 bytes.
abbrev plain : List ℕ → List ℕ
plain bytes = take 32 bytes

lookup-remove_example : lookup 2 (remove 1 empty).1 ≡ (if 2 == 1 then none else lookup 2 empty)
lookup-remove_example = lookup-remove 1 2 empty empty-IsValid

abbrev four : List ℕ
four = 1 ∷ 2 ∷ 3 ∷ 4 ∷ []

four_verify : hmac_verify four four ≡ true
unfolding hmac_verify
four_verify = refl

hmac_verify_sound_example : four ≡ four
hmac_verify_sound_example = hmac_verify_sound four four refl four_verify

init-IsSealed_example : IsSealed plain (init plain 5 1)
init-IsSealed_example = init-IsSealed plain 5

abbrev booted : CapState
booted = init plain 0 1

grant-IsSealed_example : IsSealed plain (grant plain 3 0 1 2 31 booted).1
grant-IsSealed_example = grant-IsSealed plain 3 0 1 2 31 booted (init-IsSealed plain 0)

delegate-IsSealed_example : IsSealed plain (delegate plain 4 0 1 2 booted).1
delegate-IsSealed_example = delegate-IsSealed plain 4 0 1 2 booted (init-IsSealed plain 0)

abbrev parent : Capability
parent = record zero_capability {
  cap_id = 1;
  owner_pid = 1;
  rights = 63;
  hmac = plain (sealed_bytes (record zero_capability { cap_id = 1; owner_pid = 1; rights = 63 }));
}

parent-HasSeal : HasSeal plain parent
unfolding sealed_bytes
parent-HasSeal = refl

validate-live_example :
    let r = validate plain 9 parent booted in (r.0 ≡ live 9 parent) × SameTable plain booted r.1
validate-live_example = validate-live plain 9 parent booted (init-IsSealed plain 0) parent-HasSeal

check_iff_example :
    ((check plain 3 2 0 1 booted).0 ≡ true) ↔ Granted booted.next_cap_id 3 2 0 1 booted.table
check_iff_example = check_iff plain 3 2 0 1 booted (init-IsSealed plain 0) (omega arith)

-- Derived from `parent` for another process.
abbrev child : Capability
child = record parent { cap_id = 2; owner_pid = 2; parent_cap_id = 1 }

abbrev two_caps : CapState
two_caps = record {
  next_cap_id = 3;
  cache = replicate 64 zero_entry;
  table = record { slots = parent ∷ child ∷ replicate 1022 zero_capability; count = 2 };
}

lookup-vacant :
    (i : ℕ) (t : CapTable)
    → get_or t.slots i zero_capability ≡ zero_capability
    → lookup (suc i) t ≡ none
unfolding lookup
lookup-vacant i t vacant =
    let index : suc i - 1 ≡ i = omega arith in
    ground (arith, ap (λ k. get_or t.slots k zero_capability) index)

beyond : (n : ℕ) → lookup (suc (suc (suc n))) two_caps.table ≡ none
beyond n = lookup-vacant (suc (suc n)) two_caps.table (get_or-replicate 1022 n zero_capability)

nothing_revoked : (j : ℕ) → revoked_at j two_caps.table ≡ false
unfolding lookup flag
nothing_revoked zero = refl
nothing_revoked (suc zero) = refl
nothing_revoked (suc (suc zero)) = refl
nothing_revoked (suc (suc (suc n))) = ap flag (beyond n)

two_caps-Cascaded : Cascaded two_caps.table
two_caps-Cascaded j k marked derived = let never = nothing_revoked j in cc

two_caps-Bounded : Bounded two_caps
unfolding lookup origin
two_caps-Bounded zero h = absurd (omega arith)
two_caps-Bounded (suc zero) h = absurd (omega arith)
two_caps-Bounded (suc (suc zero)) h = absurd (omega arith)
two_caps-Bounded (suc (suc (suc n))) h = ap origin (beyond n)

parent-found : lookup 1 two_caps.table ≡ some parent
unfolding lookup
parent-found = refl

revoke_cascades_example :
    (s' : CapState) × (revoke 3 0 1 two_caps ≡ some (ErrorCode.ok, s'))
    × Extends two_caps s'
    × Cascaded s'.table
    × (revoked_at 1 s'.table ≡ true)
revoke_cascades_example =
    revoke_cascades 1 parent two_caps refl two_caps-Cascaded two_caps-Bounded (omega arith)
      parent-found

child-Keeps : Keeps 2 child two_caps
unfolding lookup
child-Keeps = (refl, refl)

revoke-Keeps_example :
    (e : ErrorCode) × (s' : CapState) × (revoke 3 1 1 two_caps ≡ some (e, s')) × Keeps 2 child s'
revoke-Keeps_example =
    revoke-Keeps 1 2 child 1 two_caps (omega arith) (omega arith) child-Keeps (omega arith)
