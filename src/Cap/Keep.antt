-- ===== src/Cap/Keep.antt =====
-- Every operation of kernel/cap/capability.c keeps the table sealed.
use vault_os.Prelude.{
  ℕ, ◌+◌, ◌%◌, ◌≤◌, ◌<◌, List, ◌^◌, none, some, Bool, true, false, if◌then◌else◌, ◌==◌, ◌≡◌, refl,
  ap, ◌∙◌, sym, arith, not, replicate, get_or-replicate, length-replicate, inl, inr, Option-cases,
}
use Prim.Native.Nat.{bit_and}
use mathlib.Core.Path.{subst}
use vault_os.ErrorCode.{ErrorCode}
use vault_os.Cap.Table.{
  Capability, ObjectType, CapTable, zero_capability, lookup-store, lookup-insert, lookup-id,
  lookup-empty, lookup-range,
}
use vault_os.Cap.Table
use vault_os.Cap.{
  CapState, zero_entry, cache_invalidate, sealed_bytes, compute_hmac, create, init, validate,
  grant_child, grant, delegate, mark, cap_grant_right,
}
use vault_os.Cap.Sealed.{
  IsSealed, HasSeal, SameTable-IsSealed, validate-live, Writes-TableSealed, length-invalidate,
  invalidate-AllValid,
}

-- What holds on each way through three tests holds of the result.
three_tests {ℓ} :
    (P : ErrorCode × CapState → Type ℓ) (a b c : Bool) {w x y z : ErrorCode × CapState}
    → P w
    → P x
    → P y
    → P z
    → P (if a then w else if b then x else if c then y else z)
three_tests P true b c pw px py pz = pw
three_tests P false true c pw px py pz = px
three_tests P false false true pw px py pz = py
three_tests P false false false pw px py pz = pz

two_tests {ℓ} :
    (P : ErrorCode × CapState → Type ℓ) (a b : Bool) {w x y : ErrorCode × CapState}
    → P w
    → P x
    → P y
    → P (if a then w else if b then x else y)
two_tests P true b pw px py = pw
two_tests P false true pw px py = px
two_tests P false false pw px py = py

module _ (seal : List ℕ → List ℕ) where
  pub create-HasSeal :
      (now object_id : ℕ) (type : ObjectType) (owner_pid rights parent : ℕ) (s : CapState)
      → HasSeal seal (create seal now object_id type owner_pid rights parent s).0
  unfolding create compute_hmac sealed_bytes
  create-HasSeal now object_id type owner_pid rights parent s = refl

  insert-IsSealed :
      (cap : Capability) (s : CapState) (next : ℕ)
      → HasSeal seal cap
      → IsSealed seal s
      → IsSealed seal (record s { next_cap_id = next; table = (Table.insert cap s.table).1 })
  insert-IsSealed cap s next sealed v = record {
    slots = Table.insert-IsValid cap s.table v.slots;
    cache_slots = v.cache_slots;
    entries =
        Writes-TableSealed seal cap s.table (Table.insert cap s.table).1
          (Table.insert-Writes cap s.table v.slots) sealed v.entries;
    remembered = v.remembered;
  }

  pub grant_child-IsSealed :
      (now id target rights : ℕ) (parent : Capability) (s : CapState)
      → IsSealed seal s
      → IsSealed seal (grant_child seal now id target rights parent s).1
  unfolding grant_child create
  grant_child-IsSealed now id target rights parent s v =
      insert-IsSealed _ s ((s.next_cap_id + 1) % 2 ^ 64) (unfold compute_hmac sealed_bytes in refl)
        v

  -- `cap_grant` keeps the state sealed, on every path.
  pub grant-IsSealed :
      (now granter id target rights : ℕ) (s : CapState)
      → IsSealed seal s
      → IsSealed seal (grant seal now granter id target rights s).1
  unfolding grant
  grant-IsSealed now granter id target rights s v = elim (Option-cases (Table.lookup id s.table)) [
    | inl e ↦ rw (e, grant) v
    | inr (parent, e) ↦
        let w =
          SameTable-IsSealed seal s (validate seal now parent s).1
            (validate-live seal now parent s v (v.entries id parent e)).1 v in
        let c = grant_child-IsSealed now id target rights parent (validate seal now parent s).1 w in
        rw (e, grant)
          (three_tests (λ r. IsSealed seal r.1) (not (parent.owner_pid == granter))
            (not (validate seal now parent s).0) (bit_and parent.rights cap_grant_right == 0) v w w
            c)
  ]

  store-IsSealed :
      (cap : Capability) (s : CapState)
      → HasSeal seal cap
      → 0 < cap.cap_id
      → cap.cap_id ≤ 1024
      → IsSealed seal s
      → IsSealed seal (record s {
        table = Table.store cap.cap_id cap s.table;
        cache = cache_invalidate cap.cap_id s.cache;
      })
  store-IsSealed cap s sealed lo hi v = record {
    slots = Table.store-IsValid cap.cap_id cap s.table v.slots;
    cache_slots = length-invalidate cap.cap_id s.cache ∙ v.cache_slots;
    entries =
        Writes-TableSealed seal cap s.table (Table.store cap.cap_id cap s.table)
          (Table.store-Writes cap s.table v.slots lo hi) sealed v.entries;
    remembered = invalidate-AllValid cap.cap_id s.cache v.remembered;
  }

  -- The same through the id under which the entry was found.
  stored-IsSealed :
      (id : ℕ) (old cap : Capability) (s : CapState)
      → Table.lookup id s.table ≡ some old
      → cap.cap_id ≡ old.cap_id
      → HasSeal seal cap
      → IsSealed seal s
      → IsSealed seal
          (record s { table = Table.store id cap s.table; cache = cache_invalidate id s.cache })
  stored-IsSealed id old cap s found same sealed v =
      let at_id : cap.cap_id ≡ id = same ∙ lookup-id id s.table old found in
      let (lo, hi) = lookup-range id s.table old found in
      subst
        (λ k.
          IsSealed seal
            (record s { table = Table.store k cap s.table; cache = cache_invalidate k s.cache }))
        at_id (store-IsSealed cap s sealed (omega arith) (omega arith) v)

  -- Marking an entry as revoked keeps the table sealed: the seal does not cover the mark.
  pub mark-IsSealed :
      (id : ℕ) (cap : Capability) (s : CapState)
      → Table.lookup id s.table ≡ some cap
      → IsSealed seal s
      → IsSealed seal (mark id cap s)
  unfolding mark sealed_bytes
  mark-IsSealed id cap s found v =
      stored-IsSealed id cap (record cap { revoked = true }) s found refl (v.entries id cap found) v

  -- `cap_delegate` keeps the state sealed, on every path: the entry is sealed anew for its new owner.
  pub delegate-IsSealed :
      (now from id to : ℕ) (s : CapState)
      → IsSealed seal s
      → IsSealed seal (delegate seal now from id to s).1
  unfolding delegate
  delegate-IsSealed now from id to s v = elim (Option-cases (Table.lookup id s.table)) [
    | inl e ↦ rw (e, delegate) v
    | inr (cap', e) ↦
        let same = (validate-live seal now cap' s v (v.entries id cap' e)).1 in
        let w = SameTable-IsSealed seal s (validate seal now cap' s).1 same v in
        let found : Table.lookup id (validate seal now cap' s).1.table ≡ some cap' =
          subst (λ t. Table.lookup id t ≡ some cap') (sym same.table) e in
        rw (e, delegate)
          (two_tests (λ r. IsSealed seal r.1) (not (cap'.owner_pid == from))
            (not (validate seal now cap' s).0) v w
            (stored-IsSealed id cap' (compute_hmac seal (record cap' { owner_pid = to }))
              (validate seal now cap' s).1 found (unfold compute_hmac in refl)
              (unfold compute_hmac sealed_bytes in refl) w))
  ]

  -- The state that `cap_init` leaves at boot, where the first id is 1, is sealed.
  pub init-IsSealed : (now : ℕ) → IsSealed seal (init seal now 1)
  unfolding init create
  init-IsSealed now =
      insert-IsSealed _
        (record { next_cap_id = 1; cache = replicate 64 zero_entry; table = Table.empty }) 2
        (unfold compute_hmac sealed_bytes in refl)
        (record {
          slots = Table.empty-IsValid;
          cache_slots = length-replicate 64 zero_entry;
          entries = λ i c e. absurd_lookup (sym (lookup-empty i) ∙ e);
          remembered = λ k e.
              absurd_entry (ap (λ x. x.occupied) (sym (get_or-replicate 64 k zero_entry)) ∙ e);
        })
    where
      absurd_lookup : {A : Type 0} {c : Capability} → none ≡ some c → A
      absurd_lookup e = cc

      absurd_entry : {A : Type 0} → false ≡ true → A
      absurd_entry e = cc
