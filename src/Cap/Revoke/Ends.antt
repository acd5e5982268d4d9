-- ===== src/Cap/Revoke/Ends.antt =====
-- `cap_revoke` of kernel/cap/capability.c ends, whichever process it is called for.
use mathlib.Core.Path.{subst}
use vault_os.Prelude.{
  ℕ, zero, suc, ◌+◌, ◌-◌, ◌≤◌, ◌<◌, Option, none, some, true, ◌==◌, ◌≡◌, refl, ap, ◌∙◌, sym, arith,
  ◌&&◌, not, Option-cases, Bool-cases, inl, inr,
}
use vault_os.ErrorCode.{ErrorCode}
use vault_os.Cap.Table.{Capability}
use vault_os.Cap.Table
use vault_os.Cap.{CapState, mark, live_child, cascade, revoke}
use vault_os.Cap.Revoke.{
  unrevoked, Extends, Extends-refl, Extends-trans, mark-Extends, unrevoked-le, unrevoked-le-rounds,
}
use vault_os.Cap.Revoke.Cascade.{live_entries}
use vault_os.Cap.Revoke.Total.{no_live, fewer}

-- A call ends, in a state with the same entries of which no mark is taken back.
abbrev pub CallEnds : CapState → Option (ErrorCode × CapState) → Type 0
CallEnds s r = (e : ErrorCode) × (s' : CapState) × (r ≡ some (e, s')) × Extends s s'

abbrev LoopEnds : CapState → Option CapState → Type 0
LoopEnds s r = (s' : CapState) × (r ≡ some s') × Extends s s'

-- What the loop asks of the recursive call.
abbrev ChildEnds : ℕ → ℕ → (ℕ → CapState → Option (ErrorCode × CapState)) → Type 0
ChildEnds id budget call =
    (k : ℕ) (s : CapState)
    → Table.IsValid s.table
    → live_child id (Table.lookup k s.table) ≡ true
    → 1 ≤ k
    → k < s.next_cap_id
    → live_entries s ≤ budget
    → CallEnds s (call k s)

child-LoopEnds :
    (rounds id : ℕ) (call : ℕ → CapState → Option (ErrorCode × CapState)) (i : ℕ) (s : CapState)
    (r : Option (ErrorCode × CapState))
    → CallEnds s r
    → ((s' : CapState) → Extends s s' → LoopEnds s' (cascade rounds call id (i + 1) s'))
    → LoopEnds s (elim r [ none ↦ none | some (e, s') ↦ cascade rounds call id (i + 1) s' ])
child-LoopEnds rounds id call i s r (e, s', run, x) rest =
    let (t, run', x') = rest s' x in (t, rw run run', Extends-trans x x')

cascade-LoopEnds :
    (rounds id budget : ℕ) (call : ℕ → CapState → Option (ErrorCode × CapState)) (i : ℕ)
    (s : CapState)
    → ChildEnds id budget call
    → Table.IsValid s.table
    → live_entries s ≤ budget
    → 1 ≤ i
    → i + rounds ≡ s.next_cap_id
    → LoopEnds s (cascade rounds call id i s)
unfolding cascade
cascade-LoopEnds zero id budget call i s ih slots small lo end = (s, refl, Extends-refl s)
cascade-LoopEnds (suc rounds) id budget call i s ih slots small lo end =
    elim (Bool-cases (live_child id (Table.lookup i s.table))) [
      | inl live ↦ rw live (
          child-LoopEnds rounds id call i s (call i s) (ih i s slots live lo (omega arith) small)
            (λ s' x.
              cascade-LoopEnds rounds id budget call (i + 1) s' ih (x.slots slots)
                (subst (λ n. unrevoked (n - 1) 1 s'.table ≤ budget) (sym x.next_cap_id)
                  (omega (arith, unrevoked-le (s.next_cap_id - 1) 1 x)))
                (omega arith) (let e = x.next_cap_id in omega arith)))
      | inr dead ↦ rw dead (
          cascade-LoopEnds rounds id budget call (i + 1) s ih slots small (omega arith)
            (omega arith))
    ]

marked-CallEnds :
    (id : ℕ) (c : Capability) (s : CapState) (r : Option CapState)
    → Table.IsValid s.table
    → Table.lookup id s.table ≡ some c
    → LoopEnds (mark id c s) r
    → CallEnds s (elim r [ none ↦ none | some s' ↦ some (ErrorCode.ok, s') ])
marked-CallEnds id c s r slots found (s', run, x) =
    (ErrorCode.ok, s', rw run refl, Extends-trans (mark-Extends id c s slots found) x)

-- One call, from what its recursive calls do.
revoke-CallEnds :
    (fuel owner id : ℕ) (c : Capability) (s : CapState)
    → ChildEnds id fuel (revoke fuel owner)
    → Table.IsValid s.table
    → Table.lookup id s.table ≡ some c
    → 0 < s.next_cap_id
    → live_entries (mark id c s) ≤ fuel
    → CallEnds s (revoke (suc fuel) owner id s)
unfolding revoke
revoke-CallEnds fuel owner id c s ih slots found pos enough =
    let x = mark-Extends id c s slots found in
    elim (Bool-cases (not (c.owner_pid == owner) && not (owner == 0))) [
      | inl refused ↦ rw (found, revoke) (rw refused (ErrorCode.perm, s, refl, Extends-refl s))
      | inr allowed ↦
          rw (found, revoke)
            (rw allowed (
              marked-CallEnds id c s
                (cascade (s.next_cap_id - 1) (revoke fuel owner) id 1 (mark id c s)) slots found
                (cascade-LoopEnds (s.next_cap_id - 1) id fuel (revoke fuel owner) 1 (mark id c s) ih
                  (x.slots slots) enough (omega arith) (let e = x.next_cap_id in omega arith))))
    ]

child-ChildEnds : (fuel owner parent : ℕ) → ChildEnds parent fuel (revoke fuel owner)
child-ChildEnds zero owner parent k s slots live lo hi small =
    elim (Option-cases (Table.lookup k s.table)) [
      | inl e ↦ absurd (no_live parent (ap (live_child parent) (sym e) ∙ live))
      | inr (c, e) ↦ absurd (omega (arith, fewer parent k c s slots e live lo hi))
    ]
child-ChildEnds (suc fuel) owner parent k s slots live lo hi small =
    elim (Option-cases (Table.lookup k s.table)) [
      | inl e ↦ absurd (no_live parent (ap (live_child parent) (sym e) ∙ live))
      | inr (c, e) ↦
          let less = fewer parent k c s slots e live lo hi in
          revoke-CallEnds fuel owner k c s (child-ChildEnds fuel owner k) slots e (omega arith)
            (omega arith)
    ]

-- `next_cap_id` nested calls are enough for any call.
pub revoke_ends :
    (owner id : ℕ) (s : CapState)
    → Table.IsValid s.table
    → 0 < s.next_cap_id
    → CallEnds s (revoke s.next_cap_id owner id s)
revoke_ends owner id s slots pos =
    let fuel : suc (s.next_cap_id - 1) ≡ s.next_cap_id = omega arith in
    subst (λ n. CallEnds s (revoke n owner id s)) fuel
      (elim (Option-cases (Table.lookup id s.table)) [
        | inl missing ↦
            unfold revoke in rw (missing, revoke) (ErrorCode.notfound, s, refl, Extends-refl s)
        | inr (c, found) ↦
            let x = mark-Extends id c s slots found in
            revoke-CallEnds (s.next_cap_id - 1) owner id c s
              (child-ChildEnds (s.next_cap_id - 1) owner id) slots found pos
              (subst (λ n. unrevoked (n - 1) 1 (mark id c s).table ≤ s.next_cap_id - 1)
                (sym x.next_cap_id) (unrevoked-le-rounds (s.next_cap_id - 1) 1 (mark id c s).table))
      ])
