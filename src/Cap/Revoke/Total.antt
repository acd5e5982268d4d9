-- ===== src/Cap/Revoke/Total.antt =====
-- `cap_revoke` of kernel/cap/capability.c, called for the kernel, ends and reaches every descendant.
use mathlib.Core.Path.{subst}
use vault_os.Prelude.{
  ℕ, zero, suc, ◌-◌, ◌≤◌, ◌<◌, Option, none, some, Bool, true, false, ◌==◌, ◌≡◌, ◌≢◌, refl, ap, ◌∙◌,
  sym, arith, ◌&&◌, not, Option-cases, inl, inr, eq→==,
}
use vault_os.ErrorCode.{ErrorCode}
use vault_os.Cap.Table.{Capability, CapTable, lookup-zero}
use vault_os.Cap.Table
use vault_os.Cap.{CapState, mark, live_child, cascade, revoke}
use vault_os.Cap.Revoke.{
  revoked_at, child_at, origin, derives, unrevoked, Extends, Extends-trans, revoked_at-mark,
  mark-Extends, unrevoked-lt, unrevoked-le-rounds,
}
use vault_os.Cap.Revoke.Cascade.{
  Bounded, Inv, also, Revokes, Cascades, live_entries, ChildCall, mark-Inv, cascade_lem, close-Inv,
}

-- No entry stands under the id 0.
no_zero : (id k : ℕ) (t : CapTable) → k ≡ 0 → child_at id k t ≡ true → revoked_at k t ≡ true
unfolding derives origin
no_zero id k t e child = ground (arith, ap (λ n. Table.lookup n t) e, lookup-zero t)

pub no_live : (id : ℕ) → live_child id none ≢ true
unfolding live_child
no_live id h = cc

revoke-done :
    (open_ids : ℕ → Bool) (id : ℕ) (c : Capability) (s : CapState) (r : Option CapState)
    → Table.lookup id s.table ≡ some c
    → Inv open_ids s
    → Cascades (also id open_ids) id (mark id c s) r
    → Revokes open_ids id s (elim r [ none ↦ none | some s' ↦ some (ErrorCode.ok, s') ])
revoke-done open_ids id c s r found v (s', run, x, w, children) =
    let first = mark-Extends id c s v.slots found in
    (
      s',
      rw run refl,
      Extends-trans first x,
      close-Inv open_ids id s' w (λ k h. children k (subst (λ n. k < n) x.next_cap_id h)),
      x.marks id (revoked_at-mark id c s v.slots found id ∙ rw (eq→== id id refl) refl),
    )

-- One call, from what its recursive calls do.
revoke-step :
    (fuel : ℕ) (open_ids : ℕ → Bool) (id : ℕ) (c : Capability) (s : CapState)
    → ((ids : ℕ → Bool) (parent : ℕ) → ChildCall ids parent fuel (revoke fuel 0))
    → Table.lookup id s.table ≡ some c
    → Inv open_ids s
    → 0 < s.next_cap_id
    → live_entries (mark id c s) ≤ fuel
    → Revokes open_ids id s (revoke (suc fuel) 0 id s)
unfolding revoke
revoke-step fuel open_ids id c s ih found v pos enough =
    let kernel : (not (c.owner_pid == 0) && not (0 == 0)) ≡ false = ground arith in
    let x = mark-Extends id c s v.slots found in
    rw (found, revoke, kernel)
      (revoke-done open_ids id c s (cascade (s.next_cap_id - 1) (revoke fuel 0) id 1 (mark id c s))
        found v
        (cascade_lem (s.next_cap_id - 1) (also id open_ids) id fuel (revoke fuel 0) 1 (mark id c s)
          (ih (also id open_ids) id) (mark-Inv open_ids id c s found v) enough (omega arith)
          (let e = x.next_cap_id in omega arith)
          (λ k h child. no_zero id k (mark id c s).table (omega arith) child)))

pub fewer :
    (parent k : ℕ) (c : Capability) (s : CapState)
    → Table.IsValid s.table
    → Table.lookup k s.table ≡ some c
    → live_child parent (Table.lookup k s.table) ≡ true
    → 1 ≤ k
    → k < s.next_cap_id
    → live_entries (mark k c s) < live_entries s
fewer parent k c s slots found live lo hi =
    let x = mark-Extends k c s slots found in
    subst (λ n. unrevoked (n - 1) 1 (mark k c s).table < live_entries s) (sym x.next_cap_id)
      (unrevoked-lt (s.next_cap_id - 1) 1 k parent x lo (omega arith) live
        (revoked_at-mark k c s slots found k ∙ rw (eq→== k k refl) refl))

-- With fuel for the live entries the recursive calls end.
call_lem : (fuel : ℕ) (ids : ℕ → Bool) (parent : ℕ) → ChildCall ids parent fuel (revoke fuel 0)
call_lem zero ids parent k s v live lo hi small = elim (Option-cases (Table.lookup k s.table)) [
  | inl e ↦ absurd (no_live parent (ap (live_child parent) (sym e) ∙ live))
  | inr (c, e) ↦ absurd (omega (arith, fewer parent k c s v.slots e live lo hi))
]
call_lem (suc fuel) ids parent k s v live lo hi small =
    elim (Option-cases (Table.lookup k s.table)) [
      | inl e ↦ absurd (no_live parent (ap (live_child parent) (sym e) ∙ live))
      | inr (c, e) ↦
          let less = fewer parent k c s v.slots e live lo hi in
          revoke-step fuel ids k c s (call_lem fuel) e v (omega arith) (omega arith)
    ]

abbrev nothing : ℕ → Bool
nothing j = false

-- Every capability derived from a revoked one is revoked.
abbrev pub Cascaded : CapTable → Type 0
Cascaded t = (j k : ℕ) → revoked_at j t ≡ true → child_at j k t ≡ true → revoked_at k t ≡ true

-- Called for the kernel on an id in a table where every capability derived from a revoked one is
-- revoked, and no id from `next_cap_id` on is in use, `cap_revoke` ends within a recursion depth of
-- `next_cap_id` calls and succeeds. Afterwards the capability is revoked, what was revoked is still,
-- no capability has changed its parent, and again every capability derived from a revoked one is
-- revoked: so all descendants are.
pub revoke_cascades :
    (id : ℕ) (c : Capability) (s : CapState)
    → Table.IsValid s.table
    → Cascaded s.table
    → Bounded s
    → 0 < s.next_cap_id
    → Table.lookup id s.table ≡ some c
    → (s' : CapState) × (revoke s.next_cap_id 0 id s ≡ some (ErrorCode.ok, s'))
      × Extends s s'
      × Cascaded s'.table
      × (revoked_at id s'.table ≡ true)
revoke_cascades id c s slots cascaded bounded pos found =
    let v : Inv nothing s = record {
      slots = slots;
      closed = λ j k h shut. cascaded j k h;
      bounded = bounded;
    } in
    let x = mark-Extends id c s slots found in
    let enough : live_entries (mark id c s) ≤ s.next_cap_id - 1 =
      subst (λ n. unrevoked (n - 1) 1 (mark id c s).table ≤ s.next_cap_id - 1) (sym x.next_cap_id)
        (unrevoked-le-rounds (s.next_cap_id - 1) 1 (mark id c s).table) in
    let fuel : suc (s.next_cap_id - 1) ≡ s.next_cap_id = omega arith in
    let (s', run, y, w, marked) =
      revoke-step (s.next_cap_id - 1) nothing id c s (call_lem (s.next_cap_id - 1)) found v pos
        enough in
    (
      s',
      subst (λ n. revoke n 0 id s ≡ some (ErrorCode.ok, s')) fuel run,
      y,
      (λ j k h child. w.closed j k h refl child),
      marked,
    )
