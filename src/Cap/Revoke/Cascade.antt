-- ===== src/Cap/Revoke/Cascade.antt =====
-- The cascade of `cap_revoke` in kernel/cap/capability.c, called for the kernel (pid 0).
use mathlib.Core.Path.{subst}
use vault_os.Prelude.{
  ℕ, zero, suc, ◌+◌, ◌-◌, ◌≤◌, ◌<◌, Option, none, some, Bool, true, false, ◌==◌, ◌≡◌, refl, ap, ◌∙◌,
  sym, arith, ◌||◌, Bool-cases, inl, inr, ==→eq, ==→ne, ltb, ltb→lt, ltb→le,
}
use vault_os.ErrorCode.{ErrorCode}
use vault_os.Cap.Table.{Capability, CapTable}
use vault_os.Cap.Table
use vault_os.Cap.{CapState, mark, live_child, cascade}
use vault_os.Cap.Revoke.{
  flag, origin, derives, revoked_at, child_at, unrevoked, Extends, Extends-refl, Extends-trans,
  revoked_at-mark, mark-Extends, unrevoked-le,
}

-- Every entry derived from a revoked one is revoked, but for the children of the ids in `open_ids`.
abbrev pub ClosedBut : (ℕ → Bool) → CapTable → Type 0
ClosedBut open_ids t =
    (j k : ℕ)
    → revoked_at j t ≡ true
    → open_ids j ≡ false
    → child_at j k t ≡ true
    → revoked_at k t ≡ true

-- No id from `next_cap_id` on is in the table.
abbrev pub Bounded : CapState → Type 0
Bounded s = (j : ℕ) → s.next_cap_id ≤ j → origin (Table.lookup j s.table) ≡ none

pub record Inv (open_ids : ℕ → Bool) (s : CapState) : Type 0 where
  pub slots : Table.IsValid s.table
  pub closed : ClosedBut open_ids s.table
  pub bounded : Bounded s

Extends-Bounded : {s s' : CapState} → Extends s s' → Bounded s → Bounded s'
Extends-Bounded {s} x b j h = x.origins j ∙ b j (subst (λ n. n ≤ j) x.next_cap_id h)

Extends-child :
    {s s' : CapState} (p j : ℕ) → Extends s s' → child_at p j s'.table ≡ child_at p j s.table
Extends-child p j x = ap (derives p) (x.origins j)

abbrev pub also : ℕ → (ℕ → Bool) → ℕ → Bool
also id open_ids j = j == id || open_ids j

-- Marking an entry opens its own id, and no other.
pub mark-Inv :
    (open_ids : ℕ → Bool) (id : ℕ) (c : Capability) (s : CapState)
    → Table.lookup id s.table ≡ some c
    → Inv open_ids s
    → Inv (also id open_ids) (mark id c s)
mark-Inv open_ids id c s found v =
    let x = mark-Extends id c s v.slots found in
    record {
      slots = x.slots v.slots;
      closed = λ j k h shut child.
          x.marks k (
            v.closed j k (before j h shut) (open_before j shut)
              (sym (Extends-child j k x) ∙ child));
      bounded = Extends-Bounded x v.bounded;
    }
  where
    before :
        (j : ℕ)
        → revoked_at j (mark id c s).table ≡ true
        → also id open_ids j ≡ false
        → revoked_at j s.table ≡ true
    before j h shut = ground (arith, revoked_at-mark id c s v.slots found j)

    open_before : (j : ℕ) → also id open_ids j ≡ false → open_ids j ≡ false
    open_before j shut = ground arith

-- A call of `cap_revoke` on an entry ends well, and leaves no child of it unrevoked.
abbrev pub Revokes : (ℕ → Bool) → ℕ → CapState → Option (ErrorCode × CapState) → Type 0
Revokes open_ids id s r =
    (s' : CapState) × (r ≡ some (ErrorCode.ok, s'))
    × Extends s s'
    × Inv open_ids s'
    × (revoked_at id s'.table ≡ true)

abbrev pub Children : ℕ → ℕ → CapTable → Type 0
Children id next t = (k : ℕ) → k < next → child_at id k t ≡ true → revoked_at k t ≡ true

abbrev pub Cascades : (ℕ → Bool) → ℕ → CapState → Option CapState → Type 0
Cascades open_ids id s r =
    (s' : CapState) × (r ≡ some s')
    × Extends s s'
    × Inv open_ids s'
    × Children id s.next_cap_id s'.table

abbrev pub live_entries : CapState → ℕ
live_entries s = unrevoked (s.next_cap_id - 1) 1 s.table

-- What the loop asks of the recursive call: it may leave no more live entries than `budget` before.
abbrev pub ChildCall : (ℕ → Bool) → ℕ → ℕ → (ℕ → CapState → Option (ErrorCode × CapState)) → Type 0
ChildCall open_ids id budget call =
    (k : ℕ) (s : CapState)
    → Inv open_ids s
    → live_child id (Table.lookup k s.table) ≡ true
    → 1 ≤ k
    → k < s.next_cap_id
    → live_entries s ≤ budget
    → Revokes open_ids k s (call k s)

live_child-none :
    (id : ℕ) (o : Option Capability)
    → live_child id o ≡ false
    → derives id (origin o) ≡ true
    → flag o ≡ true
unfolding live_child origin derives flag
live_child-none id none h c = cc
live_child-none id (some e) h c = ground arith

-- One more id is dealt with.
Children-next :
    (id i : ℕ) {s s' : CapState}
    → Extends s s'
    → Children id i s.table
    → (child_at id i s'.table ≡ true → revoked_at i s'.table ≡ true)
    → Children id (i + 1) s'.table
Children-next id i {s} {s'} x done here k h child = elim (Bool-cases (k == i)) [
  | inl e ↦
      let same = ==→eq k i e in
      ap (λ n. revoked_at n s'.table) same
      ∙ here (ap (λ n. child_at id n s'.table) (sym same) ∙ child)
  | inr e ↦
      let ne = ==→ne k i e in x.marks k (done k (omega arith) (sym (Extends-child id k x) ∙ child))
]

-- The round of a live child, from the recursive call and the rest of the loop.
cascade-child :
    (rounds : ℕ) (open_ids : ℕ → Bool) (id : ℕ)
    (call : ℕ → CapState → Option (ErrorCode × CapState)) (i : ℕ) (s : CapState)
    (r : Option (ErrorCode × CapState))
    → Revokes open_ids i s r
    → ((s' : CapState)
        → Extends s s'
        → Inv open_ids s'
        → revoked_at i s'.table ≡ true
        → Cascades open_ids id s' (cascade rounds call id (i + 1) s'))
    → Cascades open_ids id s
        (elim r [ none ↦ none | some (e, s') ↦ cascade rounds call id (i + 1) s' ])
cascade-child rounds open_ids id call i s r (s', run, x, v, marked) rest =
    let (t, run', x', w, children) = rest s' x v marked in
    (
      t,
      rw run run',
      Extends-trans x x',
      w,
      λ k h. children k (subst (λ n. k < n) (sym x.next_cap_id) h),
    )

pub cascade_lem :
    (rounds : ℕ) (open_ids : ℕ → Bool) (id budget : ℕ)
    (call : ℕ → CapState → Option (ErrorCode × CapState)) (i : ℕ) (s : CapState)
    → ChildCall open_ids id budget call
    → Inv open_ids s
    → live_entries s ≤ budget
    → 1 ≤ i
    → i + rounds ≡ s.next_cap_id
    → Children id i s.table
    → Cascades open_ids id s (cascade rounds call id i s)
unfolding cascade
cascade_lem zero open_ids id budget call i s ih v small lo end done =
    (s, refl, Extends-refl s, v, λ k h child. done k (omega arith) child)
cascade_lem (suc rounds) open_ids id budget call i s ih v small lo end done =
    elim (Bool-cases (live_child id (Table.lookup i s.table))) [
      | inl live ↦ rw live (
          cascade-child rounds open_ids id call i s (call i s)
            (ih i s v live lo (omega arith) small)
            (λ s' x w marked.
              cascade_lem rounds open_ids id budget call (i + 1) s' ih w (shrinks s' x)
                (omega arith) (shifted s' x) (Children-next id i x done (λ c. marked))))
      | inr dead ↦ rw dead (
          cascade_lem rounds open_ids id budget call (i + 1) s ih v small (omega arith)
            (omega arith)
            (Children-next id i (Extends-refl s) done
              (λ c. live_child-none id (Table.lookup i s.table) dead c)))
    ]
  where
    shifted : (s' : CapState) → Extends s s' → (i + 1) + rounds ≡ s'.next_cap_id
    shifted s' x = let e = x.next_cap_id in omega arith

    shrinks : (s' : CapState) → Extends s s' → live_entries s' ≤ budget
    shrinks s' x =
        subst (λ n. unrevoked (n - 1) 1 s'.table ≤ budget) (sym x.next_cap_id)
          (omega (arith, unrevoked-le (s.next_cap_id - 1) 1 x))

-- With every child of a marked entry marked too, its id need not stay open.
pub close-Inv :
    (open_ids : ℕ → Bool) (id : ℕ) (s : CapState)
    → Inv (also id open_ids) s
    → Children id s.next_cap_id s.table
    → Inv open_ids s
close-Inv open_ids id s v children = record {
  slots = v.slots;
  closed = λ j k h shut child. elim (Bool-cases (j == id)) [
    | inl e ↦
        children k (known j k child) (ap (λ n. child_at n k s.table) (sym (==→eq j id e)) ∙ child)
    | inr e ↦ v.closed j k h (ground arith) child
  ];
  bounded = v.bounded;
}
  where
    known : (j k : ℕ) → child_at j k s.table ≡ true → k < s.next_cap_id
    known j k child = elim (Bool-cases (ltb k s.next_cap_id)) [
      | inl e ↦ ltb→lt k s.next_cap_id e
      | inr e ↦
          absurd (clash (ap (derives j) (v.bounded k (ltb→le k s.next_cap_id e)) ∙ refl) child)
    ]
      where
        clash : {b : Bool} → b ≡ derives j none → b ≡ true → ⊥
        clash e f = unfold derives in cc
