-- ===== src/Cap/Revoke.antt =====
-- What the recursion of `cap_revoke` in kernel/cap/capability.c reads and changes: the marks.
pub mod Cascade
pub mod Total
pub mod Ends
pub mod Foreign
use vault_os.Prelude.{
  ℕ, zero, suc, ◌+◌, ◌-◌, ◌≤◌, ◌<◌, Option, none, some, Bool, true, false, if◌then◌else◌, ◌==◌, ◌≡◌,
  ◌≢◌, refl, ap, ◌∙◌, sym, arith, ◌&&◌, not, Bool-cases, Option-cases, inl, inr, ==→eq, ==→ne,
  ne→==, eq→==,
}
use vault_os.Cap.Table.{Capability, CapTable, lookup-store, lookup-id, lookup-range}
use vault_os.Cap.Table
use vault_os.Cap.{CapState, mark, live_child}

unfoldable pub flag : Option Capability → Bool
flag none = false
flag (some c) = c.revoked

unfoldable pub origin : Option Capability → Option ℕ
origin none = none
origin (some c) = some c.parent_cap_id

-- The entry under an id is marked as revoked.
abbrev pub revoked_at : ℕ → CapTable → Bool
revoked_at j t = flag (Table.lookup j t)

unfoldable pub derives : ℕ → Option ℕ → Bool
derives parent none = false
derives parent (some p) = p == parent

-- The entry under an id was derived from `parent`.
abbrev pub child_at : ℕ → ℕ → CapTable → Bool
child_at parent j t = derives parent (origin (Table.lookup j t))

unfoldable pub unmarked : Option Capability → ℕ
unmarked none = 0
unmarked (some c) = if c.revoked then 0 else 1

-- How many of `rounds` ids from `i` on name an entry that is not revoked.
unfoldable pub unrevoked : ℕ → ℕ → CapTable → ℕ
unrevoked zero i t = 0
unrevoked (suc rounds) i t = unmarked (Table.lookup i t) + unrevoked rounds (i + 1) t

-- The second state has the same entries with more marks.
pub record Extends (s s' : CapState) : Type 0 where
  pub marks : (j : ℕ) → revoked_at j s.table ≡ true → revoked_at j s'.table ≡ true
  pub origins : (j : ℕ) → origin (Table.lookup j s'.table) ≡ origin (Table.lookup j s.table)
  pub next_cap_id : s'.next_cap_id ≡ s.next_cap_id
  pub slots : Table.IsValid s.table → Table.IsValid s'.table

pub Extends-refl : (s : CapState) → Extends s s
Extends-refl s = record {
  marks = λ j h. h;
  origins = λ j. refl;
  next_cap_id = refl;
  slots = λ h. h;
}

pub Extends-trans : {r s t : CapState} → Extends r s → Extends s t → Extends r t
Extends-trans a b = record {
  marks = λ j h. b.marks j (a.marks j h);
  origins = λ j. b.origins j ∙ a.origins j;
  next_cap_id = b.next_cap_id ∙ a.next_cap_id;
  slots = λ h. b.slots (a.slots h);
}

module _ (id : ℕ) (c : Capability) (s : CapState) (slots : Table.IsValid s.table)
    (found : Table.lookup id s.table ≡ some c) where
  lookup-mark :
      (j : ℕ)
      → Table.lookup j (mark id c s).table
        ≡ (if j == id then some (record c { revoked = true }) else Table.lookup j s.table)
  unfolding mark
  lookup-mark j =
      let (lo, hi) = lookup-range id s.table c found in
      lookup-store id j (record c { revoked = true }) s.table slots (lookup-id id s.table c found)
        lo hi

  pub revoked_at-mark :
      (j : ℕ) → revoked_at j (mark id c s).table ≡ (if j == id then true else revoked_at j s.table)
  unfolding flag
  revoked_at-mark j = ground (arith, lookup-mark j)

  origin-mark :
      (j : ℕ) → origin (Table.lookup j (mark id c s).table) ≡ origin (Table.lookup j s.table)
  unfolding origin
  origin-mark j = elim (Bool-cases (j == id)) [
    | inl e ↦
        let same = ==→eq j id e in
        ground (arith, lookup-mark j, found, ap (λ k. Table.lookup k s.table) same)
    | inr e ↦ ground (arith, lookup-mark j)
  ]

  pub mark-Extends : Extends s (mark id c s)
  mark-Extends = record {
    marks = λ j h. ground (arith, revoked_at-mark j, h);
    origins = origin-mark;
    next_cap_id = unfold mark in refl;
    slots = λ h. unfold mark in Table.store-IsValid id (record c { revoked = true }) s.table h;
  }

unmarked-le :
    (o o' : Option Capability)
    → origin o' ≡ origin o
    → (flag o ≡ true → flag o' ≡ true)
    → unmarked o' ≤ unmarked o
unfolding origin flag unmarked
unmarked-le none none e h = omega arith
unmarked-le none (some c) e h = cc
unmarked-le (some c) none e h = omega arith
unmarked-le (some c) (some d) e h = ground arith

pub unrevoked-le :
    (rounds i : ℕ) {s s' : CapState}
    → Extends s s'
    → unrevoked rounds i s'.table ≤ unrevoked rounds i s.table
unfolding unrevoked
unrevoked-le zero i x = omega arith
unrevoked-le (suc rounds) i {s} {s'} x = omega (
  arith,
  unrevoked-le rounds (i + 1) x,
  unmarked-le (Table.lookup i s.table) (Table.lookup i s'.table) (x.origins i) (x.marks i),
)

unmarked-live : (parent : ℕ) (o : Option Capability) → live_child parent o ≡ true → unmarked o ≡ 1
unfolding live_child unmarked
unmarked-live parent none h = cc
unmarked-live parent (some c) h = ground arith

unmarked-flag : (o : Option Capability) → flag o ≡ true → unmarked o ≡ 0
unfolding flag unmarked
unmarked-flag none h = cc
unmarked-flag (some c) h = ground arith

pub unrevoked-lt :
    (rounds i j parent : ℕ) {s s' : CapState}
    → Extends s s'
    → i ≤ j
    → j < i + rounds
    → live_child parent (Table.lookup j s.table) ≡ true
    → revoked_at j s'.table ≡ true
    → unrevoked rounds i s'.table < unrevoked rounds i s.table
unfolding unrevoked
unrevoked-lt zero i j parent x lo hi live marked = absurd (omega arith)
unrevoked-lt (suc rounds) i j parent {s} {s'} x lo hi live marked = elim (Bool-cases (i == j)) [
  | inl e ↦
      let same = ==→eq i j e in
      let before : unmarked (Table.lookup i s.table) ≡ 1 =
        ap (λ k. unmarked (Table.lookup k s.table)) same
        ∙ unmarked-live parent (Table.lookup j s.table) live in
      let after : unmarked (Table.lookup i s'.table) ≡ 0 =
        ap (λ k. unmarked (Table.lookup k s'.table)) same
        ∙ unmarked-flag (Table.lookup j s'.table) marked in
      omega (arith, unrevoked-le rounds (i + 1) x)
  | inr e ↦
      let ne = ==→ne i j e in
      omega (
        arith,
        unrevoked-lt rounds (i + 1) j parent x (omega arith) (omega arith) live marked,
        unmarked-le (Table.lookup i s.table) (Table.lookup i s'.table) (x.origins i) (x.marks i),
      )
]

pub unrevoked-le-rounds : (rounds i : ℕ) (t : CapTable) → unrevoked rounds i t ≤ rounds
unfolding unrevoked
unrevoked-le-rounds zero i t = omega arith
unrevoked-le-rounds (suc rounds) i t =
    omega (arith, unrevoked-le-rounds rounds (i + 1) t, one (Table.lookup i t))
  where
    one : (o : Option Capability) → unmarked o ≤ 1
    one none = unfold unmarked in omega arith
    one (some c) = unfold unmarked in ground arith
