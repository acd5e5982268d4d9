-- ===== src/Cap/Check.antt =====
-- What `cap_check` of kernel/cap/capability.c decides.
use mathlib.Core.Path.{subst}
use vault_os.Prelude.{
  ℕ, zero, suc, ◌+◌, ◌-◌, ◌≤◌, ◌<◌, List, Option, none, some, Bool, true, false, if◌then◌else◌,
  ◌==◌, ◌≡◌, ◌≢◌, refl, ap, ◌∙◌, sym, arith, ◌&&◌, ◌||◌, Bool-cases, Option-cases, inl, inr, ne→==,
  ◌↔◌,
}
use vault_os.Cap.Table.{Capability, CapTable, ObjectType}
use vault_os.Cap.Table
use vault_os.Cap.{CapState, matches, check_one, check_from, check}
use vault_os.Cap.Sealed.{IsSealed, HasSeal, SameTable, SameTable-IsSealed, validate-live, live}
use vault_os.Cap.Permit.{Granted, matches→Permits, Permits→matches, live→Unspent, Unspent→live}

-- An entry that grants the request: it matches, and is neither revoked nor expired.
unfoldable pub usable : ℕ → ℕ → ℕ → ℕ → Option Capability → Bool
usable now pid object_id rights none = false
usable now pid object_id rights (some c) = matches pid object_id rights c && live now c

unfoldable pub any_usable : ℕ → ℕ → ℕ → ℕ → ℕ → ℕ → CapTable → Bool
any_usable zero i now pid object_id rights t = false
any_usable (suc rounds) i now pid object_id rights t =
    usable now pid object_id rights (Table.lookup i t)
    || any_usable rounds (i + 1) now pid object_id rights t

-- Some id from `first` on and below `next` names an entry that grants the request.
abbrev Found : ℕ → ℕ → ℕ → ℕ → ℕ → ℕ → CapTable → Type 0
Found first next now pid object_id rights t =
    (i : ℕ) × (c : Capability) × (first ≤ i)
    × (i < next)
    × (Table.lookup i t ≡ some c)
    × (matches pid object_id rights c ≡ true)
    × (live now c ≡ true)

any_usable→Found :
    (rounds i now pid object_id rights : ℕ) (t : CapTable)
    → any_usable rounds i now pid object_id rights t ≡ true
    → Found i (i + rounds) now pid object_id rights t
unfolding any_usable usable
any_usable→Found zero i now pid object_id rights t h = absurd (grind arith)
any_usable→Found (suc rounds) i now pid object_id rights t h =
    elim (Bool-cases (usable now pid object_id rights (Table.lookup i t))) [
      | inl e ↦ elim (Option-cases (Table.lookup i t)) [
        | inl o ↦ absurd (ground arith)
        | inr (c, o) ↦ (i, c, omega arith, omega arith, o, ground arith, ground arith)
      ]
      | inr e ↦
          let (j, c, lo, hi, found, fits, lives) =
            any_usable→Found rounds (i + 1) now pid object_id rights t (ground arith) in
          (j, c, omega arith, omega arith, found, fits, lives)
    ]

Found→any_usable :
    (rounds i j now pid object_id rights : ℕ) (c : Capability) (t : CapTable)
    → i ≤ j
    → j < i + rounds
    → Table.lookup j t ≡ some c
    → matches pid object_id rights c ≡ true
    → live now c ≡ true
    → any_usable rounds i now pid object_id rights t ≡ true
unfolding any_usable usable
Found→any_usable zero i j now pid object_id rights c t lo hi found fits lives = absurd (omega arith)
Found→any_usable (suc rounds) i j now pid object_id rights c t lo hi found fits lives =
    elim (Bool-cases (i == j)) [
      | inl e ↦
          let same : j ≡ i = ground arith in
          let here : Table.lookup i t ≡ some c =
            subst (λ k. Table.lookup k t ≡ some c) same found in
          rw (here, fits, lives) refl
      | inr e ↦
          let rest =
            Found→any_usable rounds (i + 1) j now pid object_id rights c t (ground arith)
              (omega arith) found fits lives in
          ground arith
    ]

module _ (seal : List ℕ → List ℕ) where
  check_one_lem :
      (now pid object_id rights : ℕ) (o : Option Capability) (s : CapState)
      → IsSealed seal s
      → ((c : Capability) → o ≡ some c → HasSeal seal c)
      → let r = check_one seal now pid object_id rights o s in
        (r.0 ≡ usable now pid object_id rights o) × SameTable seal s r.1
  unfolding check_one usable
  check_one_lem now pid object_id rights none s v sealed = (
    refl,
    record {
      table = refl;
      next_cap_id = refl;
      cache_slots = v.cache_slots;
      remembered = v.remembered;
    },
  )
  check_one_lem now pid object_id rights (some c) s v sealed =
      elim (Bool-cases (matches pid object_id rights c)) [
        | inl e ↦ rw e (validate-live seal now c s v (sealed c refl))
        | inr e ↦ rw e (
          refl,
          record {
            table = refl;
            next_cap_id = refl;
            cache_slots = v.cache_slots;
            remembered = v.remembered;
          },
        )
      ]

  check_from_lem :
      (rounds i now pid object_id rights : ℕ) (s : CapState)
      → IsSealed seal s
      → let r = check_from seal rounds i now pid object_id rights s in
        (r.0 ≡ any_usable rounds i now pid object_id rights s.table) × SameTable seal s r.1
  unfolding check_from any_usable
  check_from_lem zero i now pid object_id rights s v = (
    refl,
    record {
      table = refl;
      next_cap_id = refl;
      cache_slots = v.cache_slots;
      remembered = v.remembered;
    },
  )
  check_from_lem (suc rounds) i now pid object_id rights s v =
      let (answer, same) =
        check_one_lem now pid object_id rights (Table.lookup i s.table) s v (v.entries i) in
      let r = check_one seal now pid object_id rights (Table.lookup i s.table) s in
      round (usable now pid object_id rights (Table.lookup i s.table)) r answer same (
        check_from_lem rounds (i + 1) now pid object_id rights r.1
          (SameTable-IsSealed seal s r.1 same v))
    where
      round :
          (b : Bool) (r : Bool × CapState)
          → r.0 ≡ b
          → SameTable seal s r.1
          → (let q = check_from seal rounds (i + 1) now pid object_id rights r.1 in
              (q.0 ≡ any_usable rounds (i + 1) now pid object_id rights r.1.table)
              × SameTable seal r.1 q.1)
          → let q =
              if r.0 then r else check_from seal rounds (i + 1) now pid object_id rights r.1 in
            (q.0 ≡ (b || any_usable rounds (i + 1) now pid object_id rights s.table))
            × SameTable seal s q.1
      round true (true, s') e same h = (refl, same)
      round true (false, s') e same h = cc
      round false (true, s') e same h = cc
      round false (false, s') e same (ans, then_same) = (
        ans ∙ ap (any_usable rounds (i + 1) now pid object_id rights) same.table,
        record {
          table = then_same.table ∙ same.table;
          next_cap_id = then_same.next_cap_id ∙ same.next_cap_id;
          cache_slots = then_same.cache_slots;
          remembered = then_same.remembered;
        },
      )

  check-Found :
      (now pid object_id rights : ℕ) (s : CapState)
      → IsSealed seal s
      → pid ≢ 0
      → ((check seal now pid object_id rights s).0 ≡ true)
        ↔ Found 1 s.next_cap_id now pid object_id rights s.table
  unfolding check
  check-Found now pid object_id rights s v user =
      let answer = (check_from_lem (s.next_cap_id - 1) 1 now pid object_id rights s v).0 in
      rw (ne→== pid 0 user) (
        λ h.
            let (i, c, lo, hi, found, fits, lives) =
              any_usable→Found (s.next_cap_id - 1) 1 now pid object_id rights s.table
                (sym answer ∙ h) in
            (i, c, lo, omega arith, found, fits, lives),
        λ g.
            answer
            ∙ Found→any_usable (s.next_cap_id - 1) 1 g.0 now pid object_id rights g.1 s.table g.2
                (bound g.0 g.2 g.3) g.4 g.5 g.6,
      )
    where
      bound : (i : ℕ) → 1 ≤ i → i < s.next_cap_id → i < 1 + (s.next_cap_id - 1)
      bound i lo hi = omega arith

  -- In a sealed state, for a process other than the kernel (pid 0), `cap_check` answers true
  -- exactly if the table holds, under an id that has been handed out, an unrevoked and unexpired
  -- capability of that process for the object (or for the system) with all the required rights.
  pub check_iff :
      (now pid object_id rights : ℕ) (s : CapState)
      → IsSealed seal s
      → pid ≢ 0
      → ((check seal now pid object_id rights s).0 ≡ true)
        ↔ Granted s.next_cap_id now pid object_id rights s.table
  check_iff now pid object_id rights s v user =
      let (there, back) = check-Found now pid object_id rights s v user in
      (
        λ h.
            let (i, c, lo, hi, found, fits, lives) = there h in
            (
              i,
              c,
              lo,
              hi,
              found,
              matches→Permits pid object_id rights c fits,
              live→Unspent now c lives,
            ),
        λ g.
            let (i, c, lo, hi, found, permits, unspent) = g in
            back (
              i,
              c,
              lo,
              hi,
              found,
              Permits→matches pid object_id rights c permits,
              Unspent→live now c unspent,
            ),
      )
