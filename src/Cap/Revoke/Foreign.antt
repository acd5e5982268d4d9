-- ===== src/Cap/Revoke/Foreign.antt =====
-- `cap_revoke` of kernel/cap/capability.c called for a process other than the kernel.
use mathlib.Core.Path.{subst}
use vault_os.Prelude.{
  ℕ, zero, suc, ◌+◌, ◌-◌, ◌<◌, Option, none, some, true, ◌==◌, ◌≡◌, ◌≢◌, refl, ap, ◌∙◌, sym, arith,
  Bool-cases, Option-cases, inl, inr, ==→eq, ne→==,
}
use vault_os.ErrorCode.{ErrorCode}
use vault_os.Cap.Table.{Capability, CapTable, lookup-store, lookup-id, lookup-range}
use vault_os.Cap.Table
use vault_os.Cap.Revoke.Ends.{revoke_ends}
use vault_os.Cap.{CapState, mark, live_child, cascade, revoke}

-- The entry under `k` is `c`, in a table of 1024 slots.
abbrev pub Keeps : ℕ → Capability → CapState → Type 0
Keeps k c s = Table.IsValid s.table × (Table.lookup k s.table ≡ some c)

abbrev KeepsCall : ℕ → Capability → (ℕ → CapState → Option (ErrorCode × CapState)) → Type 0
KeepsCall k c call =
    (i : ℕ) (s : CapState) (e : ErrorCode) (s' : CapState)
    → Keeps k c s
    → call i s ≡ some (e, s')
    → Keeps k c s'

mark-Keeps :
    (id k : ℕ) (d c : Capability) (s : CapState)
    → Table.lookup id s.table ≡ some d
    → d.owner_pid ≢ c.owner_pid
    → Keeps k c s
    → Keeps k c (mark id d s)
unfolding mark
mark-Keeps id k d c s found other (slots, kept) =
    let (lo, hi) = lookup-range id s.table d found in
    let law =
      lookup-store id k (record d { revoked = true }) s.table slots (lookup-id id s.table d found)
        lo hi in
    (
      Table.store-IsValid id (record d { revoked = true }) s.table slots,
      elim (Bool-cases (k == id)) [
        | inl e ↦
            let same : d ≡ c = cc (ap (λ n. Table.lookup n s.table) (==→eq k id e)) in
            absurd (other (ap (λ x. x.owner_pid) same))
        | inr e ↦ law ∙ rw e kept
      ],
    )

cascade-Keeps :
    (rounds k : ℕ) (c : Capability) (call : ℕ → CapState → Option (ErrorCode × CapState)) (id i : ℕ)
    (s s' : CapState)
    → KeepsCall k c call
    → Keeps k c s
    → cascade rounds call id i s ≡ some s'
    → Keeps k c s'
unfolding cascade
cascade-Keeps zero k c call id i s s' ih kept run =
    let same : s ≡ s' = cc in subst (Keeps k c) same kept
cascade-Keeps (suc rounds) k c call id i s s' ih kept run =
    elim (Bool-cases (live_child id (Table.lookup i s.table))) [
      | inl live ↦
          go (call i s) (λ e t. ih i s e t kept)
            (λ t. cascade-Keeps rounds k c call id (i + 1) t s' ih) (rw live at run)
      | inr dead ↦ cascade-Keeps rounds k c call id (i + 1) s s' ih kept (rw dead at run)
    ]
  where
    go :
        (r : Option (ErrorCode × CapState))
        → ((e : ErrorCode) (t : CapState) → r ≡ some (e, t) → Keeps k c t)
        → ((t : CapState) → Keeps k c t → cascade rounds call id (i + 1) t ≡ some s' → Keeps k c s')
        → (elim r [ none ↦ none | some (e, t) ↦ cascade rounds call id (i + 1) t ]) ≡ some s'
        → Keeps k c s'
    go none h again run = cc
    go (some (e, t)) h again run = again t (h e t refl) run

-- The way of `cap_revoke` past its owner test.
revoke-own :
    (fuel owner id : ℕ) (d : Capability) (s : CapState)
    → Table.lookup id s.table ≡ some d
    → d.owner_pid == owner ≡ true
    → revoke (suc fuel) owner id s
      ≡ elim (cascade (s.next_cap_id - 1) (revoke fuel owner) id 1 (mark id d s)) [
        | none ↦ none
        | some s' ↦ some (ErrorCode.ok, s')
      ]
unfolding revoke
revoke-own fuel owner id d s o mine = rw (o, revoke) (rw mine refl)

revoke-done :
    (k : ℕ) (c : Capability) (r : Option CapState) (e : ErrorCode) (s' : CapState)
    → ((t : CapState) → r ≡ some t → Keeps k c t)
    → ◌≡◌ {A = Option (ErrorCode × CapState)}
        (elim r [ none ↦ none | some t ↦ some (ErrorCode.ok, t) ])
        (some (e, s'))
    → Keeps k c s'
revoke-done k c none e s' h run = cc
revoke-done k c (some t) e s' h run = let same : t ≡ s' = cc in subst (Keeps k c) same (h t refl)

-- What a call that returns leaves.
returned-Keeps :
    (fuel owner k : ℕ) (c : Capability) (i : ℕ) (s : CapState) (e : ErrorCode) (s' : CapState)
    → owner ≢ 0
    → c.owner_pid ≢ owner
    → Keeps k c s
    → revoke fuel owner i s ≡ some (e, s')
    → Keeps k c s'
unfolding revoke
returned-Keeps zero owner k c i s e s' user foreign kept run = cc
returned-Keeps (suc fuel) owner k c i s e s' user foreign kept run =
    elim (Option-cases (Table.lookup i s.table)) [
      | inl o ↦ let same : s ≡ s' = ground arith in subst (Keeps k c) same kept
      | inr (d, o) ↦ elim (Bool-cases (d.owner_pid == owner)) [
        | inl mine ↦
            revoke-done k c (cascade (s.next_cap_id - 1) (revoke fuel owner) i 1 (mark i d s)) e s'
              (λ t.
                cascade-Keeps (s.next_cap_id - 1) k c (revoke fuel owner) i 1 (mark i d s) t
                  (λ j u f u' h. returned-Keeps fuel owner k c j u f u' user foreign h)
                  (mark-Keeps i k d c s o
                    (λ same. foreign (sym same ∙ ==→eq d.owner_pid owner mine)) kept))
              (sym (revoke-own fuel owner i d s o mine) ∙ run)
        | inr others ↦
            let kernel = ne→== owner 0 user in
            let same : s ≡ s' = ground arith in subst (Keeps k c) same kept
      ]
    ]

-- Called for a process other than the kernel, in a table of 1024 slots, `cap_revoke` ends within a
-- recursion depth of `next_cap_id` calls, and each capability of another process is then looked up
-- as it was before, also those derived from the revoked one: the cascade does not mark them.
pub revoke-Keeps :
    (owner k : ℕ) (c : Capability) (i : ℕ) (s : CapState)
    → owner ≢ 0
    → c.owner_pid ≢ owner
    → Keeps k c s
    → 0 < s.next_cap_id
    → (e : ErrorCode) × (s' : CapState) × (revoke s.next_cap_id owner i s ≡ some (e, s'))
      × Keeps k c s'
revoke-Keeps owner k c i s user foreign kept pos =
    let (e, s', run, x) = revoke_ends owner i s kept.0 pos in
    (e, s', run, returned-Keeps s.next_cap_id owner k c i s e s' user foreign kept run)
