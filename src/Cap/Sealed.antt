-- ===== src/Cap/Sealed.antt =====
-- The invariant of kernel/cap/capability.c: every entry of the table carries its own seal, and
-- the cache remembers no failed validation.
use vault_os.Prelude.{
  ℕ, zero, suc, ◌+◌, ◌-◌, ◌%◌, List, [], ◌∷◌, ◌^◌, some, Bool, true, false, if◌then◌else◌, ◌==◌,
  ◌≡◌, refl, ◌∙◌, sym, ltb, arith, length, get_or, set, ◌&&◌, not, length-set, Bool-cases, inl, inr,
}
use mathlib.Core.Path.{subst}
use vault_os.Cap.Table.{
  Capability, ObjectType, CapTable, zero_capability, lookup-store, lookup-insert, lookup-id,
  lookup-range,
}
use vault_os.Cap.Table
use vault_os.Cap.Seal.{hmac_verify, hmac_verify_self}
use vault_os.Cap.{
  CapState, CacheEntry, zero_entry, cache_size, cache_invalidate, sealed_bytes, compute_hmac,
  check_seal, validate,
}

-- No remembered validation has failed.
abbrev pub AllValid : List CacheEntry → Type 0
AllValid cache =
    (k : ℕ) → (get_or cache k zero_entry).occupied ≡ true → (get_or cache k zero_entry).valid ≡ true

pub AllValid-set :
    (cache : List CacheEntry) (idx : ℕ) (e : CacheEntry)
    → AllValid cache
    → (e.occupied ≡ true → e.valid ≡ true)
    → AllValid (set cache idx e)
AllValid-set [] idx e h v k = h k
AllValid-set (x ∷ cache) zero e h v zero = v
AllValid-set (x ∷ cache) zero e h v (suc k) = h (suc k)
AllValid-set (x ∷ cache) (suc idx) e h v zero = h zero
AllValid-set (x ∷ cache) (suc idx) e h v (suc k) = AllValid-set cache idx e (λ j. h (suc j)) v k

pub invalidate-AllValid :
    (id : ℕ) (cache : List CacheEntry) → AllValid cache → AllValid (cache_invalidate id cache)
unfolding cache_invalidate
invalidate-AllValid id cache h =
    elim (Bool-cases ((get_or cache (id % 64) zero_entry).cap_id == id)) [
      | inl e ↦ rw e (
          AllValid-set cache (id % 64)
            (record (get_or cache (id % 64) zero_entry) { occupied = false }) h (λ f. cc))
      | inr e ↦ rw e h
    ]

pub length-invalidate :
    (id : ℕ) (cache : List CacheEntry) → length (cache_invalidate id cache) ≡ length cache
unfolding cache_invalidate
length-invalidate id cache = ground (
  arith,
  length-set cache (id % 64) (record (get_or cache (id % 64) zero_entry) { occupied = false }),
)

and_left : (a b : Bool) → (a && b) ≡ true → a ≡ true
and_left true b h = refl
and_left false b h = h

-- Not revoked, and not past its expiry.
unfoldable pub live : ℕ → Capability → Bool
live now c = not c.revoked && not (not (c.expires_at == 0) && ltb c.expires_at now)

module _ (seal : List ℕ → List ℕ) where
  -- The entry's seal is the one that `cap_compute_hmac` gives it.
  abbrev pub HasSeal : Capability → Type 0
  HasSeal c = c.hmac ≡ seal (sealed_bytes c)

  abbrev pub TableSealed : CapTable → Type 0
  TableSealed t = (i : ℕ) (c : Capability) → Table.lookup i t ≡ some c → HasSeal c

  pub record IsSealed (s : CapState) : Type 0 where
    pub slots : Table.IsValid s.table
    pub cache_slots : length s.cache ≡ cache_size
    pub entries : TableSealed s.table
    pub remembered : AllValid s.cache

  -- A state that differs from `s` in the cache alone.
  pub record SameTable (s s' : CapState) : Type 0 where
    pub table : s'.table ≡ s.table
    pub next_cap_id : s'.next_cap_id ≡ s.next_cap_id
    pub cache_slots : length s'.cache ≡ cache_size
    pub remembered : AllValid s'.cache

  check_seal_lem :
      (now : ℕ) (c : Capability) (s : CapState)
      → length s.cache ≡ cache_size
      → AllValid s.cache
      → HasSeal c
      → let r = check_seal seal now c s in (r.0 ≡ true) × SameTable s r.1
  unfolding check_seal compute_hmac
  check_seal_lem now c s len all sealed =
      let idx = c.cap_id % 64 in
      let entry = get_or s.cache idx zero_entry in
      let valid = hmac_verify c.hmac (seal (sealed_bytes c)) in
      let passes : valid ≡ true =
        subst (λ h. hmac_verify h (seal (sealed_bytes c)) ≡ true) (sym sealed)
          (hmac_verify_self (seal (sealed_bytes c))) in
      let fresh : CacheEntry = record {
        cap_id = c.cap_id;
        validated_at = now;
        valid = valid;
        occupied = true;
      } in
      let same : SameTable s s = record {
        table = refl;
        next_cap_id = refl;
        cache_slots = len;
        remembered = all;
      } in
      let known = entry.occupied && entry.cap_id == c.cap_id in
      let young = ltb ((now + 2 ^ 64 - entry.validated_at) % 2 ^ 64) 1000 in
      elim (Bool-cases (known && young)) [
        | inl hit ↦
            let occupied =
              and_left entry.occupied (entry.cap_id == c.cap_id) (and_left known young hit) in
            rw hit (all idx occupied, same)
        | inr miss ↦ rw miss (
          passes,
          record {
            table = refl;
            next_cap_id = refl;
            cache_slots = rw length-set len;
            remembered = AllValid-set s.cache idx fresh all (λ f. passes);
          },
        )
      ]

  either_test :
      (s : CapState) (a b : Bool) (r : Bool × CapState)
      → SameTable s s
      → (r.0 ≡ true) × SameTable s r.1
      → let q = if a then (false, s) else if b then (false, s) else r in
        (q.0 ≡ (not a && not b)) × SameTable s q.1
  either_test s true b r same h = (refl, same)
  either_test s false true r same h = (refl, same)
  either_test s false false r same h = h

  -- In a sealed state `cap_validate` answers on an entry that carries its seal by revocation and
  -- expiry alone, whether from its cache or from the seal, and changes nothing but the cache.
  pub validate-live :
      (now : ℕ) (c : Capability) (s : CapState)
      → IsSealed s
      → HasSeal c
      → let r = validate seal now c s in (r.0 ≡ live now c) × SameTable s r.1
  unfolding validate live
  validate-live now c s v sealed =
      either_test s c.revoked (not (c.expires_at == 0) && ltb c.expires_at now)
        (check_seal seal now c s)
        (record {
          table = refl;
          next_cap_id = refl;
          cache_slots = v.cache_slots;
          remembered = v.remembered;
        })
        (check_seal_lem now c s v.cache_slots v.remembered sealed)

  pub SameTable-IsSealed : (s s' : CapState) → SameTable s s' → IsSealed s → IsSealed s'
  SameTable-IsSealed s s' h v = record {
    slots = subst Table.IsValid (sym h.table) v.slots;
    cache_slots = h.cache_slots;
    entries = subst TableSealed (sym h.table) v.entries;
    remembered = h.remembered;
  }

  -- A write of an entry with its own seal keeps the table sealed.
  pub Writes-TableSealed :
      (cap : Capability) (t t' : CapTable)
      → Table.Writes cap t t'
      → HasSeal cap
      → TableSealed t
      → TableSealed t'
  Writes-TableSealed cap t t' w sealed h i c e = elim (w i) [
    | inl old ↦ h i c (sym old ∙ e)
    | inr new ↦ let same : cap ≡ c = cc in subst HasSeal same sealed
  ]
