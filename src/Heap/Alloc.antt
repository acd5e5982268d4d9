-- ===== src/Heap/Alloc.antt =====
-- `kmalloc` of kernel/mm/heap.c takes one free block and leaves every other block in use alone.
use vault_os.Prelude.{
  ℕ, ◌%◌, ◌+◌, ◌^◌, ◌≤◌, ◌<◌, List, [], ◌∷◌, ◌++◌, Option, none, some, Bool, true, false, ◌&&◌,
  ◌||◌, leb, ◌≡◌, refl, arith, Bool-cases, leb→le, ne→==, inl, inr,
}
use mathlib.Core.Path.{subst}
use vault_os.Heap.{
  Block, Heap, header_size, min_block_size, align_up, carve, alloc, place, kmalloc, Layout, live,
  used,
}

-- One block more is in use, of at least the size asked for, and the others are as they were.
abbrev pub Gains : ℕ → ℕ → ℕ → List Block → List Block → Type 0
Gains size a n bs cs =
    (xs ys : List (ℕ × ℕ)) × (live bs ≡ xs ++ ys) × (live cs ≡ xs ++ ((a, n) ∷ ys)) × (size ≤ n)

-- Some free block has the size.
abbrev pub any_fits : ℕ → List Block → Bool
any_fits size [] = false
any_fits size (b ∷ bs) = (b.free && leb size b.size) || any_fits size bs

-- What the loop of `kmalloc` answers.
abbrev pub Allocates : ℕ → ℕ → ℕ → List Block → Option (ℕ × ℕ × List Block) → Type 0
Allocates base end size bs none = (any_fits size bs ≡ false)
Allocates base end size bs (some (a, n, cs)) = Layout base cs end × Gains size a n bs cs

carve-Gains :
    (base end size : ℕ) (b : Block) (bs : List Block)
    → Layout base (b ∷ bs) end
    → b.free ≡ true
    → size ≤ b.size
    → Layout base ((carve size b bs).1) end
      × Gains size b.addr ((carve size b bs).0) (b ∷ bs) ((carve size b bs).1)
unfolding carve live
carve-Gains base end size b bs (lay, rest) free fits =
    elim (Bool-cases (leb (size + header_size + min_block_size) b.size)) [
      | inr small ↦
          ((rw small (lay, rest)), ([], live bs, rw (free) refl, rw small refl, rw small fits))
      | inl large ↦ (
        (rw large (
          lay,
          (omega arith, subst (λ x. Layout x bs end) (omega (arith, leb→le _ _ large)) rest),
        )),
        ([], live bs, rw (free) refl, rw large refl, rw large (omega arith)),
      )
    ]

skip-Gains :
    (size a n : ℕ) (b : Block) (bs cs : List Block)
    → Gains size a n bs cs
    → Gains size a n (b ∷ bs) (b ∷ cs)
unfolding live
skip-Gains size a n b bs cs (xs, ys, before, after, fits) = elim (Bool-cases b.free) [
  | inl is_free ↦ (xs, ys, rw is_free before, rw is_free after, fits)
  | inr in_use ↦
      ((b.addr, b.size) ∷ xs, ys, rw (in_use, before) refl, rw (in_use, after) refl, fits)
]

skip-Allocates :
    (base end size : ℕ) (b : Block) (bs : List Block) (r : Option (ℕ × ℕ × List Block))
    → b.addr ≡ base
    → (b.free && leb size b.size) ≡ false
    → Allocates (base + header_size + b.size) end size bs r
    → Allocates base end size
        (b ∷ bs)
        (elim r [ none ↦ none | some (a, n, cs) ↦ some (a, n, b ∷ cs) ])
skip-Allocates base end size b bs none at small full = rw small full
skip-Allocates base end size b bs (some (a, n, cs)) at small (lay, gain) =
    ((at, lay), skip-Gains size a n b bs cs gain)

&&-both : (p q : Bool) → (p && q) ≡ true → (p ≡ true) × (q ≡ true)
&&-both true true h = (refl, refl)
&&-both true false h = (refl, h)
&&-both false q h = ground arith

alloc-Allocates :
    (base end size : ℕ) (bs : List Block)
    → Layout base bs end
    → Allocates base end size bs (alloc size bs)
unfolding alloc
alloc-Allocates base end size [] lay = refl
alloc-Allocates base end size (b ∷ bs) (at, lay) = elim (Bool-cases (b.free && leb size b.size)) [
  | inl fits ↦
      (let (is_free, large) = &&-both b.free (leb size b.size) fits in
        rw fits (carve-Gains base end size b bs (at, lay) is_free (leb→le _ _ large)))
  | inr small ↦ rw small (
      skip-Allocates base end size b bs (alloc size bs) at small
        (alloc-Allocates (base + header_size + b.size) end size bs lay))
]

pub used-append : (xs ys : List (ℕ × ℕ)) → used (xs ++ ys) ≡ used xs + used ys
unfolding used
used-append [] ys = omega arith
used-append ((a, n) ∷ xs) ys = omega (arith, used-append xs ys)

-- The heap between two addresses: its blocks fill it, and the counter is the sum of the sizes of
-- the blocks in use, as a size_t holds it.
abbrev pub IsValid : ℕ → ℕ → Heap → Type 0
IsValid base end h = Layout base h.blocks end × (h.used_bytes ≡ used (live h.blocks) % 2 ^ 64)

-- What `kmalloc` answers.
abbrev pub Hands : ℕ → ℕ → ℕ → Heap → Option ℕ × Heap → Type 0
Hands base end size h (none, k) = (any_fits (align_up size) h.blocks ≡ false) × (k ≡ h)
Hands base end size h (some p, k) =
    IsValid base end k × ((a n : ℕ) × (p ≡ a + header_size) × Gains size a n h.blocks k.blocks)

le-align_up : (size : ℕ) → size + 15 < 2 ^ 64 → size ≤ align_up size
unfolding align_up
le-align_up size small = omega arith

placed :
    (base end size : ℕ) (h : Heap) (r : Option (ℕ × ℕ × List Block))
    → size ≤ align_up size
    → h.used_bytes ≡ used (live h.blocks) % 2 ^ 64
    → Allocates base end (align_up size) h.blocks r
    → Hands base end size h (elim r [
      | none ↦ (none, h)
      | some (a, n, bs) ↦ (
        some (a + header_size),
        record h { blocks = bs; used_bytes = (h.used_bytes + n) % 2 ^ 64 },
      )
    ])
unfolding used
placed base end size h none up count full = (full, refl)
placed base end size h (some (a, n, bs)) up count (lay, (xs, ys, before, after, fits)) = (
  (lay, rw (count, before, after) (omega (arith, used-append xs ys, used-append xs ((a, n) ∷ ys)))),
  (a, n, refl, (xs, ys, before, after, omega arith)),
)

-- On a valid heap, for a size of at least 1 that ALIGN_UP does not wrap: `kmalloc` fails only if
-- no free block has the aligned size, and then changes nothing; else the heap is valid again, one
-- more block of at least the size is in use, whose data begin at the pointer, and all other
-- blocks in use are as they were.
pub kmalloc-Hands :
    (base end size : ℕ) (h : Heap)
    → 1 ≤ size
    → size + 15 < 2 ^ 64
    → IsValid base end h
    → Hands base end size h (kmalloc size h)
unfolding kmalloc place
kmalloc-Hands base end size h pos small (lay, count) = rw (ne→== size 0 (omega arith)) (
    placed base end size h (alloc (align_up size) h.blocks) (le-align_up size small) count
      (alloc-Allocates base end (align_up size) h.blocks lay))
