-- ===== src/Heap/Free.antt =====
-- `kfree` of kernel/mm/heap.c takes one block out of use and leaves the others alone, whatever it
-- joins the block with.
use vault_os.Prelude.{
  ℕ, ◌+◌, ◌-◌, ◌%◌, ◌^◌, ◌<◌, List, [], ◌∷◌, ◌++◌, Option, none, some, Bool, true, false, not,
  if◌then◌else◌, ◌==◌, ◌≡◌, ◌≢◌, refl, ap, sym, ◌∙◌, arith, Bool-cases, append_assoc, ne→==, ==→eq,
  inl, inr,
}
use mathlib.Core.Path.{subst}
use vault_os.Heap.{
  Block, Heap, header_size, join_next, join_prev, is_target, release, kfree, Layout, live, used,
}
use vault_os.Heap.Alloc.{IsValid, used-append}

-- The block whose data begin at `ptr` was in use with size `n`, and now is not; the others are as
-- they were.
abbrev pub Loses : ℕ → ℕ → List Block → List Block → Type 0
Loses ptr n bs cs =
    (a : ℕ) × (xs ys : List (ℕ × ℕ)) × (ptr ≡ a + header_size)
    × (live bs ≡ xs ++ ((a, n) ∷ ys))
    × (live cs ≡ xs ++ ys)

-- The block whose data begin at `ptr` is in use.
abbrev pub in_use : ℕ → List Block → Bool
in_use ptr [] = false
in_use ptr (b ∷ bs) = if b.addr + header_size == ptr then not b.free else in_use ptr bs

abbrev is_free_head : List Block → Bool
is_free_head [] = true
is_free_head (b ∷ bs) = b.free

-- What the list part of `kfree` answers.
abbrev Releases : ℕ → ℕ → ℕ → List Block → Option (ℕ × List Block) → Type 0
Releases base end ptr bs none = (in_use ptr bs ≡ false)
Releases base end ptr bs (some (n, cs)) =
    Layout base cs end × Loses ptr n bs cs × (is_target ptr bs ≡ true → is_free_head cs ≡ true)

join_next-Layout :
    (base end : ℕ) (b : Block) (bs : List Block)
    → Layout base (b ∷ bs) end
    → Layout base (join_next b bs) end
unfolding join_next
join_next-Layout base end b [] lay = lay
join_next-Layout base end b (c ∷ cs) (at, (next, lay)) = elim (Bool-cases c.free) [
  | inl is_free ↦ rw is_free (at, subst (λ x. Layout x cs end) (omega arith) lay)
  | inr busy ↦ rw busy (at, (next, lay))
]

join_prev-Layout :
    (base end : ℕ) (b : Block) (bs : List Block)
    → Layout base (b ∷ bs) end
    → Layout base (join_prev b bs) end
unfolding join_prev
join_prev-Layout base end b [] lay = lay
join_prev-Layout base end b (c ∷ cs) (at, (next, lay)) = elim (Bool-cases b.free) [
  | inl is_free ↦ rw is_free (at, subst (λ x. Layout x cs end) (omega arith) lay)
  | inr busy ↦ rw busy (at, (next, lay))
]

live-join_next : (b : Block) (bs : List Block) → b.free ≡ true → live (join_next b bs) ≡ live bs
unfolding join_next live
live-join_next b [] is_free = rw is_free refl
live-join_next b (c ∷ cs) is_free = elim (Bool-cases c.free) [
  | inl next_free ↦ rw (next_free, is_free) refl
  | inr busy ↦ rw (busy, is_free) refl
]

live-join_prev :
    (b : Block) (bs : List Block) → is_free_head bs ≡ true → live (join_prev b bs) ≡ live (b ∷ bs)
unfolding join_prev live
live-join_prev b [] is_free = refl
live-join_prev b (c ∷ cs) is_free = elim (Bool-cases b.free) [
  | inl own_free ↦ rw (own_free, is_free) refl
  | inr busy ↦ rw (busy, is_free) refl
]

is_free_head-join_next :
    (b : Block) (bs : List Block) → b.free ≡ true → is_free_head (join_next b bs) ≡ true
unfolding join_next
is_free_head-join_next b [] is_free = is_free
is_free_head-join_next b (c ∷ cs) is_free = elim (Bool-cases c.free) [
  | inl next_free ↦ rw next_free is_free
  | inr busy ↦ rw busy is_free
]

hit-Releases :
    (base end ptr : ℕ) (b : Block) (bs : List Block)
    → Layout base (b ∷ bs) end
    → b.addr + header_size == ptr ≡ true
    → b.free ≡ false
    → Releases base end ptr (b ∷ bs) (some (b.size, join_next (record b { free = true }) bs))
unfolding live
hit-Releases base end ptr b bs lay hit busy = (
  join_next-Layout base end (record b { free = true }) bs lay,
  (
    b.addr,
    [],
    live bs,
    sym (==→eq _ _ hit),
    rw busy refl,
    live-join_next (record b { free = true }) bs refl,
  ),
  λ _. is_free_head-join_next (record b { free = true }) bs refl,
)

live-cons :
    (b : Block) (bs : List Block) (xs : List (ℕ × ℕ))
    → live bs ≡ xs
    → live (b ∷ bs) ≡ live (b ∷ []) ++ xs
unfolding live
live-cons b bs xs e = elim (Bool-cases b.free) [
  | inl is_free ↦ rw (is_free, e) refl
  | inr busy ↦ rw (busy, e) refl
]

live-joined :
    (t : Bool) (b : Block) (cs : List Block)
    → (t ≡ true → is_free_head cs ≡ true)
    → live (if t then join_prev b cs else b ∷ cs) ≡ live (b ∷ cs)
live-joined true b cs h = live-join_prev b cs (h refl)
live-joined false b cs h = refl

Layout-joined :
    (base end : ℕ) (t : Bool) (b : Block) (cs : List Block)
    → Layout base (b ∷ cs) end
    → Layout base (if t then join_prev b cs else b ∷ cs) end
Layout-joined base end true b cs lay = join_prev-Layout base end b cs lay
Layout-joined base end false b cs lay = lay

skip-Releases :
    (base end ptr : ℕ) (b : Block) (bs : List Block) (r : Option (ℕ × List Block))
    → b.addr ≡ base
    → b.addr + header_size == ptr ≡ false
    → Releases (base + header_size + b.size) end ptr bs r
    → Releases base end ptr (b ∷ bs) (elim r [
      | none ↦ none
      | some (n, cs) ↦ some (n, if is_target ptr bs then join_prev b cs else b ∷ cs)
    ])
unfolding is_target
skip-Releases base end ptr b bs none at miss h = rw miss h
skip-Releases base end ptr b bs (some (n, cs)) at miss
      (lay, (a, xs, ys, here, before, after), head) =
    (
      Layout-joined base end (is_target ptr bs) b cs (at, lay),
      (
        a,
        live (b ∷ []) ++ xs,
        ys,
        here,
        live-cons b bs _ before ∙ sym (append_assoc (live (b ∷ [])) xs ((a, n) ∷ ys)),
        live-joined (is_target ptr bs) b cs head
            ∙ live-cons b cs _ after
            ∙ sym (append_assoc (live (b ∷ [])) xs ys),
      ),
      λ hit. absurd (ground (arith, miss, hit)),
    )

release-Releases :
    (base end ptr : ℕ) (bs : List Block)
    → Layout base bs end
    → Releases base end ptr bs (release ptr bs)
unfolding release
release-Releases base end ptr [] lay = refl
release-Releases base end ptr (b ∷ bs) (at, lay) = elim (Bool-cases (b.addr + header_size == ptr)) [
  | inl hit ↦ elim (Bool-cases b.free) [
    | inl is_free ↦ simp (hit, is_free) refl
    | inr busy ↦ simp (hit, busy) (hit-Releases base end ptr b bs (at, lay) hit busy)
  ]
  | inr miss ↦ rw miss (
      skip-Releases base end ptr b bs (release ptr bs) at miss
        (release-Releases (base + header_size + b.size) end ptr bs lay))
]

-- What `kfree` answers: the block is out of use, and the heap is valid again.
abbrev pub Takes : ℕ → ℕ → ℕ → Heap → Option Heap → Type 0
Takes base end ptr h none = (in_use ptr h.blocks ≡ false)
Takes base end ptr h (some k) = IsValid base end k × ((n : ℕ) × Loses ptr n h.blocks k.blocks)

taken :
    (base end ptr : ℕ) (h : Heap) (r : Option (ℕ × List Block))
    → h.used_bytes ≡ used (live h.blocks) % 2 ^ 64
    → used (live h.blocks) < 2 ^ 64
    → Releases base end ptr h.blocks r
    → Takes base end ptr h (elim r [
      | none ↦ none
      | some (n, bs) ↦
          some (record h { blocks = bs; used_bytes = (h.used_bytes + 2 ^ 64 - n) % 2 ^ 64 })
    ])
unfolding used
taken base end ptr h none count small busy = busy
taken base end ptr h (some (n, bs)) count small (lay, (a, xs, ys, here, before, after), head) = (
  (
    lay,
    rw (after) (
        let total = ap used before in
        omega (arith, count, small, total, used-append xs ys, used-append xs ((a, n) ∷ ys))),
  ),
  (n, (a, xs, ys, here, before, after)),
)

-- On a valid heap whose blocks in use have less than 2^64 bytes, `kfree` of a pointer other than
-- null fails (an assertion) only where no block in use has its data there; else the heap is valid
-- again, that block is out of use, and all other blocks in use are as they were.
pub kfree-Takes :
    (base end ptr : ℕ) (h : Heap)
    → ptr ≢ 0
    → used (live h.blocks) < 2 ^ 64
    → IsValid base end h
    → Takes base end ptr h (kfree ptr h)
unfolding kfree
kfree-Takes base end ptr h ne small (lay, count) = rw (ne→== ptr 0 ne) (
    taken base end ptr h (release ptr h.blocks) count small
      (release-Releases base end ptr h.blocks lay))
