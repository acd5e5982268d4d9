-- ===== src/Heap.antt =====
-- kernel/mm/heap.c: the kernel's first-fit heap. The doubly linked list of blocks is a list; a
-- pointer to a block is its address, and `kmalloc` hands out the address behind the header.
pub mod Alloc
pub mod Free
use vault_os.Prelude.{
  ℕ, zero, suc, ◌+◌, ◌-◌, ◌*◌, ◌/◌, ◌%◌, ◌^◌, List, [], ◌∷◌, Option, none, some, Bool, true, false,
  not, ◌&&◌, if◌then◌else◌, ◌==◌, ◌≡◌, leb,
}

-- `heap_block_t` without its magic number, which no operation changes.
pub record Block : Type 0 where
  pub addr : ℕ
  pub size : ℕ
  pub free : Bool

-- The static variables of the file.
pub record Heap : Type 0 where
  pub blocks : List Block
  pub total_size : ℕ
  pub used_bytes : ℕ

-- `sizeof(heap_block_t)`, `MIN_BLOCK_SIZE`
abbrev pub header_size : ℕ
header_size = 40

abbrev pub min_block_size : ℕ
min_block_size = 32

-- `ALIGN_UP(x, 16)` on size_t
unfoldable pub align_up : ℕ → ℕ
align_up x = ((x + 15) % 2 ^ 64) / 16 * 16

-- `heap_init`, at `base` with the first 256 pages
unfoldable pub init : ℕ → Heap
init base = record {
  blocks = record { addr = base; size = 256 * 4096 - header_size; free = true } ∷ [];
  total_size = 256 * 4096;
  used_bytes = 0;
}

-- What `kmalloc` makes of the free block that it has found. The sum in the test does not wrap: the
-- block holds `size` bytes already, and no block comes near 2^64.
unfoldable pub carve : ℕ → Block → List Block → ℕ × List Block
carve size b bs =
    if leb (size + header_size + min_block_size) b.size
    then (
      size,
      record b { size = size; free = false }
          ∷ record {
            addr = b.addr + header_size + size;
            size = b.size - size - header_size;
            free = true;
          }
          ∷ bs,
    )
    else (b.size, record b { free = false } ∷ bs)

-- The loop of `kmalloc`: the address of the block, its size, and the blocks after it.
unfoldable pub alloc : ℕ → List Block → Option (ℕ × ℕ × List Block)
alloc size [] = none
alloc size (b ∷ bs) =
    if b.free && leb size b.size
    then (let (n, cs) = carve size b bs in some (b.addr, n, cs))
    else (elim (alloc size bs) [ none ↦ none | some (a, n, cs) ↦ some (a, n, b ∷ cs) ])

-- The rest of `kmalloc`.
unfoldable pub place : ℕ → Heap → Option ℕ × Heap
place size h = elim (alloc size h.blocks) [
  | none ↦ (none, h)
  | some (a, n, bs) ↦
      (some (a + header_size), record h { blocks = bs; used_bytes = (h.used_bytes + n) % 2 ^ 64 })
]

-- `kmalloc`
unfoldable pub kmalloc : ℕ → Heap → Option ℕ × Heap
kmalloc size h = if size == 0 then (none, h) else place (align_up size) h

-- `kfree` on the block and the one behind it.
unfoldable pub join_next : Block → List Block → List Block
join_next b [] = b ∷ []
join_next b (c ∷ cs) =
    if c.free then record b { size = b.size + header_size + c.size } ∷ cs else b ∷ c ∷ cs

-- `kfree` on the block before the one that has just been freed.
unfoldable pub join_prev : Block → List Block → List Block
join_prev b [] = b ∷ []
join_prev b (c ∷ cs) =
    if b.free then record b { size = b.size + header_size + c.size } ∷ cs else b ∷ c ∷ cs

unfoldable pub is_target : ℕ → List Block → Bool
is_target ptr [] = false
is_target ptr (b ∷ bs) = b.addr + header_size == ptr

-- `kfree` on the list: the size that is no longer used, and the blocks. `none` is a failed
-- assertion: no block stands before `ptr`, or it is free already. A `ptr` into other memory, which
-- the source refuses only if no `HEAP_MAGIC` happens to stand before it, is refused here.
unfoldable pub release : ℕ → List Block → Option (ℕ × List Block)
release ptr [] = none
release ptr (b ∷ bs) =
    if b.addr + header_size == ptr
    then (if b.free then none else some (b.size, join_next (record b { free = true }) bs))
    else (elim (release ptr bs) [
      | none ↦ none
      | some (n, cs) ↦ some (n, if is_target ptr bs then join_prev b cs else b ∷ cs)
    ])

-- `kfree`; a null pointer is 0.
unfoldable pub kfree : ℕ → Heap → Option Heap
kfree ptr h = if ptr == 0 then some h else (elim (release ptr h.blocks) [
  | none ↦ none
  | some (n, bs) ↦
      some (record h { blocks = bs; used_bytes = (h.used_bytes + 2 ^ 64 - n) % 2 ^ 64 })
])

-- The free-list view: the blocks lie one behind the other from `a` to `e`.
abbrev pub Layout : ℕ → List Block → ℕ → Type 0
Layout a [] e = a ≡ e
Layout a (b ∷ bs) e = (b.addr ≡ a) × Layout (a + header_size + b.size) bs e

-- The blocks in use, with their sizes.
unfoldable pub live : List Block → List (ℕ × ℕ)
live [] = []
live (b ∷ bs) = if b.free then live bs else (b.addr, b.size) ∷ live bs

unfoldable pub used : List (ℕ × ℕ) → ℕ
used [] = 0
used ((a, n) ∷ bs) = n + used bs
