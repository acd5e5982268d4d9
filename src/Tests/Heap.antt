-- ===== src/Tests/Heap.antt =====
-- kernel/mm/heap.c on a small heap.
use vault_os.Prelude.{◌<◌, ◌^◌, [], ◌∷◌, true, false, refl, arith}
use vault_os.Heap.{Heap, kmalloc, kfree, live, used}
use vault_os.Heap.Alloc.{IsValid, Hands, kmalloc-Hands}
use vault_os.Heap.Free.{Takes, kfree-Takes}

-- Two blocks in use around a free one, from 1000 on.
abbrev small_heap : Heap
small_heap = record {
  blocks =
      record { addr = 1000; size = 64; free = false }
      ∷ record { addr = 1104; size = 512; free = true }
      ∷ record { addr = 1656; size = 48; free = false }
      ∷ [];
  total_size = 744;
  used_bytes = 112;
}

small_heap-IsValid : IsValid 1000 1744 small_heap
unfolding live used
small_heap-IsValid = ((refl, (refl, (refl, refl))), refl)

kmalloc-Hands_example : Hands 1000 1744 100 small_heap (kmalloc 100 small_heap)
kmalloc-Hands_example =
    kmalloc-Hands 1000 1744 100 small_heap (omega arith) (omega arith) small_heap-IsValid

small_heap-small : used (live small_heap.blocks) < 2 ^ 64
unfolding live used
small_heap-small = omega arith

kfree-Takes_example : Takes 1000 1744 1696 small_heap (kfree 1696 small_heap)
kfree-Takes_example =
    kfree-Takes 1000 1744 1696 small_heap (omega arith) small_heap-small small_heap-IsValid
