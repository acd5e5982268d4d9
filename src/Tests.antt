-- ===== src/Tests.antt =====
-- The theorems at concrete inputs, one file for each part of the kernel.
mod Ipc
mod Cap
mod Btree
mod Record
mod Sched
mod Heap
mod Event
mod Crypto
mod Engine
mod Query
