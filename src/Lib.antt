-- ===== src/Lib.antt =====
-- VaultOS: the parts of the kernel that keep its data and its authority, modelled and proved.
--
-- VaultOS is a kernel in C whose processes reach objects through capabilities and whose state
-- lives in a database of encrypted records. Its parts call one another: the database indexes
-- records with a B-tree and stores their serialized bytes in blocks of the kernel heap; access
-- is granted by sealed capabilities, kept in a table; processes are scheduled round-robin and
-- exchange messages through one queue.
--
-- The files:
--   ErrorCode      include/vaultos/error_codes.h: the result codes.
--   Ipc            kernel/proc/ipc.c: the message queue. `send` and `recv` are ipc_send and
--                  ipc_recv; Ipc.Refine relates them to a queue of at most 63 messages.
--   Cap            kernel/cap/capability.c: `create`, `validate`, `check`, `grant`, `revoke` and
--                  `delegate` are the functions cap_create and so on. Cap.Table is
--                  kernel/cap/cap_table.c, Cap.Seal is hmac_verify of kernel/crypto/hmac.c.
--                  Cap.Sealed and Cap.Keep have the invariant, Cap.Permit and Cap.Check are about
--                  cap_check, and Cap.Revoke with its children about the cascade of cap_revoke:
--                  Total for the kernel, Ends and Foreign for the other processes.
--   Db.Btree       kernel/db/btree.c: `insert` and `search` are btree_insert and btree_search.
--                  Model is the sorted list that a tree stands for; Weave, Search, Leaf, Split,
--                  Place, Descend, Insert and Laws prove the tree against it. Delete has `delete`
--                  and `scan`, btree_delete and btree_scan, with their proofs in its children.
--                  Behind a split an insertion may test keys[num_keys], one past the live keys:
--                  `aliased` is that test in a full node, where the slot is values[0].
--   Db.Record      kernel/db/record_serde.c: `serialize` and `deserialize`, with the limits of
--                  kernel/db/record.h; Codec is about writing, RoundTrip about reading back.
--   Sched          kernel/proc/scheduler.c: each function scheduler_f is `f`. Turns is about
--                  round-robin order, Start about scheduler_start.
--   Heap           kernel/mm/heap.c: `kmalloc` and `kfree`, with Heap.Alloc and Heap.Free.
--   Event          gui/event.c: `push`, `poll` and `pump` are event_push and so on; Queue relates the
--                  ring to a queue, Buttons and Pump tell which events the input becomes.
--   Crypto.Aes     kernel/crypto/aes.c: `encrypt_block_sw` and so on are the functions aes_f, `_ni` those
--                  by the processor's instructions, which the record `Hardware` has. Tables has the
--                  tables, Field that the products are linear, Round the steps of a round, Inverse
--                  the block cipher, Instructions both ways of it, Cbc the mode, and Vectors the
--                  published test vector. Crypto.Pkcs7 is the padding.
--   Crypto.Sha256  kernel/crypto/sha256.c: `update` is sha256_update, `final` sha256_final. Blocks
--                  states the standard's hash, Buffer, Stream and Final relate a context to it.
--   Crypto.Hmac    kernel/crypto/hmac.c: `hmac_init` and `compute` are hmac_ctx_init and
--                  hmac_ctx_compute.
--   Db.Engine      kernel/db/database.c: `insert_record` is db_insert_record, and so on. An index
--                  holds addresses, `objects` the encrypted records at them, and `allocated` the
--                  blocks that it has from the heap, about which Memory is. Tables has the
--                  invariant, Sealing is about encryption, Rows, Insert, Remove and Update about
--                  what is read after a write, Create about new tables, Errors about failures.
--                  Fields is kernel/db/record.c; System has the tables of the system and the
--                  record of the audit log.
--   Db.Query       kernel/db/query.c: `next_token` and the other functions of the tokenizer; Where has
--                  the conditions, Select and Execute the statement SELECT, Change the statements
--                  DELETE and UPDATE, Add the statement INSERT, Grant the statements GRANT and
--                  REVOKE, Tokens the progress of the tokenizer. Db.Transaction is
--                  kernel/db/transaction.c.
--   Strings        kernel/lib/string.c, as far as the query language uses it.
--   Prelude        tests on numbers, lists measured by native numbers, little-endian bytes, the
--                  binary digits of bitwise operations.
--   Tests          the theorems at concrete inputs.
--
-- Numbers are naturals; what C computes modulo 2^64 is written so where it can wrap. Arrays are
-- lists of their full length, except where only a live part is ever read (the keys of a B-tree
-- node, the bytes of a record), which is then the list. Pointers into the capability table are
-- ids, pointers to heap blocks are addresses. `now` is what pit_get_ticks returns, and the seal
-- is a parameter, hmac_ctx_compute under the key drawn at boot; no theorem needs a property of it.
-- In the database the keyed hash is the one of Crypto.Hmac; what kmalloc and random_bytes answer is
-- an argument, and the zeroing of buffers behind their last use is left out.
--
-- Fuel: ipc_recv gets one round for each of the 64 slots; btree_insert one for each level;
-- cap_revoke one for each nested call, and next_cap_id calls are proved enough; the loop over
-- blocks in sha256_update one for each byte, the loops over columns in exec_select and over
-- rights in exec_grant one for each character.
--
-- Not modelled: memory contents behind heap pointers, krealloc and heap_expand; btree_destroy;
-- the texts of query results; the statements SHOW and DESCRIBE and the dispatch of
-- query_execute; most of the string functions; random numbers, paging, devices, assembly, the
-- shell, and the graphical interface but for its events.
pub mod Prelude
pub mod Strings
pub mod ErrorCode
pub mod Ipc
pub mod Cap
pub mod Db
pub mod Sched
pub mod Heap
pub mod Event
pub mod Crypto
pub mod Tests
