-- ===== src/Db.antt =====
-- kernel/db: the database engine.
pub mod Btree
pub mod Record
pub mod Engine
pub mod Query
pub mod Transaction
