-- ===== src/Sql.antt =====
-- Connections, transactions and the statements that both workers send to PostgreSQL
-- (workers/ocr/app/db.py and workers/embedder/app/db.py). A worker's transactions are not
-- interleaved with those of other processes.
pub mod Transaction
pub mod Statements
pub mod Chunks
pub mod Steadiness
pub mod Rules
pub mod Update
pub mod Laws
pub mod Changes
