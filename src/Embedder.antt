-- ===== src/Embedder.antt =====
-- The embedder, workers/embedder/app.
pub mod Config
pub mod Logger
pub mod Embeddings
pub mod Connection
pub mod Db
pub mod Handle
pub mod Delivery
pub mod Steadiness
pub mod Main
pub mod Coverage
