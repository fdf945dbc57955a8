-- ===== src/Ocr.antt =====
-- The OCR worker, workers/ocr/app.
pub mod Config
pub mod Logger
pub mod Db
pub mod Extract
pub mod Handle
pub mod Consumer
pub mod Delivery
pub mod Steadiness
pub mod Main
pub mod Outage
