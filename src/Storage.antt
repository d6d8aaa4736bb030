-- ===== src/Storage.antt =====
-- The crate rspark-storage: the sources that read CSV and JSON, and the writer of both.
pub mod Csv
pub mod Json
pub mod Writer
