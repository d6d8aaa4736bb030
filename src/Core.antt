-- ===== src/Core.antt =====
-- The crate rspark-core: values, schemas, records and expressions.
pub mod Platform
pub mod Value
pub mod Schema
pub mod Record
pub mod Expr
