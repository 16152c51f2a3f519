-- ===== src/Store.antt =====
-- The database of cloud/common/db/models.py: one module for each group of tables, and the
-- statements that the workers run on them.
pub mod Incident
pub mod Rows
pub mod Db
pub mod Lookup
pub mod Inserts
