-- ===== src/Models.antt =====
-- The rows of backend/app/models, a module for each of its files.
pub mod Status
pub mod User
pub mod Category
pub mod Request
pub mod Db
