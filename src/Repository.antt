-- ===== src/Repository.antt =====
-- internal/repository: each statement reads or rewrites the rows of a table; the constraints are
-- those of migrations/001_init.sql and migrations/002_media_and_rooms_schema.sql.
pub mod Sql
pub mod Rows
pub mod Users
pub mod Sessions
pub mod Rooms
pub mod MediaRows
