-- ===== src/Storage.antt =====
-- internal/service/storage.go
pub mod Prefix
pub mod Objects
pub mod Files
