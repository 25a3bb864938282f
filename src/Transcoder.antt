-- ===== src/Transcoder.antt =====
-- internal/service/media_transcoder.go
pub mod Tail
pub mod Workspaces
pub mod Retry
pub mod Commands
pub mod Processing
pub mod Worker
