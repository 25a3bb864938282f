-- ===== src/Http.antt =====
-- internal/http: the requests that the server reads, the handlers and the router.
pub mod Message
pub mod Codec
pub mod Reading
pub mod Accounts
pub mod RoomHandlers
pub mod StateHandlers
pub mod FileHandlers
pub mod Cors
pub mod Logging
pub mod Router
