-- ===== src/Api.antt =====
-- src/api.rs: the calls of the relay's HTTP interface.
pub mod Choice
pub mod Environment
pub mod Names
pub mod Pages
pub mod Retry
pub mod Tests
