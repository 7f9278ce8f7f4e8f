-- ===== src/Update.antt =====
-- src/update.rs: signed updates of the program. The file system is that of Files; the network and the
-- verification of provenance are parameters.
pub mod Writing
pub mod Installation
pub mod Tests
pub mod Manifest
pub mod Releases
pub mod Settings
pub mod Commands
