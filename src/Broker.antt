-- ===== src/Broker.antt =====
-- src/broker.rs: the machine protocol between a controller's user interface and the
-- relay; src/main.rs: the loop that serves it.
pub mod Pairing
pub mod Hosts
pub mod Session
pub mod Frames
pub mod Service
pub mod Tests
