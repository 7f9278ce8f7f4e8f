-- ===== src/Transport.antt =====
-- src/transport.rs: the client's end of the relay. The constants, and the accessors of envelope
-- fields that the children share.
pub mod Fields
pub mod Reassembly
pub mod Segments
pub mod Stream
pub mod Tests
