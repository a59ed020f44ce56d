-- ===== src/Protocol.antt =====
-- The wire protocol of the transform daemon, crates/daemon/os-daemon-protocol/src/lib.rs: the
-- definitions are in Fields, Frame and Message, and the other modules prove.
pub mod Fields
pub mod Frame
pub mod Message
pub mod FieldLaws
pub mod RoundTrip
pub mod ResponseRoundTrip
pub mod Canonical
pub mod CanonicalRequest
pub mod Stream
pub mod Examples
