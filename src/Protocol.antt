-- ===== src/Protocol.antt =====
-- shared/protocol.{h,cpp}: the messages and their wire forms.
pub mod Fields
pub mod Slots
pub mod Handshake
pub mod Events
pub mod Snapshot
pub mod Delta
pub mod RoundTrip
