-- ===== src/Client.antt =====
-- client/: the game client.
pub mod SnapshotCache
pub mod Prediction
pub mod Events
pub mod Sends
pub mod NetClient
