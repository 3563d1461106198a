-- ===== src/Server.antt =====
-- server/: the game server.
pub mod Lobby
pub mod Registry
pub mod Queues
pub mod Broadcast
pub mod NetServer
pub mod Sim
