-- ===== src/Tests.antt =====
-- Concrete inputs, on which the theorems of the other modules apply.
mod Messages
mod Snapshots
mod World
mod Matches
mod Bots
mod Clients
mod Servers
mod Loops
mod Histories
mod Lobbies
mod Frames
mod Registries
mod Events
