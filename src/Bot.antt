-- ===== src/Bot.antt =====
-- bot/: the navigation of the bots.
pub mod FlowField
