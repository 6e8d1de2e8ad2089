-- ===== src/Game/Agreement.antt =====
-- The client's copy of the game against the server's game: the relation between the two, and that
-- one event keeps it when both sides make their change.
pub mod Events
pub mod Turns
pub mod Start
pub mod Opening
