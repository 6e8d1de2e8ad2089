-- ===== src/Game/Progress.antt =====
-- No method of the server throws on a well-formed game, and the game stays well formed.
pub mod Steps
pub mod Loops
pub mod Turns
pub mod Start
