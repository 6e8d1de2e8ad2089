-- ===== src/Game/Blast.antt =====
-- Which fields an explosion reaches: `Game::explode_one_direction` and `Game::find_explosions`
-- against a description in terms of distance, board and blocks.
pub mod Ray
pub mod Loop
pub mod Cross
pub mod Bombs
pub mod Report
