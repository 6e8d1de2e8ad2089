-- ===== src/Examples.antt =====
-- The theorems at work on a small game: two players on a board of 3 × 3 fields.
pub mod Data
pub mod Host
pub mod Wire
pub mod Threads
pub mod Play
pub mod Lobby
pub mod Server
pub mod Shell
pub mod Pictures
