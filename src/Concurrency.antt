-- ===== src/Concurrency.antt =====
-- The containers of src/concurrency, which threads share. Every method holds the container's mutex
-- from its first line to its last, so a method is one step on the container's state, and what
-- several threads do to a container is a sequence of such steps.
pub mod Blocking
pub mod MoveContainer
pub mod AcceptedPlayers
pub mod TurnContainer
