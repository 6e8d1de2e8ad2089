-- ===== src/Server.antt =====
-- src/server.cpp: the main loop, the state that the server's threads share, and the two threads of
-- every client.
pub mod Shared
pub mod Outbound
pub mod Main
pub mod System
pub mod Rounds
pub mod Match
pub mod Inbound
pub mod Safety
