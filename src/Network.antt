-- ===== src/Network.antt =====
-- src/network/network_handler.h and .cpp: single numbers over TCP and UDP.
pub mod ByteOrder
pub mod Tcp
pub mod Stream
pub mod Udp
pub mod Channel
