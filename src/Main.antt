-- ===== src/Main.antt =====
-- src/main_server.cpp and src/main_client.cpp: the two programs, how they start and what drives them.
pub mod ServerMain
pub mod ClientMain
pub mod Running
pub mod Sending
pub mod Typed
pub mod Ended
