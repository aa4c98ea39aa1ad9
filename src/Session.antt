-- ===== src/Session.antt =====
-- include/fountainer/protocol/session.hpp and src/protocol/session.cpp.
pub mod Types
pub mod Sender
pub mod Values
pub mod Reports
pub mod Machine
pub mod Handshake
pub mod Running
pub mod Ids
pub mod Branches
pub mod History
pub mod Quiet
pub mod Live
pub mod Passage
pub mod Welcome
pub mod Once
pub mod States
pub mod Waits
pub mod Proof
pub mod Guard
pub mod Keys
pub mod Agreement
pub mod Ready
pub mod Frames
pub mod Answers
