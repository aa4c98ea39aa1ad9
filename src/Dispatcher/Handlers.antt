-- ===== src/Dispatcher/Handlers.antt =====
-- Who still waits for an answer, and who has been called: the promise of dispatcher.hpp that a
-- handler is called exactly once.
pub mod Loops
pub mod Steps
pub mod Once
