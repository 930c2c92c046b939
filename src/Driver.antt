-- ===== src/Driver.antt =====
-- src/ServerDriver.cpp: the documents of the server and what they depend on.
pub mod Dependencies
mod Trees
pub mod Invariant
pub mod Closure
pub mod Session
mod Tests
