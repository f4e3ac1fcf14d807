-- ===== src/Main.antt =====
-- src/main.cpp: the options, the routing of queues and records to the outputs, and the end of a run.
pub mod Options
pub mod Session
pub mod Sinks
pub mod Finish
pub mod Gains
pub mod Lookups
pub mod Routing
pub mod Written
pub mod Checks
