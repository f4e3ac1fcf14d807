-- ===== src/DispatchLog.antt =====
-- src/dispatch_log.cpp: the log with one JSON object on each line.
pub mod Escape
pub mod Lines
pub mod Printable
