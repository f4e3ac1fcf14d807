-- ===== src/Tests.antt =====
-- The theorems applied to concrete queues, packets and processes.
mod Data
mod Polls
mod Packets
mod Memory
mod Symbols
mod Log
mod Trace
mod Discovery
mod Routing
mod Monitors
mod Written
