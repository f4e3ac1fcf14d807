-- ===== src/Discovery.antt =====
-- src/discovery.h and src/discovery.cpp: how the queues of other processes are found.
pub mod Fields
pub mod Reads
pub mod Kprobe
pub mod Uprobe
pub mod Lines
pub mod Spin
pub mod Queues
pub mod Printed
pub mod RoundTrip
pub mod Files
