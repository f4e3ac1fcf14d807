-- ===== src/Exporter.antt =====
-- src/prometheus_exporter.h and src/prometheus_exporter.cpp: what is counted, and when.
pub mod Metrics
pub mod Queues
pub mod Packets
pub mod Storage
pub mod Rates
pub mod Totals
pub mod Counts
pub mod Window
pub mod Platform
