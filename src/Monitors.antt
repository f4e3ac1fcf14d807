-- ===== src/Monitors.antt =====
-- src/ais_monitor.cpp and src/xnack_monitor.cpp: the monitors of storage transfers and of page
-- faults, which read lines that the kernel or a subprocess prints.
pub mod Pcie
pub mod Resolve
pub mod Ais
pub mod Xnack
pub mod Devices
