-- ===== src/Ksym.antt =====
-- src/ksym.h and src/ksym.cpp: from kernel objects to kernel names.
pub mod Reader
pub mod Symbols
pub mod Image
pub mod Resolve
