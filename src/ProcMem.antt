-- ===== src/ProcMem.antt =====
-- src/proc_mem.h and src/proc_mem.cpp: reads of another process's memory and maps.
pub mod Reads
pub mod FdCache
pub mod Vma
pub mod Footprint
pub mod Credit
