-- ===== src/Sdma.antt =====
-- src/sdma.h and src/sdma.cpp: the decoder of the SDMA microcode packets.
pub mod Defs
pub mod Length
pub mod Names
pub mod Copy
pub mod Topology
