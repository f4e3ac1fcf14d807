-- ===== src/Aql.antt =====
-- src/aql.h and src/aql.cpp: the AQL packet formats.
pub mod Packet
