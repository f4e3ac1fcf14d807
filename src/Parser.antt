-- ===== src/Parser.antt =====
-- src/parser.h and src/parser.cpp: the ring poller.
pub mod State
pub mod Slot
pub mod PollAql
pub mod Ring
pub mod PollSdma
pub mod Rounds
pub mod RoundsApart
pub mod Order
pub mod Step
pub mod Accounting
pub mod Occurs
pub mod History
pub mod Own
pub mod Eviction
pub mod SdmaOrder
pub mod SdmaRetire
pub mod SdmaPoll
pub mod SdmaHistory
pub mod RingReads
