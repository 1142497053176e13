-- ===== src/Trd.antt =====
-- Tiered reliable dissemination (TRD): master/trd and the C files of mote/lib/trd.
pub mod Seqno
pub mod NodeCache
pub mod Table
pub mod MetaList
pub mod Memory
pub mod Fragment
pub mod Timer
pub mod Msg
pub mod State
pub mod Link
