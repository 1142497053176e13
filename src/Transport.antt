-- ===== src/Transport.antt =====
-- master/transport, the reliable transport between the master and the motes, with the parts of
-- mote/lib/transport that the two sides share.
pub mod Seqno
pub mod Routing
pub mod Packet
pub mod U16List
pub mod PacketList
pub mod Connection
pub mod Main
pub mod PacketTransport
pub mod TidList
pub mod Stream
pub mod Tcmp
