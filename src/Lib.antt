-- ===== src/Lib.antt =====
-- Tenet: the dissemination protocol TRD and the reliable transport of the master, as a model with its
-- theorems.
--
-- TRD brings packets from any node to every node of the network. Its parts, from the bottom up:
--   Timeval        master/include/timeval.c, times and spans
--   Trd.Seqno      mote/lib/trd/trd_seqno.c, sequence numbers 1 .. 5000 that wrap
--   Trd.NodeCache  mote/lib/trd/trd_nodecache.c, the last packets known of one origin
--   Trd.Table      mote/lib/trd/trd_table.c, the node caches of up to five origins
--   Trd.MetaList   mote/lib/trd/trd_metalist.c, a circular list of packets to send again
--   Trd.Memory     master/trd/trd_memory.c, the store of packets
--   Trd.Fragment   master/trd/trd_fragment.c, large packets cut up and joined again
--   Trd.Timer      master/trd/trd_timer.c, the Trickle timer
--   Trd.Msg        mote/lib/trd/trd.h and trd_checksum.c, messages in bytes and their checksum
--   Trd.State      master/trd/trd_state.c, the handlers of messages, summaries, requests and timers
--   Trd.Link       master/trd/trd.c, what comes from the serial link and what a node sends itself
-- The handlers of Trd.State classify what comes in by the table, which uses the node caches and the
-- order of the sequence numbers; they put new packets into the store, enter their place in the table,
-- reset or suppress the Trickle timer, and send summaries, requests and packets. A packet that is
-- larger than one message goes through Trd.Fragment first.
--
-- The reliable transport carries tasks to single motes and streams of data back:
--   Transport.Seqno           mote/lib/transport/tr_seqno.c, sequence numbers 1 .. 50000 that wrap
--   Transport.Packet          mote/lib/transport/transport.h, tr_packet.c and tr_checksum.c, messages in
--                             bytes and their checksum
--   Transport.U16List         master/transport/uint16list.c, missing sequence numbers
--   Transport.PacketList      master/transport/sortedpacketlist.c, packets that wait for others
--   Transport.Connection      master/transport/connectionlist.c, connections by transaction and address
--   Transport.Stream          master/transport/streamtransport.c, streams from the motes
--   Transport.PacketTransport master/transport/packettransport.c, packets sent until acknowledged
--   Transport.TidList         master/transport/tidlist.c, the transactions of the clients
--   Transport.Tcmp            master/transport/tcmp.c, pings and traces of routes
--   Transport.Routing         master/transport/routinglayer.c and master/include/tosmsg.c, the headers of
--                             routed messages
--   Transport.Main            master/transport/transportmain.c, what the clients, the router and the
--                             timers cause, with service_receive_response of service.c
-- Transport.Main assigns a number to a client's task by Transport.TidList and sends the task by
-- Transport.PacketTransport; what the two transports call when a packet, an acknowledgement or the end
-- of a stream comes, and what the pings report, is an event, which Transport.Main handles after the
-- operation. Transport.Main.Router takes packets from the router apart by Transport.Routing and gives
-- them to the part of their protocol. What rcrtransport.c calls back there, and TRD, whose part above has a
-- state of its own, for a packet or a poll of the timers are arguments, and Transport.Main handles them.
-- Packets have the five bytes of a header that OLD_TOS_MSG_FORMAT of master/include/Makerules selects. Transport.Stream puts
-- the packets of a stream back into order with Transport.PacketList, and asks for those that
-- Transport.U16List holds. A stream is described by positions 0, 1, 2, ...: Transport.Seqno.Order says
-- which sequence number a position has, and Transport.Stream.Positions what the buffer does to them.
--
-- The library of the applications makes the packets of tasks and reads what a mote answers:
--   Tasklib.Elements          master/tasklib/element_construct.c, the elements of a task in bytes, with
--                             the test packets of task_construct.c
--   Tasklib.Reading           read_response of master/tasklib/tenetAPI.c, a packet taken apart
--   Tasklib.Response          master/tasklib/response.c, the attributes of an answer, sorted by type
-- Tasklib.Reading inserts the attributes of a packet by Tasklib.Response. Tasks and answers have their
-- attributes in the same bytes, which Tasklib.Reading.Attrs describes. A
-- constructor that leaves the last byte of its element unassigned needs no room for that byte.
-- construct_deleteTaskIf is construct_delete_task_if here, and so on.
--
-- A C function `trd_table_insert` is `table_insert` here, `nodecache_incrementAge` is
-- `nodecache_increment_age`, and so on; the handlers keep their full names. The global variables of a
-- C file are a record that each operation takes and returns. An array is a list of the array's length.
-- A number is a natural number; a uint16_t or uint8_t that the code lets wrap is reduced modulo 2 ^ 16
-- or 2 ^ 8. The time of day and the random numbers are arguments, read once for each call. What a
-- handler sends is appended to the list `sent`. Where the C code writes outside an array or never
-- returns, the model's result is a `fault`.
--
-- Loops run over lists or on fuel: 14 rounds reduce every uint16_t below TRD_SEQNO_LAST; the loop that
-- raises the ages has the message's age + 1 rounds, as each round raises an age other than 0 by one and
-- never changes an age 0; the inner loop over a request has one round more than a node cache has
-- entries, as the sequence numbers that it goes through differ. The loop that notes missing packets has
-- the circle of 50000 numbers and two rounds more, and comes to the packet's own number in less; the
-- loop of send_NACK has a round for each missing number and each item of the message; the loop that
-- assigns a transaction's number has the circle of a uint16_t and two rounds more, in which it meets
-- every number that is free. read_response has a round for each byte of the packet and needs fewer, as an
-- attribute takes four bytes at least.
--
-- Not modelled: printing, sockets and serial lines; malloc is taken to succeed; the bytes of the control
-- messages that are sent; the statistics of rates and losses, which the transports only log; of
-- transportmain.c the sockets, the command line and the main loop; rcrtransport.c, whose rates are
-- floating-point numbers; service_send_request and dispatch_packet of client.c, which are recorded as
-- calls, so that a client that dispatch_packet drops is gone in a step of its own; the rest of the tasking library: the parser of tp.c, the elements for images and those of
-- rle, packbits and vector, and response_pop, which hands on freed memory; the router, and the nesC code
-- of the motes.
pub mod Prelude
pub mod Timeval
pub mod Trd
pub mod Transport
pub mod Tasklib
pub mod Examples
