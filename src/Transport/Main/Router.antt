-- ===== src/Transport/Main/Router.antt =====
-- What comes from the router to master/transport/transportmain.c: check_router, and
-- service_receive_response of service.c. What rcrtransport.c and TRD call back for
-- their packets are arguments.
use tenet_t.Prelude.{
  Bool, ℕ, ◌||◌, none, some, List, ltb, leb, ◌==◌, if◌then◌else◌, length, take, drop, Fault, Run,
  ok, fault, ◌>>=◌,
}
use tenet_t.Timeval.{Timeval}
use tenet_t.Trd.Link.{am_trd_msg, am_trd_control}
use tenet_t.Transport.TidList.{tidlist_find_tid}
use tenet_t.Transport.Routing.{
  tos_header, am_tenet_routing, RoutedMsg, protocol_of, u16_at, tos_type, read_routing_msg,
}
use tenet_t.Transport.PacketTransport.Handlers.{packettransport_receive}
use tenet_t.Transport.Stream.Receive.{streamtransport_receive}
use tenet_t.Transport.Tcmp.Handlers.{tcmp_receive}
use tenet_t.Transport.Main.{
  Outside, Master, trans_type_service, forget, send_to_app, with_ptr, with_str, with_tcmp,
  on_str_events, on_trd_msgs,
}

abbrev pub protocol_packet_transport : ℕ
protocol_packet_transport = 0x10

abbrev pub protocol_stream_transport : ℕ
protocol_stream_transport = 0x20

abbrev pub protocol_rcr_transport : ℕ
protocol_rcr_transport = 0x50

abbrev pub protocol_tcmp : ℕ
protocol_tcmp = 0x04

abbrev pub am_bs_service : ℕ
am_bs_service = 0xbb

abbrev pub bs_service_time : ℕ
bs_service_time = 0xc1

abbrev pub bs_service_power : ℕ
bs_service_power = 0xc3

-- The header of a BaseStationServiceMsg: its transaction and its type.
abbrev pub bs_header : ℕ
bs_header = 4

-- memcpy of `len` bytes from a packet's bytes.
abbrev pub copy : ℕ → List ℕ → Run (List ℕ)
copy len bytes = if leb len (length bytes) then ok (take len bytes) else fault Fault.out_of_bounds

-- is_trd_packet of master/trd/trd_misc.c.
abbrev pub is_trd_packet : List ℕ → Bool
is_trd_packet bytes = tos_type bytes == am_trd_msg || tos_type bytes == am_trd_control

module _ (env : Outside) (here : ℕ) where
  -- service_receive_response of `len` bytes from the packet's bytes, which may be fewer. The report of a
  -- base station's address is only printed.
  unfoldable pub service_receive_response : ℕ → List ℕ → Master → Run Master
  unfolding send_to_app
  service_receive_response len bytes s =
      let tid = u16_at bytes 0 in
      let type = u16_at bytes 2 in
      let answered = copy len bytes >>= λ msg.
      let told = send_to_app env msg trans_type_service tid here s in
      ok (elim (tidlist_find_tid s.tids.tids tid) [ none ↦ told | some t ↦ forget tid told ]) in
      if ltb (length bytes) bs_header
      then fault Fault.out_of_bounds
      else if type == bs_service_time || type == bs_service_power
      then answered
      else ok s

  -- A packet of the routing layer.
  unfoldable pub receive_routed : Timeval → RoutedMsg → Master → Run Master
  unfolding with_ptr with_str with_tcmp on_str_events
  receive_routed now m s =
      let protocol = protocol_of m.protocol in
      if length m.payload == 0
      then ok s
      else if protocol == protocol_packet_transport
      then with_ptr env (packettransport_receive m.src m.payload) s
      else if protocol == protocol_stream_transport
      then with_str env (streamtransport_receive now m.src m.payload) s
      else if protocol == protocol_rcr_transport
      then ok (on_str_events env (env.rcr_receives m.src m.payload) s)
      else if protocol == protocol_tcmp
      then with_tcmp env (tcmp_receive here now m.payload m.src m.dst) s
      else ok s

  -- check_router on the bytes of a TOS_Msg. service_receive_response gets the length of the whole packet
  -- with the bytes behind its header.
  unfoldable pub check_router : Timeval → List ℕ → Master → Run Master
  unfolding service_receive_response receive_routed on_trd_msgs
  check_router now bytes s =
      if ltb (length bytes) tos_header
      then fault Fault.out_of_bounds
      else if tos_type bytes == am_bs_service
      then service_receive_response (length bytes) (drop tos_header bytes) s
      else if is_trd_packet bytes
      then ok (on_trd_msgs env (env.trd_receives bytes) s)
      else if tos_type bytes == am_tenet_routing
      then elim (read_routing_msg bytes) [ none ↦ ok s | some m ↦ receive_routed now m s ]
      else ok s
