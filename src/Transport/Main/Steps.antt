-- ===== src/Transport/Main/Steps.antt =====
-- The steps of master/transport/transportmain.c: what comes from the router and from the timers.
use tenet_t.Prelude.{
  ℕ, sym, inl, inr, Bool, true, false, ◌||◌, none, some, List, [], append-nil, ltb, ◌==◌,
  if◌then◌else◌, Option-cases, length, drop, Fault, Run, ok, fault, ◌>>=◌,
}
use tenet_t.Timeval.{Timeval}
use tenet_t.Transport.TidList.{Tids, tidlist_find_tid}
use tenet_t.Transport.TidList.Distinct.{AreDistinctTids}
use tenet_t.Transport.PacketTransport.Handlers.{
  packettransport_receive, polling_packettransport_timer,
}
use tenet_t.Transport.Stream.Receive.{streamtransport_receive}
use tenet_t.Transport.Stream.Timer.{polling_streamtransport_timer}
use tenet_t.Transport.Tcmp.Handlers.{tcmp_receive, polling_tcmp_timer}
use tenet_t.Transport.Routing.{
  tos_header, am_tenet_routing, RoutedMsg, protocol_of, u16_at, tos_type, read_routing_msg,
}
use tenet_t.Transport.Main.{
  AppMsg, Outside, Master, trans_type_service, forget, send_to_app, with_ptr, with_str, with_tcmp,
  check_timer, on_str_events, on_trd_msgs,
}
use tenet_t.Transport.Main.Router.{
  protocol_packet_transport, protocol_stream_transport, protocol_rcr_transport, protocol_tcmp,
  is_trd_packet, am_bs_service, bs_service_time, bs_service_power, bs_header, copy,
  service_receive_response, receive_routed, check_router,
}
use tenet_t.Transport.Main.Owners.{
  IsFaithful, Keeps, bind-Keeps, forget-IsFaithful, send_to_app-IsFaithful, with_ptr-Keeps,
  with_str-Keeps, with_tcmp-Keeps, on_str_events-IsFaithful, on_trd_msgs-IsFaithful,
}

module _ (env : Outside) (base : Tids) (before : List AppMsg) (now : Timeval) where
  if-Keeps :
      (b : Bool) (x y : Run Master)
      → Keeps env base before x
      → Keeps env base before y
      → Keeps env base before (if b then x else y)
  if-Keeps true x y kx ky = kx
  if-Keeps false x y kx ky = ky

  check_timer-Keeps :
      (s : Master) → IsFaithful base before s → Keeps env base before (check_timer env now s)
  unfolding check_timer
  check_timer-Keeps s f =
      let str = λ (s1 : Master). with_str env (λ p. ok (polling_streamtransport_timer now p)) s1 in
      let rcr = λ (s2 : Master). on_str_events env (env.rcr_polled now) s2 in
      let tcmp = λ (s2 : Master). with_tcmp env (polling_tcmp_timer now) (rcr s2) in
      bind-Keeps env base before (with_ptr env (polling_packettransport_timer now) s)
        (λ s1. str s1 >>= tcmp)
        (with_ptr-Keeps env base before (polling_packettransport_timer now) s f)
        (λ s1 f1.
          bind-Keeps env base before (str s1) tcmp
            (with_str-Keeps env base before (λ p. ok (polling_streamtransport_timer now p)) s1 f1)
            (λ s2 f2.
              with_tcmp-Keeps env base before (polling_tcmp_timer now) (rcr s2)
                (on_str_events-IsFaithful env base before (env.rcr_polled now) s2 f2)))

  answered-Keeps :
      (here : ℕ) (copied : Run (List ℕ)) (tid : ℕ) (s : Master)
      → IsFaithful base before s
      → Keeps env base before (
          copied >>= λ msg.
          let told = send_to_app env msg trans_type_service tid here s in
          ok (elim (tidlist_find_tid s.tids.tids tid) [ none ↦ told | some t ↦ forget tid told ]))
  answered-Keeps here (fault e) tid s f = tt
  answered-Keeps here (ok msg) tid s f =
      let told = send_to_app env msg trans_type_service tid here s in
      let f' = send_to_app-IsFaithful env base before msg trans_type_service tid here s f in
      elim (Option-cases (tidlist_find_tid s.tids.tids tid)) [
        | inl gone ↦ rw gone f'
        | inr (t, found) ↦ rw found (forget-IsFaithful env base before tid told f')
      ]

  service-Keeps :
      (here len : ℕ) (bytes : List ℕ) (s : Master)
      → IsFaithful base before s
      → Keeps env base before (service_receive_response env here len bytes s)
  unfolding service_receive_response
  service-Keeps here len bytes s f =
      let tid = u16_at bytes 0 in
      let type = u16_at bytes 2 in
      let answered = copy len bytes >>= λ msg.
      let told = send_to_app env msg trans_type_service tid here s in
      ok (elim (tidlist_find_tid s.tids.tids tid) [ none ↦ told | some t ↦ forget tid told ]) in
      let asked = type == bs_service_time || type == bs_service_power in
      if-Keeps (ltb (length bytes) bs_header) (fault Fault.out_of_bounds)
        (if asked then answered else ok s) tt
        (if-Keeps asked answered (ok s) (answered-Keeps here (copy len bytes) tid s f) f)

  receive_routed-Keeps :
      (here : ℕ) (m : RoutedMsg) (s : Master)
      → IsFaithful base before s
      → Keeps env base before (receive_routed env here now m s)
  unfolding receive_routed
  receive_routed-Keeps here m s f =
      let protocol = protocol_of m.protocol in
      let ptr = with_ptr env (packettransport_receive m.src m.payload) s in
      let str = with_str env (streamtransport_receive now m.src m.payload) s in
      let tcmp = with_tcmp env (tcmp_receive here now m.payload m.src m.dst) s in
      let rcr : Run Master = ok (on_str_events env (env.rcr_receives m.src m.payload) s) in
      let end = if protocol == protocol_tcmp then tcmp else ok s in
      let last = if protocol == protocol_rcr_transport then rcr else end in
      let later = if protocol == protocol_stream_transport then str else last in
      let rest = if protocol == protocol_packet_transport then ptr else later in
      if-Keeps (length m.payload == 0) (ok s) rest f (
        if-Keeps (protocol == protocol_packet_transport) ptr later
          (with_ptr-Keeps env base before (packettransport_receive m.src m.payload) s f)
          (if-Keeps (protocol == protocol_stream_transport) str last
            (with_str-Keeps env base before (streamtransport_receive now m.src m.payload) s f)
            (if-Keeps (protocol == protocol_rcr_transport) rcr end
              (on_str_events-IsFaithful env base before (env.rcr_receives m.src m.payload) s f)
              (if-Keeps (protocol == protocol_tcmp) tcmp (ok s)
                (with_tcmp-Keeps env base before (tcmp_receive here now m.payload m.src m.dst) s f)
                f))))

  check_router-Keeps :
      (here : ℕ) (bytes : List ℕ) (s : Master)
      → IsFaithful base before s
      → Keeps env base before (check_router env here now bytes s)
  unfolding check_router
  check_router-Keeps here bytes s f =
      let service = service_receive_response env here (length bytes) (drop tos_header bytes) s in
      let routed : Run Master = elim (read_routing_msg bytes) [
        | none ↦ ok s
        | some m ↦ receive_routed env here now m s
      ] in
      let ready : Keeps env base before routed = elim (Option-cases (read_routing_msg bytes)) [
        | inl bad ↦ rw bad f
        | inr (m, read) ↦ rw read (receive_routed-Keeps here m s f)
      ] in
      let unicast = if tos_type bytes == am_tenet_routing then routed else ok s in
      let trd : Run Master = ok (on_trd_msgs env (env.trd_receives bytes) s) in
      let routed_or_trd = if is_trd_packet bytes then trd else unicast in
      let rest = if tos_type bytes == am_bs_service then service else routed_or_trd in
      if-Keeps (ltb (length bytes) tos_header) (fault Fault.out_of_bounds) rest tt (
        if-Keeps (tos_type bytes == am_bs_service) service routed_or_trd
          (service-Keeps here (length bytes) (drop tos_header bytes) s f)
          (if-Keeps (is_trd_packet bytes) trd unicast
            (on_trd_msgs-IsFaithful env base before (env.trd_receives bytes) s f)
            (if-Keeps (tos_type bytes == am_tenet_routing) routed (ok s) ready f)))

pub start-IsFaithful : (s : Master) → AreDistinctTids s.tids.tids → IsFaithful s.tids s.to_clients s
start-IsFaithful s d = (d, (λ tid fd h. h, ([], (sym (append-nil s.to_clients), tt))))

-- From a state with distinct transaction numbers, what a poll of the timers or a packet from the router
-- leaves, whatever its bytes and whatever rcrtransport.c and TRD call back, has distinct numbers; each
-- transaction left has the client that it had; and each message that is written goes to the client that
-- its transaction had, or is handed to dispatch_packet, for all clients, where it is for ALL_TID.
pub from_below-IsFaithful :
    (env : Outside) (here : ℕ) (now : Timeval) (bytes : List ℕ) (s : Master)
    → AreDistinctTids s.tids.tids
    → Keeps env s.tids s.to_clients (check_timer env now s)
      × Keeps env s.tids s.to_clients (check_router env here now bytes s)
from_below-IsFaithful env here now bytes s d =
    let f = start-IsFaithful s d in
    (
      check_timer-Keeps env s.tids s.to_clients now s f,
      check_router-Keeps env s.tids s.to_clients now here bytes s f,
    )
