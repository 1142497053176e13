-- ===== src/Transport/Main.antt =====
-- master/transport/transportmain.c: the master's state, what the transports call, and tasks and their
-- end. `Clients` has what else comes from a client, `Router` what comes from the router. Arguments are
-- whether a write to a client's socket succeeds, and what rcrtransport.c and the dissemination protocol,
-- whose states are not part of this one, answer and call back: the former calls what streamtransport.c
-- calls, the latter hands packets up. A message that dispatch_packet of client.c gets, for all
-- clients, is recorded with no socket; that it drops a client whose socket fails, and so calls
-- close_all_tid_for_a_client of `Clients`, is a step of its own.
pub mod Clients
pub mod Router
pub mod Owners
pub mod Service
pub mod Reach
pub mod Outcome
pub mod Gone
pub mod Steps
pub mod Task
use tenet_t.Prelude.{
  ℕ, zero, suc, ◌+◌, ◌-◌, ◌*◌, ◌/◌, ◌%◌, ◌^◌, ◌≤◌, ◌<◌, min, Ordering, ◌≡◌, refl, sym, ap, ap₂, ◌∙◌,
  ◌≢◌, ◌↔◌, ◌⊎◌, inl, inr, Bool, true, false, not, ◌&&◌, ◌||◌, Option, none, some, List, [], ◌∷◌,
  ◌++◌, map, append-nil, append_assoc, arith, ltb, leb, ◌==◌, if◌then◌else◌, ltb→lt, lt→ltb, leb→le,
  ==_iff, Bool-cases, Option-cases, length, get_elem?, set, length-append, length-set, get_or, take,
  drop, replicate, take-append-drop, length-take, length-drop, length-replicate, length-map,
  take_all, u16_mod, u8_mod, Fault, Run, ok, fault, ◌>>=◌, All, All-append, All-set, All-take,
  All-get_or, All-replicate, All-mono, All-map, take-set_below, take-set_next, get_or-take,
  get_or-set_self, get_or-set_ne, take-set_above, set_outside, take-take, Run-cases,
}
use tenet_t.Timeval.{Timeval}
use tenet_t.Transport.TidList.{
  TidEntry, Tids, all_tid, tidlist_find_tid, assign_new_tid, tidlist_add_tid, tidlist_remove_tid,
  find_client_fd,
}
use tenet_t.Transport.PacketTransport.{PtrEvent, Ptrs, packettransport_send}
use tenet_t.Transport.PacketTransport.Handlers.{
  packettransport_tid_is_alive, packettransport_delete_tid, polling_packettransport_timer,
}
use tenet_t.Transport.Stream.{StrEvent, Streams, stream_tid_is_alive, streamtransport_delete_tid}
use tenet_t.Transport.Tcmp.{PingMsg, TcmpEvent, Tcmps, ping_msg_bytes}
use tenet_t.Transport.Tcmp.Handlers.{polling_tcmp_timer}
use tenet_t.Transport.Stream.Timer.{polling_streamtransport_timer}

-- tr_if_msg_t, with the socket that it is written to, or none if it goes to dispatch_packet.
pub record AppMsg : Type 0 where
  pub fd : Option ℕ
  pub type : ℕ
  pub tid : ℕ
  pub addr : ℕ
  pub msg : List ℕ

-- A packet that receive_trd_transport gets.
pub record TrdMsg : Type 0 where
  pub tid : ℕ
  pub addr : ℕ
  pub msg : List ℕ

pub record Outside : Type 0 where
  pub written : ℕ → Bool
  pub rcr_is_alive : ℕ → Bool
  pub trd_accepts : ℕ → List ℕ → Bool
  pub rcr_receives : ℕ → List ℕ → List StrEvent
  pub rcr_polled : Timeval → List StrEvent
  pub trd_receives : List ℕ → List TrdMsg

-- `services` is what service_send_request gets, `to_clients` what is written to the clients.
pub record Master : Type 0 where
  pub tids : Tids
  pub ptrs : Ptrs
  pub strs : Streams
  pub tcmps : Tcmps
  pub services : List (ℕ × List ℕ)
  pub to_clients : List AppMsg

abbrev pub trans_type_task : ℕ
trans_type_task = 0x01

abbrev pub trans_type_cmd_return : ℕ
trans_type_cmd_return = 0x02

abbrev pub trans_type_cmd_ack : ℕ
trans_type_cmd_ack = 0x03

abbrev pub trans_type_cmd_nack : ℕ
trans_type_cmd_nack = 0x04

abbrev pub trans_type_close : ℕ
trans_type_close = 0x05

abbrev pub trans_type_close_ack : ℕ
trans_type_close_ack = 0x06

abbrev pub trans_type_service : ℕ
trans_type_service = 0x22

abbrev pub trans_type_ping : ℕ
trans_type_ping = 0x23

abbrev pub trans_type_tracert : ℕ
trans_type_tracert = 0x24

abbrev pub trans_type_bcast : ℕ
trans_type_bcast = 0x30

abbrev pub trans_type_snoop : ℕ
trans_type_snoop = 0x31

abbrev pub trans_type_response : ℕ
trans_type_response = 0x11

-- TOS_BCAST_ADDR.
abbrev pub tos_bcast_addr : ℕ
tos_bcast_addr = 0xffff

abbrev pub forget : ℕ → Master → Master
forget tid s = record s { tids = tidlist_remove_tid tid s.tids }

abbrev pub tell : AppMsg → Master → Master
tell m s = record s { to_clients = s.to_clients ++ (m ∷ []) }

-- TASK_DELETE with no elements, as task_msg_t lays it out.
abbrev pub delete_task : List ℕ
delete_task = 3 ∷ 0 ∷ []

-- The entry of a transaction, marked for its end.
unfoldable pub close_entry : ℕ → List TidEntry → List TidEntry
close_entry tid [] = []
close_entry tid (t ∷ ts) =
    if t.tid == tid then record t { type = trans_type_close } ∷ ts else t ∷ close_entry tid ts

-- close_transport_connections; the connections of rcrtransport.c are not in the state.
unfoldable pub close_transport_connections : ℕ → Master → Master
close_transport_connections tid s = record s {
  ptrs = (packettransport_delete_tid tid s.ptrs).0;
  strs = (streamtransport_delete_tid tid s.strs).0;
}

module _ (env : Outside) where
  -- send_toApp with send_to_tid. A message of ALL_TID goes to dispatch_packet of client.c, whose list of
  -- clients is not part of the state: it is recorded with no socket.
  unfoldable pub send_to_app : List ℕ → ℕ → ℕ → ℕ → Master → Master
  send_to_app msg type tid addr s =
      let m : Option ℕ → AppMsg =
        λ fd. record { fd = fd; type = type; tid = tid; addr = addr; msg = msg } in
      if tid == all_tid then tell (m none) s else elim (find_client_fd tid s.tids) [
        | none ↦ s
        | some fd ↦ if env.written fd then tell (m (some fd)) s else forget tid s
      ]

  unfoldable pub check_transport_connections : ℕ → Master → Bool
  check_transport_connections tid s =
      packettransport_tid_is_alive s.ptrs.conns tid
      || (stream_tid_is_alive s.strs.conns tid || env.rcr_is_alive tid)

  unfoldable pub check_close_done : ℕ → Master → Master
  unfolding send_to_app check_transport_connections
  check_close_done tid s = elim (tidlist_find_tid s.tids.tids tid) [
    | none ↦ s
    | some t ↦
        if check_transport_connections tid s
        then s
        else forget tid (send_to_app [] trans_type_close_ack tid t.addr s)
  ]

  unfoldable pub senddone_packettransport : ℕ → ℕ → Bool → Master → Master
  unfolding send_to_app check_close_done
  senddone_packettransport tid addr success s = elim (tidlist_find_tid s.tids.tids tid) [
    | none ↦ s
    | some t ↦
        if t.type == trans_type_close
        then check_close_done tid s
        else if success
        then send_to_app [] trans_type_cmd_ack tid addr s
        else forget tid (send_to_app [] trans_type_cmd_nack tid addr s)
  ]

  -- receive_packettransport and senddone_packettransport; what is sent goes to the router.
  unfoldable pub on_ptr_event : PtrEvent → Master → Master
  unfolding senddone_packettransport
  on_ptr_event (PtrEvent.sent addr bytes) s = s
  on_ptr_event (PtrEvent.received tid addr msg) s = send_to_app msg trans_type_response tid addr s
  on_ptr_event (PtrEvent.send_done tid addr success) s = senddone_packettransport tid addr success s

  -- receive_streamtransport and streamtransport_tid_delete_done.
  unfoldable pub on_str_event : StrEvent → Master → Master
  unfolding send_to_app check_close_done
  on_str_event (StrEvent.received tid addr msg) s = send_to_app msg trans_type_response tid addr s
  on_str_event (StrEvent.delete_done tid) s = check_close_done tid s
  on_str_event (StrEvent.syn_ack tid addr) s = s
  on_str_event (StrEvent.fin_ack tid addr seqno) s = s
  on_str_event (StrEvent.nack tid addr seqno items) s = s

  -- receive_TCMP_ping_ack, receive_TCMP_tracert_ack and tidlist_remove_tid.
  unfoldable pub on_tcmp_event : TcmpEvent → Master → Master
  unfolding send_to_app
  on_tcmp_event (TcmpEvent.sent addr flag tid seqno ttl) s = s
  on_tcmp_event (TcmpEvent.ping_ack tid addr m) s =
      send_to_app (ping_msg_bytes m) trans_type_ping tid addr s
  on_tcmp_event (TcmpEvent.tracert_ack tid addr m) s =
      send_to_app (ping_msg_bytes m) trans_type_tracert tid addr s
  on_tcmp_event (TcmpEvent.over tid) s = forget tid s

  -- The result: `none` is -1. The length goes through a uint8_t on its way to packettransport_send.
  unfoldable pub tr_send_packet : Timeval → ℕ → ℕ → List ℕ → Master → Run (Option ℕ × Master)
  tr_send_packet now tid addr packet s =
      if addr == tos_bcast_addr
      then ok (if env.trd_accepts tid packet then some 1 else none, s)
      else (packettransport_send now tid addr (take (length packet % u8_mod) packet) s.ptrs >>= λ p.
          ok (some 2, record s { ptrs = p }))

  -- A TRANS_TYPE_TASK of the client at `fd`.
  unfoldable pub client_task : Timeval → ℕ → ℕ → List ℕ → Master → Run Master
  unfolding tr_send_packet send_to_app
  client_task now fd addr payload s0 = assign_new_tid 0 s0.tids >>= λ r.
      let tid = r.0 in
      let s = record s0 { tids = (tidlist_add_tid now tid addr trans_type_task fd r.1).1 } in
      tr_send_packet now tid addr payload s >>= λ sent. ok (elim sent.0 [
        | none ↦ forget tid (send_to_app [] trans_type_cmd_nack tid addr sent.1)
        | some k ↦
            if addr == tos_bcast_addr
            then send_to_app [] trans_type_cmd_ack tid addr sent.1
            else send_to_app [] trans_type_cmd_return tid addr sent.1
      ])

  -- A TRANS_TYPE_CLOSE of a client.
  unfoldable pub client_close : Timeval → ℕ → ℕ → Master → Run Master
  unfolding tr_send_packet close_transport_connections check_close_done
  client_close now tid addr s0 = elim (tidlist_find_tid s0.tids.tids tid) [
    | none ↦ ok s0
    | some t ↦
        let s = record s0 { tids = record s0.tids { tids = close_entry tid s0.tids.tids } } in
        tr_send_packet now tid addr delete_task s >>= λ sent.
        ok (check_close_done tid (close_transport_connections tid sent.1))
  ]

  unfoldable pub on_ptr_events : List PtrEvent → Master → Master
  unfolding on_ptr_event
  on_ptr_events [] s = s
  on_ptr_events (e ∷ es) s = on_ptr_events es (on_ptr_event e s)

  unfoldable pub on_str_events : List StrEvent → Master → Master
  unfolding on_str_event
  on_str_events [] s = s
  on_str_events (e ∷ es) s = on_str_events es (on_str_event e s)

  -- An operation of packettransport.c, with what it calls.
  unfoldable pub with_ptr : (Ptrs → Run Ptrs) → Master → Run Master
  unfolding on_ptr_events
  with_ptr op s = op (record s.ptrs { events = [] }) >>= λ p.
      ok (
        on_ptr_events p.events
          (record s { ptrs = record p { events = s.ptrs.events ++ p.events } }))

  -- An operation of streamtransport.c, with what it calls.
  unfoldable pub with_str : (Streams → Run Streams) → Master → Run Master
  unfolding on_str_events
  with_str op s = op (record s.strs { events = [] }) >>= λ p.
      ok (
        on_str_events p.events
          (record s { strs = record p { events = s.strs.events ++ p.events } }))

  unfoldable pub on_tcmp_events : List TcmpEvent → Master → Master
  unfolding on_tcmp_event
  on_tcmp_events [] s = s
  on_tcmp_events (e ∷ es) s = on_tcmp_events es (on_tcmp_event e s)

  -- An operation of tcmp.c, with what it calls.
  unfoldable pub with_tcmp : (Tcmps → Run Tcmps) → Master → Run Master
  unfolding on_tcmp_events
  with_tcmp op s = op (record s.tcmps { events = [] }) >>= λ p. ok (
      on_tcmp_events p.events
        (record s { tcmps = record p { events = s.tcmps.events ++ p.events } }))

  -- receive_trd_transport for each packet.
  unfoldable pub on_trd_msgs : List TrdMsg → Master → Master
  unfolding send_to_app
  on_trd_msgs [] s = s
  on_trd_msgs (m ∷ ms) s = on_trd_msgs ms (send_to_app m.msg trans_type_bcast m.tid m.addr s)

  -- check_timer, without the beacons. The timers of TRD only send.
  unfoldable pub check_timer : Timeval → Master → Run Master
  unfolding with_ptr with_str with_tcmp on_str_events
  check_timer now s = with_ptr (polling_packettransport_timer now) s >>= λ s1.
      with_str (λ p. ok (polling_streamtransport_timer now p)) s1 >>= λ s2.
      with_tcmp (polling_tcmp_timer now) (on_str_events (env.rcr_polled now) s2)
