-- ===== src/Transport/Main/Owners.antt =====
-- To whom master/transport/transportmain.c writes: what its operations keep of the transactions, and the
-- messages that they add.
use tenet_t.Prelude.{
  ℕ, ◌≡◌, ap, ◌∙◌, inl, inr, Bool, Option, none, some, List, [], ◌∷◌, ◌++◌, append_assoc, arith,
  ◌==◌, Bool-cases, Option-cases, Run, ok, fault, ◌>>=◌, All, All-append, Run-cases,
}
use tenet_t.Transport.TidList.{Tids, all_tid, tidlist_find_tid, tidlist_remove_tid, find_client_fd}
use tenet_t.Transport.TidList.Distinct.{
  AreDistinctTids, remove-AreDistinctTids, HasOwnersOf, remove-HasOwnersOf,
}
use tenet_t.Transport.PacketTransport.{PtrEvent, Ptrs}
use tenet_t.Transport.Stream.{StrEvent, Streams}
use tenet_t.Transport.Tcmp.{TcmpEvent, Tcmps, ping_msg_bytes}
use tenet_t.Transport.Main.{
  TrdMsg, on_trd_msgs, trans_type_bcast, AppMsg, Outside, Master, trans_type_close,
  trans_type_close_ack, trans_type_cmd_ack, trans_type_cmd_nack, trans_type_response,
  trans_type_ping, trans_type_tracert, forget, tell, send_to_app, check_transport_connections,
  check_close_done, senddone_packettransport, on_ptr_event, on_str_event, on_tcmp_event,
  on_ptr_events, on_str_events, on_tcmp_events, with_ptr, with_str, with_tcmp,
}

-- To the client of the transaction, or to all for ALL_TID.
abbrev pub GoesTo : Tids → ℕ → Option ℕ → Type 0
GoesTo base tid none = tid ≡ all_tid
GoesTo base tid (some fd) = find_client_fd tid base ≡ some fd

abbrev pub IsForOwner : Tids → AppMsg → Type 0
IsForOwner base m = GoesTo base m.tid m.fd

-- The state after operations on one with the transactions `base` and the messages `before`: numbers are
-- still distinct, an owner is an owner in `base`, and the messages added are for owners in `base`.
abbrev pub IsFaithful : Tids → List AppMsg → Master → Type 0
IsFaithful base before s =
    AreDistinctTids s.tids.tids
    × (HasOwnersOf base s.tids
        × ((news : List AppMsg) × ((s.to_clients ≡ before ++ news) × All (IsForOwner base) news)))

module _ (env : Outside) (base : Tids) (before : List AppMsg) where
  pub forget-IsFaithful :
      (tid : ℕ) (s : Master) → IsFaithful base before s → IsFaithful base before (forget tid s)
  unfolding tidlist_remove_tid
  forget-IsFaithful tid s (d, (owners, told)) = (
    remove-AreDistinctTids s.tids.tids tid d,
    (remove-HasOwnersOf base s.tids tid d owners, told),
  )

  tell-IsFaithful :
      (m : AppMsg) (s : Master)
      → IsForOwner base m
      → IsFaithful base before s
      → IsFaithful base before (tell m s)
  tell-IsFaithful m s mine (d, (owners, (news, (is, all)))) = (
    d,
    (
      owners,
      (
        news ++ (m ∷ []),
        (
          ap (λ ms. ms ++ (m ∷ [])) is ∙ append_assoc before news (m ∷ []),
          All-append (IsForOwner base) news (m ∷ []) all (mine, tt),
        ),
      ),
    ),
  )

  pub send_to_app-IsFaithful :
      (msg : List ℕ) (type tid addr : ℕ) (s : Master)
      → IsFaithful base before s
      → IsFaithful base before (send_to_app env msg type tid addr s)
  unfolding send_to_app
  send_to_app-IsFaithful msg type tid addr s f = elim (Bool-cases (tid == all_tid)) [
    | inl every ↦
        let is : tid ≡ all_tid = ground arith in
        let m : AppMsg = record { fd = none; type = type; tid = tid; addr = addr; msg = msg } in
        rw (every, send_to_app) (tell-IsFaithful m s is f)
    | inr one ↦ elim (Option-cases (find_client_fd tid s.tids)) [
      | inl gone ↦ rw (one, send_to_app, gone) f
      | inr (fd, found) ↦ elim (Bool-cases (env.written fd)) [
        | inl written ↦
            let m : AppMsg = record {
              fd = some fd;
              type = type;
              tid = tid;
              addr = addr;
              msg = msg;
            } in
            rw (one, send_to_app, found, written) (tell-IsFaithful m s (f.1.0 tid fd found) f)
        | inr failed ↦ rw (one, send_to_app, found, failed) (forget-IsFaithful tid s f)
      ]
    ]
  ]

  pub check_close_done-IsFaithful :
      (tid : ℕ) (s : Master)
      → IsFaithful base before s
      → IsFaithful base before (check_close_done env tid s)
  unfolding check_close_done
  check_close_done-IsFaithful tid s f = elim (Option-cases (tidlist_find_tid s.tids.tids tid)) [
    | inl gone ↦ rw (gone, check_close_done) f
    | inr (t, found) ↦ elim (Bool-cases (check_transport_connections env tid s)) [
      | inl alive ↦ rw (found, check_close_done, alive) f
      | inr over ↦
          let acked = send_to_app env [] trans_type_close_ack tid t.addr s in
          rw (found, check_close_done, over)
            (forget-IsFaithful tid acked
              (send_to_app-IsFaithful [] trans_type_close_ack tid t.addr s f))
    ]
  ]

  senddone-IsFaithful :
      (tid addr : ℕ) (success : Bool) (s : Master)
      → IsFaithful base before s
      → IsFaithful base before (senddone_packettransport env tid addr success s)
  unfolding senddone_packettransport
  senddone-IsFaithful tid addr success s f =
      elim (Option-cases (tidlist_find_tid s.tids.tids tid)) [
        | inl gone ↦ rw (gone, senddone_packettransport) f
        | inr (t, found) ↦ elim (Bool-cases (t.type == trans_type_close)) [
          | inl closing ↦
              rw (found, senddone_packettransport, closing) (check_close_done-IsFaithful tid s f)
          | inr open_task ↦ elim (Bool-cases success) [
            | inl done ↦
                rw (found, senddone_packettransport, open_task, done)
                  (send_to_app-IsFaithful [] trans_type_cmd_ack tid addr s f)
            | inr failed ↦
                let told = send_to_app env [] trans_type_cmd_nack tid addr s in
                rw (found, senddone_packettransport, open_task, failed)
                  (forget-IsFaithful tid told
                    (send_to_app-IsFaithful [] trans_type_cmd_nack tid addr s f))
          ]
        ]
      ]

  on_ptr_event-IsFaithful :
      (e : PtrEvent) (s : Master)
      → IsFaithful base before s
      → IsFaithful base before (on_ptr_event env e s)
  unfolding on_ptr_event
  on_ptr_event-IsFaithful (PtrEvent.sent addr bytes) s f = f
  on_ptr_event-IsFaithful (PtrEvent.received tid addr msg) s f =
      send_to_app-IsFaithful msg trans_type_response tid addr s f
  on_ptr_event-IsFaithful (PtrEvent.send_done tid addr success) s f =
      senddone-IsFaithful tid addr success s f

  on_str_event-IsFaithful :
      (e : StrEvent) (s : Master)
      → IsFaithful base before s
      → IsFaithful base before (on_str_event env e s)
  unfolding on_str_event
  on_str_event-IsFaithful (StrEvent.received tid addr msg) s f =
      send_to_app-IsFaithful msg trans_type_response tid addr s f
  on_str_event-IsFaithful (StrEvent.delete_done tid) s f = check_close_done-IsFaithful tid s f
  on_str_event-IsFaithful (StrEvent.syn_ack tid addr) s f = f
  on_str_event-IsFaithful (StrEvent.fin_ack tid addr seqno) s f = f
  on_str_event-IsFaithful (StrEvent.nack tid addr seqno items) s f = f

  on_tcmp_event-IsFaithful :
      (e : TcmpEvent) (s : Master)
      → IsFaithful base before s
      → IsFaithful base before (on_tcmp_event env e s)
  unfolding on_tcmp_event
  on_tcmp_event-IsFaithful (TcmpEvent.sent addr flag tid seqno ttl) s f = f
  on_tcmp_event-IsFaithful (TcmpEvent.ping_ack tid addr m) s f =
      send_to_app-IsFaithful (ping_msg_bytes m) trans_type_ping tid addr s f
  on_tcmp_event-IsFaithful (TcmpEvent.tracert_ack tid addr m) s f =
      send_to_app-IsFaithful (ping_msg_bytes m) trans_type_tracert tid addr s f
  on_tcmp_event-IsFaithful (TcmpEvent.over tid) s f = forget-IsFaithful tid s f

  on_ptr_events-IsFaithful :
      (es : List PtrEvent) (s : Master)
      → IsFaithful base before s
      → IsFaithful base before (on_ptr_events env es s)
  unfolding on_ptr_events
  on_ptr_events-IsFaithful [] s f = f
  on_ptr_events-IsFaithful (e ∷ es) s f =
      on_ptr_events-IsFaithful es (on_ptr_event env e s) (on_ptr_event-IsFaithful e s f)

  pub on_str_events-IsFaithful :
      (es : List StrEvent) (s : Master)
      → IsFaithful base before s
      → IsFaithful base before (on_str_events env es s)
  unfolding on_str_events
  on_str_events-IsFaithful [] s f = f
  on_str_events-IsFaithful (e ∷ es) s f =
      on_str_events-IsFaithful es (on_str_event env e s) (on_str_event-IsFaithful e s f)

  on_tcmp_events-IsFaithful :
      (es : List TcmpEvent) (s : Master)
      → IsFaithful base before s
      → IsFaithful base before (on_tcmp_events env es s)
  unfolding on_tcmp_events
  on_tcmp_events-IsFaithful [] s f = f
  on_tcmp_events-IsFaithful (e ∷ es) s f =
      on_tcmp_events-IsFaithful es (on_tcmp_event env e s) (on_tcmp_event-IsFaithful e s f)

  pub on_trd_msgs-IsFaithful :
      (ms : List TrdMsg) (s : Master)
      → IsFaithful base before s
      → IsFaithful base before (on_trd_msgs env ms s)
  unfolding on_trd_msgs
  on_trd_msgs-IsFaithful [] s f = f
  on_trd_msgs-IsFaithful (m ∷ ms) s f =
      on_trd_msgs-IsFaithful ms (send_to_app env m.msg trans_type_bcast m.tid m.addr s)
        (send_to_app-IsFaithful m.msg trans_type_bcast m.tid m.addr s f)

  -- Of what an operation returns, if it returns.
  abbrev pub Keeps : Run Master → Type 0
  Keeps (ok s) = IsFaithful base before s
  Keeps (fault e) = Unit

  pub bind-Keeps :
      (m : Run Master) (k : Master → Run Master)
      → Keeps m
      → ((s : Master) → IsFaithful base before s → Keeps (k s))
      → Keeps (m >>= k)
  bind-Keeps (ok s) k f rest = rest s f
  bind-Keeps (fault e) k f rest = tt

  pub with_ptr-Keeps :
      (op : Ptrs → Run Ptrs) (s : Master) → IsFaithful base before s → Keeps (with_ptr env op s)
  unfolding with_ptr
  with_ptr-Keeps op s f = elim (Run-cases (op (record s.ptrs { events = [] }))) [
    | inl (p, done) ↦
        rw (done, with_ptr)
          (on_ptr_events-IsFaithful p.events
            (record s { ptrs = record p { events = s.ptrs.events ++ p.events } }) f)
    | inr (e, failed) ↦ rw (failed, with_ptr) tt
  ]

  pub with_str-Keeps :
      (op : Streams → Run Streams) (s : Master)
      → IsFaithful base before s
      → Keeps (with_str env op s)
  unfolding with_str
  with_str-Keeps op s f = elim (Run-cases (op (record s.strs { events = [] }))) [
    | inl (p, done) ↦
        rw (done, with_str)
          (on_str_events-IsFaithful p.events
            (record s { strs = record p { events = s.strs.events ++ p.events } }) f)
    | inr (e, failed) ↦ rw (failed, with_str) tt
  ]

  pub with_tcmp-Keeps :
      (op : Tcmps → Run Tcmps) (s : Master) → IsFaithful base before s → Keeps (with_tcmp env op s)
  unfolding with_tcmp
  with_tcmp-Keeps op s f = elim (Run-cases (op (record s.tcmps { events = [] }))) [
    | inl (p, done) ↦
        rw (done, with_tcmp)
          (on_tcmp_events-IsFaithful p.events
            (record s { tcmps = record p { events = s.tcmps.events ++ p.events } }) f)
    | inr (e, failed) ↦ rw (failed, with_tcmp) tt
  ]
