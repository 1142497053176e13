-- ===== src/Transport/Main/Task.antt =====
-- The life of a transaction in master/transport/transportmain.c: from the client's task to its end.
use tenet_t.Prelude.{
  ℕ, ◌+◌, ◌%◌, ◌≤◌, ◌<◌, ◌≡◌, refl, ◌≢◌, inl, inr, true, false, none, some, List, [], ◌∷◌, ◌++◌,
  arith, ◌==◌, Bool-cases, Option-cases, length, take, take_all, u16_mod, u8_mod, ok,
}
use tenet_t.Timeval.{Timeval}
use tenet_t.Transport.Packet.{tr_header}
use tenet_t.Transport.TidList.{
  TidEntry, Tids, assign_new_tid, all_tid, min_tid, max_tid, tidlist_find_tid, tidlist_add_tid,
  find_client_fd,
}
use tenet_t.Transport.TidList.Assign.{assign_new_tid_lem}
use tenet_t.Transport.PacketTransport.{PtrConn, PtrEvent, Ptrs, packettransport_send}
use tenet_t.Transport.PacketTransport.Handlers.{
  ptr_delete_from, packettransport_delete_tid, packettransport_tid_is_alive,
}
use tenet_t.Transport.PacketTransport.Retransmit.{Frames, packettransport_send_returns}
use tenet_t.Tasklib.Elements.{task_delete}
use tenet_t.Transport.Main.{
  Outside, Master, trans_type_task, trans_type_cmd_return, tos_bcast_addr, tell, send_to_app,
  tr_send_packet, client_task, close_entry, close_transport_connections,
  check_transport_connections, trans_type_close_ack, check_close_done, client_close, delete_task,
}

-- No connection of the packet transport is left after packettransport_delete_tid.
delete_from-is_alive :
    (cs : List PtrConn) (tid r : ℕ)
    → packettransport_tid_is_alive (ptr_delete_from cs tid r).0 tid ≡ false
unfolding ptr_delete_from packettransport_tid_is_alive
delete_from-is_alive [] tid r = refl
delete_from-is_alive (c ∷ cs) tid r = elim (Bool-cases (c.tid == tid)) [
  | inl mine ↦ rw (mine, ptr_delete_from) (delete_from-is_alive cs tid 1)
  | inr other ↦
      rw (other, ptr_delete_from, other, packettransport_tid_is_alive)
        (delete_from-is_alive cs tid r)
]

added :
    (now : Timeval) (tid addr fd : ℕ) (s : Tids)
    → tidlist_find_tid s.tids tid ≡ none
    → let entry : TidEntry = record {
      tid = tid;
      addr = addr;
      type = trans_type_task;
      fd = fd;
      timestamp = now;
    } in
      tidlist_add_tid now tid addr trans_type_task fd s
      ≡ (entry, record s { tids = entry ∷ s.tids })
unfolding tidlist_add_tid
added now tid addr fd s h = rw (h, tidlist_add_tid)

pub find_first : (t : TidEntry) (ts : List TidEntry) → tidlist_find_tid (t ∷ ts) t.tid ≡ some t
unfolding tidlist_find_tid
find_first t ts = let same : (t.tid == t.tid) ≡ true = ground arith in rw (same, tidlist_find_tid)

pub client_fd_of :
    (tid : ℕ) (s : Tids) (t : TidEntry)
    → tidlist_find_tid s.tids tid ≡ some t
    → find_client_fd tid s ≡ some t.fd
unfolding find_client_fd
client_fd_of tid s t h = rw (h, find_client_fd)

module _ (env : Outside) where
  send_to_app-ptrs :
      (msg : List ℕ) (type tid addr : ℕ) (s : Master)
      → (send_to_app env msg type tid addr s).ptrs ≡ s.ptrs
  unfolding send_to_app
  send_to_app-ptrs msg type tid addr s = elim (Bool-cases (tid == all_tid)) [
    | inl all ↦ rw (all, send_to_app)
    | inr one ↦ elim (Option-cases (find_client_fd tid s.tids)) [
      | inl none_found ↦ rw (one, send_to_app, none_found)
      | inr (fd, found) ↦ elim (Bool-cases (env.written fd)) [
        | inl written ↦ rw (one, send_to_app, found, written)
        | inr failed ↦ rw (one, send_to_app, found, failed)
      ]
    ]
  ]

  check_close_done-ptrs : (tid : ℕ) (s : Master) → (check_close_done env tid s).ptrs ≡ s.ptrs
  unfolding check_close_done
  check_close_done-ptrs tid s = elim (Option-cases (tidlist_find_tid s.tids.tids tid)) [
    | inl none_found ↦ rw (none_found, check_close_done)
    | inr (t, found) ↦ elim (Bool-cases (check_transport_connections env tid s)) [
      | inl alive ↦ rw (found, check_close_done, alive)
      | inr over ↦
          rw (found, check_close_done, over) (send_to_app-ptrs [] trans_type_close_ack tid t.addr s)
    ]
  ]

  -- A unicast through the packet transport.
  pub unicast :
      (now : Timeval) (tid addr : ℕ) (packet : List ℕ) (s : Master) (p : Ptrs)
      → addr ≢ tos_bcast_addr
      → tr_header + length packet < u8_mod
      → packettransport_send now tid addr packet s.ptrs ≡ ok p
      → tr_send_packet env now tid addr packet s ≡ ok (some 2, record s { ptrs = p })
  unfolding tr_send_packet
  unicast now tid addr packet s p other fits sent =
      let to_one : (addr == tos_bcast_addr) ≡ false = ground arith in
      let whole : take (length packet % u8_mod) packet ≡ packet =
        take_all (length packet % u8_mod) packet (omega arith) in
      rw (to_one, tr_send_packet, whole, sent)

  pub told :
      (msg : List ℕ) (type tid addr fd : ℕ) (s : Master)
      → tid ≢ all_tid
      → find_client_fd tid s.tids ≡ some fd
      → env.written fd ≡ true
      → send_to_app env msg type tid addr s
        ≡ tell (record { fd = some fd; type = type; tid = tid; addr = addr; msg = msg }) s
  unfolding send_to_app
  told msg type tid addr fd s one found written =
      let mine : (tid == all_tid) ≡ false = ground arith in rw (mine, send_to_app, found, written)

  -- A unicast TRANS_TYPE_CLOSE of a known transaction sends TASK_DELETE with no elements once, framed under
  -- the transaction's number, and leaves no connection
  -- of the packet transport for the transaction: the task is not sent again when it is lost.
  pub client_close_lem :
      (now : Timeval) (tid addr : ℕ) (s : Master) (t : TidEntry)
      → addr ≢ tos_bcast_addr
      → tidlist_find_tid s.tids.tids tid ≡ some t
      → (bytes : List ℕ) × ((s' : Master) × ((client_close env now tid addr s ≡ ok s')
            × (((s'.ptrs.events ≡ s.ptrs.events ++ (PtrEvent.sent addr bytes ∷ []))
                  × Frames tid (task_delete ∷ 0 ∷ []) bytes)
                × (packettransport_tid_is_alive s'.ptrs.conns tid ≡ false))))
  unfolding client_close close_transport_connections packettransport_delete_tid
  client_close_lem now tid addr s t other known =
      let (bytes, (p, (sent, (events, framed)))) =
        packettransport_send_returns now tid addr delete_task s.ptrs (omega arith) in
      let before : Master = record s {
        tids = record s.tids { tids = close_entry tid s.tids.tids };
      } in
      let going : Master = record before { ptrs = p } in
      let closed = close_transport_connections tid going in
      let step = unicast now tid addr delete_task before p other (omega arith) sent in
      let kept = check_close_done-ptrs tid closed in
      (
        bytes,
        (
          check_close_done env tid closed,
          (
            rw (known, client_close, step),
            ((rw kept events, framed), rw kept (delete_from-is_alive p.conns tid 0)),
          ),
        ),
      )

  -- What a unicast task leaves, under the number assigned.
  abbrev pub after_task : Timeval → ℕ → ℕ → ℕ → Tids → Ptrs → Master → Master
  after_task now fd addr tid given p s =
      tell (record { fd = some fd; type = trans_type_cmd_return; tid = tid; addr = addr; msg = [] })
        (record s {
          tids = record given {
            tids =
                record { tid = tid; addr = addr; type = trans_type_task; fd = fd; timestamp = now }
                ∷ given.tids;
          };
          ptrs = p;
        })

  pub client_task_runs :
      (now : Timeval) (fd addr tid : ℕ) (payload : List ℕ) (s : Master) (given : Tids) (p : Ptrs)
      → addr ≢ tos_bcast_addr
      → tr_header + length payload < u8_mod
      → env.written fd ≡ true
      → tid ≢ all_tid
      → assign_new_tid 0 s.tids ≡ ok (tid, given)
      → tidlist_find_tid given.tids tid ≡ none
      → packettransport_send now tid addr payload s.ptrs ≡ ok p
      → client_task env now fd addr payload s ≡ ok (after_task now fd addr tid given p s)
  unfolding client_task
  client_task_runs now fd addr tid payload s given p other fits written one assigned new sent =
      let entry : TidEntry = record {
        tid = tid;
        addr = addr;
        type = trans_type_task;
        fd = fd;
        timestamp = now;
      } in
      let entered : Tids = record given { tids = entry ∷ given.tids } in
      let adds = added now tid addr fd given new in
      let before : Master = record s { tids = entered } in
      let going : Master = record before { ptrs = p } in
      let step = unicast now tid addr payload before p other fits sent in
      let mine = client_fd_of tid entered entry (find_first entry given.tids) in
      let tells = told [] trans_type_cmd_return tid addr fd going one mine written in
      let to_one : (addr == tos_bcast_addr) ≡ false = ground arith in
      rw (assigned, client_task, adds, step, to_one, tells)

  -- A unicast TRANS_TYPE_TASK of a client whose socket takes what is written, with a free number left and at
  -- most 249 bytes: the client gets a number that no transaction had, as CMD_RETURN; the task's
  -- payload is sent once, framed under it, and the number is entered for the client.
  pub client_task_lem :
      (now : Timeval) (fd addr f : ℕ) (payload : List ℕ) (s : Master)
      → addr ≢ tos_bcast_addr
      → tr_header + length payload < u8_mod
      → env.written fd ≡ true
      → (min_tid ≤ f) × (f ≤ max_tid)
      → tidlist_find_tid s.tids.tids f ≡ none
      → s.tids.my_tid < u16_mod
      → (tid : ℕ) × ((bytes : List ℕ) × ((s' : Master) × ((client_task env now fd addr payload s
                ≡ ok s')
              × ((tidlist_find_tid s.tids.tids tid ≡ none)
                  × ((find_client_fd tid s'.tids ≡ some fd)
                      × ((s'.to_clients
                            ≡ s.to_clients
                              ++ (record {
                                fd = some fd;
                                type = trans_type_cmd_return;
                                tid = tid;
                                addr = addr;
                                msg = [];
                              }
                                  ∷ []))
                          × ((s'.ptrs.events ≡ s.ptrs.events ++ (PtrEvent.sent addr bytes ∷ []))
                              × Frames tid payload bytes)))))))
  client_task_lem now fd addr f payload s other fits written range free my =
      let (tid, (given, (assigned, (in_range, (new, (same, my')))))) =
        assign_new_tid_lem 0 f s.tids range free my in
      let (bytes, (p, (sent, (events, framed)))) =
        packettransport_send_returns now tid addr payload s.ptrs fits in
      let after = after_task now fd addr tid given p s in
      let ran =
        client_task_runs now fd addr tid payload s given p other fits written (omega arith) assigned
          (rw same new) sent in
      let entry : TidEntry = record {
        tid = tid;
        addr = addr;
        type = trans_type_task;
        fd = fd;
        timestamp = now;
      } in
      let mine = client_fd_of tid after.tids entry (find_first entry given.tids) in
      (tid, (bytes, (after, (ran, (new, (mine, (refl, (events, framed))))))))
