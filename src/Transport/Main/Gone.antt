-- ===== src/Transport/Main/Gone.antt =====
-- What is left of a client that is gone: close_all_tid_for_a_client of master/transport/tidlist.c.
use tenet_t.Prelude.{
  true, if◌then◌else◌, ℕ, ◌≡◌, refl, sym, ap, ◌∙◌, ◌≢◌, inl, inr, Option, none, some, List, [], ◌∷◌,
  ◌++◌, append-nil, append_assoc, arith, ◌==◌, Bool-cases, ok,
}
use tenet_t.Timeval.{Timeval}
use tenet_t.Transport.TidList.{TidEntry}
use tenet_t.Transport.PacketTransport.{PtrEvent}
use tenet_t.Transport.PacketTransport.Handlers.{packettransport_delete_tid}
use tenet_t.Transport.PacketTransport.Retransmit.{Frames, packettransport_send_returns}
use tenet_t.Tasklib.Elements.{task_delete}
use tenet_t.Transport.Main.{
  Outside, Master, tos_bcast_addr, delete_task, close_transport_connections, tr_send_packet,
}
use tenet_t.Transport.Main.Clients.{drop_entry, close_from, close_all_tid_for_a_client}
use tenet_t.Transport.Main.Task.{unicast}

-- The entries that stay: those of other clients, and pings, traces, services and snooping.
abbrev pub remaining : ℕ → List TidEntry → List TidEntry
remaining fd [] = []
remaining fd (t ∷ ts) = if drop_entry fd t then remaining fd ts else t ∷ remaining fd ts

-- What is sent for the tasks that end: for each that is not of all motes, in order, TASK_DELETE with no
-- elements to its mote, framed under its number.
abbrev pub Deletes : ℕ → List TidEntry → List PtrEvent → Type 0
Deletes fd [] es = es ≡ []
Deletes fd (t ∷ ts) es =
    let skipped = Deletes fd ts es in
    let sent =
      (bytes : List ℕ) × ((rest : List PtrEvent) × ((es ≡ PtrEvent.sent t.addr bytes ∷ rest)
          × (Frames t.tid (task_delete ∷ 0 ∷ []) bytes × Deletes fd ts rest))) in
    if drop_entry fd t then (if t.addr == tos_bcast_addr then skipped else sent) else skipped

module _ (env : Outside) (now : Timeval) where
  -- What the loop leaves.
  abbrev Closes : ℕ → List TidEntry → Master → Type 0
  Closes fd ts s =
      (s' : Master) × ((close_from env now fd ts s ≡ ok (remaining fd ts, s'))
        × ((s'.to_clients ≡ s.to_clients)
            × ((es : List PtrEvent) × ((s'.ptrs.events ≡ s.ptrs.events ++ es) × Deletes fd ts es))))

  every_mote :
      (t : TidEntry) (s : Master)
      → t.addr ≡ tos_bcast_addr
      → (o : Option ℕ) × (tr_send_packet env now t.tid t.addr delete_task s ≡ ok (o, s))
  unfolding tr_send_packet
  every_mote t s all =
      let every : (t.addr == tos_bcast_addr) ≡ true = ground arith in
      (if env.trd_accepts t.tid delete_task then some 1 else none, rw (every, tr_send_packet) refl)

  -- The transports' deletion sends nothing.
  closing :
      (tid : ℕ) (s : Master)
      → ((close_transport_connections tid s).to_clients ≡ s.to_clients)
        × ((close_transport_connections tid s).ptrs.events ≡ s.ptrs.events)
  unfolding close_transport_connections packettransport_delete_tid
  closing tid s = (refl, refl)

  closes : (fd : ℕ) (ts : List TidEntry) (s : Master) → Closes fd ts s
  unfolding close_from
  closes fd [] s = (s, (refl, (refl, ([], (sym (append-nil s.ptrs.events), refl)))))
  closes fd (t ∷ ts) s = elim (Bool-cases (drop_entry fd t)) [
    | inl gone ↦ elim (Bool-cases (t.addr == tos_bcast_addr)) [
      | inl every ↦
          let all : t.addr ≡ tos_bcast_addr = ground arith in
          let (o, sent) = every_mote t s all in
          let (told_c, events_c) = closing t.tid s in
          let (s', (ran, (told, (es, (later, deleted))))) =
            closes fd ts (close_transport_connections t.tid s) in
          (
            s',
            (
              rw (gone, sent, ran, close_from) refl,
              (told ∙ told_c, (es, (later ∙ ap (λ k. k ++ es) events_c, rw (gone, every) deleted))),
            ),
          )
      | inr one ↦
          let other : t.addr ≢ tos_bcast_addr = ground arith in
          let (bytes, (p, (sends, (events, framed)))) =
            packettransport_send_returns now t.tid t.addr delete_task s.ptrs (omega arith) in
          let sent = unicast env now t.tid t.addr delete_task s p other (omega arith) sends in
          let s1 : Master = record s { ptrs = p } in
          let (told_c, events_c) = closing t.tid s1 in
          let (s', (ran, (told, (es, (later, deleted))))) =
            closes fd ts (close_transport_connections t.tid s1) in
          let X : PtrEvent = PtrEvent.sent t.addr bytes in
          (
            s',
            (
              rw (gone, sent, ran, close_from) refl,
              (
                told ∙ told_c,
                (
                  X ∷ es,
                  (
                    later
                        ∙ ap (λ k. k ++ es) (events_c ∙ events)
                        ∙ append_assoc s.ptrs.events (X ∷ []) es,
                    rw (gone, one) (bytes, (es, (refl, (framed, deleted)))),
                  ),
                ),
              ),
            ),
          )
    ]
    | inr kept ↦
        let (s', (ran, (told, (es, (later, deleted))))) = closes fd ts s in
        (s', (rw (kept, ran, close_from) refl, (told, (es, (later, rw kept deleted)))))
  ]

pub close_all_tid_for_a_client_lem :
    (env : Outside) (now : Timeval) (fd : ℕ) (s : Master)
    → (s' : Master) × ((close_all_tid_for_a_client env now fd s ≡ ok s')
        × ((s'.tids.tids ≡ remaining fd s.tids.tids)
            × ((s'.to_clients ≡ s.to_clients)
                × ((es : List PtrEvent) × ((s'.ptrs.events ≡ s.ptrs.events ++ es)
                      × Deletes fd s.tids.tids es)))))
unfolding close_all_tid_for_a_client
close_all_tid_for_a_client_lem env now fd s =
    let (s', (ran, (told, sent))) = closes env now fd s.tids.tids s in
    (
      record s' { tids = record s.tids { tids = remaining fd s.tids.tids } },
      (rw (ran, close_all_tid_for_a_client) refl, (refl, (told, sent))),
    )
