-- ===== src/Transport/Main/Reach.antt =====
-- The states that master/transport/transportmain.c reaches.
use tenet_t.Prelude.{
  ℕ, ◌%◌, ◌≡◌, refl, sym, ◌≢◌, inl, inr, Bool, true, false, Option, none, some, List, [], ◌∷◌, ◌++◌,
  ◌==◌, if◌then◌else◌, Bool-cases, Option-cases, length, take, u8_mod, Run, ok, fault, ◌>>=◌,
  Run-cases,
}
use mathlib.Core.Option.{none-ne-some}
use tenet_t.Timeval.{Timeval}
use tenet_t.Transport.TidList.{
  TidEntry, Tids, all_tid, tidlist_find_tid, assign_new_tid, tidlist_add_tid,
}
use tenet_t.Transport.TidList.Assign.{assign_new_tid-tids}
use tenet_t.Transport.TidList.Distinct.{AreDistinctTids, add-AreDistinctTids}
use tenet_t.Transport.PacketTransport.{Ptrs, packettransport_send}
use tenet_t.Transport.Tcmp.{Tcmps, tcmp_send_ping, tcmp_send_tracert}
use tenet_t.Transport.Main.{
  Outside, Master, trans_type_task, trans_type_close, trans_type_service, trans_type_ping,
  trans_type_tracert, trans_type_snoop, trans_type_cmd_return, trans_type_cmd_ack,
  trans_type_cmd_nack, tos_bcast_addr, delete_task, forget, send_to_app, close_entry,
  close_transport_connections, check_close_done, tr_send_packet, client_task, client_close,
  with_tcmp, check_timer,
}
use tenet_t.Transport.Main.Clients.{
  ClientMsg, enter, client_service, client_ping, client_tracert, client_snoop, client_msg,
  close_all_tid_for_a_client, drop_entry,
}
use tenet_t.Transport.Main.Router.{check_router}
use tenet_t.Transport.Main.Owners.{
  Keeps, forget-IsFaithful, send_to_app-IsFaithful, check_close_done-IsFaithful, with_tcmp-Keeps,
}
use tenet_t.Transport.Main.Steps.{start-IsFaithful, from_below-IsFaithful}
use tenet_t.Transport.Main.Gone.{remaining, close_all_tid_for_a_client_lem}

abbrev AreDistinct : Master → Type 0
AreDistinct s = AreDistinctTids s.tids.tids

-- Of what an operation returns, if it returns.
abbrev Returns : Run Master → Type 0
Returns (ok s) = AreDistinct s
Returns (fault e) = Unit

if-Returns : (b : Bool) (x y : Run Master) → Returns x → Returns y → Returns (if b then x else y)
if-Returns true x y rx ry = rx
if-Returns false x y rx ry = ry

some-ne-none : (t : TidEntry) → some t ≢ none
some-ne-none t h = none-ne-some t (sym h)

remaining-find :
    (fd n : ℕ) (ts : List TidEntry)
    → tidlist_find_tid ts n ≡ none
    → tidlist_find_tid (remaining fd ts) n ≡ none
unfolding tidlist_find_tid
remaining-find fd n [] h = refl
remaining-find fd n (t ∷ ts) h = elim (Bool-cases (t.tid == n)) [
  | inl here ↦ absurd (some-ne-none t (rw here at h))
  | inr other ↦
      let ih = remaining-find fd n ts (rw other at h) in
      elim (Bool-cases (drop_entry fd t)) [ inl gone ↦ rw gone ih | inr kept ↦ rw (kept, other) ih ]
]

remaining-AreDistinctTids :
    (fd : ℕ) (ts : List TidEntry) → AreDistinctTids ts → AreDistinctTids (remaining fd ts)
remaining-AreDistinctTids fd [] d = tt
remaining-AreDistinctTids fd (t ∷ ts) (alone, d) = elim (Bool-cases (drop_entry fd t)) [
  | inl gone ↦ rw gone (remaining-AreDistinctTids fd ts d)
  | inr kept ↦ rw kept (remaining-find fd t.tid ts alone, remaining-AreDistinctTids fd ts d)
]

close_entry-find :
    (tid n : ℕ) (ts : List TidEntry)
    → tidlist_find_tid ts n ≡ none
    → tidlist_find_tid (close_entry tid ts) n ≡ none
unfolding tidlist_find_tid close_entry
close_entry-find tid n [] h = refl
close_entry-find tid n (t ∷ ts) h = elim (Bool-cases (t.tid == n)) [
  | inl here ↦ absurd (some-ne-none t (rw here at h))
  | inr other ↦ elim (Bool-cases (t.tid == tid)) [
    | inl this ↦ rw (this, other) (rw other at h)
    | inr that ↦ rw (that, other) (close_entry-find tid n ts (rw other at h))
  ]
]

close_entry-AreDistinctTids :
    (tid : ℕ) (ts : List TidEntry) → AreDistinctTids ts → AreDistinctTids (close_entry tid ts)
unfolding close_entry
close_entry-AreDistinctTids tid [] d = tt
close_entry-AreDistinctTids tid (t ∷ ts) (alone, d) = elim (Bool-cases (t.tid == tid)) [
  | inl this ↦ rw (this, close_entry) (alone, d)
  | inr other ↦
      rw (other, close_entry)
        (close_entry-find tid t.tid ts alone, close_entry-AreDistinctTids tid ts d)
]

-- assign_new_tid leaves the list as it is.
assigned :
    (s : Tids) (tid : ℕ) (s' : Tids)
    → assign_new_tid 0 s ≡ ok (tid, s')
    → AreDistinctTids s.tids
    → AreDistinctTids s'.tids
assigned s tid s' given d = rw (assign_new_tid-tids 0 tid s s' given) d

entered :
    (now : Timeval) (addr type fd : ℕ) (s : Master) (k : ℕ × Master → Run Master)
    → ((tid : ℕ) (s' : Master) → AreDistinct s' → Returns (k (tid, s')))
    → AreDistinct s
    → Returns (enter now addr type fd s >>= k)
unfolding enter
entered now addr type fd s k next d = elim (Run-cases (assign_new_tid 0 s.tids)) [
  | inl ((tid, t), given) ↦
      rw (given, enter)
        (next tid (record s { tids = (tidlist_add_tid now tid addr type fd t).1 })
          (add-AreDistinctTids now tid addr type fd t (assigned s.tids tid t given d)))
  | inr (e, failed) ↦ rw (failed, enter) tt
]

module _ (env : Outside) where
  kept_distinct : (s : Master) (m : Run Master) → Keeps env s.tids s.to_clients m → Returns m
  kept_distinct s (ok s') f = f.0
  kept_distinct s (fault e) f = tt

  sends :
      (now : Timeval) (tid addr : ℕ) (msg : List ℕ) (s : Master)
      (k : Option ℕ × Master → Run Master)
      → ((o : Option ℕ) (p : Ptrs) → Returns (k (o, record s { ptrs = p })))
      → Returns (tr_send_packet env now tid addr msg s >>= k)
  unfolding tr_send_packet
  sends now tid addr msg s k next = elim (Bool-cases (addr == tos_bcast_addr)) [
    | inl every ↦
        rw (every, tr_send_packet) (next (if env.trd_accepts tid msg then some 1 else none) s.ptrs)
    | inr one ↦
        elim (Run-cases
          (packettransport_send now tid addr (take (length msg % u8_mod) msg) s.ptrs)) [
            | inl (p, sent) ↦ rw (one, tr_send_packet, sent) (next (some 2) p)
            | inr (e, failed) ↦ rw (one, tr_send_packet, failed) tt
          ]
  ]

  task_answer :
      (tid addr : ℕ) (o : Option ℕ) (s : Master)
      → AreDistinct s
      → AreDistinct (elim o [
        | none ↦ forget tid (send_to_app env [] trans_type_cmd_nack tid addr s)
        | some k ↦
            if addr == tos_bcast_addr
            then send_to_app env [] trans_type_cmd_ack tid addr s
            else send_to_app env [] trans_type_cmd_return tid addr s
      ])
  task_answer tid addr none s d =
      let told = send_to_app env [] trans_type_cmd_nack tid addr s in
      (forget-IsFaithful env s.tids s.to_clients tid told (
        send_to_app-IsFaithful env s.tids s.to_clients [] trans_type_cmd_nack tid addr s
          (start-IsFaithful s d))).0
  task_answer tid addr (some k) s d = elim (Bool-cases (addr == tos_bcast_addr)) [
    | inl every ↦
        rw every
          (send_to_app-IsFaithful env s.tids s.to_clients [] trans_type_cmd_ack tid addr s
            (start-IsFaithful s d)).0
    | inr one ↦
        rw one
          (send_to_app-IsFaithful env s.tids s.to_clients [] trans_type_cmd_return tid addr s
            (start-IsFaithful s d)).0
  ]

  task-Returns :
      (now : Timeval) (fd addr : ℕ) (payload : List ℕ) (s : Master)
      → AreDistinct s
      → Returns (client_task env now fd addr payload s)
  unfolding client_task
  task-Returns now fd addr payload s d = elim (Run-cases (assign_new_tid 0 s.tids)) [
    | inr (e, failed) ↦ rw (failed, client_task) tt
    | inl ((tid, t), given) ↦
        let added = (tidlist_add_tid now tid addr trans_type_task fd t).1 in
        let d' =
          add-AreDistinctTids now tid addr trans_type_task fd t (assigned s.tids tid t given d) in
        let s1 : Master = record s { tids = added } in
        rw (given, client_task)
          (sends now tid addr payload s1
            (λ sent. ok (elim sent.0 [
              | none ↦ forget tid (send_to_app env [] trans_type_cmd_nack tid addr sent.1)
              | some k ↦
                  if addr == tos_bcast_addr
                  then send_to_app env [] trans_type_cmd_ack tid addr sent.1
                  else send_to_app env [] trans_type_cmd_return tid addr sent.1
            ]))
            (λ o p. task_answer tid addr o (record s1 { ptrs = p }) d'))
  ]

  close-Returns :
      (now : Timeval) (tid addr : ℕ) (s : Master)
      → AreDistinct s
      → Returns (client_close env now tid addr s)
  unfolding client_close close_transport_connections
  close-Returns now tid addr s d = elim (Option-cases (tidlist_find_tid s.tids.tids tid)) [
    | inl gone ↦ rw (gone, client_close) d
    | inr (t, found) ↦
        let s1 : Master = record s {
          tids = record s.tids { tids = close_entry tid s.tids.tids };
        } in
        let d1 = close_entry-AreDistinctTids tid s.tids.tids d in
        rw (found, client_close)
          (sends now tid addr delete_task s1
            (λ sent. ok (check_close_done env tid (close_transport_connections tid sent.1)))
            (λ o p.
              let s2 = close_transport_connections tid (record s1 { ptrs = p }) in
              (check_close_done-IsFaithful env s2.tids s2.to_clients tid s2
                (start-IsFaithful s2 d1)).0))
  ]

  tcmp-Returns :
      (op : Tcmps → Run Tcmps) (s : Master) → AreDistinct s → Returns (with_tcmp env op s)
  tcmp-Returns op s d =
      kept_distinct s (with_tcmp env op s)
        (with_tcmp-Keeps env s.tids s.to_clients op s (start-IsFaithful s d))

  client_msg-Returns :
      (here : ℕ) (now : Timeval) (fd : ℕ) (m : ClientMsg) (s : Master)
      → AreDistinct s
      → Returns (client_msg env here now fd m s)
  unfolding client_msg
  client_msg-Returns here now fd m s d =
      let task = client_task env now fd m.addr m.payload s in
      let close = client_close env now m.tid m.addr s in
      let service = client_service env here now fd m.payload s in
      let ping = client_ping env here now fd m.addr s in
      let trace = client_tracert env here now fd m.addr s in
      let snoop : Run Master = ok (client_snoop env here now fd s) in
      let r6 = if m.type == trans_type_snoop then snoop else ok s in
      let r5 = if m.type == trans_type_tracert then trace else r6 in
      let r4 = if m.type == trans_type_ping then ping else r5 in
      let r3 = if m.type == trans_type_service then service else r4 in
      let r2 = if m.type == trans_type_close then close else r3 in
      if-Returns (m.type == trans_type_task) task r2 (task-Returns now fd m.addr m.payload s d) (
        if-Returns (m.type == trans_type_close) close r3 (close-Returns now m.tid m.addr s d) (
          if-Returns (m.type == trans_type_service) service r4
            (entered now here trans_type_service fd s
              (λ r. ok (record r.1 { services = r.1.services ++ ((r.0, m.payload) ∷ []) }))
              (λ tid s' d'. d') d)
            (if-Returns (m.type == trans_type_ping) ping r5
              (entered now m.addr trans_type_ping fd s
                (λ r. with_tcmp env (λ p. ok (tcmp_send_ping now r.0 m.addr p)) r.1)
                (λ tid s' d'. tcmp-Returns (λ p. ok (tcmp_send_ping now tid m.addr p)) s' d') d)
              (if-Returns (m.type == trans_type_tracert) trace r6
                (entered now m.addr trans_type_tracert fd s
                  (λ r. with_tcmp env (λ p. ok (tcmp_send_tracert now r.0 m.addr p)) r.1)
                  (λ tid s' d'. tcmp-Returns (λ p. ok (tcmp_send_tracert now tid m.addr p)) s' d')
                  d)
                (if-Returns (m.type == trans_type_snoop) snoop (ok s)
                  (add-AreDistinctTids now all_tid tos_bcast_addr trans_type_snoop fd s.tids d)
                  d)))))

-- The states that the master at the address `here` reaches from one with no transactions, whatever its
-- clients, the router and the clock do, and whatever the world outside answers at each step.
pub data Reached (here : ℕ) : Master → Type 0 where
  start : (s : Master) → s.tids.tids ≡ [] → Reached here s
  from_client :
      (env : Outside) (now : Timeval) (fd : ℕ) (m : ClientMsg) (s s' : Master)
      → Reached here s
      → client_msg env here now fd m s ≡ ok s'
      → Reached here s'
  gone :
      (env : Outside) (now : Timeval) (fd : ℕ) (s s' : Master)
      → Reached here s
      → close_all_tid_for_a_client env now fd s ≡ ok s'
      → Reached here s'
  from_router :
      (env : Outside) (now : Timeval) (bytes : List ℕ) (s s' : Master)
      → Reached here s
      → check_router env here now bytes s ≡ ok s'
      → Reached here s'
  timer :
      (env : Outside) (now : Timeval) (s s' : Master)
      → Reached here s
      → check_timer env now s ≡ ok s'
      → Reached here s'

-- In every state reached no two transactions have the same number: by any messages of clients, clients
-- that are gone after a step, packets from the router and polls of the timers, in any order, where at each step any
-- sockets may fail, and rcrtransport.c and TRD may answer and call back anything.
pub Reached-AreDistinctTids : (here : ℕ) (s : Master) → Reached here s → AreDistinctTids s.tids.tids
Reached-AreDistinctTids here s' (start _ none_yet) = rw none_yet tt
Reached-AreDistinctTids here s' (from_client env now fd m s _ r step) =
    let kept = client_msg-Returns env here now fd m s (Reached-AreDistinctTids here s r) in
    rw step at kept
Reached-AreDistinctTids here s' (gone env now fd s _ r step) =
    let d = Reached-AreDistinctTids here s r in
    let (s'', (ran, (left, rest))) = close_all_tid_for_a_client_lem env now fd s in
    let kept : Returns (close_all_tid_for_a_client env now fd s) =
      rw (ran, left) (remaining-AreDistinctTids fd s.tids.tids d) in
    rw step at kept
Reached-AreDistinctTids here s' (from_router env now bytes s _ r step) =
    let d = Reached-AreDistinctTids here s r in
    let kept =
      kept_distinct env s (check_router env here now bytes s)
        (from_below-IsFaithful env here now bytes s d).1 in
    rw step at kept
Reached-AreDistinctTids here s' (timer env now s _ r step) =
    let d = Reached-AreDistinctTids here s r in
    let kept =
      kept_distinct env s (check_timer env now s) (from_below-IsFaithful env here now [] s d).0 in
    rw step at kept
