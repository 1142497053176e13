-- ===== src/Transport/Main/Outcome.antt =====
-- How a client's task ends in master/transport/transportmain.c that its mote never acknowledges.
use tenet_t.Prelude.{
  ℕ, ◌+◌, ◌≤◌, ◌<◌, ◌≡◌, refl, sym, ap, ap₂, ◌∙◌, ◌≢◌, true, false, none, some, List, [], ◌∷◌, ◌++◌,
  append-nil, append_assoc, arith, ◌==◌, length, replicate, u16_mod, u8_mod, Run, ok, ◌>>=◌,
}
use tenet_t.Timeval.{Timeval, add_ms_to_timeval}
use tenet_t.Trd.Timer.{alarm_due}
use tenet_t.Transport.PacketTransport.Handlers.{polling_packettransport_timer}
use tenet_t.Transport.Packet.{tr_header, tr_frame}
use tenet_t.Transport.TidList.{
  TidEntry, all_tid, min_tid, max_tid, tidlist_find_tid, remove_from, tidlist_remove_tid,
}
use tenet_t.Transport.TidList.Assign.{assign_new_tid_lem}
use tenet_t.Transport.PacketTransport.{
  PtrConn, PtrEvent, Ptrs, find_ptr, ptr_ack_timeout, ptr_flag_send, ptr_max_num_retx,
}
use tenet_t.Transport.PacketTransport.Retransmit.{
  IsSending, IsInFront, poll_front, Frames, fire_again, give_up, packettransport_send-IsSending,
}
use tenet_t.Transport.Main.{
  AppMsg, Outside, Master, trans_type_task, trans_type_close, trans_type_cmd_return,
  trans_type_cmd_nack, tos_bcast_addr, forget, tell, senddone_packettransport, on_ptr_event,
  on_ptr_events, with_ptr, client_task,
}
use tenet_t.Transport.Main.Task.{after_task, client_task_runs, told, find_first, client_fd_of}

-- polling_packettransport_timer at several times in a row, with what it calls.
abbrev pub task_polls : Outside → List Timeval → Master → Run Master
task_polls env [] s = ok s
task_polls env (now ∷ later) s =
    with_ptr env (polling_packettransport_timer now) s >>= λ s'. task_polls env later s'

-- Each of the times, and then the last, comes when the timeout since the one before is over.
abbrev pub AreDueTo : Timeval → List Timeval → Timeval → Type 0
AreDueTo since [] last = alarm_due (add_ms_to_timeval since ptr_ack_timeout) last ≡ true
AreDueTo since (now ∷ later) last =
    (alarm_due (add_ms_to_timeval since ptr_ack_timeout) now ≡ true) × AreDueTo now later last

module _ (env : Outside) (tid addr : ℕ) where
  -- What changes in the packet transport alone.
  abbrev with_conns : Master → Ptrs → List PtrEvent → Master
  with_conns s p es = record s { ptrs = record p { events = s.ptrs.events ++ es } }

  abbrev idle : Master → Ptrs
  idle s = record s.ptrs { events = [] }

  one_event :
      (op : Ptrs → Run Ptrs) (s : Master) (p : Ptrs) (e : PtrEvent)
      → op (idle s) ≡ ok p
      → p.events ≡ e ∷ []
      → with_ptr env op s ≡ ok (on_ptr_event env e (with_conns s p (e ∷ [])))
  unfolding with_ptr on_ptr_events
  one_event op s p e ran is = rw (ran, with_ptr, is)

  module _ (seqno : ℕ) (msg bytes : List ℕ)
      (framed : tr_frame tid seqno ptr_flag_send msg ≡ ok bytes) where
    abbrev moved :
        (r : ℕ) (p q : Ptrs)
        → q.conns ≡ p.conns
        → IsSending p tid addr seqno r msg
        → IsSending q tid addr seqno r msg
    moved r p q same w = record {
      c = w.c;
      found = rw same w.found;
      keyed = w.keyed;
      packet = w.packet;
      sent_seqno = w.sent_seqno;
      retx_count = w.retx_count;
    }

    again :
        (since now : Timeval) (r : ℕ) (s : Master) (rest : List PtrConn)
        (w : IsSending s.ptrs tid addr seqno r msg)
        → r < ptr_max_num_retx
        → IsInFront s.ptrs since w.c rest
        → alarm_due (add_ms_to_timeval since ptr_ack_timeout) now ≡ true
        → (p : Ptrs) × ((with_ptr env (polling_packettransport_timer now) s
              ≡ ok (with_conns s p (PtrEvent.sent addr bytes ∷ [])))
            × ((w' : IsSending p tid addr seqno (r + 1) msg) × IsInFront p now w'.c rest))
    unfolding on_ptr_event
    again since now r s rest w more (front, alarm) due =
        let w0 = moved r s.ptrs (idle s) refl w in
        let (p, (fired, (events, (w', keeps)))) =
          fire_again tid addr seqno msg bytes framed now r (idle s) w0 more in
        let late : alarm_due w.c.alarm_time now ≡ true = rw alarm due in
        let polled : polling_packettransport_timer now (idle s) ≡ ok p =
          poll_front now (idle s) w.c rest front late ∙ fired in
        (
          p,
          (
            one_event (polling_packettransport_timer now) s p (PtrEvent.sent addr bytes) polled
                events,
            (w', keeps rest front),
          ),
        )

    times_out :
        (since : Timeval) (times : List Timeval) (last : Timeval) (r : ℕ) (s : Master)
        (rest : List PtrConn) (w : IsSending s.ptrs tid addr seqno r msg)
        → r + length times ≡ ptr_max_num_retx
        → IsInFront s.ptrs since w.c rest
        → AreDueTo since times last
        → (q : Ptrs) × ((task_polls env times s ≡ ok (record s { ptrs = q }))
            × ((q.events ≡ s.ptrs.events ++ replicate (length times) (PtrEvent.sent addr bytes))
                × ((w' : IsSending q tid addr seqno ptr_max_num_retx msg) × ((q.conns ≡ w'.c ∷ rest)
                      × (alarm_due w'.c.alarm_time last ≡ true)))))
    times_out since [] last r s rest w count (front, alarm) due =
        let all : IsSending s.ptrs tid addr seqno ptr_max_num_retx msg = record {
          c = w.c;
          found = w.found;
          keyed = w.keyed;
          packet = w.packet;
          sent_seqno = w.sent_seqno;
          retx_count = w.retx_count ∙ omega arith;
        } in
        (s.ptrs, (refl, (sym (append-nil s.ptrs.events), (all, (front, rw alarm due)))))
    times_out since (now ∷ later) last r s rest w count front (due, dues) =
        let X = PtrEvent.sent addr bytes in
        let (p, (fired, (w', front'))) = again since now r s rest w (omega arith) front due in
        let s1 = with_conns s p (X ∷ []) in
        let (q, (ran, (events, w''))) =
          times_out now later last (r + 1) s1 rest (moved (r + 1) p s1.ptrs refl w') (omega arith)
            front' dues in
        (
          q,
          (
            rw fired ran,
            (events ∙ append_assoc s.ptrs.events (X ∷ []) (replicate (length later) X), w''),
          ),
        )

    -- The last timeout, for the task's entry in front.
    gives_up :
        (last : Timeval) (s : Master) (t : TidEntry) (ts : List TidEntry) (rest : List PtrConn)
        (w : IsSending s.ptrs tid addr seqno ptr_max_num_retx msg)
        → s.ptrs.conns ≡ w.c ∷ rest
        → alarm_due w.c.alarm_time last ≡ true
        → tid ≢ all_tid
        → s.tids.tids ≡ t ∷ ts
        → (t.tid ≡ tid) × (t.type ≡ trans_type_task)
        → env.written t.fd ≡ true
        → (s' : Master) × ((task_polls env (last ∷ []) s ≡ ok s')
            × ((s'.tids.tids ≡ ts)
                × ((s'.to_clients
                      ≡ s.to_clients
                        ++ (record {
                          fd = some t.fd;
                          type = trans_type_cmd_nack;
                          tid = tid;
                          addr = addr;
                          msg = [];
                        }
                            ∷ []))
                    × (s'.ptrs.events
                        ≡ s.ptrs.events ++ (PtrEvent.send_done tid addr false ∷ [])))))
    unfolding on_ptr_event senddone_packettransport tidlist_remove_tid remove_from
    gives_up last s t ts rest w in_front late one front (same, task) written =
        let w0 = moved ptr_max_num_retx s.ptrs (idle s) refl w in
        let (p, (fired, events)) = give_up tid addr seqno msg bytes framed last (idle s) w0 in
        let polled : polling_packettransport_timer last (idle s) ≡ ok p =
          poll_front last (idle s) w.c rest in_front late ∙ fired in
        let e = PtrEvent.send_done tid addr false in
        let s1 = with_conns s p (e ∷ []) in
        let step = one_event (polling_packettransport_timer last) s p e polled events in
        let known : tidlist_find_tid s1.tids.tids tid ≡ some t =
          ap (tidlist_find_tid s1.tids.tids) (sym same) ∙ rw front (find_first t ts) in
        let mine = client_fd_of tid s1.tids t known in
        let tells = told env [] trans_type_cmd_nack tid addr t.fd s1 one mine written in
        let not_closing : (t.type == trans_type_close) ≡ false = ground arith in
        let here : (t.tid == tid) ≡ true = ground arith in
        let m : AppMsg = record {
          fd = some t.fd;
          type = trans_type_cmd_nack;
          tid = tid;
          addr = addr;
          msg = [];
        } in
        (
          forget tid (tell m s1),
          (
            rw (step, known, senddone_packettransport, not_closing, tells),
            (rw (front, here) refl, (refl, refl)),
          ),
        )

abbrev pub notice : ℕ → ℕ → ℕ → ℕ → AppMsg
notice fd type tid addr = record { fd = some fd; type = type; tid = tid; addr = addr; msg = [] }

-- A unicast TRANS_TYPE_TASK of a client whose socket takes what is written, with a free number left and at
-- most 249 bytes, to a mote with no connection of the packet transport yet, which never acknowledges it:
-- after six polls of the timer, each when the timeout since the one before is over, the task's payload,
-- framed under its number, has been sent six times as the same bytes, the client has got CMD_RETURN and
-- then CMD_NACK under the task's number, and the transactions are what they were. Connections to other
-- motes may be due at any time.
pub task_unanswered :
    (env : Outside) (now last : Timeval) (times : List Timeval) (fd addr f : ℕ) (payload : List ℕ)
    (s : Master)
    → addr ≢ tos_bcast_addr
    → tr_header + length payload < u8_mod
    → env.written fd ≡ true
    → (min_tid ≤ f) × (f ≤ max_tid)
    → tidlist_find_tid s.tids.tids f ≡ none
    → s.tids.my_tid < u16_mod
    → length times ≡ ptr_max_num_retx
    → ((n : ℕ) → find_ptr s.ptrs.conns n addr ≡ none)
    → AreDueTo now times last
    → (tid : ℕ) × ((bytes : List ℕ) × ((s' : Master) × (((client_task env now fd addr payload s
                >>= λ s1. task_polls env times s1 >>= λ s2. task_polls env (last ∷ []) s2)
              ≡ ok s')
            × ((s'.tids.tids ≡ s.tids.tids)
                × ((s'.to_clients
                      ≡ s.to_clients
                        ++ (notice fd trans_type_cmd_return tid addr
                            ∷ notice fd trans_type_cmd_nack tid addr
                            ∷ []))
                    × ((s'.ptrs.events
                          ≡ s.ptrs.events
                            ++ (replicate 6 (PtrEvent.sent addr bytes)
                                ++ (PtrEvent.send_done tid addr false ∷ [])))
                        × Frames tid payload bytes))))))
task_unanswered env now last times fd addr f payload s other fits written range free my five unknown
      due =
    let (tid, (given, (assigned, (in_range, (new, (same, my')))))) =
      assign_new_tid_lem 0 f s.tids range free my in
    let one : tid ≢ all_tid = omega arith in
    let (bytes, (p, (seqno, (sent, (framed, (first, (w, fresh))))))) =
      packettransport_send-IsSending now tid addr payload s.ptrs fits in
    let s1 = after_task env now fd addr tid given p s in
    let ran =
      client_task_runs env now fd addr tid payload s given p other fits written one assigned
        (rw same new) sent in
    let count : 0 + length times ≡ ptr_max_num_retx = omega arith in
    let (q, (timed, (again, (w5, (in_front, late))))) =
      times_out env tid addr seqno payload bytes framed now times last 0 s1 s.ptrs.conns w count
        (fresh (unknown tid)) due in
    let entry : TidEntry = record {
      tid = tid;
      addr = addr;
      type = trans_type_task;
      fd = fd;
      timestamp = now;
    } in
    let s2 : Master = record s1 { ptrs = q } in
    let (s3, (ended, (left, (told_all, events)))) =
      gives_up env tid addr seqno payload bytes framed last s2 entry given.tids s.ptrs.conns w5
        in_front late one refl (refl, refl) written in
    let X : PtrEvent = PtrEvent.sent addr bytes in
    let D : List PtrEvent = PtrEvent.send_done tid addr false ∷ [] in
    (
      tid,
      (
        bytes,
        (
          s3,
          (
            rw (ran, timed) ended,
            (
              left ∙ same,
              (
                told_all
                    ∙ append_assoc s.to_clients (notice fd trans_type_cmd_return tid addr ∷ [])
                        (notice fd trans_type_cmd_nack tid addr ∷ []),
                (
                  events
                      ∙ ap (λ (es : List PtrEvent). es ++ D)
                          (again
                            ∙ ap₂ (λ (es : List PtrEvent) (n : ℕ). es ++ replicate n X) first five
                            ∙ append_assoc s.ptrs.events (X ∷ []) (replicate 5 X))
                      ∙ append_assoc s.ptrs.events (replicate 6 X) D,
                  (seqno, framed),
                ),
              ),
            ),
          ),
        ),
      ),
    )
