-- ===== src/Transport/Tcmp/TraceRun.antt =====
-- Any answers to a trace of a route in master/transport/tcmp.c, and a probe that is lost.
use tenet_t.Prelude.{
  Bool, map, ℕ, suc, ◌+◌, ◌*◌, ◌%◌, ◌≤◌, ◌<◌, ◌≡◌, refl, sym, ap, ◌∙◌, ◌≢◌, ◌⊎◌, inl, inr, true,
  false, ◌&&◌, Option, none, some, List, [], ◌∷◌, ◌++◌, append-nil, append_assoc, arith, ◌==◌,
  if◌then◌else◌, Bool-cases, length, Run, ok, ◌>>=◌,
}
use tenet_t.Timeval.{Timeval, add_ms_to_timeval}
use tenet_t.Trd.Timer.{alarm_due}
use tenet_t.Transport.Tcmp.{
  TcmpEntry, PingMsg, TcmpEvent, Tcmps, tcmp_flag_ping, tcmp_flag_tracert, tcmp_default_num_tracert,
  tcmp_timeout, find_tcmp_by_tid, note_sent,
}
use tenet_t.Transport.Tcmp.Handlers.{
  receive_tracert_ack, tcmp_timer_fired, first_tcmp_due, polling_tcmp_timer, parse_tracert_response,
}
use tenet_t.Transport.Tcmp.Ping.{
  IsNotAfter, IsNotAfter-trans, IsNotAfter-refl, round_trip_some, IsFresh,
}
use tenet_t.Transport.Tcmp.PingRun.{PingAnswer, AreOrdered, script_step}
use tenet_t.Transport.Tcmp.PingTimeout.{round_trip-due}
use tenet_t.Transport.Tcmp.Trace.{
  hop_of, max_hop, IsTrace, trace_report, is_last, on_hop, next_probe, traced, other_trace,
  expected_trace,
}

-- Answers to a trace, one after the other.
unfoldable pub trace_run : ℕ → List PingAnswer → Tcmps → Run Tcmps
trace_run tid [] s = ok s
trace_run tid (a ∷ rest) s =
    receive_tracert_ack a.time tid a.from a.seqno s >>= λ s'. trace_run tid rest s'

-- The reports from number q on, each with what follows it.
abbrev pub trace_script : ℕ → ℕ → ℕ → List (ℕ × Option Timeval) → List TcmpEvent
trace_script tid dst q [] = []
trace_script tid dst q (r ∷ rs) =
    TcmpEvent.tracert_ack tid dst (record { rtt = r.1; seqno = q; node = r.0 })
    ∷ (if q % tcmp_default_num_tracert == 0 && r.0 == dst
        then TcmpEvent.over tid
        else TcmpEvent.sent dst tcmp_flag_tracert tid (q + 1) (hop_of (q + 1)))
    ∷ trace_script tid dst (q + 1) rs

-- The last answer of a trace: to the third probe of a hop, and from the destination.
abbrev pub ends_with : ℕ → ℕ → ℕ → Bool
ends_with dst q from = q % tcmp_default_num_tracert == 0 && from == dst

-- Of a run of answers, the addresses of those under the number that the trace has come to, up to the
-- last one.
abbrev pub traced_by : ℕ → ℕ → List PingAnswer → List ℕ
traced_by dst q [] = []
traced_by dst q (a ∷ rest) =
    let later = traced_by dst (q + 1) rest in
    let skip = traced_by dst q rest in
    if a.seqno == q then a.from ∷ (if ends_with dst q a.from then [] else later) else skip

-- Whether the last one is among them.
abbrev pub ends_by : ℕ → ℕ → List PingAnswer → Bool
ends_by dst q [] = false
ends_by dst q (a ∷ rest) =
    let later = ends_by dst (q + 1) rest in
    let skip = ends_by dst q rest in
    if a.seqno == q then (if ends_with dst q a.from then true else later) else skip

-- The trace goes on with number q, or is over.
abbrev pub TracedTo : Bool → ℕ → ℕ → ℕ → List TcmpEntry → List TcmpEntry → Type 0
TracedTo over tid dst q ts entries =
    ((over ≡ false)
      × ((e : TcmpEntry) × ((entries ≡ e ∷ ts)
            × ((e.tid ≡ tid) × ((e.addr ≡ dst) × ((e.seqno ≡ q) × (e.ttl ≡ hop_of q)))))))
    ⊎ ((over ≡ true) × (entries ≡ ts))

abbrev pub TraceRunsTo : List PingAnswer → TcmpEntry → List TcmpEntry → List TcmpEvent → Type 0
TraceRunsTo answers e ts events =
    (rs : List (ℕ × Option Timeval)) × ((s' : Tcmps) × ((trace_run e.tid answers
            (record { entries = e ∷ ts; events = events })
          ≡ ok s')
        × ((s'.events ≡ events ++ trace_script e.tid e.addr e.seqno rs)
            × (TracedTo (ends_by e.addr e.seqno answers) e.tid e.addr (e.seqno + length rs) ts
                  s'.entries
                × (map (λ (r : ℕ × Option Timeval). r.0) rs ≡ traced_by e.addr e.seqno answers)))))

trace_run_over :
    (tid : ℕ) (answers : List PingAnswer) (s : Tcmps)
    → IsFresh tid s.entries
    → trace_run tid answers s ≡ ok s
unfolding trace_run receive_tracert_ack find_tcmp_by_tid
trace_run_over tid [] s h = refl
trace_run_over tid (a ∷ rest) s h = rw (h, receive_tracert_ack) (trace_run_over tid rest s h)

module _ (a : PingAnswer) (rest : List PingAnswer) (e : TcmpEntry) (ts : List TcmpEntry)
    (events : List TcmpEvent) where
  trace_skips :
      receive_tracert_ack a.time e.tid a.from a.seqno (record { entries = e ∷ ts; events = events })
        ≡ ok (record { entries = e ∷ ts; events = events })
      → (a.seqno == e.seqno) ≡ false
      → TraceRunsTo rest e ts events
      → TraceRunsTo (a ∷ rest) e ts events
  unfolding trace_run
  trace_skips same skip (rs, (s', (ran, (told, (came, froms))))) =
      (rs, (s', (rw (same, trace_run) ran, (told, (rw skip came, rw skip froms)))))

  trace_goes_on :
      (rtt : Option Timeval)
      → (a.seqno == e.seqno) ≡ true
      → is_last e a.from ≡ false
      → receive_tracert_ack a.time e.tid a.from a.seqno
          (record { entries = e ∷ ts; events = events })
        ≡ ok (traced a.time e ts events a.from (trace_report e a.from rtt))
      → TraceRunsTo rest
          (note_sent a.time (on_hop e))
          ts
          ((events ++ (trace_report e a.from rtt ∷ [])) ++ (next_probe e ∷ []))
      → TraceRunsTo (a ∷ rest) e ts events
  unfolding trace_run note_sent
  trace_goes_on rtt hit more step (rs, (s', (ran, (told, (came, froms))))) =
      let joined =
        script_step events (trace_script e.tid e.addr (e.seqno + 1) rs) (trace_report e a.from rtt)
          (next_probe e) in
      let count : e.seqno + 1 + length rs ≡ e.seqno + suc (length rs) = omega arith in
      (
        (a.from, rtt) ∷ rs,
        (
          s',
          (
            rw (step, trace_run, more) ran,
            (
              told ∙ rw more joined,
              (rw (hit, more, ← count) came, rw (hit, more) (ap (λ l. a.from ∷ l) froms)),
            ),
          ),
        ),
      )

  trace_ends :
      (rtt : Option Timeval)
      → (a.seqno == e.seqno) ≡ true
      → is_last e a.from ≡ true
      → IsFresh e.tid ts
      → receive_tracert_ack a.time e.tid a.from a.seqno
          (record { entries = e ∷ ts; events = events })
        ≡ ok (traced a.time e ts events a.from (trace_report e a.from rtt))
      → TraceRunsTo (a ∷ rest) e ts events
  unfolding trace_run
  trace_ends rtt hit done fresh step =
      let r = trace_report e a.from rtt in
      let over : Tcmps = record {
        entries = ts;
        events = (events ++ (r ∷ [])) ++ (TcmpEvent.over e.tid ∷ []);
      } in
      let joined = append_assoc events (r ∷ []) (TcmpEvent.over e.tid ∷ []) in
      (
        (a.from, rtt) ∷ [],
        (
          over,
          (
            rw (step, trace_run, done) (trace_run_over e.tid rest over fresh),
            (rw done joined, (inr (rw (hit, done) refl, refl), rw (hit, done) refl)),
          ),
        ),
      )

-- However a trace in front of the list is answered, in the order of time and for at most 255 hops: just
-- the answers under the number that the trace has come to are reported to the client, each once, in
-- order and with its address, under the numbers from the trace's on; all others are ignored. Each hop
-- has three probes, and the ttl of a probe is the hop of its number. After a report the next probe is
-- sent, and the trace is kept with its number, but just where the third probe of a hop is answered from
-- the destination the trace is removed and its transaction is over. The other entries stay as they are.
pub trace_run_lem :
    (answers : List PingAnswer) (last : Timeval) (e : TcmpEntry) (ts : List TcmpEntry)
    (events : List TcmpEvent)
    → IsTrace e
    → length answers + e.seqno ≤ tcmp_default_num_tracert * max_hop
    → IsFresh e.tid ts
    → IsNotAfter e.sent_time last
    → AreOrdered last answers
    → TraceRunsTo answers e ts events
unfolding trace_run note_sent
trace_run_lem [] last e ts events trace bound fresh sent order = (
  [],
  (
    record { entries = e ∷ ts; events = events },
    (
      refl,
      (
        sym (append-nil events),
        (inl (refl, (e, (refl, (refl, (refl, (omega arith, omega arith)))))), refl),
      ),
    ),
  ),
)
trace_run_lem (a ∷ rest) last e ts events trace bound fresh sent (before, order) =
    let now = a.time in
    let since = IsNotAfter-trans e.sent_time last now sent before in
    let below : e.seqno < tcmp_default_num_tracert * max_hop = omega arith in
    elim (Bool-cases (a.seqno == e.seqno)) [
      | inr wrong ↦
          let ne : a.seqno ≢ e.seqno = ground arith in
          trace_skips a rest e ts events (other_trace now e ts a.from a.seqno events ne) wrong
            (trace_run_lem rest now e ts events trace (omega arith) fresh since order)
      | inl same ↦
          let number : e.seqno ≡ a.seqno = ground arith in
          let (rtt, measured) = round_trip_some now e.sent_time since in
          let r = trace_report e a.from rtt in
          let step : receive_tracert_ack now e.tid a.from a.seqno
                (record { entries = e ∷ ts; events = events })
              ≡ ok (traced now e ts events a.from r) =
            rw (← number) (expected_trace now e ts a.from rtt events trace below measured) in
          elim (Bool-cases (is_last e a.from)) [
            | inl done ↦ trace_ends a rest e ts events rtt same done fresh step
            | inr more ↦
                let e' = note_sent now (on_hop e) in
                let next : IsTrace e' = (trace.0, ((omega arith, omega arith), refl)) in
                let events' = (events ++ (r ∷ [])) ++ (next_probe e ∷ []) in
                trace_goes_on a rest e ts events rtt same more step (
                  trace_run_lem rest now e' ts events' next (omega arith) fresh
                    (IsNotAfter-refl now) order)
          ]
    ]

-- When the answer to the third probe of a hop does not come within TCMP_TIMEOUT, the trace in front is
-- over as if the destination had answered, wherever the hop is: the client gets a last report that
-- names the destination, and no hop behind this one is probed.
pub trace_lost_probe :
    (now : Timeval) (e : TcmpEntry) (ts : List TcmpEntry) (events : List TcmpEvent)
    → IsTrace e
    → e.seqno < tcmp_default_num_tracert * max_hop
    → e.seqno ≡ tcmp_default_num_tracert * e.ttl
    → e.alarm_time ≡ add_ms_to_timeval e.sent_time tcmp_timeout
    → alarm_due e.alarm_time now ≡ true
    → polling_tcmp_timer now (record { entries = e ∷ ts; events = events })
      ≡ ok (record {
        entries = ts;
        events = events ++ (trace_report e e.addr none ∷ TcmpEvent.over e.tid ∷ []);
      })
unfolding polling_tcmp_timer
trace_lost_probe now e ts events trace below third alarm due =
    let first : first_tcmp_due now (e ∷ ts) ≡ some e = rw (due, first_tcmp_due) in
    let not_ping : (e.type == tcmp_flag_ping) ≡ false = ground arith in
    let type : (e.type == tcmp_flag_tracert) ≡ true = ground arith in
    let measured = round_trip-due e.sent_time now (rw alarm at due) in
    let done : is_last e e.addr ≡ true = ground arith in
    let r = trace_report e e.addr none in
    rw (first, polling_tcmp_timer, not_ping, type, tcmp_timer_fired)
      (expected_trace now e ts e.addr none events trace below measured
        ∙ rw done (
            ap (λ told. ok (record { entries = ts; events = told }))
              (append_assoc events (r ∷ []) (TcmpEvent.over e.tid ∷ []))))

-- The hop that the client computes from a report.
parse-hop_of : (m : PingMsg) → (parse_tracert_response m).1 ≡ hop_of m.seqno
unfolding parse_tracert_response
parse-hop_of m = refl
