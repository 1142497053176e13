-- ===== src/Transport/Tcmp/Trace.antt =====
-- The trace of a route in master/transport/tcmp.c: three probes for each hop.
use tenet_t.Prelude.{
  ℕ, ◌+◌, ◌-◌, ◌*◌, ◌/◌, ◌%◌, ◌≤◌, ◌<◌, ◌≡◌, ap, ◌≢◌, Bool, true, false, ◌&&◌, Option, some, List,
  [], ◌∷◌, ◌++◌, arith, ◌==◌, if◌then◌else◌, ok,
}
use tenet_t.Timeval.{Timeval}
use tenet_t.Transport.Tcmp.{
  TcmpEntry, TcmpEvent, Tcmps, tcmp_flag_tracert, tcmp_default_num_tracert, bcast_addr, matches,
  find_tcmp_by_tid, note_sent,
}
use tenet_t.Transport.Tcmp.Handlers.{
  round_trip, count_up, one_hop_more, after_tracert, receive_tracert_ack,
}
use tenet_t.Transport.Tcmp.Ping.{find_front, change_front}

-- The hop that a number belongs to.
abbrev pub hop_of : ℕ → ℕ
hop_of q = (q - 1) / tcmp_default_num_tracert + 1

-- The hops that a uint8_t counts.
abbrev pub max_hop : ℕ
max_hop = 255

-- A trace with the ttl of its number's hop.
abbrev pub IsTrace : TcmpEntry → Type 0
IsTrace e =
    (e.type ≡ tcmp_flag_tracert)
    × (((1 ≤ e.seqno) × (e.seqno ≤ tcmp_default_num_tracert * max_hop)) × (e.ttl ≡ hop_of e.seqno))

abbrev pub trace_report : TcmpEntry → ℕ → Option Timeval → TcmpEvent
trace_report e from rtt =
    TcmpEvent.tracert_ack e.tid e.addr (record { rtt = rtt; seqno = e.seqno; node = from })

-- The third answer of a hop that comes from the destination is the last.
abbrev pub is_last : TcmpEntry → ℕ → Bool
is_last e from = e.seqno % tcmp_default_num_tracert == 0 && from == e.addr

-- The entry for the next probe.
abbrev pub on_hop : TcmpEntry → TcmpEntry
on_hop e = record e { seqno = e.seqno + 1; ttl = hop_of (e.seqno + 1) }

abbrev pub next_probe : TcmpEntry → TcmpEvent
next_probe e = TcmpEvent.sent e.addr tcmp_flag_tracert e.tid (e.seqno + 1) (hop_of (e.seqno + 1))

-- What an answer does that has the number of the trace in front.
abbrev pub traced : Timeval → TcmpEntry → List TcmpEntry → List TcmpEvent → ℕ → TcmpEvent → Tcmps
traced now e ts events from r =
    if is_last e from
    then record { entries = ts; events = (events ++ (r ∷ [])) ++ (TcmpEvent.over e.tid ∷ []) }
    else record {
      entries = note_sent now (on_hop e) ∷ ts;
      events = (events ++ (r ∷ [])) ++ (next_probe e ∷ []);
    }

module _ (now : Timeval) (e : TcmpEntry) (ts : List TcmpEntry) where
  after_trace :
      (from : ℕ) (events : List TcmpEvent)
      → IsTrace e
      → e.seqno < tcmp_default_num_tracert * max_hop
      → after_tracert now e.tid from e.seqno e
          (record { entries = count_up e ∷ ts; events = events })
        ≡ (if is_last e from
            then record { entries = ts; events = events ++ (TcmpEvent.over e.tid ∷ []) }
            else record {
              entries = note_sent now (on_hop e) ∷ ts;
              events = events ++ (next_probe e ∷ []);
            })
  unfolding after_tracert count_up one_hop_more note_sent
  after_trace from events trace below = ground arith

  find_by_tid_front : find_tcmp_by_tid (e ∷ ts) e.tid ≡ some e
  unfolding find_tcmp_by_tid
  find_by_tid_front =
      let mine : matches e.tid bcast_addr e ≡ true = ground arith in find_front e ts bcast_addr mine

  pub other_trace :
      (from seqno : ℕ) (events : List TcmpEvent)
      → seqno ≢ e.seqno
      → receive_tracert_ack now e.tid from seqno (record { entries = e ∷ ts; events = events })
        ≡ ok (record { entries = e ∷ ts; events = events })
  unfolding receive_tracert_ack
  other_trace from seqno events ne =
      let off : (seqno == e.seqno) ≡ false = ground arith in
      rw (find_by_tid_front, receive_tracert_ack, off)

  pub expected_trace :
      (from : ℕ) (rtt : Option Timeval) (events : List TcmpEvent)
      → IsTrace e
      → e.seqno < tcmp_default_num_tracert * max_hop
      → round_trip now e.sent_time ≡ ok rtt
      → receive_tracert_ack now e.tid from e.seqno (record { entries = e ∷ ts; events = events })
        ≡ ok (traced now e ts events from (trace_report e from rtt))
  unfolding receive_tracert_ack
  expected_trace from rtt events trace below measured =
      let same : (e.seqno == e.seqno) ≡ true = ground arith in
      let mine : matches e.tid bcast_addr e ≡ true = ground arith in
      let changed = change_front count_up e ts e.tid bcast_addr mine in
      let told = events ++ (trace_report e from rtt ∷ []) in
      rw (find_by_tid_front, receive_tracert_ack, same, measured, changed)
        (ap ok (after_trace from told trace below))
