-- ===== src/Transport/Tcmp/PingTimeout.antt =====
-- A unicast ping of master/transport/tcmp.c that nobody answers.
use tenet_t.Prelude.{
  ℕ, zero, suc, ◌+◌, ◌%◌, ◌<◌, ◌≡◌, refl, ap, ◌∙◌, ◌≢◌, inl, inr, true, false, Option, none, some,
  List, [], ◌∷◌, ◌++◌, append_assoc, arith, ltb, ◌==◌, Bool-cases, length, u16_mod, Run, ok, ◌>>=◌,
}
use tenet_t.Timeval.{Timeval, compare_timeval, add_ms_to_timeval}
use tenet_t.Trd.Timer.{alarm_due}
use tenet_t.Transport.Tcmp.{
  TcmpEntry, TcmpEvent, Tcmps, tcmp_flag_ping, tcmp_default_num_ping, tcmp_timeout, rt_default_ttl,
  bcast_addr, note_sent, new_tcmp, find_or_add_tcmp, tcmp_send_ping,
}
use tenet_t.Transport.Tcmp.Handlers.{
  round_trip, count_up, tcmp_timer_fired, first_tcmp_due, polling_tcmp_timer,
}
use tenet_t.Transport.Tcmp.Ping.{
  matches_self, IsPing, report, next_ping, answered, IsFresh, IsFresh-find, expected,
}
use tenet_t.Transport.Tcmp.PingRun.{ping_script, script_step}

-- Polls of the timer, one after the other.
unfoldable pub tcmp_polls : List Timeval → Tcmps → Run Tcmps
tcmp_polls [] s = ok s
tcmp_polls (now ∷ later) s = polling_tcmp_timer now s >>= λ s'. tcmp_polls later s'

-- Each time is TCMP_TIMEOUT or more after the one before.
abbrev pub AreDue : Timeval → List Timeval → Type 0
AreDue t [] = Unit
AreDue t (u ∷ us) = (alarm_due (add_ms_to_timeval t tcmp_timeout) u ≡ true) × AreDue u us

-- A timeout has no round-trip time.
pub round_trip-due :
    (sent now : Timeval)
    → alarm_due (add_ms_to_timeval sent tcmp_timeout) now ≡ true
    → round_trip now sent ≡ ok none
unfolding round_trip alarm_due add_ms_to_timeval compare_timeval
round_trip-due sent now h = ground arith

-- The times of the last send, and no more than one.
abbrev IsSent : TcmpEntry → Type 0
IsSent e = e.alarm_time ≡ add_ms_to_timeval e.sent_time tcmp_timeout

poll_front :
    (now : Timeval) (e : TcmpEntry) (ts : List TcmpEntry) (events : List TcmpEvent)
    → IsPing e
    → alarm_due e.alarm_time now ≡ true
    → round_trip now e.sent_time ≡ ok none
    → polling_tcmp_timer now (record { entries = e ∷ ts; events = events })
      ≡ ok (answered now e ts events (report e e.addr none))
unfolding polling_tcmp_timer
poll_front now e ts events ping due measured =
    let first : first_tcmp_due now (e ∷ ts) ≡ some e = rw (due, first_tcmp_due) in
    let type : (e.type == tcmp_flag_ping) ≡ true = ground arith in
    let self = matches_self e in
    rw (first, polling_tcmp_timer, type, tcmp_timer_fired)
      (expected now e ts events e.addr none ping self measured)

-- So many reports of a timeout at the address.
abbrev pub timeouts : ℕ → ℕ → List (ℕ × Option Timeval)
timeouts addr zero = []
timeouts addr (suc n) = (addr, none) ∷ timeouts addr n

length-zero {ℓ} : {A : Type ℓ} (xs : List A) → length xs ≡ 0 → xs ≡ []
length-zero [] h = refl
length-zero (x ∷ xs) h = absurd (omega arith)

timeout_report :
    (e : TcmpEntry)
    → (e.addr == bcast_addr) ≡ false
    → report e e.addr none
      ≡ TcmpEvent.ping_ack e.tid e.addr (record { rtt = none; seqno = e.seqno; node = e.addr })
timeout_report e plain = rw plain refl

polls_end :
    (times : List Timeval) (e : TcmpEntry) (ts : List TcmpEntry) (events : List TcmpEvent)
    → IsPing e
    → IsSent e
    → length times + e.seqno ≡ tcmp_default_num_ping + 1
    → AreDue e.sent_time times
    → tcmp_polls times (record { entries = e ∷ ts; events = events })
      ≡ ok (record {
        entries = ts;
        events = events ++ ping_script e.tid e.addr e.seqno (timeouts e.addr (length times));
      })
unfolding tcmp_polls note_sent count_up
polls_end [] e ts events ping sent count due = absurd (omega arith)
polls_end (now ∷ later) e ts events ping sent count (first, due) =
    let late : alarm_due e.alarm_time now ≡ true = rw sent first in
    let step = poll_front now e ts events ping late (round_trip-due e.sent_time now first) in
    let plain : (e.addr == bcast_addr) ≡ false = ground arith in
    let r = report e e.addr none in
    elim (Bool-cases (ltb e.seqno tcmp_default_num_ping)) [
      | inl more ↦
          let below : e.seqno < tcmp_default_num_ping = ground arith in
          let e' = note_sent now (count_up e) in
          let number : (e.seqno + 1) % u16_mod ≡ e.seqno + 1 = omega arith in
          let next : IsPing e' = ((ping.0.0, ping.0.1), (omega arith, omega arith)) in
          let events' = (events ++ (r ∷ [])) ++ (next_ping e ∷ []) in
          let rest = polls_end later e' ts events' next refl (omega arith) due in
          let es = ping_script e.tid e.addr (e.seqno + 1) (timeouts e.addr (length later)) in
          let joined : events'
                ++ ping_script e.tid e.addr ((e.seqno + 1) % u16_mod)
                    (timeouts e.addr (length later))
              ≡ events ++ (r ∷ next_ping e ∷ es) =
            rw number (script_step events es r (next_ping e)) in
          let shown = ap (λ q. events ++ (q ∷ next_ping e ∷ es)) (timeout_report e plain) in
          rw (step, tcmp_polls, more)
            (rest ∙ ap (λ told. ok (record { entries = ts; events = told })) (joined ∙ shown))
      | inr end ↦
          let last : length later ≡ 0 = ground arith in
          let none_left = length-zero later last in
          let joined = append_assoc events (r ∷ []) (TcmpEvent.over e.tid ∷ []) in
          let shown =
            ap (λ q. events ++ (q ∷ TcmpEvent.over e.tid ∷ [])) (timeout_report e plain) in
          rw (step, tcmp_polls, end, none_left)
            (ap (λ told. ok (record { entries = ts; events = told })) (joined ∙ shown))
    ]

-- The first ping of a transaction.
pub send_ping_new :
    (now : Timeval) (tid addr : ℕ) (s : Tcmps)
    → IsFresh tid s.entries
    → tcmp_send_ping now tid addr s ≡ record {
      entries = note_sent now (new_tcmp tid addr tcmp_flag_ping) ∷ s.entries;
      events = s.events ++ (TcmpEvent.sent addr tcmp_flag_ping tid 1 rt_default_ttl ∷ []);
    }
unfolding tcmp_send_ping find_or_add_tcmp new_tcmp
send_ping_new now tid addr s fresh =
    let gone = IsFresh-find tid addr s.entries fresh in
    let added : find_or_add_tcmp tid addr tcmp_flag_ping s.entries
        ≡ (new_tcmp tid addr tcmp_flag_ping, new_tcmp tid addr tcmp_flag_ping ∷ s.entries) =
      rw (gone, find_or_add_tcmp) in
    rw (added, tcmp_send_ping) (ground arith)

-- A client's unicast ping that nobody answers, where no other entry has its transaction: after
-- five polls, each TCMP_TIMEOUT or more after the one before, five pings with the numbers 1 to 5 have
-- been sent and each was reported to the client as a timeout; the transaction is over, and the list is
-- as it was.
pub ping_unanswered :
    (now : Timeval) (times : List Timeval) (tid addr : ℕ) (s : Tcmps)
    → addr ≢ bcast_addr
    → IsFresh tid s.entries
    → length times ≡ tcmp_default_num_ping
    → AreDue now times
    → tcmp_polls times (tcmp_send_ping now tid addr s)
      ≡ ok (record {
        entries = s.entries;
        events =
            s.events
            ++ (TcmpEvent.sent addr tcmp_flag_ping tid 1 rt_default_ttl
                ∷ ping_script tid addr 1 (timeouts addr tcmp_default_num_ping));
      })
unfolding note_sent new_tcmp
ping_unanswered now times tid addr s one fresh count due =
    let e = note_sent now (new_tcmp tid addr tcmp_flag_ping) in
    let first = TcmpEvent.sent addr tcmp_flag_ping tid 1 rt_default_ttl in
    let ping : IsPing e = ((refl, one), (omega arith, omega arith)) in
    let begun = send_ping_new now tid addr s fresh in
    let ended =
      polls_end times e s.entries (s.events ++ (first ∷ [])) ping refl (omega arith) due in
    rw begun (
      rw count at ended
      ∙ ap (λ told. ok (record { entries = s.entries; events = told }))
          (append_assoc s.events (first ∷ []) (ping_script tid addr 1 (timeouts addr 5))))
