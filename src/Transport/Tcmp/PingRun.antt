-- ===== src/Transport/Tcmp/PingRun.antt =====
-- Any answers to a unicast ping of master/transport/tcmp.c, and none.
use tenet_t.Prelude.{
  ap, Bool, ◌&&◌, ◌||◌, leb, map, ℕ, suc, ◌+◌, ◌%◌, ◌≤◌, ◌<◌, ◌≡◌, refl, sym, ◌∙◌, ◌≢◌, ◌⊎◌, inl,
  inr, true, false, Option, none, List, [], ◌∷◌, ◌++◌, append-nil, append_assoc, arith, ltb, ◌==◌,
  if◌then◌else◌, Bool-cases, length, u16_mod, Run, ok, ◌>>=◌,
}
use tenet_t.Timeval.{Timeval}
use tenet_t.Transport.Tcmp.{
  TcmpEntry, TcmpEvent, Tcmps, tcmp_flag_ping, tcmp_default_num_ping, rt_default_ttl, bcast_addr,
  matches, note_sent,
}
use tenet_t.Transport.Tcmp.Handlers.{count_up, receive_ping_ack}
use tenet_t.Transport.Tcmp.Ping.{
  IsNotAfter, IsNotAfter-trans, IsNotAfter-refl, round_trip_some, IsPing, report, next_ping,
  answered, IsFresh, IsFresh-find, here, other_address, other_number, expected,
}

pub record PingAnswer : Type 0 where
  pub time : Timeval
  pub from : ℕ
  pub seqno : ℕ

-- Answers to a transaction, one after the other.
unfoldable pub ping_run : ℕ → List PingAnswer → Tcmps → Run Tcmps
ping_run tid [] s = ok s
ping_run tid (a ∷ rest) s =
    receive_ping_ack a.time tid a.from a.seqno s >>= λ s'. ping_run tid rest s'

abbrev pub AreOrdered : Timeval → List PingAnswer → Type 0
AreOrdered t [] = Unit
AreOrdered t (a ∷ rest) = IsNotAfter t a.time × AreOrdered a.time rest

-- The reports from number q on, each with what follows it.
abbrev pub ping_script : ℕ → ℕ → ℕ → List (ℕ × Option Timeval) → List TcmpEvent
ping_script tid addr q [] = []
ping_script tid addr q (r ∷ rs) =
    TcmpEvent.ping_ack tid r.0 (record { rtt = r.1; seqno = q; node = r.0 })
    ∷ (if ltb q tcmp_default_num_ping
        then TcmpEvent.sent addr tcmp_flag_ping tid (q + 1) rt_default_ttl
        else TcmpEvent.over tid)
    ∷ ping_script tid addr (q + 1) rs

-- The answer to a ping of a mote under number q: from the mote or from all, under this number.
abbrev pub answers_to : ℕ → ℕ → PingAnswer → Bool
answers_to addr q a =
    leb q tcmp_default_num_ping && (a.seqno == q && (addr == a.from || a.from == bcast_addr))

-- Of a run of answers, the addresses of those that answer the number that the ping has come to.
abbrev pub counted : ℕ → ℕ → List PingAnswer → List ℕ
counted addr q [] = []
counted addr q (a ∷ rest) =
    let hit = a.from ∷ counted addr (q + 1) rest in
    let skip = counted addr q rest in if answers_to addr q a then hit else skip

counted_over :
    (addr q : ℕ) (answers : List PingAnswer)
    → leb q tcmp_default_num_ping ≡ false
    → counted addr q answers ≡ []
counted_over addr q [] over = refl
counted_over addr q (a ∷ rest) over = rw over (counted_over addr q rest over)

matches-answers :
    (e : TcmpEntry) (from : ℕ)
    → IsPing e
    → matches e.tid from e ≡ (e.addr == from || from == bcast_addr)
matches-answers e from ping =
    let mine : (e.tid == e.tid) ≡ true = ground arith in
    let one : (e.addr == bcast_addr) ≡ false = ground arith in rw (mine, one) refl

not_number : (addr q : ℕ) (a : PingAnswer) → (a.seqno == q) ≡ false → answers_to addr q a ≡ false
not_number addr q a wrong = elim (Bool-cases (leb q tcmp_default_num_ping)) [
  | inl running ↦ rw (running, wrong) refl
  | inr over ↦ rw over refl
]

not_from :
    (addr q : ℕ) (a : PingAnswer)
    → (addr == a.from || a.from == bcast_addr) ≡ false
    → answers_to addr q a ≡ false
not_from addr q a other = elim (Bool-cases (a.seqno == q)) [
  | inr wrong ↦ not_number addr q a wrong
  | inl same ↦ elim (Bool-cases (leb q tcmp_default_num_ping)) [
    | inl running ↦ rw (running, same, other) refl
    | inr over ↦ rw over refl
  ]
]

-- A ping that has come to number q, or is over.
abbrev pub HasComeTo : ℕ → ℕ → ℕ → List TcmpEntry → List TcmpEntry → Type 0
HasComeTo tid addr q ts entries =
    ((q ≤ tcmp_default_num_ping)
      × ((e : TcmpEntry) × ((entries ≡ e ∷ ts)
            × ((e.tid ≡ tid) × ((e.addr ≡ addr) × (e.seqno ≡ q))))))
    ⊎ ((q ≡ tcmp_default_num_ping + 1) × (entries ≡ ts))

ping_run_over :
    (tid : ℕ) (answers : List PingAnswer) (s : Tcmps)
    → IsFresh tid s.entries
    → ping_run tid answers s ≡ ok s
unfolding ping_run receive_ping_ack
ping_run_over tid [] s h = refl
ping_run_over tid (a ∷ rest) s h =
    let gone = IsFresh-find tid a.from s.entries h in
    rw (gone, receive_ping_ack) (ping_run_over tid rest s h)

-- Where the answers lead from the entry `e` in front.
abbrev pub RunsTo : List PingAnswer → TcmpEntry → List TcmpEntry → List TcmpEvent → Type 0
RunsTo answers e ts events =
    (rs : List (ℕ × Option Timeval)) × ((s' : Tcmps) × ((ping_run e.tid answers
            (record { entries = e ∷ ts; events = events })
          ≡ ok s')
        × ((s'.events ≡ events ++ ping_script e.tid e.addr e.seqno rs)
            × (HasComeTo e.tid e.addr (e.seqno + length rs) ts s'.entries
                × (map (λ (r : ℕ × Option Timeval). r.0) rs ≡ counted e.addr e.seqno answers)))))

-- The run goes on from where the first answer leads.
runs_on :
    (a : PingAnswer) (rest : List PingAnswer) (e : TcmpEntry) (ts : List TcmpEntry)
    (events : List TcmpEvent)
    → receive_ping_ack a.time e.tid a.from a.seqno (record { entries = e ∷ ts; events = events })
      ≡ ok (record { entries = e ∷ ts; events = events })
    → answers_to e.addr e.seqno a ≡ false
    → RunsTo rest e ts events
    → RunsTo (a ∷ rest) e ts events
unfolding ping_run
runs_on a rest e ts events same skip (rs, (s', (ran, (told, (came, count))))) =
    (rs, (s', (rw (same, ping_run) ran, (told, (came, rw skip count)))))

pub script_step :
    (events es : List TcmpEvent) (r n : TcmpEvent)
    → ((events ++ (r ∷ [])) ++ (n ∷ [])) ++ es ≡ events ++ (r ∷ n ∷ es)
script_step events es r n = simp append_assoc

runs_next :
    (a : PingAnswer) (rest : List PingAnswer) (e : TcmpEntry) (ts : List TcmpEntry)
    (events : List TcmpEvent) (rtt : Option Timeval)
    → e.seqno < tcmp_default_num_ping
    → answers_to e.addr e.seqno a ≡ true
    → receive_ping_ack a.time e.tid a.from a.seqno (record { entries = e ∷ ts; events = events })
      ≡ ok (answered a.time e ts events (report e a.from rtt))
    → RunsTo rest
        (note_sent a.time (count_up e))
        ts
        ((events ++ (report e a.from rtt ∷ [])) ++ (next_ping e ∷ []))
    → RunsTo (a ∷ rest) e ts events
unfolding ping_run note_sent count_up
runs_next a rest e ts events rtt more hit step (rs, (s', (ran, (told, (came, froms))))) =
    let known : Option Timeval = if a.from == bcast_addr then none else rtt in
    let going : ltb e.seqno tcmp_default_num_ping ≡ true = ground arith in
    let number : (e.seqno + 1) % u16_mod ≡ e.seqno + 1 = omega arith in
    let joined =
      script_step events (ping_script e.tid e.addr (e.seqno + 1) rs) (report e a.from rtt)
        (next_ping e) in
    let count : e.seqno + 1 + length rs ≡ e.seqno + suc (length rs) = omega arith in
    (
      (a.from, known) ∷ rs,
      (
        s',
        (
          rw (step, ping_run, going) ran,
          (
            (rw number at told) ∙ rw going joined,
            (rw (← count) (rw number at came), rw hit (ap (λ l. a.from ∷ l) (rw number at froms))),
          ),
        ),
      ),
    )

runs_last :
    (a : PingAnswer) (rest : List PingAnswer) (e : TcmpEntry) (ts : List TcmpEntry)
    (events : List TcmpEvent) (rtt : Option Timeval)
    → e.seqno ≡ tcmp_default_num_ping
    → answers_to e.addr e.seqno a ≡ true
    → IsFresh e.tid ts
    → receive_ping_ack a.time e.tid a.from a.seqno (record { entries = e ∷ ts; events = events })
      ≡ ok (answered a.time e ts events (report e a.from rtt))
    → RunsTo (a ∷ rest) e ts events
unfolding ping_run
runs_last a rest e ts events rtt last hit fresh step =
    let known : Option Timeval = if a.from == bcast_addr then none else rtt in
    let done : ltb e.seqno tcmp_default_num_ping ≡ false = ground arith in
    let beyond : leb (e.seqno + 1) tcmp_default_num_ping ≡ false = ground arith in
    let over : Tcmps = record {
      entries = ts;
      events = (events ++ (report e a.from rtt ∷ [])) ++ (TcmpEvent.over e.tid ∷ []);
    } in
    let joined = append_assoc events (report e a.from rtt ∷ []) (TcmpEvent.over e.tid ∷ []) in
    (
      (a.from, known) ∷ [],
      (
        over,
        (
          rw (step, ping_run, done) (ping_run_over e.tid rest over fresh),
          (
            rw done joined,
            (
              inr (omega arith, refl),
              rw hit (ap (λ l. a.from ∷ l) (sym (counted_over e.addr (e.seqno + 1) rest beyond))),
            ),
          ),
        ),
      ),
    )

-- However a unicast ping in front of the list is answered, from whatever address and under whatever
-- number, in the order of time and not before it was sent: just the answers from its mote, or from all,
-- under the number that the ping has come to are reported to the client, each once, in order and with
-- its address, under the numbers from the ping's on, up to 5; all others are ignored. After a report
-- below 5 the next ping is sent; after report 5 the ping is removed and its transaction is over. The
-- other entries stay as they are.
pub ping_run_lem :
    (answers : List PingAnswer) (last : Timeval) (e : TcmpEntry) (ts : List TcmpEntry)
    (events : List TcmpEvent)
    → IsPing e
    → IsFresh e.tid ts
    → IsNotAfter e.sent_time last
    → AreOrdered last answers
    → RunsTo answers e ts events
unfolding ping_run note_sent count_up
ping_run_lem [] last e ts events ping fresh sent order = (
  [],
  (
    record { entries = e ∷ ts; events = events },
    (
      refl,
      (
        sym (append-nil events),
        (inl (omega arith, (e, (refl, (refl, (refl, omega arith))))), refl),
      ),
    ),
  ),
)
ping_run_lem (a ∷ rest) last e ts events ping fresh sent (before, order) =
    let now = a.time in
    let since = IsNotAfter-trans e.sent_time last now sent before in
    let go_on = ping_run_lem rest now e ts events ping fresh since order in
    let known = matches-answers e a.from ping in
    let running : leb e.seqno tcmp_default_num_ping ≡ true = ground arith in
    elim (Bool-cases (matches e.tid a.from e)) [
      | inr other ↦
          runs_on a rest e ts events (other_address now e ts events a.from a.seqno fresh other)
            (not_from e.addr e.seqno a (rw known at other)) go_on
      | inl mine ↦ elim (Bool-cases (a.seqno == e.seqno)) [
        | inr wrong ↦
            let ne : a.seqno ≢ e.seqno = ground arith in
            runs_on a rest e ts events (other_number now e ts events a.from a.seqno ping mine ne)
              (not_number e.addr e.seqno a wrong) go_on
        | inl same ↦
            let number : e.seqno ≡ a.seqno = ground arith in
            let of : (e.addr == a.from || a.from == bcast_addr) ≡ true = rw known at mine in
            let hit : answers_to e.addr e.seqno a ≡ true = rw (running, same, of) refl in
            let (rtt, measured) = round_trip_some now e.sent_time since in
            let step : receive_ping_ack now e.tid a.from a.seqno (here now e ts events)
                ≡ ok (answered now e ts events (report e a.from rtt)) =
              rw (← number) (expected now e ts events a.from rtt ping mine measured) in
            elim (Bool-cases (ltb e.seqno tcmp_default_num_ping)) [
              | inl more ↦
                  let below : e.seqno < tcmp_default_num_ping = ground arith in
                  let e' = note_sent now (count_up e) in
                  let next : IsPing e' = ((ping.0.0, ping.0.1), (omega arith, omega arith)) in
                  let events' = (events ++ (report e a.from rtt ∷ [])) ++ (next_ping e ∷ []) in
                  runs_next a rest e ts events rtt below hit step
                    (ping_run_lem rest now e' ts events' next fresh (IsNotAfter-refl now) order)
              | inr end ↦
                  let last : e.seqno ≡ tcmp_default_num_ping = ground arith in
                  runs_last a rest e ts events rtt last hit fresh step
            ]
      ]
    ]
