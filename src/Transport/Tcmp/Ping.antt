-- ===== src/Transport/Tcmp/Ping.antt =====
-- The life of a unicast ping in master/transport/tcmp.c: five reports at most, and then its end.
use tenet_t.Prelude.{
  ℕ, ◌+◌, ◌-◌, ◌/◌, ◌≤◌, Ordering, ◌≡◌, refl, ap, ◌∙◌, ◌≢◌, ◌⊎◌, inl, inr, true, false, Option,
  none, some, List, [], ◌∷◌, ◌++◌, arith, ltb, leb, ◌==◌, if◌then◌else◌, Bool-cases, ok,
}
use tenet_t.Timeval.{Timeval, compare_timeval, subtract_timeval}
use tenet_t.Transport.Tcmp.{
  TcmpEntry, TcmpEvent, Tcmps, tcmp_flag_ping, tcmp_default_num_ping, tcmp_timeout, rt_default_ttl,
  bcast_addr, matches, find_tcmp, change_tcmp, remove_tcmp, note_sent, find_or_add_tcmp,
  tcmp_send_ping,
}
use tenet_t.Transport.Tcmp.Handlers.{
  round_trip, count_up, report_ping, after_ping, receive_ping_ack,
}

-- a is not after b.
abbrev pub IsNotAfter : Timeval → Timeval → Type 0
IsNotAfter a b = compare_timeval b a ≢ Ordering.lt

pub IsNotAfter-trans : (a b c : Timeval) → IsNotAfter a b → IsNotAfter b c → IsNotAfter a c
unfolding compare_timeval
IsNotAfter-trans a b c h k = ground arith

pub IsNotAfter-refl : (a : Timeval) → IsNotAfter a a
unfolding compare_timeval
IsNotAfter-refl a h = absurd (ground arith)

compare_cases : (o : Ordering) → (o ≡ Ordering.lt) ⊎ ((o ≡ Ordering.eq) ⊎ (o ≡ Ordering.gt))
compare_cases Ordering.lt = inl refl
compare_cases Ordering.eq = inr (inl refl)
compare_cases Ordering.gt = inr (inr refl)

-- What subtract_timeval returns where it does not refuse.
abbrev difference : Timeval → Timeval → Timeval
difference to from =
    if ltb to.tv_usec from.tv_usec
    then record {
      tv_sec = to.tv_sec - from.tv_sec - 1;
      tv_usec = to.tv_usec + 1000000 - from.tv_usec;
    }
    else record { tv_sec = to.tv_sec - from.tv_sec; tv_usec = to.tv_usec - from.tv_usec }

subtract_some :
    (now sent : Timeval)
    → IsNotAfter sent now
    → (d : Timeval) × (subtract_timeval now sent ≡ some d)
unfolding subtract_timeval
subtract_some now sent h = elim (compare_cases (compare_timeval now sent)) [
  | inl before ↦ absurd (h before)
  | inr (inl same) ↦ (difference now sent, rw (same, subtract_timeval))
  | inr (inr after) ↦ (difference now sent, rw (after, subtract_timeval))
]

pub round_trip_some :
    (now sent : Timeval)
    → IsNotAfter sent now
    → (rtt : Option Timeval) × (round_trip now sent ≡ ok rtt)
unfolding round_trip
round_trip_some now sent h =
    let (d, e) = subtract_some now sent h in
    (if leb (tcmp_timeout / 1000 - 1) d.tv_sec then none else some d, rw (e, round_trip))

-- The entries with `e` in front, where no other is of its transaction.
pub find_front :
    (e : TcmpEntry) (ts : List TcmpEntry) (a : ℕ)
    → matches e.tid a e ≡ true
    → find_tcmp (e ∷ ts) e.tid a ≡ some e
unfolding find_tcmp
find_front e ts a h = rw (h, find_tcmp)

find_behind :
    (e : TcmpEntry) (ts : List TcmpEntry) (tid a : ℕ)
    → matches tid a e ≡ false
    → find_tcmp ts tid a ≡ none
    → find_tcmp (e ∷ ts) tid a ≡ none
unfolding find_tcmp
find_behind e ts tid a h gone = rw (h, find_tcmp) gone

pub matches_self : (e : TcmpEntry) → matches e.tid e.addr e ≡ true
matches_self e = ground arith

pub change_front :
    (f : TcmpEntry → TcmpEntry) (e : TcmpEntry) (ts : List TcmpEntry) (tid a : ℕ)
    → matches tid a e ≡ true
    → change_tcmp f (e ∷ ts) tid a ≡ f e ∷ ts
unfolding change_tcmp
change_front f e ts tid a h = rw (h, change_tcmp)

pub remove_front :
    (e : TcmpEntry) (ts : List TcmpEntry) (tid a : ℕ)
    → matches tid a e ≡ true
    → remove_tcmp (e ∷ ts) tid a ≡ ts
unfolding remove_tcmp
remove_front e ts tid a h = rw (h, remove_tcmp)

pub find_or_add_front :
    (e : TcmpEntry) (ts : List TcmpEntry) (type : ℕ)
    → find_or_add_tcmp e.tid e.addr type (e ∷ ts) ≡ (e, e ∷ ts)
unfolding find_or_add_tcmp
find_or_add_front e ts type =
    let found = find_front e ts e.addr (matches_self e) in rw (found, find_or_add_tcmp)

pub send_ping_front :
    (now : Timeval) (e : TcmpEntry) (ts : List TcmpEntry) (events : List TcmpEvent)
    → tcmp_send_ping now e.tid e.addr (record { entries = e ∷ ts; events = events }) ≡ record {
      entries = note_sent now e ∷ ts;
      events = events ++ (TcmpEvent.sent e.addr e.type e.tid e.seqno rt_default_ttl ∷ []);
    }
unfolding tcmp_send_ping
send_ping_front now e ts events =
    let found = find_or_add_front e ts tcmp_flag_ping in
    let changed = change_front (note_sent now) e ts e.tid e.addr (matches_self e) in
    rw (found, tcmp_send_ping, changed)

-- A unicast ping in front of the list, with the numbers that a client gets.
abbrev pub IsPing : TcmpEntry → Type 0
IsPing e =
    ((e.type ≡ tcmp_flag_ping) × (e.addr ≢ bcast_addr))
    × ((1 ≤ e.seqno) × (e.seqno ≤ tcmp_default_num_ping))

abbrev pub report : TcmpEntry → ℕ → Option Timeval → TcmpEvent
report e from rtt =
    TcmpEvent.ping_ack e.tid from
      (record { rtt = if from == bcast_addr then none else rtt; seqno = e.seqno; node = from })

abbrev pub next_ping : TcmpEntry → TcmpEvent
next_ping e = TcmpEvent.sent e.addr tcmp_flag_ping e.tid (e.seqno + 1) rt_default_ttl

-- What an answer does that matches the ping in front: a report, and then the next ping or the end.
abbrev pub answered : Timeval → TcmpEntry → List TcmpEntry → List TcmpEvent → TcmpEvent → Tcmps
answered now e ts events r =
    if ltb e.seqno tcmp_default_num_ping
    then record {
      entries = note_sent now (count_up e) ∷ ts;
      events = (events ++ (r ∷ [])) ++ (next_ping e ∷ []);
    }
    else record { entries = ts; events = (events ++ (r ∷ [])) ++ (TcmpEvent.over e.tid ∷ []) }

module _ (now : Timeval) (e : TcmpEntry) (ts : List TcmpEntry) (ping : IsPing e) where
  report_front :
      (from : ℕ) (rtt : Option Timeval) (events : List TcmpEvent)
      → matches e.tid from e ≡ true
      → report_ping e.tid from e
          (if from == bcast_addr then none else rtt)
          (record { entries = e ∷ ts; events = events })
        ≡ record { entries = count_up e ∷ ts; events = events ++ (report e from rtt ∷ []) }
  unfolding report_ping
  report_front from rtt events h = ground arith

  after_front :
      (rtt : Option Timeval) (events : List TcmpEvent) (r : TcmpEvent)
      → after_ping now e.tid e rtt e.seqno
          (record { entries = count_up e ∷ ts; events = events ++ (r ∷ []) })
        ≡ answered now e ts events r
  unfolding after_ping count_up
  after_front rtt events r = ground arith

-- No entry of the transaction.
abbrev pub IsFresh : ℕ → List TcmpEntry → Type 0
IsFresh tid ts = find_tcmp ts tid bcast_addr ≡ none

pub IsFresh-find : (tid a : ℕ) (ts : List TcmpEntry) → IsFresh tid ts → find_tcmp ts tid a ≡ none
unfolding find_tcmp
IsFresh-find tid a [] h = refl
IsFresh-find tid a (t ∷ ts) h = elim (Bool-cases (t.tid == tid)) [
  | inl same ↦
      let found : matches tid bcast_addr t ≡ true = ground arith in absurd (ground (arith, found))
  | inr other ↦
      let skip : find_tcmp ts tid bcast_addr ≡ none = ground arith in
      let ih = IsFresh-find tid a ts skip in ground (arith, ih)
]

module _ (now : Timeval) (e : TcmpEntry) (ts : List TcmpEntry) (events : List TcmpEvent) where
  abbrev pub here : Tcmps
  here = record { entries = e ∷ ts; events = events }

  pub other_address :
      (from seqno : ℕ)
      → IsFresh e.tid ts
      → matches e.tid from e ≡ false
      → receive_ping_ack now e.tid from seqno here ≡ ok here
  unfolding receive_ping_ack
  other_address from seqno fresh h =
      let gone = IsFresh-find e.tid from ts fresh in
      let lost = find_behind e ts e.tid from h gone in rw (lost, receive_ping_ack)

  pub other_number :
      (from seqno : ℕ)
      → IsPing e
      → matches e.tid from e ≡ true
      → seqno ≢ e.seqno
      → receive_ping_ack now e.tid from seqno here ≡ ok here
  unfolding receive_ping_ack
  other_number from seqno ping h ne =
      let found = find_front e ts from h in
      let off : (seqno == e.seqno) ≡ false = ground arith in
      let one : (e.addr == bcast_addr) ≡ false = ground arith in
      rw (found, receive_ping_ack, off, one)

  pub expected :
      (from : ℕ) (rtt : Option Timeval)
      → IsPing e
      → matches e.tid from e ≡ true
      → round_trip now e.sent_time ≡ ok rtt
      → receive_ping_ack now e.tid from e.seqno here
        ≡ ok (answered now e ts events (report e from rtt))
  unfolding receive_ping_ack
  expected from rtt ping h measured =
      let found = find_front e ts from h in
      let same : (e.seqno == e.seqno) ≡ true = ground arith in
      let known = if from == bcast_addr then none else rtt in
      let reported = report_front now e ts ping from rtt events h in
      let followed = after_front now e ts ping known events (report e from rtt) in
      rw (found, receive_ping_ack, same, measured)
        (ap (λ s. ok (after_ping now e.tid e known e.seqno s)) reported ∙ ap ok followed)
