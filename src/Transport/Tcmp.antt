-- ===== src/Transport/Tcmp.antt =====
-- master/transport/tcmp.c: pings and traces of routes, the latest first, with the messages of tcmp.h.
-- A pointer to an entry is the search that found it: no operation on an entry changes what it is found
-- by. The bytes of the messages sent have no checksum, and only their fields are kept.
pub mod Handlers
pub mod Ping
pub mod PingRun
pub mod PingTimeout
pub mod Trace
pub mod TraceRun
use tenet_t.Prelude.{
  ℕ, zero, suc, ◌+◌, ◌-◌, ◌*◌, ◌/◌, ◌%◌, ◌^◌, ◌≤◌, ◌<◌, min, Ordering, ◌≡◌, refl, sym, ap, ap₂, ◌∙◌,
  ◌≢◌, ◌↔◌, ◌⊎◌, inl, inr, Bool, true, false, not, ◌&&◌, ◌||◌, Option, none, some, List, [], ◌∷◌,
  ◌++◌, map, append-nil, append_assoc, arith, ltb, leb, ◌==◌, if◌then◌else◌, ltb→lt, lt→ltb, leb→le,
  ==_iff, Bool-cases, Option-cases, length, get_elem?, set, length-append, length-set, get_or, take,
  drop, replicate, take-append-drop, length-take, length-drop, length-replicate, length-map,
  take_all, u16_mod, u8_mod, Fault, Run, ok, fault, ◌>>=◌, All, All-append, All-set, All-take,
  All-get_or, All-replicate, All-mono, All-map, take-set_below, take-set_next, get_or-take,
  get_or-set_self, get_or-set_ne, take-set_above, set_outside, take-take, Run-cases,
}
use tenet_t.Timeval.{Timeval, zero_time, subtract_timeval, add_ms_to_timeval}

-- tcmplist, without its link.
pub record TcmpEntry : Type 0 where
  pub type : ℕ
  pub tid : ℕ
  pub addr : ℕ
  pub seqno : ℕ
  pub ttl : ℕ
  pub sent_time : Timeval
  pub alarm_time : Timeval

-- `none` stands for rtt_sec = -1 and rtt_usec = 0.
pub record PingMsg : Type 0 where
  pub rtt : Option Timeval
  pub seqno : ℕ
  pub node : ℕ

abbrev pub u32_bytes : ℕ → List ℕ
u32_bytes n =
    n % u8_mod ∷ n / u8_mod % u8_mod ∷ n / u16_mod % u8_mod ∷ n / (u16_mod * u8_mod) % u8_mod ∷ []

-- The packed struct in memory; -1 in a uint32_t is 2 ^ 32 - 1.
unfoldable pub ping_msg_bytes : PingMsg → List ℕ
ping_msg_bytes m =
    (elim m.rtt [
      | none ↦ u32_bytes (u16_mod * u16_mod - 1) ++ u32_bytes 0
      | some t ↦ u32_bytes t.tv_sec ++ u32_bytes t.tv_usec
    ])
    ++ (m.seqno % u8_mod ∷ m.seqno / u8_mod ∷ m.node % u8_mod ∷ m.node / u8_mod ∷ [])

-- What the functions of the file call: write_routing_msg with the address, the flag, the transaction,
-- the number and the ttl of a message, receive_TCMP_ping_ack, receive_TCMP_tracert_ack and
-- tidlist_remove_tid.
pub data TcmpEvent : Type 0 where
  sent : ℕ → ℕ → ℕ → ℕ → ℕ → TcmpEvent
  ping_ack : ℕ → ℕ → PingMsg → TcmpEvent
  tracert_ack : ℕ → ℕ → PingMsg → TcmpEvent
  over : ℕ → TcmpEvent

-- tcmps, and the events so far.
pub record Tcmps : Type 0 where
  pub entries : List TcmpEntry
  pub events : List TcmpEvent

abbrev pub tcmp_flag_ping : ℕ
tcmp_flag_ping = 0x10

abbrev pub tcmp_flag_ping_ack : ℕ
tcmp_flag_ping_ack = 0x18

abbrev pub tcmp_flag_tracert : ℕ
tcmp_flag_tracert = 0x20

abbrev pub tcmp_flag_tracert_ack : ℕ
tcmp_flag_tracert_ack = 0x28

abbrev pub tcmp_default_num_ping : ℕ
tcmp_default_num_ping = 5

abbrev pub tcmp_default_num_tracert : ℕ
tcmp_default_num_tracert = 3

abbrev pub tcmp_timeout : ℕ
tcmp_timeout = 5000

abbrev pub rt_default_ttl : ℕ
rt_default_ttl = 20

-- TOS_BCAST_ADDR.
abbrev pub bcast_addr : ℕ
bcast_addr = 0xffff

abbrev pub tcmp_event : TcmpEvent → Tcmps → Tcmps
tcmp_event e s = record s { events = s.events ++ (e ∷ []) }

-- The test of _find_tcmp.
abbrev pub matches : ℕ → ℕ → TcmpEntry → Bool
matches tid addr t =
    t.tid == tid && (t.addr == addr || (t.addr == bcast_addr || addr == bcast_addr))

unfoldable pub find_tcmp : List TcmpEntry → ℕ → ℕ → Option TcmpEntry
find_tcmp [] tid addr = none
find_tcmp (t ∷ ts) tid addr = if matches tid addr t then some t else find_tcmp ts tid addr

unfoldable pub find_tcmp_by_tid : List TcmpEntry → ℕ → Option TcmpEntry
unfolding find_tcmp
find_tcmp_by_tid ts tid = find_tcmp ts tid bcast_addr

-- A write through the pointer that find_tcmp returns.
unfoldable pub change_tcmp : (TcmpEntry → TcmpEntry) → List TcmpEntry → ℕ → ℕ → List TcmpEntry
change_tcmp f [] tid addr = []
change_tcmp f (t ∷ ts) tid addr =
    if matches tid addr t then f t ∷ ts else t ∷ change_tcmp f ts tid addr

-- add_tcmp.
unfoldable pub new_tcmp : ℕ → ℕ → ℕ → TcmpEntry
new_tcmp tid addr type = record {
  type = type;
  tid = tid;
  addr = addr;
  seqno = 1;
  ttl = 1;
  sent_time = zero_time;
  alarm_time = zero_time;
}

unfoldable pub remove_tcmp : List TcmpEntry → ℕ → ℕ → List TcmpEntry
remove_tcmp [] tid addr = []
remove_tcmp (t ∷ ts) tid addr = if matches tid addr t then ts else t ∷ remove_tcmp ts tid addr

-- The entry for a send: the one found, or a new one in front.
unfoldable pub find_or_add_tcmp : ℕ → ℕ → ℕ → List TcmpEntry → TcmpEntry × List TcmpEntry
unfolding find_tcmp new_tcmp
find_or_add_tcmp tid addr type ts = elim (find_tcmp ts tid addr) [
  | some t ↦ (t, ts)
  | none ↦ (new_tcmp tid addr type, new_tcmp tid addr type ∷ ts)
]

-- The times that a send writes, with TCMP_Timer_start.
unfoldable pub note_sent : Timeval → TcmpEntry → TcmpEntry
note_sent now t = record t { sent_time = now; alarm_time = add_ms_to_timeval now tcmp_timeout }

unfoldable pub tcmp_send_ping : Timeval → ℕ → ℕ → Tcmps → Tcmps
unfolding find_or_add_tcmp change_tcmp note_sent
tcmp_send_ping now tid addr s =
    let (t, ts) = find_or_add_tcmp tid addr tcmp_flag_ping s.entries in
    tcmp_event (TcmpEvent.sent addr t.type t.tid t.seqno rt_default_ttl)
      (record s { entries = change_tcmp (note_sent now) ts tid addr })

unfoldable pub tcmp_send_tracert : Timeval → ℕ → ℕ → Tcmps → Tcmps
unfolding find_or_add_tcmp change_tcmp note_sent
tcmp_send_tracert now tid addr s =
    let (t, ts) = find_or_add_tcmp tid addr tcmp_flag_tracert s.entries in
    tcmp_event (TcmpEvent.sent addr t.type tid t.seqno t.ttl)
      (record s { entries = change_tcmp (note_sent now) ts tid addr })
