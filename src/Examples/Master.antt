-- ===== src/Examples/Master.antt =====
-- Pings, traces and the master process of master/transport at concrete inputs.
use tenet_t.Prelude.{
  ℕ, ◌*◌, ◌≡◌, refl, true, false, none, some, List, [], ◌∷◌, ◌++◌, arith, replicate, ok, ◌>>=◌,
}
use tenet_t.Timeval.{Timeval, zero_time, compare_timeval, add_ms_to_timeval}
use tenet_t.Trd.Timer.{alarm_due}
use tenet_t.Transport.Routing.{tos_type, write_routing_msg, read_routing_msg}
use tenet_t.Transport.Routing.RoundTrip.{routing_round_trip}
use tenet_t.Transport.PacketTransport.{PtrEvent}
use tenet_t.Transport.PacketTransport.Retransmit.{Frames}
use tenet_t.Transport.Connection.{find_connection}
use tenet_t.Transport.Stream.{StrEvent}
use tenet_t.Transport.TidList.{TidEntry, Tids, find_client_fd, tidlist_find_tid}
use tenet_t.Transport.TidList.Distinct.{AreDistinctTids}
use tenet_t.Transport.Tcmp.{
  TcmpEntry, TcmpEvent, Tcmps, tcmp_flag_ping, tcmp_flag_tracert, rt_default_ttl, find_tcmp,
  tcmp_send_ping,
}
use tenet_t.Transport.Tcmp.Handlers.{polling_tcmp_timer}
use tenet_t.Transport.Tcmp.PingRun.{PingAnswer, RunsTo, ping_script, ping_run_lem}
use tenet_t.Transport.Tcmp.PingTimeout.{tcmp_polls, timeouts, ping_unanswered}
use tenet_t.Transport.Tcmp.Trace.{trace_report}
use tenet_t.Transport.Tcmp.TraceRun.{TraceRunsTo, trace_run_lem, trace_lost_probe}
use tenet_t.Transport.Main.{
  Outside, Master, trans_type_cmd_return, trans_type_cmd_nack, trans_type_task, trans_type_ping,
  client_task, check_timer, on_trd_msgs, send_to_app,
}
use tenet_t.Transport.Main.Clients.{ClientMsg, client_msg}
use tenet_t.Transport.Main.Router.{check_router}
use tenet_t.Transport.Main.Owners.{Keeps}
use tenet_t.Transport.Main.Steps.{from_below-IsFaithful}
use tenet_t.Transport.Main.Reach.{Reached, Reached-AreDistinctTids}
use tenet_t.Transport.Main.Outcome.{notice, task_polls, task_unanswered}

abbrev at_second : ℕ → Timeval
at_second n = record { tv_sec = n; tv_usec = 0 }

abbrev ping : TcmpEntry
ping = record {
  type = tcmp_flag_ping;
  tid = 7;
  addr = 3;
  seqno = 1;
  ttl = 1;
  sent_time = at_second 10;
  alarm_time = at_second 15;
}

abbrev answer : ℕ → ℕ → ℕ → PingAnswer
answer n from seqno = record { time = at_second n; from = from; seqno = seqno }

-- An answer, one from another mote, an old one, and the second.
abbrev answers : List PingAnswer
answers = answer 11 3 1 ∷ answer 12 4 2 ∷ answer 12 3 1 ∷ answer 13 3 2 ∷ []

ping_run_lem_example : RunsTo answers ping [] []
unfolding find_tcmp compare_timeval
ping_run_lem_example =
    ping_run_lem answers (at_second 10) ping [] []
      ((refl, λ h. absurd (omega arith)), (omega arith, omega arith)) refl (λ h. cc)
      ((λ h. cc), ((λ h. cc), ((λ h. cc), ((λ h. cc), tt))))

abbrev quiet : Tcmps
quiet = record { entries = []; events = [] }

abbrev five_times : List Timeval
five_times = at_second 15 ∷ at_second 20 ∷ at_second 25 ∷ at_second 30 ∷ at_second 35 ∷ []

ping_unanswered_example :
    tcmp_polls five_times (tcmp_send_ping (at_second 10) 7 3 quiet)
    ≡ ok (record {
      entries = [];
      events =
          TcmpEvent.sent 3 tcmp_flag_ping 7 1 rt_default_ttl ∷ ping_script 7 3 1 (timeouts 3 5);
    })
unfolding find_tcmp alarm_due add_ms_to_timeval compare_timeval
ping_unanswered_example =
    ping_unanswered (at_second 10) five_times 7 3 quiet (λ h. absurd (omega arith)) refl refl
      (refl, (refl, (refl, (refl, (refl, tt)))))

abbrev trace : ℕ → TcmpEntry
trace ttl = record {
  type = tcmp_flag_tracert;
  tid = 8;
  addr = 5;
  seqno = 3 * ttl;
  ttl = ttl;
  sent_time = at_second 10;
  alarm_time = at_second 15;
}

-- The third probe of the first hop is answered by mote 2, and the second hop is the destination.
abbrev hops : List PingAnswer
hops = answer 11 2 3 ∷ answer 12 5 4 ∷ answer 13 5 5 ∷ answer 14 5 6 ∷ []

trace_run_lem_example : TraceRunsTo hops (trace 1) [] []
unfolding find_tcmp compare_timeval
trace_run_lem_example =
    trace_run_lem hops (at_second 10) (trace 1) [] [] (refl, ((omega arith, omega arith), refl))
      (omega arith) refl (λ h. cc) ((λ h. cc), ((λ h. cc), ((λ h. cc), ((λ h. cc), tt))))

trace_lost_probe_example :
    polling_tcmp_timer (at_second 15) (record { entries = trace 2 ∷ []; events = [] })
    ≡ ok (record { entries = []; events = trace_report (trace 2) 5 none ∷ TcmpEvent.over 8 ∷ [] })
unfolding alarm_due add_ms_to_timeval compare_timeval
trace_lost_probe_example =
    trace_lost_probe (at_second 15) (trace 2) [] [] (refl, ((omega arith, omega arith), refl))
      (omega arith) refl refl refl

routing_round_trip_example :
    (bytes : List ℕ) × ((write_routing_msg 1 (9 ∷ 8 ∷ []) 0x10 2 20 ≡ some bytes)
      × (read_routing_msg bytes
          ≡ some (record {
            src = 1;
            dst = 2;
            prevhop = 1;
            ttl = 20;
            protocol = 0x12;
            payload = 9 ∷ 8 ∷ [];
          })))
routing_round_trip_example =
    routing_round_trip 1 2 0x10 20 (9 ∷ 8 ∷ []) (omega arith, omega arith)
      (omega arith, (omega arith, omega arith)) (omega arith)

abbrev task_entry : ℕ → ℕ → ℕ → TidEntry
task_entry tid type fd = record { tid = tid; addr = 3; type = type; fd = fd; timestamp = zero_time }

-- A task and a ping of the client at 5, and a task of another.
abbrev two_clients : Tids
two_clients = record {
  my_tid = 4;
  tids =
      task_entry 3 trans_type_ping 5
      ∷ task_entry 2 trans_type_task 6
      ∷ task_entry 1 trans_type_task 5
      ∷ [];
}

abbrev env : Outside
env = record {
  written = λ fd. true;
  rcr_is_alive = λ tid. false;
  trd_accepts = λ tid msg. true;
  rcr_receives = λ src payload. [];
  rcr_polled = λ now. StrEvent.received 3 4 (9 ∷ []) ∷ [];
  trd_receives = λ bytes. record { tid = 2; addr = 3; msg = 8 ∷ 7 ∷ [] } ∷ [];
}

abbrev with_tids : Tids → Master
with_tids tids = record {
  tids = tids;
  ptrs = record { conns = []; events = [] };
  strs = record { conns = []; events = [] };
  tcmps = quiet;
  services = [];
  to_clients = [];
}

abbrev master : Master
master = with_tids two_clients

-- The answer of a base station to transaction 1 with its time.
abbrev time_response : List ℕ
time_response = 1 ∷ 0 ∷ 0xbb ∷ 0x7d ∷ 6 ∷ 1 ∷ 0 ∷ 0xc1 ∷ 0 ∷ 5 ∷ 0 ∷ []

-- A packet of TRD, which hands on a message for transaction 2, of the client at 6.
abbrev trd_packet : List ℕ
trd_packet = 0 ∷ 0 ∷ 0x75 ∷ 0x7d ∷ 0 ∷ []

trd_written :
    check_router env 1 (at_second 10) trd_packet master
    ≡ ok (record master {
      to_clients = record { fd = some 6; type = 0x30; tid = 2; addr = 3; msg = 8 ∷ 7 ∷ [] } ∷ [];
    })
unfolding tos_type check_router on_trd_msgs send_to_app find_client_fd tidlist_find_tid
trd_written = refl

distinct : AreDistinctTids two_clients.tids
unfolding tidlist_find_tid
distinct = (refl, (refl, (refl, tt)))

from_below-IsFaithful_example :
    Keeps env two_clients [] (check_timer env (at_second 10) master)
    × Keeps env two_clients [] (check_router env 1 (at_second 10) trd_packet master)
from_below-IsFaithful_example =
    from_below-IsFaithful env 1 (at_second 10) trd_packet master distinct

abbrev empty : Master
empty = with_tids (record { my_tid = 1; tids = [] })

-- A client listens to all packets.
abbrev snoop : ClientMsg
snoop = record { type = 0x31; tid = 0; addr = 0; payload = [] }

abbrev snooped : Master
snooped = with_tids (record {
  my_tid = 1;
  tids = record { tid = 0xffff; addr = 0xffff; type = 0x31; fd = 5; timestamp = at_second 10 } ∷ [];
})

snooped_step : client_msg env 1 (at_second 10) 5 snoop empty ≡ ok snooped
unfolding client_msg tidlist_find_tid
snooped_step = refl

Reached-AreDistinctTids_example : AreDistinctTids snooped.tids.tids
Reached-AreDistinctTids_example = Reached-AreDistinctTids 1 snooped (
    Reached.from_client env (at_second 10) 5 snoop empty snooped (Reached.start empty refl)
      snooped_step)

task_unanswered_example :
    (tid : ℕ) × ((bytes : List ℕ) × ((s' : Master) × (((client_task env
                (at_second 10)
                6
                3
                (1 ∷ 2 ∷ [])
                master
              >>= λ s1.
                  task_polls env five_times s1 >>= λ s2. task_polls env (at_second 40 ∷ []) s2)
            ≡ ok s')
          × ((s'.tids.tids ≡ two_clients.tids)
              × ((s'.to_clients
                    ≡ notice 6 trans_type_cmd_return tid 3
                      ∷ notice 6 trans_type_cmd_nack tid 3
                      ∷ [])
                  × ((s'.ptrs.events
                        ≡ replicate 6 (PtrEvent.sent 3 bytes)
                          ++ (PtrEvent.send_done tid 3 false ∷ []))
                      × Frames tid (1 ∷ 2 ∷ []) bytes))))))
unfolding tidlist_find_tid alarm_due add_ms_to_timeval compare_timeval find_connection
task_unanswered_example =
    task_unanswered env (at_second 10) (at_second 40) five_times 6 3 4 (1 ∷ 2 ∷ []) master
      (λ e. absurd (omega arith)) (omega arith) refl (omega arith, omega arith) refl (omega arith)
      refl (λ n. refl) (refl, (refl, (refl, (refl, (refl, refl)))))
