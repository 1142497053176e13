-- ===== src/Examples/Packets.antt =====
-- Packets and transactions of master/transport at concrete inputs.
use tenet_t.Prelude.{
  ℕ, ◌-◌, ◌≤◌, ◌≡◌, refl, true, false, none, List, [], ◌∷◌, arith, length, ok, some,
}
use tenet_t.Timeval.{Timeval, zero_time}
use tenet_t.Transport.Packet.{
  TransportMsg, tr_header, tr_encode, tr_decode, tr_checksum_check, tr_frame,
}
use tenet_t.Transport.Packet.Frame.{tr_frame_lem}
use tenet_t.Transport.PacketTransport.{PtrEvent, Ptrs}
use tenet_t.Transport.PacketTransport.Retransmit.{Frames}
use tenet_t.Tasklib.Elements.{task_delete}
use tenet_t.Transport.PacketTransport.Handlers.{packettransport_tid_is_alive}
use tenet_t.Transport.Main.{Outside, Master, trans_type_cmd_return, client_task, client_close}
use tenet_t.Transport.Main.Task.{client_task_lem, client_close_lem}
use tenet_t.Transport.TidList.{
  find_client_fd, Tids, min_tid, max_tid, tidlist_find_tid, assign_new_tid,
}
use tenet_t.Transport.TidList.Assign.{assign_new_tid_lem}

abbrev ping : ℕ → TransportMsg
ping c = record { tid = 300; seqno = 50000; flag = 0x40; checksum = c; payload = 1 ∷ 2 ∷ [] }

tr_frame_lem_example :
    (c : ℕ) × ((tr_frame 300 50000 0x40 (1 ∷ 2 ∷ []) ≡ ok (tr_encode (ping c)))
      × ((tr_checksum_check (tr_encode (ping c)) (length (tr_encode (ping c)) - tr_header)
            ≡ ok true)
          × (tr_decode (tr_encode (ping c)) ≡ ping c)))
tr_frame_lem_example =
    tr_frame_lem 300 50000 0x40 (1 ∷ 2 ∷ []) (omega arith) (omega arith) (omega arith) (omega arith)

abbrev at_second : ℕ → Timeval
at_second t = record { tv_sec = t; tv_usec = 0 }

abbrev no_connections : Ptrs
no_connections = record { conns = []; events = [] }

abbrev timeouts : List Timeval
timeouts = at_second 13 ∷ at_second 16 ∷ at_second 19 ∷ at_second 22 ∷ at_second 25 ∷ []

-- The numbers 50000 and 1 are taken.
abbrev taken : Tids
taken = record {
  my_tid = 50000;
  tids =
      record { tid = 50000; addr = 3; type = 1; fd = 5; timestamp = zero_time }
      ∷ record { tid = 1; addr = 3; type = 1; fd = 5; timestamp = zero_time }
      ∷ [];
}

assign_new_tid_lem_example :
    (t : ℕ) × ((s' : Tids) × ((assign_new_tid 0 taken ≡ ok (t, s'))
        × (((min_tid ≤ t) × (t ≤ max_tid))
            × ((tidlist_find_tid taken.tids t ≡ none)
                × ((s'.tids ≡ taken.tids) × ((min_tid ≤ s'.my_tid) × (s'.my_tid ≤ max_tid)))))))
unfolding tidlist_find_tid
assign_new_tid_lem_example =
    assign_new_tid_lem 0 2 taken (omega arith, omega arith) refl (omega arith)

-- A master whose clients read what is written, with the two transactions.
abbrev env : Outside
env = record {
  written = λ fd. true;
  rcr_is_alive = λ tid. false;
  trd_accepts = λ tid msg. true;
  rcr_receives = λ src payload. [];
  rcr_polled = λ now. [];
  trd_receives = λ bytes. [];
}

abbrev master : Master
master = record {
  tids = taken;
  ptrs = no_connections;
  strs = record { conns = []; events = [] };
  tcmps = record { entries = []; events = [] };
  services = [];
  to_clients = [];
}

client_task_lem_example :
    (tid : ℕ) × ((bytes : List ℕ) × ((s' : Master) × ((client_task env
              (at_second 10)
              6
              3
              (1 ∷ 2 ∷ [])
              master
            ≡ ok s')
          × ((tidlist_find_tid taken.tids tid ≡ none)
              × ((find_client_fd tid s'.tids ≡ some 6)
                  × ((s'.to_clients
                        ≡ record {
                          fd = some 6;
                          type = trans_type_cmd_return;
                          tid = tid;
                          addr = 3;
                          msg = [];
                        }
                          ∷ [])
                      × ((s'.ptrs.events ≡ PtrEvent.sent 3 bytes ∷ [])
                          × Frames tid (1 ∷ 2 ∷ []) bytes)))))))
unfolding tidlist_find_tid
client_task_lem_example =
    client_task_lem env (at_second 10) 6 3 2 (1 ∷ 2 ∷ []) master (λ e. absurd (omega arith))
      (omega arith) refl (omega arith, omega arith) refl (omega arith)

client_close_lem_example :
    (bytes : List ℕ) × ((s' : Master) × ((client_close env (at_second 20) 1 3 master ≡ ok s')
        × (((s'.ptrs.events ≡ PtrEvent.sent 3 bytes ∷ []) × Frames 1 (task_delete ∷ 0 ∷ []) bytes)
            × (packettransport_tid_is_alive s'.ptrs.conns 1 ≡ false))))
unfolding tidlist_find_tid
client_close_lem_example =
    client_close_lem env (at_second 20) 1 3 master
      (record { tid = 1; addr = 3; type = 1; fd = 5; timestamp = zero_time })
      (λ e. absurd (omega arith)) refl
