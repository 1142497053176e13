-- ===== src/Transport/Main/Clients.antt =====
-- What a client sends to master/transport/transportmain.c besides tasks and their end, and what
-- happens when it is gone: check_clients, and close_all_tid_for_a_client of tidlist.c.
use tenet_t.Prelude.{ℕ, Bool, ◌&&◌, ◌||◌, List, [], ◌∷◌, ◌++◌, ◌==◌, if◌then◌else◌, Run, ok, ◌>>=◌}
use tenet_t.Timeval.{Timeval}
use tenet_t.Transport.TidList.{TidEntry, all_tid, assign_new_tid, tidlist_add_tid}
use tenet_t.Transport.Tcmp.{tcmp_send_ping, tcmp_send_tracert}
use tenet_t.Transport.Main.{
  Outside, Master, trans_type_task, trans_type_close, trans_type_service, trans_type_ping,
  trans_type_tracert, trans_type_snoop, tos_bcast_addr, delete_task, close_transport_connections,
  tr_send_packet, client_task, client_close, with_tcmp,
}

-- A new number, entered for the client at `fd`.
unfoldable pub enter : Timeval → ℕ → ℕ → ℕ → Master → Run (ℕ × Master)
enter now addr type fd s0 = assign_new_tid 0 s0.tids >>= λ r.
    ok (r.0, record s0 { tids = (tidlist_add_tid now r.0 addr type fd r.1).1 })

-- A read_transport_msg of a client: its type, transaction, address and payload.
pub record ClientMsg : Type 0 where
  pub type : ℕ
  pub tid : ℕ
  pub addr : ℕ
  pub payload : List ℕ

-- TRANS_TYPE_NULL.
abbrev pub trans_type_null : ℕ
trans_type_null = 0

abbrev pub drop_entry : ℕ → TidEntry → Bool
drop_entry fd t = t.fd == fd && (t.type == trans_type_task || t.type == trans_type_close)

module _ (env : Outside) (here : ℕ) where
  unfoldable pub client_service : Timeval → ℕ → List ℕ → Master → Run Master
  unfolding enter
  client_service now fd payload s0 = enter now here trans_type_service fd s0 >>= λ r.
      ok (record r.1 { services = r.1.services ++ ((r.0, payload) ∷ []) })

  unfoldable pub client_ping : Timeval → ℕ → ℕ → Master → Run Master
  unfolding enter with_tcmp
  client_ping now fd addr s0 = enter now addr trans_type_ping fd s0 >>= λ r.
      with_tcmp env (λ p. ok (tcmp_send_ping now r.0 addr p)) r.1

  unfoldable pub client_tracert : Timeval → ℕ → ℕ → Master → Run Master
  unfolding enter with_tcmp
  client_tracert now fd addr s0 = enter now addr trans_type_tracert fd s0 >>= λ r.
      with_tcmp env (λ p. ok (tcmp_send_tracert now r.0 addr p)) r.1

  unfoldable pub client_snoop : Timeval → ℕ → Master → Master
  unfolding tidlist_add_tid
  client_snoop now fd s = record s {
    tids = (tidlist_add_tid now all_tid tos_bcast_addr trans_type_snoop fd s.tids).1;
  }

  -- The switch of check_clients.
  unfoldable pub client_msg : Timeval → ℕ → ClientMsg → Master → Run Master
  unfolding client_task client_close client_service client_ping client_tracert client_snoop
  client_msg now fd m s =
      if m.type == trans_type_task
      then client_task env now fd m.addr m.payload s
      else if m.type == trans_type_close
      then client_close env now m.tid m.addr s
      else if m.type == trans_type_service
      then client_service now fd m.payload s
      else if m.type == trans_type_ping
      then client_ping now fd m.addr s
      else if m.type == trans_type_tracert
      then client_tracert now fd m.addr s
      else if m.type == trans_type_snoop
      then ok (client_snoop now fd s)
      else ok s

module _ (env : Outside) where
  -- The loop of close_all_tid_for_a_client over the entries `ts` that are left, behind those kept: the
  -- delete task and the transports, whose deletion calls nothing back.
  unfoldable pub close_from : Timeval → ℕ → List TidEntry → Master → Run (List TidEntry × Master)
  unfolding tr_send_packet close_transport_connections
  close_from now fd [] s = ok ([], s)
  close_from now fd (t ∷ ts) s =
      let gone = tr_send_packet env now t.tid t.addr delete_task s >>= λ sent.
      close_from now fd ts (close_transport_connections t.tid sent.1) in
      let kept = close_from now fd ts s >>= λ r. ok (t ∷ r.0, r.1) in
      if drop_entry fd t then gone else kept

  unfoldable pub close_all_tid_for_a_client : Timeval → ℕ → Master → Run Master
  unfolding close_from
  close_all_tid_for_a_client now fd s = close_from now fd s.tids.tids s >>= λ r.
      ok (record r.1 { tids = record s.tids { tids = r.0 } })
