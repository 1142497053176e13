-- ===== src/Transport/PacketTransport/Retransmit.antt =====
-- What packettransport_send and the timer of master/transport/packettransport.c send when no
-- acknowledgement comes.
use tenet_t.Prelude.{
  none, ℕ, ◌+◌, ◌%◌, ◌<◌, ◌≡◌, refl, sym, ap, ap₂, ◌∙◌, inl, inr, true, false, some, List, [], ◌∷◌,
  ◌++◌, arith, ltb, Option-cases, length, u16_mod, u8_mod, ok,
}
use tenet_t.Timeval.{Timeval, add_ms_to_timeval}
use tenet_t.Trd.Timer.{alarm_due}
use tenet_t.Transport.Connection.{replace_connection}
use tenet_t.Transport.Packet.{tr_header, tr_frame}
use tenet_t.Transport.Packet.Frame.{tr_frame_returns}
use tenet_t.Transport.Connection.Distinct.{
  find_connection_for, find-replace_self, is_for_self, find_here,
}
use tenet_t.Transport.PacketTransport.{
  PtrConn, PtrEvent, Ptrs, ptr_max_num_retx, ptr_ack_timeout, ptr_flag_send, find_ptr, put_ptr,
  ptr_event, new_ptr_connection, ptr_timer_start, find_or_create_ptr, packettransport_send,
  retx_ptr, send_ptr_done,
}
use tenet_t.Transport.PacketTransport.Handlers.{
  ptr_timer_fired, first_ptr_due, polling_packettransport_timer,
}

-- The connection waits for the acknowledgement of a message, sent again `r` times.
pub record IsSending (s : Ptrs) (tid addr seqno r : ℕ) (msg : List ℕ) : Type 0 where
  pub c : PtrConn
  pub found : find_ptr s.conns tid addr ≡ some c
  pub keyed : (c.tid ≡ tid) × (c.addr ≡ addr)
  pub packet : c.packet ≡ some msg
  pub sent_seqno : c.sent_seqno ≡ seqno
  pub retx_count : c.retx_count ≡ r

-- A connection in front of all others, whose alarm was set at `since`.
abbrev pub IsInFront : Ptrs → Timeval → PtrConn → List PtrConn → Type 0
IsInFront s since c rest =
    (s.conns ≡ c ∷ rest) × (c.alarm_time ≡ add_ms_to_timeval since ptr_ack_timeout)

-- The poll serves the connection in front, if it is due.
pub poll_front :
    (now : Timeval) (s : Ptrs) (c : PtrConn) (rest : List PtrConn)
    → s.conns ≡ c ∷ rest
    → alarm_due c.alarm_time now ≡ true
    → polling_packettransport_timer now s ≡ ptr_timer_fired now c s
unfolding polling_packettransport_timer first_ptr_due
poll_front now s c rest front due =
    let first : first_ptr_due now s.conns ≡ some c = rw (front, due) refl in
    rw (first, polling_packettransport_timer)

put_front :
    (n c : PtrConn) (s : Ptrs) (rest : List PtrConn)
    → (n.tid ≡ c.tid) × (n.addr ≡ c.addr)
    → s.conns ≡ c ∷ rest
    → (put_ptr n s).conns ≡ n ∷ rest
unfolding replace_connection
put_front n c s rest key front =
    let same = is_for_self (λ (d : PtrConn). d.tid) (λ (d : PtrConn). d.addr) c in
    rw (front, key.0, key.1, same) refl

-- A connection written back is found in the place of the one before.
find-put :
    (n c : PtrConn) (s : Ptrs) (tid addr : ℕ)
    → (n.tid ≡ tid) × (n.addr ≡ addr)
    → find_ptr s.conns tid addr ≡ some c
    → find_ptr (put_ptr n s).conns tid addr ≡ some n
find-put n c s tid addr key found =
    let before : find_ptr s.conns n.tid n.addr ≡ some c =
      ap₂ (find_ptr s.conns) key.0 key.1 ∙ found in
    ap₂ (find_ptr (put_ptr n s).conns) (sym key.0) (sym key.1)
    ∙ find-replace_self (λ (d : PtrConn). d.tid) (λ (d : PtrConn). d.addr) s.conns n c before

module _ (tid addr seqno : ℕ) (msg bytes : List ℕ)
    (framed : tr_frame tid seqno ptr_flag_send msg ≡ ok bytes) where
  retx_ptr_sends :
      (c : PtrConn) (s : Ptrs)
      → (c.tid ≡ tid) × (c.addr ≡ addr)
      → c.packet ≡ some msg
      → c.sent_seqno ≡ seqno
      → retx_ptr c s ≡ ok (ptr_event (PtrEvent.sent addr bytes) s)
  unfolding retx_ptr
  retx_ptr_sends c s key packet sent = rw (packet, retx_ptr, key.0, key.1, sent, framed)

  pub fire_again :
      (now : Timeval) (r : ℕ) (s : Ptrs) (w : IsSending s tid addr seqno r msg)
      → r < ptr_max_num_retx
      → (t : Ptrs) × ((ptr_timer_fired now w.c s ≡ ok t)
          × ((t.events ≡ s.events ++ (PtrEvent.sent addr bytes ∷ []))
              × ((w' : IsSending t tid addr seqno (r + 1) msg) × ((rest : List PtrConn)
                    → s.conns ≡ w.c ∷ rest
                    → IsInFront t now w'.c rest))))
  unfolding ptr_timer_fired ptr_timer_start
  fire_again now r s w more =
      let again : PtrConn = record w.c { retx_count = w.c.retx_count + 1 } in
      let started : PtrConn = ptr_timer_start now ptr_ack_timeout again in
      let told : Ptrs = ptr_event (PtrEvent.sent addr bytes) s in
      let sends = retx_ptr_sends again s w.keyed w.packet w.sent_seqno in
      let room : ltb w.c.retx_count ptr_max_num_retx ≡ true =
        let e = w.retx_count in ground arith in
      (
        put_ptr started told,
        (
          rw (sends, ptr_timer_fired, room),
          (
            refl,
            (
              record {
                c = started;
                found = find-put started w.c told tid addr w.keyed w.found;
                keyed = w.keyed;
                packet = w.packet;
                sent_seqno = w.sent_seqno;
                retx_count = ap (λ (k : ℕ). k + 1) w.retx_count;
              },
              λ rest front. (put_front started w.c told rest (refl, refl) front, refl),
            ),
          ),
        ),
      )

  pub give_up :
      (now : Timeval) (s : Ptrs) (w : IsSending s tid addr seqno ptr_max_num_retx msg)
      → (t : Ptrs) × ((ptr_timer_fired now w.c s ≡ ok t)
          × (t.events ≡ s.events ++ (PtrEvent.send_done tid addr false ∷ [])))
  unfolding ptr_timer_fired send_ptr_done
  give_up now s w =
      let over : ltb w.c.retx_count ptr_max_num_retx ≡ false =
        let e = w.retx_count in ground arith in
      (
        send_ptr_done w.c false s,
        (
          rw (over, ptr_timer_fired),
          ap₂ (λ (t a : ℕ). s.events ++ (PtrEvent.send_done t a false ∷ [])) w.keyed.0 w.keyed.1,
        ),
      )

existing :
    (tid addr : ℕ) (s : Ptrs) (c : PtrConn)
    → find_ptr s.conns tid addr ≡ some c
    → find_or_create_ptr tid addr 0 s ≡ (c, s)
unfolding find_or_create_ptr
existing tid addr s c h = rw (h, find_or_create_ptr)

created :
    (tid addr : ℕ) (s : Ptrs)
    → find_ptr s.conns tid addr ≡ none
    → let n = new_ptr_connection tid addr 0 in
      find_or_create_ptr tid addr 0 s ≡ (n, record s { conns = n ∷ s.conns })
unfolding find_or_create_ptr
created tid addr s h = rw (h, find_or_create_ptr)

-- What find_or_create_ptr yields.
abbrev IsFound : ℕ → ℕ → Ptrs → PtrConn × Ptrs → Type 0
IsFound tid addr s r =
    (find_ptr r.1.conns tid addr ≡ some r.0)
    × (((r.0.tid ≡ tid) × (r.0.addr ≡ addr)) × (r.1.events ≡ s.events))

find_or_create_ptr-IsFound :
    (tid addr : ℕ) (s : Ptrs) → IsFound tid addr s (find_or_create_ptr tid addr 0 s)
unfolding new_ptr_connection
find_or_create_ptr-IsFound tid addr s = elim (Option-cases (find_ptr s.conns tid addr)) [
  | inl new ↦
      let tid_of : PtrConn → ℕ = λ d. d.tid in
      let addr_of : PtrConn → ℕ = λ d. d.addr in
      let n = new_ptr_connection tid addr 0 in
      rw (created tid addr s new) (
        find_here tid_of addr_of n s.conns tid addr (is_for_self tid_of addr_of n),
        ((refl, refl), refl),
      )
  | inr (c, old) ↦ rw (existing tid addr s c old) (
    old,
    (
      find_connection_for (λ (d : PtrConn). d.tid) (λ (d : PtrConn). d.addr) s.conns tid addr c old,
      refl,
    ),
  )
]

sends_once :
    (now : Timeval) (tid addr : ℕ) (msg : List ℕ) (s : Ptrs) (bytes : List ℕ)
    → let r = find_or_create_ptr tid addr 0 s in
      let seqno = (r.0.sent_seqno + 1) % u16_mod in
      tr_frame tid seqno ptr_flag_send msg ≡ ok bytes
      → packettransport_send now tid addr msg s
        ≡ ok (
            ptr_event (PtrEvent.sent addr bytes) (
              put_ptr
                (ptr_timer_start now ptr_ack_timeout
                  (record r.0 { sent_seqno = seqno; packet = some msg; retx_count = 0 }))
                r.1))
unfolding packettransport_send
sends_once now tid addr msg s bytes framed = rw (framed, packettransport_send)

-- The connection that a send leaves, whose message `bytes` are.
pub packettransport_send-IsSending :
    (now : Timeval) (tid addr : ℕ) (msg : List ℕ) (s : Ptrs)
    → tr_header + length msg < u8_mod
    → (bytes : List ℕ) × ((t : Ptrs) × ((seqno : ℕ) × ((packettransport_send now tid addr msg s
              ≡ ok t)
            × ((tr_frame tid seqno ptr_flag_send msg ≡ ok bytes)
                × ((t.events ≡ s.events ++ (PtrEvent.sent addr bytes ∷ []))
                    × ((w : IsSending t tid addr seqno 0 msg) × (find_ptr s.conns tid addr ≡ none
                          → IsInFront t now w.c s.conns)))))))
unfolding ptr_timer_start
packettransport_send-IsSending now tid addr msg s fits =
    let r = find_or_create_ptr tid addr 0 s in
    let found = find_or_create_ptr-IsFound tid addr s in
    let seqno = (r.0.sent_seqno + 1) % u16_mod in
    let (bytes, framed) = tr_frame_returns tid seqno ptr_flag_send msg fits in
    let c : PtrConn =
      ptr_timer_start now ptr_ack_timeout
        (record r.0 { sent_seqno = seqno; packet = some msg; retx_count = 0 }) in
    let t : Ptrs = ptr_event (PtrEvent.sent addr bytes) (put_ptr c r.1) in
    let w : IsSending t tid addr seqno 0 msg = record {
      c = c;
      found = find-put c r.0 r.1 tid addr found.1.0 found.0;
      keyed = found.1.0;
      packet = refl;
      sent_seqno = refl;
      retx_count = refl;
    } in
    let events = ap (λ (es : List PtrEvent). es ++ (PtrEvent.sent addr bytes ∷ [])) found.1.1 in
    let front : find_ptr s.conns tid addr ≡ none → IsInFront t now c s.conns = λ new.
      let made = created tid addr s new in
      let first : r.1.conns ≡ r.0 ∷ s.conns = rw made refl in
      (put_front c r.0 r.1 s.conns (refl, refl) first, refl) in
    (
      bytes,
      (t, (seqno, (sends_once now tid addr msg s bytes framed, (framed, (events, (w, front)))))),
    )

-- The bytes of a message of a transaction, under a sequence number.
abbrev pub Frames : ℕ → List ℕ → List ℕ → Type 0
Frames tid msg bytes = (seqno : ℕ) × (tr_frame tid seqno ptr_flag_send msg ≡ ok bytes)

-- packettransport_send returns, and sends the message once.
pub packettransport_send_returns :
    (now : Timeval) (tid addr : ℕ) (msg : List ℕ) (s : Ptrs)
    → tr_header + length msg < u8_mod
    → (bytes : List ℕ) × ((t : Ptrs) × ((packettransport_send now tid addr msg s ≡ ok t)
          × ((t.events ≡ s.events ++ (PtrEvent.sent addr bytes ∷ [])) × Frames tid msg bytes)))
packettransport_send_returns now tid addr msg s fits =
    let (bytes, (t, (seqno, (sent, (framed, (events, (w, _))))))) =
      packettransport_send-IsSending now tid addr msg s fits in
    (bytes, (t, (sent, (events, (seqno, framed)))))
