-- ===== src/Transport/Stream/Live.antt =====
-- What the timers of master/transport/streamtransport.c come to when no packet arrives.
use tenet_t.Prelude.{
  ℕ, ◌+◌, ◌≤◌, ◌<◌, ◌≡◌, refl, sym, ap, ap₂, ◌∙◌, ◌⊎◌, inl, inr, Bool, true, false, not, ◌&&◌, none,
  some, List, [], ◌∷◌, arith, leb, if◌then◌else◌, Bool-cases, length,
}
use tenet_t.Timeval.{Timeval}
use tenet_t.Transport.U16List.{u16list_is_empty}
use tenet_t.Transport.Connection.Distinct.{find_connection_for, find-replace_self, find-remove_self}
use tenet_t.Transport.Stream.{
  StreamState, StrConn, StrEvent, Streams, find_str, put_str, remove_str, event, max_timeout_count,
  str_connection_timeout, str_nack_timeout, str_timer_start, finish_stream, send_nack, ask_again,
  stream_tid_is_alive,
}
use tenet_t.Transport.Stream.Keeps.{AreDistinct}
use tenet_t.Transport.Stream.Reach.{Reached, Reached-AreDistinct, str_timer_fired-AreDistinct}
use tenet_t.Transport.Stream.Timer.{nack_timeout, str_timer_fired}

-- The timer of one connection, as long as it is there.
abbrev pub fire : ℕ → ℕ → Timeval → Streams → Streams
fire tid addr now s = elim (find_str s.conns tid addr) [
  | none ↦ s
  | some c ↦ str_timer_fired now c s
]

abbrev pub fire_all : ℕ → ℕ → List Timeval → Streams → Streams
fire_all tid addr [] s = s
fire_all tid addr (now ∷ times) s = fire_all tid addr times (fire tid addr now s)

fire-none :
    (tid addr : ℕ) (now : Timeval) (s : Streams)
    → find_str s.conns tid addr ≡ none
    → fire tid addr now s ≡ s
fire-none tid addr now s h = rw (h, fire)

fire-some :
    (tid addr : ℕ) (now : Timeval) (s : Streams) (c : StrConn)
    → find_str s.conns tid addr ≡ some c
    → fire tid addr now s ≡ str_timer_fired now c s
fire-some tid addr now s c h = rw (h, fire)

fire_all-none :
    (tid addr : ℕ) (times : List Timeval) (s : Streams)
    → find_str s.conns tid addr ≡ none
    → find_str (fire_all tid addr times s).conns tid addr ≡ none
fire_all-none tid addr [] s h = h
fire_all-none tid addr (now ∷ times) s h =
    rw (fire_all, fire-none tid addr now s h) (fire_all-none tid addr times s h)

if_conns :
    (b : Bool) (s t : Streams) (cs : List StrConn)
    → s.conns ≡ cs
    → t.conns ≡ cs
    → (if b then s else t).conns ≡ cs
if_conns true s t cs hs ht = hs
if_conns false s t cs hs ht = ht

-- What send_NACK leaves as it is.
send_nack_same :
    (c : StrConn)
    → let d = (send_nack c).0 in
      ((d.tid ≡ c.tid) × (d.addr ≡ c.addr))
      × ((d.state ≡ c.state) × (d.timeout_count ≡ c.timeout_count))
unfolding send_nack
send_nack_same c = elim (Bool-cases (u16list_is_empty c.missing_list)) [
  | inl empty ↦ rw (empty, send_nack) ((refl, refl), (refl, refl))
  | inr missing ↦ rw (missing, send_nack) ((refl, refl), (refl, refl))
]

module _ (now : Timeval) (s : Streams) (c : StrConn) where
  removed : AreDistinct s → find_str (remove_str c s).conns c.tid c.addr ≡ none
  removed distinct =
      find-remove_self (λ (d : StrConn). d.tid) (λ (d : StrConn). d.addr) s.conns c.tid c.addr
        distinct

  put_found :
      (n : StrConn)
      → (n.tid ≡ c.tid) × (n.addr ≡ c.addr)
      → find_str s.conns c.tid c.addr ≡ some c
      → find_str (put_str n s).conns c.tid c.addr ≡ some n
  put_found n same there =
      rw (← same.0, ← same.1)
        (find-replace_self (λ (d : StrConn). d.tid) (λ (d : StrConn). d.addr) s.conns n c
          (rw (same.0, same.1) there))

  finish_found :
      (d : StrConn)
      → (d.tid ≡ c.tid) × (d.addr ≡ c.addr)
      → find_str s.conns c.tid c.addr ≡ some c
      → find_str (finish_stream now d s).conns c.tid c.addr
        ≡ some
            (str_timer_start now str_connection_timeout (record d { state = StreamState.finished }))
  unfolding finish_stream str_timer_start
  finish_found d same there =
      let done : StrConn =
        str_timer_start now str_connection_timeout (record d { state = StreamState.finished }) in
      let acked = event (StrEvent.fin_ack d.tid d.addr d.last_recv_seqno) (put_str done s) in
      let conns =
        if_conns (d.delete_pending && not (stream_tid_is_alive acked.conns d.tid))
          (event (StrEvent.delete_done d.tid) acked) acked (put_str done s).conns refl refl in
      ap (λ (cs : List StrConn). find_str cs c.tid c.addr) conns ∙ put_found done same there

  ask_found :
      (d : StrConn)
      → (d.tid ≡ c.tid) × (d.addr ≡ c.addr)
      → find_str s.conns c.tid c.addr ≡ some c
      → find_str (ask_again now d s).conns c.tid c.addr
        ≡ some (str_timer_start now str_nack_timeout (send_nack d).0)
  unfolding ask_again str_timer_start
  ask_found d same there =
      let asked : StrConn = str_timer_start now str_nack_timeout (send_nack d).0 in
      let kept = send_nack_same d in put_found asked (kept.0.0 ∙ same.0, kept.0.1 ∙ same.1) there

  -- How the timer leaves a connection that waits for the last packets.
  fired_last :
      AreDistinct s
      → c.state ≡ StreamState.fin_nack_wait
      → max_timeout_count ≤ c.timeout_count + 1
      → find_str (str_timer_fired now c s).conns c.tid c.addr ≡ none
  unfolding str_timer_fired nack_timeout
  fired_last distinct waits late =
      let over : leb max_timeout_count (c.timeout_count + 1) ≡ true = ground arith in
      rw (waits, str_timer_fired, over, nack_timeout) (removed distinct)

  fired_finished :
      AreDistinct s
      → c.state ≡ StreamState.finished
      → find_str (str_timer_fired now c s).conns c.tid c.addr ≡ none
  unfolding str_timer_fired
  fired_finished distinct done = rw (done, str_timer_fired) (removed distinct)

  fired_fin :
      c.state ≡ StreamState.fin_nack_wait
      → str_timer_fired now c s
        ≡ nack_timeout now c
            (finish_stream now (record c { timeout_count = c.timeout_count + 1 }) s)
            s
  unfolding str_timer_fired
  fired_fin waits =
      let late : StrConn = record c { timeout_count = c.timeout_count + 1 } in
      let resumed : StrConn =
        str_timer_start now str_connection_timeout (record late { state = StreamState.passive }) in
      ap
        (λ (st : StreamState). elim st as (λ (x : StreamState). Streams) [
          | StreamState.finished ↦ remove_str c s
          | StreamState.nack_wait ↦ nack_timeout now c (put_str resumed s) s
          | StreamState.fin_nack_wait ↦ nack_timeout now c (finish_stream now late s) s
          | StreamState.passive ↦ if c.delete_pending then remove_str c s else s
        ])
        waits

  fired_waiting :
      find_str s.conns c.tid c.addr ≡ some c
      → c.state ≡ StreamState.fin_nack_wait
      → c.timeout_count + 1 < max_timeout_count
      → (c' : StrConn) × ((find_str (str_timer_fired now c s).conns c.tid c.addr ≡ some c')
          × ((c'.state ≡ StreamState.finished)
              ⊎ ((c'.state ≡ StreamState.fin_nack_wait)
                  × (c'.timeout_count ≡ c.timeout_count + 1))))
  unfolding nack_timeout str_timer_start
  fired_waiting there waits early =
      let over : leb max_timeout_count (c.timeout_count + 1) ≡ false = ground arith in
      let late : StrConn = record c { timeout_count = c.timeout_count + 1 } in
      let done : StrConn =
        str_timer_start now str_connection_timeout (record late { state = StreamState.finished }) in
      let asked : StrConn = str_timer_start now str_nack_timeout (send_nack late).0 in
      let kept = send_nack_same late in
      elim (Bool-cases (u16list_is_empty c.missing_list)) [
        | inl empty ↦ (
          done,
          (
            rw (fired_fin waits, over, nack_timeout, empty) (finish_found late (refl, refl) there),
            inl refl,
          ),
        )
        | inr missing ↦ (
          asked,
          (
            rw (fired_fin waits, over, nack_timeout, missing) (ask_found late (refl, refl) there),
            inr (kept.1.0 ∙ waits, kept.1.1),
          ),
        )
      ]

-- What is left to wait for: the timeouts, or one more once the connection has finished.
abbrev WillGo : ℕ → StrConn → Type 0
WillGo n c =
    ((c.state ≡ StreamState.finished) × (0 < n))
    ⊎ ((c.state ≡ StreamState.fin_nack_wait)
        × ((c.timeout_count < max_timeout_count) × (max_timeout_count < n + c.timeout_count)))

will_go :
    (tid addr : ℕ) (times : List Timeval) (s : Streams) (c : StrConn)
    → AreDistinct s
    → find_str s.conns tid addr ≡ some c
    → WillGo (length times) c
    → find_str (fire_all tid addr times s).conns tid addr ≡ none
will_go tid addr [] s c distinct there (inl (done, n)) = absurd (omega arith)
will_go tid addr [] s c distinct there (inr (waits, (early, n))) = absurd (omega arith)
will_go tid addr (now ∷ times) s c distinct there goes =
    let key =
      find_connection_for (λ (d : StrConn). d.tid) (λ (d : StrConn). d.addr) s.conns tid addr c
        there in
    let mine : find_str s.conns c.tid c.addr ≡ some c =
      ap₂ (find_str s.conns) key.0 key.1 ∙ there in
    let fired : Streams = str_timer_fired now c s in
    let distinct' = str_timer_fired-AreDistinct now c s distinct in
    let gone : find_str fired.conns c.tid c.addr ≡ none
        → find_str (fire_all tid addr times fired).conns tid addr ≡ none =
      λ e.
        fire_all-none tid addr times fired
          (ap₂ (find_str fired.conns) (sym key.0) (sym key.1) ∙ e) in
    rw (fire_all, fire-some tid addr now s c there)
      (elim goes [
        | inl (done, n) ↦ gone (fired_finished now s c distinct done)
        | inr (waits, (early, n)) ↦
            elim (Bool-cases (leb max_timeout_count (c.timeout_count + 1))) [
              | inl over ↦ gone (fired_last now s c distinct waits (ground arith))
              | inr more ↦
                  let (c', (found, kind)) = fired_waiting now s c mine waits (ground arith) in
                  let there' : find_str fired.conns tid addr ≡ some c' =
                    ap₂ (find_str fired.conns) (sym key.0) (sym key.1) ∙ found in
                  let left : WillGo (length times) c' = elim kind [
                    | inl done ↦ inl (done, omega arith)
                    | inr (again, count) ↦ inr (again, (ground arith, omega arith))
                  ] in
                  will_go tid addr times fired c' distinct' there' left
            ]
      ])

-- A connection that waits for the last packets before its FIN, to which no packet comes any more, is
-- removed within 51 of its timeouts.
pub fin_nack_wait_removed :
    (tid addr : ℕ) (times : List Timeval) (s : Streams) (c : StrConn)
    → Reached s
    → find_str s.conns tid addr ≡ some c
    → c.state ≡ StreamState.fin_nack_wait
    → c.timeout_count < max_timeout_count
    → max_timeout_count < length times
    → find_str (fire_all tid addr times s).conns tid addr ≡ none
fin_nack_wait_removed tid addr times s c r there waits early long =
    will_go tid addr times s c (Reached-AreDistinct s r) there (inr (waits, (early, omega arith)))
