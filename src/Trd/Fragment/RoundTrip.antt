-- ===== src/Trd/Fragment/RoundTrip.antt =====
-- Cutting a packet into fragments and joining them again (master/trd/trd_fragment.c).
use tenet_t.Prelude.{
  take_all, length-take, length-drop, take-append-drop, append_assoc, ap, ◌∙◌, drop, ◌*◌, ℕ, zero,
  suc, ◌+◌, ◌-◌, ◌%◌, ◌≤◌, ◌<◌, ◌≡◌, none, some, List, [], ◌∷◌, ◌++◌, ◌==◌, if◌then◌else◌, length,
  length-append, u16_mod, Run, ok, fault, arith, sym, true, false, Option, take,
}
use tenet_t.Trd.Fragment.{
  send_from, fragment_send, FragmentMsg, max_len, count_fragments, fragment, Reassembly, Delivery,
  fragment_init, receive_trd,
}

-- A receiver, or the fault that it met, with what it has delivered so far.
abbrev pub Receiver : Type 0
Receiver = Run (Reassembly × List Delivery)

-- Every fragment from `sender` reaches the receiver, in order.
unfoldable pub direct : ℕ → FragmentMsg → Receiver → Receiver × ℕ
direct sender f (fault e) = (fault e, 1)
direct sender f (ok (r, ds)) = (
  elim (receive_trd sender f r) [
    | fault e ↦ fault e
    | ok (r', none) ↦ ok (r', ds)
    | ok (r', some d) ↦ ok (r', ds ++ (d ∷ []))
  ],
  1,
)

-- The result of counting: fragments of full size, and a last one that is not empty.
pub count_fragments_lem :
    (n len k : ℕ)
    → len ≤ n
    → 0 < len
    → let (t, m) = count_fragments n len k in
      (0 < t) × (t ≤ max_len) × (k ≤ m) × (t + max_len * (m - k) ≡ len)
unfolding count_fragments
count_fragments_lem zero len k h p = absurd (omega arith)
count_fragments_lem (suc n) len k h p =
    ground (arith, count_fragments_lem n (len - max_len) (k + 1))

-- One fragment after the first, at a receiver that has `old`.
receive-next :
    (sender i m total : ℕ) (old bytes : List ℕ)
    → 1 < i
    → i ≤ m
    → m < 256
    → length bytes ≤ max_len
    → length old + length bytes ≤ total
    → let r : Reassembly = record { partial = some old; tot_fragment = m; tot_bytes = total } in
      let f : FragmentMsg = fragment i m total bytes in
      receive_trd sender f r
      ≡ ok (
          if i == m
          then (
            fragment_init,
            some (record { sender = sender % u16_mod; len = total; bytes = old ++ bytes }),
          )
          else (
            record { partial = some (old ++ bytes); tot_fragment = m; tot_bytes = total },
            none,
          ))
unfolding receive_trd fragment_init
receive-next sender i m total old bytes hi hm h8 hb ht = ground (arith, length-append old bytes)

abbrev waiting : ℕ → ℕ → List ℕ → Reassembly
waiting m total old = record { partial = some old; tot_fragment = m; tot_bytes = total }

abbrev delivery : ℕ → List ℕ → Delivery
delivery sender bytes = record { sender = sender % u16_mod; len = length bytes; bytes = bytes }

direct-next :
    (sender i m total : ℕ) (old bytes : List ℕ) (ds : List Delivery)
    → 1 < i
    → i ≤ m
    → m < 256
    → length bytes ≤ max_len
    → length old + length bytes ≤ total
    → direct sender (fragment i m total bytes) (ok (waiting m total old, ds)) ≡ (
      (if i == m
          then ok (
            fragment_init,
            ds ++ (record { sender = sender % u16_mod; len = total; bytes = old ++ bytes } ∷ []),
          )
          else ok (waiting m total (old ++ bytes), ds)),
      1,
    )
unfolding direct
direct-next sender i m total old bytes ds hi hm h8 hb ht =
    ground (arith, receive-next sender i m total old bytes hi hm h8 hb ht)

-- The fragments after the first, sent to a receiver that waits for them.
send_rest :
    (sender n i m t total : ℕ) (old bytes : List ℕ) (ds : List Delivery) (q : Option ℕ)
    → 1 < i
    → i + n ≡ m
    → m < 256
    → 0 < t
    → t ≤ max_len
    → length bytes ≡ t + max_len * n
    → total ≡ length (old ++ bytes)
    → send_from (direct sender) (suc n) i m t total bytes (ok (waiting m total old, ds)) q
      ≡ (ok (fragment_init, ds ++ (delivery sender (old ++ bytes) ∷ [])), some 1)
unfolding send_from
send_rest sender zero i m t total old bytes ds q hi hn h8 ht hm hb e =
    let all : take t bytes ≡ bytes = take_all t bytes (omega arith) in
    let last : (i == m) ≡ true = ground arith in
    rw
      (
        last,
        all,
        direct-next sender i m total old bytes ds hi (omega arith) h8 (omega arith)
            (omega (arith, length-append old bytes)),
        last,
      )
      (ap
        (λ (w : ℕ). (
          ok (
            fragment_init,
            ds ++ (record { sender = sender % u16_mod; len = w; bytes = old ++ bytes } ∷ []),
          ),
          some 1,
        ))
        e)
send_rest sender (suc n) i m t total old bytes ds q hi hn h8 ht hm hb e =
    let here : length (take max_len bytes) ≡ max_len = omega (arith, length-take max_len bytes) in
    let more : (i == m) ≡ false = ground arith in
    let joined : (old ++ take max_len bytes) ++ drop max_len bytes ≡ old ++ bytes =
      append_assoc old (take max_len bytes) (drop max_len bytes)
      ∙ ap (λ r. old ++ r) (take-append-drop max_len bytes) in
    rw
      (
        more,
        direct-next sender i m total old (take max_len bytes) ds hi (omega arith) h8 (omega arith)
            (omega (arith, length-append old bytes)),
        more,
      )
      (rw (← joined) (
        send_rest sender n (i + 1) m t total (old ++ take max_len bytes) (drop max_len bytes) ds
          (some 1) (omega arith) (omega arith) h8 ht hm (omega (arith, length-drop max_len bytes))
          (rw joined e)))

direct-first :
    (sender m total : ℕ) (r : Reassembly) (bytes : List ℕ) (ds : List Delivery)
    → 0 < m
    → m < 256
    → length bytes ≤ max_len
    → length bytes ≤ total
    → total < u16_mod
    → direct sender (fragment 1 m total bytes) (ok (r, ds)) ≡ (
      (if 1 == m
          then ok (
            fragment_init,
            ds ++ (record { sender = sender % u16_mod; len = total; bytes = bytes } ∷ []),
          )
          else ok (waiting m total bytes, ds)),
      1,
    )
unfolding direct receive_trd fragment_init
direct-first sender m total r bytes ds hm h8 hb ht h16 = ground arith

send_all :
    (sender t m : ℕ) (r : Reassembly) (msg : List ℕ)
    → 0 < m
    → m < 256
    → 0 < t
    → t ≤ max_len
    → length msg < u16_mod
    → length msg ≡ t + max_len * (m - 1)
    → send_from (direct sender) m 1 m t (length msg) msg (ok (r, [])) none
      ≡ (ok (fragment_init, delivery sender msg ∷ []), some 1)
unfolding send_from
send_all sender t zero r msg p h8 ht hm h16 e = absurd (omega arith)
send_all sender t (suc zero) r msg p h8 ht hm h16 e = rw (
  take_all t msg (omega arith),
  direct-first sender 1 (length msg) r msg [] (omega arith) (omega arith) (omega arith)
      (omega arith) h16,
)
send_all sender t (suc (suc n)) r msg p h8 ht hm h16 e =
    let rest : length (drop max_len msg) ≡ t + max_len * n =
      omega (arith, length-drop max_len msg) in
    let here : length (take max_len msg) ≡ max_len = omega (arith, length-take max_len msg) in
    let more : (1 == suc (suc n)) ≡ false = ground arith in
    let joined : take max_len msg ++ drop max_len msg ≡ msg = take-append-drop max_len msg in
    rw
      (
        more,
        direct-first sender (suc (suc n)) (length msg) r (take max_len msg) [] (omega arith) h8
            (omega arith) (omega arith) h16,
        more,
      )
      (send_rest sender n 2 (suc (suc n)) t (length msg) (take max_len msg) (drop max_len msg) []
          (some 1) (omega arith) (omega arith) h8 ht hm rest (ap length (sym joined))
        ∙ ap (λ (bs : List ℕ). (ok (fragment_init, delivery sender bs ∷ []), some 1)) joined)

-- A packet of 1 to 255 * 54 bytes that is cut by trd_fragment_send, its fragments reaching
-- receive_trd in order, is delivered once, whole and with its length, whatever the receiver held
-- before; the receiver is then as after trd_fragment_init.
pub fragment_round_trip :
    (sender : ℕ) (r : Reassembly) (msg : List ℕ)
    → 0 < length msg
    → length msg ≤ 255 * max_len
    → fragment_send (direct sender) msg (ok (r, [])) ≡ (
      ok (fragment_init, record { sender = sender % u16_mod; len = length msg; bytes = msg } ∷ []),
      some 1,
    )
unfolding fragment_send
fragment_round_trip sender r msg p h =
    let (lo, hi, one, total) = count_fragments_lem (length msg) (length msg) 1 (omega arith) p in
    let (t, m) = count_fragments (length msg) (length msg) 1 in
    let nonempty : (length msg == 0) ≡ false = ground arith in
    rw nonempty
      (send_all sender t m r msg (omega arith) (omega arith) lo hi (omega arith) (sym total))
