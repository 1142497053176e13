-- ===== src/Transport/Stream/Delete.antt =====
-- streamtransport_delete_tid of master/transport/streamtransport.c: what it answers, and what it leaves.
use tenet_t.Prelude.{
  ℕ, ◌≡◌, refl, ◌∙◌, inl, inr, Bool, true, false, ◌||◌, Option, none, some, List, [], ◌∷◌, ◌==◌,
  if◌then◌else◌, Bool-cases,
}
use tenet_t.Transport.Connection.Distinct.{IsDistinct, find_tail, find_past}
use tenet_t.Transport.Stream.{
  StrConn, Streams, is_finished, find_str, stream_tid_is_alive, delete_tid_from,
  streamtransport_delete_tid,
}

-- The connections without the finished ones of a transaction, the others of it marked.
abbrev pub swept : ℕ → List StrConn → List StrConn
swept tid [] = []
swept tid (c ∷ cs) =
    let rest = swept tid cs in
    if c.tid == tid
    then if is_finished c.state then rest else record c { delete_pending = true } ∷ rest
    else c ∷ rest

abbrev pub has_tid : ℕ → List StrConn → Bool
has_tid tid [] = false
has_tid tid (c ∷ cs) = if c.tid == tid then true else has_tid tid cs

abbrev started : Bool → Option ℕ
started seen = if seen then some 1 else some 0

-- What the loop starts from: 0, or 1 once there was a connection.
abbrev answer : Bool → Bool → Bool → Option ℕ
answer seen any alive = if alive then none else started (any || seen)

start_once :
    (seen : Bool)
    → (elim (started seen) [ some r ↦ some (if r == 0 then 1 else r) | none ↦ none ]) ≡ started true
start_once true = refl
start_once false = refl

or_false : (b : Bool) → (b || false) ≡ b
or_false true = refl
or_false false = refl

or_true : (b : Bool) → (b || true) ≡ true
or_true true = refl
or_true false = refl

delete_pending_lem :
    (cs : List StrConn) (tid : ℕ) → delete_tid_from cs tid none ≡ (swept tid cs, none)
unfolding delete_tid_from
delete_pending_lem [] tid = refl
delete_pending_lem (c ∷ cs) tid =
    let rest = delete_pending_lem cs tid in
    elim (Bool-cases (c.tid == tid)) [
      | inl mine ↦ elim (Bool-cases (is_finished c.state)) [
        | inl finished ↦ rw (mine, finished, delete_tid_from) rest
        | inr alive ↦ rw (mine, alive, rest, delete_tid_from)
      ]
      | inr other ↦ rw (other, rest, delete_tid_from)
    ]

delete_tid_from_lem :
    (cs : List StrConn) (tid : ℕ) (seen : Bool)
    → delete_tid_from cs tid (started seen)
      ≡ (swept tid cs, answer seen (has_tid tid cs) (stream_tid_is_alive cs tid))
unfolding delete_tid_from stream_tid_is_alive
delete_tid_from_lem [] tid seen = refl
delete_tid_from_lem (c ∷ cs) tid seen =
    let rest = delete_tid_from_lem cs tid seen in
    let after = delete_tid_from_lem cs tid true in
    let pending = delete_pending_lem cs tid in
    elim (Bool-cases (c.tid == tid)) [
      | inl mine ↦ elim (Bool-cases (is_finished c.state)) [
        | inl finished ↦ rw (
          mine,
          finished,
          start_once seen,
          after,
          or_true (has_tid tid cs),
          delete_tid_from,
          stream_tid_is_alive,
        )
        | inr alive ↦ rw (mine, alive, pending, delete_tid_from, stream_tid_is_alive)
      ]
      | inr other ↦ rw (other, rest, delete_tid_from, stream_tid_is_alive)
    ]

-- streamtransport_delete_tid removes the finished connections of the transaction, marks its others, and
-- leaves the rest as they are. It answers -1 where one of them is not finished, else 1 where there
-- was one, and 0 where there was none.
pub streamtransport_delete_tid_lem :
    (tid : ℕ) (s : Streams)
    → streamtransport_delete_tid tid s ≡ (
      record s { conns = swept tid s.conns },
      if stream_tid_is_alive s.conns tid
          then none
          else if has_tid tid s.conns
          then some 1
          else some 0,
    )
unfolding streamtransport_delete_tid
streamtransport_delete_tid_lem tid s =
    rw (delete_tid_from_lem s.conns tid false) (rw (or_false (has_tid tid s.conns)))

swept-none :
    (tid : ℕ) (cs : List StrConn) (t a : ℕ)
    → find_str cs t a ≡ none
    → find_str (swept tid cs) t a ≡ none
swept-none tid [] t a h = h
swept-none tid (c ∷ cs) t a h =
    let tid_of : StrConn → ℕ = λ d. d.tid in
    let addr_of : StrConn → ℕ = λ d. d.addr in
    let parts = find_tail tid_of addr_of c cs t a h in
    let rest = swept-none tid cs t a parts.1 in
    let marked : StrConn = record c { delete_pending = true } in
    elim (Bool-cases (c.tid == tid)) [
      | inl mine ↦ elim (Bool-cases (is_finished c.state)) [
        | inl finished ↦ rw (mine, finished) rest
        | inr alive ↦
            rw (mine, alive) (find_past tid_of addr_of marked (swept tid cs) t a parts.0 ∙ rest)
      ]
      | inr other ↦ rw other (find_past tid_of addr_of c (swept tid cs) t a parts.0 ∙ rest)
    ]

pub swept-IsDistinct :
    (tid : ℕ) (cs : List StrConn)
    → IsDistinct (λ (c : StrConn). c.tid) (λ (c : StrConn). c.addr) cs
    → IsDistinct (λ (c : StrConn). c.tid) (λ (c : StrConn). c.addr) (swept tid cs)
swept-IsDistinct tid [] h = h
swept-IsDistinct tid (c ∷ cs) h = elim (Bool-cases (c.tid == tid)) [
  | inl mine ↦ elim (Bool-cases (is_finished c.state)) [
    | inl finished ↦ rw (mine, finished) (swept-IsDistinct tid cs h.1)
    | inr alive ↦ rw (mine, alive) (swept-none tid cs c.tid c.addr h.0, swept-IsDistinct tid cs h.1)
  ]
  | inr other ↦ rw other (swept-none tid cs c.tid c.addr h.0, swept-IsDistinct tid cs h.1)
]
