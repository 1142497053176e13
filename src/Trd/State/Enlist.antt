-- ===== src/Trd/State/Enlist.antt =====
-- The loops of trd_state_requestReceived of master/trd/trd_state.c, which list the packets to send
-- again.
use tenet_t.Prelude.{
  ℕ, zero, suc, ◌+◌, ◌-◌, ◌%◌, ◌≤◌, ◌<◌, ◌≡◌, refl, ◌≢◌, inl, inr, Bool, true, false, not, ◌&&◌,
  ◌||◌, none, some, List, [], ◌∷◌, arith, ltb, ◌==◌, if◌then◌else◌, Bool-cases, Option-cases,
  length, ok,
}
use tenet_t.Trd.Seqno.{seqno_unknown, seqno_last, seqno_next}
use tenet_t.Trd.Seqno.Order.{IsSeqno, seqno_next-IsSeqno}
use tenet_t.Trd.NodeCache.{CacheEntry, live, find_index, nodecache_exist}
use tenet_t.Trd.NodeCache.Live as Node
use tenet_t.Trd.NodeCache.Live.{Absent, find_from-Absent, length-live}
use tenet_t.Trd.Table.{Table, node_at, get_origin_index, table_exist}
use tenet_t.Trd.Table.Live as TableLive
use tenet_t.Trd.Table.Live.{node_at-IsValid}
use tenet_t.Trd.Table.Insert.{get_origin_index-some}
use tenet_t.Trd.MetaList.{
  MetaList, MetaListEntry, metalist_is_empty, metalist_insert, metalist_is_full,
}
use tenet_t.Trd.State.{TrdState, Env, s_steady, s_tx, retry_time, recovertimer_start}
use tenet_t.Trd.State.Sound.{IsSound}
use tenet_t.Trd.State.Requests.{trd_state_request_received-IsSound}
use tenet_t.Trd.State.Recover.{
  enlist, enlist_all, enlist_rounds, requested, read_memory, trd_state_request_received,
}

-- The entries with other sequence numbers.
without : ℕ → List CacheEntry → List CacheEntry
without q [] = []
without q (e ∷ es) = if e.seqno == q then without q es else e ∷ without q es

without_le : (q : ℕ) (es : List CacheEntry) → length (without q es) ≤ length es
unfolding without
without_le q [] = omega arith
without_le q (e ∷ es) = ground (arith, without_le q es)

without_lt : (q : ℕ) (es : List CacheEntry) → ¬ Absent q es → length (without q es) < length es
unfolding without
without_lt q [] h = absurd (h tt)
without_lt q (e ∷ es) h = elim (Bool-cases (e.seqno == q)) [
  | inl here ↦ ground (arith, without_le q es)
  | inr other ↦ ground (arith, without_lt q es (λ a. h ((λ c. ground arith), a)))
]

Absent-without : (q r : ℕ) (es : List CacheEntry) → r ≢ q → Absent r (without q es) → Absent r es
unfolding without
Absent-without q r [] ne a = tt
Absent-without q r (e ∷ es) ne a = go (e.seqno == q) refl a (Absent-without q r es ne)
  where
    go :
        (b : Bool)
        → (e.seqno == q) ≡ b
        → Absent r (if b then without q es else e ∷ without q es)
        → (Absent r (without q es) → Absent r es)
        → Absent r (e ∷ es)
    go true t a ih = ((λ c. ground arith), ih a)
    go false t a ih = (a.0, ih a.1)

-- The sequence number `k` steps after `q` on the circle.
abbrev onward : ℕ → ℕ → ℕ
onward k q = (q + k - 1) % seqno_last + 1

onward-next : (k q : ℕ) → IsSeqno q → onward k (seqno_next q) ≡ onward (k + 1) q
unfolding seqno_next
onward-next k q h = ground arith

-- With `es` the entries that are still ahead, `n` rounds end if there are fewer of these.
enlist-returns :
    (n : ℕ) (t : Table) (origin q : ℕ) (l : MetaList) (es : List CacheEntry)
    → IsSeqno q
    → n < seqno_last
    → length es < n
    → ((k : ℕ) → k < n → table_exist t origin (onward k q) ≡ true → ¬ Absent (onward k q) es)
    → (l' : MetaList) × (enlist n t origin q l ≡ ok l')
unfolding enlist
enlist-returns zero t origin q l es hq hn hl h = absurd (omega arith)
enlist-returns (suc n) t origin q l es hq hn hl h =
    elim (Bool-cases (not (metalist_is_full l) && table_exist t origin q)) [
      | inr stop ↦ (l, ground arith)
      | inl more ↦
          let same : onward 0 q ≡ q = omega arith in
          let there : ¬ Absent q es = rw same at (h 0 (omega arith) (rw same (ground arith))) in
          let (l', e) =
            enlist-returns n t origin (seqno_next q) (metalist_insert l origin q) (without q es)
              (seqno_next-IsSeqno q) (omega arith) (omega (arith, without_lt q es there))
              (λ k hk x a. h (k + 1) (omega arith) (rw (← onward-next k q hq) x) (
                Absent-without q (onward (k + 1) q) es (λ c. ground arith)
                  (rw (← onward-next k q hq) a))) in
          (l', ground (arith, e))
    ]

-- The entries of an origin's node cache; none where the table does not have the origin.
entries_of : Table → ℕ → List CacheEntry
entries_of t origin = elim (get_origin_index t origin) [ none ↦ [] | some i ↦ live (node_at t i) ]

entries_of-le : (t : Table) (origin : ℕ) → TableLive.IsValid t → length (entries_of t origin) ≤ 5
unfolding entries_of
entries_of-le t origin v = elim (Option-cases (get_origin_index t origin)) [
  | inl free ↦ ground arith
  | inr (i, at) ↦
      let nv : Node.IsValid (node_at t i) =
        node_at-IsValid t i v (get_origin_index-some t origin i v at).0 in
      ground (arith, at, length-live (node_at t i) nv, nv.fits)
]

exist_in :
    (t : Table) (origin q : ℕ) → table_exist t origin q ≡ true → ¬ Absent q (entries_of t origin)
unfolding entries_of table_exist nodecache_exist find_index
exist_in t origin q h = elim (Option-cases (get_origin_index t origin)) [
  | inl free ↦ absurd (ground arith)
  | inr (i, at) ↦
      λ a. ground (arith, at, find_from-Absent 0 q (live (node_at t i)) (rw (at, entries_of) at a))
]

enlist_all-returns :
    (t : Table) (ms : List MetaListEntry) (l : MetaList)
    → TableLive.IsValid t
    → (l' : MetaList) × (enlist_all t ms l ≡ ok l')
unfolding enlist_all
enlist_all-returns t [] l v = (l, refl)
enlist_all-returns t (m ∷ ms) l v =
    elim (Bool-cases (requested t m == seqno_unknown || ltb seqno_last (requested t m))) [
      | inl stop ↦ (l, ground arith)
      | inr good ↦
          let (k, e) =
            enlist-returns enlist_rounds t m.origin (requested t m) l (entries_of t m.origin)
              (ground arith) (omega arith) (omega (arith, entries_of-le t m.origin v))
              (λ j hj x. exist_in t m.origin (onward j (requested t m)) x) in
          let (l', e') = enlist_all-returns t ms k v in (l', ground (arith, e, e'))
    ]

-- On a sound state trd_state_requestReceived always returns, whatever the request, and leaves a sound
-- state.
pub trd_state_request_received_lem :
    (e : Env) (stray : ℕ) (ms : List MetaListEntry) (s : TrdState)
    → IsSound s
    → (s' : TrdState) × (trd_state_request_received e stray ms s ≡ ok s') × IsSound s'
trd_state_request_received_lem e stray ms s v =
    let (l, done) = enlist_all-returns s.table ms s.recoverlist v.known in
    let m : ℕ = if s.m_state == s_steady && not (metalist_is_empty l) then s_tx else s.m_state in
    let s' : TrdState =
      recovertimer_start e retry_time
        (read_memory e stray (record s { recoverlist = l; m_state = m })) in
    let r : trd_state_request_received e stray ms s ≡ ok s' =
      unfold trd_state_request_received in ground (arith, done) in
    (s', r, trd_state_request_received-IsSound e stray ms s s' v r)
