-- ===== src/Trd/State/Requests.antt =====
-- The summaries and requests that master/trd/trd_state.c handles, on sound states.
use tenet_t.Prelude.{
  Run-cases, ℕ, zero, suc, ◌<◌, ◌≡◌, refl, inl, inr, Bool, false, not, ◌&&◌, ◌||◌, List, [], ◌∷◌,
  arith, ltb, ◌==◌, if◌then◌else◌, Bool-cases, length, u16_mod, Run, ok, fault, All,
}
use mathlib.Core.Path.{subst}
use tenet_t.Trd.NodeCache.{Class}
use tenet_t.Trd.Table.{
  table_exist, table_num_entries, table_ignore_summary, table_get_last_seqno, Table, Metadata,
  table_classify, table_remove_node,
}
use tenet_t.Trd.Table.Live as TableLive
use tenet_t.Trd.Table.Live.{table_init-IsValid}
use tenet_t.Trd.Table.Keep.{table_remove_node-IsValid, table_classify-IsValid}
use tenet_t.Trd.Seqno.{seqno_next, seqno_oldest, seqno_unknown, seqno_last}
use tenet_t.Trd.MetaList.{
  metalist_is_empty, MetaList, MetaListEntry, metalist_insert, metalist_is_full,
}
use tenet_t.Trd.MetaList.Queue as ListQueue
use tenet_t.Trd.MetaList.Keep.{metalist_insert-IsValid}
use tenet_t.Trd.State.{s_steady, s_tx, retry_time, TrdState, Env, recovertimer_start}
use tenet_t.Trd.State.Phases.{act-IsPhase, connect-IsPhase}
use tenet_t.Trd.State.NewMsg.{connect}
use tenet_t.Trd.State.Summary.{
  Reply, SummaryMsg, act, greet, want, want_next, reply_class, reply_from,
  trd_state_summary_received,
}
use tenet_t.Trd.State.Recover.{
  enlist_rounds, read_memory, enlist, enlist_all, requested, trd_state_request_received,
}
use tenet_t.Trd.State.Sound.{
  IsSound, Kept-IsSound, act-Kept, connect-Kept, greet-Kept, greet-IsPhase,
}
use tenet_t.Trd.State.Timers.{read_memory-IsSound}

-- The ages of the entries are in the range of uint16_t.
abbrev pub HasAges : List Metadata → Type 0
HasAges = All (λ (m : Metadata). m.age < u16_mod)

want-table : (origin q : ℕ) (r : Reply) → (want origin q r).table ≡ r.table
unfolding want
want-table origin q r = ground arith

want_next-table : (m : Metadata) (r : Reply) → (want_next m r).table ≡ r.table
unfolding want_next
want_next-table m r =
    ground (arith, want-table m.origin (seqno_next (table_get_last_seqno r.table m.origin)) r)

reply_class-IsValid :
    (m : Metadata) (c : Class) (r : Reply)
    → TableLive.IsValid r.table
    → TableLive.IsValid (reply_class m c r).table
unfolding reply_class
reply_class-IsValid m Class.in_last r v = v
reply_class-IsValid m Class.in_old r v = v
reply_class-IsValid m Class.too_old r v = v
reply_class-IsValid m Class.next_new r v = rw (want_next-table m r) v
reply_class-IsValid m Class.newer r v = rw (want_next-table m r) v
reply_class-IsValid m Class.null r v = rw (want-table m.origin seqno_oldest r) v
reply_class-IsValid m Class.unknown r v = rw (want-table m.origin seqno_oldest r) v
reply_class-IsValid m Class.too_new r v =
    rw
      (want-table m.origin seqno_oldest
        (record r { table = (table_remove_node r.table m.origin).0 }))
      (table_remove_node-IsValid r.table m.origin v)

reply_from-IsValid :
    (ms : List Metadata) (r r' : Reply)
    → TableLive.IsValid r.table
    → HasAges ms
    → reply_from ms r ≡ ok r'
    → TableLive.IsValid r'.table
unfolding reply_from
reply_from-IsValid [] r r' v a h =
    let same : r ≡ r' = ground arith in subst (λ (x : Reply). TableLive.IsValid x.table) same v
reply_from-IsValid (m ∷ ms) r r' v a h =
    elim (Run-cases (table_classify r.table m.origin m.seqno m.age)) [
      | inr (f, x) ↦ absurd (ground arith)
      | inl ((t, c), x) ↦
          reply_from-IsValid ms (reply_class m c (record r { table = t })) r'
            (reply_class-IsValid m c (record r { table = t })
              (table_classify-IsValid r.table m.origin m.seqno m.age t c v a.0 x))
            a.1 (ground arith)
    ]

-- Where trd_state_summaryReceived returns, it leaves a sound state sound.
pub trd_state_summary_received-IsSound :
    (e : Env) (m : SummaryMsg) (s s' : TrdState)
    → IsSound s
    → HasAges m.entries
    → trd_state_summary_received e m s ≡ ok s'
    → IsSound s'
unfolding trd_state_summary_received
trd_state_summary_received-IsSound e m s s' v a h = go (reply_from m.entries start) refl
  where
    s1 : TrdState
    s1 = connect e s

    s2 : TrdState
    s2 = (greet m s1).0

    start : Reply
    start = record { table = s2.table; wanted = []; send_now = false; suppress = (greet m s1).1 }

    v1 : IsSound s1
    v1 = Kept-IsSound s s1 (connect-Kept e s) v (connect-IsPhase e s v.phase)

    v2 : IsSound s2
    v2 = Kept-IsSound s1 s2 (greet-Kept m s1) v1 (greet-IsPhase m s1 v1.phase)

    go : (x : Run Reply) → reply_from m.entries start ≡ x → IsSound s'
    go (fault f) x = absurd (ground arith)
    go (ok r) x =
        let more : Bool =
          ltb (length m.entries) (table_num_entries r.table)
          && not (table_ignore_summary m.beyond r.table m.entries) in
        let r' : Reply = record r { send_now = r.send_now || more } in
        let s3 : TrdState = record s2 { table = r.table } in
        let same : act e m.sender r' s3 ≡ s' = ground arith in
        let v3 : IsSound s3 = record {
          phase = v2.phase;
          known = reply_from-IsValid m.entries start r v2.known a x;
          store = v2.store;
          queue = v2.queue;
        } in
        subst IsSound same (
          Kept-IsSound s3 (act e m.sender r' s3) (act-Kept e m.sender r' s3) v3
            (act-IsPhase e m.sender r' s3 v3.phase))

enlist-IsValid :
    (n : ℕ) (t : Table) (origin q : ℕ) (l l' : MetaList)
    → ListQueue.IsValid l
    → enlist n t origin q l ≡ ok l'
    → ListQueue.IsValid l'
unfolding enlist
enlist-IsValid zero t origin q l l' v h = absurd (ground arith)
enlist-IsValid (suc n) t origin q l l' v h =
    elim (Bool-cases (not (metalist_is_full l) && table_exist t origin q)) [
      | inl more ↦
          enlist-IsValid n t origin (seqno_next q) (metalist_insert l origin q) l'
            (metalist_insert-IsValid l origin q v) (ground arith)
      | inr stop ↦ let same : l ≡ l' = ground arith in subst ListQueue.IsValid same v
    ]

enlist_all-IsValid :
    (t : Table) (ms : List MetaListEntry) (l l' : MetaList)
    → ListQueue.IsValid l
    → enlist_all t ms l ≡ ok l'
    → ListQueue.IsValid l'
unfolding enlist_all
enlist_all-IsValid t [] l l' v h =
    let same : l ≡ l' = ground arith in subst ListQueue.IsValid same v
enlist_all-IsValid t (m ∷ ms) l l' v h =
    elim (Bool-cases (requested t m == seqno_unknown || ltb seqno_last (requested t m))) [
      | inl stop ↦ let same : l ≡ l' = ground arith in subst ListQueue.IsValid same v
      | inr good ↦ elim (Run-cases (enlist enlist_rounds t m.origin (requested t m) l)) [
        | inr (f, e) ↦ absurd (ground arith)
        | inl (k, e) ↦
            enlist_all-IsValid t ms k l'
              (enlist-IsValid enlist_rounds t m.origin (requested t m) l k v e) (ground arith)
      ]
    ]

-- Where trd_state_requestReceived returns, it leaves a sound state sound.
pub trd_state_request_received-IsSound :
    (e : Env) (stray : ℕ) (ms : List MetaListEntry) (s s' : TrdState)
    → IsSound s
    → trd_state_request_received e stray ms s ≡ ok s'
    → IsSound s'
unfolding trd_state_request_received recovertimer_start
trd_state_request_received-IsSound e stray ms s s' v h =
    go (enlist_all s.table ms s.recoverlist) refl
  where
    go : (r : Run MetaList) → enlist_all s.table ms s.recoverlist ≡ r → IsSound s'
    go (fault f) r = absurd (ground arith)
    go (ok l) r =
        let listed : TrdState = record s {
          recoverlist = l;
          m_state = if s.m_state == s_steady && not (metalist_is_empty l) then s_tx else s.m_state;
        } in
        let w : IsSound listed = record {
          phase = ground (arith, v.phase);
          known = v.known;
          store = v.store;
          queue = enlist_all-IsValid s.table ms s.recoverlist l v.queue r;
        } in
        let read : IsSound (read_memory e stray listed) = read_memory-IsSound e stray listed w in
        let same : recovertimer_start e retry_time (read_memory e stray listed) ≡ s' =
          ground arith in
        subst IsSound same (record {
          phase = read.phase;
          known = read.known;
          store = read.store;
          queue = read.queue;
        })
