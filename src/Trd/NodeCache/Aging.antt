-- ===== src/Trd/NodeCache/Aging.antt =====
-- What aging keeps of a node cache, and when the loop that catches up with a neighbour's age ends
-- (nodecache_incrementAge and nodecache_classifySeqno of mote/lib/trd/trd_nodecache.c).
use tenet_t.Prelude.{
  ℕ, zero, suc, ◌+◌, ◌%◌, ◌≤◌, ◌<◌, ◌≡◌, refl, sym, ap, ◌∙◌, inl, inr, true, false, List, [], ◌∷◌,
  map, arith, ltb, Bool-cases, length, get_or, take, u16_mod, u8_mod, Fault, ok, fault,
}
use tenet_t.Trd.NodeCache.{
  CacheEntry, NodeCache, live, null_entry, increment_entry, increment_first,
  nodecache_increment_age,
}
use tenet_t.Trd.NodeCache.Live.{Absent, Distinct, IsValid}
use tenet_t.Trd.NodeCache.Classify.{catch_up}

take-increment_first :
    (n : ℕ) (es : List CacheEntry) → take n (increment_first n es) ≡ map increment_entry (take n es)
unfolding increment_first
take-increment_first zero es = refl
take-increment_first (suc n) [] = refl
take-increment_first (suc n) (e ∷ es) = ap (λ r. increment_entry e ∷ r) (take-increment_first n es)

length-increment_first : (n : ℕ) (es : List CacheEntry) → length (increment_first n es) ≡ length es
unfolding increment_first
length-increment_first zero es = refl
length-increment_first (suc n) [] = refl
length-increment_first (suc n) (e ∷ es) = ap suc (length-increment_first n es)

seqno-increment : (e : CacheEntry) → (increment_entry e).seqno ≡ e.seqno
seqno-increment e = ground arith

Absent-map : (q : ℕ) (es : List CacheEntry) → Absent q es → Absent q (map increment_entry es)
Absent-map q [] a = tt
Absent-map q (e ∷ es) a = ((λ c. a.0 (sym (seqno-increment e) ∙ c)), Absent-map q es a.1)

Distinct-map : (es : List CacheEntry) → Distinct es → Distinct (map increment_entry es)
Distinct-map [] d = tt
Distinct-map (e ∷ es) d = (rw (seqno-increment e) (Absent-map e.seqno es d.0), Distinct-map es d.1)

pub live-increment_age :
    (nc : NodeCache) → live (nodecache_increment_age nc) ≡ map increment_entry (live nc)
unfolding nodecache_increment_age
live-increment_age nc = take-increment_first nc.num_entries nc.cache

pub origin-increment_age : (nc : NodeCache) → (nodecache_increment_age nc).origin ≡ nc.origin
unfolding nodecache_increment_age
origin-increment_age nc = refl

num_entries-increment_age :
    (nc : NodeCache) → (nodecache_increment_age nc).num_entries ≡ nc.num_entries
unfolding nodecache_increment_age
num_entries-increment_age nc = refl

pub increment_age-IsValid : (nc : NodeCache) → IsValid nc → IsValid (nodecache_increment_age nc)
unfolding nodecache_increment_age
increment_age-IsValid nc v = record {
  slots = length-increment_first nc.num_entries nc.cache ∙ v.slots;
  fits = v.fits;
  distinct = rw (take-increment_first nc.num_entries nc.cache) (Distinct-map (live nc) v.distinct);
}

get_or-increment_first :
    (n i : ℕ) (es : List CacheEntry)
    → i < n
    → i < length es
    → get_or (increment_first n es) i null_entry ≡ increment_entry (get_or es i null_entry)
unfolding increment_first
get_or-increment_first zero i es h k = absurd (omega arith)
get_or-increment_first (suc n) i [] h k = absurd (omega arith)
get_or-increment_first (suc n) zero (e ∷ es) h k = refl
get_or-increment_first (suc n) (suc i) (e ∷ es) h k =
    get_or-increment_first n i es (omega arith) (omega arith)

pub age-increment_age :
    (nc : NodeCache) (i : ℕ)
    → IsValid nc
    → i < nc.num_entries
    → (get_or (nodecache_increment_age nc).cache i null_entry).age
      ≡ (increment_entry (get_or nc.cache i null_entry)).age
unfolding nodecache_increment_age
age-increment_age nc i v h =
    ap (λ (e : CacheEntry). e.age)
      (get_or-increment_first nc.num_entries i nc.cache h (omega (arith, v.slots, v.fits)))

module _ (i age : ℕ) where
  -- The loop ends when the slot's age is not 0.
  pub catch_up_ends :
      (n : ℕ) (nc : NodeCache) (aging : ℕ)
      → IsValid nc
      → i < nc.num_entries
      → age < u16_mod
      → 0 < (get_or nc.cache i null_entry).age
      → 0 < n
      → age < n + (get_or nc.cache i null_entry).age
      → (nc' : NodeCache) × (aging' : ℕ) × (catch_up n i age nc aging ≡ ok (nc', aging'))
        × IsValid nc'
        × (nc'.origin ≡ nc.origin)
        × (nc'.num_entries ≡ nc.num_entries)
  unfolding catch_up
  catch_up_ends zero nc aging v hi h16 pos hn h = absurd (omega arith)
  catch_up_ends (suc n) nc aging v hi h16 pos hn h =
      elim (Bool-cases (ltb ((get_or nc.cache i null_entry).age + 2) age)) [
        | inl go ↦
            let older = age-increment_age nc i v hi in
            let (nc', aging', e, v', o, k) =
              catch_up_ends n (nodecache_increment_age nc) ((aging + 1) % u8_mod)
                (increment_age-IsValid nc v) (rw (num_entries-increment_age nc) hi) h16
                (ground arith) (ground arith) (ground arith) in
            (
              nc',
              aging',
              rw go e,
              v',
              o ∙ origin-increment_age nc,
              k ∙ num_entries-increment_age nc,
            )
        | inr stop ↦ (nc, aging, rw stop, v, refl, refl)
      ]

  -- With age 0 it never ends, however many rounds it is given.
  pub catch_up_hangs :
      (n : ℕ) (nc : NodeCache) (aging : ℕ)
      → IsValid nc
      → i < nc.num_entries
      → (get_or nc.cache i null_entry).age ≡ 0
      → 2 < age
      → catch_up n i age nc aging ≡ fault Fault.hang
  unfolding catch_up
  catch_up_hangs zero nc aging v hi z h = refl
  catch_up_hangs (suc n) nc aging v hi z h =
      let more : ltb ((get_or nc.cache i null_entry).age + 2) age ≡ true = ground arith in
      let still = age-increment_age nc i v hi in
      rw more (
        catch_up_hangs n (nodecache_increment_age nc) ((aging + 1) % u8_mod)
          (increment_age-IsValid nc v) (rw (num_entries-increment_age nc) hi) (ground arith) h)

  pub catch_up_stays :
      (nc : NodeCache) (aging : ℕ)
      → age ≤ (get_or nc.cache i null_entry).age + 2
      → catch_up (age + 1) i age nc aging ≡ ok (nc, aging)
  unfolding catch_up
  catch_up_stays nc aging h =
      let e : age + 1 ≡ suc age = omega arith in
      let stop : ltb ((get_or nc.cache i null_entry).age + 2) age ≡ false = ground arith in
      ap (λ (n : ℕ). catch_up n i age nc aging) e ∙ rw stop
