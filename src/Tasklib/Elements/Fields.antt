-- ===== src/Tasklib/Elements/Fields.antt =====
-- Each call of master/tasklib/element_construct.c against the struct that it fills in.
use tenet_t.Prelude.{
  leb, true, ◌+◌, ℕ, ◌%◌, ◌≡◌, refl, inl, inr, List, [], ◌∷◌, ◌++◌, ◌==◌, Bool-cases, length,
  get_or, u8_mod,
}
use tenet_t.Tasklib.Elements.{
  Layout, extent, operation, u8, u16, u32, unset, element, construct_send,
}
use tenet_t.Tasklib.Elements.Layout.{Fits}
use tenet_t.Tasklib.Elements.Read.{Fits-u8, Fits-u16, Fits-u32}
use tenet_t.Tasklib.Elements.Call.{
  Call, issue, count, get, actuate, reboot, logical, bit, arithmetic, comparison, stats, storage,
  pack, attribute, send, delete_attribute_if, delete_active_task_if, delete_task_if, voltage,
  sample, fastsample, user_button, memoryop, sample_rssi, firlpfilter, construct, tasklet, Reads,
  IsOperation,
}

-- An element of the right type and size, of which all but at most the last byte is assigned, and whose
-- fields are read back.
abbrev pub IsTasklet : Call → Type 0
IsTasklet c =
    (params : Layout) × ((construct c ≡ element (get_or (tasklet c) 0 0) params)
      × (((length params ≡ get_or (tasklet c) 1 0)
            × (leb (length params) (extent params + 1) ≡ true))
          × ((v : List ℕ) → Fits params v → Reads c v)))

operation-Reads :
    (result tag op argtype arg : ℕ) (v : List ℕ)
    → Fits (operation result tag op argtype arg) v
    → IsOperation v result tag op argtype arg
operation-Reads result tag op argtype arg v f =
    let l = operation result tag op argtype arg in
    (
      Fits-u16 l v 0 result f refl refl,
      (
        Fits-u16 l v 2 tag f refl refl,
        (
          Fits-u8 l v 4 (op % u8_mod) f refl,
          (Fits-u8 l v 5 (argtype % u8_mod) f refl, Fits-u16 l v 6 arg f refl refl),
        ),
      ),
    )

Fits-nil : (v : List ℕ) → Fits [] v → v ≡ []
Fits-nil [] f = refl
Fits-nil (x ∷ v) f = absurd f

send-IsTasklet : (k : ℕ) → IsTasklet (send k)
unfolding construct_send
send-IsTasklet k = elim (Bool-cases (k == 2)) [
  | inl stream ↦ rw stream ([], (refl, ((refl, refl), Fits-nil)))
  | inr no_stream ↦ elim (Bool-cases (k == 1)) [
    | inl packet ↦
        let l = u8 1 ++ u8 0 in
        rw (no_stream, packet) (l, (refl, ((refl, refl), λ v f. Fits-u8 l v 0 1 f refl)))
    | inr no_packet ↦ elim (Bool-cases (k == 3)) [
      | inl rate ↦
          let l = u16 0 in
          rw (no_stream, no_packet, rate)
            (l, (refl, ((refl, refl), λ v f. Fits-u16 l v 0 0 f refl refl)))
      | inr plain ↦
          let l = u8 0 ++ u8 0 in
          rw (no_stream, no_packet, plain)
            (l, (refl, ((refl, refl), λ v f. Fits-u8 l v 0 0 f refl)))
    ]
  ]
]

tasklet_of :
    (c : Call) (params : Layout)
    → construct c ≡ element (get_or (tasklet c) 0 0) params
    → length params ≡ get_or (tasklet c) 1 0
    → leb (length params) (extent params + 1) ≡ true
    → ((v : List ℕ) → Fits params v → Reads c v)
    → IsTasklet c
tasklet_of c params made size end reads = (params, (made, ((size, end), reads)))

pub each_call : (c : Call) → IsTasklet c
each_call (issue s p a) =
    let l = u32 s ++ u32 p ++ u8 a ++ unset in
    tasklet_of (issue s p a) l refl refl refl (λ v f. (
      Fits-u32 l v 0 s f refl refl refl refl,
      (Fits-u32 l v 4 p f refl refl refl refl, Fits-u8 l v 8 (a % u8_mod) f refl),
    ))
each_call (count t n r) =
    let l = u16 n ++ u16 r ++ u16 t in
    tasklet_of (count t n r) l refl refl refl (λ v f.
      (Fits-u16 l v 0 n f refl refl, (Fits-u16 l v 2 r f refl refl, Fits-u16 l v 4 t f refl refl)))
each_call (get t x) =
    let l = u16 t ++ u16 x in
    tasklet_of (get t x) l refl refl refl
      (λ v f. (Fits-u16 l v 0 t f refl refl, Fits-u16 l v 2 x f refl refl))
each_call (actuate c t x) =
    let l = u8 c ++ u8 t ++ u16 x in
    tasklet_of (actuate c t x) l refl refl refl (λ v f. (
      Fits-u8 l v 0 (c % u8_mod) f refl,
      (Fits-u8 l v 1 (t % u8_mod) f refl, Fits-u16 l v 2 x f refl refl),
    ))
each_call reboot = ([], (refl, ((refl, refl), λ v f. Fits-nil v f)))
each_call (logical r t o a x) =
    (operation r t o a x, (refl, ((refl, refl), operation-Reads r t o a x)))
each_call (bit r t o a x) = (operation r t o a x, (refl, ((refl, refl), operation-Reads r t o a x)))
each_call (arithmetic r t o a x) =
    (operation r t o a x, (refl, ((refl, refl), operation-Reads r t o a x)))
each_call (comparison r t o a x) =
    (operation r t o a x, (refl, ((refl, refl), operation-Reads r t o a x)))
each_call (stats r t o) =
    let l = u16 r ++ u16 t ++ u16 o in
    tasklet_of (stats r t o) l refl refl refl (λ v f.
      (Fits-u16 l v 0 r f refl refl, (Fits-u16 l v 2 t f refl refl, Fits-u16 l v 4 o f refl refl)))
each_call (storage i o s) =
    let l = u16 i ++ u16 o ++ u8 s ++ u8 0 in
    tasklet_of (storage i o s) l refl refl refl (λ v f. (
      Fits-u16 l v 0 i f refl refl,
      (
        Fits-u16 l v 2 o f refl refl,
        (Fits-u8 l v 4 (s % u8_mod) f refl, Fits-u8 l v 5 (0 % u8_mod) f refl),
      ),
    ))
each_call (pack t s b) =
    let l = u16 t ++ u16 s ++ u8 b ++ unset in
    tasklet_of (pack t s b) l refl refl refl (λ v f. (
      Fits-u16 l v 0 t f refl refl,
      (Fits-u16 l v 2 s f refl refl, Fits-u8 l v 4 (b % u8_mod) f refl),
    ))
each_call (attribute r t o) =
    let l = u16 r ++ u16 t ++ u8 o ++ unset in
    tasklet_of (attribute r t o) l refl refl refl (λ v f. (
      Fits-u16 l v 0 r f refl refl,
      (Fits-u16 l v 2 t f refl refl, Fits-u8 l v 4 (o % u8_mod) f refl),
    ))
each_call (send k) = send-IsTasklet k
each_call (delete_attribute_if x t g a) =
    let l = u16 x ++ u16 g ++ u8 t ++ u8 a in
    tasklet_of (delete_attribute_if x t g a) l refl refl refl (λ v f. (
      Fits-u16 l v 0 x f refl refl,
      (
        Fits-u16 l v 2 g f refl refl,
        (Fits-u8 l v 4 (t % u8_mod) f refl, Fits-u8 l v 5 (a % u8_mod) f refl),
      ),
    ))
each_call (delete_active_task_if x t) =
    let l = u16 x ++ u8 t ++ u8 0 in
    tasklet_of (delete_active_task_if x t) l refl refl refl
      (λ v f. (Fits-u16 l v 0 x f refl refl, Fits-u8 l v 2 (t % u8_mod) f refl))
each_call (delete_task_if x t) =
    let l = u16 x ++ u8 t ++ u8 0 in
    tasklet_of (delete_task_if x t) l refl refl refl
      (λ v f. (Fits-u16 l v 0 x f refl refl, Fits-u8 l v 2 (t % u8_mod) f refl))
each_call (voltage o) =
    let l = u16 o in tasklet_of (voltage o) l refl refl refl (λ v f. Fits-u16 l v 0 o f refl refl)
each_call (sample i n r c o) =
    let l = u32 i ++ u16 n ++ u16 o ++ u8 c ++ u8 r in
    tasklet_of (sample i n r c o) l refl refl refl (λ v f. (
      Fits-u32 l v 0 i f refl refl refl refl,
      (
        Fits-u16 l v 4 n f refl refl,
        (
          Fits-u16 l v 6 o f refl refl,
          (Fits-u8 l v 8 (c % u8_mod) f refl, Fits-u8 l v 9 (r % u8_mod) f refl),
        ),
      ),
    ))
each_call (fastsample r n k c0 c1 c2) =
    let l =
      u32 r
      ++ u16 n
      ++ unset
      ++ u8 k
      ++ unset
      ++ u8 c0.0
      ++ u8 c1.0
      ++ u8 c2.0
      ++ u16 c0.1
      ++ u16 c1.1
      ++ u16 c2.1 in
    tasklet_of (fastsample r n k c0 c1 c2) l refl refl refl (λ v f. (
      Fits-u32 l v 0 r f refl refl refl refl,
      (
        Fits-u16 l v 4 n f refl refl,
        (
          Fits-u8 l v 7 (k % u8_mod) f refl,
          (
            (
              Fits-u8 l v 9 (c0.0 % u8_mod) f refl,
              (Fits-u8 l v 10 (c1.0 % u8_mod) f refl, Fits-u8 l v 11 (c2.0 % u8_mod) f refl),
            ),
            (
              Fits-u16 l v 12 c0.1 f refl refl,
              (Fits-u16 l v 14 c1.1 f refl refl, Fits-u16 l v 16 c2.1 f refl refl),
            ),
          ),
        ),
      ),
    ))
each_call (user_button r) =
    let l = u8 r ++ u8 0 in
    tasklet_of (user_button r) l refl refl refl (λ v f. Fits-u8 l v 0 (r % u8_mod) f refl)
each_call (memoryop a x o t) =
    let l = u16 a ++ u8 x ++ u8 o ++ u16 t in
    tasklet_of (memoryop a x o t) l refl refl refl (λ v f. (
      Fits-u16 l v 0 a f refl refl,
      (
        Fits-u8 l v 2 (x % u8_mod) f refl,
        (Fits-u8 l v 3 (o % u8_mod) f refl, Fits-u16 l v 4 t f refl refl),
      ),
    ))
each_call (sample_rssi t) =
    let l = u16 t in
    tasklet_of (sample_rssi t) l refl refl refl (λ v f. Fits-u16 l v 0 t f refl refl)
each_call (firlpfilter i o) =
    let l = u16 i ++ u16 o in
    tasklet_of (firlpfilter i o) l refl refl refl
      (λ v f. (Fits-u16 l v 0 i f refl refl, Fits-u16 l v 2 o f refl refl))
