-- ===== src/Trd/Link/Receiving.antt =====
-- What trd_receive of master/trd/trd.c keeps.
use tenet_t.Prelude.{
  ℕ, zero, suc, ◌+◌, ◌<◌, ◌≡◌, inl, inr, Bool, not, ◌||◌, List, [], ◌∷◌, arith, ltb, leb, ◌==◌,
  Bool-cases, length, get_or, drop, u16_mod, u8_mod, ok, All, Run-cases,
}
use mathlib.Core.Path.{subst}
use tenet_t.Trd.Msg.{header_length, be16, decode, checksum_check}
use tenet_t.Trd.State.{Env}
use tenet_t.Trd.State.NewMsg.{trd_state_new_msg}
use tenet_t.Trd.State.Summary.{trd_state_summary_received}
use tenet_t.Trd.State.Recover.{trd_state_request_received}
use tenet_t.Trd.State.Sound.{IsSound}
use tenet_t.Trd.State.Packets.{trd_state_new_msg-IsSound}
use tenet_t.Trd.State.Requests.{
  HasAges, trd_state_summary_received-IsSound, trd_state_request_received-IsSound,
}
use tenet_t.Trd.Fragment.{fragment_header, receive_trd}
use tenet_t.Trd.Link.{
  decode_fragment, Node, pass_up, trd_receive_msg, decode_entry, decode_entries, control_header,
  metadata_size, is_negative, decode_summary, decode_request, control_sized, control_checksum_check,
  control_summary, control_request, trd_receive_control, am_trd_msg, am_trd_control, trd_receive,
}

-- Every item is a byte.
abbrev pub IsBytes : List ℕ → Type 0
IsBytes = All (λ (b : ℕ). b < u8_mod)

get_or-IsBytes : (bytes : List ℕ) (i : ℕ) → IsBytes bytes → get_or bytes i 0 < u8_mod
get_or-IsBytes [] i h = omega arith
get_or-IsBytes (b ∷ bytes) zero h = h.0
get_or-IsBytes (b ∷ bytes) (suc i) h = get_or-IsBytes bytes i h.1

drop-IsBytes : (n : ℕ) (bytes : List ℕ) → IsBytes bytes → IsBytes (drop n bytes)
drop-IsBytes zero bytes h = h
drop-IsBytes (suc n) [] h = tt
drop-IsBytes (suc n) (b ∷ bytes) h = drop-IsBytes n bytes h.1

be16-lt : (bytes : List ℕ) (i : ℕ) → IsBytes bytes → be16 bytes i < u16_mod
be16-lt bytes i h = omega (arith, get_or-IsBytes bytes i h, get_or-IsBytes bytes (suc i) h)

decode_entries-HasAges : (n : ℕ) (bytes : List ℕ) → IsBytes bytes → HasAges (decode_entries n bytes)
unfolding decode_entries decode_entry
decode_entries-HasAges zero bytes h = tt
decode_entries-HasAges (suc n) bytes h = (
  be16-lt bytes 4 h,
  decode_entries-HasAges n (drop metadata_size bytes) (drop-IsBytes metadata_size bytes h),
)

decode_summary-HasAges :
    (beyond : ℕ → ℕ) (bytes : List ℕ)
    → IsBytes bytes
    → HasAges (decode_summary beyond bytes).entries
unfolding decode_summary
decode_summary-HasAges beyond bytes h = elim (Bool-cases (is_negative (get_or bytes 2 0))) [
  | inl neg ↦ rw (neg, decode_summary) tt
  | inr pos ↦
      rw (pos, decode_summary)
        (decode_entries-HasAges (get_or bytes 2 0) (drop control_header bytes)
          (drop-IsBytes control_header bytes h))
]

pass_up-state :
    (sender : ℕ) (payload : List ℕ) (n n' : Node)
    → pass_up sender payload n ≡ ok n'
    → n'.state ≡ n.state
unfolding pass_up
pass_up-state sender payload n n' h = elim (Bool-cases (ltb (length payload) fragment_header)) [
  | inl short ↦ ground arith
  | inr long ↦ elim (Run-cases (receive_trd sender (decode_fragment payload) n.frag)) [
    | inr (f, r) ↦ absurd (ground arith)
    | inl (r, x) ↦ ground arith
  ]
]

trd_receive_msg-IsSound :
    (e : Env) (bytes : List ℕ) (n n' : Node) (b : Bool)
    → IsSound n.state
    → IsBytes bytes
    → trd_receive_msg e bytes n ≡ ok (n', b)
    → IsSound n'.state
unfolding trd_receive_msg decode
trd_receive_msg-IsSound e bytes n n' b v h r =
    elim (Bool-cases (
      leb (length bytes) header_length
      || not (length bytes == header_length + (decode bytes).length)
      || not (checksum_check (decode bytes)))) [
        | inl bad ↦ let same : n ≡ n' = ground arith in subst (λ (u : Node). IsSound u.state) same v
        | inr good ↦ elim (Run-cases (trd_state_new_msg e (decode bytes) n.state)) [
          | inr (f, x) ↦ absurd (ground arith)
          | inl ((s, new), x) ↦
              let w : IsSound s =
                trd_state_new_msg-IsSound e (decode bytes) n.state s new v (be16-lt bytes 4 h) x in
              elim (Bool-cases new) [
                | inr old ↦
                    let same : record n { state = s } ≡ n' = ground arith in
                    subst (λ (u : Node). IsSound u.state) same w
                | inl fresh ↦
                    elim (Run-cases (
                      pass_up (decode bytes).metadata.origin (decode bytes).payload
                        (record n { state = s }))) [
                          | inr (f, y) ↦ absurd (ground arith)
                          | inl (n1, y) ↦
                              let same : n1 ≡ n' = ground arith in
                              let keep_state : n1.state ≡ s =
                                pass_up-state (decode bytes).metadata.origin (decode bytes).payload
                                  (record n { state = s }) n1 y in
                              subst (λ (u : Node). IsSound u.state) same (rw keep_state w)
                        ]
              ]
        ]
      ]

trd_receive_control-IsSound :
    (e : Env) (stray : ℕ) (beyond : ℕ → ℕ) (bytes : List ℕ) (n n' : Node) (b : Bool)
    → IsSound n.state
    → IsBytes bytes
    → trd_receive_control e stray beyond bytes n ≡ ok (n', b)
    → IsSound n'.state
unfolding trd_receive_control
trd_receive_control-IsSound e stray beyond bytes n n' b v h r =
    elim (Bool-cases (not (control_sized bytes) || not (control_checksum_check bytes))) [
      | inl bad ↦ let same : n ≡ n' = ground arith in subst (λ (u : Node). IsSound u.state) same v
      | inr good ↦ elim (Bool-cases (get_or bytes 3 0 == control_summary)) [
        | inl is_summary ↦
            elim (Run-cases (trd_state_summary_received e (decode_summary beyond bytes) n.state)) [
              | inr (f, x) ↦ absurd (ground arith)
              | inl (s, x) ↦
                  let same : record n { state = s } ≡ n' = ground arith in
                  subst (λ (u : Node). IsSound u.state) same
                    (trd_state_summary_received-IsSound e (decode_summary beyond bytes) n.state s v
                      (decode_summary-HasAges beyond bytes h) x)
            ]
        | inr other ↦ elim (Bool-cases (get_or bytes 3 0 == control_request)) [
          | inl is_request ↦
              elim (Run-cases (trd_state_request_received e stray (decode_request bytes) n.state)) [
                | inr (f, x) ↦ absurd (ground arith)
                | inl (s, x) ↦
                    let same : record n { state = s } ≡ n' = ground arith in
                    subst (λ (u : Node). IsSound u.state) same
                      (trd_state_request_received-IsSound e stray (decode_request bytes) n.state s v
                        x)
              ]
          | inr neither ↦
              let same : n ≡ n' = ground arith in subst (λ (u : Node). IsSound u.state) same v
        ]
      ]
    ]

-- Whatever bytes come in, as a message of whatever type: where trd_receive returns, it leaves a
-- sound state sound.
pub trd_receive-IsSound :
    (e : Env) (stray : ℕ) (beyond : ℕ → ℕ) (kind : ℕ) (bytes : List ℕ) (n n' : Node) (b : Bool)
    → IsSound n.state
    → IsBytes bytes
    → trd_receive e stray beyond kind bytes n ≡ ok (n', b)
    → IsSound n'.state
unfolding trd_receive
trd_receive-IsSound e stray beyond kind bytes n n' b v h r =
    elim (Bool-cases (kind == am_trd_msg)) [
      | inl is_msg ↦ trd_receive_msg-IsSound e bytes n n' b v h (ground arith)
      | inr other ↦ elim (Bool-cases (kind == am_trd_control)) [
        | inl is_control ↦
            trd_receive_control-IsSound e stray beyond bytes n n' b v h (ground arith)
        | inr neither ↦
            let same : n ≡ n' = ground arith in subst (λ (u : Node). IsSound u.state) same v
      ]
    ]
