-- ===== src/Trd/Link.antt =====
-- master/trd/trd.c: packets between the handlers and the serial link to the motes, and the control
-- messages of mote/lib/trd/trd.h in bytes. The link is open, so send_to_mote_cloud succeeds.
pub mod Sending
pub mod Receiving
use tenet_t.Prelude.{
  ℕ, zero, suc, ◌+◌, ◌-◌, ◌*◌, ◌/◌, ◌%◌, ◌^◌, ◌≤◌, ◌<◌, min, Ordering, ◌≡◌, refl, sym, ap, ap₂, ◌∙◌,
  ◌≢◌, ◌↔◌, ◌⊎◌, inl, inr, Bool, true, false, not, ◌&&◌, ◌||◌, Option, none, some, List, [], ◌∷◌,
  ◌++◌, map, append-nil, append_assoc, arith, ltb, leb, ◌==◌, if◌then◌else◌, ltb→lt, lt→ltb, leb→le,
  ==_iff, Bool-cases, Option-cases, length, get_elem?, set, length-append, length-set, get_or, take,
  drop, replicate, take-append-drop, length-take, length-drop, length-replicate, length-map,
  take_all, u16_mod, u8_mod, Fault, Run, ok, fault, ◌>>=◌, All, All-append, All-set, All-take,
  All-get_or, All-replicate, All-mono, All-map, take-set_below, take-set_next, get_or-take,
  get_or-set_self, get_or-set_ne, take-set_above, set_outside, take-take, Run-cases,
}
use tenet_t.Trd.Table.{Metadata}
use tenet_t.Trd.MetaList.{MetaListEntry}
use tenet_t.Trd.Fragment.{FragmentMsg, Reassembly, Delivery, fragment_header, receive_trd}
use tenet_t.Trd.Msg.{
  TrdMsg, header_length, high, low, be16, decode, sum_bytes, negate_sum, checksum_check,
  set_checksum,
}
use tenet_t.Trd.State.{TrdState, Env, Out, emit, get_next_seqno}
use tenet_t.Trd.State.NewMsg.{trd_state_new_msg}
use tenet_t.Trd.State.Summary.{SummaryMsg, trd_state_summary_received}
use tenet_t.Trd.State.Recover.{trd_state_request_received}

-- offsetof(TRD_ControlMsg, metadata) and sizeof(TRD_Metadata).
abbrev pub control_header : ℕ
control_header = 6

abbrev pub metadata_size : ℕ
metadata_size = 6

-- The message that trd_send makes of a payload.
unfoldable pub own_msg : ℕ → ℕ → List ℕ → TrdMsg
own_msg addr q bytes = set_checksum (record {
  metadata = record { origin = addr; seqno = q; age = 1 };
  sender = addr;
  length = length bytes % u8_mod;
  checksum = 0;
  payload = bytes;
})

-- The new state and the sequence number. malloc succeeds; the callers' payloads fit into a message.
unfoldable pub trd_send : Env → List ℕ → TrdState → Run (TrdState × ℕ)
unfolding own_msg
trd_send e bytes s0 =
    let (s, q) = get_next_seqno s0 in
    let m = own_msg s.local_addr q bytes in
    trd_state_new_msg e m (emit (Out.rebroadcast m) s) >>= λ r. ok (r.0, q)

-- The handlers' state, the reassembly of fragments, and what the application has been given.
pub record Node : Type 0 where
  pub state : TrdState
  pub frag : Reassembly
  pub up : List Delivery

-- The cast of a payload to TRD_FragmentMsg.
unfoldable pub decode_fragment : List ℕ → FragmentMsg
decode_fragment bytes = record {
  index = get_or bytes 0 0;
  tot_fragment = get_or bytes 1 0;
  length = get_or bytes 2 0;
  pad = get_or bytes 3 0;
  tot_bytes = be16 bytes 4;
  data_bytes = drop fragment_header bytes;
}

-- receive_trd on a payload; one without room for the fragment's header has the wrong length.
unfoldable pub pass_up : ℕ → List ℕ → Node → Run Node
unfolding decode_fragment
pass_up sender payload n =
    let joined = receive_trd sender (decode_fragment payload) n.frag in
    if ltb (length payload) fragment_header
    then ok n
    else joined >>= λ r.
        ok (record n { frag = r.0; up = n.up ++ elim r.1 [ none ↦ [] | some d ↦ d ∷ [] ] })

-- trd_receive_msg; `false` is the return value -1.
unfoldable pub trd_receive_msg : Env → List ℕ → Node → Run (Node × Bool)
unfolding pass_up
trd_receive_msg e bytes n =
    let m = decode bytes in
    if leb (length bytes) header_length
      || not (length bytes == header_length + m.length)
      || not (checksum_check m)
    then ok (n, false)
    else do
      (s, new) ← trd_state_new_msg e m n.state
      n' ←
          if new
          then pass_up m.metadata.origin m.payload (record n { state = s })
          else ok (record n { state = s })
      ok (n', true)

-- A TRD_Metadata of a control message, in network order.
unfoldable pub decode_entry : List ℕ → Metadata
decode_entry bytes = record { origin = be16 bytes 0; seqno = be16 bytes 2; age = be16 bytes 4 }

unfoldable pub decode_entries : ℕ → List ℕ → List Metadata
unfolding decode_entry
decode_entries zero bytes = []
decode_entries (suc n) bytes = decode_entry bytes ∷ decode_entries n (drop metadata_size bytes)

-- `num_entries` of a control message is an int8_t: a byte of 128 or more is below 0.
abbrev pub is_negative : ℕ → Bool
is_negative b = leb 128 b

-- The length over which the checksum runs, as a uint8_t; the number of entries `b` is an int8_t.
unfoldable pub control_length : ℕ → ℕ
control_length b =
    (if is_negative b
      then control_header + 2 * u8_mod * metadata_size - (u8_mod - b) * metadata_size
      else control_header + b * metadata_size)
    % u8_mod

unfoldable pub control_calculate_checksum : List ℕ → ℕ
unfolding control_length
control_calculate_checksum bytes =
    negate_sum (sum_bytes (take (control_length (get_or bytes 2 0)) bytes) % u16_mod)
      (get_or bytes 5 0)

unfoldable pub control_checksum_check : List ℕ → Bool
unfolding control_calculate_checksum
control_checksum_check bytes =
    control_calculate_checksum bytes == get_or bytes 5 0 || get_or bytes 5 0 == 0xff

abbrev pub control_summary : ℕ
control_summary = 0xcc

abbrev pub control_request : ℕ
control_request = 0xdd

-- The message as a summary; `beyond` is what lies in memory behind it.
unfoldable pub decode_summary : (ℕ → ℕ) → List ℕ → SummaryMsg
unfolding decode_entries
decode_summary beyond bytes =
    let b = get_or bytes 2 0 in
    record {
      sender = get_or bytes 1 0 * u8_mod + get_or bytes 0 0;
      want_all = is_negative b;
      entries = if is_negative b then [] else decode_entries b (drop control_header bytes);
      beyond = beyond;
    }

abbrev entry_pair : Metadata → MetaListEntry
entry_pair m = record { origin = m.origin; seqno = m.seqno }

unfoldable pub decode_request : List ℕ → List MetaListEntry
unfolding decode_entries
decode_request bytes =
    let b = get_or bytes 2 0 in
    if is_negative b then [] else map entry_pair (decode_entries b (drop control_header bytes))

-- The tests on the length of a control message.
unfoldable pub control_sized : List ℕ → Bool
control_sized bytes =
    let b = get_or bytes 2 0 in
    leb control_header (length bytes)
    && (is_negative b || length bytes == control_header + b * metadata_size)

-- trd_receive_control; `stray` is as in read_memory.
unfoldable pub trd_receive_control : Env → ℕ → (ℕ → ℕ) → List ℕ → Node → Run (Node × Bool)
unfolding control_sized control_checksum_check decode_summary decode_request
trd_receive_control e stray beyond bytes n =
    let kind = get_or bytes 3 0 in
    if not (control_sized bytes) || not (control_checksum_check bytes)
    then ok (n, false)
    else if kind == control_summary
    then (trd_state_summary_received e (decode_summary beyond bytes) n.state >>= λ s.
        ok (record n { state = s }, true))
    else if kind == control_request
    then (trd_state_request_received e stray (decode_request bytes) n.state >>= λ s.
        ok (record n { state = s }, true))
    else ok (n, true)

abbrev pub am_trd_msg : ℕ
am_trd_msg = 0x75

abbrev pub am_trd_control : ℕ
am_trd_control = 0x73

-- trd_receive on the type and the data of a TOS message.
unfoldable pub trd_receive : Env → ℕ → (ℕ → ℕ) → ℕ → List ℕ → Node → Run (Node × Bool)
unfolding trd_receive_msg trd_receive_control
trd_receive e stray beyond kind bytes n =
    if kind == am_trd_msg
    then trd_receive_msg e bytes n
    else if kind == am_trd_control
    then trd_receive_control e stray beyond bytes n
    else ok (n, false)
