-- ===== src/Trd/Fragment.antt =====
-- master/trd/trd_fragment.c: a packet larger than one TRD message is cut into fragments, which the
-- receiver joins again. Packets and payloads are lists of bytes.
pub mod RoundTrip
use tenet_t.Prelude.{
  ℕ, zero, suc, ◌+◌, ◌-◌, ◌%◌, not, Option, none, some, List, [], ◌++◌, ltb, ◌==◌, if◌then◌else◌,
  length, take, drop, u8_mod, u16_mod, Run, ok, fault, Fault,
}

-- Makerules sets it.
abbrev pub tosh_data_length : ℕ
tosh_data_length = 76

-- offsetof(TRD_FragmentMsg, data) and offsetof(TRD_Msg, data).
abbrev pub fragment_header : ℕ
fragment_header = 6

abbrev pub msg_header : ℕ
msg_header = 10

-- TRD_FragmentMsg of mote/lib/trd/trd_fragmentmsg.h, `tot_bytes` in host byte order.
pub record FragmentMsg : Type 0 where
  pub index : ℕ
  pub tot_fragment : ℕ
  pub length : ℕ
  pub pad : ℕ
  pub tot_bytes : ℕ
  pub data_bytes : List ℕ

abbrev pub max_len : ℕ
max_len = tosh_data_length - 6 - (fragment_header + msg_header)

-- `while (tmplen > maxlen) { tmplen -= maxlen; num_frag++; }`, on at most as many rounds as the first
-- argument: the length of the last fragment, and the number of fragments.
unfoldable pub count_fragments : ℕ → ℕ → ℕ → ℕ × ℕ
count_fragments zero tmplen num_frag = (tmplen, num_frag)
count_fragments (suc n) tmplen num_frag =
    let rest = count_fragments n (tmplen - max_len) (num_frag + 1) in
    if ltb max_len tmplen then rest else (tmplen, num_frag)

abbrev pub fragment : ℕ → ℕ → ℕ → List ℕ → FragmentMsg
fragment i num_frag totlen bytes = record {
  index = i % u8_mod;
  tot_fragment = num_frag % u8_mod;
  length = length bytes % u8_mod;
  pad = 0xAB;
  tot_bytes = totlen % u16_mod;
  data_bytes = bytes;
}

-- trd_send, which takes a fragment and returns its sequence number, is the caller's argument `send`
-- over its state; malloc succeeds.
module _ {ℓ} {S : Type ℓ} (send : FragmentMsg → S → S × ℕ) where
  -- The for loop, with `n` fragments to go from number `i` on and the bytes from `nextptr` on.
  unfoldable pub send_from : ℕ → ℕ → ℕ → ℕ → ℕ → List ℕ → S → Option ℕ → S × Option ℕ
  send_from zero i num_frag tmplen totlen bytes s seqno = (s, seqno)
  send_from (suc n) i num_frag tmplen totlen bytes s seqno =
      let thislen = if i == num_frag then tmplen else max_len in
      let (s', q) = send (fragment i num_frag totlen (take thislen bytes)) s in
      send_from n (i + 1) num_frag tmplen totlen (drop thislen bytes) s' (some q)

  -- `none` is a negative return value.
  unfoldable pub fragment_send : List ℕ → S → S × Option ℕ
  unfolding send_from
  fragment_send msg s =
      let (tmplen, num_frag) = count_fragments (length msg) (length msg) 1 in
      if length msg == 0
      then (s, none)
      else send_from num_frag 1 num_frag tmplen (length msg) msg s none

-- The reassembly state. `partial` is `m_fragmented_packet` up to `m_next_fragment_ptr`, the bytes
-- written so far of the m_tot_bytes that were allocated.
pub record Reassembly : Type 0 where
  pub partial : Option (List ℕ)
  pub tot_fragment : ℕ
  pub tot_bytes : ℕ

-- What receive_trd_fragment is called with: the sender, the length, and the bytes written. Where
-- these are fewer than `len`, the rest of the buffer was never written.
pub record Delivery : Type 0 where
  pub sender : ℕ
  pub len : ℕ
  pub bytes : List ℕ

unfoldable pub fragment_init : Reassembly
fragment_init = record { partial = none; tot_fragment = 0; tot_bytes = 0 }

-- memcpy to the end of the buffer. Past the bytes that were allocated it writes out of bounds.
abbrev pub append_bytes : Reassembly → List ℕ → List ℕ → Run Reassembly
append_bytes r old bytes =
    if ltb r.tot_bytes (length (old ++ bytes))
    then fault Fault.out_of_bounds
    else ok (record r { partial = some (old ++ bytes) })

abbrev pub accept : FragmentMsg → Reassembly → Run (Option Reassembly)
accept f r =
    if f.index == 1
    then elim (append_bytes (record r { tot_fragment = f.tot_fragment; tot_bytes = f.tot_bytes }) []
        f.data_bytes) [ ok r' ↦ ok (some r') | fault e ↦ fault e ]
    else elim r.partial [
      | none ↦ ok none
      | some old ↦ elim (append_bytes r old f.data_bytes) [
        | ok r' ↦ ok (some r')
        | fault e ↦ fault e
      ]
    ]

abbrev pub finish : ℕ → FragmentMsg → Reassembly → Reassembly × Option Delivery
finish sender f r =
    if f.tot_fragment == f.index
    then elim r.partial [
      | some bytes ↦ (
        fragment_init,
        some (record { sender = sender % u16_mod; len = r.tot_bytes; bytes = bytes }),
      )
      | none ↦ (r, none)
    ]
    else (r, none)

-- The message's payload is `f.data_bytes`, so `len` is its length.
unfoldable pub receive_trd : ℕ → FragmentMsg → Reassembly → Run (Reassembly × Option Delivery)
receive_trd sender f r =
    if not (length f.data_bytes == f.length) then ok (r, none) else elim (accept f r) [
      | fault e ↦ fault e
      | ok none ↦ ok (r, none)
      | ok (some r') ↦ ok (finish sender f r')
    ]
