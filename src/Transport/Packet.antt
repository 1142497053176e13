-- ===== src/Transport/Packet.antt =====
-- TransportMsg of mote/lib/transport/transport.h in bytes, with tr_packet.c and tr_checksum.c beside it.
pub mod Frame
use tenet_t.Prelude.{
  ℕ, ◌+◌, ◌-◌, ◌*◌, ◌%◌, Bool, ◌||◌, List, ◌∷◌, ltb, ◌==◌, if◌then◌else◌, get_or, take, drop,
  u8_mod, Fault, Run, ok, fault, ◌>>=◌, length,
}
use tenet_t.Trd.Msg.{high, low, sum_bytes}

pub record TransportMsg : Type 0 where
  pub tid : ℕ
  pub seqno : ℕ
  pub flag : ℕ
  pub checksum : ℕ
  pub payload : List ℕ

-- offsetof(TransportMsg, data).
abbrev pub tr_header : ℕ
tr_header = 6

-- The packed struct in memory, on the little-endian machines that the master runs on.
unfoldable pub tr_encode : TransportMsg → List ℕ
tr_encode m =
    low m.tid ∷ high m.tid ∷ low m.seqno ∷ high m.seqno ∷ low m.flag ∷ low m.checksum ∷ m.payload

-- The cast of a byte pointer to TransportMsg, with tr_packet_getTid and the other functions that read it.
unfoldable pub tr_decode : List ℕ → TransportMsg
tr_decode bytes = record {
  tid = get_or bytes 1 0 * u8_mod + get_or bytes 0 0;
  seqno = get_or bytes 3 0 * u8_mod + get_or bytes 2 0;
  flag = get_or bytes 4 0;
  checksum = get_or bytes 5 0;
  payload = drop tr_header bytes;
}

-- tr_packet_setHeader.
unfoldable pub tr_set_header : ℕ → ℕ → ℕ → ℕ → TransportMsg → TransportMsg
tr_set_header tid seqno flag checksum m = record m {
  tid = tid;
  seqno = seqno;
  flag = flag;
  checksum = checksum;
}

-- The sum of the bytes less the checksum's own, negated: all in a uint8_t.
abbrev pub negated_sum : List ℕ → ℕ → ℕ
negated_sum bytes n =
    let sum = sum_bytes (take n bytes) in
    (u8_mod - (sum + u8_mod - get_or bytes 5 0) % u8_mod) % u8_mod

-- `datalen` is a uint8_t, and the uint8_t index never reaches a bound above 255, so that the loop does
-- not end there.
unfoldable pub tr_calculate_checksum : List ℕ → ℕ → Run ℕ
tr_calculate_checksum bytes datalen =
    if ltb 255 (tr_header + datalen % u8_mod)
    then fault Fault.hang
    else ok (negated_sum bytes (tr_header + datalen % u8_mod))

-- `true` is the return value 1.
unfoldable pub tr_checksum_check : List ℕ → ℕ → Run Bool
unfolding tr_calculate_checksum
tr_checksum_check bytes len =
    tr_calculate_checksum bytes len >>= λ c. ok (c == get_or bytes 5 0 || get_or bytes 5 0 == 0xff)

-- A message with its header and checksum, as tr_packet_setHeader and tr_calculate_checksum fill it.
unfoldable pub tr_frame : ℕ → ℕ → ℕ → List ℕ → Run (List ℕ)
unfolding tr_calculate_checksum
tr_frame tid seqno flag payload =
    let m : TransportMsg = record {
      tid = tid;
      seqno = seqno;
      flag = flag;
      checksum = 0;
      payload = payload;
    } in
    tr_calculate_checksum (tr_encode m) (length payload) >>= λ c.
    ok (tr_encode (record m { checksum = c }))
