-- ===== src/Transport/Packet/Frame.antt =====
-- Messages of the transport with their checksum (mote/lib/transport/tr_checksum.c), sent and read back.
use tenet_t.Prelude.{
  ℕ, ◌+◌, ◌-◌, ◌%◌, ◌<◌, ◌≡◌, refl, true, false, List, arith, ltb, ◌==◌, length, get_or, take,
  take_all, u16_mod, u8_mod, ok,
}
use tenet_t.Trd.Msg.{sum_bytes}
use tenet_t.Transport.Packet.{
  TransportMsg, tr_header, tr_encode, tr_decode, negated_sum, tr_calculate_checksum,
  tr_checksum_check, tr_frame,
}

pub record IsWellFormed (m : TransportMsg) : Type 0 where
  pub tid : m.tid < u16_mod
  pub seqno : m.seqno < u16_mod
  pub flag : m.flag < u8_mod
  pub checksum : m.checksum < u8_mod

pub tr_decode-encode : (m : TransportMsg) → IsWellFormed m → tr_decode (tr_encode m) ≡ m
unfolding tr_decode tr_encode
tr_decode-encode m w = ground arith

-- The bytes but the checksum's own.
abbrev pub covered : TransportMsg → ℕ
covered m = sum_bytes (tr_encode (record m { checksum = 0 }))

negated_sum-encode :
    (m : TransportMsg)
    → m.checksum < u8_mod
    → negated_sum (tr_encode m) (tr_header + length m.payload)
      ≡ (u8_mod - covered m % u8_mod) % u8_mod
unfolding tr_encode sum_bytes
negated_sum-encode m h =
    let whole : take (tr_header + length m.payload) (tr_encode m) ≡ tr_encode m =
      take_all (tr_header + length m.payload) (tr_encode m) (omega arith) in
    let sum : sum_bytes (tr_encode m) ≡ covered m + m.checksum = omega arith in
    rw (whole, sum) (omega arith)

calculate_checksum-encode :
    (m : TransportMsg) (len : ℕ)
    → len ≡ length m.payload
    → m.checksum < u8_mod
    → tr_header + length m.payload < u8_mod
    → tr_calculate_checksum (tr_encode m) len ≡ ok ((u8_mod - covered m % u8_mod) % u8_mod)
unfolding tr_calculate_checksum
calculate_checksum-encode m len e hc hl =
    let fits : ltb 255 (tr_header + length m.payload % u8_mod) ≡ false = ground arith in
    let size : length m.payload % u8_mod ≡ length m.payload = ground arith in
    rw (e, fits, size, negated_sum-encode m hc)

size_of : (m : TransportMsg) → length (tr_encode m) - tr_header ≡ length m.payload
unfolding tr_encode
size_of m = omega arith

own_of : (m : TransportMsg) → m.checksum < u8_mod → get_or (tr_encode m) 5 0 ≡ m.checksum
unfolding tr_encode
own_of m h = omega arith

checks :
    (m : TransportMsg)
    → m.checksum < u8_mod
    → tr_header + length m.payload < u8_mod
    → m.checksum ≡ (u8_mod - covered m % u8_mod) % u8_mod
    → tr_checksum_check (tr_encode m) (length (tr_encode m) - tr_header) ≡ ok true
unfolding tr_checksum_check
checks m hc hl e =
    let size : length (tr_encode m) - tr_header ≡ length m.payload = size_of m in
    let own : get_or (tr_encode m) 5 0 ≡ m.checksum = own_of m hc in
    let same : (m.checksum == m.checksum) ≡ true = ground arith in
    rw (calculate_checksum-encode m (length (tr_encode m) - tr_header) size hc hl, own, ← e, same)

-- A message of at most 249 bytes gets a checksum, with which its bytes pass tr_checksum_check and are
-- read back as the transaction, sequence number, flag and payload that were sent.
pub tr_frame_lem :
    (tid seqno flag : ℕ) (payload : List ℕ)
    → tid < u16_mod
    → seqno < u16_mod
    → flag < u8_mod
    → tr_header + length payload < u8_mod
    → (c : ℕ) × (let m : TransportMsg = record {
      tid = tid;
      seqno = seqno;
      flag = flag;
      checksum = c;
      payload = payload;
    } in
        (tr_frame tid seqno flag payload ≡ ok (tr_encode m))
        × ((tr_checksum_check (tr_encode m) (length (tr_encode m) - tr_header) ≡ ok true)
            × (tr_decode (tr_encode m) ≡ m)))
unfolding tr_frame
tr_frame_lem tid seqno flag payload ht hs hf hl =
    let m0 : TransportMsg = record {
      tid = tid;
      seqno = seqno;
      flag = flag;
      checksum = 0;
      payload = payload;
    } in
    let c = (u8_mod - covered m0 % u8_mod) % u8_mod in
    let m : TransportMsg = record {
      tid = tid;
      seqno = seqno;
      flag = flag;
      checksum = c;
      payload = payload;
    } in
    let small : c < u8_mod = omega arith in
    let built = calculate_checksum-encode m0 (length payload) refl (omega arith) hl in
    (
      c,
      (
        rw built,
        (
          checks m small hl refl,
          tr_decode-encode m (record { tid = ht; seqno = hs; flag = hf; checksum = small }),
        ),
      ),
    )

pub tr_frame_returns :
    (tid seqno flag : ℕ) (payload : List ℕ)
    → tr_header + length payload < u8_mod
    → (bytes : List ℕ) × (tr_frame tid seqno flag payload ≡ ok bytes)
unfolding tr_frame
tr_frame_returns tid seqno flag payload hl =
    let m0 : TransportMsg = record {
      tid = tid;
      seqno = seqno;
      flag = flag;
      checksum = 0;
      payload = payload;
    } in
    let c = (u8_mod - covered m0 % u8_mod) % u8_mod in
    (
      tr_encode (record m0 { checksum = c }),
      rw (calculate_checksum-encode m0 (length payload) refl (omega arith) hl),
    )
