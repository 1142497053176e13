-- ===== src/Trd/Msg/Check.antt =====
-- Reading back what was written, and what the checksum of mote/lib/trd/trd_checksum.c detects.
use tenet_t.Prelude.{
  ℕ, ◌+◌, ◌-◌, ◌%◌, ◌<◌, ◌≡◌, ap, ◌∙◌, ◌↔◌, ◌⊎◌, inl, true, arith, length, take, take_all, u16_mod,
  u8_mod,
}
use tenet_t.Trd.Msg.{
  TrdMsg, header_length, encode, decode, sum_bytes, calculate_checksum, checksum_check,
  set_checksum,
}

-- The fields are in the range of their C types, and `length` is that of the payload.
pub record IsWellFormed (m : TrdMsg) : Type 0 where
  pub origin : m.metadata.origin < u16_mod
  pub seqno : m.metadata.seqno < u16_mod
  pub age : m.metadata.age < u16_mod
  pub sender : m.sender < u16_mod
  pub checksum : m.checksum < u8_mod
  pub sized : m.length ≡ length m.payload
  pub fits : m.length < u8_mod - header_length

-- A well-formed message is read back from its bytes as it was.
decode-encode : (m : TrdMsg) → IsWellFormed m → decode (encode m) ≡ m
unfolding decode encode
decode-encode m w = ground (arith, take_all (m.length % u8_mod) m.payload)

-- The sum of the bytes that the checksum covers, its own byte left out.
abbrev covered : TrdMsg → ℕ
covered m = sum_bytes (encode (record m { checksum = 0 }))

sum-encode : (m : TrdMsg) → m.checksum < u8_mod → sum_bytes (encode m) ≡ covered m + m.checksum
unfolding sum_bytes encode
sum-encode m h = omega arith

all_bytes :
    (m : TrdMsg) → IsWellFormed m → take ((header_length + m.length) % u8_mod) (encode m) ≡ encode m
unfolding encode
all_bytes m w =
    take_all ((header_length + m.length) % u8_mod) (encode m) (omega (arith, w.sized, w.fits))

calculate-covered :
    (m : TrdMsg)
    → IsWellFormed m
    → (calculate_checksum m < u8_mod) × ((covered m + calculate_checksum m) % u8_mod ≡ 0)
unfolding calculate_checksum
calculate-covered m w =
    let e : sum_bytes (encode m) ≡ covered m + m.checksum = sum-encode m w.checksum in
    rw (all_bytes m w, e) (omega (arith, w.checksum), omega (arith, w.checksum))

-- A well-formed message passes the check exactly when all its bytes add up to 0 modulo 256, or the
-- checksum field is 0xff.
checksum_check_lem :
    (m : TrdMsg)
    → IsWellFormed m
    → (checksum_check m ≡ true) ↔ ((sum_bytes (encode m) % u8_mod ≡ 0) ⊎ (m.checksum ≡ 0xff))
unfolding checksum_check calculate_checksum
checksum_check_lem m w = rw (all_bytes m w) (
  ground (arith, sum-encode m w.checksum, w.checksum),
  ground (arith, sum-encode m w.checksum, w.checksum),
)

with_checksum :
    (m : TrdMsg) (c : ℕ) → IsWellFormed m → c < u8_mod → IsWellFormed (record m { checksum = c })
with_checksum m c w h = record {
  origin = w.origin;
  seqno = w.seqno;
  age = w.age;
  sender = w.sender;
  checksum = h;
  sized = w.sized;
  fits = w.fits;
}

-- On a well-formed message the checksum that a sender sets is a byte, and the message passes the
-- check.
set_checksum_lem :
    (m : TrdMsg)
    → IsWellFormed m
    → ((set_checksum m).checksum < u8_mod) × (checksum_check (set_checksum m) ≡ true)
unfolding set_checksum
set_checksum_lem m w =
    let m0 : TrdMsg = record m { checksum = 0 } in
    let w0 : IsWellFormed m0 = with_checksum m 0 w (omega arith) in
    let c = calculate-covered m0 w0 in
    let m1 : TrdMsg = record m { checksum = calculate_checksum m0 } in
    let w1 : IsWellFormed m1 = with_checksum m (calculate_checksum m0) w c.0 in
    (c.0, (checksum_check_lem m1 w1).1 (inl (ap (λ (k : ℕ). k % u8_mod) (sum-encode m1 c.0) ∙ c.1)))
