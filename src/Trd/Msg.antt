-- ===== src/Trd/Msg.antt =====
-- TRD_Msg of mote/lib/trd/trd.h as the bytes that are stored and sent, and the checksum of
-- mote/lib/trd/trd_checksum.c, built with TRD_CHECKSUM.
pub mod Check
use tenet_t.Prelude.{
  ℕ, zero, suc, ◌+◌, ◌-◌, ◌*◌, ◌/◌, ◌%◌, Bool, true, false, ◌||◌, List, [], ◌∷◌, ◌++◌, ltb, leb,
  ◌==◌, if◌then◌else◌, length, get_or, take, drop, u8_mod, u16_mod,
}
use tenet_t.Trd.Table.{Metadata}

-- `length` is the length field; the bytes of the payload are `payload`.
pub record TrdMsg : Type 0 where
  pub metadata : Metadata
  pub sender : ℕ
  pub length : ℕ
  pub checksum : ℕ
  pub payload : List ℕ

abbrev pub header_length : ℕ
header_length = 10

-- The two bytes of a uint16_t, the high one first.
abbrev pub high : ℕ → ℕ
high x = x / u8_mod % u8_mod

abbrev pub low : ℕ → ℕ
low x = x % u8_mod

-- The packed struct in memory: the metadata in network order, the sender in little endian.
unfoldable pub encode : TrdMsg → List ℕ
encode m =
    high m.metadata.origin
    ∷ low m.metadata.origin
    ∷ high m.metadata.seqno
    ∷ low m.metadata.seqno
    ∷ high m.metadata.age
    ∷ low m.metadata.age
    ∷ low m.sender
    ∷ high m.sender
    ∷ low m.length
    ∷ low m.checksum
    ∷ m.payload

abbrev pub be16 : List ℕ → ℕ → ℕ
be16 bytes i = get_or bytes i 0 * u8_mod + get_or bytes (suc i) 0

-- The cast of a byte pointer to TRD_Msg.
unfoldable pub decode : List ℕ → TrdMsg
decode bytes = record {
  metadata = record { origin = be16 bytes 0; seqno = be16 bytes 2; age = be16 bytes 4 };
  sender = get_or bytes 7 0 * u8_mod + get_or bytes 6 0;
  length = get_or bytes 8 0;
  checksum = get_or bytes 9 0;
  payload = take (get_or bytes 8 0) (drop header_length bytes);
}

unfoldable pub sum_bytes : List ℕ → ℕ
sum_bytes [] = 0
sum_bytes (b ∷ bs) = b + sum_bytes bs

-- `checksum = ~(sum - msg->checksum) + 1` on a uint16_t, of which the low byte is returned.
unfoldable pub negate_sum : ℕ → ℕ → ℕ
negate_sum sum checksum = (u16_mod - (sum + u16_mod - checksum) % u16_mod) % u16_mod % u8_mod

unfoldable pub calculate_checksum : TrdMsg → ℕ
unfolding negate_sum sum_bytes encode
calculate_checksum m =
    negate_sum (sum_bytes (take ((header_length + m.length) % u8_mod) (encode m)) % u16_mod)
      m.checksum

-- `true` is the return value 1.
unfoldable pub checksum_check : TrdMsg → Bool
checksum_check m = calculate_checksum m == m.checksum || m.checksum == 0xff

-- What each sender does: clear the field, then set it.
unfoldable pub set_checksum : TrdMsg → TrdMsg
set_checksum m = record m { checksum = calculate_checksum (record m { checksum = 0 }) }
