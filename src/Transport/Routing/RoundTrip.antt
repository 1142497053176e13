-- ===== src/Transport/Routing/RoundTrip.antt =====
-- What write_routing_msg of master/transport/routinglayer.c sends, read_routing_msg reads.
use tenet_t.Prelude.{
  ℕ, ◌+◌, ◌%◌, ◌≤◌, ◌<◌, ◌≡◌, refl, inl, inr, false, none, some, List, ◌∷◌, arith, leb, ◌==◌,
  if◌then◌else◌, Bool-cases, length, u16_mod, u8_mod,
}
use tenet_t.Trd.Msg.{low, high}
use tenet_t.Transport.Routing.{
  am_tenet_routing, tos_default_group, send_tos_msg, downlink, write_routing_msg, read_routing_msg,
}

-- The largest message that a packet holds.
abbrev pub max_routed : ℕ
max_routed = 115

-- A message that is not empty, between 16-bit addresses, under a ttl of a byte and a protocol of a byte
-- that leaves the direction's bits free: it is read back with its addresses, ttl and protocol if it
-- has at most 115 bytes, and refused if it has more.
pub routing_round_trip :
    (here addr protocol ttl : ℕ) (msg : List ℕ)
    → (here < u16_mod) × (addr < u16_mod)
    → (ttl < u8_mod) × ((protocol < u8_mod) × (protocol % 4 ≡ 0))
    → 1 ≤ length msg
    → (bytes : List ℕ) × ((write_routing_msg here msg protocol addr ttl ≡ some bytes)
        × (read_routing_msg bytes ≡ (
            if leb (length msg) max_routed
            then some (record {
              src = here;
              dst = addr;
              prevhop = here;
              ttl = ttl;
              protocol = protocol + 2;
              payload = msg;
            })
            else none)))
unfolding write_routing_msg read_routing_msg
routing_round_trip here addr protocol ttl msg ha hp some_bytes =
    let empty : (length msg == 0) ≡ false = ground arith in
    let inner : List ℕ =
      low here
      ∷ high here
      ∷ low addr
      ∷ high addr
      ∷ low here
      ∷ high here
      ∷ low ttl
      ∷ low (downlink protocol)
      ∷ msg in
    let sent = send_tos_msg inner am_tenet_routing addr tos_default_group in
    (
      sent,
      (
        rw empty refl,
        elim (Bool-cases (leb (length msg) max_routed)) [
          | inl fits ↦ ground arith
          | inr large ↦ ground arith
        ],
      ),
    )
