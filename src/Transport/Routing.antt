-- ===== src/Transport/Routing.antt =====
-- master/transport/routinglayer.c and send_TOS_Msg of master/include/tosmsg.c: messages in the headers of
-- the routing layer and of the link, in bytes.
pub mod RoundTrip
use tenet_t.Prelude.{
  ℕ, zero, suc, ◌+◌, ◌-◌, ◌*◌, ◌/◌, ◌%◌, ◌^◌, ◌≤◌, ◌<◌, min, Ordering, ◌≡◌, refl, sym, ap, ap₂, ◌∙◌,
  ◌≢◌, ◌↔◌, ◌⊎◌, inl, inr, Bool, true, false, not, ◌&&◌, ◌||◌, Option, none, some, List, [], ◌∷◌,
  ◌++◌, map, append-nil, append_assoc, arith, ltb, leb, ◌==◌, if◌then◌else◌, ltb→lt, lt→ltb, leb→le,
  ==_iff, Bool-cases, Option-cases, length, get_elem?, set, length-append, length-set, get_or, take,
  drop, replicate, take-append-drop, length-take, length-drop, length-replicate, length-map,
  take_all, u16_mod, u8_mod, Fault, Run, ok, fault, ◌>>=◌, All, All-append, All-set, All-take,
  All-get_or, All-replicate, All-mono, All-map, take-set_below, take-set_next, get_or-take,
  get_or-set_self, get_or-set_ne, take-set_above, set_outside, take-take, Run-cases,
}
use tenet_t.Trd.Msg.{low, high}

-- offsetof(TOS_Msg, data), with OLD_TOS_MSG_FORMAT of master/include/Makerules, and sizeof(RoutingHdr).
abbrev pub tos_header : ℕ
tos_header = 5

abbrev pub routing_header : ℕ
routing_header = 8

abbrev pub am_tenet_routing : ℕ
am_tenet_routing = 0x77

abbrev pub tos_default_group : ℕ
tos_default_group = 0x7d

-- The bytes that send_TOS_Msg hands to write_sf_packet.
unfoldable pub send_tos_msg : List ℕ → ℕ → ℕ → ℕ → List ℕ
send_tos_msg payload type addr group =
    low addr ∷ high addr ∷ low type ∷ low group ∷ length payload % u8_mod ∷ payload

-- `protocol | PROTOCOL_DOWNLINK_BIT`.
abbrev pub downlink : ℕ → ℕ
downlink protocol = if protocol / 2 % 2 == 0 then protocol + 2 else protocol

-- `protocol & PROTOCOL_MASK`, of a uint8_t.
abbrev pub protocol_of : ℕ → ℕ
protocol_of protocol = protocol - protocol % 4

-- The node's own address comes first. `none`: nothing is sent.
unfoldable pub write_routing_msg : ℕ → List ℕ → ℕ → ℕ → ℕ → Option (List ℕ)
unfolding send_tos_msg
write_routing_msg here msg protocol addr ttl =
    if length msg == 0
    then none
    else some (
        send_tos_msg
          (low here
            ∷ high here
            ∷ low addr
            ∷ high addr
            ∷ low here
            ∷ high here
            ∷ low ttl
            ∷ low (downlink protocol)
            ∷ msg)
          am_tenet_routing addr tos_default_group)

pub record RoutedMsg : Type 0 where
  pub src : ℕ
  pub dst : ℕ
  pub prevhop : ℕ
  pub ttl : ℕ
  pub protocol : ℕ
  pub payload : List ℕ

abbrev pub u16_at : List ℕ → ℕ → ℕ
u16_at bytes i = get_or bytes (i + 1) 0 * u8_mod + get_or bytes i 0

-- The type stands at the third byte of a TOS_Msg, the length at the fifth.
unfoldable pub tos_type : List ℕ → ℕ
tos_type bytes = get_or bytes 2 0

unfoldable pub routing_decode : List ℕ → RoutedMsg
routing_decode bytes = record {
  src = u16_at bytes 5;
  dst = u16_at bytes 7;
  prevhop = u16_at bytes 9;
  ttl = get_or bytes 11 0;
  protocol = get_or bytes 12 0;
  payload = drop (tos_header + routing_header) bytes;
}

-- A packet of a link's header at least. `none` is NULL.
unfoldable pub read_routing_msg : List ℕ → Option RoutedMsg
unfolding tos_type routing_decode
read_routing_msg bytes =
    let len = length bytes in
    let inner = get_or bytes 4 0 in
    if not (tos_type bytes == am_tenet_routing)
    then none
    else if not (len == tos_header + inner)
        || (ltb inner routing_header || (ltb 128 len || ltb len routing_header))
    then none
    else some (routing_decode bytes)
