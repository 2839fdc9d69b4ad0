-- ===== src/Packet.antt =====
-- src/packet.rs: the fields of an IPv4 packet that the daemon reads, and the choice of the overlay
-- channel by a well-known port. A packet is its bytes; a port set is a list.
pub mod Channel
mod Tests
use co_net_l0d.Base.{
  ℕ, ◌+◌, ◌*◌, ◌/◌, ◌%◌, Bool, true, false, not, ◌&&◌, ◌||◌, Option, none, some, List, [], ◌∷◌, ltb,
  ◌==◌, if◌then◌else◌, length, get_or, contains, is_empty, Bytes,
}

abbrev pub overlay_geth_tcp : ℕ
overlay_geth_tcp = 8400

abbrev pub overlay_beacon_tcp : ℕ
overlay_beacon_tcp = 4200

abbrev pub overlay_beacon_udp : ℕ
overlay_beacon_udp = 4300

abbrev pub default_overlay_port_set : List ℕ
default_overlay_port_set = overlay_geth_tcp ∷ overlay_beacon_tcp ∷ overlay_beacon_udp ∷ []

-- A byte of the packet; every use is behind a test of the length.
abbrev pub at : Bytes → ℕ → ℕ
at packet i = get_or packet i 0

-- `u16::from_be_bytes` of two bytes
abbrev pub be16 : ℕ → ℕ → ℕ
be16 hi lo = hi * 256 + lo

-- An `Ipv4Addr` is its 32-bit value.
abbrev pub ipv4_addr : ℕ → ℕ → ℕ → ℕ → ℕ
ipv4_addr a b c d = ((a * 256 + b) * 256 + c) * 256 + d

-- `packet[0] >> 4`
abbrev pub version : Bytes → ℕ
version packet = at packet 0 / 16

unfoldable pub ipv4_dest : Bytes → Option ℕ
ipv4_dest packet =
    if ltb (length packet) 20
    then none
    else if not (version packet == 4)
    then none
    else some (ipv4_addr (at packet 16) (at packet 17) (at packet 18) (at packet 19))

-- `(packet[0] & 0x0f) * 4`
abbrev pub header_len : Bytes → ℕ
header_len packet = at packet 0 % 16 * 4

unfoldable pub ipv4_l4_ports : Bytes → Option (ℕ × ℕ)
ipv4_l4_ports packet =
    let ihl = header_len packet in
    let proto = at packet 9 in
    if ltb (length packet) 20 || not (version packet == 4)
    then none
    else if ltb ihl 20 || ltb (length packet) (ihl + 4)
    then none
    else if not (proto == 6) && not (proto == 17)
    then none
    else some (
      be16 (at packet ihl) (at packet (ihl + 1)),
      be16 (at packet (ihl + 2)) (at packet (ihl + 3)),
    )

-- The `match` on the two hits.
unfoldable pub choose_port : ℕ → ℕ → Bool → Bool → Option ℕ
choose_port sport dport true true = if not (sport == dport) then none else some sport
choose_port sport dport true false = some sport
choose_port sport dport false true = some dport
choose_port sport dport false false = none

unfoldable pub overlay_channel_port : Bytes → List ℕ → Option ℕ
unfolding choose_port
overlay_channel_port packet known = if is_empty known then none else elim (ipv4_l4_ports packet) [
  | none ↦ none
  | some (sport, dport) ↦ choose_port sport dport (contains known sport) (contains known dport)
]
