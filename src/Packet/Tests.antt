-- ===== src/Packet/Tests.antt =====
-- Tests and instances for src/packet.rs.
use co_net_l0d.Base.{◌≡◌, refl, ◌↔◌, none, some, [], ◌∷◌, ◌++◌, replicate, contains, Bytes}
use co_net_l0d.Packet.{ipv4_dest, ipv4_l4_ports, overlay_channel_port, default_overlay_port_set}
use co_net_l0d.Packet.Channel.{IsChannel, overlay_channel_port_reply, overlay_channel_port_iff}

-- The header of the fixture `ipv4_tcp`.
abbrev tcp_header : Bytes
tcp_header =
    0x45 ∷ 0 ∷ 0 ∷ 40 ∷ 0 ∷ 0 ∷ 0 ∷ 0 ∷ 0 ∷ 6 ∷ 0 ∷ 0 ∷ 0 ∷ 0 ∷ 0 ∷ 0 ∷ 100 ∷ 64 ∷ 0 ∷ 6 ∷ []

abbrev outbound : Bytes
outbound = tcp_header ++ (0xe0 ∷ 0xfa ∷ 0x20 ∷ 0xd0 ∷ replicate 16 0)

abbrev returning : Bytes
returning = tcp_header ++ (0x20 ∷ 0xd0 ∷ 0xe0 ∷ 0xfa ∷ replicate 16 0)

fields :
    (ipv4_dest outbound ≡ some 1681915910)
    × (ipv4_l4_ports outbound ≡ some (57594, 8400))
    × (ipv4_l4_ports returning ≡ some (8400, 57594))
    × (overlay_channel_port outbound default_overlay_port_set ≡ some 8400)
    × (overlay_channel_port outbound (4200 ∷ []) ≡ none)
unfolding ipv4_dest ipv4_l4_ports overlay_channel_port
fields = (refl, refl, refl, refl, refl)

overlay_channel_port_reply_example :
    overlay_channel_port outbound default_overlay_port_set
    ≡ overlay_channel_port returning default_overlay_port_set
overlay_channel_port_reply_example =
    overlay_channel_port_reply outbound returning 57594 8400 default_overlay_port_set fields.1
      fields.2

overlay_channel_port_iff_example :
    (overlay_channel_port outbound default_overlay_port_set ≡ some 8400)
    ↔ IsChannel 57594 8400 (contains default_overlay_port_set) 8400
overlay_channel_port_iff_example =
    overlay_channel_port_iff outbound 57594 8400 8400 default_overlay_port_set fields.1
