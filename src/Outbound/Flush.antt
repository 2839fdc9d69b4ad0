-- ===== src/Outbound/Flush.antt =====
-- `note_overlay_packet`, `flush_pending_overlay` and `enqueue_post` of src/l0/client.rs.
pub mod Batch
pub mod Delivery
use co_net_l0d.Base.{
  ℕ, ◌+◌, ◌%◌, ◌^◌, Bool, true, false, not, ◌&&◌, ◌||◌, Option, none, some, List, [], ◌∷◌, ◌++◌,
  arith, leb, ◌==◌, if◌then◌else◌, length, concat, is_empty, Text, Bytes,
}
use co_net_l0d.Packet.{overlay_channel_port}
use co_net_l0d.Envelope.Json.{Codec}
use co_net_l0d.Duplex.Session.{saturating_add}
use co_net_l0d.Duplex.Lines.{Queues, try_send}
use co_net_l0d.Outbound.{
  PeerKey, PendingOverlay, Client, Sealing, OverlayPostPlan, occupied, p1, suppressed, refused,
  batch_max_packets, batch_max_bytes,
}
use co_net_l0d.Outbound.Prepare.{prepare_overlay_post}

abbrev post_into : Client → Option Queues → Client
post_into client none = record client { posts_dropped = saturating_add client.posts_dropped 1 }
post_into client (some queues) = record client {
  queues = queues;
  posts_queued = saturating_add client.posts_queued 1;
}

-- `enqueue_post`
enqueue_post : Client → Text → Option ℕ → Client
enqueue_post client armor none = client
enqueue_post client armor (some tx) = post_into client (try_send tx armor client.queues)

-- What a plan for a batch of `packet_count` packets does to the client.
carry_out : Client → ℕ → OverlayPostPlan → Client
unfolding enqueue_post
carry_out client packet_count (occupied queues) = record client {
  queues = queues;
  frames_ready = saturating_add client.frames_ready packet_count;
}
carry_out client packet_count (p1 url armor) =
    let counted = record client {
      frames_ready = saturating_add client.frames_ready packet_count;
      posts_prepared = saturating_add client.posts_prepared 1;
    } in
    enqueue_post counted armor client.post_tx
carry_out client packet_count suppressed = record client {
  posts_dropped = saturating_add client.posts_dropped 1;
}
carry_out client packet_count refused = record client {
  posts_refused = saturating_add client.posts_refused 1;
}

abbrev pub take_pending : Client → Client
take_pending client = record client { pending = none }

abbrev pub next_seq : Client → Client
next_seq client = record client { seq = saturating_add client.seq 1 }

abbrev pub to_peer : PendingOverlay → PeerKey
to_peer p = record { dest = p.dest; port = p.port }

-- The packet that a batch is waiting for is of another peer or port.
abbrev other_peer : ℕ → ℕ → Option PendingOverlay → Bool
other_peer dest port none = false
other_peer dest port (some p) = not (p.dest == dest) || not (p.port == port)

abbrev pub batch_for : ℕ → ℕ → Option PendingOverlay → PendingOverlay
batch_for dest port none = record { dest = dest; port = port; packets = []; bytes = 0 }
batch_for dest port (some p) = p

abbrev pub add_packet : Bytes → PendingOverlay → PendingOverlay
add_packet packet p = record p {
  packets = p.packets ++ packet ∷ [];
  bytes = saturating_add p.bytes (length packet);
}

abbrev pub is_full : PendingOverlay → Bool
is_full p = leb batch_max_packets (length p.packets) || leb batch_max_bytes p.bytes

module _ (c : Codec) (sealing : Sealing) where
  -- A batch that was taken out of the client.
  unfoldable pub flush_batch : Client → PendingOverlay → Client
  unfolding carry_out
  flush_batch client p =
      if is_empty p.packets
      then client
      else carry_out (next_seq client) (length p.packets) (
          prepare_overlay_post c sealing (next_seq client) (to_peer p) (concat p.packets)
            (next_seq client).seq)

  flush_taken : Client → Option PendingOverlay → Client
  flush_taken client none = client
  flush_taken client (some p) = flush_batch (take_pending client) p

  unfoldable pub flush_pending_overlay : Client → Client
  unfolding flush_taken
  flush_pending_overlay client = flush_taken client client.pending

  -- The packet goes into the batch, which is flushed when it is full.
  unfoldable pub push_packet : Client → ℕ → ℕ → Bytes → Client
  push_packet client dest port packet =
      let batch = add_packet packet (batch_for dest port client.pending) in
      let held = record client { pending = some batch } in
      if is_full batch then flush_pending_overlay held else held

  note_on_port : Client → ℕ → Bytes → Option ℕ → Client
  note_on_port client dest packet none = record client {
    posts_refused = saturating_add client.posts_refused 1;
  }
  note_on_port client dest packet (some port) =
      push_packet
        (if other_peer dest port client.pending then flush_pending_overlay client else client) dest
        port packet

  -- `known` is whether the peer table has a locator for `dest`.
  unfoldable pub note_overlay_packet : Client → ℕ → Bool → Bytes → Client
  unfolding note_on_port
  note_overlay_packet client dest known packet =
      let noted = record client { noted_packets = (client.noted_packets + 1) % 2 ^ 64 } in
      if not client.enabled || not known
      then noted
      else note_on_port noted dest packet (overlay_channel_port packet client.known_ports)
