-- ===== src/Outbound/Flush/Delivery.antt =====
-- What a peer reads from a batch that went into its pipe.
use co_net_l0d.Base.{
  ◌≤◌, ◌++◌, [], ℕ, ◌+◌, ◌<◌, ◌^◌, ◌≡◌, ap, ◌∙◌, some, List, ◌∷◌, arith, concat, All, Text, Bytes,
}
use co_net_l0d.Frame
use co_net_l0d.Frame.RoundTrip.{decode-encode}
use co_net_l0d.Envelope.{split_ipv4_datagrams}
use co_net_l0d.Envelope.Split.{IsDatagram, split_ipv4_datagrams-concat}
use co_net_l0d.Envelope.Json.{Codec}
use co_net_l0d.Duplex.Session.{DuplexSession, saturating_add}
use co_net_l0d.Duplex.Lines.Room.{try_send-room}
use co_net_l0d.Outbound.{Client, Sealing}
use co_net_l0d.Outbound.Prepare.{prepare_overlay_post, Occupies, prepare_overlay_post-occupied}
use co_net_l0d.Outbound.Flush.{
  carry_out, take_pending, next_seq, flush_batch, flush_taken, flush_pending_overlay,
}

module _ (c : Codec) (sealing : Sealing) where
  -- Where the batch that waits is of whole datagrams, the keys of its peer are known, the first entry has a
  -- proper URL, the line chosen for the peer and port is not rejected and has a key and a pipe, the frame of
  -- the next sequence number, below 2^64, can be sealed, and the queue of the pipe has room, a flush puts
  -- the sealed frame, and nothing else, into that queue and counts nothing as dropped. The frame is decoded
  -- to that sequence number and a payload that is split into the very packets.
  pub flush_pending_overlay-delivers :
      (client : Client) (dest port bytes : ℕ) (packet : Bytes) (packets : List Bytes)
      (sess : DuplexSession) (key : Text) (tx : ℕ) (blob : Text)
      → client.pending
        ≡ some (record { dest = dest; port = port; packets = packet ∷ packets; bytes = bytes })
      → All IsDatagram (packet ∷ packets)
      → client.seq + 1 < 2 ^ 64
      → Occupies c sealing
          (next_seq (take_pending client))
          (record { dest = dest; port = port })
          sess
          key
          tx
      → sealing.seal_frame key sess.session_id
          (Frame.encode (client.seq + 1) (concat (packet ∷ packets)))
        ≡ some blob
      → 1 ≤ client.queues.room tx
      → ((flush_pending_overlay c sealing client).queues.sent
          ≡ client.queues.sent ++ (tx, blob) ∷ [])
        × ((flush_pending_overlay c sealing client).posts_dropped ≡ client.posts_dropped)
        × (Frame.decode (Frame.encode (client.seq + 1) (concat (packet ∷ packets)))
            ≡ Frame.ok (client.seq + 1) (concat (packet ∷ packets)))
        × (split_ipv4_datagrams (concat (packet ∷ packets)) ≡ some (packet ∷ packets))
  unfolding flush_pending_overlay flush_taken flush_batch carry_out
  flush_pending_overlay-delivers client dest port bytes packet packets sess key tx blob waiting
        datagrams range line sealed room =
      let (queues, sent, more, _) = try_send-room tx blob client.queues room in
      let next : saturating_add client.seq 1 ≡ client.seq + 1 = omega arith in
      let plan =
        ap
          (prepare_overlay_post c sealing (next_seq (take_pending client))
            (record { dest = dest; port = port }) (concat (packet ∷ packets)))
          next
        ∙ prepare_overlay_post-occupied c sealing (next_seq (take_pending client))
            (record { dest = dest; port = port }) (concat (packet ∷ packets)) (client.seq + 1) sess
            key tx blob queues line sealed sent in
      let flushed =
        ap (flush_taken c sealing client) waiting
        ∙ ap (carry_out (next_seq (take_pending client)) _) plan in
      (
        ap (λ (r : Client). r.queues.sent) flushed ∙ more,
        ap (λ (r : Client). r.posts_dropped) flushed,
        decode-encode (client.seq + 1) (concat (packet ∷ packets)) range,
        split_ipv4_datagrams-concat packet packets datagrams,
      )
