-- ===== src/Inbound/Delivery.antt =====
-- What reaches a stream or the TUN device.
use co_net_l0d.Base.{
  ℕ, ◌≤◌, ◌<◌, ◌^◌, ◌≡◌, refl, sym, ap, ◌∙◌, subst, inl, inr, Bool-cases, true, not, Option, none,
  some, if-true, if-false, List, [], ◌∷◌, ◌++◌, append_assoc, append-nil, arith, length, concat,
  All, Text, trim, text_key, Bytes,
}
use co_net_l0d.Frame
use co_net_l0d.Frame.RoundTrip.{decode-encode}
use co_net_l0d.Envelope.{looks_like_ipv4}
use co_net_l0d.Envelope.Split.{IsDatagram, looks_like_ipv4-datagram, split_ipv4_datagrams-concat}
use co_net_l0d.Duplex.Session.{DuplexSession, Sessions, saturating_add}
use co_net_l0d.Duplex.Lines.{has_id}
use co_net_l0d.Duplex.Lines.Room.{try_send-room}
use co_net_l0d.Duplex.Lines.First.{Replaced, Replaced-here, Replaced-later}
use co_net_l0d.Inbound.{
  Client, Outcome, ok, err, queue_packets, write_to, queue_split, queue_inbound_ipv4,
  return_attached, has_keyed, stream_of, framed, decoded_frame, handed, sent_on, written, deliver,
  apply_duplex_frame,
}

-- Exactly `raw` was put into the queue `tx` of a stream, behind what was sent before, and the first line of
-- the session, and no other line, is marked as heard from.
abbrev pub Delivered : Client → Text → ℕ → Bytes → Client × Outcome → Type 0
Delivered client session_id tx raw (after, outcome) =
    (outcome ≡ ok (length raw))
    × (after.queues.sent ≡ client.queues.sent ++ (tx, raw) ∷ [])
    × (s : DuplexSession) × Replaced session_id s (record s { peer_return_attached = true })
        client.host.duplex after.host.duplex

return_attached-Replaced :
    (session_id : Text) (m : Sessions)
    → has_keyed session_id m ≡ true
    → (s : DuplexSession) × Replaced session_id s
        (record s { peer_return_attached = true })
        m
        (return_attached session_id m)
unfolding return_attached
return_attached-Replaced session_id [] h = absurd (ground arith)
return_attached-Replaced session_id ((k, s) ∷ m) h = elim (Bool-cases (has_id session_id s)) [
  | inl own ↦ rw own (s, Replaced-here session_id k s _ m own)
  | inr other ↦
      let (t, later) = return_attached-Replaced session_id m (ground arith) in
      rw other (t, Replaced-later session_id k s t _ m _ other later)
]

-- A frame for a keyed session with an open stream whose queue has room is handed to that stream: exactly
-- its payload is put into the queue, and the first line of the session, and no other, is marked as heard
-- from.
pub apply_duplex_frame-delivers :
    (b64_decode : Text → Option Bytes) (client : Client) (session_id payload_b64 : Text)
    (seq tx : ℕ) (raw : Bytes)
    → has_keyed session_id client.host.duplex ≡ true
    → b64_decode (trim payload_b64) ≡ some (Frame.encode seq raw)
    → seq < 2 ^ 64
    → stream_of client session_id ≡ some tx
    → 1 ≤ client.queues.room tx
    → Delivered client session_id tx raw
        (apply_duplex_frame b64_decode client session_id payload_b64)
unfolding apply_duplex_frame framed decoded_frame deliver
apply_duplex_frame-delivers b64_decode client session_id payload_b64 seq tx raw keyed coded range
      stream room =
    let (queues, sent, more, _) = try_send-room tx raw client.queues room in
    let (line, attached) = return_attached-Replaced session_id client.host.duplex keyed in
    rw keyed (
      rw coded (
        rw (decode-encode seq raw range) (
          subst (λ o. Delivered client session_id tx raw (handed session_id (deliver client raw o)))
            (sym stream)
            (subst
              (λ o.
                Delivered client session_id tx raw
                  (handed session_id (sent_on client (length raw) o)))
              (sym sent) (refl, more, line, attached)))))

-- The packets as they stand in the queue of the TUN device.
abbrev pub queued : ℕ → List Bytes → List (ℕ × Bytes)
queued tun [] = []
queued tun (p ∷ ps) = (tun, p) ∷ queued tun ps

queue_packets-sent :
    (client : Client) (tun : ℕ) (packets : List Bytes)
    → client.tun_tx ≡ some tun
    → length packets ≤ client.queues.room tun
    → ((queue_packets client packets).queues.sent ≡ client.queues.sent ++ queued tun packets)
      × ((queue_packets client packets).inbound_dropped ≡ client.inbound_dropped)
      × ((queue_packets client packets).host ≡ client.host)
unfolding queue_packets write_to
queue_packets-sent client tun [] device room = (sym (append-nil client.queues.sent), refl, refl)
queue_packets-sent client tun (p ∷ ps) device room =
    let (queues, sent, more, left) = try_send-room tun p client.queues (omega arith) in
    let ready = record client { inbound_ready = saturating_add client.inbound_ready 1 } in
    let next = written ready (some queues) in
    let (puts, keeps, stays) = queue_packets-sent next tun ps device (omega (arith, left)) in
    let step = ap (write_to ready p) device ∙ ap (written ready) sent in
    let whole =
      puts
      ∙ ap (λ l. l ++ queued tun ps) more
      ∙ append_assoc client.queues.sent ((tun, p) ∷ []) (queued tun ps) in
    (
      ap (λ r. (queue_packets r ps).queues.sent) step ∙ whole,
      ap (λ r. (queue_packets r ps).inbound_dropped) step ∙ keeps,
      ap (λ r. (queue_packets r ps).host) step ∙ stays,
    )

-- A batch of whole datagrams for which the queue of the TUN device has room is written to it datagram by
-- datagram, in order, with none dropped.
pub queue_inbound_ipv4-writes :
    (client : Client) (tun : ℕ) (packet : Bytes) (packets : List Bytes)
    → client.tun_tx ≡ some tun
    → All IsDatagram (packet ∷ packets)
    → length (packet ∷ packets) ≤ client.queues.room tun
    → let r = queue_inbound_ipv4 client (concat (packet ∷ packets)) in
      (r.1 ≡ ok (length (concat (packet ∷ packets))))
      × (r.0.queues.sent ≡ client.queues.sent ++ queued tun (packet ∷ packets))
      × (r.0.inbound_dropped ≡ client.inbound_dropped)
unfolding queue_inbound_ipv4 queue_split
queue_inbound_ipv4-writes client tun packet packets device datagrams room =
    let split =
      ap (queue_split client (length (concat (packet ∷ packets))))
        (split_ipv4_datagrams-concat packet packets datagrams) in
    let (puts, keeps, _) = queue_packets-sent client tun (packet ∷ packets) device room in
    (
      ap (λ r. r.1) split,
      ap (λ r. r.0.queues.sent) split ∙ puts,
      ap (λ r. r.0.inbound_dropped) split ∙ keeps,
    )

-- A frame of whole datagrams for a keyed session without a stream goes to the TUN device.
pub apply_duplex_frame-writes :
    (b64_decode : Text → Option Bytes) (client : Client) (session_id payload_b64 : Text)
    (seq tun : ℕ) (packet : Bytes) (packets : List Bytes)
    → has_keyed session_id client.host.duplex ≡ true
    → b64_decode (trim payload_b64) ≡ some (Frame.encode seq (concat (packet ∷ packets)))
    → seq < 2 ^ 64
    → stream_of client session_id ≡ none
    → client.tun_tx ≡ some tun
    → All IsDatagram (packet ∷ packets)
    → length (packet ∷ packets) ≤ client.queues.room tun
    → let r = apply_duplex_frame b64_decode client session_id payload_b64 in
      (r.1 ≡ ok (length (concat (packet ∷ packets))))
      × (r.0.queues.sent ≡ client.queues.sent ++ queued tun (packet ∷ packets))
      × (r.0.inbound_dropped ≡ client.inbound_dropped)
unfolding apply_duplex_frame framed decoded_frame deliver
apply_duplex_frame-writes b64_decode client session_id payload_b64 seq tun packet packets keyed
      coded range stream device datagrams room =
    let whole = concat (packet ∷ packets) in
    let (done, puts, keeps) =
      queue_inbound_ipv4-writes client tun packet packets device datagrams room in
    let ip = looks_like_ipv4-datagram packet (concat packets) datagrams.0 in
    let taken =
      if-false (not (has_keyed session_id client.host.duplex)) _ _ (ap not keyed)
      ∙ ap (framed client session_id) coded
      ∙ ap (decoded_frame client session_id) (decode-encode seq whole range)
      ∙ ap (λ o. handed session_id (deliver client whole o)) stream
      ∙ ap (handed session_id) (if-true (looks_like_ipv4 whole) _ _ ip) in
    let (same, sent, dropped) = handed_ok session_id (queue_inbound_ipv4 client whole) _ done in
    (
      ap (λ r. r.1) taken ∙ same,
      ap (λ r. r.0.queues.sent) taken ∙ sent ∙ puts,
      ap (λ r. r.0.inbound_dropped) taken ∙ dropped ∙ keeps,
    )
  where
    handed_ok :
        (id : Text) (r : Client × Outcome) (n : ℕ)
        → r.1 ≡ ok n
        → ((handed id r).1 ≡ ok n)
          × ((handed id r).0.queues.sent ≡ r.0.queues.sent)
          × ((handed id r).0.inbound_dropped ≡ r.0.inbound_dropped)
    handed_ok id (c, ok m) n h = (h, refl, refl)
    handed_ok id (c, err) n h = (h, refl, refl)
