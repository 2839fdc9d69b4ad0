-- ===== src/EndToEnd.antt =====
-- The two ends of a line together: the interfaces of the way out and the way in of src/l0/client.rs, filled
-- by the messages of src/l0/duplex.rs and src/l0/aes.rs, and what becomes of a batch between them.

mod Tests
use co_net_l0d.Base.{
  ℕ, ◌+◌, ◌≤◌, ◌<◌, ◌^◌, ◌≡◌, refl, sym, ap, subst, ◌∙◌, true, false, Bool, not, ◌||◌, Option, none,
  some, List, [], ◌∷◌, ◌++◌, arith, length, concat, All, Text, text_eq, text_eq_refl, trim, get,
  text_key, ◌>>=◌, >>=-eq-some, Bytes, IsBytes, from_utf8, is_some,
}
use co_net_l0d.Crates.{Serde, IsSerde, Base64, IsBase64, Aead, IsAead, Secp}
use co_net_l0d.Frame
use co_net_l0d.Frame.RoundTrip.{encode-IsBytes}
use co_net_l0d.Aes.{nonce_len, open_sealed, decode-trim}
use co_net_l0d.Envelope.{looks_like_ipv4}
use co_net_l0d.Envelope.Split.{IsDatagram}
use co_net_l0d.Duplex.Session.{DuplexSession}
use co_net_l0d.Duplex.Lines.{Queues, try_send}
use co_net_l0d.Envelope.Json.{Codec}
use co_net_l0d.Outbound
use co_net_l0d.Outbound.{Sealing}
use co_net_l0d.Outbound.Prepare.{Occupies}
use co_net_l0d.Outbound.Flush.{take_pending, next_seq, flush_pending_overlay}
use co_net_l0d.Outbound.Flush.Delivery.{flush_pending_overlay-delivers}
use co_net_l0d.Inbound.{
  ListenOwner, Client, Outcome, ok, return_attached, with_duplex, has_keyed, stream_of,
  apply_duplex_frame,
}
use co_net_l0d.Inbound.Dispatch.{Reader, apply_inbound_chunk}
use co_net_l0d.Inbound.Dispatch.Opened.{Listens, apply_inbound_chunk-opened}
use co_net_l0d.Inbound.Delivery.{
  Delivered, queued, apply_duplex_frame-delivers, apply_duplex_frame-writes,
}
use co_net_l0d.Message.Encode.{seal_frame}
use co_net_l0d.Message.Parse.{
  looks_like_aes_blob, parse_l0_occupied, parse_duplex_ping_json, parse_duplex_frame_json,
}
use co_net_l0d.Message.Signed.{
  parse_offer_from_inbound_plain, parse_accept_from_inbound_plain, parse_reject,
}
use co_net_l0d.Message.Blob.{seal_frame-found}

module _ (serde : Serde) (b64 : Base64) (aead : Aead) where
  -- The sealing of a frame by src/l0/duplex.rs, with the nonce that it draws; the wrapping of a post is
  -- OpenPGP.
  abbrev pub sealing_of : Bytes → (Text → Text → Text → Option Text) → Sealing
  sealing_of nonce wrap = record {
    seal_frame = λ key session_id framed. seal_frame serde b64 aead nonce key session_id framed;
    wrap_overlay_for_post = wrap;
  }

  -- The readers of src/l0/duplex.rs and src/l0/aes.rs; those of OpenPGP and of the overlay envelope are
  -- those of `rest`.
  abbrev pub reader_of : Secp → Reader → Reader
  reader_of secp rest = record rest {
    parse_l0_occupied = parse_l0_occupied serde;
    looks_like_aes_blob = looks_like_aes_blob b64;
    parse_duplex_frame_json = parse_duplex_frame_json serde;
    parse_duplex_ping_json = parse_duplex_ping_json serde;
    parse_accept_from_inbound_plain = parse_accept_from_inbound_plain serde b64 secp;
    parse_offer_from_inbound_plain = parse_offer_from_inbound_plain serde b64 secp;
    parse_reject_details = parse_reject serde b64;
    aes_open = open_sealed b64 aead;
    from_utf8 = from_utf8;
    b64_decode = b64.decode;
  }

module _ (serde : Serde) (b64 : Base64) (aead : Aead) (secp : Secp) (rest : Reader)
    (serde_laws : IsSerde serde) (b64_laws : IsBase64 b64) (aead_laws : IsAead aead) (now : ℕ)
    (generated : Option Text) where
  abbrev reader : Reader
  reader = reader_of serde b64 aead secp rest

  -- The blob of a sealed frame, on a stream that is bound to its session with the same key, is handled as
  -- that frame.
  apply_inbound_chunk-sealed :
      (client : Client) (owner session_id : Text) (nonce key framed : Bytes) (blob : Text)
      → Listens client owner session_id key
      → IsBytes nonce
      → length nonce ≡ nonce_len
      → seal_frame serde b64 aead nonce key session_id framed ≡ some blob
      → apply_inbound_chunk reader now generated client owner (some session_id) blob
        ≡ apply_duplex_frame b64.decode client session_id (b64.encode framed)
  apply_inbound_chunk-sealed client owner session_id nonce key framed blob listens bytes size
        sealed =
      let (json, bare, occupied, blobbed, opened, ping, frame) =
        seal_frame-found serde b64 serde_laws b64_laws aead aead_laws nonce key session_id framed
          blob bytes size sealed in
      let (plain, open_blob, utf8) = >>=-eq-some (open_sealed b64 aead key blob) from_utf8 opened in
      apply_inbound_chunk-opened reader now generated client owner session_id key blob json
        (b64.encode framed) plain listens (ap (parse_l0_occupied serde) bare ∙ occupied)
        (ap (looks_like_aes_blob b64) bare ∙ blobbed)
        (ap (open_sealed b64 aead key) bare ∙ open_blob) utf8 ping frame

  -- The bytes that were framed and sealed for a session reach the stream of that session, where the
  -- listener has a line of the same key on a stream bound to it, and the queue of the local or proxy stream
  -- has room: exactly those bytes are put into the queue, and the first line of the session, and no other,
  -- is marked as heard from.
  pub apply_inbound_chunk-streams :
      (client : Client) (owner session_id : Text) (nonce key raw : Bytes) (seq tx : ℕ) (blob : Text)
      → Listens client owner session_id key
      → IsBytes nonce
      → length nonce ≡ nonce_len
      → IsBytes raw
      → seq < 2 ^ 64
      → seal_frame serde b64 aead nonce key session_id (Frame.encode seq raw) ≡ some blob
      → has_keyed session_id client.host.duplex ≡ true
      → stream_of client session_id ≡ some tx
      → 1 ≤ client.queues.room tx
      → Delivered client session_id tx raw
          (apply_inbound_chunk reader now generated client owner (some session_id) blob)
  apply_inbound_chunk-streams client owner session_id nonce key raw seq tx blob listens bytes size
        whole range sealed keyed stream room =
      subst (Delivered client session_id tx raw)
        (sym (
          apply_inbound_chunk-sealed client owner session_id nonce key (Frame.encode seq raw) blob
            listens bytes size sealed))
        (apply_duplex_frame-delivers b64.decode client session_id
          (b64.encode (Frame.encode seq raw)) seq tx raw keyed
          (decode-trim b64 b64_laws (Frame.encode seq raw) (encode-IsBytes seq raw whole)) range
          stream room)

  -- A batch of whole datagrams that the sender flushes goes into the pipe of a line, and is written to the
  -- TUN device of the listener datagram by datagram, in order, none dropped. At the sender the keys of the
  -- peer are known, the first entry has a proper URL, the line chosen for the peer and port is not rejected
  -- and has a key and a pipe, the frame of the next sequence number, below 2^64, can be sealed, and the queue
  -- of the pipe has room; at the listener, which is enabled, the stream that brings the blob is bound to the
  -- session, the line has the same key, there is neither a local nor a proxy stream for the session, and a
  -- TUN device is attached with room in its queue for the whole batch.
  pub flush_pending_overlay-arrives :
      (c : Codec) (wrap : Text → Text → Text → Option Text) (sender : Outbound.Client)
      (dest port bytes : ℕ) (packet : Bytes) (packets : List Bytes) (sess : DuplexSession)
      (nonce key : Bytes) (tx : ℕ) (blob : Text) (client : Client) (owner : Text) (tun : ℕ)
      → sender.pending
        ≡ some (record { dest = dest; port = port; packets = packet ∷ packets; bytes = bytes })
      → All IsDatagram (packet ∷ packets)
      → IsBytes (concat (packet ∷ packets))
      → sender.seq + 1 < 2 ^ 64
      → IsBytes nonce
      → length nonce ≡ nonce_len
      → Occupies c
          (sealing_of serde b64 aead nonce wrap)
          (next_seq (take_pending sender))
          (record { dest = dest; port = port })
          sess
          key
          tx
      → seal_frame serde b64 aead nonce key sess.session_id
          (Frame.encode (sender.seq + 1) (concat (packet ∷ packets)))
        ≡ some blob
      → 1 ≤ sender.queues.room tx
      → Listens client owner sess.session_id key
      → has_keyed sess.session_id client.host.duplex ≡ true
      → stream_of client sess.session_id ≡ none
      → client.tun_tx ≡ some tun
      → length (packet ∷ packets) ≤ client.queues.room tun
      → let out = flush_pending_overlay c (sealing_of serde b64 aead nonce wrap) sender in
        let r = apply_inbound_chunk reader now generated client owner (some sess.session_id) blob in
        (out.queues.sent ≡ sender.queues.sent ++ (tx, blob) ∷ [])
        × (out.posts_dropped ≡ sender.posts_dropped)
        × (r.1 ≡ ok (length (concat (packet ∷ packets))))
        × (r.0.queues.sent ≡ client.queues.sent ++ queued tun (packet ∷ packets))
        × (r.0.inbound_dropped ≡ client.inbound_dropped)
  flush_pending_overlay-arrives c wrap sender dest port bytes packet packets sess nonce key tx blob
        client owner tun waiting datagrams whole range drawn size line sealed free listens keyed
        stream device room =
      let framed = Frame.encode (sender.seq + 1) (concat (packet ∷ packets)) in
      let (puts, keeps, _, _) =
        flush_pending_overlay-delivers c (sealing_of serde b64 aead nonce wrap) sender dest port
          bytes packet packets sess key tx blob waiting datagrams range line sealed free in
      let arrives =
        apply_inbound_chunk-sealed client owner sess.session_id nonce key framed blob listens drawn
          size sealed in
      let (done, written, none_dropped) =
        apply_duplex_frame-writes b64.decode client sess.session_id (b64.encode framed)
          (sender.seq + 1) tun packet packets keyed
          (decode-trim b64 b64_laws framed (encode-IsBytes (sender.seq + 1) _ whole)) range stream
          device datagrams room in
      (
        puts,
        keeps,
        ap (λ r. r.1) arrives ∙ done,
        ap (λ r. r.0.queues.sent) arrives ∙ written,
        ap (λ r. r.0.inbound_dropped) arrives ∙ none_dropped,
      )
