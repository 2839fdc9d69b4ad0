-- ===== src/Outbound/Flush/Batch.antt =====
-- The batch that waits in the client.
use co_net_l0d.Base.{
  ℕ, ◌+◌, ◌≡◌, refl, sym, ap, ◌∙◌, subst, inl, inr, Bool, true, false, not, ◌||◌, Option, none,
  some, List, [], ◌∷◌, ◌++◌, arith, if◌then◌else◌, Bool-cases, Option-cases, length, length-append,
  concat, is_empty, All, Text, Bytes,
}
use co_net_l0d.Packet.{overlay_channel_port}
use co_net_l0d.Envelope.Json.{Codec}
use co_net_l0d.Duplex.Lines.{try_send}
use co_net_l0d.Outbound.{
  PendingOverlay, Client, Sealing, OverlayPostPlan, occupied, p1, suppressed, refused,
}
use co_net_l0d.Outbound.Flush.{
  enqueue_post, carry_out, take_pending, next_seq, other_peer, batch_for, add_packet, is_full,
  flush_batch, flush_taken, flush_pending_overlay, push_packet, note_on_port, note_overlay_packet,
}

-- A batch that waits: it holds a packet, it is within both limits, its size is counted exactly, and
-- every packet belongs to its port.
pub record IsBatch (ports : List ℕ) (p : PendingOverlay) : Type 0 where
  pub nonempty : is_empty p.packets ≡ false
  pub within : is_full p ≡ false
  pub counted : p.bytes ≡ length (concat p.packets)
  pub of_port : All (λ (packet : Bytes). overlay_channel_port packet ports ≡ some p.port) p.packets

abbrev pub IsWaiting : List ℕ → Option PendingOverlay → Type 0
IsWaiting ports none = Unit {0}
IsWaiting ports (some p) = IsBatch ports p

-- The same ports, and the batch of the first.
abbrev Kept : Client → Client → Type 0
Kept a b = (b.known_ports ≡ a.known_ports) × (b.pending ≡ a.pending)

enqueue_post-Kept :
    (client : Client) (armor : Text) (o : Option ℕ) → Kept client (enqueue_post client armor o)
unfolding enqueue_post
enqueue_post-Kept client armor none = (refl, refl)
enqueue_post-Kept client armor (some tx) = elim (Option-cases (try_send tx armor client.queues)) [
  | inl full ↦ rw (full, enqueue_post) (refl, refl)
  | inr (q, sent) ↦ rw (sent, enqueue_post) (refl, refl)
]

carry_out-Kept :
    (client : Client) (n : ℕ) (plan : OverlayPostPlan) → Kept client (carry_out client n plan)
unfolding carry_out
carry_out-Kept client n (occupied queues) = (refl, refl)
carry_out-Kept client n (p1 url armor) = enqueue_post-Kept _ armor client.post_tx
carry_out-Kept client n suppressed = (refl, refl)
carry_out-Kept client n refused = (refl, refl)

module _ (c : Codec) (sealing : Sealing) where
  flush_batch-Kept :
      (client : Client) (p : PendingOverlay) → Kept client (flush_batch c sealing client p)
  unfolding flush_batch
  flush_batch-Kept client p = elim (Bool-cases (is_empty p.packets)) [
    | inl e ↦ rw e (refl, refl)
    | inr e ↦ rw e (carry_out-Kept (next_seq client) (length p.packets) _)
  ]

  -- After a flush no batch waits.
  flush_taken-none :
      (client : Client) (o : Option PendingOverlay)
      → client.pending ≡ o
      → ((flush_taken c sealing client o).known_ports ≡ client.known_ports)
        × ((flush_taken c sealing client o).pending ≡ none)
  unfolding flush_taken
  flush_taken-none client none e = (refl, e)
  flush_taken-none client (some p) e = flush_batch-Kept (take_pending client) p

  flush_pending_overlay-none :
      (client : Client)
      → ((flush_pending_overlay c sealing client).known_ports ≡ client.known_ports)
        × ((flush_pending_overlay c sealing client).pending ≡ none)
  unfolding flush_pending_overlay
  flush_pending_overlay-none client = flush_taken-none client client.pending refl

  length-concat-snoc :
      (ps : List Bytes) (p : Bytes) → length (concat (ps ++ p ∷ [])) ≡ length (concat ps) + length p
  length-concat-snoc [] p = let one = length-append p [] in ground arith
  length-concat-snoc (q ∷ ps) p =
      let here = length-append q (concat ps) in
      let there = length-append q (concat (ps ++ p ∷ [])) in
      omega (arith, length-concat-snoc ps p, here, there)

  is_empty-snoc : (ps : List Bytes) (p : Bytes) → is_empty (ps ++ p ∷ []) ≡ false
  is_empty-snoc [] p = refl
  is_empty-snoc (q ∷ ps) p = refl

  All-snoc :
      (P : Bytes → Type 0) (ps : List Bytes) (p : Bytes) → All P ps → P p → All P (ps ++ p ∷ [])
  All-snoc P [] p h x = (x, tt)
  All-snoc P (q ∷ ps) p (y, h) x = (y, All-snoc P ps p h x)

  add_packet-IsBatch :
      (ports : List ℕ) (packet : Bytes) (p : PendingOverlay)
      → overlay_channel_port packet ports ≡ some p.port
      → p.bytes ≡ length (concat p.packets)
      → All (λ (b : Bytes). overlay_channel_port b ports ≡ some p.port) p.packets
      → is_full (add_packet packet p) ≡ false
      → IsBatch ports (add_packet packet p)
  add_packet-IsBatch ports packet p here counted of_port within =
      let total = length-concat-snoc p.packets packet in
      record {
        nonempty = is_empty-snoc p.packets packet;
        within = within;
        counted = ground arith;
        of_port = All-snoc _ p.packets packet of_port here;
      }

  batch_for-fits :
      (ports : List ℕ) (dest port : ℕ) (o : Option PendingOverlay)
      → IsWaiting ports o
      → other_peer dest port o ≡ false
      → ((batch_for dest port o).bytes ≡ length (concat (batch_for dest port o).packets))
        × All
            (λ (b : Bytes). overlay_channel_port b ports ≡ some (batch_for dest port o).port)
            (batch_for dest port o).packets
        × ((batch_for dest port o).port ≡ port)
  batch_for-fits ports dest port none w e = (refl, tt, refl)
  batch_for-fits ports dest port (some p) w e = (w.counted, w.of_port, ground arith)

  -- The client waits as it should after `b` decided on a flush.
  abbrev Waits : Client → Type 0
  Waits client = IsWaiting client.known_ports client.pending

  flush-Waits : (client : Client) → Waits (flush_pending_overlay c sealing client)
  flush-Waits client =
      let (same, empty) = flush_pending_overlay-none client in
      subst (λ o. IsWaiting (flush_pending_overlay c sealing client).known_ports o) (sym empty) tt

  settle-Waits :
      (held : Client) (b : Bool)
      → (b ≡ false → Waits held)
      → Waits (if b then flush_pending_overlay c sealing held else held)
  settle-Waits held true h = flush-Waits held
  settle-Waits held false h = h refl

  push_packet-Waits :
      (client : Client) (dest port : ℕ) (packet : Bytes)
      → overlay_channel_port packet client.known_ports ≡ some port
      → Waits client
      → other_peer dest port client.pending ≡ false
      → Waits (push_packet c sealing client dest port packet)
  unfolding push_packet
  push_packet-Waits client dest port packet here waiting same =
      let (counted, of_port, its) =
        batch_for-fits client.known_ports dest port client.pending waiting same in
      let batch = batch_for dest port client.pending in
      settle-Waits _ (is_full (add_packet packet batch)) (λ within.
        add_packet-IsBatch client.known_ports packet batch (here ∙ ap some (sym its)) counted
          of_port within)

  -- Where the batch is for another peer it is flushed first.
  make_room-Waits :
      (client : Client) (dest port : ℕ) (b : Bool)
      → other_peer dest port client.pending ≡ b
      → Waits client
      → ((if b then flush_pending_overlay c sealing client else client).known_ports
          ≡ client.known_ports)
        × Waits (if b then flush_pending_overlay c sealing client else client)
        × (other_peer dest port
              (if b then flush_pending_overlay c sealing client else client).pending
            ≡ false)
  make_room-Waits client dest port true e w =
      let (same, empty) = flush_pending_overlay-none client in
      (same, flush-Waits client, ap (other_peer dest port) empty)
  make_room-Waits client dest port false e w = (refl, w, e)

  note_on_port-Waits :
      (client : Client) (dest : ℕ) (packet : Bytes) (o : Option ℕ)
      → overlay_channel_port packet client.known_ports ≡ o
      → Waits client
      → Waits (note_on_port c sealing client dest packet o)
  unfolding note_on_port
  note_on_port-Waits client dest packet none e w = w
  note_on_port-Waits client dest packet (some port) e w =
      let (same, waits, free) =
        make_room-Waits client dest port (other_peer dest port client.pending) refl w in
      push_packet-Waits _ dest port packet (ap (overlay_channel_port packet) same ∙ e) waits free

  -- Between two packets the batch that waits, where there is one, is not empty, is under both limits,
  -- has its size counted exactly, and holds packets of its own port only; whatever packet is noted,
  -- this holds again after it.
  pub note_overlay_packet-IsWaiting :
      (client : Client) (dest : ℕ) (known : Bool) (packet : Bytes)
      → IsWaiting client.known_ports client.pending
      → IsWaiting
          (note_overlay_packet c sealing client dest known packet).known_ports
          (note_overlay_packet c sealing client dest known packet).pending
  unfolding note_overlay_packet
  note_overlay_packet-IsWaiting client dest known packet w =
      elim (Bool-cases (not client.enabled || not known)) [
        | inl off ↦ rw off w
        | inr on ↦ rw on (
            note_on_port-Waits _ dest packet (overlay_channel_port packet client.known_ports) refl
              w)
      ]
