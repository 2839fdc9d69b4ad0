-- ===== src/Outbound.antt =====
-- The way out of src/l0/client.rs: overlay packets are gathered into a batch for one peer and port, and
-- a batch goes into the occupied pipe of a duplex line or, where there is no line, to the post queue.
pub mod Prepare
pub mod Entries
pub mod Flush
pub mod Tests
use co_net_l0d.Base.{
  ℕ, suc, ◌+◌, ◌%◌, ◌^◌, Bool, true, false, not, ◌&&◌, ◌||◌, Option, none, some, List, [], ◌∷◌,
  ◌++◌, arith, ltb, leb, ◌==◌, ==_iff, if◌then◌else◌, is_some, length, concat, is_empty, ◌≡◌, ◌↔◌,
  Text, codes, starts_with, contains_char, trim, trim_end_by, Eq, get, nat_eq, Bytes,
}
use co_net_l0d.Frame
use co_net_l0d.Packet.{overlay_channel_port}
use co_net_l0d.Envelope.Json.{Codec, encode}
use co_net_l0d.Duplex.Session.{DuplexSession, Sessions, duplex_live_session, saturating_add}
use co_net_l0d.Duplex.Lines.{Queues, try_send}

-- A peer is found by its virtual address and port.
pub record PeerKey : Type 0 where
  pub dest : ℕ
  pub port : ℕ

abbrev peer_beq : PeerKey → PeerKey → Bool
peer_beq a b = a.dest == b.dest && a.port == b.port

pub peer_beq_iff : (a b : PeerKey) → (peer_beq a b ≡ true) ↔ (a ≡ b)
peer_beq_iff a b = ground arith

instance abbrev pub peer_key_eq : Eq PeerKey
peer_key_eq = record { beq = peer_beq; beq_iff = peer_beq_iff }

-- The two public certificates of a peer, in armor.
pub record PeerPgp : Type 0 where
  pub user : Text
  pub route : Text

pub record PendingOverlay : Type 0 where
  pub dest : ℕ
  pub port : ℕ
  pub packets : List Bytes
  pub bytes : ℕ

-- The fields of `L0Client` that the way out reads or writes. A text in a queue is its code points.
pub record Client : Type 0 where
  pub enabled : Bool
  pub noted_packets : ℕ
  pub known_ports : List ℕ
  pub pending : Option PendingOverlay
  pub seq : ℕ
  pub frames_ready : ℕ
  pub posts_prepared : ℕ
  pub posts_queued : ℕ
  pub posts_dropped : ℕ
  pub posts_refused : ℕ
  pub peers : List (PeerKey × PeerPgp)
  pub entries : List Text
  pub duplex : Sessions
  pub queues : Queues
  pub channel_eoa : List (ℕ × Text)
  pub routing_eoa : Text
  pub post_tx : Option ℕ

-- `BATCH_MAX_PACKETS`
abbrev pub batch_max_packets : ℕ
batch_max_packets = 16

-- `BATCH_MAX_BYTES`
abbrev pub batch_max_bytes : ℕ
batch_max_bytes = 12288

-- `post_url` of src/l0/post.rs
unfoldable pub post_url : Text → Option Text
post_url entry =
    let trimmed = trim_end_by (λ c. c == b'/') (trim entry) in
    if not (starts_with (codes "https://") trimmed || starts_with (codes "http://") trimmed)
    then none
    else if contains_char b'?' trimmed || contains_char b'#' trimmed
    then none
    else some (trimmed ++ codes "/post")

-- What the way out calls of the sealing code: `duplex::seal_frame` and `pgp::wrap_overlay_for_post`.
pub record Sealing : Type 0 where
  pub seal_frame : Text → Text → Bytes → Option Text
  pub wrap_overlay_for_post : Text → Text → Text → Option Text

-- `OverlayPostPlan`, with the queues after a frame was put into a pipe; `refused` is an error.
pub data OverlayPostPlan : Type 0 where
  occupied : Queues → OverlayPostPlan
  p1 : Text → Text → OverlayPostPlan
  suppressed : OverlayPostPlan
  refused : OverlayPostPlan
