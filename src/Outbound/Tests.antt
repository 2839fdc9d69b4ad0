-- ===== src/Outbound/Tests.antt =====
-- Tests and instances for the way out.
use co_net_l0d.Base.{
  ◌≡◌, ◌≢◌, refl, true, false, Option, none, some, List, [], ◌∷◌, ◌++◌, arith, replicate, get, Text,
  codes, Bytes,
}
use co_net_l0d.Frame
use co_net_l0d.Packet.{default_overlay_port_set}
use co_net_l0d.Envelope.{split_ipv4_datagrams}
use co_net_l0d.Envelope.Split.{IsDatagram}
use co_net_l0d.Envelope.Json.{OverlayEnvelope, Codec}
use co_net_l0d.Duplex.Session.{DuplexSession, peer, duplex_key, duplex_live_session}
use co_net_l0d.Duplex.Lines.{Queues}
use co_net_l0d.Outbound.{PeerKey, PendingOverlay, Client, Sealing, p1, post_url}
use co_net_l0d.Outbound.Entries.{
  Answer, accepted, failed, sent, send_via_entries, Decided, send_via_entries-Decided,
}
use co_net_l0d.Outbound.Prepare.{Occupies, prepare_overlay_post, prepare_overlay_post-private}
use co_net_l0d.Outbound.Flush.{take_pending, next_seq, flush_pending_overlay, note_overlay_packet}
use co_net_l0d.Outbound.Flush.Batch.{IsWaiting, note_overlay_packet-IsWaiting}
use co_net_l0d.Outbound.Flush.Delivery.{flush_pending_overlay-delivers}

-- Stand-ins for the libraries.
abbrev plain_json : OverlayEnvelope → Option Text
plain_json e = some e.ipv4

abbrev no_json : Text → Option OverlayEnvelope
no_json t = none

abbrev same_bytes : Bytes → Text
same_bytes b = b

abbrev some_bytes : Text → Option Bytes
some_bytes t = some t

abbrev pub codec : Codec
codec = record {
  to_string = plain_json;
  from_str = no_json;
  b64_encode = same_bytes;
  b64_decode = some_bytes;
}

abbrev seal_by_key : Text → Text → Bytes → Option Text
seal_by_key key session_id framed = some (key ++ framed)

abbrev pub wrap_plainly : Text → Text → Text → Option Text
wrap_plainly json user route = some json

abbrev sealing : Sealing
sealing = record { seal_frame = seal_by_key; wrap_overlay_for_post = wrap_plainly }

abbrev pub to : PeerKey
to = record { dest = 5; port = 8400 }

abbrev pub ready : DuplexSession
ready = record {
  session_id = codes "s1";
  role = peer;
  created_at = 1000;
  key = some (codes "k1");
  dest = 5;
  port = 8400;
  peer_eoa = codes "friend";
  peer_attached = true;
  rejected = false;
  host_eoa = codes "main";
  peer_listen_user_pgp = none;
  peer_listen_route_pgp = none;
  peer_listen_wallet = none;
  peer_listen_mailbox_wallet = none;
  accept_identity = none;
  peer_return_attached = false;
  response_chunk_delivered = false;
  pipe_tx = some 7;
  pipe_gen = 1;
  pipe_connect_inflight = true;
  pipe_cancel = some 3;
}

-- A TCP segment from port 57594 to port 8400.
abbrev pub segment : Bytes
segment =
    (0x45 ∷ 0 ∷ 0 ∷ 40 ∷ 0 ∷ 0 ∷ 0 ∷ 0 ∷ 0 ∷ 6 ∷ 0 ∷ 0 ∷ 0 ∷ 0 ∷ 0 ∷ 0 ∷ 100 ∷ 64 ∷ 0 ∷ 6 ∷ [])
    ++ (0xe0 ∷ 0xfa ∷ 0x20 ∷ 0xd0 ∷ replicate 16 0)

abbrev batch : PendingOverlay
batch = record { dest = 5; port = 8400; packets = segment ∷ segment ∷ []; bytes = 80 }

abbrev queues : Queues
queues = record { room = λ q. 4; sent = [] }

abbrev pub client : Client
client = record {
  enabled = true;
  noted_packets = 2;
  known_ports = default_overlay_port_set;
  pending = some batch;
  seq = 8;
  frames_ready = 0;
  posts_prepared = 0;
  posts_queued = 0;
  posts_dropped = 0;
  posts_refused = 0;
  peers = (to, record { user = codes "user"; route = codes "route" }) ∷ [];
  entries = codes "https://entry.example/" ∷ [];
  duplex = (duplex_key 5 8400 (codes "s1"), ready) ∷ [];
  queues = queues;
  channel_eoa = [];
  routing_eoa = codes "main";
  post_tx = none;
}

pub is_datagram : IsDatagram segment
is_datagram = record { minimal = ground arith; version_four = refl; whole = refl }

url : post_url (codes " https://entry.example/ ") ≡ some (codes "https://entry.example/post")
unfolding post_url
url = refl

live_line : duplex_live_session client.duplex 5 8400 ≡ some ready
unfolding duplex_live_session co_net_l0d.Duplex.Session.live_session_from
live_line = refl

occupies : Occupies codec sealing (next_seq (take_pending client)) to ready (codes "k1") 7
unfolding post_url get duplex_live_session co_net_l0d.Duplex.Session.live_session_from
occupies = record {
  keys = record { user = codes "user"; route = codes "route" };
  known = refl;
  entry = codes "https://entry.example/";
  others = [];
  entries = refl;
  url = codes "https://entry.example/post";
  posts = refl;
  live = refl;
  kept = refl;
  keyed = refl;
  piped = refl;
}

-- A line that still negotiates.
abbrev negotiating : Client
negotiating = record client {
  duplex = (duplex_key 5 8400 (codes "s1"), record ready { key = none; pipe_tx = none }) ∷ [];
}

negotiating_line :
    duplex_live_session negotiating.duplex 5 8400
    ≡ some (record ready { key = none; pipe_tx = none })
unfolding duplex_live_session co_net_l0d.Duplex.Session.live_session_from
negotiating_line = refl

prepare_overlay_post-private_example :
    prepare_overlay_post codec sealing negotiating to segment 9
    ≢ p1 (codes "https://entry.example/post") segment
prepare_overlay_post-private_example =
    prepare_overlay_post-private codec sealing negotiating to segment 9
      (record ready { key = none; pipe_tx = none }) negotiating_line refl
      (codes "https://entry.example/post") segment

flush_pending_overlay-delivers_example :
    ((flush_pending_overlay codec sealing client).queues.sent
      ≡ (7, codes "k1" ++ Frame.encode 9 (segment ++ segment)) ∷ [])
    × ((flush_pending_overlay codec sealing client).posts_dropped ≡ 0)
    × (Frame.decode (Frame.encode 9 (segment ++ segment)) ≡ Frame.ok 9 (segment ++ segment))
    × (split_ipv4_datagrams (segment ++ segment) ≡ some (segment ∷ segment ∷ []))
flush_pending_overlay-delivers_example =
    flush_pending_overlay-delivers codec sealing client 5 8400 80 segment (segment ∷ []) ready
      (codes "k1") 7 (codes "k1" ++ Frame.encode 9 (segment ++ segment)) refl
      (is_datagram, (is_datagram, tt)) (ground arith) occupies refl (ground arith)

-- The client before its first packet.
abbrev empty : Client
empty = record client { pending = none }

note_overlay_packet-IsWaiting_example :
    IsWaiting
      (note_overlay_packet codec sealing empty 5 true segment).known_ports
      (note_overlay_packet codec sealing empty 5 true segment).pending
note_overlay_packet-IsWaiting_example =
    note_overlay_packet-IsWaiting codec sealing empty 5 true segment tt

-- An improper entry, one that fails and one that accepts.
abbrev answers : List (Text × Answer)
answers =
    (codes "ftp://a", failed) ∷ (codes "https://b", failed) ∷ (codes "https://c", accepted 200) ∷ []

sent_to_third : send_via_entries answers ≡ sent 200 (codes "https://c")
unfolding send_via_entries post_url
sent_to_third = refl

send_via_entries-Decided_example : Decided answers (codes "https://c") (accepted 200)
send_via_entries-Decided_example =
    send_via_entries-Decided answers 200 (codes "https://c") sent_to_third
