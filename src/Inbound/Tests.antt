-- ===== src/Inbound/Tests.antt =====
-- Tests and instances for the way in.
use co_net_l0d.Base.{
  ℕ, ◌+◌, ◌<◌, ◌≡◌, refl, Bool, true, false, Option, none, some, List, [], ◌∷◌, ◌++◌, arith,
  if◌then◌else◌, ◌==◌, concat, length, Text, codes, get, modify, text_eq, trim, Bytes,
}
use co_net_l0d.Frame
use co_net_l0d.Envelope.Split.{IsDatagram}
use co_net_l0d.Duplex.Session.{DuplexSession, peer, duplex_key}
use co_net_l0d.Duplex.Lines.{Queues}
use co_net_l0d.Duplex.Lines.First.{Replaced}
use co_net_l0d.Duplex.Wire.{ProxyMode}
use co_net_l0d.Inbound.{Client, ok, err, apply_duplex_frame, queue_inbound_ipv4}
use co_net_l0d.Inbound.Delivery.{Delivered, apply_duplex_frame-delivers, queue_inbound_ipv4-writes}
use co_net_l0d.Inbound.Dispatch.{
  Reader, line_of, apply_inbound_chunk, apply_duplex_aes_blob_for_session,
}
use co_net_l0d.Inbound.Dispatch.Isolation.{
  Untouched, other_frame, apply_inbound_chunk-Unowned, apply_duplex_aes_blob-foreign,
}

abbrev live : DuplexSession
live = record {
  session_id = codes "s1";
  role = peer;
  created_at = 1000;
  key = some (codes "k1");
  dest = 5;
  port = 8400;
  peer_eoa = codes "friend";
  peer_attached = true;
  rejected = false;
  host_eoa = codes "main";
  peer_listen_user_pgp = none;
  peer_listen_route_pgp = none;
  peer_listen_wallet = none;
  peer_listen_mailbox_wallet = none;
  accept_identity = none;
  peer_return_attached = false;
  response_chunk_delivered = false;
  pipe_tx = some 7;
  pipe_gen = 1;
  pipe_connect_inflight = true;
  pipe_cancel = some 3;
}

abbrev no_mode : ℕ → Option ProxyMode
no_mode port = none

abbrev queues : Queues
queues = record { room = λ q. 4; sent = [] }

abbrev pub client : Client
client = record {
  enabled = true;
  host = record {
    duplex = (duplex_key 5 8400 (codes "s1"), live) ∷ [];
    raised = [];
    channel_wire = [];
    ready_identities = [];
    proxy_mode = no_mode;
  };
  queues = queues;
  local_streams = (codes "s1", 9) ∷ [];
  proxy_receivers = [];
  listen_owners =
      (codes "owner", record { session_id = some (codes "s1"); cancelled = false }) ∷ [];
  user_secrets = [];
  tun_tx = some 2;
  inbound_ready = 0;
  inbound_refused = 0;
  inbound_dropped = 0;
  tun_writes = 0;
  actions = [];
}

abbrev as_bytes : Text → Option Bytes
as_bytes t = some t

abbrev coded : Text
coded = codes "L0D1" ++ 1 ∷ 0 ∷ 0 ∷ 0 ∷ 0 ∷ 0 ∷ 0 ∷ 0 ∷ 6 ∷ 0x45 ∷ 1 ∷ 2 ∷ []

coded_frame : as_bytes (trim coded) ≡ some (Frame.encode 6 (0x45 ∷ 1 ∷ 2 ∷ []))
unfolding Frame.encode co_net_l0d.Base.be_bytes
coded_frame = refl

-- A payload that begins like an IPv4 header stays on its stream.
apply_duplex_frame-delivers_example :
    Delivered client
      (codes "s1")
      9
      (0x45 ∷ 1 ∷ 2 ∷ [])
      (apply_duplex_frame as_bytes client (codes "s1") coded)
unfolding get
apply_duplex_frame-delivers_example =
    apply_duplex_frame-delivers as_bytes client (codes "s1") coded 6 9 (0x45 ∷ 1 ∷ 2 ∷ []) refl
      coded_frame (ground arith) refl (ground arith)

-- `mini_ipv4`
abbrev mini : ℕ → Bytes
mini id = 0x45 ∷ 0 ∷ 0 ∷ 20 ∷ 0 ∷ 0 ∷ 0 ∷ 0 ∷ 0 ∷ 6 ∷ 0 ∷ 0 ∷ 0 ∷ 0 ∷ 0 ∷ 0 ∷ 0 ∷ 0 ∷ 0 ∷ id ∷ []

mini-IsDatagram : (id : ℕ) → IsDatagram (mini id)
mini-IsDatagram id = record { minimal = omega arith; version_four = refl; whole = refl }

queue_inbound_ipv4-writes_example :
    ((queue_inbound_ipv4 client (mini 1 ++ mini 2)).1 ≡ ok 40)
    × ((queue_inbound_ipv4 client (mini 1 ++ mini 2)).0.queues.sent
        ≡ (2, mini 1) ∷ (2, mini 2) ∷ [])
    × ((queue_inbound_ipv4 client (mini 1 ++ mini 2)).0.inbound_dropped ≡ 0)
queue_inbound_ipv4-writes_example =
    queue_inbound_ipv4-writes client 2 (mini 1) (mini 2 ∷ []) refl
      (mini-IsDatagram 1, (mini-IsDatagram 2, tt)) (ground arith)

-- A reader to which every text is an AES blob that opens to a frame of session `s2`.
abbrev reader : Reader
reader = record {
  parse_l0_occupied = λ t. false;
  looks_like_aes_blob = λ t. true;
  parse_duplex_frame_json = λ t. some (codes "s2", t);
  parse_duplex_ping_json = λ t. none;
  parse_accept_from_inbound_plain = λ t. none;
  parse_offer_from_inbound_plain = λ t. none;
  parse_reject_details = λ t. none;
  pkesk_recipient_key_ids = λ t. [];
  transport_key_id = λ t. none;
  inbound_plain_from_user_armor = λ t u. none;
  user_cert = λ t. t;
  aes_open = λ key t. some t;
  from_utf8 = λ b. some b;
  envelope_decode = λ t. none;
  b64_decode = as_bytes;
}

apply_inbound_chunk-Unowned_example :
    Untouched client (
      apply_inbound_chunk reader 1020 none client
        (codes "owner")
        (some (codes "s2"))
        (codes "blob"))
unfolding get
apply_inbound_chunk-Unowned_example =
    apply_inbound_chunk-Unowned reader 1020 none client (codes "owner") (some (codes "s2"))
      (codes "blob") refl refl refl

apply_duplex_aes_blob-foreign_example :
    let r = apply_duplex_aes_blob_for_session reader 1020 none client (codes "s1") (codes "blob") in
    (r.1 ≡ err)
    × (r.0.queues ≡ queues)
    × Replaced
        (codes "s1")
        live
        (record live {
          rejected = true;
          peer_attached = false;
          pipe_cancel = none;
          pipe_tx = none;
          pipe_connect_inflight = false;
        })
        client.host.duplex
        r.0.host.duplex
unfolding line_of
apply_duplex_aes_blob-foreign_example =
    apply_duplex_aes_blob-foreign reader 1020 none client (codes "s1") (codes "blob") live
      (codes "k1") refl refl
      (other_frame (codes "blob") (codes "blob") (codes "s2") (codes "blob") refl refl refl refl
        refl)
