-- ===== src/Inbound.antt =====
-- The way in of src/l0/client.rs: what the client keeps for the chunks of its listen streams, and how a
-- frame or a packet is handed on.
pub mod Dispatch
pub mod Delivery
pub mod Tests
use co_net_l0d.Base.{
  ℕ, Bool, true, false, not, ◌&&◌, ◌||◌, Option, none, some, List, [], ◌∷◌, ◌++◌, if◌then◌else◌,
  is_some, any, length, or_else, Text, trim, get, text_key, Bytes,
}
use co_net_l0d.Frame
use co_net_l0d.Envelope.{split_ipv4_datagrams, looks_like_ipv4}
use co_net_l0d.Duplex.Session.{DuplexSession, DuplexKey, Sessions, saturating_add}
use co_net_l0d.Duplex.Lines.{DuplexAccept, DuplexOffer, Queues, try_send, has_id}
use co_net_l0d.Duplex.Wire.{Host, OfferAction}

-- What the way in reads of an `OwnedListenSession` of src/l0/listen.rs.
pub record ListenOwner : Type 0 where
  pub session_id : Option Text
  pub cancelled : Bool

-- A secret certificate and the wallet it belongs to.
pub record UserSecret : Type 0 where
  pub cert : Text
  pub wallet : Option Text

-- The fields of `L0Client` that the way in reads or writes; `actions` is what offers started.
pub record Client : Type 0 where
  pub enabled : Bool
  pub host : Host
  pub queues : Queues
  pub local_streams : List (Text × ℕ)
  pub proxy_receivers : List (Text × ℕ)
  pub listen_owners : List (Text × ListenOwner)
  pub user_secrets : List UserSecret
  pub tun_tx : Option ℕ
  pub inbound_ready : ℕ
  pub inbound_refused : ℕ
  pub inbound_dropped : ℕ
  pub tun_writes : ℕ
  pub actions : List OfferAction

-- `Result<usize, L0dError>`
pub data Outcome : Type 0 where
  ok : ℕ → Outcome
  err : Outcome

abbrev pub refuse : Client → Client × Outcome
refuse client = (record client { inbound_refused = saturating_add client.inbound_refused 1 }, err)

abbrev written : Client → Option Queues → Client
written client none = record client { inbound_dropped = saturating_add client.inbound_dropped 1 }
written client (some queues) = record client {
  queues = queues;
  tun_writes = saturating_add client.tun_writes 1;
}

write_to : Client → Bytes → Option ℕ → Client
write_to client packet none = client
write_to client packet (some tun) = written client (try_send tun packet client.queues)

-- The loop of `queue_inbound_ipv4` over the packets.
unfoldable pub queue_packets : Client → List Bytes → Client
unfolding write_to
queue_packets client [] = client
queue_packets client (packet ∷ rest) =
    let ready = record client { inbound_ready = saturating_add client.inbound_ready 1 } in
    queue_packets (write_to ready packet client.tun_tx) rest

queue_split : Client → ℕ → Option (List Bytes) → Client × Outcome
queue_split client n none = (client, err)
queue_split client n (some packets) = (queue_packets client packets, ok n)

unfoldable pub queue_inbound_ipv4 : Client → Bytes → Client × Outcome
unfolding queue_split
queue_inbound_ipv4 client blob = queue_split client (length blob) (split_ipv4_datagrams blob)

-- The first line with the id, in the order of the walk, has heard from its peer.
unfoldable pub return_attached : Text → Sessions → Sessions
return_attached session_id [] = []
return_attached session_id ((k, s) ∷ rest) =
    if has_id session_id s
    then (k, record s { peer_return_attached = true }) ∷ rest
    else (k, s) ∷ return_attached session_id rest

abbrev pub with_duplex : Client → Sessions → Client
with_duplex client duplex = record client { host = record client.host { duplex = duplex } }

abbrev pub has_keyed : Text → Sessions → Bool
has_keyed session_id [] = false
has_keyed session_id ((k, s) ∷ rest) =
    (has_id session_id s && is_some s.key) || has_keyed session_id rest

-- The stream of a session: the local one, or else the proxy's.
abbrev pub stream_of : Client → Text → Option ℕ
stream_of client session_id =
    or_else (get session_id client.local_streams) (get session_id client.proxy_receivers)

-- A frame that was handed on.
abbrev handed : Text → Client × Outcome → Client × Outcome
handed session_id (client, err) = (client, err)
handed session_id (client, ok n) =
    (with_duplex client (return_attached session_id client.host.duplex), ok n)

abbrev sent_on : Client → ℕ → Option Queues → Client × Outcome
sent_on client n none = (client, err)
sent_on client n (some queues) = (record client { queues = queues }, ok n)

unfoldable pub deliver : Client → Bytes → Option ℕ → Client × Outcome
deliver client inbound (some tx) =
    sent_on client (length inbound) (try_send tx inbound client.queues)
deliver client inbound none =
    if looks_like_ipv4 inbound then queue_inbound_ipv4 client inbound else refuse client

decoded_frame : Client → Text → Frame.Decoded → Client × Outcome
unfolding deliver
decoded_frame client session_id (Frame.err e) = (client, err)
decoded_frame client session_id (Frame.ok seq payload) =
    handed session_id (deliver client payload (stream_of client session_id))

framed : Client → Text → Option Bytes → Client × Outcome
unfolding decoded_frame
framed client session_id none = (client, err)
framed client session_id (some bytes) = decoded_frame client session_id (Frame.decode bytes)

-- `apply_duplex_frame`; `b64_decode` is the base64 engine.
unfoldable pub apply_duplex_frame : (Text → Option Bytes) → Client → Text → Text → Client × Outcome
unfolding framed
apply_duplex_frame b64_decode client session_id payload_b64 =
    if not (has_keyed session_id client.host.duplex)
    then refuse client
    else framed client session_id (b64_decode (trim payload_b64))
