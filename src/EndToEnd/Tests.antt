-- ===== src/EndToEnd/Tests.antt =====
-- Instances for the two ends of a line.
use co_net_l0d.Base.{
  ℕ, ◌+◌, ◌<◌, ◌≡◌, refl, true, false, Bool, Option, none, some, List, [], ◌∷◌, ◌++◌, arith,
  if◌then◌else◌, ◌==◌, concat, length, replicate, get, text_key, Text, codes, unwrap_or, Bytes,
  IsBytes,
}
use co_net_l0d.Crates.PlainSerde.{plain_serde, plain_serde-IsSerde}
use co_net_l0d.Crates.PlainSealing.{
  plain_base64, plain_base64-IsBase64, plain_aead, plain_aead-IsAead,
}
use co_net_l0d.Crates.PlainSecp.{plain_secp}
use co_net_l0d.Frame
use co_net_l0d.Duplex.Session.{duplex_live_session}
use co_net_l0d.Duplex.Lines.{try_send}
use co_net_l0d.Outbound
use co_net_l0d.Outbound.{post_url}
use co_net_l0d.Outbound.Prepare.{Occupies}
use co_net_l0d.Outbound.Flush.{take_pending, next_seq, flush_pending_overlay}
use co_net_l0d.Outbound.Tests.{codec, to, ready, segment, wrap_plainly, is_datagram}
use co_net_l0d.Inbound.{Client, ok, return_attached, with_duplex, stream_of}
use co_net_l0d.Inbound.Dispatch.{Reader, apply_inbound_chunk}
use co_net_l0d.Inbound.Dispatch.Opened.{Listens}
use co_net_l0d.Inbound.Delivery.{Delivered}
use co_net_l0d.Message.Encode.{seal_frame}
use co_net_l0d.EndToEnd.{
  sealing_of, reader_of, apply_inbound_chunk-streams, flush_pending_overlay-arrives,
}

abbrev sender : Outbound.Client
sender = co_net_l0d.Outbound.Tests.client

abbrev listener : Client
listener = co_net_l0d.Inbound.Tests.client

-- The same without a local stream.
abbrev device_listener : Client
device_listener = record listener { local_streams = [] }

abbrev no_text : Text → Option Text
no_text t = none

abbrev closed_reader : Reader
closed_reader = record {
  parse_l0_occupied = λ t. false;
  looks_like_aes_blob = λ t. false;
  parse_duplex_frame_json = λ t. none;
  parse_duplex_ping_json = no_text;
  parse_accept_from_inbound_plain = λ t. none;
  parse_offer_from_inbound_plain = λ t. none;
  parse_reject_details = no_text;
  pkesk_recipient_key_ids = λ t. [];
  transport_key_id = no_text;
  inbound_plain_from_user_armor = λ t u. none;
  user_cert = λ t. t;
  aes_open = λ t u. none;
  from_utf8 = λ t. none;
  envelope_decode = λ t. none;
  b64_decode = λ t. none;
}

abbrev key : Text
key = codes "k1"

abbrev nonce : Bytes
nonce = replicate 12 9

abbrev blob_of : Bytes → Text
blob_of framed =
    unwrap_or [] (seal_frame plain_serde plain_base64 plain_aead nonce key (codes "s1") framed)

abbrev raw : Bytes
raw = 0x45 ∷ 1 ∷ 2 ∷ []

listener-Listens : Listens listener (codes "owner") (codes "s1") key
unfolding get co_net_l0d.Inbound.Dispatch.line_of
listener-Listens = record {
  enabled = refl;
  own = record { session_id = some (codes "s1"); cancelled = false };
  owned = refl;
  bound = refl;
  line = _;
  found = refl;
  keyed = refl;
}

nonce-IsBytes : IsBytes nonce
nonce-IsBytes = ground arith

stream_sealed :
    seal_frame plain_serde plain_base64 plain_aead nonce key (codes "s1") (Frame.encode 6 raw)
    ≡ some (blob_of (Frame.encode 6 raw))
unfolding seal_frame co_net_l0d.Message.Encode.encode_frame_json co_net_l0d.Aes.seal
    co_net_l0d.Message.Encode.keyless Frame.encode co_net_l0d.Base.be_bytes co_net_l0d.Base.as_bytes
stream_sealed = refl

apply_inbound_chunk-streams_example : Delivered listener (codes "s1") 9 raw (
    apply_inbound_chunk
      (reader_of plain_serde plain_base64 plain_aead plain_secp closed_reader)
      1000
      none
      listener
      (codes "owner")
      (some (codes "s1"))
      (blob_of (Frame.encode 6 raw)))
unfolding get
apply_inbound_chunk-streams_example =
    apply_inbound_chunk-streams plain_serde plain_base64 plain_aead plain_secp closed_reader
      plain_serde-IsSerde plain_base64-IsBase64 plain_aead-IsAead 1000 none listener (codes "owner")
      (codes "s1") nonce key raw 6 9 (blob_of (Frame.encode 6 raw)) listener-Listens nonce-IsBytes
      refl (ground arith) (ground arith) stream_sealed refl refl (ground arith)

abbrev batch : Bytes
batch = Frame.encode 9 (segment ++ segment)

device_listener-Listens : Listens device_listener (codes "owner") (codes "s1") key
unfolding get co_net_l0d.Inbound.Dispatch.line_of
device_listener-Listens = record {
  enabled = refl;
  own = record { session_id = some (codes "s1"); cancelled = false };
  owned = refl;
  bound = refl;
  line = _;
  found = refl;
  keyed = refl;
}

batch_sealed :
    seal_frame plain_serde plain_base64 plain_aead nonce key (codes "s1") batch
    ≡ some (blob_of batch)
unfolding seal_frame co_net_l0d.Message.Encode.encode_frame_json co_net_l0d.Aes.seal
    co_net_l0d.Message.Encode.keyless Frame.encode co_net_l0d.Base.be_bytes co_net_l0d.Base.as_bytes
batch_sealed = refl

sender-Occupies :
    Occupies codec
      (sealing_of plain_serde plain_base64 plain_aead nonce wrap_plainly)
      (next_seq (take_pending sender))
      to
      ready
      key
      7
unfolding post_url get duplex_live_session co_net_l0d.Duplex.Session.live_session_from
sender-Occupies = record {
  keys = record { user = codes "user"; route = codes "route" };
  known = refl;
  entry = codes "https://entry.example/";
  others = [];
  entries = refl;
  url = codes "https://entry.example/post";
  posts = refl;
  live = refl;
  kept = refl;
  keyed = refl;
  piped = refl;
}

batch-IsBytes : IsBytes (segment ++ segment)
batch-IsBytes = ground arith

flush_pending_overlay-arrives_example :
    let out =
      flush_pending_overlay codec
        (sealing_of plain_serde plain_base64 plain_aead nonce wrap_plainly)
        sender in
    let r =
      apply_inbound_chunk
        (reader_of plain_serde plain_base64 plain_aead plain_secp closed_reader)
        1000
        none
        device_listener
        (codes "owner")
        (some (codes "s1"))
        (blob_of batch) in
    (out.queues.sent ≡ (7, blob_of batch) ∷ [])
    × (out.posts_dropped ≡ 0)
    × (r.1 ≡ ok 80)
    × (r.0.queues.sent ≡ (2, segment) ∷ (2, segment) ∷ [])
    × (r.0.inbound_dropped ≡ 0)
unfolding get try_send
flush_pending_overlay-arrives_example =
    flush_pending_overlay-arrives plain_serde plain_base64 plain_aead plain_secp closed_reader
      plain_serde-IsSerde plain_base64-IsBase64 plain_aead-IsAead 1000 none codec wrap_plainly
      sender 5 8400 80 segment (segment ∷ []) ready nonce key 7 (blob_of batch) device_listener
      (codes "owner") 2 refl (is_datagram, (is_datagram, tt)) batch-IsBytes (ground arith)
      nonce-IsBytes refl sender-Occupies batch_sealed (ground arith) device_listener-Listens refl
      refl refl (ground arith)
