-- ===== src/Inbound/Dispatch.antt =====
-- `apply_inbound_chunk`, `apply_decrypted_inbound_plain`, `apply_duplex_aes_blob_for_session` and
-- `apply_inbound_armor` of src/l0/client.rs: which handler a chunk of a listen stream reaches.
pub mod Isolation
pub mod Opened
use co_net_l0d.Base.{
  ℕ, Bool, true, false, not, ◌&&◌, Option, none, some, List, [], ◌∷◌, ◌++◌, if◌then◌else◌, any,
  is_empty, Text, text_eq, eq_ignore_case, trim, get, text_key, modify, Bytes,
}
use co_net_l0d.Envelope.{looks_like_ipv4}
use co_net_l0d.Duplex.Session.{DuplexSession, DuplexKey, Sessions}
use co_net_l0d.Duplex.Lines.{DuplexAccept, DuplexOffer, Queues, has_id, mark_duplex_rejected}
use co_net_l0d.Duplex.Accept.{apply_duplex_accept}
use co_net_l0d.Duplex.Offer.{apply_duplex_offer}
use co_net_l0d.Duplex.Wire.{Host, OfferAction}
use co_net_l0d.Inbound.{
  ListenOwner, UserSecret, Client, Outcome, ok, err, refuse, queue_inbound_ipv4, return_attached,
  with_duplex, apply_duplex_frame,
}

-- What the dispatch asks of the readers of messages: of src/l0/duplex.rs, the parsers; of src/l0/aes.rs,
-- `open`; of src/l0/pgp.rs and src/l0/listen.rs, the decryption of an armor and its recipients; of
-- src/l0/envelope.rs, `decode`. A certificate of a temporary identity is found by its wallet.
pub record Reader : Type 0 where
  pub parse_l0_occupied : Text → Bool
  pub looks_like_aes_blob : Text → Bool
  pub parse_duplex_frame_json : Text → Option (Text × Text)
  pub parse_duplex_ping_json : Text → Option Text
  pub parse_accept_from_inbound_plain : Text → Option DuplexAccept
  pub parse_offer_from_inbound_plain : Text → Option DuplexOffer
  pub parse_reject_details : Text → Option Text
  pub pkesk_recipient_key_ids : Text → List Text
  pub transport_key_id : Text → Option Text
  pub inbound_plain_from_user_armor : Text → Text → Option Text
  pub user_cert : Text → Text
  pub aes_open : Text → Text → Option Bytes
  pub from_utf8 : Bytes → Option Text
  pub envelope_decode : Text → Option Bytes
  pub b64_decode : Text → Option Bytes

-- `mark_duplex_rejected` on the client.
abbrev pub reject_line : Client → Text → Client
reject_line client session_id =
    let (duplex, raised) = mark_duplex_rejected session_id client.host.duplex client.host.raised in
    record client { host = record client.host { duplex = duplex; raised = raised } }

abbrev key_matches : Text → Option Text → List Text → Bool
key_matches cert none recipients = false
key_matches cert (some id) recipients = any (λ r. eq_ignore_case r id) recipients

-- The secrets of the temporary identities, in the order of the walk.
unfoldable pub temporary_secrets : (Text → Text) → Sessions → List UserSecret
temporary_secrets user_cert [] = []
temporary_secrets user_cert ((k, s) ∷ rest) = elim s.accept_identity [
  | none ↦ temporary_secrets user_cert rest
  | some wallet ↦
      record { cert = user_cert wallet; wallet = some wallet } ∷ temporary_secrets user_cert rest
]

-- `find` over the lines, for the id of a session.
unfoldable pub line_of : Text → Sessions → Option DuplexSession
line_of session_id [] = none
line_of session_id ((k, s) ∷ rest) = if has_id session_id s then some s else line_of session_id rest

abbrev pub is_session : Text → Option Text → Bool
is_session session_id none = false
is_session session_id (some own) = text_eq own session_id

-- `now` is the time and `generated` what `TemporaryIdentity::generate` returns if it is called.
module _ (reader : Reader) (now : ℕ) (generated : Option Text) where
  abbrev take_accept : Client → DuplexAccept → Client × Outcome
  take_accept client accept =
      let (duplex, queues) =
        apply_duplex_accept client.local_streams accept now client.host.duplex client.queues in
      (record (with_duplex client duplex) { queues = queues }, ok 0)

  abbrev take_offer : Client → DuplexOffer → Option Text → Client × Outcome
  take_offer client offer ingress_wallet =
      let (host, action) = apply_duplex_offer client.host offer ingress_wallet now generated in
      (record client { host = host; actions = client.actions ++ action ∷ [] }, ok 0)

  plain_packet : Client → Option Bytes → Client × Outcome
  plain_packet client none = (client, err)
  plain_packet client (some ipv4) =
      if looks_like_ipv4 ipv4 then queue_inbound_ipv4 client ipv4 else (client, err)

  plain_frame : Client → Text → Option (Text × Text) → Client × Outcome
  unfolding plain_packet
  plain_frame client plain (some (session_id, payload)) =
      apply_duplex_frame reader.b64_decode client session_id payload
  plain_frame client plain none = plain_packet client (reader.envelope_decode plain)

  plain_reject : Client → Text → Option Text → Client × Outcome
  unfolding plain_frame
  plain_reject client plain (some session_id) = (reject_line client session_id, ok 0)
  plain_reject client plain none = plain_frame client plain (reader.parse_duplex_frame_json plain)

  plain_accept : Client → Text → Option DuplexAccept → Client × Outcome
  unfolding plain_reject
  plain_accept client plain (some accept) = take_accept client accept
  plain_accept client plain none = plain_reject client plain (reader.parse_reject_details plain)

  plain_offer : Client → Text → Option Text → Option DuplexOffer → Client × Outcome
  unfolding plain_accept
  plain_offer client plain ingress_wallet (some offer) = take_offer client offer ingress_wallet
  plain_offer client plain ingress_wallet none =
      plain_accept client plain (reader.parse_accept_from_inbound_plain plain)

  unfoldable pub apply_decrypted_inbound_plain : Client → Text → Option Text → Client × Outcome
  unfolding plain_offer
  apply_decrypted_inbound_plain client plain ingress_wallet =
      plain_offer client plain ingress_wallet (reader.parse_offer_from_inbound_plain plain)

  -- The secret may be meant, by the recipients that the armor names.
  abbrev pub inbound_secret_matches_recipients : Text → List Text → Bool
  inbound_secret_matches_recipients cert recipients =
      if is_empty recipients
      then true
      else key_matches cert (reader.transport_key_id cert) recipients

  -- The first secret that is meant and opens the armor, with what it reads.
  unfoldable pub opened_by : Text → List Text → List UserSecret → Option (Text × Option Text)
  opened_by payload recipients [] = none
  opened_by payload recipients (secret ∷ rest) =
      let later = opened_by payload recipients rest in
      if not (inbound_secret_matches_recipients secret.cert recipients)
      then later
      else elim (reader.inbound_plain_from_user_armor payload secret.cert) [
        | none ↦ later
        | some plain ↦ some (plain, secret.wallet)
      ]

  opened : Client → Option (Text × Option Text) → Client × Outcome
  opened client none = refuse client
  opened client (some (plain, ingress_wallet)) =
      apply_decrypted_inbound_plain client plain ingress_wallet

  apply_armor : Client → Text → Client × Outcome
  unfolding opened
  apply_armor client payload = opened client (
      opened_by payload (reader.pkesk_recipient_key_ids payload)
        (client.user_secrets ++ temporary_secrets reader.user_cert client.host.duplex))

  chunk_reject : Client → Text → Option Text → Client × Outcome
  unfolding apply_armor
  chunk_reject client payload (some session_id) = (reject_line client session_id, ok 0)
  chunk_reject client payload none = apply_armor client payload

  chunk_accept : Client → Text → Option DuplexAccept → Client × Outcome
  unfolding chunk_reject
  chunk_accept client payload (some accept) = take_accept client accept
  chunk_accept client payload none =
      chunk_reject client payload (reader.parse_reject_details (trim payload))

  chunk_frame : Client → Text → Option (Text × Text) → Client × Outcome
  unfolding chunk_accept
  chunk_frame client payload (some (session_id, b64)) =
      apply_duplex_frame reader.b64_decode client session_id b64
  chunk_frame client payload none =
      chunk_accept client payload (reader.parse_accept_from_inbound_plain (trim payload))

  -- A chunk, with `on_blob` for what becomes of an AES blob.
  chunk_by : Client → Text → Client × Outcome → Client × Outcome
  unfolding chunk_frame
  chunk_by client payload on_blob =
      if not client.enabled
      then refuse client
      else if reader.parse_l0_occupied (trim payload)
      then (client, ok 0)
      else if reader.looks_like_aes_blob (trim payload)
      then on_blob
      else chunk_frame client payload (reader.parse_duplex_frame_json (trim payload))

  -- A chunk of no session, in which an AES blob is refused.
  unfoldable pub apply_inbound_armor : Client → Text → Client × Outcome
  unfolding chunk_by
  apply_inbound_armor client payload = chunk_by client payload (refuse client)

  blob_frame : Client → Text → Text → Option (Text × Text) → Client × Outcome
  blob_frame client session_id json none = apply_inbound_armor client json
  blob_frame client session_id json (some (payload_session_id, payload)) =
      if not (text_eq payload_session_id session_id)
      then (reject_line client session_id, err)
      else apply_duplex_frame reader.b64_decode client payload_session_id payload

  blob_ping : Client → Text → Text → Option Text → Client × Outcome
  unfolding blob_frame
  blob_ping client session_id json none =
      blob_frame client session_id json (reader.parse_duplex_frame_json json)
  blob_ping client session_id json (some ping_session_id) =
      if not (text_eq ping_session_id session_id)
      then (reject_line client session_id, err)
      else (with_duplex client (return_attached session_id client.host.duplex), ok 0)

  blob_json : Client → Text → Option Text → Client × Outcome
  unfolding blob_ping
  blob_json client session_id none = (reject_line client session_id, err)
  blob_json client session_id (some json) =
      blob_ping client session_id json (reader.parse_duplex_ping_json json)

  blob_plain : Client → Text → Option Bytes → Client × Outcome
  unfolding blob_json
  blob_plain client session_id none = (reject_line client session_id, err)
  blob_plain client session_id (some plain) = blob_json client session_id (reader.from_utf8 plain)

  blob_key : Client → Text → Text → Option Text → Client × Outcome
  unfolding blob_plain
  blob_key client session_id blob none = (client, err)
  blob_key client session_id blob (some key) =
      blob_plain client session_id (reader.aes_open key blob)

  blob_line : Client → Text → Text → Option DuplexSession → Client × Outcome
  unfolding blob_key
  blob_line client session_id blob none = refuse client
  blob_line client session_id blob (some s) = blob_key client session_id blob s.key

  unfoldable pub apply_duplex_aes_blob_for_session : Client → Text → Text → Client × Outcome
  unfolding blob_line
  apply_duplex_aes_blob_for_session client session_id blob =
      blob_line client session_id blob (line_of session_id client.host.duplex)

  abbrev cancel_owner : ListenOwner → ListenOwner
  cancel_owner owner = record owner { cancelled = true }

  owned_blob : Client → Text → Text → Text → Option ListenOwner → Client × Outcome
  owned_blob client owner session_id blob none = refuse client
  owned_blob client owner session_id blob (some o) =
      if not (is_session session_id o.session_id)
      then refuse (record client { listen_owners = modify owner cancel_owner client.listen_owners })
      else apply_duplex_aes_blob_for_session client session_id blob

  session_blob : Client → Text → Option Text → Text → Client × Outcome
  unfolding owned_blob
  session_blob client owner none blob = refuse client
  session_blob client owner (some session_id) blob =
      owned_blob client owner session_id blob (get owner client.listen_owners)

  -- `apply_inbound_chunk`; the chunk has an owner, the session it was read for, and a payload.
  unfoldable pub apply_inbound_chunk : Client → Text → Option Text → Text → Client × Outcome
  unfolding chunk_by session_blob
  apply_inbound_chunk client owner session_id payload =
      chunk_by client payload (session_blob client owner session_id (trim payload))
