-- ===== src/Message/Encode.antt =====
-- The writers of messages. A time stamp, a key and a nonce are arguments.
use co_net_l0d.Base.{
  ℕ, Bool, true, false, not, Option, none, some, [], ◌∷◌, Text, codes, text_eq, trim, is_empty,
  contains_text, insert, text_key, ◌>>=◌, ◌>>◌, guard, Bytes, as_bytes, ◌||◌,
}
use co_net_l0d.Crates.{bool, num, text, Fields, Serde, Base64, Aead}
use co_net_l0d.Eoa.{duplex_normalize_eoa}
use co_net_l0d.Aes.{key_to_standard_b64, seal}

-- `json["listenMailboxWallet"] = ...`, where a mailbox is named.
unfoldable pub mailbox_field : Text → Option (Option Text)
mailbox_field wallet = elim (is_empty (trim wallet)) [
  | true ↦ some none
  | false ↦ do w ← duplex_normalize_eoa wallet; some (some w)
]

abbrev pub with_mailbox : Option Text → Fields → Fields
with_mailbox none fields = fields
with_mailbox (some w) fields = insert (codes "listenMailboxWallet") (text w) fields

module _ (serde : Serde) (b64 : Base64) where
  abbrev pub with_chunk : Text → Option Bytes → Fields → Fields
  with_chunk key none fields = fields
  with_chunk key (some chunk) fields = insert key (text (b64.encode chunk)) fields

  -- The offer, of normalized wallets.
  abbrev pub offer_fields :
      Text → Text → Text → Text → Text → Text → Text → ℕ → Text → Bytes → ℕ → Fields
  offer_fields initiator billing main peer listen user_pgp route_pgp port session_id key timestamp =
      (codes "command", text (codes "duplex_offer"))
      ∷ (codes "walletAddress", text initiator)
      ∷ (codes "billingWallet", text billing)
      ∷ (codes "mainWallet", text main)
      ∷ (codes "peerWallet", text peer)
      ∷ (codes "listenWallet", text listen)
      ∷ (codes "listenUserPgp", text user_pgp)
      ∷ (codes "listenRoutePgp", text route_pgp)
      ∷ (codes "port", num port)
      ∷ (codes "pipe_handle", text session_id)
      ∷ (codes "algorithm", text (codes "aes-256-gcm"))
      ∷ (codes "Securitykey", text (key_to_standard_b64 b64 key))
      ∷ (codes "timestamp", num timestamp)
      ∷ []

  unfoldable pub encode_offer_command_for_port :
      Text
      → Text
      → Text
      → Text
      → Text
      → Text
      → Text
      → Text
      → ℕ
      → Text
      → Bytes
      → ℕ
      → Option Bytes
      → Option Text
  encode_offer_command_for_port initiator_wallet billing_wallet main_wallet peer_wallet
        listen_wallet listen_user_pgp listen_route_pgp listen_mailbox_wallet port session_id key
        timestamp first_chunk =
      do
        initiator ← duplex_normalize_eoa initiator_wallet
        billing ← duplex_normalize_eoa billing_wallet
        main ← duplex_normalize_eoa main_wallet
        peer ← duplex_normalize_eoa peer_wallet
        listen ← duplex_normalize_eoa listen_wallet
        mailbox ← mailbox_field listen_mailbox_wallet
        serde.to_string (
            with_chunk (codes "firstChunk") first_chunk (
              with_mailbox mailbox (
                offer_fields initiator billing main peer listen listen_user_pgp listen_route_pgp
                  port session_id key timestamp)))

  unfoldable pub encode_offer_command :
      Text → Text → Text → Text → Text → Text → Bytes → ℕ → Option Text
  unfolding encode_offer_command_for_port
  encode_offer_command initiator_wallet peer_wallet listen_wallet listen_user_pgp listen_route_pgp
        session_id key timestamp =
      encode_offer_command_for_port initiator_wallet initiator_wallet peer_wallet peer_wallet
        listen_wallet listen_user_pgp listen_route_pgp [] 0 session_id key timestamp none

  abbrev pub accept_fields : Text → Text → Text → Text → Text → Text → Bytes → ℕ → Fields
  accept_fields responder billing listen user_pgp route_pgp session_id key timestamp =
      (codes "command", text (codes "duplex_accept"))
      ∷ (codes "walletAddress", text responder)
      ∷ (codes "billingWallet", text billing)
      ∷ (codes "listenWallet", text listen)
      ∷ (codes "listenUserPgp", text user_pgp)
      ∷ (codes "listenRoutePgp", text route_pgp)
      ∷ (codes "pipe_handle", text session_id)
      ∷ (codes "algorithm", text (codes "aes-256-gcm"))
      ∷ (codes "Securitykey", text (key_to_standard_b64 b64 key))
      ∷ (codes "timestamp", num timestamp)
      ∷ []

  unfoldable pub encode_accept_command :
      Text → Text → Text → Text → Text → Text → Text → Bytes → ℕ → Option Bytes → Option Text
  encode_accept_command responder_wallet billing_wallet listen_wallet listen_user_pgp
        listen_route_pgp listen_mailbox_wallet session_id key timestamp response_chunk =
      do
        responder ← duplex_normalize_eoa responder_wallet
        billing ← duplex_normalize_eoa billing_wallet
        listen ← duplex_normalize_eoa listen_wallet
        mailbox ← mailbox_field listen_mailbox_wallet
        serde.to_string (
            with_chunk (codes "responseChunk") response_chunk (
              with_mailbox mailbox (
                accept_fields responder billing listen listen_user_pgp listen_route_pgp session_id
                  key timestamp)))

-- `"pool_full" | "pipe_failed" | "unsupported"`
abbrev pub is_known_reason : Text → Bool
is_known_reason reason =
    text_eq reason (codes "pool_full")
    || text_eq reason (codes "pipe_failed")
    || text_eq reason (codes "unsupported")

module _ (serde : Serde) where
  -- A text that carries the name of the key field is refused.
  unfoldable pub keyless : Text → Option Text
  keyless json = do guard (not (contains_text (codes "Securitykey") json)); some json

  abbrev pub reject_fields : Text → Text → Text → Bool → ℕ → Fields
  reject_fields responder session_id reason retryable timestamp =
      (codes "command", text (codes "duplex_reject"))
      ∷ (codes "walletAddress", text responder)
      ∷ (codes "pipe_handle", text session_id)
      ∷ (codes "reason", text reason)
      ∷ (codes "retryable", bool retryable)
      ∷ (codes "timestamp", num timestamp)
      ∷ []

  unfoldable pub encode_reject_command : Text → Text → ℕ → Text → Bool → Option Text
  unfolding keyless
  encode_reject_command responder_wallet session_id timestamp reason retryable = do
    guard (is_known_reason reason)
    responder ← duplex_normalize_eoa responder_wallet
    json ← serde.to_string (reject_fields responder session_id reason retryable timestamp)
    keyless json

  abbrev pub frame_fields : Text → Text → Fields
  frame_fields session_id payload_b64 =
      (codes "type", text (codes "duplex_frame"))
      ∷ (codes "pipe_handle", text session_id)
      ∷ (codes "payload", text payload_b64)
      ∷ []

  unfoldable pub encode_frame_json : Text → Text → Option Text
  unfolding keyless
  encode_frame_json session_id payload_b64 = do
    json ← serde.to_string (frame_fields session_id payload_b64)
    keyless json

  abbrev pub ping_fields : Text → ℕ → Fields
  ping_fields pipe_handle timestamp =
      (codes "type", text (codes "duplex_ping"))
      ∷ (codes "pipe_handle", text pipe_handle)
      ∷ (codes "timestamp", num timestamp)
      ∷ []

  module _ (b64 : Base64) (aead : Aead) where
    unfoldable pub seal_frame : Bytes → Bytes → Text → Bytes → Option Text
    unfolding encode_frame_json
    seal_frame nonce key session_id framed = do
      json ← encode_frame_json session_id (b64.encode framed)
      seal b64 aead nonce key (as_bytes json)

    unfoldable pub seal_ping : Bytes → Bytes → Text → ℕ → Option Text
    seal_ping nonce key pipe_handle timestamp = do
      json ← serde.to_string (ping_fields pipe_handle timestamp)
      seal b64 aead nonce key (as_bytes json)
