-- ===== src/Message/Parse.antt =====
-- The readers of messages.
use co_net_l0d.Base.{
  ℕ, ◌+◌, Bool, false, not, ◌&&◌, ◌||◌, Option, none, some, [], ltb, leb, length, all, Text, codes,
  trim, len, starts_with, or_else, ◌>>=◌, ◌>>◌, guard, unwrap_or, Bytes,
}
use co_net_l0d.Crates.{Serde, Base64, is_base64}
use co_net_l0d.Eoa.{duplex_normalize_eoa}
use co_net_l0d.Aes.{key_from_standard_b64, nonce_len}
use co_net_l0d.Duplex.Lines.{DuplexAccept, DuplexOffer}
use co_net_l0d.Message.{Lookup, str_at, nat_at, bool_at, is_word, is_valid_session_id, document}
use co_net_l0d.Message.Encode.{is_known_reason}

-- `L0PipeEndInfo` and `DuplexReject`
pub record L0PipeEndInfo : Type 0 where
  pub reason : Text
  pub pipe_handle : Text

pub record DuplexReject : Type 0 where
  pub session_id : Text
  pub reason : Text
  pub retryable : Bool

abbrev pub aes_gcm_tag_len : ℕ
aes_gcm_tag_len = 16

abbrev pub longer_than : ℕ → Option Bytes → Bool
longer_than n none = false
longer_than n (some packed) = ltb n (length packed)

unfoldable pub looks_like_aes_blob : Base64 → Text → Bool
looks_like_aes_blob b64 raw =
    let t = trim raw in
    not (ltb (len t) 32 || starts_with (codes "{") t || starts_with (codes "-----") t)
    && all is_base64 t
    && longer_than (nonce_len + aes_gcm_tag_len) (b64.decode t)

module _ (serde : Serde) where
  unfoldable pub parse_l0_occupied : Text → Bool
  parse_l0_occupied payload = elim (document serde (trim payload)) [
    | none ↦ false
    | some v ↦ is_word (codes "l0_occupied") (str_at v (codes "type"))
  ]

  unfoldable pub parse_l0_pipe_end : Text → Option L0PipeEndInfo
  parse_l0_pipe_end payload = do
    v ← document serde (trim payload)
    guard (is_word (codes "l0_pipe_end") (str_at v (codes "type")))
    pipe_handle ← str_at v (codes "pipe_handle")
    guard (is_valid_session_id pipe_handle)
    some (record {
      reason = unwrap_or (codes "pipe_end") (str_at v (codes "reason"));
      pipe_handle = pipe_handle;
    })

  unfoldable pub parse_duplex_frame_json : Text → Option (Text × Text)
  parse_duplex_frame_json payload = do
    v ← document serde (trim payload)
    guard (is_word (codes "duplex_frame") (str_at v (codes "type")))
    session_id ← str_at v (codes "pipe_handle")
    b64 ← str_at v (codes "payload")
    some (session_id, b64)

  unfoldable pub parse_duplex_ping_json : Text → Option Text
  parse_duplex_ping_json payload = do
    v ← document serde (trim payload)
    guard (is_word (codes "duplex_ping") (str_at v (codes "type")))
    str_at v (codes "pipe_handle")

  -- The closure in `parse_reject_details`.
  unfoldable pub reject_plain : Text → Option DuplexReject
  reject_plain inner = do
    v ← document serde (trim inner)
    guard (is_word (codes "duplex_reject") (str_at v (codes "command")))
    session_id ← str_at v (codes "pipe_handle")
    let reason = unwrap_or (codes "unsupported") (str_at v (codes "reason"))
    guard (is_known_reason reason)
    some (record {
      session_id = session_id;
      reason = reason;
      retryable = unwrap_or false (bool_at v (codes "retryable"));
    })

-- A wallet that is there is normalized; one that is not is an error.
abbrev pub wallet_at : Option Text → Option Text
wallet_at raw = raw >>= duplex_normalize_eoa

-- `.and_then(|raw| normalize_eoa(raw).ok()).unwrap_or_default()`
abbrev pub mailbox_at : Lookup → Text
mailbox_at v = unwrap_or [] (wallet_at (str_at v (codes "listenMailboxWallet")))

module _ (b64 : Base64) where
  abbrev pub chunk_at : Option Text → Option Bytes
  chunk_at none = some []
  chunk_at (some raw) = b64.decode raw

  unfoldable pub offer_of : Lookup → Option DuplexOffer
  offer_of v = do
    guard (is_word (codes "duplex_offer") (str_at v (codes "command")))
    session_id ← str_at v (codes "pipe_handle")
    security_key ← str_at v (codes "Securitykey")
    key ← key_from_standard_b64 b64 security_key
    listen_wallet ←
        wallet_at (or_else (str_at v (codes "listenWallet")) (str_at v (codes "walletAddress")))
    sender ← wallet_at (str_at v (codes "walletAddress"))
    billing_wallet ← duplex_normalize_eoa (unwrap_or sender (str_at v (codes "billingWallet")))
    main_wallet ←
        wallet_at (or_else (str_at v (codes "mainWallet")) (str_at v (codes "walletAddress")))
    peer_wallet ← wallet_at (str_at v (codes "peerWallet"))
    port ← nat_at v (codes "port")
    guard (leb port 65535)
    timestamp ← nat_at v (codes "timestamp")
    first_chunk ← chunk_at (str_at v (codes "firstChunk"))
    some (record {
      session_id = session_id;
      main_wallet = main_wallet;
      peer_wallet = peer_wallet;
      port = port;
      key = key;
      listen_wallet = listen_wallet;
      listen_user_pgp = unwrap_or [] (str_at v (codes "listenUserPgp"));
      listen_route_pgp = unwrap_or [] (str_at v (codes "listenRoutePgp"));
      listen_mailbox_wallet = mailbox_at v;
      sender = sender;
      billing_wallet = billing_wallet;
      timestamp = timestamp;
      first_chunk = first_chunk;
    })

  unfoldable pub accept_of : Lookup → Option DuplexAccept
  accept_of v = do
    guard (is_word (codes "duplex_accept") (str_at v (codes "command")))
    session_id ← str_at v (codes "pipe_handle")
    listen_wallet ←
        wallet_at (or_else (str_at v (codes "listenWallet")) (str_at v (codes "walletAddress")))
    wallet ← wallet_at (str_at v (codes "walletAddress"))
    billing_wallet ← duplex_normalize_eoa (unwrap_or wallet (str_at v (codes "billingWallet")))
    security_key ← str_at v (codes "Securitykey")
    key ← key_from_standard_b64 b64 security_key
    timestamp ← nat_at v (codes "timestamp")
    response_chunk ← chunk_at (str_at v (codes "responseChunk"))
    some (record {
      session_id = session_id;
      listen_wallet = listen_wallet;
      listen_user_pgp = unwrap_or [] (str_at v (codes "listenUserPgp"));
      listen_route_pgp = unwrap_or [] (str_at v (codes "listenRoutePgp"));
      listen_mailbox_wallet = mailbox_at v;
      billing_wallet = billing_wallet;
      timestamp = timestamp;
      key = key;
      response_chunk = response_chunk;
    })

  module _ (serde : Serde) where
    unfoldable pub parse_offer_plain : Text → Option DuplexOffer
    unfolding offer_of
    parse_offer_plain plain = do v ← document serde (trim plain); offer_of v

    unfoldable pub parse_accept_plain : Text → Option DuplexAccept
    unfolding accept_of
    parse_accept_plain plain = do v ← document serde (trim plain); accept_of v
