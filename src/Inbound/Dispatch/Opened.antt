-- ===== src/Inbound/Dispatch/Opened.antt =====
-- The way of an AES blob that is what its session expects.
use co_net_l0d.Base.{
  ℕ, ◌≡◌, ap, ◌∙◌, true, false, not, Option, none, some, Text, text_eq, text_eq_refl, if-true,
  if-false, trim, get, text_key, Bytes,
}
use co_net_l0d.Duplex.Session.{DuplexSession}
use co_net_l0d.Inbound.{ListenOwner, Client, apply_duplex_frame}
use co_net_l0d.Inbound.Dispatch.{
  Reader, line_of, is_session, apply_inbound_chunk, chunk_by, session_blob, owned_blob, blob_line,
  blob_key, blob_plain, blob_json, blob_ping, blob_frame, apply_duplex_aes_blob_for_session,
}

-- The stream that brings a chunk is owned and bound to the session, whose line has the key.
pub record Listens (client : Client) (owner session_id key : Text) : Type 0 where
  pub enabled : client.enabled ≡ true
  pub own : ListenOwner
  pub owned : get owner client.listen_owners ≡ some own
  pub bound : is_session session_id own.session_id ≡ true
  pub line : DuplexSession
  pub found : line_of session_id client.host.duplex ≡ some line
  pub keyed : line.key ≡ some key

module _ (reader : Reader) (now : ℕ) (generated : Option Text) where
  -- A blob that the key of its line opens to a frame of its own session is handled as that frame.
  pub apply_inbound_chunk-opened :
      (client : Client) (owner session_id key blob json payload : Text) (plain : Bytes)
      → Listens client owner session_id key
      → reader.parse_l0_occupied (trim blob) ≡ false
      → reader.looks_like_aes_blob (trim blob) ≡ true
      → reader.aes_open key (trim blob) ≡ some plain
      → reader.from_utf8 plain ≡ some json
      → reader.parse_duplex_ping_json json ≡ none
      → reader.parse_duplex_frame_json json ≡ some (session_id, payload)
      → apply_inbound_chunk reader now generated client owner (some session_id) blob
        ≡ apply_duplex_frame reader.b64_decode client session_id payload
  unfolding apply_inbound_chunk apply_duplex_aes_blob_for_session chunk_by session_blob owned_blob
      blob_line blob_key blob_plain blob_json blob_ping blob_frame
  apply_inbound_chunk-opened client owner session_id key blob json payload plain listens occupied
        blobbed opened utf8 ping frame =
      if-false (not client.enabled) _ _ (ap not listens.enabled)
      ∙ if-false (reader.parse_l0_occupied (trim blob)) _ _ occupied
      ∙ if-true (reader.looks_like_aes_blob (trim blob)) _ _ blobbed
      ∙ ap (owned_blob reader now generated client owner session_id (trim blob)) listens.owned
      ∙ if-false (not (is_session session_id listens.own.session_id)) _ _ (ap not listens.bound)
      ∙ ap (blob_line reader now generated client session_id (trim blob)) listens.found
      ∙ ap (blob_key reader now generated client session_id (trim blob)) listens.keyed
      ∙ ap (blob_plain reader now generated client session_id) opened
      ∙ ap (blob_json reader now generated client session_id) utf8
      ∙ ap (blob_ping reader now generated client session_id json) ping
      ∙ ap (blob_frame reader now generated client session_id json) frame
      ∙ if-false (not (text_eq session_id session_id)) _ _ (ap not (text_eq_refl session_id))
