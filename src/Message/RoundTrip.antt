-- ===== src/Message/RoundTrip.antt =====
-- What the writers of messages write, the readers read back.
use co_net_l0d.Base.{
  ℕ, ◌≤◌, ◌≡◌, ap, ◌∙◌, Option, some, [], length, Text, text_key, ◌>>=◌, >>=-eq-some, unwrap_or,
  Bytes, IsBytes,
}
use co_net_l0d.Crates.{Serde, IsSerde, Base64, IsBase64}
use co_net_l0d.Eoa.{duplex_normalize_eoa}
use co_net_l0d.Eoa.Laws.{duplex_normalize_eoa_idem}
use co_net_l0d.Aes.{key_len}
use co_net_l0d.Message.Encode.{mailbox_field, encode_offer_command_for_port, encode_accept_command}
use co_net_l0d.Message.Parse.{offer_of, accept_of, parse_offer_plain, parse_accept_plain}
use co_net_l0d.Message.Documents.{document-trim}
use co_net_l0d.Message.Fields.{
  IsChunk, mailbox_field-eq-some, mailbox_idem, offer_of-offer_fields, accept_of-accept_fields,
}

module _ (serde : Serde) (b64 : Base64) (serde_laws : IsSerde serde) (b64_laws : IsBase64 b64) where
  -- An offer that was written, with a port of 16 bits, a key of 32 bytes and bytes for its first chunk, is
  -- read back with its wallets in normal form and everything else as it was.
  pub parse_offer_plain-encode :
      (initiator billing main peer listen user_pgp route_pgp mailbox : Text) (port : ℕ)
      (session_id : Text) (key : Bytes) (timestamp : ℕ) (chunk : Option Bytes) (json : Text)
      → port ≤ 65535
      → IsBytes key
      → length key ≡ key_len
      → IsChunk chunk
      → encode_offer_command_for_port serde b64 initiator billing main peer listen user_pgp
          route_pgp mailbox port session_id key timestamp chunk
        ≡ some json
      → (i b m p l : Text) × (duplex_normalize_eoa initiator ≡ some i)
        × (duplex_normalize_eoa billing ≡ some b)
        × (duplex_normalize_eoa main ≡ some m)
        × (duplex_normalize_eoa peer ≡ some p)
        × (duplex_normalize_eoa listen ≡ some l)
        × (parse_offer_plain b64 serde json
            ≡ some (record {
              session_id = session_id;
              main_wallet = m;
              peer_wallet = p;
              port = port;
              key = key;
              listen_wallet = l;
              listen_user_pgp = user_pgp;
              listen_route_pgp = route_pgp;
              listen_mailbox_wallet = unwrap_or [] (duplex_normalize_eoa mailbox);
              sender = i;
              billing_wallet = b;
              timestamp = timestamp;
              first_chunk = unwrap_or [] chunk;
            }))
  unfolding encode_offer_command_for_port parse_offer_plain
  parse_offer_plain-encode initiator billing main peer listen user_pgp route_pgp mailbox port
        session_id key timestamp chunk json range bytes size ok h =
      let (i, hi, h1) = >>=-eq-some (duplex_normalize_eoa initiator) _ h in
      let (b, hb, h2) = >>=-eq-some (duplex_normalize_eoa billing) _ h1 in
      let (m, hm, h3) = >>=-eq-some (duplex_normalize_eoa main) _ h2 in
      let (p, hp, h4) = >>=-eq-some (duplex_normalize_eoa peer) _ h3 in
      let (l, hl, h5) = >>=-eq-some (duplex_normalize_eoa listen) _ h4 in
      let (x, hx, h6) = >>=-eq-some (mailbox_field mailbox) _ h5 in
      let named = mailbox_field-eq-some mailbox x hx in
      let read =
        ap (λ d. d >>= offer_of b64) (document-trim serde serde_laws _ json h6)
        ∙ offer_of-offer_fields serde b64 b64_laws i b m p l user_pgp route_pgp port session_id key
            timestamp x chunk (duplex_normalize_eoa_idem initiator i hi)
            (duplex_normalize_eoa_idem billing b hb) (duplex_normalize_eoa_idem main m hm)
            (duplex_normalize_eoa_idem peer p hp) (duplex_normalize_eoa_idem listen l hl)
            (mailbox_idem mailbox x named) range bytes size ok in
      (i, b, m, p, l, hi, hb, hm, hp, hl, rw named read)

  -- An accept that was written, with a key of 32 bytes and bytes for its response chunk, is read back with
  -- its wallets in normal form and everything else as it was.
  pub parse_accept_plain-encode :
      (responder billing listen user_pgp route_pgp mailbox session_id : Text) (key : Bytes)
      (timestamp : ℕ) (chunk : Option Bytes) (json : Text)
      → IsBytes key
      → length key ≡ key_len
      → IsChunk chunk
      → encode_accept_command serde b64 responder billing listen user_pgp route_pgp mailbox
          session_id key timestamp chunk
        ≡ some json
      → (b l : Text) × (duplex_normalize_eoa billing ≡ some b)
        × (duplex_normalize_eoa listen ≡ some l)
        × (parse_accept_plain b64 serde json
            ≡ some (record {
              session_id = session_id;
              listen_wallet = l;
              listen_user_pgp = user_pgp;
              listen_route_pgp = route_pgp;
              listen_mailbox_wallet = unwrap_or [] (duplex_normalize_eoa mailbox);
              billing_wallet = b;
              timestamp = timestamp;
              key = key;
              response_chunk = unwrap_or [] chunk;
            }))
  unfolding encode_accept_command parse_accept_plain
  parse_accept_plain-encode responder billing listen user_pgp route_pgp mailbox session_id key
        timestamp chunk json bytes size ok h =
      let (r, hr, h1) = >>=-eq-some (duplex_normalize_eoa responder) _ h in
      let (b, hb, h2) = >>=-eq-some (duplex_normalize_eoa billing) _ h1 in
      let (l, hl, h3) = >>=-eq-some (duplex_normalize_eoa listen) _ h2 in
      let (x, hx, h4) = >>=-eq-some (mailbox_field mailbox) _ h3 in
      let named = mailbox_field-eq-some mailbox x hx in
      let read =
        ap (λ d. d >>= accept_of b64) (document-trim serde serde_laws _ json h4)
        ∙ accept_of-accept_fields serde b64 b64_laws r b l user_pgp route_pgp session_id key
            timestamp x chunk (duplex_normalize_eoa_idem responder r hr)
            (duplex_normalize_eoa_idem billing b hb) (duplex_normalize_eoa_idem listen l hl)
            (mailbox_idem mailbox x named) bytes size ok in
      (b, l, hb, hl, rw named read)
