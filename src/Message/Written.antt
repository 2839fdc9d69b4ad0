-- ===== src/Message/Written.antt =====
-- What an encoder that succeeds has written, for offers and accepts.
use co_net_l0d.Base.{
  ℕ, ◌≡◌, refl, Option, none, some, Text, codes, get, insert, text_key, >>=-eq-some, Bytes,
}
use co_net_l0d.Crates.{text, Fields, Serde, Base64}
use co_net_l0d.Eoa.{duplex_normalize_eoa}
use co_net_l0d.Message.Encode.{
  mailbox_field, with_mailbox, with_chunk, offer_fields, encode_offer_command_for_port,
  accept_fields, encode_accept_command,
}

module _ (serde : Serde) (b64 : Base64) where
  offer_fields-billing :
      (initiator billing main peer listen user_pgp route_pgp : Text) (port : ℕ) (session_id : Text)
      (key : Bytes) (timestamp : ℕ) (mailbox : Option Text) (chunk : Option Bytes)
      → get (codes "billingWallet") (
          with_chunk serde b64 (codes "firstChunk") chunk (
            with_mailbox mailbox (
              offer_fields serde b64 initiator billing main peer listen user_pgp route_pgp port
                session_id key timestamp)))
        ≡ some (text billing)
  unfolding get insert
  offer_fields-billing i b m p l u r port s key ts none none = refl
  offer_fields-billing i b m p l u r port s key ts none (some c) = refl
  offer_fields-billing i b m p l u r port s key ts (some w) none = refl
  offer_fields-billing i b m p l u r port s key ts (some w) (some c) = refl

  -- An offer is written from an object that names its billing wallet.
  pub encode_offer_command_for_port-written :
      (initiator billing main peer listen user_pgp route_pgp mailbox : Text) (port : ℕ)
      (session_id : Text) (key : Bytes) (timestamp : ℕ) (chunk : Option Bytes) (json : Text)
      → encode_offer_command_for_port serde b64 initiator billing main peer listen user_pgp
          route_pgp mailbox port session_id key timestamp chunk
        ≡ some json
      → (fields : Fields) × (b : Text) × (serde.to_string fields ≡ some json)
        × (get (codes "billingWallet") fields ≡ some (text b))
  unfolding encode_offer_command_for_port
  encode_offer_command_for_port-written initiator billing main peer listen user_pgp route_pgp
        mailbox port session_id key timestamp chunk json h =
      let (i, _, h1) = >>=-eq-some (duplex_normalize_eoa initiator) _ h in
      let (b, _, h2) = >>=-eq-some (duplex_normalize_eoa billing) _ h1 in
      let (m, _, h3) = >>=-eq-some (duplex_normalize_eoa main) _ h2 in
      let (p, _, h4) = >>=-eq-some (duplex_normalize_eoa peer) _ h3 in
      let (l, _, h5) = >>=-eq-some (duplex_normalize_eoa listen) _ h4 in
      let (x, _, h6) = >>=-eq-some (mailbox_field mailbox) _ h5 in
      (
        _,
        b,
        h6,
        offer_fields-billing i b m p l user_pgp route_pgp port session_id key timestamp x chunk,
      )

  accept_fields-billing :
      (responder billing listen user_pgp route_pgp session_id : Text) (key : Bytes) (timestamp : ℕ)
      (mailbox : Option Text) (chunk : Option Bytes)
      → get (codes "billingWallet") (
          with_chunk serde b64 (codes "responseChunk") chunk (
            with_mailbox mailbox (
              accept_fields serde b64 responder billing listen user_pgp route_pgp session_id key
                timestamp)))
        ≡ some (text billing)
  unfolding get insert
  accept_fields-billing r b l u p s key ts none none = refl
  accept_fields-billing r b l u p s key ts none (some c) = refl
  accept_fields-billing r b l u p s key ts (some w) none = refl
  accept_fields-billing r b l u p s key ts (some w) (some c) = refl

  -- And so is an accept.
  pub encode_accept_command-written :
      (responder billing listen user_pgp route_pgp mailbox session_id : Text) (key : Bytes)
      (timestamp : ℕ) (chunk : Option Bytes) (json : Text)
      → encode_accept_command serde b64 responder billing listen user_pgp route_pgp mailbox
          session_id key timestamp chunk
        ≡ some json
      → (fields : Fields) × (b : Text) × (serde.to_string fields ≡ some json)
        × (get (codes "billingWallet") fields ≡ some (text b))
  unfolding encode_accept_command
  encode_accept_command-written responder billing listen user_pgp route_pgp mailbox session_id key
        timestamp chunk json h =
      let (r, _, h1) = >>=-eq-some (duplex_normalize_eoa responder) _ h in
      let (b, _, h2) = >>=-eq-some (duplex_normalize_eoa billing) _ h1 in
      let (l, _, h3) = >>=-eq-some (duplex_normalize_eoa listen) _ h2 in
      let (x, _, h4) = >>=-eq-some (mailbox_field mailbox) _ h3 in
      (_, b, h4, accept_fields-billing r b l user_pgp route_pgp session_id key timestamp x chunk)
