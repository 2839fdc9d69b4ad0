-- ===== src/Message/Handshake.antt =====
-- The way of an offer: written, signed, wrapped, and taken apart by the peer.
use mathlib.Core.Path.{fun_ext}
use co_net_l0d.Base.{
  ℕ, ◌≤◌, ◌≡◌, refl, sym, ap, ◌∙◌, true, Option, some, Text, codes, arith, length, get, text_key,
  ◌>>=◌, unwrap_or, Bytes, IsBytes, as_bytes, trim,
}
use co_net_l0d.Crates.{
  text, Fields, Document, object, value, Serde, IsSerde, lookup, as_str, Base64, IsBase64, Secp,
  IsSecp,
}
use co_net_l0d.Eoa.{normalize_eoa, eoa_eq, duplex_normalize_eoa}
use co_net_l0d.Eoa.Laws.{eoa_eq-agrees}
use co_net_l0d.Eoa.Sign.{address_of, recover_personal_sign, recover_personal_sign-personal_sign}
use co_net_l0d.Aes.{key_len}
use co_net_l0d.Duplex.Lines.{DuplexAccept, DuplexOffer}
use co_net_l0d.Message.{document}
use co_net_l0d.Message.Encode.{encode_offer_command_for_port, encode_accept_command}
use co_net_l0d.Message.Parse.{offer_of, accept_of, parse_offer_plain, parse_accept_plain}
use co_net_l0d.Message.Documents.{document-trim}
use co_net_l0d.Message.Fields.{IsChunk}
use co_net_l0d.Message.Written.{
  encode_offer_command_for_port-written, encode_accept_command-written,
}
use co_net_l0d.Message.RoundTrip.{parse_offer_plain-encode, parse_accept_plain-encode}
use co_net_l0d.Message.Authority.{offer_of-billing, accept_of-billing}
use co_net_l0d.Message.Signed.{
  parse_offer_from_inbound_plain, parse_accept_from_inbound_plain, verified_signed_message,
  sign_document, signed_plain,
}
use co_net_l0d.Message.Wrapped.{sign_fields-verified}

module _ (serde : Serde) (b64 : Base64) (secp : Secp) (serde_laws : IsSerde serde)
    (b64_laws : IsBase64 b64) (secp_laws : IsSecp secp) where
  -- What the peer finds in the signed wrapper of an object that names its billing wallet: the entries of
  -- that object, signed with an address that equals the billing wallet.
  record Found (plain address bw : Text) (fields : Fields) : Type 0 where
    message : Text
    signature : Text
    verified : verified_signed_message serde b64 plain ≡ some (message, signature)
    reads : document serde (trim message) ≡ some (λ k. get k fields)
    recovered : recover_personal_sign secp (as_bytes message) signature ≡ some address
    equal : eoa_eq bw address ≡ true

  signed_document-Found :
      (secret : ℕ) (address bw : Text) (fields : Fields) (plain : Text) (d : Document)
      → address_of secp secret ≡ some address
      → get (codes "billingWallet") fields ≡ some (text bw)
      → ((k : Text) → lookup d k ≡ get k fields)
      → sign_document serde b64 secp secret address d ≡ some plain
      → Found plain address bw fields
  signed_document-Found secret address bw fields plain (value j) own named same h =
      absurd (ground arith)
  signed_document-Found secret address bw fields plain (object entries) own named same h =
      let (message, signature, written, signed, verified, equal) =
        sign_fields-verified serde b64 serde_laws b64_laws secp secret address bw entries plain
          (same (codes "billingWallet") ∙ named) h in
      record {
        message = message;
        signature = signature;
        verified = verified;
        reads = document-trim serde serde_laws entries message written ∙ ap some (fun_ext same);
        recovered =
            recover_personal_sign-personal_sign secp secp_laws secret (as_bytes message) signature
              signed
            ∙ own;
        equal = equal;
      }

  signed_plain-Found :
      (secret : ℕ) (address bw : Text) (fields : Fields) (json plain : Text)
      → address_of secp secret ≡ some address
      → serde.to_string fields ≡ some json
      → get (codes "billingWallet") fields ≡ some (text bw)
      → signed_plain serde b64 secp secret address json ≡ some plain
      → Found plain address bw fields
  unfolding signed_plain
  signed_plain-Found secret address bw fields json plain own written named h =
      let (d, read, same) = serde_laws.from_str-to_string fields json written in
      signed_document-Found secret address bw fields plain d own named same
        (ap (λ o. o >>= sign_document serde b64 secp secret address) (sym read) ∙ h)

  offer-Found :
      (plain address a bw : Text) (fields : Fields) (offer : DuplexOffer)
      → Found plain address bw fields
      → normalize_eoa address ≡ some a
      → get (codes "billingWallet") fields ≡ some (text bw)
      → offer_of b64 (λ k. get k fields) ≡ some offer
      → parse_offer_from_inbound_plain serde b64 secp plain ≡ some offer
  unfolding parse_offer_from_inbound_plain parse_offer_plain
  offer-Found plain address a bw fields offer found normal named reads =
      let (sender, billing) = offer_of-billing b64 (λ k. get k fields) offer reads in
      let stated : duplex_normalize_eoa bw ≡ some offer.billing_wallet =
        ap (λ o. duplex_normalize_eoa (unwrap_or sender (as_str o))) (sym named) ∙ billing in
      let signer = eoa_eq-agrees bw address a offer.billing_wallet found.equal normal stated in
      rw found.verified (rw found.reads (rw reads (rw found.recovered (rw signer refl))))

  accept-Found :
      (plain address a bw : Text) (fields : Fields) (accept : DuplexAccept)
      → Found plain address bw fields
      → normalize_eoa address ≡ some a
      → get (codes "billingWallet") fields ≡ some (text bw)
      → accept_of b64 (λ k. get k fields) ≡ some accept
      → parse_accept_from_inbound_plain serde b64 secp plain ≡ some accept
  unfolding parse_accept_from_inbound_plain parse_accept_plain
  accept-Found plain address a bw fields accept found normal named reads =
      let (sender, billing) = accept_of-billing b64 (λ k. get k fields) accept reads in
      let stated : duplex_normalize_eoa bw ≡ some accept.billing_wallet =
        ap (λ o. duplex_normalize_eoa (unwrap_or sender (as_str o))) (sym named) ∙ billing in
      let signer = eoa_eq-agrees bw address a accept.billing_wallet found.equal normal stated in
      rw found.verified (rw found.reads (rw reads (rw found.recovered (rw signer refl))))

  -- An offer that was written and is signed with the key of a proper address is accepted by the peer, and
  -- is the offer that was written.
  pub parse_offer_from_inbound_plain-signed_plain :
      (initiator billing main peer listen user_pgp route_pgp mailbox : Text) (port : ℕ)
      (session_id : Text) (key : Bytes) (timestamp : ℕ) (chunk : Option Bytes) (json : Text)
      (secret : ℕ) (address a plain : Text)
      → port ≤ 65535
      → IsBytes key
      → length key ≡ key_len
      → IsChunk chunk
      → encode_offer_command_for_port serde b64 initiator billing main peer listen user_pgp
          route_pgp mailbox port session_id key timestamp chunk
        ≡ some json
      → address_of secp secret ≡ some address
      → normalize_eoa address ≡ some a
      → signed_plain serde b64 secp secret address json ≡ some plain
      → (offer : DuplexOffer) × (parse_offer_plain b64 serde json ≡ some offer)
        × (parse_offer_from_inbound_plain serde b64 secp plain ≡ some offer)
  unfolding parse_offer_plain
  parse_offer_from_inbound_plain-signed_plain initiator billing main peer listen user_pgp route_pgp
        mailbox port session_id key timestamp chunk json secret address a plain range bytes size ok
        h own normal signed =
      let (i, b, m, p, l, _, _, _, _, _, parsed) =
        parse_offer_plain-encode serde b64 serde_laws b64_laws initiator billing main peer listen
          user_pgp route_pgp mailbox port session_id key timestamp chunk json range bytes size ok
          h in
      let (fields, bw, written, named) =
        encode_offer_command_for_port-written serde b64 initiator billing main peer listen user_pgp
          route_pgp mailbox port session_id key timestamp chunk json h in
      let reads =
        ap (λ v. v >>= offer_of b64) (sym (document-trim serde serde_laws fields json written))
        ∙ parsed in
      let found = signed_plain-Found secret address bw fields json plain own written named signed in
      (_, parsed, offer-Found plain address a bw fields _ found normal named reads)

  -- And so is an accept.
  pub parse_accept_from_inbound_plain-signed_plain :
      (responder billing listen user_pgp route_pgp mailbox session_id : Text) (key : Bytes)
      (timestamp : ℕ) (chunk : Option Bytes) (json : Text) (secret : ℕ) (address a plain : Text)
      → IsBytes key
      → length key ≡ key_len
      → IsChunk chunk
      → encode_accept_command serde b64 responder billing listen user_pgp route_pgp mailbox
          session_id key timestamp chunk
        ≡ some json
      → address_of secp secret ≡ some address
      → normalize_eoa address ≡ some a
      → signed_plain serde b64 secp secret address json ≡ some plain
      → (accept : DuplexAccept) × (parse_accept_plain b64 serde json ≡ some accept)
        × (parse_accept_from_inbound_plain serde b64 secp plain ≡ some accept)
  unfolding parse_accept_plain
  parse_accept_from_inbound_plain-signed_plain responder billing listen user_pgp route_pgp mailbox
        session_id key timestamp chunk json secret address a plain bytes size ok h own normal
        signed =
      let (b, l, _, _, parsed) =
        parse_accept_plain-encode serde b64 serde_laws b64_laws responder billing listen user_pgp
          route_pgp mailbox session_id key timestamp chunk json bytes size ok h in
      let (fields, bw, written, named) =
        encode_accept_command-written serde b64 responder billing listen user_pgp route_pgp mailbox
          session_id key timestamp chunk json h in
      let reads =
        ap (λ v. v >>= accept_of b64) (sym (document-trim serde serde_laws fields json written))
        ∙ parsed in
      let found = signed_plain-Found secret address bw fields json plain own written named signed in
      (_, parsed, accept-Found plain address a bw fields _ found normal named reads)
