-- ===== src/Message/Signed.antt =====
-- Signed wrappers of messages: what is encrypted to the user key of a peer, and what is accepted of it.
use co_net_l0d.Base.{
  ℕ, zero, suc, Bool, true, false, not, ◌&&◌, Option, none, some, List, [], ◌∷◌, length, any,
  is_none, Text, codes, trim, starts_with, eq_ignore_case, contains_text, or_else, insert, text_key,
  ◌>>=◌, ◌>>◌, guard, if◌then◌else◌, unwrap_or, as_bytes, from_utf8,
}
use mathlib.Core.Option
use co_net_l0d.Crates.{text, Fields, Document, object, value, Serde, lookup, Base64, Secp}
use co_net_l0d.Eoa.{eoa_eq}
use co_net_l0d.Eoa.Sign.{personal_sign, recover_personal_sign}
use co_net_l0d.Duplex.Lines.{DuplexAccept, DuplexOffer}
use co_net_l0d.Message.{str_at, document}
use co_net_l0d.Message.Parse.{DuplexReject, parse_offer_plain, parse_accept_plain, reject_plain}

abbrev pub is_object_text : Text → Bool
is_object_text s = starts_with (codes "{") s

-- `parsed["billingWallet"] = ...`, where the sender is another wallet and none is named.
abbrev pub with_billing : Text → Text → Fields → Fields
with_billing address wallet fields =
    if not (eoa_eq wallet address) && is_none (lookup (object fields) (codes "billingWallet"))
    then insert (codes "billingWallet") (text address) fields
    else fields

abbrev pub envelope_fields : Text → Text → Fields
envelope_fields message signature =
    (codes "message", text message) ∷ (codes "signMessage", text signature) ∷ []

module _ (serde : Serde) (b64 : Base64) where
  -- The text in base64 of a text.
  unfoldable pub nested_text : Text → Option Text
  nested_text current = do raw ← b64.decode (trim current); from_utf8 raw

  -- A wrapper that stands here: the outer `none` is an error, the inner one that none stands here.
  unfoldable pub wrapper_of : Text → Option (Option (Text × Text))
  wrapper_of current = elim (is_object_text current) [
    | false ↦ some none
    | true ↦ do
      v ← document serde current
      elim (str_at v (codes "message")) [
        | none ↦ some none
        | some message ↦ do
          signature ← str_at v (codes "signMessage")
          some (some (message, signature))
      ]
  ]

  unfoldable pub signed_rounds : ℕ → Text → Option (Text × Text)
  signed_rounds zero current = none
  signed_rounds (suc n) current = elim (wrapper_of current) [
    | none ↦ none
    | some (some found) ↦ some found
    | some none ↦ nested_text current >>= signed_rounds n
  ]

  unfoldable pub verified_signed_message : Text → Option (Text × Text)
  unfolding signed_rounds
  verified_signed_message plain = signed_rounds 3 (trim plain)

  -- `parse_signed_or_raw`, with the parser of what is inside. It calls itself on a text that was inside
  -- of base64, and is thus shorter: the fuel is the length of the text.
  module _ {ℓ} {T : Type ℓ} (parse_inner : Text → Option T) where
    unfoldable pub parsed_here : Text → Option T
    parsed_here trimmed = do
      guard (is_object_text trimmed)
      v ← document serde trimmed
      or_else (str_at v (codes "message") >>= parse_inner) (parse_inner trimmed)

    abbrev pub nested_call : (Text → Option T) → Option Text → Option T
    nested_call again none = none
    nested_call again (some inner) = elim (is_object_text (trim inner)) [
      | true ↦ again (trim inner)
      | false ↦ none
    ]

    -- One call, with the function that it calls again.
    unfoldable pub signed_or_raw_call : (Text → Option T) → Text → Option T
    signed_or_raw_call again plain = elim (parsed_here (trim plain)) [
      | some got ↦ some got
      | none ↦ nested_call again (nested_text plain)
    ]

    unfoldable pub signed_or_raw : ℕ → Text → Option T
    signed_or_raw zero plain = none
    signed_or_raw (suc fuel) plain = signed_or_raw_call (signed_or_raw fuel) plain

    unfoldable pub parse_signed_or_raw : Text → Option T
    unfolding signed_or_raw
    parse_signed_or_raw plain = signed_or_raw (suc (length plain)) plain

  unfoldable pub parse_reject_details : Text → Option DuplexReject
  parse_reject_details payload = parse_signed_or_raw (reject_plain serde) payload

  unfoldable pub parse_reject : Text → Option Text
  unfolding parse_reject_details
  parse_reject payload =
      Option.map (λ (r : DuplexReject). r.session_id) (parse_reject_details payload)

  module _ (secp : Secp) where
    unfoldable pub parse_offer_from_inbound_plain : Text → Option DuplexOffer
    parse_offer_from_inbound_plain plain = do
      signed ← verified_signed_message plain
      offer ← parse_offer_plain b64 serde signed.0
      signer ← recover_personal_sign secp (as_bytes signed.0) signed.1
      guard (eoa_eq signer offer.billing_wallet)
      some offer

    unfoldable pub parse_accept_from_inbound_plain : Text → Option DuplexAccept
    parse_accept_from_inbound_plain plain = do
      signed ← verified_signed_message plain
      accept ← parse_accept_plain b64 serde signed.0
      signer ← recover_personal_sign secp (as_bytes signed.0) signed.1
      guard (eoa_eq signer accept.billing_wallet)
      some accept

    -- The signed text of an object, in base64.
    unfoldable pub sign_fields : ℕ → Text → Fields → Option Text
    sign_fields secret address fields = do
      wallet ← str_at (lookup (object fields)) (codes "walletAddress")
      let parsed = with_billing address wallet fields
      guard (
          eoa_eq (unwrap_or wallet (str_at (lookup (object parsed)) (codes "billingWallet")))
            address)
      message ← serde.to_string parsed
      signature ← personal_sign secp secret (as_bytes message)
      envelope ← serde.to_string (envelope_fields message signature)
      some (b64.encode (as_bytes envelope))

    abbrev pub sign_document : ℕ → Text → Document → Option Text
    sign_document secret address (object fields) = sign_fields secret address fields
    sign_document secret address (value j) = none

    unfoldable pub signed_plain : ℕ → Text → Text → Option Text
    unfolding sign_fields
    signed_plain secret address command_json = do
      d ← serde.from_str command_json
      sign_document secret address d

-- What src/l0/pgp.rs does by sequoia-openpgp: encryption to a certificate, the key id of a certificate,
-- and the recipients that an armor names.
pub record Pgp : Type 0 where
  pub encrypt_utf8 : Text → Text → Option Text
  pub transport_key_id_armored : Text → Option Text
  pub pkesk_recipient_key_ids : Text → Option (List Text)

module _ (pgp : Pgp) where
  unfoldable pub encrypt_utf8_checked : Text → Text → Option Text
  encrypt_utf8_checked plaintext user_pub_armored = do
    armor ← pgp.encrypt_utf8 plaintext user_pub_armored
    expected ← pgp.transport_key_id_armored user_pub_armored
    recipients ← pgp.pkesk_recipient_key_ids armor
    guard (any (λ id. eq_ignore_case id expected) recipients)
    some armor

  module _ (serde : Serde) (b64 : Base64) (secp : Secp) (secret : ℕ) (address : Text) where
    unfoldable pub wrap_app_for_user_pgp : Text → Text → Option Text
    wrap_app_for_user_pgp command_json user_pub_armored = do
      plain ← signed_plain serde b64 secp secret address command_json
      encrypt_utf8_checked plain user_pub_armored

    unfoldable pub wrap_offer_for_user_pgp : Text → Text → Option Text
    wrap_offer_for_user_pgp command_json user_pub_armored = do
      guard (contains_text (codes "\"duplex_offer\"") command_json)
      wrap_app_for_user_pgp command_json user_pub_armored

    unfoldable pub wrap_accept_for_user_pgp : Text → Text → Option Text
    wrap_accept_for_user_pgp command_json user_pub_armored = do
      guard (contains_text (codes "\"duplex_accept\"") command_json)
      wrap_app_for_user_pgp command_json user_pub_armored
