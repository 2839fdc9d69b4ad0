-- ===== src/Message/Wrapped.antt =====
-- What is signed and wrapped is unwrapped by the peer, and what the peer accepts was signed by the billing
-- wallet that the message names.
use co_net_l0d.Base.{
  ℕ, ◌≡◌, refl, sym, ap, ◌∙◌, true, false, none, some, [], ◌∷◌, arith, all, Text, codes, get,
  text_key, >>=-eq-some, guard-eq-some, as_bytes, from_utf8-as_bytes, as_bytes-IsBytes, &&-true,
  unwrap_or,
}
use co_net_l0d.Crates.{
  text, Fields, object, Serde, IsSerde, lookup, as_str, Base64, IsBase64, is_base64, Secp,
}
use co_net_l0d.Eoa.{eoa_eq}
use co_net_l0d.Eoa.Sign.{personal_sign}
use co_net_l0d.Aes.{trim-b64_encode, decode-trim}
use co_net_l0d.Message.{str_at}
use co_net_l0d.Message.Documents.{document-to_string}
use co_net_l0d.Message.Signed.{
  is_object_text, nested_text, wrapper_of, signed_rounds, verified_signed_message, envelope_fields,
  sign_fields, with_billing,
}

-- A text in base64 does not open with a brace.
pub base64_no_object : (s : Text) → all is_base64 s ≡ true → is_object_text s ≡ false
base64_no_object [] h = refl
base64_no_object (c ∷ s) h =
    let (now, _) = &&-true (is_base64 c) (all is_base64 s) h in ground arith

module _ (serde : Serde) (b64 : Base64) (serde_laws : IsSerde serde) (b64_laws : IsBase64 b64) where
  -- A text that is written is read back through base64.
  nested_text-encode :
      (fields : Fields) (json : Text)
      → serde.to_string fields ≡ some json
      → nested_text serde b64 (b64.encode (as_bytes json)) ≡ some json
  unfolding nested_text
  nested_text-encode fields json h =
      let chars = serde_laws.to_string-IsText fields json h in
      rw (decode-trim b64 b64_laws (as_bytes json) (as_bytes-IsBytes json chars))
        (from_utf8-as_bytes json chars)

  wrapper_of-envelope :
      (message signature json : Text)
      → serde.to_string (envelope_fields message signature) ≡ some json
      → wrapper_of serde b64 json ≡ some (some (message, signature))
  unfolding wrapper_of get
  wrapper_of-envelope message signature json h =
      rw (serde_laws.to_string-starts_with _ json h)
        (rw (document-to_string serde serde_laws _ json h) refl)

  verified_signed_message-envelope :
      (message signature json : Text)
      → serde.to_string (envelope_fields message signature) ≡ some json
      → verified_signed_message serde b64 (b64.encode (as_bytes json)) ≡ some (message, signature)
  unfolding verified_signed_message signed_rounds wrapper_of
  verified_signed_message-envelope message signature json h =
      let chars = serde_laws.to_string-IsText _ json h in
      let bytes = as_bytes-IsBytes json chars in
      let plain = b64.encode (as_bytes json) in
      let outer : wrapper_of serde b64 plain ≡ some none =
        rw (base64_no_object plain (b64_laws.encode-is_base64 (as_bytes json) bytes)) refl in
      rw (trim-b64_encode b64 b64_laws (as_bytes json) bytes) (
        rw outer (
          rw (nested_text-encode _ json h)
            (rw (wrapper_of-envelope message signature json h) refl)))

  module _ (secp : Secp) where
    -- An object that names its billing wallet is signed as it is, by the key of that wallet, and the
    -- wrapper is taken apart into what was signed and the signature.
    pub sign_fields-verified :
        (secret : ℕ) (address bw : Text) (fields : Fields) (plain : Text)
        → get (codes "billingWallet") fields ≡ some (text bw)
        → sign_fields serde b64 secp secret address fields ≡ some plain
        → (message signature : Text) × (serde.to_string fields ≡ some message)
          × (personal_sign secp secret (as_bytes message) ≡ some signature)
          × (verified_signed_message serde b64 plain ≡ some (message, signature))
          × (eoa_eq bw address ≡ true)
    unfolding sign_fields
    sign_fields-verified secret address bw fields plain named h =
        let (wallet, _, h1) =
          >>=-eq-some (str_at (lookup (object fields)) (codes "walletAddress")) _ h in
        let kept : with_billing address wallet fields ≡ fields = rw named (ground arith) in
        let (owned, h2) =
          guard-eq-some
            (eoa_eq
              (unwrap_or wallet (
                str_at (lookup (object (with_billing address wallet fields)))
                  (codes "billingWallet")))
              address)
            _ h1 in
        let (message, written, h3) =
          >>=-eq-some (serde.to_string (with_billing address wallet fields)) _ h2 in
        let (signature, signed, h4) =
          >>=-eq-some (personal_sign secp secret (as_bytes message)) _ h3 in
        let (envelope, wrapped, h5) =
          >>=-eq-some (serde.to_string (envelope_fields message signature)) _ h4 in
        let same : b64.encode (as_bytes envelope) ≡ plain = ap (unwrap_or []) h5 in
        (
          message,
          signature,
          ap serde.to_string (sym kept) ∙ written,
          signed,
          ap (verified_signed_message serde b64) (sym same)
              ∙ verified_signed_message-envelope message signature envelope wrapped,
          ap (λ o. eoa_eq (unwrap_or wallet (as_str o)) address) (sym named)
              ∙ ap (λ f. eoa_eq (unwrap_or wallet (as_str (get (codes "billingWallet") f))) address)
                  (sym kept)
              ∙ owned,
        )
