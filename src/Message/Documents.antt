-- ===== src/Message/Documents.antt =====
-- Documents that are written are read back; frames and rejects among them.
use mathlib.Core.Path.{fun_ext}
use co_net_l0d.Base.{
  ℕ, ◌≡◌, refl, ap, ◌∙◌, some, arith, Text, trim, get, text_key, >>=-eq-some, guard-eq-some, Bool,
}
use co_net_l0d.Crates.{Fields, Serde, IsSerde}
use co_net_l0d.Eoa.{duplex_normalize_eoa}
use co_net_l0d.Message.{document}
use co_net_l0d.Message.Encode.{
  keyless, encode_frame_json, encode_reject_command, is_known_reason, frame_fields, reject_fields,
}
use co_net_l0d.Message.Parse.{parse_duplex_frame_json, reject_plain}

module _ (serde : Serde) (laws : IsSerde serde) where
  -- What was written is read back to the same entries.
  pub document-to_string :
      (fields : Fields) (json : Text)
      → serde.to_string fields ≡ some json
      → document serde json ≡ some (λ k. get k fields)
  document-to_string fields json h =
      let (d, read, same) = laws.from_str-to_string fields json h in
      rw read (ap some (fun_ext same))

  pub document-trim :
      (fields : Fields) (json : Text)
      → serde.to_string fields ≡ some json
      → document serde (trim json) ≡ some (λ k. get k fields)
  document-trim fields json h =
      ap (document serde) (laws.trim-to_string fields json h) ∙ document-to_string fields json h

  keyless-eq-some : (json got : Text) → keyless serde json ≡ some got → json ≡ got
  unfolding keyless
  keyless-eq-some json got h = let (_, e) = guard-eq-some _ (some json) h in ground arith

  pub encode_frame_json-written :
      (session_id payload json : Text)
      → encode_frame_json serde session_id payload ≡ some json
      → serde.to_string (frame_fields serde session_id payload) ≡ some json
  unfolding encode_frame_json
  encode_frame_json-written session_id payload json h =
      let (written, e, k) =
        >>=-eq-some (serde.to_string (frame_fields serde session_id payload)) _ h in
      e ∙ ap some (keyless-eq-some written json k)

  -- The JSON of a frame is read back to its session and its payload.
  pub parse_duplex_frame_json-encode :
      (session_id payload json : Text)
      → encode_frame_json serde session_id payload ≡ some json
      → parse_duplex_frame_json serde json ≡ some (session_id, payload)
  unfolding encode_frame_json parse_duplex_frame_json get
  parse_duplex_frame_json-encode session_id payload json h =
      let read = document-trim _ json (encode_frame_json-written session_id payload json h) in
      rw read refl

  -- A rejection is read back to its session, its reason and whether a retry makes sense.
  reject_plain-encode :
      (responder session_id reason json : Text) (timestamp : ℕ) (retryable : Bool)
      → encode_reject_command serde responder session_id timestamp reason retryable ≡ some json
      → reject_plain serde json
        ≡ some (record { session_id = session_id; reason = reason; retryable = retryable })
  unfolding encode_reject_command reject_plain get
  reject_plain-encode responder session_id reason json timestamp retryable h =
      let (known, e) = guard-eq-some (is_known_reason reason) _ h in
      let (wallet, _, e2) = >>=-eq-some (duplex_normalize_eoa responder) _ e in
      let fields = reject_fields serde wallet session_id reason retryable timestamp in
      let (written, e3, k) = >>=-eq-some (serde.to_string fields) _ e2 in
      rw (document-trim fields json (e3 ∙ ap some (keyless-eq-some written json k))) (rw known refl)
