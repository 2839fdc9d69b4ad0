-- ===== src/Envelope/Json.antt =====
-- The overlay envelope of src/l0/envelope.rs. The JSON reader and writer of `serde_json` and the
-- base64 engine are parameters.
use co_net_l0d.Base.{
  ℕ, ◌≡◌, ap, ◌∙◌, Option, none, some, if◌then◌else◌, Text, codes, text_eq, to_lowercase, Bytes,
}

-- `ENVELOPE_TYPE`
abbrev pub envelope_type : Text
envelope_type = codes "conet_l0d_overlay_v1"

pub record OverlayEnvelope : Type 0 where
  pub kind : Text
  pub sender : Text
  pub seq : ℕ
  pub ipv4 : Text

pub data Decoded : Type 0 where
  ok : OverlayEnvelope → Bytes → Decoded
  bad_json : Decoded
  unexpected_type : Text → Decoded
  bad_base64 : Decoded

-- What the program calls of the two libraries.
pub record Codec : Type 0 where
  pub to_string : OverlayEnvelope → Option Text
  pub from_str : Text → Option OverlayEnvelope
  pub b64_encode : Bytes → Text
  pub b64_decode : Text → Option Bytes

-- What is documented of them: the reader takes what the writer wrote, and so does the decoder.
pub record IsCodec (c : Codec) : Type 0 where
  pub from_str-to_string :
      (e : OverlayEnvelope) (json : Text) → c.to_string e ≡ some json → c.from_str json ≡ some e
  pub b64_decode-b64_encode : (bytes : Bytes) → c.b64_decode (c.b64_encode bytes) ≡ some bytes

module _ (c : Codec) where
  pub sealed : Text → ℕ → Bytes → OverlayEnvelope
  sealed sender seq ipv4 = record {
    kind = envelope_type;
    sender = to_lowercase sender;
    seq = seq;
    ipv4 = c.b64_encode ipv4;
  }

  unfoldable pub encode : Text → ℕ → Bytes → Option Text
  unfolding sealed
  encode sender seq ipv4 = c.to_string (sealed sender seq ipv4)

  decode_payload : OverlayEnvelope → Option Bytes → Decoded
  decode_payload env none = bad_base64
  decode_payload env (some ipv4) = ok env ipv4

  decode_parsed : Option OverlayEnvelope → Decoded
  unfolding decode_payload
  decode_parsed none = bad_json
  decode_parsed (some env) =
      if text_eq env.kind envelope_type
      then decode_payload env (c.b64_decode env.ipv4)
      else unexpected_type env.kind

  pub decode : Text → Decoded
  unfolding decode_parsed
  decode json = decode_parsed (c.from_str json)

  -- The envelope that `encode` writes is read back by `decode` with its type, its sequence number, the
  -- sender in lower case and the very payload, of which the last field is the base64 text.
  pub decode_envelope-encode :
      IsCodec c
      → (sender : Text) (seq : ℕ) (ipv4 : Bytes) (json : Text) → encode sender seq ipv4 ≡ some json
      → decode json
        ≡ ok
            (record {
              kind = codes "conet_l0d_overlay_v1";
              sender = to_lowercase sender;
              seq = seq;
              ipv4 = c.b64_encode ipv4;
            })
            ipv4
  unfolding encode decode sealed
  decode_envelope-encode laws sender seq ipv4 json e =
      ap decode_parsed (laws.from_str-to_string _ json e)
      ∙ ap (decode_payload (sealed sender seq ipv4)) (laws.b64_decode-b64_encode ipv4)
