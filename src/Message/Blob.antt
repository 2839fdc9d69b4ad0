-- ===== src/Message/Blob.antt =====
-- The blob of a frame as the peer meets it: it is told from JSON and armor, and opened to its frame.
use co_net_l0d.Base.{
  ℕ, ◌≤◌, ◌<◌, ◌≡◌, refl, sym, ap, ◌∙◌, true, false, Bool, Option, none, some, [], ◌∷◌, ◌++◌, arith,
  ltb, ◌==◌, lt→ltb, length, length-append, all, &&-true, Text, codes, len, trim, starts_with, get,
  text_key, All-append, ◌>>=◌, >>=-eq-some, Bytes, IsBytes, as_bytes, from_utf8, from_utf8-as_bytes,
  length-as_bytes,
}
use co_net_l0d.Crates.{
  Document, object, value, Serde, IsSerde, Base64, IsBase64, is_base64, Aead, IsAead,
}
use co_net_l0d.Aes.{nonce_len, seal, seal-shape, open_sealed, open_sealed-seal, trim-b64_encode}
use co_net_l0d.Message.{Lookup, document, is_word, str_at}
use co_net_l0d.Message.Encode.{encode_frame_json, frame_fields, seal_frame}
use co_net_l0d.Message.Parse.{
  looks_like_aes_blob, longer_than, parse_l0_occupied, parse_duplex_ping_json,
  parse_duplex_frame_json,
}
use co_net_l0d.Message.Documents.{
  document-trim, parse_duplex_frame_json-encode, encode_frame_json-written,
}
use co_net_l0d.Message.Signed.{is_object_text}
use co_net_l0d.Message.Wrapped.{base64_no_object}

len_base64 : (s : Text) → all is_base64 s ≡ true → len s ≡ length s
len_base64 [] h = refl
len_base64 (c ∷ s) h =
    let (now, later) = &&-true (is_base64 c) (all is_base64 s) h in
    ground (arith, len_base64 s later)

pub base64_no_armor : (s : Text) → all is_base64 s ≡ true → starts_with (codes "-----") s ≡ false
base64_no_armor [] h = refl
base64_no_armor (c ∷ s) h =
    let (now, _) = &&-true (is_base64 c) (all is_base64 s) h in
    let other_char : (c == b'-') ≡ false = ground arith in rw other_char refl

bytes_nonempty : (bs : Bytes) → 1 ≤ length bs → (b : ℕ) × (rest : Bytes) × (bs ≡ b ∷ rest)
bytes_nonempty [] h = absurd (omega arith)
bytes_nonempty (b ∷ rest) h = (b, rest, refl)

starts_nonempty :
    (s : Text)
    → starts_with (codes "{") s ≡ true
    → (b : ℕ) × (rest : Bytes) × (as_bytes s ≡ b ∷ rest)
starts_nonempty [] h = absurd (ground arith)
starts_nonempty (c ∷ s) h =
    bytes_nonempty (as_bytes (c ∷ s)) (omega (arith, length-as_bytes (c ∷ s)))

module _ (serde : Serde) (b64 : Base64) (serde_laws : IsSerde serde) (b64_laws : IsBase64 b64) where
  -- A text in base64 is no object.
  parse_l0_occupied-base64 :
      (s : Text) → all is_base64 s ≡ true → trim s ≡ s → parse_l0_occupied serde s ≡ false
  unfolding parse_l0_occupied
  parse_l0_occupied-base64 s h bare =
      ap occupied (ap (document serde) bare) ∙ unread (serde.from_str s) refl
    where
      occupied : Option Lookup → Bool
      occupied none = false
      occupied (some v) = is_word (codes "l0_occupied") (str_at v (codes "type"))

      unread : (d : Option Document) → serde.from_str s ≡ d → occupied (document serde s) ≡ false
      unread none e = rw e refl
      unread (some (value j)) e = rw e refl
      unread (some (object fields)) e = absurd (
          let opens = serde_laws.from_str-object s fields e in
          let closed = base64_no_object s h in ground (arith, ap is_object_text bare))

  -- A ping is told from a frame by its type.
  parse_duplex_ping_json-frame :
      (session_id payload json : Text)
      → serde.to_string (frame_fields serde session_id payload) ≡ some json
      → parse_duplex_ping_json serde json ≡ none
  unfolding parse_duplex_ping_json get
  parse_duplex_ping_json-frame session_id payload json h =
      rw (document-trim serde serde_laws _ json h) refl

  module _ (aead : Aead) (aead_laws : IsAead aead) where
    -- A blob of at least one byte is recognized as one.
    looks_like_aes_blob-seal :
        (nonce key : Bytes) (b : ℕ) (plain : Bytes) (blob : Text)
        → IsBytes nonce
        → length nonce ≡ nonce_len
        → seal b64 aead nonce key (b ∷ plain) ≡ some blob
        → (all is_base64 blob ≡ true) × (trim blob ≡ blob) × (looks_like_aes_blob b64 blob ≡ true)
    unfolding looks_like_aes_blob
    looks_like_aes_blob-seal nonce key b plain blob bytes size sealed =
        let (ct, e, same) =
          seal-shape b64 b64_laws aead aead_laws nonce key (b ∷ plain) blob sealed in
        let whole =
          All-append (λ x. x < 256) nonce ct bytes (aead_laws.encrypt-IsBytes key nonce _ ct e) in
        let t = b64.encode (nonce ++ ct) in
        let chars = b64_laws.encode-is_base64 (nonce ++ ct) whole in
        let packed : 29 ≤ length (nonce ++ ct) =
          omega (arith, length-append nonce ct, aead_laws.length-encrypt key nonce _ ct e) in
        let long : ltb (len t) 32 ≡ false =
          ground (arith, len_base64 t chars, b64_laws.length-encode (nonce ++ ct) whole) in
        let tagged : longer_than 28 (b64.decode t) ≡ true =
          rw (b64_laws.decode-encode (nonce ++ ct) whole) (lt→ltb 28 _ (omega arith)) in
        rw same (
          chars,
          trim-b64_encode b64 b64_laws (nonce ++ ct) whole,
          rw (trim-b64_encode b64 b64_laws (nonce ++ ct) whole) (
              rw (long, base64_no_object t chars, base64_no_armor t chars)
                (rw (chars, tagged) refl)),
        )

    -- What a listener finds in the blob of a frame: it is no notice and an AES blob, the key opens it to a
    -- JSON text that is no ping, and that is the frame.
    pub seal_frame-found :
        (nonce key : Bytes) (session_id : Text) (framed : Bytes) (blob : Text)
        → IsBytes nonce
        → length nonce ≡ nonce_len
        → seal_frame serde b64 aead nonce key session_id framed ≡ some blob
        → (json : Text) × (trim blob ≡ blob)
          × (parse_l0_occupied serde blob ≡ false)
          × (looks_like_aes_blob b64 blob ≡ true)
          × ((open_sealed b64 aead key blob >>= from_utf8) ≡ some json)
          × (parse_duplex_ping_json serde json ≡ none)
          × (parse_duplex_frame_json serde json ≡ some (session_id, b64.encode framed))
    unfolding seal_frame as_bytes
    seal_frame-found nonce key session_id framed blob bytes size h =
        let (json, encoded, sealed) =
          >>=-eq-some (encode_frame_json serde session_id (b64.encode framed)) _ h in
        let written =
          encode_frame_json-written serde serde_laws session_id (b64.encode framed) json encoded in
        let (b, rest, form) =
          starts_nonempty json (serde_laws.to_string-starts_with _ json written) in
        let (chars, bare, blobbed) =
          looks_like_aes_blob-seal nonce key b rest blob bytes size
            (ap (seal b64 aead nonce key) (sym form) ∙ sealed) in
        let opened =
          open_sealed-seal b64 b64_laws aead aead_laws nonce key (as_bytes json) blob bytes size
            sealed in
        (
          json,
          bare,
          parse_l0_occupied-base64 blob chars bare,
          blobbed,
          rw opened (from_utf8-as_bytes json (serde_laws.to_string-IsText _ json written)),
          parse_duplex_ping_json-frame session_id (b64.encode framed) json written,
          parse_duplex_frame_json-encode serde serde_laws session_id (b64.encode framed) json
              encoded,
        )
