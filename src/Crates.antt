-- ===== src/Crates.antt =====
-- The crates that src/l0/duplex.rs, src/l0/aes.rs and src/l0/eip191.rs call: serde_json, base64, aes_gcm,
-- and k256, tiny_keccak and hex. Each is a record of the functions that are called, with a record of
-- what is documented of them.
pub mod PlainSerde
pub mod PlainSealing
pub mod PlainSecp
use co_net_l0d.Base.{
  ℕ, ◌+◌, ◌*◌, ◌≤◌, ◌<◌, ◌≡◌, Bool, true, false, ◌||◌, Option, none, some, List, ◌∷◌, ◌==◌, length,
  all, Text, trim, is_alphanumeric, is_hexdigit, starts_with, get, text_key, Bytes, IsBytes, IsText,
}

-- A JSON value; a number that is not a `u64`, an array or an object inside of an object is kept as its
-- text, since nothing reads it.
pub data Json : Type 0 where
  null : Json
  bool : Bool → Json
  num : ℕ → Json
  text : Text → Json
  other : Text → Json

abbrev pub Fields : Type 0
Fields = List (Text × Json)

-- A JSON document: an object, or a value that is none.
pub data Document : Type 0 where
  object : Fields → Document
  value : Json → Document

-- `Value::get`
abbrev pub lookup : Document → Text → Option Json
lookup (object fields) k = get k fields
lookup (value j) k = none

-- `Value::as_str`, `as_u64` and `as_bool`, after `get`.
abbrev pub as_str : Option Json → Option Text
as_str (some (text s)) = some s
as_str _ = none

abbrev pub as_u64 : Option Json → Option ℕ
as_u64 (some (num n)) = some n
as_u64 _ = none

abbrev pub as_bool : Option Json → Option Bool
as_bool (some (bool b)) = some b
as_bool _ = none

-- serde_json: `to_string` of an object, and `from_str`.
pub record Serde : Type 0 where
  pub to_string : Fields → Option Text
  pub from_str : Text → Option Document

-- What is written is a text between braces, and is read back to an object with the same
-- entries; a text that is read to an object opens with a brace.
pub record IsSerde (serde : Serde) : Type 0 where
  pub to_string-IsText :
      (fields : Fields) (json : Text) → serde.to_string fields ≡ some json → IsText json
  pub trim-to_string :
      (fields : Fields) (json : Text) → serde.to_string fields ≡ some json → trim json ≡ json
  pub to_string-starts_with :
      (fields : Fields) (json : Text)
      → serde.to_string fields ≡ some json
      → starts_with (b'{' ∷ List.[]) json ≡ true
  pub from_str-to_string :
      (fields : Fields) (json : Text)
      → serde.to_string fields ≡ some json
      → (document : Document) × (serde.from_str json ≡ some document)
        × ((k : Text) → lookup document k ≡ get k fields)
  pub from_str-object :
      (s : Text) (fields : Fields)
      → serde.from_str s ≡ some (object fields)
      → starts_with (b'{' ∷ List.[]) (trim s) ≡ true

-- base64: the standard engine.
pub record Base64 : Type 0 where
  pub encode : Bytes → Text
  pub decode : Text → Option Bytes

-- `b.is_ascii_alphanumeric() || b == b'+' || b == b'/' || b == b'='`
abbrev pub is_base64 : ℕ → Bool
is_base64 c = is_alphanumeric c || c == b'+' || c == b'/' || c == b'='

-- Bytes are written in the alphabet, at least four characters to three bytes, and are read back;
-- four characters are read to three bytes at most.
pub record IsBase64 (b64 : Base64) : Type 0 where
  pub encode-is_base64 : (bytes : Bytes) → IsBytes bytes → all is_base64 (b64.encode bytes) ≡ true
  pub length-encode :
      (bytes : Bytes) → IsBytes bytes → 4 * length bytes ≤ 3 * length (b64.encode bytes)
  pub decode-encode : (bytes : Bytes) → IsBytes bytes → b64.decode (b64.encode bytes) ≡ some bytes
  pub length-decode :
      (s : Text) (bytes : Bytes) → b64.decode s ≡ some bytes → 4 * length bytes ≤ 3 * length s

-- aes_gcm: AES-256-GCM with a key, a nonce and a message.
pub record Aead : Type 0 where
  pub encrypt : Bytes → Bytes → Bytes → Option Bytes
  pub decrypt : Bytes → Bytes → Bytes → Option Bytes

-- A ciphertext is as long as its message and a tag of sixteen bytes, and the key opens it.
pub record IsAead (aead : Aead) : Type 0 where
  pub encrypt-IsBytes :
      (key nonce plain sealed : Bytes) → aead.encrypt key nonce plain ≡ some sealed → IsBytes sealed
  pub length-encrypt :
      (key nonce plain sealed : Bytes)
      → aead.encrypt key nonce plain ≡ some sealed
      → length sealed ≡ length plain + 16
  pub decrypt-encrypt :
      (key nonce plain sealed : Bytes)
      → aead.encrypt key nonce plain ≡ some sealed
      → aead.decrypt key nonce sealed ≡ some plain

-- k256, tiny_keccak and hex, as src/l0/eip191.rs calls them. A secret is a number; `sign` returns the
-- sixty-four bytes of a signature and its recovery id.
pub record Secp : Type 0 where
  pub keccak256 : Bytes → Bytes
  pub hex_encode : Bytes → Text
  pub hex_decode : Text → Option Bytes
  pub point : ℕ → Bytes
  pub sign_prehash : ℕ → Bytes → Option (Bytes × ℕ)
  pub recover_from_prehash : Bytes → Bytes → ℕ → Option Bytes

-- The hexadecimal digits of bytes are read back; a signature is of sixty-four bytes with a recovery id
-- below four, and recovers the public point of its secret.
pub record IsSecp (secp : Secp) : Type 0 where
  pub hex_encode-is_hexdigit :
      (bytes : Bytes) → IsBytes bytes → all is_hexdigit (secp.hex_encode bytes) ≡ true
  pub length-hex_encode :
      (bytes : Bytes) → IsBytes bytes → length (secp.hex_encode bytes) ≡ 2 * length bytes
  pub hex_decode-hex_encode :
      (bytes : Bytes) → IsBytes bytes → secp.hex_decode (secp.hex_encode bytes) ≡ some bytes
  pub sign_prehash-IsSignature :
      (secret : ℕ) (digest sig : Bytes) (recid : ℕ)
      → secp.sign_prehash secret digest ≡ some (sig, recid)
      → IsBytes sig × (length sig ≡ 64) × (recid < 4)
  pub recover_from_prehash-sign_prehash :
      (secret : ℕ) (digest sig : Bytes) (recid : ℕ)
      → secp.sign_prehash secret digest ≡ some (sig, recid)
      → secp.recover_from_prehash digest sig recid ≡ some (secp.point secret)
