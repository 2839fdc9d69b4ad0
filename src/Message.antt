-- ===== src/Message.antt =====
-- The messages of src/l0/duplex.rs. `none` is an error; its text is only for the log. This file holds what
-- the writers and the readers share, Message/Encode.antt the writers, Message/Parse.antt the readers.
pub mod Encode
pub mod Parse
pub mod Signed
pub mod Documents
pub mod Fields
pub mod Written
pub mod RoundTrip
pub mod Wrapped
pub mod Authority
pub mod Handshake
pub mod Blob
pub mod Nesting
mod Tests
use co_net_l0d.Base.{
  ℕ, Bool, true, false, Option, none, some, ◌==◌, leb, Text, codes, text_eq, trim, all, len,
  is_hexdigit, ◌&&◌, ◌>>=◌, ◌>>◌, guard, Bytes,
}
use co_net_l0d.Crates.{Json, Document, Serde, lookup, as_str, as_u64, as_bool}

-- What a document holds under each key.
abbrev pub Lookup : Type 0
Lookup = Text → Option Json

-- `v.get(key).and_then(Value::as_str)`, `as_u64` and `as_bool`
abbrev pub str_at : Lookup → Text → Option Text
str_at v key = as_str (v key)

abbrev pub nat_at : Lookup → Text → Option ℕ
nat_at v key = as_u64 (v key)

abbrev pub bool_at : Lookup → Text → Option Bool
bool_at v key = as_bool (v key)

-- `v.get(key).and_then(Value::as_str) == Some(word)`
abbrev pub is_word : Text → Option Text → Bool
is_word word none = false
is_word word (some s) = text_eq s word

-- `is_valid_session_id`
abbrev pub is_valid_session_id : Text → Bool
is_valid_session_id raw = len raw == 64 && all is_hexdigit raw

-- `serde_json::from_str(text)`, as a function of the key.
abbrev pub document : Serde → Text → Option Lookup
document serde s = do d ← serde.from_str s; some (lookup d)
