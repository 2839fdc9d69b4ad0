-- ===== src/Eoa.antt =====
-- Wallet addresses: `normalize_eoa` and `eoa_eq` of src/l0/eip191.rs, and the wider
-- `normalize_eoa` of src/l0/duplex.rs. `none` is the error.
pub mod Laws
pub mod Digits
pub mod Sign
mod Tests
use co_net_l0d.Base.{
  ℕ, Bool, true, false, not, ◌&&◌, ◌||◌, Option, none, some, [], ◌∷◌, ◌++◌, ◌==◌, if◌then◌else◌,
  all, drop, Text, codes, text_eq, is_hexdigit, to_lowercase, len, strip_prefix, starts_with,
  or_else, trim,
}

-- `raw.strip_prefix("0x").or_else(|| raw.strip_prefix("0X"))`
abbrev pub strip_hex : Text → Option Text
strip_hex raw = or_else (strip_prefix (codes "0x") raw) (strip_prefix (codes "0X") raw)

abbrev pub is_hex40 : Text → Bool
is_hex40 hex = len hex == 40 && all is_hexdigit hex

abbrev pub with_prefix : Text → Text
with_prefix hex = b'0' ∷ b'x' ∷ to_lowercase hex

unfoldable pub normalize_hex : Option Text → Option Text
normalize_hex none = none
normalize_hex (some hex) = if is_hex40 hex then some (with_prefix hex) else none

unfoldable pub normalize_eoa : Text → Option Text
unfolding normalize_hex
normalize_eoa raw = normalize_hex (strip_hex raw)

-- `==` of two `Option<&str>`
abbrev pub option_eq : Option Text → Option Text → Bool
option_eq none none = true
option_eq none (some t) = false
option_eq (some s) none = false
option_eq (some s) (some t) = text_eq s t

unfoldable pub eoa_eq : Text → Text → Bool
eoa_eq a b = option_eq (normalize_eoa a) (normalize_eoa b)

-- `normalize_eoa` of src/l0/duplex.rs, on the trimmed text: the prefix may be missing.
unfoldable pub duplex_normalize_trimmed : Text → Option Text
duplex_normalize_trimmed t =
    if not (len t == 42) || (not (starts_with (codes "0x") t) && not (starts_with (codes "0X") t))
    then (if len (to_lowercase t) == 40 && all is_hexdigit (to_lowercase t)
        then some (b'0' ∷ b'x' ∷ to_lowercase t)
        else none)
    else if is_hex40 (drop 2 t)
    then some (with_prefix (drop 2 t))
    else none

unfoldable pub duplex_normalize_eoa : Text → Option Text
unfolding duplex_normalize_trimmed
duplex_normalize_eoa raw = duplex_normalize_trimmed (trim raw)
