-- ===== src/Locator/Accepted.antt =====
-- What the parsers of src/locator.rs accept.
use co_net_l0d.Base.{
  contains_char, unwrap_or, ◌∷◌, ◌++◌, ℕ, ◌≤◌, ◌≡◌, true, false, Option, none, some, all, is_empty,
  Text, codes, starts_with, trim, parse_uint,
}
use co_net_l0d.Eoa.{normalize_eoa}
use co_net_l0d.Locator.{
  LocatorHost, eoa, tag, ClientTarget, u16_max, is_tag_char, strip_scheme, parse_host,
}

-- A host that may be addressed: an address in its normal form, or a tag of letters, digits, `_` and `-`
-- that does not look like an address.
abbrev pub IsHost : LocatorHost → Type 0
IsHost (eoa t) = normalize_eoa t ≡ some t
IsHost (tag t) =
    (is_empty t ≡ false)
    × (starts_with (codes "0x") t ≡ false)
    × (starts_with (codes "0X") t ≡ false)
    × (all is_tag_char t ≡ true)

abbrev pub IsPort : ℕ → Type 0
IsPort p = (1 ≤ p) × (p ≤ u16_max)

-- What is written behind the host: the port, or the port, `@` and a local port, in digits.
abbrev pub Asks : Text → ℕ → Option ℕ → Type 0
Asks port_raw port none =
    (contains_char b'@' port_raw ≡ false) × (parse_uint u16_max port_raw ≡ some port)
Asks port_raw port (some local) =
    (logical : Text) × (local_raw : Text) × (port_raw ≡ logical ++ b'@' ∷ local_raw)
    × (parse_uint u16_max logical ≡ some port)
    × (parse_uint u16_max local_raw ≡ some local)

-- The target is what the two texts name.
pub record Names (host_raw port_raw : Text) (t : ClientTarget) : Type 0 where
  pub named : parse_host host_raw ≡ some t.host
  pub host_ok : IsHost t.host
  pub port_ok : IsPort t.port
  pub bind_ok : IsPort t.bind_port
  pub asks : Asks port_raw t.port t.local_port
  pub binds : t.bind_port ≡ unwrap_or t.port t.local_port

abbrev pub IsTarget : Text → ClientTarget → Type 0
IsTarget raw t =
    (host_raw : Text) × (port_raw : Text) × (strip_scheme (trim raw)
      ≡ some (host_raw ++ b':' ∷ port_raw))
    × Names host_raw port_raw t

abbrev or_this : ClientTarget → Option ClientTarget → ClientTarget
or_this t none = t
or_this t (some u) = u

-- How the text of the ports is made of that of the port and that of the local one.
abbrev Parted : Text → Text → Option Text → Type 0
Parted port_raw logical none = (port_raw ≡ logical) × (contains_char b'@' port_raw ≡ false)
Parted port_raw logical (some local_raw) = port_raw ≡ logical ++ b'@' ∷ local_raw
