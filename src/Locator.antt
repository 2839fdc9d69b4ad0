-- ===== src/Locator.antt =====
-- src/locator.rs: resource locators `web3://<host>/<path>`, stream targets `web3://<host>:<port>`, and the
-- local ports that a target may bind. `none` is an error of a parser.
pub mod Ports
pub mod Accepted
mod Tests
use co_net_l0d.Base.{
  ℕ, zero, suc, ◌+◌, ◌/◌, ◌^◌, Bool, true, false, not, ◌&&◌, ◌||◌, Option, none, some, List, [],
  ◌∷◌, ◌++◌, ltb, leb, ◌==◌, if◌then◌else◌, all, any, contains, is_empty, is_some, Text, codes,
  text_eq, is_alphanumeric, eq_ignore_case, strip_prefix, strip_suffix, starts_with, or_else,
  contains_char, contains_text, split_once, rsplit_once, trim, parse_uint, show,
}
use co_net_l0d.Eoa.{strip_hex, is_hex40, with_prefix}

pub data LocatorHost : Type 0 where
  eoa tag : Text → LocatorHost

pub data OverlayService : Type 0 where
  geth beacon : OverlayService

pub record ResourceLocator : Type 0 where
  pub host : LocatorHost
  pub path_and_query : Text

pub record ClientTarget : Type 0 where
  pub host : LocatorHost
  pub port : ℕ
  pub local_port : Option ℕ
  pub bind_port : ℕ

-- `u16::MAX` and `CLIENT_LOCAL_PORT_STRIDE`
abbrev pub u16_max : ℕ
u16_max = 65535

abbrev pub client_local_port_stride : ℕ
client_local_port_stride = 10000

abbrev eoa_of : Option Text → Option Text
eoa_of none = none
eoa_of (some hex) = if is_hex40 hex then some (with_prefix hex) else none

unfoldable pub parse_eoa : Text → Option Text
parse_eoa raw = eoa_of (strip_hex raw)

abbrev pub is_tag_char : ℕ → Bool
is_tag_char c = is_alphanumeric c || c == b'_' || c == b'-'

abbrev pub strip_web3 : Text → Option Text
strip_web3 host =
    or_else (strip_suffix (codes ".web3") host)
      (or_else (strip_suffix (codes ".WEB3") host) (strip_suffix (codes ".Web3") host))

abbrev as_eoa : Option Text → Option LocatorHost
as_eoa none = none
as_eoa (some t) = some (eoa t)

tag_or_eoa : Text → Option Text → Option LocatorHost
tag_or_eoa host none = as_eoa (parse_eoa host)
tag_or_eoa host (some t) =
    if is_empty t
    then none
    else if starts_with (codes "0x") t || starts_with (codes "0X") t
    then none
    else if not (all is_tag_char t)
    then none
    else some (tag t)

unfoldable pub parse_host : Text → Option LocatorHost
unfolding tag_or_eoa
parse_host host =
    if contains_char b'@' host
    then none
    else if eq_ignore_case host (codes "results[0]") || contains_text (codes "search-users") host
    then none
    else tag_or_eoa host (strip_web3 host)

abbrev pub strip_scheme : Text → Option Text
strip_scheme t = or_else (strip_prefix (codes "web3://") t) (strip_prefix (codes "WEB3://") t)

abbrev pub is_ascii_control : ℕ → Bool
is_ascii_control c = ltb c 32 || c == 127

abbrev pub is_ascii_whitespace : ℕ → Bool
is_ascii_whitespace c = c == 32 || c == 9 || c == 10 || c == 12 || c == 13

abbrev pub is_bad_in_path : ℕ → Bool
is_bad_in_path c = is_ascii_control c || is_ascii_whitespace c || c == 92

-- The two service paths in any case are written in lower case.
abbrev pub canonical_path : Text → Text
canonical_path path =
    if eq_ignore_case path (codes "/p2p/geth")
    then codes "/p2p/geth"
    else if eq_ignore_case path (codes "/p2p/beacon")
    then codes "/p2p/beacon"
    else path

abbrev resource_on : Text → Option LocatorHost → Option ResourceLocator
resource_on resource none = none
resource_on resource (some host) =
    some (record { host = host; path_and_query = canonical_path (b'/' ∷ resource) })

resource_of : Option (Text × Text) → Option ResourceLocator
resource_of none = none
resource_of (some (host_raw, resource_raw)) =
    if is_empty host_raw || contains_char b':' host_raw
    then none
    else if contains_char b'#' resource_raw
    then none
    else if any is_bad_in_path resource_raw
    then none
    else resource_on resource_raw (parse_host host_raw)

after_scheme : Option Text → Option ResourceLocator
unfolding resource_of
after_scheme none = none
after_scheme (some rest) =
    if contains_text (codes "://") rest then none else resource_of (split_once b'/' rest)

-- `Locator::parse`
unfoldable pub parse_locator : Text → Option ResourceLocator
unfolding after_scheme
parse_locator raw = after_scheme (strip_scheme (trim raw))

abbrev pub host_text : LocatorHost → Text
host_text (eoa t) = t
host_text (tag t) = t ++ codes ".web3"

-- `Locator::display`
abbrev pub display_locator : ResourceLocator → Text
display_locator l = codes "web3://" ++ host_text l.host ++ l.path_and_query

-- `Locator::service`
unfoldable pub locator_service : ResourceLocator → Option OverlayService
locator_service l =
    if text_eq l.path_and_query (codes "/p2p/geth")
    then some geth
    else if text_eq l.path_and_query (codes "/p2p/beacon")
    then some beacon
    else none

abbrev target_on : ℕ → Option ℕ → Option LocatorHost → Option ClientTarget
target_on port local_port none = none
target_on port none (some host) =
    some (record { host = host; port = port; local_port = none; bind_port = port })
target_on port (some local) (some host) =
    some (record { host = host; port = port; local_port = some local; bind_port = local })

-- A port that is not zero.
abbrev pub port_of : Text → Option ℕ
port_of raw = elim (parse_uint u16_max raw) [
  | none ↦ none
  | some p ↦ if p == 0 then none else some p
]

with_local : Text → ℕ → Option Text → Option ClientTarget
with_local host_raw port none = target_on port none (parse_host host_raw)
with_local host_raw port (some raw) = elim (port_of raw) [
  | none ↦ none
  | some local ↦ target_on port (some local) (parse_host host_raw)
]

with_port : Text → Option Text → Option ℕ → Option ClientTarget
unfolding with_local
with_port host_raw local_raw none = none
with_port host_raw local_raw (some port) = with_local host_raw port local_raw

abbrev bad_local : Option Text → Bool
bad_local none = false
bad_local (some s) = is_empty s || contains_char b'@' s

logical_and_local : Text → Text → Option Text → Option ClientTarget
unfolding with_port
logical_and_local host_raw logical_raw local_raw =
    if is_empty logical_raw || bad_local local_raw
    then none
    else with_port host_raw local_raw (port_of logical_raw)

split_local : Text → Text → Option (Text × Text) → Option ClientTarget
unfolding logical_and_local
split_local host_raw port_raw none = logical_and_local host_raw port_raw none
split_local host_raw port_raw (some (logical, local)) =
    logical_and_local host_raw logical (some local)

host_and_port : Option (Text × Text) → Option ClientTarget
unfolding split_local
host_and_port none = none
host_and_port (some (host_raw, port_raw)) =
    if is_empty host_raw || contains_char b':' host_raw
    then none
    else split_local host_raw port_raw (split_once b'@' port_raw)

target_rest : Option Text → Option ClientTarget
unfolding host_and_port
target_rest none = none
target_rest (some rest) =
    if contains_text (codes "://") rest || contains_char b'/' rest
    then none
    else host_and_port (rsplit_once b':' rest)

-- `ClientTarget::parse`
unfoldable pub parse_target : Text → Option ClientTarget
unfolding target_rest
parse_target raw = target_rest (strip_scheme (trim raw))

-- `ClientTarget::display` and `display_with_local`
abbrev pub display_target : ClientTarget → Text
display_target t = codes "web3://" ++ host_text t.host ++ b':' ∷ show t.port

abbrev pub display_with_local : ClientTarget → Text
display_with_local t = elim t.local_port [
  | none ↦ display_target t
  | some local ↦ display_target t ++ b'@' ∷ show local
]
