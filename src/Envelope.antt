-- ===== src/Envelope.antt =====
-- src/l0/envelope.rs: several IPv4 datagrams packed into one buffer, and the overlay JSON envelope.
pub mod Split
pub mod Json
mod Tests
use co_net_l0d.Base.{
  ℕ, zero, suc, ◌/◌, Bool, not, ◌&&◌, ◌||◌, List, [], ◌∷◌, Option, none, some, ltb, ◌==◌,
  if◌then◌else◌, length, take, drop, is_empty, Bytes,
}
use co_net_l0d.Packet.{at, be16, version}

-- Too short for an IPv4 header, or not of version 4.
abbrev pub is_opaque : Bytes → Bool
is_opaque rest = ltb (length rest) 20 || not (version rest == 4)

-- `tot_len` of the header
abbrev pub tot_len : Bytes → ℕ
tot_len rest = be16 (at rest 2) (at rest 3)

-- The loop of `split_ipv4_datagrams` over what is left of the buffer. Each round takes at least
-- twenty bytes, so that as many rounds as bytes are enough.
unfoldable pub split_loop : ℕ → Bytes → List Bytes
split_loop zero rest = []
split_loop (suc fuel) [] = []
split_loop (suc fuel) (b ∷ bs) =
    let rest = b ∷ bs in
    let more = take (tot_len rest) rest ∷ split_loop fuel (drop (tot_len rest) rest) in
    if is_opaque rest
    then rest ∷ []
    else if ltb (tot_len rest) 20 || ltb (length rest) (tot_len rest)
    then rest ∷ []
    else more

-- `none` is the error of an empty buffer.
unfoldable pub split_ipv4_datagrams : Bytes → Option (List Bytes)
split_ipv4_datagrams buf =
    if is_empty buf
    then none
    else if is_opaque buf
    then some (buf ∷ [])
    else some (split_loop (length buf) buf)

-- `looks_like_ipv4` of src/l0/listen.rs
unfoldable pub looks_like_ipv4 : Bytes → Bool
looks_like_ipv4 pkt = not (ltb (length pkt) 20) && version pkt == 4
