-- ===== src/Frame.antt =====
-- src/l0/frame.rs: the binary overlay frame, `L0D1`, a version byte, a big-endian sequence number
-- and the payload.
pub mod RoundTrip
mod Tests
use co_net_l0d.Base.{
  ℕ, ◌+◌, not, List, [], ◌∷◌, ◌++◌, ltb, ◌==◌, if◌then◌else◌, length, take, drop, get_or, text_eq,
  Bytes, be_bytes, from_be,
}

-- `b"L0D1"`
abbrev pub magic : Bytes
magic = b'L' ∷ b'0' ∷ b'D' ∷ b'1' ∷ []

abbrev pub version : ℕ
version = 1

abbrev pub header_len : ℕ
header_len = 13

unfoldable pub encode : ℕ → Bytes → Bytes
encode seq ipv4 = ((magic ++ version ∷ []) ++ be_bytes 8 seq) ++ ipv4

pub data FrameError : Type 0 where
  too_short bad_magic : FrameError
  unsupported_version : ℕ → FrameError

pub data Decoded : Type 0 where
  ok : ℕ → Bytes → Decoded
  err : FrameError → Decoded

unfoldable pub decode : Bytes → Decoded
decode buf =
    if ltb (length buf) header_len
    then err too_short
    else if not (text_eq (take 4 buf) magic)
    then err bad_magic
    else if not (get_or buf 4 0 == version)
    then err (unsupported_version (get_or buf 4 0))
    else ok (from_be (take 8 (drop 5 buf))) (drop header_len buf)
