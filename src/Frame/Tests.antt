-- ===== src/Frame/Tests.antt =====
-- Tests and instances for src/l0/frame.rs.
use co_net_l0d.Base.{◌≡◌, ◌↔◌, refl, [], ◌∷◌, arith, Bytes, be_bytes, from_be}
use co_net_l0d.Frame.{encode, ok, err, bad_magic, too_short, unsupported_version, decode}
use co_net_l0d.Frame.RoundTrip.{decode-eq-ok_iff}

abbrev payload : Bytes
payload = 0x45 ∷ 0 ∷ 0 ∷ 0x14 ∷ []

frames :
    (decode (encode 7 payload) ≡ ok 7 payload)
    × (decode (b'X' ∷ b'0' ∷ b'D' ∷ b'1' ∷ 1 ∷ 0 ∷ 0 ∷ 0 ∷ 0 ∷ 0 ∷ 0 ∷ 0 ∷ 1 ∷ 0x45 ∷ [])
        ≡ err bad_magic)
    × (decode payload ≡ err too_short)
    × (decode (b'L' ∷ b'0' ∷ b'D' ∷ b'1' ∷ 2 ∷ 0 ∷ 0 ∷ 0 ∷ 0 ∷ 0 ∷ 0 ∷ 0 ∷ 1 ∷ [])
        ≡ err (unsupported_version 2))
unfolding decode encode be_bytes from_be
frames = (refl, refl, refl, refl)

decode-eq-ok_iff_example :
    (decode (b'L' ∷ b'0' ∷ b'D' ∷ b'1' ∷ 1 ∷ 0 ∷ 0 ∷ 0 ∷ 0 ∷ 0 ∷ 0 ∷ 1 ∷ 2 ∷ 0x45 ∷ [])
      ≡ ok 258 (0x45 ∷ []))
    ↔ ((b'L' ∷ b'0' ∷ b'D' ∷ b'1' ∷ 1 ∷ 0 ∷ 0 ∷ 0 ∷ 0 ∷ 0 ∷ 0 ∷ 1 ∷ 2 ∷ 0x45 ∷ [])
        ≡ encode 258 (0x45 ∷ []))
decode-eq-ok_iff_example =
    decode-eq-ok_iff (b'L' ∷ b'0' ∷ b'D' ∷ b'1' ∷ 1 ∷ 0 ∷ 0 ∷ 0 ∷ 0 ∷ 0 ∷ 0 ∷ 1 ∷ 2 ∷ 0x45 ∷ [])
      (0x45 ∷ []) 258 (omega arith) (omega arith)
