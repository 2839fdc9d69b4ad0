-- ===== src/Envelope/Tests.antt =====
-- Tests and instances for src/l0/envelope.rs.
use mathlib.Core.Path.{ap₂}
use co_net_l0d.Base.{
  length, take, drop, take-append, drop-append, ◌∙◌, subst, ℕ, ◌≡◌, refl, Option, none, some, List,
  [], ◌∷◌, ◌++◌, arith, concat, Text, codes, Bytes,
}
use co_net_l0d.Envelope.{split_loop, split_ipv4_datagrams}
use co_net_l0d.Envelope.Split.{
  Covers, split_ipv4_datagrams-Covers, IsDatagram, split_ipv4_datagrams-concat,
}
use co_net_l0d.Envelope.Json.{
  OverlayEnvelope, ok, Codec, IsCodec, sealed, encode, decode, decode_envelope-encode,
}

-- `mini_ipv4`
abbrev mini : ℕ → Bytes
mini id = 0x45 ∷ 0 ∷ 0 ∷ 20 ∷ 0 ∷ 0 ∷ 0 ∷ 0 ∷ 0 ∷ 6 ∷ 0 ∷ 0 ∷ 0 ∷ 0 ∷ 0 ∷ 0 ∷ 0 ∷ 0 ∷ 0 ∷ id ∷ []

splits :
    (split_ipv4_datagrams (mini 1 ++ mini 2) ≡ some (mini 1 ∷ mini 2 ∷ []))
    × (split_ipv4_datagrams (mini 1 ++ 7 ∷ []) ≡ some (mini 1 ∷ (7 ∷ []) ∷ []))
    × (split_ipv4_datagrams (0x45 ∷ 0 ∷ []) ≡ some ((0x45 ∷ 0 ∷ []) ∷ []))
    × (split_ipv4_datagrams [] ≡ none)
unfolding split_ipv4_datagrams split_loop
splits = (refl, refl, refl, refl)

split_ipv4_datagrams-Covers_example :
    (pieces : List Bytes) × (split_ipv4_datagrams (mini 1 ++ 7 ∷ []) ≡ some pieces)
    × Covers (mini 1 ++ 7 ∷ []) pieces
split_ipv4_datagrams-Covers_example =
    split_ipv4_datagrams-Covers (mini 1 ++ 7 ∷ []) (λ e. ground arith)

mini-IsDatagram : (id : ℕ) → IsDatagram (mini id)
mini-IsDatagram id = record { minimal = omega arith; version_four = refl; whole = refl }

split_ipv4_datagrams-concat_example :
    split_ipv4_datagrams (concat (mini 1 ∷ mini 2 ∷ [])) ≡ some (mini 1 ∷ mini 2 ∷ [])
split_ipv4_datagrams-concat_example =
    split_ipv4_datagrams-concat (mini 1) (mini 2 ∷ []) (mini-IsDatagram 1, (mini-IsDatagram 2, tt))

-- A codec that writes each text behind its length, and the bytes as they are.
abbrev write : OverlayEnvelope → Text
write e = length e.kind ∷ (e.kind ++ (length e.sender ∷ (e.sender ++ (e.seq ∷ e.ipv4))))

abbrev read_rest : Text → Text → Text → Option OverlayEnvelope
read_rest kind sender [] = none
read_rest kind sender (seq ∷ body) =
    some (record { kind = kind; sender = sender; seq = seq; ipv4 = body })

abbrev read_sender : Text → Text → Option OverlayEnvelope
read_sender kind [] = none
read_sender kind (n ∷ rest) = read_rest kind (take n rest) (drop n rest)

abbrev read : Text → Option OverlayEnvelope
read [] = none
read (n ∷ rest) = read_sender (take n rest) (drop n rest)

read-write : (e : OverlayEnvelope) → read (write e) ≡ some e
read-write e =
    let body = e.seq ∷ e.ipv4 in
    ap₂ read_sender (take-append e.kind _) (drop-append e.kind _)
    ∙ ap₂ (read_rest e.kind) (take-append e.sender body) (drop-append e.sender body)

abbrev plain_codec : Codec
plain_codec = record {
  to_string = λ e. some (write e);
  from_str = read;
  b64_encode = λ bytes. bytes;
  b64_decode = some;
}

plain_codec-IsCodec : IsCodec plain_codec
plain_codec-IsCodec = record {
  from_str-to_string = λ e json h.
      let same : write e ≡ json = cc in subst (λ j. read j ≡ some e) same (read-write e);
  b64_decode-b64_encode = λ bytes. refl;
}

decode_envelope-encode_example :
    decode plain_codec (write (sealed plain_codec (codes "0xAB") 3 (mini 1)))
    ≡ ok
        (record {
          kind = codes "conet_l0d_overlay_v1";
          sender = codes "0xab";
          seq = 3;
          ipv4 = plain_codec.b64_encode (mini 1);
        })
        (mini 1)
unfolding encode
decode_envelope-encode_example =
    decode_envelope-encode plain_codec plain_codec-IsCodec (codes "0xAB") 3 (mini 1) _ refl
