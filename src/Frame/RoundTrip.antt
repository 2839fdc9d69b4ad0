-- ===== src/Frame/RoundTrip.antt =====
-- `decode` and `encode` of src/l0/frame.rs are inverse to one another.
use co_net_l0d.Base.{
  ℕ, ◌^◌, ◌<◌, ◌≡◌, refl, ap, ◌∙◌, ◌↔◌, [], ◌∷◌, ◌++◌, arith, length, Bytes, IsBytes, be_bytes,
  from_be, length-be_bytes, from_be-be_bytes, be_bytes-from_be, be_bytes-IsBytes, All-append,
}
use co_net_l0d.Frame.{magic, version, encode, ok, decode}

-- The fields of a frame, by position.
decode_at :
    (seq : Bytes) (rest : Bytes)
    → length seq ≡ 8
    → decode (((magic ++ version ∷ []) ++ seq) ++ rest) ≡ ok (from_be seq) rest
unfolding decode
decode_at (a ∷ b ∷ c ∷ d ∷ e ∷ f ∷ g ∷ h ∷ []) rest n = ground arith
decode_at _ rest n = absurd (omega arith)

-- Decoding a frame gives back its sequence number and its payload, for every 64-bit sequence number
-- and every payload.
pub decode-encode : (seq : ℕ) (ipv4 : Bytes) → seq < 2 ^ 64 → decode (encode seq ipv4) ≡ ok seq ipv4
unfolding encode
decode-encode seq ipv4 h =
    decode_at (be_bytes 8 seq) ipv4 (length-be_bytes 8 seq)
    ∙ ap (λ n. ok n ipv4) (from_be-be_bytes 8 seq h)

decode_shape :
    (l o d one : ℕ) (seq rest : Bytes)
    → l ∷ o ∷ d ∷ one ∷ [] ≡ magic
    → (v : ℕ) → v ≡ version
    → length seq ≡ 8
    → IsBytes seq
    → (l ∷ o ∷ d ∷ one ∷ v ∷ (seq ++ rest)) ≡ encode (from_be seq) rest
unfolding encode
decode_shape l o d one seq rest m v e n bytes =
    let back : be_bytes 8 (from_be seq) ≡ seq = rw n at (be_bytes-from_be seq bytes) in
    cc (m, e, back)

decode_inverse :
    (buf rest : Bytes) (seq : ℕ) → IsBytes buf → decode buf ≡ ok seq rest → buf ≡ encode seq rest
unfolding decode
decode_inverse (l ∷ o ∷ d ∷ one ∷ v ∷ a ∷ b ∷ c ∷ e ∷ f ∷ g ∷ h ∷ i ∷ rest) out seq bytes got =
    let q : Bytes = a ∷ b ∷ c ∷ e ∷ f ∷ g ∷ h ∷ i ∷ [] in
    let same : (out ≡ rest) × (seq ≡ from_be q) = ground arith in
    rw (same.0, same.1)
      (decode_shape l o d one q rest (ground arith) v (ground arith) refl (ground arith))
decode_inverse _ rest seq bytes got = ground arith

-- A byte string decodes to a sequence number and a payload exactly when it is their encoding:
-- whatever `decode` accepts is written again as it was, and it accepts all that `encode` writes.
pub decode-eq-ok_iff :
    (buf rest : Bytes) (seq : ℕ)
    → IsBytes buf
    → seq < 2 ^ 64
    → (decode buf ≡ ok seq rest) ↔ (buf ≡ encode seq rest)
decode-eq-ok_iff buf rest seq bytes h =
    (decode_inverse buf rest seq bytes, λ e. ap decode e ∙ decode-encode seq rest h)

-- A frame is bytes, where its payload is.
pub encode-IsBytes : (seq : ℕ) (ipv4 : Bytes) → IsBytes ipv4 → IsBytes (encode seq ipv4)
unfolding encode
encode-IsBytes seq ipv4 h =
    All-append (λ b. b < 256) ((magic ++ version ∷ []) ++ be_bytes 8 seq) ipv4
      (All-append (λ b. b < 256) (magic ++ version ∷ []) (be_bytes 8 seq)
        (omega arith, (omega arith, (omega arith, (omega arith, (omega arith, tt)))))
        (be_bytes-IsBytes 8 seq))
      h
