-- ===== src/Aes.antt =====
-- src/l0/aes.rs: the wire form of AES-256-GCM, base64 of the nonce before the ciphertext. The nonce that
-- `seal` draws is an argument of it.

use co_net_l0d.Base.{
  ℕ, ◌<◌, ◌≡◌, refl, ap, ◌∙◌, Option, some, ◌++◌, arith, ltb, ◌==◌, length, length-append, take,
  drop, take-append, drop-append, Text, trim, All-append, Bytes, IsBytes, ◌>>=◌, ◌>>◌, guard,
  >>=-eq-some, is_whitespace, trim-visible, true, false, sym,
}
use co_net_l0d.Crates.{Base64, IsBase64, Aead, IsAead, is_base64}

abbrev pub key_len : ℕ
key_len = 32

abbrev pub nonce_len : ℕ
nonce_len = 12

module _ (b64 : Base64) where
  unfoldable pub key_from_standard_b64 : Text → Option Bytes
  key_from_standard_b64 raw = do
    bytes ← b64.decode (trim raw)
    guard (length bytes == key_len)
    some bytes

  unfoldable pub key_to_standard_b64 : Bytes → Text
  key_to_standard_b64 key = b64.encode key

  module _ (aead : Aead) where
    unfoldable pub seal : Bytes → Bytes → Bytes → Option Text
    seal nonce key plaintext = do
      ct ← aead.encrypt key nonce plaintext
      some (b64.encode (nonce ++ ct))

    unfoldable pub open_sealed : Bytes → Text → Option Bytes
    open_sealed key payload_b64 = do
      packed ← b64.decode (trim payload_b64)
      guard (ltb nonce_len (length packed))
      aead.decrypt key (take nonce_len packed) (drop nonce_len packed)

pub is_base64_visible : (c : ℕ) → is_base64 c ≡ true → is_whitespace c ≡ false
is_base64_visible c h = ground arith

module _ (b64 : Base64) (laws : IsBase64 b64) where
  pub trim-b64_encode : (bytes : Bytes) → IsBytes bytes → trim (b64.encode bytes) ≡ b64.encode bytes
  trim-b64_encode bytes h =
      trim-visible is_base64 is_base64_visible (b64.encode bytes) (laws.encode-is_base64 bytes h)

  pub decode-trim :
      (bytes : Bytes) → IsBytes bytes → b64.decode (trim (b64.encode bytes)) ≡ some bytes
  decode-trim bytes h = ap b64.decode (trim-b64_encode bytes h) ∙ laws.decode-encode bytes h

  -- A key of 32 bytes is read back from its text.
  pub key_from_standard_b64-key_to_standard_b64 :
      (key : Bytes)
      → IsBytes key
      → length key ≡ key_len
      → key_from_standard_b64 b64 (key_to_standard_b64 b64 key) ≡ some key
  unfolding key_from_standard_b64 key_to_standard_b64
  key_from_standard_b64-key_to_standard_b64 key bytes size =
      rw (decode-trim key bytes) (rw size refl)

  module _ (aead : Aead) (aead_laws : IsAead aead) where
    -- What is sealed is the text of a nonce before a ciphertext.
    pub seal-shape :
        (nonce key plain : Bytes) (blob : Text)
        → seal b64 aead nonce key plain ≡ some blob
        → (ct : Bytes) × (aead.encrypt key nonce plain ≡ some ct)
          × (blob ≡ b64.encode (nonce ++ ct))
    unfolding seal
    seal-shape nonce key plain blob h =
        let (ct, sealed, e) = >>=-eq-some (aead.encrypt key nonce plain) _ h in
        (ct, sealed, ground arith)

    -- What was sealed under a key is opened with it.
    pub open_sealed-seal :
        (nonce key plain : Bytes) (blob : Text)
        → IsBytes nonce
        → length nonce ≡ nonce_len
        → seal b64 aead nonce key plain ≡ some blob
        → open_sealed b64 aead key blob ≡ some plain
    unfolding open_sealed
    open_sealed-seal nonce key plain blob bytes size h =
        let (ct, sealed, e) = seal-shape nonce key plain blob h in
        let tail = aead_laws.encrypt-IsBytes key nonce plain ct sealed in
        let whole = All-append (λ b. b < 256) nonce ct bytes tail in
        let long : ltb nonce_len (length (nonce ++ ct)) ≡ true =
          ground
            (arith, length-append nonce ct, aead_laws.length-encrypt key nonce plain ct sealed) in
        let front : take nonce_len (nonce ++ ct) ≡ nonce =
          ap (λ n. take n (nonce ++ ct)) (sym size) ∙ take-append nonce ct in
        let back : drop nonce_len (nonce ++ ct) ≡ ct =
          ap (λ n. drop n (nonce ++ ct)) (sym size) ∙ drop-append nonce ct in
        rw e (
          rw (decode-trim (nonce ++ ct) whole)
            (rw (long, front, back) (aead_laws.decrypt-encrypt key nonce plain ct sealed)))
