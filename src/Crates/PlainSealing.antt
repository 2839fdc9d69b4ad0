-- ===== src/Crates/PlainSealing.antt =====
-- Functions that meet what is documented of base64 and aes_gcm, small enough to be evaluated.
use mathlib.Core.Option
use co_net_l0d.Base.{
  ℕ, zero, suc, ◌+◌, ◌-◌, ◌*◌, ◌/◌, ◌%◌, ◌≡◌, refl, ap, ◌∙◌, subst, inl, inr, Bool, true, ◌&&◌,
  Option, none, some, [], ◌∷◌, ◌++◌, arith, ltb, if◌then◌else◌, Bool-cases, &&-true, length, drop,
  all, replicate, Text, within, text_key, Bytes, IsBytes,
}
use co_net_l0d.Crates.{Base64, IsBase64, is_base64, Aead, IsAead}

-- base64: two letters from `A` to `P` for each byte.
abbrev letters : Bytes → Text
letters [] = []
letters (b ∷ bytes) = (b'A' + b / 16) ∷ (b'A' + b % 16) ∷ letters bytes

abbrev unletter : ℕ → ℕ → Option Bytes → Option Bytes
unletter c d rest =
    if within b'A' b'P' c && within b'A' b'P' d
    then Option.map (λ r. ((c - b'A') * 16 + (d - b'A')) ∷ r) rest
    else none

abbrev unletters : Text → Option Bytes
unletters [] = some []
unletters (c ∷ []) = none
unletters (c ∷ d ∷ s) = unletter c d (unletters s)

abbrev pub plain_base64 : Base64
plain_base64 = record { encode = letters; decode = unletters }

letters-is_base64 : (bytes : Bytes) → IsBytes bytes → all is_base64 (letters bytes) ≡ true
letters-is_base64 [] h = refl
letters-is_base64 (b ∷ bytes) (h, hs) =
    let high : is_base64 (b'A' + b / 16) ≡ true = ground arith in
    let low : is_base64 (b'A' + b % 16) ≡ true = ground arith in
    rw (high, low, letters-is_base64 bytes hs) refl

length-letters : (bytes : Bytes) → length (letters bytes) ≡ 2 * length bytes
length-letters [] = refl
length-letters (b ∷ bytes) = omega (arith, length-letters bytes)

unletters-letters : (bytes : Bytes) → IsBytes bytes → unletters (letters bytes) ≡ some bytes
unletters-letters [] h = refl
unletters-letters (b ∷ bytes) (h, hs) =
    ap (unletter (b'A' + b / 16) (b'A' + b % 16)) (unletters-letters bytes hs) ∙ ground arith

length-unletters :
    (s : Text) (bytes : Bytes) → unletters s ≡ some bytes → length s ≡ 2 * length bytes
length-unletters [] bytes h = ground arith
length-unletters (c ∷ []) bytes h = absurd (ground arith)
length-unletters (c ∷ d ∷ s) [] h = absurd (ground arith)
length-unletters (c ∷ d ∷ s) (b ∷ bytes) h = ground (arith, length-unletters s bytes)

pub plain_base64-IsBase64 : IsBase64 plain_base64
plain_base64-IsBase64 = record {
  encode-is_base64 = letters-is_base64;
  length-encode = λ bytes h. omega (arith, length-letters bytes);
  decode-encode = unletters-letters;
  length-decode = λ s bytes h. omega (arith, length-unletters s bytes h);
}

-- aes_gcm: the message behind a tag of zeros.
abbrev is_bytes : Bytes → Bool
is_bytes bytes = all (λ b. ltb b 256) bytes

abbrev pub plain_aead : Aead
plain_aead = record {
  encrypt = λ key nonce plain. if is_bytes plain then some (replicate 16 0 ++ plain) else none;
  decrypt = λ key nonce sealed. some (drop 16 sealed);
}

is_bytes-IsBytes : (bytes : Bytes) → is_bytes bytes ≡ true → IsBytes bytes
is_bytes-IsBytes [] h = tt
is_bytes-IsBytes (b ∷ bytes) h =
    let (now, later) = &&-true (ltb b 256) (is_bytes bytes) h in
    (ground arith, is_bytes-IsBytes bytes later)

tagged :
    (plain sealed : Bytes)
    → (if is_bytes plain then some (replicate 16 0 ++ plain) else none) ≡ some sealed
    → (is_bytes plain ≡ true) × (replicate 16 0 ++ plain ≡ sealed)
tagged plain sealed h = elim (Bool-cases (is_bytes plain)) [
  | inl good ↦ (good, ground arith)
  | inr bad ↦ absurd (ground arith)
]

zeros-IsBytes : (n : ℕ) (bytes : Bytes) → IsBytes bytes → IsBytes (replicate n 0 ++ bytes)
zeros-IsBytes zero bytes h = h
zeros-IsBytes (suc n) bytes h = (omega arith, zeros-IsBytes n bytes h)

pub plain_aead-IsAead : IsAead plain_aead
plain_aead-IsAead = record {
  encrypt-IsBytes = λ key nonce plain sealed h.
      let (good, same) = tagged plain sealed h in
      subst IsBytes same (zeros-IsBytes 16 plain (is_bytes-IsBytes plain good));
  length-encrypt = λ key nonce plain sealed h.
      let (good, same) = tagged plain sealed h in
      subst (λ s. length s ≡ length plain + 16) same (omega arith);
  decrypt-encrypt = λ key nonce plain sealed h.
      let (good, same) = tagged plain sealed h in
      subst (λ s. some (drop 16 s) ≡ some plain) same refl;
}
