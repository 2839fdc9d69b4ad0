-- ===== src/Crates/PlainSecp.antt =====
-- Functions that meet what is documented of k256, tiny_keccak and hex, small enough to be evaluated.
use mathlib.Core.Option
use co_net_l0d.Base.{
  ℕ, zero, suc, ◌+◌, ◌-◌, ◌*◌, ◌/◌, ◌%◌, ◌<◌, ◌≡◌, refl, ap, ◌∙◌, subst, inl, inr, true, Option,
  none, some, [], ◌∷◌, arith, ltb, if◌then◌else◌, Bool-cases, length, take, get_or, all, replicate,
  Text, is_hexdigit, text_key, Bytes, IsBytes,
}
use co_net_l0d.Crates.{Secp, IsSecp}

-- k256, tiny_keccak and hex: the digits of hex, a hash that takes the first bytes, and signatures of
-- secrets below 256, which are the secret itself.
abbrev digit : ℕ → ℕ
digit n = if ltb n 10 then b'0' + n else b'a' + (n - 10)

abbrev undigit : ℕ → ℕ
undigit c = if ltb c b'a' then c - b'0' else c - b'a' + 10

abbrev hex_of : Bytes → Text
hex_of [] = []
hex_of (b ∷ bytes) = digit (b / 16) ∷ digit (b % 16) ∷ hex_of bytes

abbrev unhex : Text → Option Bytes
unhex [] = some []
unhex (c ∷ []) = none
unhex (c ∷ d ∷ s) = Option.map (λ r. (undigit c * 16 + undigit d) ∷ r) (unhex s)

abbrev plain_point : ℕ → Bytes
plain_point secret = 4 ∷ replicate 64 secret

abbrev pub plain_secp : Secp
plain_secp = record {
  keccak256 = take 32;
  hex_encode = hex_of;
  hex_decode = unhex;
  point = plain_point;
  sign_prehash = λ secret digest. if ltb secret 256 then some (replicate 64 secret, 0) else none;
  recover_from_prehash = λ digest sig recid. some (plain_point (get_or sig 0 0));
}

digit-is_hexdigit : (n : ℕ) → n < 16 → is_hexdigit (digit n) ≡ true
digit-is_hexdigit n h = ground arith

hex_of-is_hexdigit : (bytes : Bytes) → IsBytes bytes → all is_hexdigit (hex_of bytes) ≡ true
hex_of-is_hexdigit [] h = refl
hex_of-is_hexdigit (b ∷ bytes) (h, hs) =
    let high = digit-is_hexdigit (b / 16) (omega arith) in
    let low = digit-is_hexdigit (b % 16) (omega arith) in
    rw (high, low, hex_of-is_hexdigit bytes hs) refl

length-hex_of : (bytes : Bytes) → length (hex_of bytes) ≡ 2 * length bytes
length-hex_of [] = refl
length-hex_of (b ∷ bytes) = omega (arith, length-hex_of bytes)

undigit-digit : (n : ℕ) → n < 16 → undigit (digit n) ≡ n
undigit-digit n h = ground arith

unhex-hex_of : (bytes : Bytes) → IsBytes bytes → unhex (hex_of bytes) ≡ some bytes
unhex-hex_of [] h = refl
unhex-hex_of (b ∷ bytes) (h, hs) =
    ap (Option.map (λ r. (undigit (digit (b / 16)) * 16 + undigit (digit (b % 16))) ∷ r))
      (unhex-hex_of bytes hs)
    ∙ ap (λ n. some (n ∷ bytes))
        (omega (arith, undigit-digit (b / 16) (omega arith), undigit-digit (b % 16) (omega arith)))

replicate-IsBytes : (n b : ℕ) → b < 256 → IsBytes (replicate n b)
replicate-IsBytes zero b h = tt
replicate-IsBytes (suc n) b h = (h, replicate-IsBytes n b h)

signed_by :
    (secret : ℕ) (sig : Bytes) (recid : ℕ)
    → plain_secp.sign_prehash secret [] ≡ some (sig, recid)
    → (secret < 256) × (replicate 64 secret ≡ sig) × (0 ≡ recid)
signed_by secret sig recid h = elim (Bool-cases (ltb secret 256)) [
  | inl small ↦ (ground arith, ground arith, ground arith)
  | inr large ↦ absurd (ground arith)
]

pub plain_secp-IsSecp : IsSecp plain_secp
plain_secp-IsSecp = record {
  hex_encode-is_hexdigit = hex_of-is_hexdigit;
  length-hex_encode = λ bytes h. length-hex_of bytes;
  hex_decode-hex_encode = unhex-hex_of;
  sign_prehash-IsSignature = λ secret digest sig recid h.
      let (small, same, id) = signed_by secret sig recid h in
      (
        subst IsBytes same (replicate-IsBytes 64 secret small),
        subst (λ s. length s ≡ 64) same refl,
        subst (λ r. r < 4) id (omega arith),
      );
  recover_from_prehash-sign_prehash = λ secret digest sig recid h.
      let (small, same, id) = signed_by secret sig recid h in
      subst (λ s. some (plain_point (get_or s 0 0)) ≡ some (plain_point secret)) same refl;
}
