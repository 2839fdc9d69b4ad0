-- ===== src/Eoa/Sign.antt =====
-- EIP-191 signatures: `personal_sign`, `recover_personal_sign` and what they share, of src/l0/eip191.rs.
use co_net_l0d.Base.{
  ℕ, ◌+◌, ◌-◌, ◌<◌, ◌≡◌, refl, sym, ap, ◌∙◌, true, false, ◌&&◌, ◌||◌, Option, some, [], ◌∷◌, ◌++◌,
  arith, leb, ◌==◌, if◌then◌else◌, length, length-append, take, drop, take-append, get_or, all,
  show, Text, codes, len, trim, is_hexdigit, is_whitespace, trim-visible, &&-true, All-append,
  Bytes, IsBytes, ◌>>=◌, ◌>>◌, guard, >>=-eq-some, as_bytes,
}
use co_net_l0d.Crates.{Secp, IsSecp}

-- `trim_start_matches(prefix)` for a prefix of two characters: it is taken off as often as it is there.
unfoldable pub trim_pair : ℕ → ℕ → Text → Text
trim_pair a b [] = []
trim_pair a b (c ∷ []) = c ∷ []
trim_pair a b (c ∷ d ∷ s) =
    let rest = trim_pair a b s in if c == a && d == b then rest else c ∷ d ∷ s

abbrev recovery_id : ℕ → ℕ
recovery_id v = if leb 27 v then v - 27 else v

module _ (secp : Secp) where
  -- `address_from_verifying_key`, of an encoded point.
  unfoldable pub address_from_point : Bytes → Option Text
  address_from_point encoded = do
    guard (length encoded == 65 && get_or encoded 0 0 == 4)
    some (codes "0x" ++ secp.hex_encode (drop 12 (secp.keccak256 (drop 1 encoded))))

  unfoldable pub eip191_hash : Bytes → Bytes
  eip191_hash message = secp.keccak256 (
      25
      ∷ (as_bytes (codes "Ethereum Signed Message:" ++ b'\n' ∷ show (length message)) ++ message))

  unfoldable pub parse_signature : Text → Option Bytes
  parse_signature sig_hex =
      let hex = trim_pair b'0' b'X' (trim_pair b'0' b'x' (trim sig_hex)) in
      guard (len hex == 130 && all is_hexdigit hex) >> secp.hex_decode hex

  unfoldable pub personal_sign : ℕ → Bytes → Option Text
  unfolding eip191_hash
  personal_sign secret message = do
    signed ← secp.sign_prehash secret (eip191_hash message)
    some (codes "0x" ++ secp.hex_encode (signed.0 ++ (signed.1 + 27) ∷ []))

  unfoldable pub recover_personal_sign : Bytes → Text → Option Text
  unfolding eip191_hash parse_signature address_from_point
  recover_personal_sign message sig_hex = do
    raw ← parse_signature sig_hex
    point ←
        secp.recover_from_prehash (eip191_hash message) (take 64 raw)
          (recovery_id (get_or raw 64 0))
    address_from_point point

  -- The address that `EthSecret::from_bytes` keeps for a secret.
  abbrev pub address_of : ℕ → Option Text
  address_of secret = address_from_point (secp.point secret)

trim_pair_hex :
    (a b : ℕ) (s : Text) → is_hexdigit b ≡ false → all is_hexdigit s ≡ true → trim_pair a b s ≡ s
unfolding trim_pair
trim_pair_hex a b [] h k = refl
trim_pair_hex a b (c ∷ []) h k = refl
trim_pair_hex a b (c ∷ d ∷ s) h k = ground arith

len_hex : (s : Text) → all is_hexdigit s ≡ true → len s ≡ length s
len_hex [] h = refl
len_hex (c ∷ s) h = let (now, later) = &&-true _ _ h in ground (arith, len_hex s later)

is_hexdigit_visible : (c : ℕ) → is_hexdigit c ≡ true → is_whitespace c ≡ false
is_hexdigit_visible c h = ground arith

trim_prefixed :
    (hex : Text) → all is_hexdigit hex ≡ true → trim (codes "0x" ++ hex) ≡ codes "0x" ++ hex
trim_prefixed hex h =
    trim-visible (λ c. is_hexdigit c || c == b'x') (λ c k. ground arith) (codes "0x" ++ hex)
      (wider hex h)
  where
    wider : (s : Text) → all is_hexdigit s ≡ true → all (λ c. is_hexdigit c || c == b'x') s ≡ true
    wider [] k = refl
    wider (c ∷ s) k =
        let (now, later) = &&-true (is_hexdigit c) (all is_hexdigit s) k in
        rw (now, wider s later) refl

get_or-append : (xs : Bytes) (x : ℕ) → get_or (xs ++ x ∷ []) (length xs) 0 ≡ x
get_or-append [] x = refl
get_or-append (y ∷ xs) x = get_or-append xs x

module _ (secp : Secp) (laws : IsSecp secp) where
  parse_signature-hex_encode :
      (raw : Bytes)
      → IsBytes raw
      → length raw ≡ 65
      → parse_signature secp (codes "0x" ++ secp.hex_encode raw) ≡ some raw
  unfolding parse_signature trim_pair
  parse_signature-hex_encode raw bytes size =
      let hex = secp.hex_encode raw in
      let digits = laws.hex_encode-is_hexdigit raw bytes in
      let long : (len hex == 130) ≡ true =
        ground (arith, len_hex hex digits, laws.length-hex_encode raw bytes) in
      rw (trim_prefixed hex digits) (
        rw (trim_pair_hex b'0' b'x' hex refl digits) (
          rw (trim_pair_hex b'0' b'X' hex refl digits)
            (rw (long, digits) (laws.hex_decode-hex_encode raw bytes))))

  -- The signature that a secret puts on a message recovers the address of the secret.
  pub recover_personal_sign-personal_sign :
      (secret : ℕ) (message : Bytes) (signature : Text)
      → personal_sign secp secret message ≡ some signature
      → recover_personal_sign secp message signature ≡ address_of secp secret
  unfolding personal_sign recover_personal_sign
  recover_personal_sign-personal_sign secret message signature h =
      let digest = eip191_hash secp message in
      let ((sig, recid), signed, e) = >>=-eq-some (secp.sign_prehash secret digest) _ h in
      let (bytes, size, range) = laws.sign_prehash-IsSignature secret digest sig recid signed in
      let raw = sig ++ (recid + 27) ∷ [] in
      let whole : IsBytes raw =
        All-append (λ b. b < 256) sig ((recid + 27) ∷ []) bytes (omega arith, tt) in
      let parsed =
        parse_signature-hex_encode raw whole
          (omega (arith, length-append sig ((recid + 27) ∷ []))) in
      let same : signature ≡ codes "0x" ++ secp.hex_encode raw = ground arith in
      let front : take 64 raw ≡ sig = ap (λ n. take n raw) (sym size) ∙ take-append sig _ in
      let id : recovery_id (get_or raw 64 0) ≡ recid =
        ap (λ n. recovery_id (get_or raw n 0)) (sym size)
        ∙ ap recovery_id (get_or-append sig (recid + 27))
        ∙ ground arith in
      rw same (
        rw parsed (
          rw (front, id)
            (rw (laws.recover_from_prehash-sign_prehash secret digest sig recid signed) refl)))
