-- ===== src/Eoa/Laws.antt =====
-- What `normalize_eoa` returns, and when two addresses count as equal.
use co_net_l0d.Base.{
  ℕ, ◌≡◌, refl, sym, ap, ◌∙◌, ◌↔◌, ◌⊎◌, inl, inr, Bool, true, false, not, ◌&&◌, ◌||◌, drop,
  starts_with, codes, none, some, [], ◌∷◌, map, arith, ◌==◌, Bool-cases, Option-cases, &&-true, all,
  Text, text_eq, text_eq_iff, is_hexdigit, is_whitespace, lower, upper, to_lowercase, to_uppercase,
  utf8_width, len, trim, trim_end, trim_end_here, within,
}
use co_net_l0d.Eoa.{
  is_hex40, with_prefix, normalize_eoa, eoa_eq, duplex_normalize_trimmed, duplex_normalize_eoa,
}

abbrev is_lower_hexdigit : ℕ → Bool
is_lower_hexdigit c = within b'0' b'9' c || within b'a' b'f' c

lower_idem : (c : ℕ) → lower (lower c) ≡ lower c
lower_idem c = ground arith

lower-upper : (c : ℕ) → lower (upper c) ≡ lower c
lower-upper c = ground arith

hexdigit-upper : (c : ℕ) → is_hexdigit (upper c) ≡ is_hexdigit c
hexdigit-upper c = ground arith

hexdigit-lower : (c : ℕ) → is_hexdigit (lower c) ≡ is_hexdigit c
hexdigit-lower c = ground arith

width-upper : (c : ℕ) → utf8_width (upper c) ≡ utf8_width c
width-upper c = ground arith

width-lower : (c : ℕ) → utf8_width (lower c) ≡ utf8_width c
width-lower c = ground arith

lower_hexdigit : (c : ℕ) → is_hexdigit c ≡ true → is_lower_hexdigit (lower c) ≡ true
lower_hexdigit c h = ground arith

hexdigit_width : (c : ℕ) → is_hexdigit c ≡ true → utf8_width c ≡ 1
hexdigit_width c h = ground arith

pub to_lowercase_idem : (s : Text) → to_lowercase (to_lowercase s) ≡ to_lowercase s
to_lowercase_idem [] = refl
to_lowercase_idem (c ∷ s) = cc (lower_idem c, to_lowercase_idem s)

to_lowercase-to_uppercase : (s : Text) → to_lowercase (to_uppercase s) ≡ to_lowercase s
to_lowercase-to_uppercase [] = refl
to_lowercase-to_uppercase (c ∷ s) = cc (lower-upper c, to_lowercase-to_uppercase s)

len-map :
    (f : ℕ → ℕ) → ((c : ℕ) → utf8_width (f c) ≡ utf8_width c) → (s : Text) → len (map f s) ≡ len s
len-map f h [] = refl
len-map f h (c ∷ s) = omega (arith, h c, len-map f h s)

all-map :
    (p : ℕ → Bool) (f : ℕ → ℕ) → ((c : ℕ) → p (f c) ≡ p c) → (s : Text) → all p (map f s) ≡ all p s
all-map p f h [] = refl
all-map p f h (c ∷ s) = rw (h c, all-map p f h s) refl

is_hex40-to_uppercase : (s : Text) → is_hex40 (to_uppercase s) ≡ is_hex40 s
is_hex40-to_uppercase s =
    rw (len-map upper width-upper s, all-map is_hexdigit upper hexdigit-upper s) refl

is_hex40-to_lowercase : (s : Text) → is_hex40 (to_lowercase s) ≡ is_hex40 s
is_hex40-to_lowercase s =
    rw (len-map lower width-lower s, all-map is_hexdigit lower hexdigit-lower s) refl

-- A text that normalizes is `0x` or `0X` before forty hexadecimal digits, which the result has in
-- lower case.
pub normalize_eoa-shape :
    (raw t : Text)
    → normalize_eoa raw ≡ some t
    → (hex : Text) × ((raw ≡ b'0' ∷ b'x' ∷ hex) ⊎ (raw ≡ b'0' ∷ b'X' ∷ hex))
      × (is_hex40 hex ≡ true)
      × (t ≡ with_prefix hex)
unfolding normalize_eoa
normalize_eoa-shape [] t h = ground arith
normalize_eoa-shape (a ∷ []) t h = ground arith
normalize_eoa-shape (a ∷ b ∷ hex) t h = (hex, ground arith, ground arith, ground arith)

module _ (hex : Text) (h : is_hex40 hex ≡ true) where
  pub normalize_eoa_lower : normalize_eoa (b'0' ∷ b'x' ∷ hex) ≡ some (with_prefix hex)
  unfolding normalize_eoa
  normalize_eoa_lower = rw h refl

  pub normalize_eoa_upper : normalize_eoa (b'0' ∷ b'X' ∷ hex) ≡ some (with_prefix hex)
  unfolding normalize_eoa
  normalize_eoa_upper = rw h refl

-- A normalized address is left as it is.
pub normalize_eoa_idem : (raw t : Text) → normalize_eoa raw ≡ some t → normalize_eoa t ≡ some t
normalize_eoa_idem raw t e =
    let (hex, _, ok, same) = normalize_eoa-shape raw t e in
    rw same (
      normalize_eoa_lower (to_lowercase hex) (is_hex40-to_lowercase hex ∙ ok)
      ∙ rw (to_lowercase_idem hex) refl)

-- The case of the letters makes no difference, that of the prefix `0x` included.
pub normalize_eoa-to_uppercase : (raw : Text) → normalize_eoa (to_uppercase raw) ≡ normalize_eoa raw
unfolding normalize_eoa
normalize_eoa-to_uppercase [] = refl
normalize_eoa-to_uppercase (a ∷ []) = ground arith
normalize_eoa-to_uppercase (a ∷ b ∷ hex) =
    ground (arith, is_hex40-to_uppercase hex, to_lowercase-to_uppercase hex)

-- Two texts count as the same wallet exactly when both normalize to the same address, or when
-- neither is an address at all.
pub eoa_eq-normalize_eoa_iff :
    (a b : Text)
    → (eoa_eq a b ≡ true) ↔ (
        ((t : Text) × (normalize_eoa a ≡ some t) × (normalize_eoa b ≡ some t))
        ⊎ ((normalize_eoa a ≡ none) × (normalize_eoa b ≡ none)))
unfolding eoa_eq
eoa_eq-normalize_eoa_iff a b = elim (Option-cases (normalize_eoa a)) [
  | inl na ↦ elim (Option-cases (normalize_eoa b)) [
    | inl nb ↦ rw (na, nb) ((λ h. inr (refl, refl)), (λ h. refl))
    | inr (t, tb) ↦ rw (na, tb) ((λ h. ground arith), (λ h. ground arith))
  ]
  | inr (s, sa) ↦ elim (Option-cases (normalize_eoa b)) [
    | inl nb ↦ rw (sa, nb) ((λ h. ground arith), (λ h. ground arith))
    | inr (t, tb) ↦
        rw (sa, tb) ((λ h. inl (s, refl, ap some (sym ((text_eq_iff s t).0 h)))), (λ h. both s t h))
  ]
]
  where
    both :
        (s t : Text)
        → ((u : Text) × (some s ≡ some u) × (some t ≡ some u)) ⊎ ((some s ≡ none) × (some t ≡ none))
        → text_eq s t ≡ true
    both s t (inl (u, p, q)) = (text_eq_iff s t).1 (cc (p, q))
    both s t (inr (p, q)) = ground arith

hexdigit_visible : (c : ℕ) → is_hexdigit c ≡ true → is_whitespace c ≡ false
hexdigit_visible c h = ground arith

trim_end_here_visible :
    (c : ℕ) (s : Text) → is_whitespace c ≡ false → trim_end_here is_whitespace c s ≡ c ∷ s
trim_end_here_visible c [] h = rw h refl
trim_end_here_visible c (d ∷ s) h = refl

trim_end_hex : (s : Text) → all is_hexdigit s ≡ true → trim_end s ≡ s
trim_end_hex [] h = refl
trim_end_hex (c ∷ s) h =
    let (now, later) = &&-true _ _ h in
    ap (trim_end_here is_whitespace c) (trim_end_hex s later)
    ∙ trim_end_here_visible c s (hexdigit_visible c now)

trim_hex :
    (x : ℕ) (hex : Text)
    → is_whitespace x ≡ false
    → all is_hexdigit hex ≡ true
    → trim (b'0' ∷ x ∷ hex) ≡ b'0' ∷ x ∷ hex
trim_hex x hex v h =
    ap (λ s. trim_end_here is_whitespace b'0' (trim_end_here is_whitespace x s))
      (trim_end_hex hex h)
    ∙ ap (trim_end_here is_whitespace b'0') (trim_end_here_visible x hex v)

duplex_normalize_eoa_hex :
    (x : ℕ) (hex : Text)
    → (x ≡ b'x') ⊎ (x ≡ b'X')
    → is_hex40 hex ≡ true
    → duplex_normalize_eoa (b'0' ∷ x ∷ hex) ≡ some (with_prefix hex)
unfolding duplex_normalize_eoa
duplex_normalize_eoa_hex x hex v h =
    let (size, digits) = &&-true (len hex == 40) (all is_hexdigit hex) h in
    rw (trim_hex x hex (ground arith) digits) (ground arith)

-- What src/l0/eip191.rs normalizes, src/l0/duplex.rs normalizes to the same address.
pub duplex_normalize_eoa_agrees :
    (raw t : Text) → normalize_eoa raw ≡ some t → duplex_normalize_eoa raw ≡ some t
duplex_normalize_eoa_agrees raw t e =
    let (hex, form, ok, same) = normalize_eoa-shape raw t e in
    elim form [
      | inl small ↦ rw (small, same) (duplex_normalize_eoa_hex b'x' hex (inl refl) ok)
      | inr large ↦ rw (large, same) (duplex_normalize_eoa_hex b'X' hex (inr refl) ok)
    ]

-- What src/l0/duplex.rs makes of a text is `0x` before forty hexadecimal digits in lower case.
duplex_normalize_trimmed-shape :
    (t w : Text)
    → duplex_normalize_trimmed t ≡ some w
    → (hex : Text) × (is_hex40 hex ≡ true) × (w ≡ with_prefix hex)
unfolding duplex_normalize_trimmed
duplex_normalize_trimmed-shape t w h =
    elim (Bool-cases (
      not (len t == 42)
      || (not (starts_with (codes "0x") t) && not (starts_with (codes "0X") t)))) [
        | inl bare ↦ (
          to_lowercase t,
          ground arith,
          let same : w ≡ b'0' ∷ b'x' ∷ to_lowercase t = ground arith in
              same ∙ ap (λ l. b'0' ∷ b'x' ∷ l) (sym (to_lowercase_idem t)),
        )
        | inr prefixed ↦ (drop 2 t, ground arith, ground arith)
      ]

-- And it leaves such an address as it is.
pub duplex_normalize_eoa_idem :
    (raw w : Text) → duplex_normalize_eoa raw ≡ some w → duplex_normalize_eoa w ≡ some w
unfolding duplex_normalize_eoa
duplex_normalize_eoa_idem raw w h =
    let (hex, ok, same) = duplex_normalize_trimmed-shape (trim raw) w h in
    rw same (
      duplex_normalize_eoa_hex b'x' (to_lowercase hex) (inl refl) (is_hex40-to_lowercase hex ∙ ok)
      ∙ rw (to_lowercase_idem hex) refl)

pub duplex_normalize_eoa_blank : (raw : Text) → trim raw ≡ [] → duplex_normalize_eoa raw ≡ none
unfolding duplex_normalize_eoa duplex_normalize_trimmed
duplex_normalize_eoa_blank raw h = ap duplex_normalize_trimmed h

-- The normal form of src/l0/duplex.rs is one of src/l0/eip191.rs too.
pub duplex_normalize_eoa-normal :
    (raw w : Text) → duplex_normalize_eoa raw ≡ some w → normalize_eoa w ≡ some w
unfolding duplex_normalize_eoa
duplex_normalize_eoa-normal raw w h =
    let (hex, ok, same) = duplex_normalize_trimmed-shape (trim raw) w h in
    rw same (
      normalize_eoa_lower (to_lowercase hex) (is_hex40-to_lowercase hex ∙ ok)
      ∙ rw (to_lowercase_idem hex) refl)

-- What equals a normal form has it as its normal form.
pub eoa_eq-normal :
    (a w : Text) → eoa_eq a w ≡ true → normalize_eoa w ≡ some w → normalize_eoa a ≡ some w
eoa_eq-normal a w equal normal = elim ((eoa_eq-normalize_eoa_iff a w).0 equal) [
  | inl (t, ha, hw) ↦ ha ∙ sym hw ∙ normal
  | inr (ha, hw) ↦ absurd (ground arith)
]

-- Where a text equals a proper address, that address equals the normal form of the text.
pub eoa_eq-agrees :
    (raw a t w : Text)
    → eoa_eq raw a ≡ true
    → normalize_eoa a ≡ some t
    → duplex_normalize_eoa raw ≡ some w
    → eoa_eq a w ≡ true
eoa_eq-agrees raw a t w equal normal stated = elim ((eoa_eq-normalize_eoa_iff raw a).0 equal) [
  | inl (u, hr, ha) ↦
      let same : u ≡ w =
        ap (λ o. elim o [ none ↦ u | some x ↦ x ])
          (sym (duplex_normalize_eoa_agrees raw u hr) ∙ stated) in
      (eoa_eq-normalize_eoa_iff a w).1
        (inl (w, ha ∙ ap some same, duplex_normalize_eoa-normal raw w stated))
  | inr (hr, ha) ↦ absurd (ground arith)
]
