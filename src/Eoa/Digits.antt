-- ===== src/Eoa/Digits.antt =====
-- When `eoa_eq` of src/l0/eip191.rs holds, in terms of the texts of the addresses.
use co_net_l0d.Base.{
  ◌≡◌, sym, ap, ◌∙◌, ◌↔◌, ◌⊎◌, inl, inr, true, none, some, ◌∷◌, drop, arith, Option-cases, all,
  Text, is_hexdigit, to_lowercase, len,
}
use co_net_l0d.Eoa.{with_prefix, normalize_eoa, eoa_eq}
use co_net_l0d.Eoa.Laws.{
  normalize_eoa-shape, normalize_eoa_lower, normalize_eoa_upper, eoa_eq-normalize_eoa_iff,
}

-- The text is `0x` or `0X` before these forty hexadecimal digits.
abbrev pub HasDigits : Text → Text → Type 0
HasDigits a hex =
    ((a ≡ b'0' ∷ b'x' ∷ hex) ⊎ (a ≡ b'0' ∷ b'X' ∷ hex))
    × (len hex ≡ 40)
    × (all is_hexdigit hex ≡ true)

abbrev pub IsNoAddress : Text → Type 0
IsNoAddress a = (hex : Text) → HasDigits a hex → ⊥

digits-normal : (a hex : Text) → HasDigits a hex → normalize_eoa a ≡ some (with_prefix hex)
digits-normal a hex (inl small, size, digits) =
    ap normalize_eoa small ∙ normalize_eoa_lower hex (ground (arith, size, digits))
digits-normal a hex (inr capital, size, digits) =
    ap normalize_eoa capital ∙ normalize_eoa_upper hex (ground (arith, size, digits))

normal-digits :
    (a t : Text) → normalize_eoa a ≡ some t → (hex : Text) × HasDigits a hex × (t ≡ with_prefix hex)
normal-digits a t h =
    let (hex, prefix, ok, same) = normalize_eoa-shape a t h in
    (hex, (prefix, ground (arith, ok), ground (arith, ok)), same)

none-IsNoAddress : (a : Text) → normalize_eoa a ≡ none → IsNoAddress a
none-IsNoAddress a h hex has =
    let some_one = sym h ∙ digits-normal a hex has in ground (arith, some_one)

IsNoAddress-none : (a : Text) → IsNoAddress a → normalize_eoa a ≡ none
IsNoAddress-none a lacks = elim (Option-cases (normalize_eoa a)) [
  | inl none_of ↦ none_of
  | inr (t, found) ↦ let (hex, has, same) = normal-digits a t found in absurd (lacks hex has)
]

-- Two texts are equal as addresses exactly where each is `0x` or `0X` before forty hexadecimal digits, and
-- the digits are the same up to the case of their letters, or where neither text is of this form.
pub eoa_eq_iff :
    (a b : Text)
    → (eoa_eq a b ≡ true) ↔ (
        ((x : Text) × (y : Text) × HasDigits a x
          × HasDigits b y
          × (to_lowercase x ≡ to_lowercase y))
        ⊎ (IsNoAddress a × IsNoAddress b))
eoa_eq_iff a b = (
  λ h. there ((eoa_eq-normalize_eoa_iff a b).0 h),
  λ h. (eoa_eq-normalize_eoa_iff a b).1 (back h),
)
  where
    there :
        ((t : Text) × (normalize_eoa a ≡ some t) × (normalize_eoa b ≡ some t))
          ⊎ ((normalize_eoa a ≡ none) × (normalize_eoa b ≡ none))
        → ((x : Text) × (y : Text) × HasDigits a x
            × HasDigits b y
            × (to_lowercase x ≡ to_lowercase y))
          ⊎ (IsNoAddress a × IsNoAddress b)
    there (inl (t, na, nb)) =
        let (x, hx, px) = normal-digits a t na in
        let (y, hy, py) = normal-digits b t nb in inl (x, y, hx, hy, ap (drop 2) (sym px ∙ py))
    there (inr (na, nb)) = inr (none-IsNoAddress a na, none-IsNoAddress b nb)

    back :
        ((x : Text) × (y : Text) × HasDigits a x
            × HasDigits b y
            × (to_lowercase x ≡ to_lowercase y))
          ⊎ (IsNoAddress a × IsNoAddress b)
        → ((t : Text) × (normalize_eoa a ≡ some t) × (normalize_eoa b ≡ some t))
          ⊎ ((normalize_eoa a ≡ none) × (normalize_eoa b ≡ none))
    back (inl (x, y, hx, hy, same)) = inl (
      with_prefix x,
      digits-normal a x hx,
      digits-normal b y hy ∙ ap (λ l. some (b'0' ∷ b'x' ∷ l)) (sym same),
    )
    back (inr (na, nb)) = inr (IsNoAddress-none a na, IsNoAddress-none b nb)
