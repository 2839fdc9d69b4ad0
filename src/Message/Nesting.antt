-- ===== src/Message/Nesting.antt =====
-- `parse_signed_or_raw` of src/l0/duplex.rs calls itself: that it ends.
use co_net_l0d.Base.{
  ℕ, zero, suc, ◌≤◌, ◌<◌, ◌≡◌, refl, ap, inl, inr, true, Option, none, some, [], ◌∷◌, arith, length,
  Text, trim, Bool-cases, >>=-eq-some, from_utf8, length-from_utf8, length-trim,
}
use co_net_l0d.Crates.{Serde, Base64, IsBase64}
use co_net_l0d.Message.Signed.{
  is_object_text, nested_text, parsed_here, nested_call, signed_or_raw_call, signed_or_raw,
  parse_signed_or_raw,
}

module _ (serde : Serde) (b64 : Base64) (laws : IsBase64 b64) where
  -- An object inside of base64 is shorter than the text it is in.
  nested_text-shorter :
      (plain inner : Text)
      → nested_text serde b64 plain ≡ some inner
      → is_object_text (trim inner) ≡ true
      → length (trim inner) < length plain
  unfolding nested_text
  nested_text-shorter plain inner h brace =
      let (raw, decoded, utf8) = >>=-eq-some (b64.decode (trim plain)) from_utf8 h in
      omega (
        arith,
        laws.length-decode (trim plain) raw decoded,
        length-from_utf8 raw inner utf8,
        length-trim inner,
        length-trim plain,
        nonempty (trim inner) brace,
      )
    where
      nonempty : (s : Text) → is_object_text s ≡ true → 1 ≤ length s
      nonempty [] e = absurd (ground arith)
      nonempty (c ∷ s) e = omega arith

  module _ {ℓ} {T : Type ℓ} (parse_inner : Text → Option T) where
    nested_call-agrees :
        (f g : Text → Option T) (o : Option Text)
        → ((inner : Text)
            → o ≡ some inner
            → is_object_text (trim inner) ≡ true
            → f (trim inner) ≡ g (trim inner))
        → nested_call serde b64 parse_inner f o ≡ nested_call serde b64 parse_inner g o
    nested_call-agrees f g none h = refl
    nested_call-agrees f g (some inner) h = elim (Bool-cases (is_object_text (trim inner))) [
      | inl brace ↦ rw (nested_call, brace) (h inner refl brace)
      | inr bare ↦ rw (nested_call, bare) refl
    ]

    call-agrees :
        (f g : Text → Option T) (plain : Text)
        → ((inner : Text)
            → nested_text serde b64 plain ≡ some inner
            → is_object_text (trim inner) ≡ true
            → f (trim inner) ≡ g (trim inner))
        → signed_or_raw_call serde b64 parse_inner f plain
          ≡ signed_or_raw_call serde b64 parse_inner g plain
    unfolding signed_or_raw_call
    call-agrees f g plain h =
        ap
          (λ r. elim (parsed_here serde b64 parse_inner (trim plain)) [
            | some got ↦ some got
            | none ↦ r
          ])
          (nested_call-agrees f g (nested_text serde b64 plain) h)

    -- Any two amounts of fuel above the length of the text give the same.
    signed_or_raw-fuel :
        (f g : ℕ) (plain : Text)
        → length plain < f
        → length plain < g
        → signed_or_raw serde b64 parse_inner f plain ≡ signed_or_raw serde b64 parse_inner g plain
    unfolding signed_or_raw
    signed_or_raw-fuel zero g plain hf hg = absurd (omega arith)
    signed_or_raw-fuel (suc f) zero plain hf hg = absurd (omega arith)
    signed_or_raw-fuel (suc f) (suc g) plain hf hg =
        call-agrees (signed_or_raw serde b64 parse_inner f) (signed_or_raw serde b64 parse_inner g)
          plain
          (λ inner found brace.
            signed_or_raw-fuel f g (trim inner)
              (omega (arith, nested_text-shorter plain inner found brace))
              (omega (arith, nested_text-shorter plain inner found brace)))

    -- The fuel of `parse_signed_or_raw` is never the reason for its result: on every text it is one round
    -- of the program's function, in which the function is called again.
    pub parse_signed_or_raw_total :
        (plain : Text)
        → parse_signed_or_raw serde b64 parse_inner plain
          ≡ signed_or_raw_call serde b64 parse_inner
              (parse_signed_or_raw serde b64 parse_inner)
              plain
    unfolding parse_signed_or_raw signed_or_raw
    parse_signed_or_raw_total plain =
        call-agrees (signed_or_raw serde b64 parse_inner (length plain))
          (parse_signed_or_raw serde b64 parse_inner) plain
          (λ inner found brace.
            signed_or_raw-fuel (length plain) (suc (length (trim inner))) (trim inner)
              (nested_text-shorter plain inner found brace) (omega arith))
