-- ===== src/Base/Decimal.antt =====
-- Decimal numbers: `str::parse` of an unsigned integer with its bound, and `Display`.
use Prim.Native.Nat.{ℕ, zero, suc, ◌+◌, ◌-◌, ◌*◌, ◌/◌, ◌%◌, ◌≤◌, ◌<◌}
use mathlib.Core.Path.{◌≡◌, ◌∙◌}
use mathlib.Core.Logic.{inl, inr}
use mathlib.Core.Bool.{◌&&◌}
use mathlib.Core.List.{[], ◌∷◌}
use mathlib.Core.Option.{Option, none, some}
use native.Mathlib.Omega.{arith}
use co_net_l0d.Base.Tests.{ltb, leb, ◌==◌, if◌then◌else◌, Bool-cases}
use co_net_l0d.Base.Strings.{Text, is_digit}

-- One digit is taken with both checks, that it is a digit and that the value does not overflow.
pub digits_from : ℕ → ℕ → Text → Option ℕ
digits_from top acc [] = some acc
digits_from top acc (c ∷ s) =
    let rest = digits_from top (acc * 10 + (c - b'0')) s in
    if is_digit c && leb (acc * 10 + (c - b'0')) top then rest else none

-- `from_str` of an unsigned integer with the largest value `top`: an optional `+`, then at least one
-- digit.
unfoldable pub parse_uint : ℕ → Text → Option ℕ
unfolding digits_from
parse_uint top [] = none
parse_uint top (c ∷ []) = digits_from top 0 (c ∷ [])
parse_uint top (c ∷ d ∷ s) =
    if c == b'+' then digits_from top 0 (d ∷ s) else digits_from top 0 (c ∷ d ∷ s)

show_fuel : ℕ → ℕ → Text → Text
show_fuel zero n rest = rest
show_fuel (suc f) n rest =
    let more = show_fuel f (n / 10) ((b'0' + n % 10) ∷ rest) in
    if ltb n 10 then (b'0' + n) ∷ rest else more

-- The decimal digits of a number; the number itself is fuel enough.
unfoldable pub show : ℕ → Text
unfolding show_fuel
show n = show_fuel (suc n) n []

-- Reading the digits of `n`, and then `rest`, is reading `rest` from `n`.
digits_from-show_fuel :
    (f top n : ℕ) (rest : Text)
    → n < f
    → n ≤ top
    → digits_from top 0 (show_fuel f n rest) ≡ digits_from top n rest
unfolding digits_from show_fuel
digits_from-show_fuel zero top n rest h k = absurd (omega arith)
digits_from-show_fuel (suc f) top n rest h k = elim (Bool-cases (ltb n 10)) [
  | inl small ↦ ground arith
  | inr large ↦ rw large (
      digits_from-show_fuel f top (n / 10) ((b'0' + n % 10) ∷ rest) (ground arith) (omega arith)
      ∙ ground arith)
]

-- What is read does not exceed the largest value.
digits_from-bound :
    (top acc n : ℕ) (s : Text) → acc ≤ top → digits_from top acc s ≡ some n → n ≤ top
unfolding digits_from
digits_from-bound top acc n [] h e = ground arith
digits_from-bound top acc n (c ∷ s) h e =
    elim (Bool-cases (is_digit c && leb (acc * 10 + (c - b'0')) top)) [
      | inl taken ↦ digits_from-bound top (acc * 10 + (c - b'0')) n s (ground arith) (ground arith)
      | inr bad ↦ absurd (ground arith)
    ]

pub parse_uint-bound : (top n : ℕ) (s : Text) → parse_uint top s ≡ some n → n ≤ top
unfolding parse_uint
parse_uint-bound top n [] e = absurd (ground arith)
parse_uint-bound top n (c ∷ []) e = digits_from-bound top 0 n (c ∷ []) (omega arith) e
parse_uint-bound top n (c ∷ d ∷ s) e = elim (Bool-cases (c == b'+')) [
  | inl plus ↦ digits_from-bound top 0 n (d ∷ s) (omega arith) (ground arith)
  | inr digit ↦ digits_from-bound top 0 n (c ∷ d ∷ s) (omega arith) (ground arith)
]
