-- ===== src/Base/Split.antt =====
-- What a text is made of that is split at a character.
use Prim.Native.Nat.{ℕ}
use mathlib.Core.Path.{◌≡◌, refl, ap}
use mathlib.Core.Logic.{inl, inr}
use mathlib.Core.Bool.{false}
use mathlib.Core.Option
use mathlib.Core.Option.{Option, none, some}
use mathlib.Core.List.{[], ◌∷◌, ◌++◌}
use co_net_l0d.Base.Tests.{◌==◌, ==_iff, Bool-cases}
use co_net_l0d.Base.Strings.{Text, contains_char, split_once, rsplit_here, rsplit_once}

-- The text is made of the two parts around the first such character, or it has none.
abbrev pub IsSplit : ℕ → Text → Option (Text × Text) → Type 0
IsSplit x s none = contains_char x s ≡ false
IsSplit x s (some (a, b)) = (s ≡ a ++ x ∷ b) × (contains_char x a ≡ false)

-- The same around the last one.
abbrev pub IsLastSplit : ℕ → Text → Option (Text × Text) → Type 0
IsLastSplit x s none = contains_char x s ≡ false
IsLastSplit x s (some (a, b)) = (s ≡ a ++ x ∷ b) × (contains_char x b ≡ false)

IsSplit-later :
    (x c : ℕ) (s : Text) (o : Option (Text × Text))
    → (c == x) ≡ false
    → IsSplit x s o
    → IsSplit x (c ∷ s) (Option.map (λ (p : Text × Text). (c ∷ p.0, p.1)) o)
IsSplit-later x c s none other h = rw other h
IsSplit-later x c s (some (a, b)) other (made, free) = (ap (◌∷◌ c) made, rw other free)

pub split_once-IsSplit : (x : ℕ) (s : Text) → IsSplit x s (split_once x s)
split_once-IsSplit x [] = refl
split_once-IsSplit x (c ∷ s) = elim (Bool-cases (c == x)) [
  | inl same ↦ rw same (ap (λ d. d ∷ s) ((==_iff c x).0 same), refl)
  | inr other ↦ rw other (IsSplit-later x c s (split_once x s) other (split_once-IsSplit x s))
]

IsLastSplit-here :
    (x c : ℕ) (s : Text) (o : Option (Text × Text))
    → IsLastSplit x s o
    → IsLastSplit x (c ∷ s) (rsplit_here x c s o)
IsLastSplit-here x c s (some (a, b)) (made, free) = (ap (◌∷◌ c) made, free)
IsLastSplit-here x c s none h = elim (Bool-cases (c == x)) [
  | inl same ↦ rw same (ap (λ d. d ∷ s) ((==_iff c x).0 same), h)
  | inr other ↦ rw other (rw other h)
]

pub rsplit_once-IsLastSplit : (x : ℕ) (s : Text) → IsLastSplit x s (rsplit_once x s)
rsplit_once-IsLastSplit x [] = refl
rsplit_once-IsLastSplit x (c ∷ s) =
    IsLastSplit-here x c s (rsplit_once x s) (rsplit_once-IsLastSplit x s)
