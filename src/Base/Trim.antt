-- ===== src/Base/Trim.antt =====
-- What `trim` leaves alone.
use Prim.Native.Nat.{ℕ, suc, ◌≤◌}
use mathlib.Core.Path.{◌≡◌, refl, ap, ◌∙◌}
use mathlib.Core.Bool.{Bool, true, false}
use mathlib.Core.List.{[], ◌∷◌, ◌++◌}
use native.Mathlib.Omega.{arith}
use co_net_l0d.Base.Tests.{&&-true}
use co_net_l0d.Base.Lists.{all, length}
use co_net_l0d.Base.Strings.{Text, is_whitespace, trim, trim_end, trim_end_here, trim_start}

pub trim_end_here_visible :
    (c : ℕ) (s : Text) → is_whitespace c ≡ false → trim_end_here is_whitespace c s ≡ c ∷ s
trim_end_here_visible c [] h = rw h refl
trim_end_here_visible c (d ∷ s) h = refl

module _ (p : ℕ → Bool) (visible : (c : ℕ) → p c ≡ true → is_whitespace c ≡ false) where
  pub trim_end-visible : (s : Text) → all p s ≡ true → trim_end s ≡ s
  trim_end-visible [] h = refl
  trim_end-visible (c ∷ s) h =
      let (now, later) = &&-true _ _ h in
      ap (trim_end_here is_whitespace c) (trim_end-visible s later)
      ∙ trim_end_here_visible c s (visible c now)

  -- A text of visible characters has nothing to trim.
  pub trim-visible : (s : Text) → all p s ≡ true → trim s ≡ s
  trim-visible [] h = refl
  trim-visible (c ∷ s) h =
      let (now, later) = &&-true _ _ h in
      let unseen = visible c now in rw unseen (trim_end-visible (c ∷ s) h)

-- A text that ends in a visible character has nothing to trim at its end.
pub trim_end-append :
    (s : Text) (c : ℕ) → is_whitespace c ≡ false → trim_end (s ++ c ∷ []) ≡ s ++ c ∷ []
trim_end-append [] c h = rw h refl
trim_end-append (d ∷ []) c h = ap (trim_end_here is_whitespace d) (trim_end-append [] c h)
trim_end-append (d ∷ e ∷ s) c h = ap (trim_end_here is_whitespace d) (trim_end-append (e ∷ s) c h)

length-trim_start : (s : Text) → length (trim_start s) ≤ length s
length-trim_start [] = omega arith
length-trim_start (c ∷ s) = ground (arith, length-trim_start s)

length-trim_end_here :
    (c : ℕ) (s : Text) → length (trim_end_here is_whitespace c s) ≤ suc (length s)
length-trim_end_here c [] = ground arith
length-trim_end_here c (d ∷ s) = omega arith

length-trim_end : (s : Text) → length (trim_end s) ≤ length s
length-trim_end [] = omega arith
length-trim_end (c ∷ s) = omega (arith, length-trim_end_here c (trim_end s), length-trim_end s)

-- Trimming makes no text longer.
pub length-trim : (s : Text) → length (trim s) ≤ length s
length-trim s = omega (arith, length-trim_end (trim_start s), length-trim_start s)
