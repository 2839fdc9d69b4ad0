-- ===== src/Base/Assoc.antt =====
-- A hash map as the list of its entries, in the order in which it is walked. That order is free: what
-- is proved holds for every list.
use mathlib.Core.Path.{◌≡◌, refl, ap}
use mathlib.Core.Logic.{◌↔◌, inl, inr}
use mathlib.Core.Bool.{Bool, true}
use mathlib.Core.List.{List, [], ◌∷◌}
use mathlib.Core.Option
use mathlib.Core.Option.{Option, none, some}
use native.Mathlib.Omega.{arith}
use Prim.Native.Nat.{ℕ}
use co_net_l0d.Base.Tests.{if◌then◌else◌, ◌==◌, ==_iff, Bool-cases}
use co_net_l0d.Base.Strings.{Text, text_eq, text_eq_iff}

pub record Eq {ℓ} (A : Type ℓ) : Type ℓ where
  pub beq : A → A → Bool
  pub beq_iff : (a b : A) → (beq a b ≡ true) ↔ (a ≡ b)

instance abbrev pub nat_eq : Eq ℕ
nat_eq = record { beq = ◌==◌; beq_iff = ==_iff }

instance abbrev pub text_key : Eq Text
text_key = record { beq = text_eq; beq_iff = text_eq_iff }

module _ {κ ℓ} {K : Type κ} {V : Type ℓ} ⦃e : Eq K⦄ where
  unfoldable pub get : K → List (K × V) → Option V
  get k [] = none
  get k ((j, v) ∷ m) = if e.beq j k then some v else get k m

  unfoldable pub insert : K → V → List (K × V) → List (K × V)
  insert k v [] = (k, v) ∷ []
  insert k v ((j, w) ∷ m) = if e.beq j k then (k, v) ∷ m else (j, w) ∷ insert k v m

  unfoldable pub remove : K → List (K × V) → List (K × V)
  remove k [] = []
  remove k ((j, v) ∷ m) = if e.beq j k then remove k m else (j, v) ∷ remove k m

  -- `get_mut` and a write through it.
  unfoldable pub modify : K → (V → V) → List (K × V) → List (K × V)
  modify k f [] = []
  modify k f ((j, v) ∷ m) = if e.beq j k then (j, f v) ∷ m else (j, v) ∷ modify k f m

  -- A write to the first value that passes a test, in the order of the walk.
  unfoldable pub modify_first : (V → Bool) → (V → V) → List (K × V) → List (K × V)
  modify_first p f [] = []
  modify_first p f ((j, v) ∷ m) = if p v then (j, f v) ∷ m else (j, v) ∷ modify_first p f m

  unfoldable pub find_value : (V → Bool) → List (K × V) → Option V
  find_value p [] = none
  find_value p ((j, v) ∷ m) = if p v then some v else find_value p m

  pub get-insert :
      (k j : K) (v : V) (m : List (K × V))
      → get j (insert k v m) ≡ (if e.beq k j then some v else get j m)
  unfolding get insert
  get-insert k j v [] = refl
  get-insert k j v ((i, w) ∷ m) = elim (Bool-cases (e.beq i k)) [
    | inl same ↦ rw same (rw ((e.beq_iff i k).0 same) (ground arith))
    | inr other ↦
        rw other (ground (arith, get-insert k j v m, e.beq_iff i k, e.beq_iff i j, e.beq_iff k j))
  ]

  pub get-remove :
      (k j : K) (m : List (K × V)) → get j (remove k m) ≡ (if e.beq k j then none else get j m)
  unfolding get remove
  get-remove k j [] = ground arith
  get-remove k j ((i, w) ∷ m) =
      ground (arith, get-remove k j m, e.beq_iff i k, e.beq_iff i j, e.beq_iff k j)

  pub get-modify_self :
      (k : K) (f : V → V) (v : V) (m : List (K × V))
      → get k m ≡ some v
      → get k (modify k f m) ≡ some (f v)
  unfolding get modify
  get-modify_self k f v [] h = ground arith
  get-modify_self k f v ((i, w) ∷ m) h = ground (arith, get-modify_self k f v m)

  pub get-modify :
      (k j : K) (f : V → V) (m : List (K × V))
      → get j (modify k f m) ≡ (if e.beq k j then Option.map f (get j m) else get j m)
  unfolding get modify
  get-modify k j f [] = ground arith
  get-modify k j f ((i, w) ∷ m) =
      ground (arith, get-modify k j f m, e.beq_iff i k, e.beq_iff i j, e.beq_iff k j)

  -- A write that would not change the value that is there changes nothing.
  pub modify-fixed :
      (k : K) (f : V → V) (m : List (K × V))
      → ((v : V) → get k m ≡ some v → f v ≡ v)
      → modify k f m ≡ m
  unfolding get modify
  modify-fixed k f [] h = refl
  modify-fixed k f ((i, w) ∷ m) h = elim (Bool-cases (e.beq i k)) [
    | inl same ↦ rw same (ap (λ v. (i, v) ∷ m) (h w (rw same refl)))
    | inr other ↦ rw other (ap (◌∷◌ (i, w)) (modify-fixed k f m (λ v g. h v (rw other g))))
  ]

  pub modify-modify :
      (k : K) (f g : V → V) (m : List (K × V))
      → modify k f (modify k g m) ≡ modify k (λ v. f (g v)) m
  unfolding modify
  modify-modify k f g [] = refl
  modify-modify k f g ((i, w) ∷ m) = elim (Bool-cases (e.beq i k)) [
    | inl same ↦ rw same (rw same refl)
    | inr other ↦ rw other (rw other (ap (◌∷◌ (i, w)) (modify-modify k f g m)))
  ]

  pub insert-insert : (k : K) (v : V) (m : List (K × V)) → insert k v (insert k v m) ≡ insert k v m
  unfolding insert
  insert-insert k v [] = let same = (e.beq_iff k k).1 refl in rw same
  insert-insert k v ((i, w) ∷ m) =
      let same = (e.beq_iff k k).1 refl in
      elim (Bool-cases (e.beq i k)) [
        | inl h ↦ rw (h, same)
        | inr h ↦ rw (h, h, insert-insert k v m)
      ]
