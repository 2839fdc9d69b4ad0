-- ===== src/Sse/Find.antt =====
-- `find`: where a text is found in a longer one.
use co_net_l0d.Base.{
  ℕ, suc, ◌+◌, ◌≤◌, ◌≡◌, refl, sym, ap, ◌∙◌, inl, inr, true, false, not, if-true, if-false, none,
  some, [], ◌∷◌, ◌++◌, arith, ◌==◌, Bool-cases, Option-cases, length, length-append, Text,
  starts_with, all, &&-true,
}
use co_net_l0d.Sse.{find_from, find_text}

starts_with-append : (pat s t : Text) → starts_with pat s ≡ true → starts_with pat (s ++ t) ≡ true
starts_with-append [] s t h = refl
starts_with-append (p ∷ pat) [] t h = absurd (ground arith)
starts_with-append (p ∷ pat) (c ∷ s) t h = ground (arith, starts_with-append pat s t)

starts_with-length : (pat s : Text) → starts_with pat s ≡ true → length pat ≤ length s
starts_with-length [] s h = omega arith
starts_with-length (p ∷ pat) [] h = absurd (ground arith)
starts_with-length (p ∷ pat) (c ∷ s) h = ground (arith, starts_with-length pat s)

find_from-bound :
    (i j : ℕ) (pat s : Text) → find_from i pat s ≡ some j → j + length pat ≤ i + length s
unfolding find_from
find_from-bound i j pat [] h = elim (Bool-cases (starts_with pat [])) [
  | inl here ↦ ground (arith, starts_with-length pat [] here)
  | inr missed ↦ absurd (ground arith)
]
find_from-bound i j pat (c ∷ s) h = elim (Bool-cases (starts_with pat (c ∷ s))) [
  | inl here ↦ ground (arith, starts_with-length pat (c ∷ s) here)
  | inr missed ↦ ground (arith, find_from-bound (suc i) j pat s)
]

find_from-after : (i j : ℕ) (pat s : Text) → find_from i pat s ≡ some j → i ≤ j
unfolding find_from
find_from-after i j pat [] h = elim (Bool-cases (starts_with pat [])) [
  | inl here ↦ ground arith
  | inr missed ↦ absurd (ground arith)
]
find_from-after i j pat (c ∷ s) h = elim (Bool-cases (starts_with pat (c ∷ s))) [
  | inl here ↦ ground arith
  | inr missed ↦ ground (arith, find_from-after (suc i) j pat s)
]

missed_still :
    (pat s t : Text)
    → length pat ≤ length s
    → starts_with pat s ≡ false
    → starts_with pat (s ++ t) ≡ false
missed_still [] s t size h = absurd (ground arith)
missed_still (p ∷ pat) [] t size h = absurd (omega arith)
missed_still (p ∷ pat) (c ∷ s) t size h = ground (arith, missed_still pat s t)

find_from-skip :
    (i p : ℕ) (pat s t : Text)
    → all (λ c. not (c == p)) s ≡ true
    → starts_with (p ∷ pat) t ≡ true
    → find_from i (p ∷ pat) (s ++ t) ≡ some (i + length s)
unfolding find_from
find_from-skip i p pat [] [] h found = absurd (ground arith)
find_from-skip i p pat [] (d ∷ t) h found = if-true _ _ _ found ∙ ground arith
find_from-skip i p pat (c ∷ s) t h found =
    let (now, later) = &&-true (not (c == p)) (all (λ c. not (c == p)) s) h in
    let missed : starts_with (p ∷ pat) (c ∷ (s ++ t)) ≡ false = ground arith in
    if-false _ _ _ missed ∙ find_from-skip (suc i) p pat s t later found ∙ ground arith

-- What is found stays found where the text grows at its end.
find_from-append :
    (i j : ℕ) (pat s t : Text)
    → 1 ≤ length pat
    → find_from i pat s ≡ some j
    → find_from i pat (s ++ t) ≡ some j
unfolding find_from
find_from-append i j [] s t size h = absurd (omega arith)
find_from-append i j (p ∷ pat) [] t size h = absurd (ground arith)
find_from-append i j (p ∷ pat) (c ∷ s) t size h =
    elim (Bool-cases (starts_with (p ∷ pat) (c ∷ s))) [
      | inl here ↦
          let grown = starts_with-append (p ∷ pat) (c ∷ s) t here in
          if-true _ _ _ grown ∙ sym (if-true (starts_with (p ∷ pat) (c ∷ s)) _ _ here) ∙ h
      | inr missed ↦
          let later = sym (if-false (starts_with (p ∷ pat) (c ∷ s)) _ _ missed) ∙ h in
          let fits = find_from-bound (suc i) j (p ∷ pat) s later in
          let after = find_from-after (suc i) j (p ∷ pat) s later in
          let grown : starts_with (p ∷ pat) (c ∷ (s ++ t)) ≡ false =
            missed_still (p ∷ pat) (c ∷ s) t (omega arith) missed in
          if-false _ _ _ grown ∙ find_from-append (suc i) j (p ∷ pat) s t size later
    ]

pub find_text-none_of_none :
    (pat s t : Text) → 1 ≤ length pat → find_text pat (s ++ t) ≡ none → find_text pat s ≡ none
unfolding find_text
find_text-none_of_none pat s t size h = elim (Option-cases (find_from 0 pat s)) [
  | inl none_there ↦ none_there
  | inr (j, found) ↦ absurd (ground (arith, find_from-append 0 j pat s t size found))
]

-- A text that is found only at the very end is not found in what comes before the end.
pub find_text-none_of_last :
    (pat s t : Text) (i : ℕ)
    → 1 ≤ length pat
    → 1 ≤ length t
    → find_text pat (s ++ t) ≡ some i
    → i + length pat ≡ length (s ++ t)
    → find_text pat s ≡ none
unfolding find_text
find_text-none_of_last pat s t i size more h last = elim (Option-cases (find_from 0 pat s)) [
  | inl none_there ↦ none_there
  | inr (j, found) ↦
      let grown = find_from-append 0 j pat s t size found in
      absurd (ground (arith, length-append s t, find_from-bound 0 j pat s found, grown))
]

-- A first part that does not hold the first character of a text is passed over.
pub find_text-skip :
    (p : ℕ) (pat s t : Text)
    → all (λ c. not (c == p)) s ≡ true
    → starts_with (p ∷ pat) t ≡ true
    → find_text (p ∷ pat) (s ++ t) ≡ some (length s)
unfolding find_text
find_text-skip p pat s t h found = find_from-skip 0 p pat s t h found ∙ ap some (omega arith)

pub find_from-none :
    (i p : ℕ) (pat s t : Text)
    → all (λ c. not (c == p)) s ≡ true
    → find_from (i + length s) (p ∷ pat) t ≡ none
    → find_from i (p ∷ pat) (s ++ t) ≡ none
unfolding find_from
find_from-none i p pat [] t h missed = ap (λ k. find_from k (p ∷ pat) t) (omega arith) ∙ missed
find_from-none i p pat (c ∷ s) t h missed =
    let (now, later) = &&-true (not (c == p)) (all (λ c. not (c == p)) s) h in
    let here : starts_with (p ∷ pat) (c ∷ (s ++ t)) ≡ false = ground arith in
    if-false _ _ _ here
    ∙ find_from-none (suc i) p pat s t later
        (ap (λ k. find_from k (p ∷ pat) t) (omega arith) ∙ missed)
