-- ===== src/Duplex/Lines/Keyed.antt =====
-- Maps of lines compared entry by entry, and the rule that a line stands under its own key.
use co_net_l0d.Base.{
  ℕ, ◌≡◌, refl, sym, ap, ◌∙◌, ◌⊎◌, inl, inr, Bool, true, false, List, [], ◌∷◌, All, if◌then◌else◌,
  Bool-cases, Text, modify,
}
use co_net_l0d.Duplex.Lines.{has_id, retain_duplex_except_session_id}
use co_net_l0d.Duplex.Session.{DuplexSession, DuplexKey, Sessions, duplex_key_of, duplex_key_eq}

-- The fields that make up the key of a line.
abbrev pub SamePlace : DuplexSession → DuplexSession → Type 0
SamePlace s t = (t.dest ≡ s.dest) × (t.port ≡ s.port) × (t.session_id ≡ s.session_id)

-- The two maps have the same keys in the same order, and each line is unchanged or changed by `P`.
abbrev pub Pointwise : (DuplexSession → DuplexSession → Type 0) → Sessions → Sessions → Type 0
Pointwise P [] [] = Unit {0}
Pointwise P [] (kt ∷ n) = ⊥
Pointwise P (ks ∷ m) [] = ⊥
Pointwise P ((j, s) ∷ m) ((k, t) ∷ n) = (j ≡ k) × ((s ≡ t) ⊎ P s t) × Pointwise P m n

pub Pointwise-same : (P : DuplexSession → DuplexSession → Type 0) (m : Sessions) → Pointwise P m m
Pointwise-same P [] = tt
Pointwise-same P ((k, s) ∷ m) = (refl, inl refl, Pointwise-same P m)

-- Every line stands under the key that its fields make up.
abbrev pub IsKeyed : Sessions → Type 0
IsKeyed m = All (λ (e : DuplexKey × DuplexSession). e.0 ≡ duplex_key_of e.1) m

pub if-IsKeyed : (b : Bool) (m n : Sessions) → IsKeyed m → IsKeyed n → IsKeyed (if b then m else n)
if-IsKeyed true m n h k = h
if-IsKeyed false m n h k = k

pub if-place :
    (b : Bool) (s t : DuplexSession) (k : DuplexKey)
    → duplex_key_of s ≡ k
    → duplex_key_of t ≡ k
    → duplex_key_of (if b then s else t) ≡ k
if-place true s t k h h' = h
if-place false s t k h h' = h'

pub modify-IsKeyed :
    (k : DuplexKey) (f : DuplexSession → DuplexSession) (m : Sessions)
    → ((s : DuplexSession) → duplex_key_of (f s) ≡ duplex_key_of s)
    → IsKeyed m
    → IsKeyed (modify k f m)
unfolding modify
modify-IsKeyed k f [] same h = tt
modify-IsKeyed k f ((j, s) ∷ m) same (h, hs) =
    if-IsKeyed (duplex_key_eq.beq j k) ((j, f s) ∷ m) ((j, s) ∷ modify k f m) (h ∙ sym (same s), hs)
      (h, modify-IsKeyed k f m same hs)

pub Pointwise-IsKeyed :
    (P : DuplexSession → DuplexSession → Type 0)
    → ((s t : DuplexSession) → P s t → SamePlace s t)
    → (m n : Sessions) → Pointwise P m n
    → IsKeyed m
    → IsKeyed n
Pointwise-IsKeyed P place [] [] p h = tt
Pointwise-IsKeyed P place [] (e ∷ n) p h = absurd p
Pointwise-IsKeyed P place (e ∷ m) [] p h = absurd p
Pointwise-IsKeyed P place ((j, s) ∷ m) ((k, t) ∷ n) (e, same, rest) (h, hs) = (
  elim same [
    | inl equal ↦ sym e ∙ h ∙ ap duplex_key_of equal
    | inr changed ↦ let (dest, port, id) = place s t changed in sym e ∙ h ∙ cc (dest, port, id)
  ],
  Pointwise-IsKeyed P place m n rest hs,
)

pub retain-IsKeyed :
    (session_id : Text) (m : Sessions) (raised : List ℕ)
    → IsKeyed m
    → IsKeyed (retain_duplex_except_session_id session_id m raised).0
unfolding retain_duplex_except_session_id
retain-IsKeyed session_id [] raised h = tt
retain-IsKeyed session_id ((k, s) ∷ m) raised (h, hs) = elim (Bool-cases (has_id session_id s)) [
  | inl own ↦ rw own (retain-IsKeyed session_id m raised hs)
  | inr kept ↦ rw kept (h, retain-IsKeyed session_id m raised hs)
]
