-- ===== src/Base/Utf8.antt =====
-- UTF-8: `str::as_bytes`, and `String::from_utf8` as the table of well-formed byte sequences of Unicode.
use Prim.Native.Nat.{ℕ, zero, suc, ◌+◌, ◌-◌, ◌*◌, ◌/◌, ◌%◌, ◌≤◌, ◌<◌}
use mathlib.Core.Path.{◌≡◌, refl, sym, ap, ◌∙◌}
use mathlib.Core.Logic.{inl, inr}
use mathlib.Core.Bool.{Bool, true, ◌||◌}
use mathlib.Core.List.{[], ◌∷◌, ◌++◌}
use mathlib.Core.Option
use mathlib.Core.Option.{Option, none, some}
use native.Mathlib.Omega.{arith}
use co_net_l0d.Base.Tests.{ltb, ◌==◌, if◌then◌else◌, Bool-cases, Option-cases}
use co_net_l0d.Base.Lists.{All, All-append, length, length-append}
use co_net_l0d.Base.Strings.{Text, within}
use co_net_l0d.Base.Endian.{Bytes, IsBytes}

-- A Unicode scalar value: what a `char` holds.
abbrev pub is_scalar : ℕ → Bool
is_scalar c = ltb c 0xd800 || within 0xe000 0x10ffff c

abbrev pub IsText : Text → Type 0
IsText s = All (λ c. is_scalar c ≡ true) s

abbrev pub utf8_char : ℕ → Bytes
utf8_char c =
    if ltb c 0x80
    then c ∷ []
    else if ltb c 0x800
    then (0xc0 + c / 64) ∷ (0x80 + c % 64) ∷ []
    else if ltb c 0x10000
    then (0xe0 + c / 4096) ∷ (0x80 + c / 64 % 64) ∷ (0x80 + c % 64) ∷ []
    else (0xf0 + c / 262144) ∷ (0x80 + c / 4096 % 64) ∷ (0x80 + c / 64 % 64) ∷ (0x80 + c % 64) ∷ []

unfoldable pub as_bytes : Text → Bytes
as_bytes [] = []
as_bytes (c ∷ s) = utf8_char c ++ as_bytes s

-- What is left of a character: the bytes that must follow, the bounds of the next one, and the bits.
pub record Pending : Type 0 where
  pub need : ℕ
  pub lo : ℕ
  pub hi : ℕ
  pub bits : ℕ

abbrev pending : ℕ → ℕ → ℕ → ℕ → Pending
pending need lo hi bits = record { need = need; lo = lo; hi = hi; bits = bits }

abbrev start : Pending
start = pending 0 0 0 0

abbrev lead : ℕ → Option (Pending × Text)
lead b =
    if ltb b 0x80
    then some (start, b ∷ [])
    else if within 0xc2 0xdf b
    then some (pending 1 0x80 0xbf (b - 0xc0), [])
    else if b == 0xe0
    then some (pending 2 0xa0 0xbf 0, [])
    else if b == 0xed
    then some (pending 2 0x80 0x9f 13, [])
    else if within 0xe1 0xef b
    then some (pending 2 0x80 0xbf (b - 0xe0), [])
    else if b == 0xf0
    then some (pending 3 0x90 0xbf 0, [])
    else if b == 0xf4
    then some (pending 3 0x80 0x8f 4, [])
    else if within 0xf1 0xf3 b
    then some (pending 3 0x80 0xbf (b - 0xf0), [])
    else none

abbrev follow : ℕ → ℕ → ℕ → ℕ → ℕ → Option (Pending × Text)
follow zero lo hi bits b = lead b
follow (suc zero) lo hi bits b =
    if within lo hi b then some (start, (bits * 64 + (b - 0x80)) ∷ []) else none
follow (suc (suc n)) lo hi bits b =
    if within lo hi b then some (pending (suc n) 0x80 0xbf (bits * 64 + (b - 0x80)), []) else none

unfoldable pub from_utf8_at : Pending → Bytes → Option Text
from_utf8_at p [] = if p.need == 0 then some [] else none
from_utf8_at p (b ∷ bs) = elim (follow p.need p.lo p.hi p.bits b) [
  | none ↦ none
  | some (q, out) ↦ Option.map (λ s. out ++ s) (from_utf8_at q bs)
]

unfoldable pub from_utf8 : Bytes → Option Text
unfolding from_utf8_at
from_utf8 bytes = from_utf8_at start bytes

step :
    (p q : Pending) (b : ℕ) (out : Text) (bs : Bytes)
    → follow p.need p.lo p.hi p.bits b ≡ some (q, out)
    → from_utf8_at p (b ∷ bs) ≡ Option.map (λ s. out ++ s) (from_utf8_at q bs)
unfolding from_utf8_at
step p q b out bs h =
    ap
      (λ (o : Option (Pending × Text)). elim o [
        | none ↦ none
        | some (r, t) ↦ Option.map (λ s. t ++ s) (from_utf8_at r bs)
      ])
      h

map-id : (o : Option Text) → Option.map (λ s. [] ++ s) o ≡ o
map-id none = refl
map-id (some s) = refl

-- A step that reads no whole character.
quiet :
    (p q : Pending) (b : ℕ) (bs : Bytes)
    → follow p.need p.lo p.hi p.bits b ≡ some (q, [])
    → from_utf8_at p (b ∷ bs) ≡ from_utf8_at q bs
quiet p q b bs h = step p q b [] bs h ∙ map-id (from_utf8_at q bs)

-- A continuation byte that is not the last one, and the last one.
middle :
    (n lo hi bits b : ℕ) (bs : Bytes)
    → within lo hi b ≡ true
    → from_utf8_at (pending (suc (suc n)) lo hi bits) (b ∷ bs)
      ≡ from_utf8_at (pending (suc n) 0x80 0xbf (bits * 64 + (b - 0x80))) bs
middle n lo hi bits b bs h = quiet (pending (suc (suc n)) lo hi bits) _ b bs (rw h refl)

last :
    (lo hi bits b c : ℕ) (bs : Bytes)
    → within lo hi b ≡ true
    → bits * 64 + (b - 0x80) ≡ c
    → from_utf8_at (pending 1 lo hi bits) (b ∷ bs) ≡ Option.map (λ s. c ∷ s) (from_utf8_at start bs)
last lo hi bits b c bs h e = step (pending 1 lo hi bits) start b (c ∷ []) bs (rw (h, e) refl)

-- The first two bytes of a character of three, and of four.
lead_three :
    (k b : ℕ) (bs : Bytes)
    → k < 16
    → within 0x80 0xbf b ≡ true
    → ((k ≡ 0) → 0xa0 ≤ b)
    → ((k ≡ 13) → b ≤ 0x9f)
    → from_utf8_at start ((0xe0 + k) ∷ b ∷ bs)
      ≡ from_utf8_at (pending 1 0x80 0xbf (k * 64 + (b - 0x80))) bs
lead_three k b bs small cont low high = elim (Bool-cases (k == 0)) [
  | inl zero_lead ↦
      quiet start (pending 2 0xa0 0xbf k) (0xe0 + k) _ (ground arith)
      ∙ middle 0 0xa0 0xbf k b bs (ground arith)
  | inr other ↦ elim (Bool-cases (k == 13)) [
    | inl surrogates ↦
        quiet start (pending 2 0x80 0x9f k) (0xe0 + k) _ (ground arith)
        ∙ middle 0 0x80 0x9f k b bs (ground arith)
    | inr plain ↦
        quiet start (pending 2 0x80 0xbf k) (0xe0 + k) _ (ground arith)
        ∙ middle 0 0x80 0xbf k b bs cont
  ]
]

lead_four :
    (k b : ℕ) (bs : Bytes)
    → k < 5
    → within 0x80 0xbf b ≡ true
    → ((k ≡ 0) → 0x90 ≤ b)
    → ((k ≡ 4) → b ≤ 0x8f)
    → from_utf8_at start ((0xf0 + k) ∷ b ∷ bs)
      ≡ from_utf8_at (pending 2 0x80 0xbf (k * 64 + (b - 0x80))) bs
lead_four k b bs small cont low high = elim (Bool-cases (k == 0)) [
  | inl zero_lead ↦
      quiet start (pending 3 0x90 0xbf k) (0xf0 + k) _ (ground arith)
      ∙ middle 1 0x90 0xbf k b bs (ground arith)
  | inr other ↦ elim (Bool-cases (k == 4)) [
    | inl highest ↦
        quiet start (pending 3 0x80 0x8f k) (0xf0 + k) _ (ground arith)
        ∙ middle 1 0x80 0x8f k b bs (ground arith)
    | inr plain ↦
        quiet start (pending 3 0x80 0xbf k) (0xf0 + k) _ (ground arith)
        ∙ middle 1 0x80 0xbf k b bs cont
  ]
]

from_utf8_at-utf8_char :
    (c : ℕ) (bs : Bytes)
    → is_scalar c ≡ true
    → from_utf8_at start (utf8_char c ++ bs) ≡ Option.map (λ s. c ∷ s) (from_utf8_at start bs)
from_utf8_at-utf8_char c bs h = elim (Bool-cases (ltb c 0x80)) [
  | inl one ↦ rw one (step start start c (c ∷ []) bs (ground arith))
  | inr above ↦ rw above (elim (Bool-cases (ltb c 0x800)) [
    | inl two ↦ rw two (
        quiet start (pending 1 0x80 0xbf (c / 64)) (0xc0 + c / 64) _ (ground arith)
        ∙ last 0x80 0xbf (c / 64) (0x80 + c % 64) c bs (ground arith) (omega arith))
    | inr wide ↦ rw wide (elim (Bool-cases (ltb c 0x10000)) [
      | inl three ↦ rw three (
          lead_three (c / 4096) (0x80 + c / 64 % 64) _ (ground arith) (ground arith) (ground arith)
            (ground arith)
          ∙ last 0x80 0xbf _ (0x80 + c % 64) c bs (ground arith) (ground arith))
      | inr four ↦ rw four (
          lead_four (c / 262144) (0x80 + c / 4096 % 64) _ (ground arith) (ground arith)
            (ground arith) (ground arith)
          ∙ middle 0 0x80 0xbf _ (0x80 + c / 64 % 64) _ (ground arith)
          ∙ last 0x80 0xbf _ (0x80 + c % 64) c bs (ground arith) (ground arith))
    ])
  ])
]

pub from_utf8-as_bytes : (s : Text) → IsText s → from_utf8 (as_bytes s) ≡ some s
unfolding from_utf8 as_bytes from_utf8_at
from_utf8-as_bytes [] h = refl
from_utf8-as_bytes (c ∷ s) (h, hs) =
    from_utf8_at-utf8_char c (as_bytes s) h ∙ ap (Option.map (λ t. c ∷ t)) (from_utf8-as_bytes s hs)

utf8_char-IsBytes : (c : ℕ) → is_scalar c ≡ true → IsBytes (utf8_char c)
utf8_char-IsBytes c h = elim (Bool-cases (ltb c 0x80)) [
  | inl one ↦ rw one (ground arith)
  | inr above ↦ rw above (elim (Bool-cases (ltb c 0x800)) [
    | inl two ↦ rw two (ground arith)
    | inr wide ↦ rw wide (elim (Bool-cases (ltb c 0x10000)) [
      | inl three ↦ rw three (ground arith)
      | inr four ↦ rw four (ground arith)
    ])
  ])
]

pub as_bytes-IsBytes : (s : Text) → IsText s → IsBytes (as_bytes s)
unfolding as_bytes
as_bytes-IsBytes [] h = tt
as_bytes-IsBytes (c ∷ s) (h, hs) =
    All-append (λ b. b < 256) (utf8_char c) (as_bytes s) (utf8_char-IsBytes c h)
      (as_bytes-IsBytes s hs)

pub length-as_bytes : (s : Text) → length s ≤ length (as_bytes s)
unfolding as_bytes
length-as_bytes [] = omega arith
length-as_bytes (c ∷ s) = ground (arith, length-as_bytes s)

lead-length : (b : ℕ) (q : Pending) (out : Text) → lead b ≡ some (q, out) → length out ≤ 1
lead-length b q out h = ground arith

follow-length :
    (need lo hi bits b : ℕ) (q : Pending) (out : Text)
    → follow need lo hi bits b ≡ some (q, out)
    → length out ≤ 1
follow-length zero lo hi bits b q out h = lead-length b q out h
follow-length (suc zero) lo hi bits b q out h = ground arith
follow-length (suc (suc n)) lo hi bits b q out h = ground arith

length-from_utf8_at :
    (p : Pending) (bs : Bytes) (s : Text) → from_utf8_at p bs ≡ some s → length s ≤ length bs
unfolding from_utf8_at
length-from_utf8_at p [] s h = ground arith
length-from_utf8_at p (b ∷ bs) s h = elim (Option-cases (follow p.need p.lo p.hi p.bits b)) [
  | inl bad ↦ absurd (ground (arith, ap reads bad))
  | inr ((q, out), good) ↦ elim (Option-cases (from_utf8_at q bs)) [
    | inl bad ↦ absurd (ground (arith, ap reads good, ap (Option.map (λ t. out ++ t)) bad))
    | inr (t, rest) ↦
        let same : some (out ++ t) ≡ some s =
          sym (ap (Option.map (λ u. out ++ u)) rest) ∙ sym (ap reads good) ∙ h in
        ground (
          arith,
          length-append out t,
          length-from_utf8_at q bs t rest,
          follow-length p.need p.lo p.hi p.bits b q out good,
        )
  ]
]
  where
    reads : Option (Pending × Text) → Option Text
    reads o = elim o [ none ↦ none | some (r, u) ↦ Option.map (λ v. u ++ v) (from_utf8_at r bs) ]

-- No text is longer than its bytes.
pub length-from_utf8 : (bs : Bytes) (s : Text) → from_utf8 bs ≡ some s → length s ≤ length bs
unfolding from_utf8
length-from_utf8 bs s h = length-from_utf8_at start bs s h
