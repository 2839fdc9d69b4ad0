-- ===== src/Envelope/Split.antt =====
-- What `split_ipv4_datagrams` makes of a buffer.
use mathlib.Core.Path.{ap₂}
use mathlib.Core.Bool.{true}
use co_net_l0d.Base.{
  ℕ, zero, suc, ◌≤◌, ◌<◌, ◌≡◌, refl, ap, ◌∙◌, ◌≢◌, false, ◌||◌, List, [], ◌∷◌, ◌++◌, some, arith,
  ltb, length, length-append, length-drop, take, drop, take-append, drop-append, take-append-drop,
  concat, All, Bytes, Bool-cases, inl, inr, append-nil,
}
use co_net_l0d.Packet.Channel.{at-append}
use co_net_l0d.Packet.{at, version}
use co_net_l0d.Envelope.{looks_like_ipv4, is_opaque, tot_len, split_loop, split_ipv4_datagrams}

-- The pieces are the buffer again, in order, and none is empty.
abbrev pub Covers : Bytes → List Bytes → Type 0
Covers buf pieces = (concat pieces ≡ buf) × All (λ p. p ≢ []) pieces

Covers-one : (b : ℕ) (bs : Bytes) → Covers (b ∷ bs) ((b ∷ bs) ∷ [])
Covers-one b bs = (append-nil (b ∷ bs), (λ e. ground arith, tt))

take-ne-nil : (n b : ℕ) (bs : Bytes) → 0 < n → take n (b ∷ bs) ≢ []
take-ne-nil zero b bs h e = absurd (omega arith)
take-ne-nil (suc n) b bs h e = ground arith

too_small : (n m : ℕ) → (ltb n 20 || ltb m n) ≡ false → 20 ≤ n
too_small n m h = ground arith

split_loop-Covers : (fuel : ℕ) (buf : Bytes) → length buf ≤ fuel → Covers buf (split_loop fuel buf)
unfolding split_loop
split_loop-Covers zero [] h = (refl, tt)
split_loop-Covers zero (b ∷ bs) h = absurd (omega arith)
split_loop-Covers (suc fuel) [] h = (refl, tt)
split_loop-Covers (suc fuel) (b ∷ bs) h = elim (Bool-cases (is_opaque (b ∷ bs))) [
  | inl o ↦ rw o (Covers-one b bs)
  | inr o ↦
      elim (Bool-cases (ltb (tot_len (b ∷ bs)) 20 || ltb (length (b ∷ bs)) (tot_len (b ∷ bs)))) [
        | inl bad ↦ rw (o, bad) (Covers-one b bs)
        | inr good ↦
            let n = tot_len (b ∷ bs) in
            let ih =
              split_loop-Covers fuel (drop n (b ∷ bs))
                (omega (arith, length-drop n (b ∷ bs), too_small n (length (b ∷ bs)) good)) in
            rw (o, good)
              (
                rw ih.0 (take-append-drop n (b ∷ bs)),
                (take-ne-nil n b bs (omega (arith, too_small n (length (b ∷ bs)) good)), ih.1),
              )
      ]
]

split_ipv4_datagrams_loop :
    (b : ℕ) (bs : Bytes)
    → is_opaque (b ∷ bs) ≡ false
    → split_ipv4_datagrams (b ∷ bs) ≡ some (split_loop (length (b ∷ bs)) (b ∷ bs))
unfolding split_ipv4_datagrams
split_ipv4_datagrams_loop b bs o = rw o refl

-- A buffer that is not empty is split into pieces that are not empty and make up the buffer in order.
pub split_ipv4_datagrams-Covers :
    (buf : Bytes)
    → buf ≢ []
    → (pieces : List Bytes) × (split_ipv4_datagrams buf ≡ some pieces) × Covers buf pieces
unfolding split_ipv4_datagrams
split_ipv4_datagrams-Covers [] h = absurd (h refl)
split_ipv4_datagrams-Covers (b ∷ bs) h = elim (Bool-cases (is_opaque (b ∷ bs))) [
  | inl o ↦ ((b ∷ bs) ∷ [], rw o refl, Covers-one b bs)
  | inr o ↦ (
    split_loop (length (b ∷ bs)) (b ∷ bs),
    rw o refl,
    split_loop-Covers (length (b ∷ bs)) (b ∷ bs) (omega arith),
  )
]

-- A whole IPv4 datagram: its header says its length.
pub record IsDatagram (p : Bytes) : Type 0 where
  pub minimal : 20 ≤ length p
  pub version_four : version p ≡ 4
  pub whole : tot_len p ≡ length p

module _ (p rest : Bytes) (d : IsDatagram p) where
  opaque-append : is_opaque (p ++ rest) ≡ false
  opaque-append =
      let first : at (p ++ rest) 0 ≡ at p 0 = at-append p rest 0 (omega arith) in
      let total = length-append p rest in ground arith

  tot_len-append : tot_len (p ++ rest) ≡ length p
  tot_len-append =
      let second : at (p ++ rest) 2 ≡ at p 2 = at-append p rest 2 (omega arith) in
      let third : at (p ++ rest) 3 ≡ at p 3 = at-append p rest 3 (omega arith) in ground arith

  fits : (ltb (tot_len (p ++ rest)) 20 || ltb (length (p ++ rest)) (tot_len (p ++ rest))) ≡ false
  fits = let total = length-append p rest in rw tot_len-append (ground arith)

split_loop_step :
    (fuel : ℕ) (p rest : Bytes)
    → IsDatagram p
    → split_loop (suc fuel) (p ++ rest) ≡ p ∷ split_loop fuel rest
unfolding split_loop
split_loop_step fuel [] rest d = absurd (omega arith)
split_loop_step fuel (b ∷ bs) rest d =
    rw (opaque-append (b ∷ bs) rest d, fits (b ∷ bs) rest d, tot_len-append (b ∷ bs) rest d)
      (ap₂ (λ u v. u ∷ split_loop fuel v) (take-append (b ∷ bs) rest) (drop-append (b ∷ bs) rest))

split_loop_nil : (fuel : ℕ) → split_loop fuel [] ≡ []
unfolding split_loop
split_loop_nil zero = refl
split_loop_nil (suc fuel) = refl

split_loop-concat :
    (fuel : ℕ) (ps : List Bytes)
    → All IsDatagram ps
    → length (concat ps) ≤ fuel
    → split_loop fuel (concat ps) ≡ ps
split_loop-concat fuel [] h le = split_loop_nil fuel
split_loop-concat zero (p ∷ ps) (d, ds) le = absurd (omega (arith, length-append p (concat ps), d))
split_loop-concat (suc fuel) (p ∷ ps) (d, ds) le =
    split_loop_step fuel p (concat ps) d
    ∙ ap (◌∷◌ p) (split_loop-concat fuel ps ds (omega (arith, length-append p (concat ps), d)))

-- Datagrams that are packed one behind the other are taken apart again as they were packed.
pub split_ipv4_datagrams-concat :
    (p : Bytes) (ps : List Bytes)
    → All IsDatagram (p ∷ ps)
    → split_ipv4_datagrams (concat (p ∷ ps)) ≡ some (p ∷ ps)
split_ipv4_datagrams-concat [] ps (d, ds) = absurd (omega arith)
split_ipv4_datagrams-concat (b ∷ bs) ps (d, ds) =
    split_ipv4_datagrams_loop b (bs ++ concat ps) (opaque-append (b ∷ bs) (concat ps) d)
    ∙ ap some
        (split_loop-concat (length (concat ((b ∷ bs) ∷ ps))) ((b ∷ bs) ∷ ps) (d, ds) (omega arith))

-- A buffer that starts with a datagram looks like IPv4.
pub looks_like_ipv4-datagram : (p rest : Bytes) → IsDatagram p → looks_like_ipv4 (p ++ rest) ≡ true
unfolding looks_like_ipv4
looks_like_ipv4-datagram p rest d = let same = opaque-append p rest d in ground arith
