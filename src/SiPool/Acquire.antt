-- ===== src/SiPool/Acquire.antt =====
-- What `acquire` of src/l0/si_pool.rs hands out.
use co_net_l0d.Base.{
  text_eq, text_eq_refl, ℕ, zero, suc, ◌≡◌, refl, sym, ap, ◌∙◌, inl, inr, Bool, true, false, not,
  ◌&&◌, Option, some, List, [], ◌∷◌, Bool-cases, any, map, take, retain, Text, All, arith, subst,
  unwrap_or, is_empty, ◌⊎◌,
}
use co_net_l0d.SiPool.{
  SiNode, SiPool, entry_of, Page, Probe, reachable, unreachable, is_excluded, is_cooling,
  drop_expired, or_all, candidates_of, pick, mark_failed, max_pick_attempts, acquire, ensure_fresh,
}

-- The entry may be used now: it is not excluded, and neither failed in the last time.
abbrev pub is_fit : Option Text → List (Text × ℕ) → Text → Bool
is_fit exclude cooldown e = not (is_excluded exclude e) && not (is_cooling cooldown e)

any-here : (x : Text) (xs : List Text) → any (text_eq x) (x ∷ xs) ≡ true
any-here x xs = let same = text_eq_refl x in rw same

All-retain :
    (p q : Text → Bool) (xs : List Text)
    → All (λ e. q e ≡ true) xs
    → All (λ e. (p e ≡ true) × (q e ≡ true)) (retain p xs)
All-retain p q [] all = tt
All-retain p q (x ∷ xs) (holds, all) = elim (Bool-cases (p x)) [
  | inl kept ↦ rw kept ((kept, holds), All-retain p q xs all)
  | inr dropped ↦ rw dropped (All-retain p q xs all)
]

All-later :
    (x : Text) (ys xs : List Text)
    → All (λ e. any (text_eq e) ys ≡ true) xs
    → All (λ e. any (text_eq e) (x ∷ ys) ≡ true) xs
All-later x ys [] h = tt
All-later x ys (z ∷ zs) (h, hs) = (ground arith, All-later x ys zs hs)

All-any : (xs : List Text) → All (λ e. any (text_eq e) xs ≡ true) xs
All-any [] = tt
All-any (x ∷ xs) = (any-here x xs, All-later x xs xs (All-any xs))

retain-nonempty :
    (p : Text → Bool) (xs : List Text) → any p xs ≡ true → is_empty (retain p xs) ≡ false
retain-nonempty p [] h = absurd (ground arith)
retain-nonempty p (x ∷ xs) h = elim (Bool-cases (p x)) [
  | inl kept ↦ rw kept refl
  | inr dropped ↦ rw dropped (retain-nonempty p xs (ground arith))
]

or_all-first :
    (P : Text → Type 0) (xs ys : List Text) → is_empty xs ≡ false → All P xs → All P (or_all xs ys)
or_all-first P [] ys h all = absurd (ground arith)
or_all-first P (x ∷ xs) ys h all = all

candidates_of-fit :
    (exclude : Option Text) (cooldown : List (Text × ℕ)) (entries : List Text)
    → any (is_fit exclude cooldown) entries ≡ true
    → All
        (λ e. (is_fit exclude cooldown e ≡ true) × (any (text_eq e) entries ≡ true))
        (candidates_of exclude cooldown entries)
unfolding candidates_of
candidates_of-fit exclude cooldown entries h =
    or_all-first _ (retain (is_fit exclude cooldown) entries) _
      (retain-nonempty (is_fit exclude cooldown) entries h)
      (All-retain (is_fit exclude cooldown) (λ e. any (text_eq e) entries) entries
        (All-any entries))

All-take : (P : Text → Type 0) (n : ℕ) (xs : List Text) → All P xs → All P (take n xs)
All-take P zero xs h = tt
All-take P (suc n) [] h = tt
All-take P (suc n) (x ∷ xs) (h, hs) = (h, All-take P n xs hs)

Probe-cases : (r : Probe) → (r ≡ reachable) ⊎ ((now : ℕ) × (r ≡ unreachable now))
Probe-cases reachable = inl refl
Probe-cases (unreachable now) = inr (now, refl)

pick-reachable :
    (probe : Text → Probe) (e : Text) (order : List Text) (pool : SiPool)
    → probe e ≡ reachable
    → pick probe (e ∷ order) pool ≡ (pool, some e)
unfolding pick
pick-reachable probe e order pool found = rw (pick, found) refl

pick-unreachable :
    (probe : Text → Probe) (e : Text) (order : List Text) (pool : SiPool) (now : ℕ)
    → probe e ≡ unreachable now
    → pick probe (e ∷ order) pool ≡ pick probe order (mark_failed now e pool)
unfolding pick
pick-unreachable probe e order pool now failed = rw (pick, failed) refl

-- What is picked was reachable, and has every property that the candidates have.
pick-Picked :
    (P : Text → Type 0) (probe : Text → Probe) (order : List Text) (pool : SiPool) (entry : Text)
    → All P order
    → (pick probe order pool).1 ≡ some entry
    → (probe entry ≡ reachable) × P entry
unfolding pick
pick-Picked P probe [] pool entry all h = absurd (ground arith)
pick-Picked P probe (e ∷ order) pool entry (p, all) h = elim (Probe-cases (probe e)) [
  | inl found ↦
      picked found
        (sym (ap (λ (r : SiPool × Option Text). r.1) (pick-reachable probe e order pool found)) ∙ h)
  | inr (now, failed) ↦ pick-Picked P probe order (mark_failed now e pool) entry all (
      sym (ap (λ (r : SiPool × Option Text). r.1) (pick-unreachable probe e order pool now failed))
      ∙ h)
]
  where
    picked : probe e ≡ reachable → (some e) ≡ some entry → (probe entry ≡ reachable) × P entry
    picked found h = let same = ap (unwrap_or e) h in (ap probe (sym same) ∙ found, subst P same p)

any-nonempty :
    (p : Text → Bool) (nodes : List SiNode)
    → any p (map entry_of nodes) ≡ true
    → is_empty nodes ≡ false
any-nonempty p [] h = absurd (ground arith)
any-nonempty p (x ∷ xs) h = refl

module _ (fetch : ℕ → ℕ → Page) (shuffle : List Text → List Text) where
  acquire-fresh :
      (probe : Text → Probe) (exclude : Option Text) (now : ℕ) (pool fresh : SiPool)
      → ensure_fresh fetch now pool ≡ some fresh
      → is_empty fresh.nodes ≡ false
      → acquire fetch shuffle probe exclude now pool
        ≡ pick probe
            (take max_pick_attempts (
              shuffle (
                candidates_of exclude
                  (drop_expired now fresh.cooldown)
                  (map entry_of fresh.nodes))))
            (record fresh { cooldown = drop_expired now fresh.cooldown })
  unfolding acquire
  acquire-fresh probe exclude now pool fresh refreshed nonempty = rw (refreshed, nonempty) refl

  -- Where the refreshed pool has a node that is neither excluded nor cooling at the time of the call, an
  -- entry that `acquire` hands out is the entry of a node of that pool, is neither excluded nor cooling, and
  -- its probe succeeded. The order of a shuffle is any that keeps what holds of all the candidates.
  pub acquire-fit :
      (probe : Text → Probe) (exclude : Option Text) (now : ℕ) (pool fresh : SiPool) (entry : Text)
      → ((P : Text → Type 0) (xs : List Text) → All P xs → All P (shuffle xs))
      → ensure_fresh fetch now pool ≡ some fresh
      → any (is_fit exclude (drop_expired now fresh.cooldown)) (map entry_of fresh.nodes) ≡ true
      → (acquire fetch shuffle probe exclude now pool).1 ≡ some entry
      → (probe entry ≡ reachable)
        × (is_fit exclude (drop_expired now fresh.cooldown) entry ≡ true)
        × (any (text_eq entry) (map entry_of fresh.nodes) ≡ true)
  acquire-fit probe exclude now pool fresh entry shuffled refreshed fit picked =
      let (up, (fits, member)) =
        pick-Picked _ probe _ _ entry
          (All-take _ max_pick_attempts _ (
            shuffled _ _ (
              candidates_of-fit exclude (drop_expired now fresh.cooldown) (map entry_of fresh.nodes)
                fit)))
          (sym (
              ap (λ (r : SiPool × Option Text). r.1)
                (acquire-fresh probe exclude now pool fresh refreshed
                  (any-nonempty _ fresh.nodes fit)))
            ∙ picked) in
      (up, fits, member)
