-- ===== src/Locator/Ports.antt =====
-- The local ports that a target may bind: the port itself, and that port with ten thousand added again
-- and again.
use co_net_l0d.Base.{
  ℕ, zero, suc, ◌+◌, ◌*◌, ◌≤◌, ◌<◌, ◌≡◌, inl, inr, Bool, true, false, not, Option, none, some, List,
  [], ◌∷◌, arith, leb, if◌then◌else◌, find, contains, Bool-cases, subst,
}
use co_net_l0d.Locator.{u16_max, client_local_port_stride}

-- The ports that `successors` gives, on fuel.
candidates : ℕ → ℕ → List ℕ
candidates zero port = []
candidates (suc fuel) port =
    let later = candidates fuel (port + client_local_port_stride) in
    port ∷ (if leb (port + client_local_port_stride) u16_max then later else [])

-- Seven steps of the stride leave the range of a port.
unfoldable pub client_bind_candidates : ℕ → Bool → List ℕ
unfolding candidates
client_bind_candidates start explicit = if explicit then start ∷ [] else candidates 7 start

unfoldable pub next_client_bind_port : ℕ → List ℕ → Option ℕ
unfolding client_bind_candidates
next_client_bind_port logical claimed =
    find (λ port. not (contains claimed port)) (client_bind_candidates logical false)

-- The `k`-th candidate.
abbrev pub candidate : ℕ → ℕ → ℕ
candidate logical k = logical + client_local_port_stride * k

-- The first candidate that is not claimed, or that there is none.
abbrev pub FirstFree : ℕ → List ℕ → Option ℕ → Type 0
FirstFree logical claimed none =
    (k : ℕ) → candidate logical k ≤ u16_max → contains claimed (candidate logical k) ≡ true
FirstFree logical claimed (some port) =
    (k : ℕ) × (port ≡ candidate logical k)
    × (port ≤ u16_max)
    × (contains claimed port ≡ false)
    × ((j : ℕ) → j < k → contains claimed (candidate logical j) ≡ true)

abbrev free_in : List ℕ → ℕ → Bool
free_in claimed port = not (contains claimed port)

-- A claimed port is passed over.
FirstFree-next :
    (port : ℕ) (claimed : List ℕ) (o : Option ℕ)
    → contains claimed port ≡ true
    → FirstFree (port + client_local_port_stride) claimed o
    → FirstFree port claimed o
FirstFree-next port claimed none taken h = all_taken
  where
    all_taken : (k : ℕ) → candidate port k ≤ u16_max → contains claimed (candidate port k) ≡ true
    all_taken zero range = subst (λ p. contains claimed p ≡ true) (omega arith) taken
    all_taken (suc k) range =
        subst (λ p. contains claimed p ≡ true) (omega arith) (h k (omega arith))
FirstFree-next port claimed (some p) taken (k, e, range, free, before) =
    (suc k, omega arith, range, free, earlier)
  where
    earlier : (j : ℕ) → j < suc k → contains claimed (candidate port j) ≡ true
    earlier zero h = subst (λ p. contains claimed p ≡ true) (omega arith) taken
    earlier (suc j) h =
        subst (λ p. contains claimed p ≡ true) (omega arith) (before j (omega arith))

-- `fuel` steps of the stride leave the range.
candidates-FirstFree :
    (fuel port : ℕ) (claimed : List ℕ)
    → port ≤ u16_max
    → u16_max < port + client_local_port_stride * fuel
    → FirstFree port claimed (find (free_in claimed) (candidates fuel port))
unfolding candidates
candidates-FirstFree zero port claimed range enough = absurd (omega arith)
candidates-FirstFree (suc fuel) port claimed range enough =
    elim (Bool-cases (contains claimed port)) [
      | inl taken ↦ rw taken (elim (Bool-cases (leb (port + client_local_port_stride) u16_max)) [
        | inl more ↦ rw more (
            FirstFree-next port claimed _ taken (
              candidates-FirstFree fuel (port + client_local_port_stride) claimed (ground arith)
                (omega arith)))
        | inr last ↦ rw last (only taken last)
      ])
      | inr free ↦ rw free (zero, omega arith, range, free, λ j h. absurd (omega arith))
    ]
  where
    only :
        contains claimed port ≡ true
        → leb (port + client_local_port_stride) u16_max ≡ false
        → FirstFree port claimed none
    only taken last zero h = subst (λ p. contains claimed p ≡ true) (omega arith) taken
    only taken last (suc k) h = absurd (ground arith)

-- The port that is chosen is the first of the candidates that is not claimed, and a port number; where
-- none is chosen all candidates within the range are claimed.
pub next_client_bind_port-FirstFree :
    (logical : ℕ) (claimed : List ℕ)
    → logical ≤ u16_max
    → FirstFree logical claimed (next_client_bind_port logical claimed)
unfolding next_client_bind_port client_bind_candidates
next_client_bind_port-FirstFree logical claimed range =
    candidates-FirstFree 7 logical claimed range (omega arith)
