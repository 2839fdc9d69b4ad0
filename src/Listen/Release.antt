-- ===== src/Listen/Release.antt =====
-- What the release of a wallet's stream leaves.
use co_net_l0d.Base.{
  ℕ, ◌≡◌, refl, ap, ◌∙◌, subst, inl, inr, Bool, true, false, none, some, List, [], ◌∷◌, arith,
  if◌then◌else◌, Bool-cases, Option-cases, Text, text_eq_refl, eq_ignore_case, get, get-remove,
  get-modify_self, nat_eq, text_key,
}
use co_net_l0d.Listen.{
  OwnedListenSession, Owners, aborted, abort_listen_session, owned_by, find_by_wallet,
  remove_session, release_found, release_by_wallet,
}

-- The number that is found belongs to a session of the wallet.
find_by_wallet-owned :
    (wallet : Text) (store : List (ℕ × OwnedListenSession)) (m : List (Text × ℕ)) (h : ℕ)
    → find_by_wallet wallet store m ≡ some h
    → (s : OwnedListenSession) × (get h store ≡ some s) × (eq_ignore_case s.owner wallet ≡ true)
unfolding find_by_wallet
find_by_wallet-owned wallet store [] h e = absurd (ground arith)
find_by_wallet-owned wallet store ((id, j) ∷ m) h e =
    elim (Bool-cases (owned_by wallet (get j store))) [
      | inl own ↦ elim (Option-cases (get j store)) [
        | inl missing ↦ absurd (ground arith)
        | inr (s, stored) ↦
            let same : j ≡ h = ground arith in
            (
              s,
              subst (λ j. get j store ≡ some s) same stored,
              subst (λ o. owned_by wallet o ≡ true) stored own,
            )
      ]
      | inr other ↦ find_by_wallet-owned wallet store m h (ground arith)
    ]

-- Where a session of the wallet is registered, one is found.
find_by_wallet-found :
    (wallet : Text) (store : List (ℕ × OwnedListenSession)) (m : List (Text × ℕ)) (id : Text)
    (h : ℕ) (s : OwnedListenSession)
    → get id m ≡ some h
    → get h store ≡ some s
    → eq_ignore_case s.owner wallet ≡ true
    → (g : ℕ) × (find_by_wallet wallet store m ≡ some g)
unfolding find_by_wallet get
find_by_wallet-found wallet store [] id h s registered stored own = absurd (ground arith)
find_by_wallet-found wallet store ((i, j) ∷ m) id h s registered stored own =
    elim (Bool-cases (owned_by wallet (get j store))) [
      | inl found ↦ rw found (j, refl)
      | inr other ↦ elim (Bool-cases (text_key.beq i id)) [
        | inl same ↦
            let at : j ≡ h = ground arith in
            let owned : owned_by wallet (get j store) ≡ true =
              ap (λ j. owned_by wallet (get j store)) at ∙ ap (owned_by wallet) stored ∙ own in
            absurd (ground arith)
        | inr differs ↦
            rw other (find_by_wallet-found wallet store m id h s (ground arith) stored own)
      ]
    ]

-- Where a session of a wallet is registered, a release of the wallet finds some session of that wallet,
-- cancels it and stops its task, with all else of it as it was, and takes its id out of the registry.
pub release_by_wallet-releases :
    (wallet : Text) (o : Owners) (id : Text) (g : ℕ) (mine : OwnedListenSession)
    → get id o.owners ≡ some g
    → get g o.store ≡ some mine
    → eq_ignore_case mine.owner wallet ≡ true
    → let r = (release_by_wallet wallet o).0 in
      (h : ℕ) × (s : OwnedListenSession) × (get h o.store ≡ some s)
      × (eq_ignore_case s.owner wallet ≡ true)
      × (get h r.store ≡ some (record s { cancelled = true; has_task = false }))
      × (get s.id r.owners ≡ none)
unfolding release_by_wallet release_found abort_listen_session remove_session
release_by_wallet-releases wallet o id g mine registered held owner =
    let (h, e) = find_by_wallet-found wallet o.store o.owners id g mine registered held owner in
    let (s, stored, own) = find_by_wallet-owned wallet o.store o.owners h e in
    let kept = get-modify_self h aborted s o.store stored in
    let step = ap (release_found o) e ∙ ap (remove_session (abort_listen_session h o)) kept in
    (
      h,
      s,
      stored,
      own,
      ap (λ (r : Owners × Bool). get h r.0.store) step ∙ kept,
      ap (λ (r : Owners × Bool). get s.id r.0.owners) step ∙ get-remove s.id s.id o.owners ∙ gone s,
    )
  where
    gone :
        (s : OwnedListenSession)
        → (if text_key.beq s.id s.id then none else get s.id o.owners) ≡ none
    gone s = let same = text_eq_refl s.id in rw same
