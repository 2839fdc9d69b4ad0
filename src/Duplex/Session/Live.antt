-- ===== src/Duplex/Session/Live.antt =====
-- The line that overlay traffic for a peer and port uses.
use co_net_l0d.Base.{
  ℕ, ◌≡◌, refl, sym, subst, inl, inr, Bool, true, false, ◌&&◌, ◌||◌, Option, none, some, [], ◌∷◌,
  arith, ◌==◌, Bool-cases,
}
use co_net_l0d.Duplex.Session.{
  DuplexSession, Sessions, is_ready, is_better, better_of, live_session_from, duplex_live_session,
}

abbrev is_at : ℕ → ℕ → DuplexSession → Bool
is_at dest port s = s.dest == dest && s.port == port

-- A line of the peer and port can take traffic at once: it has a key and a pipe and is not rejected.
abbrev pub has_ready : ℕ → ℕ → Sessions → Bool
has_ready dest port [] = false
has_ready dest port ((k, s) ∷ rest) = (is_at dest port s && is_ready s) || has_ready dest port rest

-- The result is a ready line of the peer and port.
abbrev pub IsReady : ℕ → ℕ → Option DuplexSession → Type 0
IsReady dest port o =
    (s : DuplexSession) × (o ≡ some s) × (is_at dest port s ≡ true) × (is_ready s ≡ true)

better_of-IsReady :
    (dest port : ℕ) (b s : DuplexSession)
    → is_at dest port b ≡ true
    → is_ready b ≡ true
    → is_at dest port s ≡ true
    → IsReady dest port (some (better_of (some b) s))
unfolding is_better
better_of-IsReady dest port b s here r there = elim (Bool-cases (is_better b s)) [
  | inl better ↦ (s, rw better, there, ground arith)
  | inr kept ↦ (b, rw kept, here, r)
]

abbrev IsAt : ℕ → ℕ → Option DuplexSession → Type 0
IsAt dest port none = Unit {0}
IsAt dest port (some b) = is_at dest port b ≡ true

better_of-IsAt :
    (dest port : ℕ) (o : Option DuplexSession) (s : DuplexSession)
    → IsAt dest port o
    → is_at dest port s ≡ true
    → is_at dest port (better_of o s) ≡ true
better_of-IsAt dest port none s h there = there
better_of-IsAt dest port (some b) s h there = elim (Bool-cases (is_better b s)) [
  | inl better ↦ rw better there
  | inr kept ↦ rw kept h
]

better_of-takes :
    (dest port : ℕ) (o : Option DuplexSession) (s : DuplexSession)
    → IsAt dest port o
    → is_at dest port s ≡ true
    → is_ready s ≡ true
    → IsReady dest port (some (better_of o s))
unfolding is_better
better_of-takes dest port none s h there r = (s, refl, there, r)
better_of-takes dest port (some b) s h there r = elim (Bool-cases (is_ready b)) [
  | inl first ↦ better_of-IsReady dest port b s h first there
  | inr unready ↦ (s, rw (unready, r), there, r)
]

live_session_from-keeps :
    (dest port : ℕ) (o : Option DuplexSession) (m : Sessions)
    → IsReady dest port o
    → IsReady dest port (live_session_from o dest port m)
unfolding live_session_from
live_session_from-keeps dest port o [] h = h
live_session_from-keeps dest port o ((k, s) ∷ m) (b, e, here, r) =
    elim (Bool-cases (is_at dest port s)) [
      | inl there ↦ rw there (
          live_session_from-keeps dest port _ m (
            subst (λ o. IsReady dest port (some (better_of o s))) (sym e)
              (better_of-IsReady dest port b s here r there)))
      | inr elsewhere ↦ rw elsewhere (live_session_from-keeps dest port o m (b, e, here, r))
    ]

live_session_from-IsReady :
    (dest port : ℕ) (o : Option DuplexSession) (m : Sessions)
    → IsAt dest port o
    → has_ready dest port m ≡ true
    → IsReady dest port (live_session_from o dest port m)
unfolding live_session_from
live_session_from-IsReady dest port o [] h found = absurd (ground arith)
live_session_from-IsReady dest port o ((k, s) ∷ m) h found = elim (Bool-cases (is_at dest port s)) [
  | inl there ↦ elim (Bool-cases (is_ready s)) [
    | inl r ↦
        rw there (live_session_from-keeps dest port _ m (better_of-takes dest port o s h there r))
    | inr unready ↦ rw there (
        live_session_from-IsReady dest port (some (better_of o s)) m
          (better_of-IsAt dest port o s h there) (later there unready))
  ]
  | inr elsewhere ↦ rw elsewhere (live_session_from-IsReady dest port o m h (passed elsewhere))
]
  where
    later : is_at dest port s ≡ true → is_ready s ≡ false → has_ready dest port m ≡ true
    later there unready = ground arith

    passed : is_at dest port s ≡ false → has_ready dest port m ≡ true
    passed elsewhere = ground arith

-- Where some line of a peer and port is ready, whatever other lines there are and in whatever order they
-- are walked, the line chosen for its traffic is a ready line of that peer and port.
pub duplex_live_session-IsReady :
    (dest port : ℕ) (m : Sessions)
    → has_ready dest port m ≡ true
    → IsReady dest port (duplex_live_session m dest port)
unfolding duplex_live_session
duplex_live_session-IsReady dest port m found = live_session_from-IsReady dest port none m tt found
