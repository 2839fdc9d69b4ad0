-- ===== src/Duplex/Lines/First.antt =====
-- Two maps of lines that differ in one line of src/l0/client.rs, the first with the id of a session.
use co_net_l0d.Base.{◌≡◌, refl, ap, true, false, [], ◌∷◌, ◌++◌, All, Text, text_eq_iff}
use co_net_l0d.Duplex.Lines.{has_id}
use co_net_l0d.Duplex.Session.{DuplexSession, DuplexKey, Sessions}

-- The line `s` is the first of the session in `m`; in `n` the line `t` stands in its place, and all other
-- lines are those of `m`.
abbrev pub Replaced : Text → DuplexSession → DuplexSession → Sessions → Sessions → Type 0
Replaced session_id s t m n =
    (before : Sessions) × (k : DuplexKey) × (after : Sessions) × (m ≡ before ++ (k, s) ∷ after)
    × (n ≡ before ++ (k, t) ∷ after)
    × (s.session_id ≡ session_id)
    × All (λ (e : DuplexKey × DuplexSession). has_id session_id e.1 ≡ false) before

pub Replaced-here :
    (session_id : Text) (k : DuplexKey) (s t : DuplexSession) (m : Sessions)
    → has_id session_id s ≡ true
    → Replaced session_id s t ((k, s) ∷ m) ((k, t) ∷ m)
Replaced-here session_id k s t m own =
    ([], k, m, refl, refl, (text_eq_iff s.session_id session_id).0 own, tt)

pub Replaced-later :
    (session_id : Text) (k : DuplexKey) (u s t : DuplexSession) (m n : Sessions)
    → has_id session_id u ≡ false
    → Replaced session_id s t m n
    → Replaced session_id s t ((k, u) ∷ m) ((k, u) ∷ n)
Replaced-later session_id k u s t m n other (before, j, after, p, q, own, passed) = (
  (k, u) ∷ before,
  j,
  after,
  ap (λ l. (k, u) ∷ l) p,
  ap (λ l. (k, u) ∷ l) q,
  own,
  (other, passed),
)
