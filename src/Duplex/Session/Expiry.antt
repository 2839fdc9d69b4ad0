-- ===== src/Duplex/Session/Expiry.antt =====
-- The time within which an offer or an accept counts.
use co_net_l0d.Base.{ℕ, ◌+◌, ◌^◌, ◌≤◌, ◌<◌, ◌≡◌, ◌↔◌, false, arith}
use co_net_l0d.Duplex.Session.{duplex_offer_is_expired}

-- A message counts from ten seconds before its time stamp up to a hundred seconds after it, where the
-- clock is not within ten seconds of the end of its range.
pub duplex_offer_is_expired_iff :
    (timestamp now : ℕ)
    → now + 10 < 2 ^ 64
    → (duplex_offer_is_expired timestamp now ≡ false)
      ↔ ((timestamp ≤ now + 10) × (now ≤ timestamp + 100))
unfolding duplex_offer_is_expired
duplex_offer_is_expired_iff timestamp now range =
    (λ h. (ground arith, ground arith), λ h. ground arith)
