-- ===== src/Duplex/Offer/Replay.antt =====
-- A second copy of an offer that opened a line.
use co_net_l0d.Base.{
  ℕ, ◌≡◌, refl, sym, ap, ◌∙◌, inl, inr, true, false, Option, none, some, List, [], ◌∷◌, arith,
  Bool-cases, leb, Text, text_eq_refl, insert, insert-insert, nat_eq,
}
use co_net_l0d.Duplex.Session.{
  DuplexSession, DuplexKey, Sessions, duplex_key_of, duplex_key_eq, duplex_offer_is_expired,
  duplex_duplicate_offer_should_ignore, saturating_add, duplex_offer_clock_skew_secs,
}
use co_net_l0d.Duplex.Lines.{DuplexOffer}
use co_net_l0d.Duplex.Wire.{ChannelWire, Host, nothing}
use co_net_l0d.Duplex.Offer.Match.{
  duplicate, match_offer, match_line, offer_line, first_match, matches, pending_peer_matches,
  offer_is_current, put_back,
}
use co_net_l0d.Duplex.Offer.Allocate.{new_line}
use co_net_l0d.Duplex.Offer.Authority.{
  is_handshake, apply_duplex_offer-Opened, apply_duplex_offer-current,
}
use co_net_l0d.Duplex.Offer.{apply_duplex_offer, after_loop}

first_match-insert :
    (offer : DuplexOffer) (now : ℕ) (k : DuplexKey) (line : DuplexSession) (m : Sessions)
    → matches offer now line ≡ true
    → first_match offer now m ≡ none
    → first_match offer now (insert k line m) ≡ some (k, line)
unfolding first_match insert
first_match-insert offer now k line [] h none_of = rw h
first_match-insert offer now k line ((j, sess) ∷ m) h none_of =
    elim (Bool-cases (duplex_key_eq.beq j k)) [
      | inl same ↦ rw (same, h)
      | inr other ↦ elim (Bool-cases (matches offer now sess)) [
        | inl found ↦ absurd (ground arith)
        | inr passed ↦ rw (other, passed, first_match-insert offer now k line m h (ground arith))
      ]
    ]

expired-current :
    (offer : DuplexOffer) (now : ℕ)
    → duplex_offer_is_expired offer.timestamp now ≡ false
    → leb offer.timestamp (saturating_add now duplex_offer_clock_skew_secs) ≡ true
unfolding duplex_offer_is_expired
expired-current offer now h = ground arith

pending-later :
    (offer : DuplexOffer) (now later : ℕ) (sess : DuplexSession)
    → duplex_offer_is_expired offer.timestamp now ≡ false
    → duplex_offer_is_expired offer.timestamp later ≡ false
    → pending_peer_matches offer later sess ≡ pending_peer_matches offer now sess
unfolding pending_peer_matches offer_is_current
pending-later offer now later sess h g =
    let a = expired-current offer now h in let b = expired-current offer later g in rw (a, b)

first_match-later :
    (offer : DuplexOffer) (now later : ℕ) (m : Sessions)
    → duplex_offer_is_expired offer.timestamp now ≡ false
    → duplex_offer_is_expired offer.timestamp later ≡ false
    → first_match offer later m ≡ first_match offer now m
unfolding first_match
first_match-later offer now later [] h g = refl
first_match-later offer now later ((k, sess) ∷ m) h g =
    rw (pending-later offer now later sess h g, first_match-later offer now later m h g)

offer_line-copy :
    (wires : List (ℕ × ChannelWire)) (offer : DuplexOffer) (now later : ℕ) (identity : Text)
    (m : Sessions) (raised : List ℕ)
    → offer_line wires offer later
        (duplex_key_of (new_line offer now identity))
        (new_line offer now identity)
        m
        raised
      ≡ duplicate
          (insert (duplex_key_of (new_line offer now identity)) (new_line offer now identity) m)
unfolding offer_line put_back pending_peer_matches duplex_duplicate_offer_should_ignore
offer_line-copy wires offer now later identity m raised =
    let same = text_eq_refl offer.key in rw same

matches_new :
    (offer : DuplexOffer) (now later : ℕ) (identity : Text)
    → matches offer later (new_line offer now identity) ≡ true
matches_new offer now later identity = let same = text_eq_refl offer.session_id in rw same

copy_after :
    (host : Host) (offer : DuplexOffer) (now later : ℕ) (ingress generated : Option Text)
    (identity : Text) (m : Sessions)
    → duplex_offer_is_expired offer.timestamp now ≡ false
    → first_match offer now m ≡ none
    → host.duplex
      ≡ insert (duplex_key_of (new_line offer now identity)) (new_line offer now identity) m
    → ((apply_duplex_offer host offer ingress later generated).1 ≡ nothing)
      × ((apply_duplex_offer host offer ingress later generated).0.duplex ≡ host.duplex)
unfolding apply_duplex_offer match_offer match_line after_loop
copy_after host offer now later ingress generated identity m current alone stored =
    elim (Bool-cases (duplex_offer_is_expired offer.timestamp later)) [
      | inl late ↦ (rw late, rw late)
      | inr fresh ↦
          let line = new_line offer now identity in
          let found =
            first_match-later offer now later host.duplex current fresh
            ∙ ap (first_match offer now) stored
            ∙ first_match-insert offer now (duplex_key_of line) line m
                (matches_new offer now now identity) alone in
          let same =
            apply_duplex_offer-current host offer ingress later generated fresh
            ∙ ap
                (λ o.
                  after_loop host offer ingress later generated
                    (match_line host.channel_wire offer later host.duplex host.raised o))
                found
            ∙ ap (after_loop host offer ingress later generated) (
                offer_line-copy host.channel_wire offer now later identity host.duplex
                  host.raised) in
          (
            ap (λ r. r.1) same,
            ap (λ r. r.0.duplex) same
                ∙ ap (insert (duplex_key_of line) line) stored
                ∙ insert-insert (duplex_key_of line) line m
                ∙ sym stored,
          )
    ]

-- Where an offer opened a line, and the lines are still as it left them, whatever else of the host has
-- changed, a copy of it, whoever relays it and whenever it comes, starts nothing and leaves the lines as
-- they are.
pub apply_duplex_offer-again :
    (host : Host) (offer : DuplexOffer) (ingress : Option Text) (now : ℕ) (generated : Option Text)
    (host' : Host) (ingress' : Option Text) (later : ℕ) (generated' : Option Text)
    → is_handshake (apply_duplex_offer host offer ingress now generated).1 ≡ true
    → host'.duplex ≡ (apply_duplex_offer host offer ingress now generated).0.duplex
    → ((apply_duplex_offer host' offer ingress' later generated').1 ≡ nothing)
      × ((apply_duplex_offer host' offer ingress' later generated').0.duplex ≡ host'.duplex)
apply_duplex_offer-again host offer ingress now generated host' ingress' later generated' h kept =
    let (current, alone, (wire, authorised, (identity, ready, acts, stores))) =
      apply_duplex_offer-Opened host offer ingress now generated h in
    copy_after host' offer now later ingress' generated' identity host.duplex current alone
      (kept ∙ stores)
