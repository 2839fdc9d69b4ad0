-- ===== src/Duplex/Offer/Keyed.antt =====
-- An offer keeps every line under its own key.
use co_net_l0d.Base.{
  ℕ, ◌≡◌, refl, sym, ap, ◌∙◌, subst, inl, inr, Bool, true, false, not, ◌&&◌, Option, none, some,
  List, [], ◌∷◌, arith, if◌then◌else◌, is_some, Bool-cases, Text, get, insert, remove, nat_eq,
}
use co_net_l0d.Duplex.Session.{
  DuplexSession, DuplexKey, Sessions, duplex_key_of, duplex_key_eq, duplex_offer_is_expired,
  duplex_duplicate_offer_should_ignore,
}
use co_net_l0d.Duplex.Lines.{DuplexOffer, has_id}
use co_net_l0d.Duplex.Lines.Keyed.{IsKeyed}
use co_net_l0d.Duplex.Wire.{ChannelWire, Host, OfferAction}
use co_net_l0d.Duplex.Offer.Match.{
  Matched, unmatched, duplicate, updated, match_offer, match_line, offer_line, first_match, matches,
  pending_peer_matches, put_back, adopt, keyed_by, is_rekeyed,
}
use co_net_l0d.Duplex.Offer.Allocate.{allocate, allocate_on, open_line, may_allocate, new_line}
use co_net_l0d.Duplex.Offer.{apply_duplex_offer, after_loop}

insert-IsKeyed :
    (k : DuplexKey) (s : DuplexSession) (m : Sessions)
    → k ≡ duplex_key_of s
    → IsKeyed m
    → IsKeyed (insert k s m)
unfolding insert
insert-IsKeyed k s [] e h = (e, tt)
insert-IsKeyed k s ((j, t) ∷ m) e (here, h) = elim (Bool-cases (duplex_key_eq.beq j k)) [
  | inl same ↦ rw same (e, h)
  | inr other ↦ rw other (here, insert-IsKeyed k s m e h)
]

remove-IsKeyed : (k : DuplexKey) (m : Sessions) → IsKeyed m → IsKeyed (remove k m)
unfolding remove
remove-IsKeyed k [] h = tt
remove-IsKeyed k ((j, t) ∷ m) (here, h) = elim (Bool-cases (duplex_key_eq.beq j k)) [
  | inl same ↦ rw same (remove-IsKeyed k m h)
  | inr other ↦ rw other (here, remove-IsKeyed k m h)
]

put_back-IsKeyed :
    (k : DuplexKey) (moved : Bool) (s : DuplexSession) (m : Sessions)
    → (moved ≡ false → k ≡ duplex_key_of s)
    → IsKeyed m
    → IsKeyed (put_back k moved s m)
unfolding put_back
put_back-IsKeyed k true s m e h =
    insert-IsKeyed (duplex_key_of s) s (remove k m) refl (remove-IsKeyed k m h)
put_back-IsKeyed k false s m e h = insert-IsKeyed k s m (e refl) h

-- Neither adoption without a new id nor the key of the offer moves a line.
adopt-place :
    (offer : DuplexOffer) (now : ℕ) (s : DuplexSession)
    → (pending_peer_matches offer now s && not (has_id offer.session_id s)) ≡ false
    → duplex_key_of (adopt offer now s) ≡ duplex_key_of s
adopt-place offer now s h = rw h

keyed_by-place :
    (offer : DuplexOffer) (s : DuplexSession) → duplex_key_of (keyed_by offer s) ≡ duplex_key_of s
unfolding keyed_by
keyed_by-place offer s = elim (Bool-cases (is_rekeyed offer s)) [
  | inl e ↦ elim (Bool-cases (is_some s.key)) [ inl g ↦ rw (e, g) | inr g ↦ rw (e, g) ]
  | inr e ↦ elim (Bool-cases (is_some s.key)) [ inl g ↦ rw (e, g) | inr g ↦ rw (e, g) ]
]

-- The lines that are left by a match.
abbrev lines_of : Sessions → Matched → Sessions
lines_of m unmatched = m
lines_of m (duplicate sessions) = sessions
lines_of m (updated sessions raised action) = sessions

if-lines_of :
    (m a b : Sessions) (r : List ℕ) (action : OfferAction) (t : Bool)
    → IsKeyed a
    → IsKeyed b
    → IsKeyed (lines_of m (if t then duplicate a else updated b r action))
if-lines_of m a b r action true h g = h
if-lines_of m a b r action false h g = g

offer_line-IsKeyed :
    (wires : List (ℕ × ChannelWire)) (offer : DuplexOffer) (now : ℕ) (k : DuplexKey)
    (s : DuplexSession) (m : Sessions) (raised : List ℕ)
    → k ≡ duplex_key_of s
    → IsKeyed m
    → IsKeyed (lines_of m (offer_line wires offer now k s m raised))
unfolding offer_line
offer_line-IsKeyed wires offer now k s m raised e h =
    let line = adopt offer now s in
    if-lines_of m _ _ _ _ (duplex_duplicate_offer_should_ignore line (is_some line.key) offer.key)
      (put_back-IsKeyed k _ line m (λ still. e ∙ sym (adopt-place offer now s still)) h)
      (put_back-IsKeyed k _ (keyed_by offer line) m
        (λ still. e ∙ sym (adopt-place offer now s still) ∙ sym (keyed_by-place offer line)) h)

first_match-place :
    (offer : DuplexOffer) (now : ℕ) (m : Sessions) (k : DuplexKey) (s : DuplexSession)
    → IsKeyed m
    → first_match offer now m ≡ some (k, s)
    → k ≡ duplex_key_of s
unfolding first_match
first_match-place offer now [] k s h e = absurd (ground arith)
first_match-place offer now ((j, t) ∷ m) k s (here, h) e = elim (Bool-cases (matches offer now t)) [
  | inl found ↦
      let same =
        ap (or_pair (j, t)) (
          subst (λ b. (if b then some (j, t) else first_match offer now m) ≡ some (k, s)) found
            e) in
      sym (ap (λ p. p.0) same) ∙ here ∙ ap (λ p. duplex_key_of p.1) same
  | inr passed ↦
      first_match-place offer now m k s h
        (subst (λ b. (if b then some (j, t) else first_match offer now m) ≡ some (k, s)) passed e)
]
  where
    or_pair :
        DuplexKey × DuplexSession → Option (DuplexKey × DuplexSession) → DuplexKey × DuplexSession
    or_pair p none = p
    or_pair p (some q) = q

match_line-IsKeyed :
    (wires : List (ℕ × ChannelWire)) (offer : DuplexOffer) (now : ℕ) (m : Sessions)
    (raised : List ℕ) (o : Option (DuplexKey × DuplexSession))
    → first_match offer now m ≡ o
    → IsKeyed m
    → IsKeyed (lines_of m (match_line wires offer now m raised o))
unfolding match_line
match_line-IsKeyed wires offer now m raised none e h = h
match_line-IsKeyed wires offer now m raised (some (k, s)) e h =
    offer_line-IsKeyed wires offer now k s m raised (first_match-place offer now m k s h e) h

open_line-IsKeyed :
    (host : Host) (offer : DuplexOffer) (now : ℕ) (wire : ChannelWire)
    (o : Option (Text × Bool) × List (ℕ × List Text))
    → IsKeyed host.duplex
    → IsKeyed (open_line host offer now wire o).0.duplex
unfolding open_line
open_line-IsKeyed host offer now wire (none, pools) h = h
open_line-IsKeyed host offer now wire (some (identity, ready), pools) h =
    insert-IsKeyed _ (new_line offer now identity) host.duplex refl h

allocate_on-IsKeyed :
    (host : Host) (offer : DuplexOffer) (ingress : Option Text) (now : ℕ) (generated : Option Text)
    (o : Option ChannelWire)
    → IsKeyed host.duplex
    → IsKeyed (allocate_on host offer ingress now generated o).0.duplex
unfolding allocate_on
allocate_on-IsKeyed host offer ingress now generated none h = h
allocate_on-IsKeyed host offer ingress now generated (some wire) h =
    elim (Bool-cases (may_allocate host offer ingress wire)) [
      | inl may ↦ rw may (open_line-IsKeyed host offer now wire _ h)
      | inr may_not ↦ rw may_not h
    ]

after_loop-IsKeyed :
    (host : Host) (offer : DuplexOffer) (ingress : Option Text) (now : ℕ) (generated : Option Text)
    (x : Matched)
    → IsKeyed host.duplex
    → IsKeyed (lines_of host.duplex x)
    → IsKeyed (after_loop host offer ingress now generated x).0.duplex
unfolding after_loop allocate
after_loop-IsKeyed host offer ingress now generated unmatched h g =
    allocate_on-IsKeyed host offer ingress now generated (get offer.port host.channel_wire) h
after_loop-IsKeyed host offer ingress now generated (duplicate sessions) h g = g
after_loop-IsKeyed host offer ingress now generated (updated sessions raised action) h g = g

-- Where every line stands under the key of its address, port and session id, this is so after any offer,
-- also where a line took the session id of the offer.
pub apply_duplex_offer-IsKeyed :
    (host : Host) (offer : DuplexOffer) (ingress : Option Text) (now : ℕ) (generated : Option Text)
    → IsKeyed host.duplex
    → IsKeyed (apply_duplex_offer host offer ingress now generated).0.duplex
unfolding apply_duplex_offer match_offer
apply_duplex_offer-IsKeyed host offer ingress now generated h =
    elim (Bool-cases (duplex_offer_is_expired offer.timestamp now)) [
      | inl late ↦ rw late h
      | inr fresh ↦ rw fresh (
          after_loop-IsKeyed host offer ingress now generated
            (match_offer host.channel_wire offer now host.duplex host.raised) h
            (match_line-IsKeyed host.channel_wire offer now host.duplex host.raised
              (first_match offer now host.duplex) refl h))
    ]
