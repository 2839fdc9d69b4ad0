-- ===== src/Duplex/Offer/Authority.antt =====
-- When an offer opens a new proxy line.
use co_net_l0d.Base.{
  ℕ, ◌≡◌, ◌≢◌, refl, sym, ap, ◌∙◌, subst, Bool, true, false, Option, none, some, List, arith,
  if◌then◌else◌, is_some, is_empty, Text, eq_ignore_case, get, insert, nat_eq,
}
use co_net_l0d.Eoa.{eoa_eq}
use co_net_l0d.Duplex.Session.{
  DuplexSession, DuplexKey, Sessions, duplex_key_of, duplex_key_eq, duplex_offer_is_expired,
  duplex_duplicate_offer_should_ignore,
}
use co_net_l0d.Duplex.Lines.{DuplexOffer}
use co_net_l0d.Duplex.Wire.{
  ChannelWire, Host, OfferAction, nothing, send_accept, handshake, send_reject,
}
use co_net_l0d.Duplex.Offer.Match.{
  Matched, unmatched, duplicate, updated, match_offer, match_line, offer_line, accept_on,
  first_match, adopt, keyed_by,
}
use co_net_l0d.Duplex.Offer.Allocate.{
  allocate, allocate_on, open_line, may_allocate, arrived_on, is_duplex, new_line, shake,
}
use co_net_l0d.Duplex.Offer.{apply_duplex_offer, after_loop, finish, reject_on}

abbrev pub is_handshake : OfferAction → Bool
is_handshake nothing = false
is_handshake (send_accept w t r s u) = false
is_handshake (handshake w t r s u c l) = true
is_handshake (send_reject w t r k i) = false

finish-quiet :
    (host : Host) (offer : DuplexOffer) (action : OfferAction)
    → is_handshake action ≡ false
    → is_handshake (finish host offer action) ≡ false
unfolding finish reject_on
finish-quiet host offer nothing h = ground arith
finish-quiet host offer (send_accept w t r s u) h = refl
finish-quiet host offer (handshake w t r s u c l) h = ground arith
finish-quiet host offer (send_reject w t r k i) h = refl

abbrev Quiet : Matched → Type 0
Quiet unmatched = Unit {0}
Quiet (duplicate sessions) = Unit {0}
Quiet (updated sessions raised action) = is_handshake action ≡ false

accept_on-quiet :
    (offer : DuplexOffer) (sess : DuplexSession) (o : Option ChannelWire)
    → is_handshake (accept_on offer sess o) ≡ false
unfolding accept_on
accept_on-quiet offer sess none = refl
accept_on-quiet offer sess (some wire) = ground arith

if-Quiet :
    (s s' : Sessions) (r : List ℕ) (a : OfferAction) (b c : Bool)
    → is_handshake a ≡ false
    → Quiet (if b then duplicate s else updated s' r (if c then nothing else a))
if-Quiet s s' r a true c h = tt
if-Quiet s s' r a false true h = refl
if-Quiet s s' r a false false h = h

offer_line-Quiet :
    (wires : List (ℕ × ChannelWire)) (offer : DuplexOffer) (now : ℕ) (k : DuplexKey)
    (sess : DuplexSession) (m : Sessions) (raised : List ℕ)
    → Quiet (offer_line wires offer now k sess m raised)
unfolding offer_line
offer_line-Quiet wires offer now k sess m raised =
    let line = adopt offer now sess in
    if-Quiet _ _ _ _ (duplex_duplicate_offer_should_ignore line (is_some line.key) offer.key)
      (is_some line.key) (accept_on-quiet offer (keyed_by offer line) (get line.port wires))

match_line-Quiet :
    (wires : List (ℕ × ChannelWire)) (offer : DuplexOffer) (now : ℕ) (m : Sessions)
    (raised : List ℕ) (o : Option (DuplexKey × DuplexSession))
    → Quiet (match_line wires offer now m raised o)
unfolding match_line
match_line-Quiet wires offer now m raised none = tt
match_line-Quiet wires offer now m raised (some (k, sess)) =
    offer_line-Quiet wires offer now k sess m raised

after_loop-matched :
    (host : Host) (offer : DuplexOffer) (ingress : Option Text) (now : ℕ) (generated : Option Text)
    (x : Matched)
    → Quiet x
    → is_handshake (after_loop host offer ingress now generated x).1 ≡ true
    → x ≡ unmatched
unfolding after_loop
after_loop-matched host offer ingress now generated unmatched q h = refl
after_loop-matched host offer ingress now generated (duplicate sessions) q h = ground arith
after_loop-matched host offer ingress now generated (updated sessions raised action) q h =
    let quiet = finish-quiet host offer action q in ground arith

if-matched :
    (s s' : Sessions) (r : List ℕ) (a : OfferAction) (b : Bool)
    → (if b then duplicate s else updated s' r a) ≢ unmatched
if-matched s s' r a true = ground arith
if-matched s s' r a false = ground arith

match_line-unmatched :
    (wires : List (ℕ × ChannelWire)) (offer : DuplexOffer) (now : ℕ) (m : Sessions)
    (raised : List ℕ) (o : Option (DuplexKey × DuplexSession))
    → match_line wires offer now m raised o ≡ unmatched
    → o ≡ none
unfolding match_line offer_line
match_line-unmatched wires offer now m raised none h = refl
match_line-unmatched wires offer now m raised (some (k, sess)) h = absurd (
    if-matched _ _ _ _
      (duplex_duplicate_offer_should_ignore (adopt offer now sess)
        (is_some (adopt offer now sess).key) offer.key)
      h)

-- The wire that an offer came in by lets it open a line.
abbrev pub Authorised : Host → DuplexOffer → Option Text → ChannelWire → Type 0
Authorised host offer ingress wire =
    (get offer.port host.channel_wire ≡ some wire)
    × (arrived_on wire ingress ≡ true)
    × (eq_ignore_case wire.main_wallet offer.main_wallet ≡ true)
    × (eoa_eq offer.sender offer.listen_wallet ≡ true)
    × (eoa_eq offer.peer_wallet offer.main_wallet ≡ true)
    × (is_empty offer.first_chunk ≡ false)
    × (is_duplex (host.proxy_mode offer.port) ≡ true)

-- The line that an allocation opens, where it starts a handshake.
abbrev pub Opens : Host → DuplexOffer → ℕ → Host → OfferAction → ChannelWire → Type 0
Opens host offer now host' action wire =
    (identity : Text) × (listen_ready : Bool) × (action
      ≡ shake wire offer now identity listen_ready)
    × (host'.duplex
        ≡ insert (duplex_key_of (new_line offer now identity)) (new_line offer now identity)
            host.duplex)

may_allocate-Authorised :
    (host : Host) (offer : DuplexOffer) (ingress : Option Text) (wire : ChannelWire)
    → get offer.port host.channel_wire ≡ some wire
    → may_allocate host offer ingress wire ≡ true
    → Authorised host offer ingress wire
unfolding may_allocate
may_allocate-Authorised host offer ingress wire e g =
    (e, ground arith, ground arith, ground arith, ground arith, ground arith, ground arith)

open_line-Opens :
    (host : Host) (offer : DuplexOffer) (now : ℕ) (wire : ChannelWire)
    (o : Option (Text × Bool) × List (ℕ × List Text))
    → is_handshake (open_line host offer now wire o).1 ≡ true
    → Opens host offer now
        (open_line host offer now wire o).0
        (open_line host offer now wire o).1
        wire
unfolding open_line
open_line-Opens host offer now wire (none, pools) h = absurd (ground arith)
open_line-Opens host offer now wire (some (identity, ready), pools) h =
    (identity, ready, refl, refl)

-- The result of an offer on `host` opens a line.
abbrev pub Opened : Host → DuplexOffer → Option Text → ℕ → Host × OfferAction → Type 0
Opened host offer ingress now r =
    (wire : ChannelWire) × Authorised host offer ingress wire × Opens host offer now r.0 r.1 wire

if-Opened :
    (host : Host) (offer : DuplexOffer) (ingress : Option Text) (now : ℕ) (b : Bool)
    (x : Host × OfferAction)
    → (b ≡ true → is_handshake x.1 ≡ true → Opened host offer ingress now x)
    → is_handshake (if b then x else (host, nothing)).1 ≡ true
    → Opened host offer ingress now (if b then x else (host, nothing))
if-Opened host offer ingress now true x f h = f refl h
if-Opened host offer ingress now false x f h = absurd (ground arith)

allocate_on-Opened :
    (host : Host) (offer : DuplexOffer) (ingress : Option Text) (now : ℕ) (generated : Option Text)
    (o : Option ChannelWire)
    → get offer.port host.channel_wire ≡ o
    → is_handshake (allocate_on host offer ingress now generated o).1 ≡ true
    → Opened host offer ingress now (allocate_on host offer ingress now generated o)
unfolding allocate_on
allocate_on-Opened host offer ingress now generated none e h = absurd (ground arith)
allocate_on-Opened host offer ingress now generated (some wire) e h =
    if-Opened host offer ingress now (may_allocate host offer ingress wire) _
      (λ g quiet. (
        wire,
        may_allocate-Authorised host offer ingress wire e g,
        open_line-Opens host offer now wire _ quiet,
      ))
      h

is_handshake-finish :
    (host : Host) (offer : DuplexOffer) (action : OfferAction)
    → is_handshake (finish host offer action) ≡ true
    → (is_handshake action ≡ true) × (finish host offer action ≡ action)
unfolding finish reject_on
is_handshake-finish host offer nothing h =
    let quiet = finish-quiet host offer nothing refl in absurd (ground arith)
is_handshake-finish host offer (send_accept w t r s u) h = (h, refl)
is_handshake-finish host offer (handshake w t r s u c l) h = (h, refl)
is_handshake-finish host offer (send_reject w t r k i) h = (h, refl)

after_loop-Opened :
    (host : Host) (offer : DuplexOffer) (ingress : Option Text) (now : ℕ) (generated : Option Text)
    → is_handshake (after_loop host offer ingress now generated unmatched).1 ≡ true
    → Opened host offer ingress now (after_loop host offer ingress now generated unmatched)
unfolding after_loop allocate
after_loop-Opened host offer ingress now generated h =
    let r = allocate host offer ingress now generated in
    let (quiet, same) = is_handshake-finish r.0 offer r.1 h in
    let (wire, authorised, opens) =
      allocate_on-Opened host offer ingress now generated (get offer.port host.channel_wire) refl
        quiet in
    (wire, authorised, subst (λ a. Opens host offer now r.0 a wire) (sym same) opens)

pub apply_duplex_offer-current :
    (host : Host) (offer : DuplexOffer) (ingress : Option Text) (now : ℕ) (generated : Option Text)
    → duplex_offer_is_expired offer.timestamp now ≡ false
    → apply_duplex_offer host offer ingress now generated
      ≡ after_loop host offer ingress now generated
          (match_offer host.channel_wire offer now host.duplex host.raised)
unfolding apply_duplex_offer
apply_duplex_offer-current host offer ingress now generated e = rw e

is_handshake-current :
    (host : Host) (offer : DuplexOffer) (ingress : Option Text) (now : ℕ) (generated : Option Text)
    → is_handshake (apply_duplex_offer host offer ingress now generated).1 ≡ true
    → duplex_offer_is_expired offer.timestamp now ≡ false
unfolding apply_duplex_offer
is_handshake-current host offer ingress now generated h = ground arith

-- An offer starts the handshake of a new proxy line only where it is not expired, no line answers to
-- it, it was decrypted by the wallet of the port that it names, it addresses the main wallet of that
-- port, its sender is the wallet that listens for the answer, it brings a first chunk, and the port
-- is a duplex proxy; and then the line of its session id is stored.
pub apply_duplex_offer-Opened :
    (host : Host) (offer : DuplexOffer) (ingress : Option Text) (now : ℕ) (generated : Option Text)
    → is_handshake (apply_duplex_offer host offer ingress now generated).1 ≡ true
    → (duplex_offer_is_expired offer.timestamp now ≡ false)
      × (first_match offer now host.duplex ≡ none)
      × Opened host offer ingress now (apply_duplex_offer host offer ingress now generated)
unfolding match_offer
apply_duplex_offer-Opened host offer ingress now generated h =
    let e = is_handshake-current host offer ingress now generated h in
    let m = match_offer host.channel_wire offer now host.duplex host.raised in
    let current = apply_duplex_offer-current host offer ingress now generated e in
    let shakes = subst (λ r. is_handshake r.1 ≡ true) current h in
    let alone =
      after_loop-matched host offer ingress now generated m
        (match_line-Quiet host.channel_wire offer now host.duplex host.raised
          (first_match offer now host.duplex))
        shakes in
    let same = current ∙ ap (after_loop host offer ingress now generated) alone in
    (
      e,
      match_line-unmatched host.channel_wire offer now host.duplex host.raised _ alone,
      subst (Opened host offer ingress now) (sym same) (
          after_loop-Opened host offer ingress now generated
            (subst (λ r. is_handshake r.1 ≡ true) same h)),
    )
