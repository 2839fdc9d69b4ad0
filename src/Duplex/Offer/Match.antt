-- ===== src/Duplex/Offer/Match.antt =====
-- The loop of `apply_duplex_offer` over the lines.
use co_net_l0d.Base.{
  ℕ, Bool, true, false, not, ◌&&◌, ◌||◌, Option, none, some, List, [], ◌∷◌, leb, ◌==◌,
  if◌then◌else◌, is_some, is_none, eq_ignore_case, get, insert, remove, nat_eq,
}
use co_net_l0d.Duplex.Session.{
  DuplexSession, DuplexKey, Sessions, duplex_key_of, duplex_key_eq, is_blank, saturating_add,
  duplex_offer_clock_skew_secs, key_is, duplex_duplicate_offer_should_ignore,
}
use co_net_l0d.Duplex.Lines.{DuplexOffer, raise, has_id}
use co_net_l0d.Duplex.Accept.{keep_unless_blank}
use co_net_l0d.Duplex.Wire.{ChannelWire, OfferAction, nothing, send_accept}

unfoldable pub offer_is_current : DuplexOffer → ℕ → DuplexSession → Bool
offer_is_current offer now sess =
    leb sess.created_at (saturating_add offer.timestamp duplex_offer_clock_skew_secs)
    && leb offer.timestamp (saturating_add now duplex_offer_clock_skew_secs)

unfoldable pub pending_peer_matches : DuplexOffer → ℕ → DuplexSession → Bool
pending_peer_matches offer now sess =
    is_none sess.key
    && offer_is_current offer now sess
    && eq_ignore_case sess.peer_eoa offer.sender
    && eq_ignore_case sess.host_eoa offer.main_wallet
    && sess.port == offer.port

abbrev pub matches : DuplexOffer → ℕ → DuplexSession → Bool
matches offer now sess = has_id offer.session_id sess || pending_peer_matches offer now sess

-- A pending line takes the session id of the offer.
abbrev pub adopt : DuplexOffer → ℕ → DuplexSession → DuplexSession
adopt offer now sess =
    if pending_peer_matches offer now sess && not (has_id offer.session_id sess)
    then record sess { session_id = offer.session_id }
    else sess

-- The old pipe of a line that gets another key is given up.
abbrev pub give_up_pipe : DuplexSession → DuplexSession
give_up_pipe sess = record sess {
  pipe_cancel = none;
  pipe_tx = none;
  pipe_connect_inflight = false;
}

abbrev pub is_rekeyed : DuplexOffer → DuplexSession → Bool
is_rekeyed offer sess = is_some sess.key && not (key_is sess.key offer.key)

abbrev pub store_offer : DuplexOffer → DuplexSession → DuplexSession
store_offer offer sess = record sess {
  key = some offer.key;
  peer_listen_wallet = some offer.listen_wallet;
  peer_listen_user_pgp = keep_unless_blank offer.listen_user_pgp sess.peer_listen_user_pgp;
  peer_listen_route_pgp = keep_unless_blank offer.listen_route_pgp sess.peer_listen_route_pgp;
  peer_listen_mailbox_wallet =
      keep_unless_blank offer.listen_mailbox_wallet sess.peer_listen_mailbox_wallet;
}

-- What becomes of a line that matches and is no duplicate.
unfoldable pub keyed_by : DuplexOffer → DuplexSession → DuplexSession
keyed_by offer sess =
    let stored = store_offer offer (if is_rekeyed offer sess then give_up_pipe sess else sess) in
    if is_some sess.key then stored else record stored { peer_attached = true; rejected = false }

unfoldable pub accept_on : DuplexOffer → DuplexSession → Option ChannelWire → OfferAction
accept_on offer sess none = nothing
accept_on offer sess (some wire) =
    if not (is_blank offer.listen_route_pgp)
    then send_accept wire offer.listen_wallet offer.listen_route_pgp sess offer.listen_user_pgp
    else nothing

-- What the loop finds: no line, a line that the offer repeats, or a line that it changed.
pub data Matched : Type 0 where
  unmatched : Matched
  duplicate : Sessions → Matched
  updated : Sessions → List ℕ → OfferAction → Matched

-- The line under key `k` became `sess`; if it took another id it moves to the key of that id.
unfoldable pub put_back : DuplexKey → Bool → DuplexSession → Sessions → Sessions
put_back k moved sess duplex =
    if moved then insert (duplex_key_of sess) sess (remove k duplex) else insert k sess duplex

-- The body of the loop, at the first line that matches.
unfoldable pub offer_line :
    List (ℕ × ChannelWire)
    → DuplexOffer
    → ℕ
    → DuplexKey
    → DuplexSession
    → Sessions
    → List ℕ
    → Matched
unfolding accept_on
offer_line wires offer now k old duplex raised =
    let sess = adopt offer now old in
    let moved = pending_peer_matches offer now old && not (has_id offer.session_id old) in
    let next = keyed_by offer sess in
    if duplex_duplicate_offer_should_ignore sess (is_some sess.key) offer.key
    then duplicate (put_back k moved sess duplex)
    else updated (put_back k moved next duplex)
        (if is_rekeyed offer sess then raise sess.pipe_cancel raised else raised)
        (if is_some sess.key then nothing else accept_on offer next (get sess.port wires))

-- The first line that matches, in the order of the walk.
unfoldable pub first_match : DuplexOffer → ℕ → Sessions → Option (DuplexKey × DuplexSession)
first_match offer now [] = none
first_match offer now ((k, sess) ∷ rest) =
    if matches offer now sess then some (k, sess) else first_match offer now rest

unfoldable pub match_line :
    List (ℕ × ChannelWire)
    → DuplexOffer
    → ℕ
    → Sessions
    → List ℕ
    → Option (DuplexKey × DuplexSession)
    → Matched
match_line wires offer now duplex raised none = unmatched
match_line wires offer now duplex raised (some (k, sess)) =
    offer_line wires offer now k sess duplex raised

unfoldable pub match_offer : List (ℕ × ChannelWire) → DuplexOffer → ℕ → Sessions → List ℕ → Matched
unfolding match_line
match_offer wires offer now duplex raised =
    match_line wires offer now duplex raised (first_match offer now duplex)
