-- ===== src/Duplex/Session.antt =====
-- The state of one duplex line, the map of the lines, and the questions that the daemon asks of it
-- (src/l0/client.rs). A channel and a cancellation flag are numbers that name them; the flags that
-- were raised are a list.
pub mod Live
pub mod Expiry
use co_net_l0d.Base.{
  ℕ, ◌+◌, ◌-◌, ◌^◌, ◌≡◌, ◌↔◌, Bool, true, false, not, ◌&&◌, ◌||◌, Option, none, some, List, [], ◌∷◌,
  arith, ltb, ◌==◌, if◌then◌else◌, is_some, is_none, is_empty, min, Text, text_eq, text_eq_iff,
  trim, Eq, get,
}
use co_net_l0d.Eoa.{eoa_eq}

pub data DuplexLineRole : Type 0 where
  peer proxy : DuplexLineRole

pub record DuplexSession : Type 0 where
  pub session_id : Text
  pub role : DuplexLineRole
  pub created_at : ℕ
  pub key : Option Text
  pub dest : ℕ
  pub port : ℕ
  pub peer_eoa : Text
  pub peer_attached : Bool
  pub rejected : Bool
  pub host_eoa : Text
  pub peer_listen_user_pgp : Option Text
  pub peer_listen_route_pgp : Option Text
  pub peer_listen_wallet : Option Text
  pub peer_listen_mailbox_wallet : Option Text
  -- the wallet of the temporary identity
  pub accept_identity : Option Text
  pub peer_return_attached : Bool
  pub response_chunk_delivered : Bool
  pub pipe_tx : Option ℕ
  pub pipe_gen : ℕ
  pub pipe_connect_inflight : Bool
  pub pipe_cancel : Option ℕ

pub record DuplexKey : Type 0 where
  pub dest : ℕ
  pub port : ℕ
  pub session_id : Text

abbrev key_beq : DuplexKey → DuplexKey → Bool
key_beq a b = a.dest == b.dest && (a.port == b.port && text_eq a.session_id b.session_id)

pub key_beq_iff : (a b : DuplexKey) → (key_beq a b ≡ true) ↔ (a ≡ b)
key_beq_iff a b = ground (arith, text_eq_iff a.session_id b.session_id)

instance abbrev pub duplex_key_eq : Eq DuplexKey
duplex_key_eq = record { beq = key_beq; beq_iff = key_beq_iff }

abbrev pub Sessions : Type 0
Sessions = List (DuplexKey × DuplexSession)

abbrev pub duplex_key : ℕ → ℕ → Text → DuplexKey
duplex_key dest port session_id = record { dest = dest; port = port; session_id = session_id }

abbrev pub duplex_key_of : DuplexSession → DuplexKey
duplex_key_of sess = duplex_key sess.dest sess.port sess.session_id

-- `Ipv4Addr::UNSPECIFIED`
abbrev pub unspecified : ℕ
unspecified = 0

-- `s.trim().is_empty()`
abbrev pub is_blank : Text → Bool
is_blank s = is_empty (trim s)

-- The wallet whose listen stream the line owns.
abbrev pub owns_listen : DuplexSession → Text → Bool
owns_listen sess routing_eoa = elim sess.accept_identity [
  | none ↦ eoa_eq sess.host_eoa routing_eoa
  | some wallet ↦ eoa_eq wallet routing_eoa
]

abbrev has_listen_wallet : DuplexSession → Bool
has_listen_wallet sess = elim sess.peer_listen_wallet [ none ↦ false | some w ↦ not (is_blank w) ]

unfoldable pub should_rebuild_l0_pipe_after_listen_up : DuplexSession → Text → Bool
should_rebuild_l0_pipe_after_listen_up sess routing_eoa =
    if sess.dest == unspecified && is_some sess.accept_identity
    then false
    else if is_some sess.accept_identity && not (sess.dest == unspecified) && sess.pipe_gen == 0
    then false
    else owns_listen sess routing_eoa
      && sess.peer_attached
      && not sess.rejected
      && is_some sess.key
      && is_none sess.pipe_tx
      && not sess.pipe_connect_inflight
      && has_listen_wallet sess

unfoldable pub duplex_initiator_should_stop_offer : DuplexSession → Bool
duplex_initiator_should_stop_offer sess = sess.rejected || sess.peer_attached

unfoldable pub duplex_acceptor_should_stop_accept : DuplexSession → Bool
duplex_acceptor_should_stop_accept sess =
    sess.rejected || sess.peer_return_attached || is_some sess.pipe_tx

pub data PipeHeartbeat : Type 0 where
  beat : Text → PipeHeartbeat
  skip stop : PipeHeartbeat

unfoldable pub heartbeat_of : Option DuplexSession → PipeHeartbeat
heartbeat_of none = stop
heartbeat_of (some session) =
    if session.rejected then stop else elim session.key [ none ↦ skip | some key ↦ beat key ]

unfoldable pub duplex_pipe_heartbeat : Sessions → ℕ → ℕ → Text → PipeHeartbeat
unfolding heartbeat_of
duplex_pipe_heartbeat duplex dest port session_id =
    heartbeat_of (get (duplex_key dest port session_id) duplex)

abbrev pub is_ready : DuplexSession → Bool
is_ready s = is_some s.pipe_tx && is_some s.key && not s.rejected

-- `next` replaces the best line so far.
unfoldable pub is_better : DuplexSession → DuplexSession → Bool
is_better cur next =
    (is_ready next && not (is_ready cur))
    || (not cur.rejected && not next.rejected && is_none cur.key && is_some next.key)

abbrev better_of : Option DuplexSession → DuplexSession → DuplexSession
better_of none next = next
better_of (some cur) next = if is_better cur next then next else cur

unfoldable pub live_session_from : Option DuplexSession → ℕ → ℕ → Sessions → Option DuplexSession
unfolding is_better
live_session_from best dest port [] = best
live_session_from best dest port ((k, sess) ∷ rest) =
    live_session_from
      (if sess.dest == dest && sess.port == port then some (better_of best sess) else best) dest
      port rest

unfoldable pub duplex_live_session : Sessions → ℕ → ℕ → Option DuplexSession
unfolding live_session_from
duplex_live_session duplex dest port = live_session_from none dest port duplex

-- `u64` arithmetic that saturates, on seconds.
abbrev pub u64_max : ℕ
u64_max = 2 ^ 64 - 1

abbrev pub saturating_add : ℕ → ℕ → ℕ
saturating_add a b = min (a + b) u64_max

abbrev pub duplex_offer_clock_skew_secs : ℕ
duplex_offer_clock_skew_secs = 10

abbrev pub duplex_offer_max_age_secs : ℕ
duplex_offer_max_age_secs = 90

unfoldable pub duplex_offer_is_expired : ℕ → ℕ → Bool
duplex_offer_is_expired offer_timestamp now =
    if ltb (saturating_add now duplex_offer_clock_skew_secs) offer_timestamp
    then true
    else ltb (saturating_add duplex_offer_max_age_secs duplex_offer_clock_skew_secs)
        (now - offer_timestamp)

abbrev pub key_is : Option Text → Text → Bool
key_is none key = false
key_is (some own) key = text_eq own key

unfoldable pub duplex_duplicate_offer_should_ignore : DuplexSession → Bool → Text → Bool
duplex_duplicate_offer_should_ignore sess had_key offered_key =
    had_key && not sess.rejected && key_is sess.key offered_key
