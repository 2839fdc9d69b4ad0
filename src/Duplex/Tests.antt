-- ===== src/Duplex/Tests.antt =====
-- Tests and instances for the duplex lines.
use co_net_l0d.Base.{
  modify, ℕ, ◌+◌, ◌≤◌, ◌<◌, ◌≡◌, refl, Bool, true, false, Option, none, some, List, [], ◌∷◌, arith,
  length, All, Text, codes, get, nat_eq, Bytes,
}
use co_net_l0d.Duplex.Session.{
  DuplexSession, DuplexKey, Sessions, peer, duplex_key, duplex_key_eq, duplex_offer_is_expired,
}
use co_net_l0d.Duplex.Session.{duplex_live_session}
use co_net_l0d.Duplex.Session.Live.{IsReady, duplex_live_session-IsReady}
use co_net_l0d.Duplex.Session.Expiry.{duplex_offer_is_expired_iff}
use co_net_l0d.Base.{◌↔◌}
use co_net_l0d.Duplex.Lines.{DuplexAccept, DuplexOffer, Queues}
use co_net_l0d.Duplex.Lines.Keyed.{Pointwise}
use co_net_l0d.Duplex.Accept.{apply_duplex_accept}
use co_net_l0d.Duplex.Accept.Once.{Arrival, accept_all, accept_all-once}
use co_net_l0d.Duplex.Accept.Effects.{AcceptEffect, apply_duplex_accept-effect}
use co_net_l0d.Duplex.Wire.{ProxyMode, duplex, Host, nothing}
use co_net_l0d.Duplex.Offer.{apply_duplex_offer}
use co_net_l0d.Duplex.Lines.Keyed.{IsKeyed}
use co_net_l0d.Duplex.Offer.Match.{first_match}
use co_net_l0d.Duplex.Offer.Authority.{is_handshake, Opened, apply_duplex_offer-Opened}
use co_net_l0d.Duplex.Offer.Replay.{apply_duplex_offer-again}
use co_net_l0d.Duplex.Session.{duplex_pipe_heartbeat, stop}
use co_net_l0d.Duplex.Reach.{Reach, Reach-IsKeyed}
use co_net_l0d.Duplex.Pipe.{l0_pipe_up, l0_pipe_failed}
use co_net_l0d.Duplex.Pipe.{
  tracked, refused, admit_l0_pipe, begin_l0_pipe, l0_pipe_up, l0_pipe_closed_should_retry,
  drop_inflight_guard,
}
use co_net_l0d.Duplex.Pipe.Generations.{set_inflight, begin_l0_pipe-stale, admit_l0_pipe-once}

abbrev main : Text
main = codes "0x1111111111111111111111111111111111111111"

abbrev friend : Text
friend = codes "0x2222222222222222222222222222222222222222"

abbrev listener : Text
listener = codes "0x3333333333333333333333333333333333333333"

abbrev port_wallet : Text
port_wallet = codes "0x4444444444444444444444444444444444444444"

-- A line that waits for its accept.
abbrev waiting : DuplexSession
waiting = record {
  session_id = codes "s1";
  role = peer;
  created_at = 1000;
  key = none;
  dest = 5;
  port = 8400;
  peer_eoa = friend;
  peer_attached = false;
  rejected = false;
  host_eoa = main;
  peer_listen_user_pgp = none;
  peer_listen_route_pgp = none;
  peer_listen_wallet = none;
  peer_listen_mailbox_wallet = none;
  accept_identity = none;
  peer_return_attached = false;
  response_chunk_delivered = false;
  pipe_tx = none;
  pipe_gen = 0;
  pipe_connect_inflight = false;
  pipe_cancel = none;
}

abbrev line_key : DuplexKey
line_key = duplex_key 5 8400 (codes "s1")

abbrev lines : Sessions
lines = (line_key, waiting) ∷ []

abbrev accept : DuplexAccept
accept = record {
  session_id = codes "s1";
  listen_wallet = listener;
  listen_user_pgp = codes "user";
  listen_route_pgp = codes "route";
  listen_mailbox_wallet = [];
  billing_wallet = friend;
  timestamp = 1010;
  key = codes "k1";
  response_chunk = 1 ∷ 2 ∷ [];
}

abbrev queues : Queues
queues = record { room = λ q. 4; sent = [] }

abbrev arrival : Arrival
arrival = record { local_streams = (codes "s1", 7) ∷ []; accept = accept; now = 1020 }

delivered : (accept_all (arrival ∷ arrival ∷ []) lines queues).1.sent ≡ (7, 1 ∷ 2 ∷ []) ∷ []
unfolding accept_all apply_duplex_accept co_net_l0d.Duplex.Accept.accept_session
    co_net_l0d.Duplex.Accept.accept_is_valid co_net_l0d.Eoa.eoa_eq co_net_l0d.Eoa.normalize_eoa
    duplex_offer_is_expired get co_net_l0d.Duplex.Lines.try_send
delivered = refl

accept_all-once_example : length ((accept_all (arrival ∷ arrival ∷ []) lines queues).1).sent ≤ 1
accept_all-once_example =
    accept_all-once (codes "s1") (arrival ∷ arrival ∷ []) lines queues (refl, (refl, tt))

apply_duplex_accept-effect_example :
    Pointwise
      (AcceptEffect ((codes "s1", 7) ∷ []) accept 1020)
      lines
      (apply_duplex_accept ((codes "s1", 7) ∷ []) accept 1020 lines queues).0
apply_duplex_accept-effect_example =
    apply_duplex_accept-effect ((codes "s1", 7) ∷ []) accept 1020 lines queues

-- The offer of a visitor to the duplex proxy of port 4200.
abbrev offer : DuplexOffer
offer = record {
  session_id = codes "s2";
  main_wallet = main;
  peer_wallet = main;
  port = 4200;
  key = codes "k2";
  listen_wallet = listener;
  listen_user_pgp = codes "user";
  listen_route_pgp = codes "route";
  listen_mailbox_wallet = [];
  sender = listener;
  billing_wallet = friend;
  timestamp = 1010;
  first_chunk = 9 ∷ [];
}

abbrev mode_of : ℕ → Option ProxyMode
mode_of port = some duplex

abbrev host : Host
host = record {
  duplex = lines;
  raised = [];
  channel_wire = (4200, record { eoa = port_wallet; main_wallet = main }) ∷ [];
  ready_identities = [];
  proxy_mode = mode_of;
}

opened : is_handshake (apply_duplex_offer host offer (some port_wallet) 1020 (some friend)).1 ≡ true
unfolding apply_duplex_offer duplex_offer_is_expired co_net_l0d.Duplex.Offer.Match.match_offer
    first_match co_net_l0d.Duplex.Offer.Match.pending_peer_matches
    co_net_l0d.Duplex.Offer.Match.offer_is_current co_net_l0d.Duplex.Offer.Allocate.allocate get
    co_net_l0d.Duplex.Offer.Allocate.may_allocate co_net_l0d.Eoa.eoa_eq co_net_l0d.Eoa.normalize_eoa
    co_net_l0d.Base.insert
opened = refl

-- The chat wallet may not open the line.
by_chat : is_handshake (apply_duplex_offer host offer (some main) 1020 (some friend)).1 ≡ false
unfolding apply_duplex_offer duplex_offer_is_expired co_net_l0d.Duplex.Offer.Match.match_offer
    first_match co_net_l0d.Duplex.Offer.Match.pending_peer_matches
    co_net_l0d.Duplex.Offer.Match.offer_is_current co_net_l0d.Duplex.Offer.Allocate.allocate get
    co_net_l0d.Duplex.Offer.Allocate.may_allocate co_net_l0d.Eoa.eoa_eq co_net_l0d.Eoa.normalize_eoa
    co_net_l0d.Base.insert
by_chat = refl

apply_duplex_offer-Opened_example :
    (duplex_offer_is_expired 1010 1020 ≡ false)
    × (first_match offer 1020 lines ≡ none)
    × Opened host offer
        (some port_wallet)
        1020
        (apply_duplex_offer host offer (some port_wallet) 1020 (some friend))
apply_duplex_offer-Opened_example =
    apply_duplex_offer-Opened host offer (some port_wallet) 1020 (some friend) opened

apply_duplex_offer-again_example :
    ((apply_duplex_offer
        (apply_duplex_offer host offer (some port_wallet) 1020 (some friend)).0
        offer
        none
        1030
        none).1
      ≡ nothing)
    × ((apply_duplex_offer
          (apply_duplex_offer host offer (some port_wallet) 1020 (some friend)).0
          offer
          none
          1030
          none).0.duplex
        ≡ (apply_duplex_offer host offer (some port_wallet) 1020 (some friend)).0.duplex)
apply_duplex_offer-again_example =
    apply_duplex_offer-again host offer (some port_wallet) 1020 (some friend)
      (apply_duplex_offer host offer (some port_wallet) 1020 (some friend)).0 none 1030 none opened
      refl

-- A line whose pipe may be started.
abbrev attached : DuplexSession
attached = record waiting { peer_attached = true; key = some (codes "k1") }

abbrev attached_lines : Sessions
attached_lines = (line_key, attached) ∷ []

abbrev begun : Sessions
begun = (line_key, record attached { pipe_gen = 1; pipe_cancel = some 3 }) ∷ []

stored : get line_key attached_lines ≡ some attached
unfolding get
stored = refl

began : begin_l0_pipe line_key 3 attached_lines ≡ some (begun, 1)
unfolding begin_l0_pipe get co_net_l0d.Base.modify
began = refl

begin_l0_pipe-stale_example :
    (l0_pipe_up line_key 0 9 begun ≡ begun)
    × (l0_pipe_closed_should_retry line_key 0 begun ≡ (begun, false))
begin_l0_pipe-stale_example =
    begin_l0_pipe-stale line_key 3 1 9 attached_lines begun attached stored (ground arith) began

abbrev in_flight : Sessions
in_flight = (line_key, record attached { pipe_connect_inflight = true }) ∷ []

admitted : admit_l0_pipe false line_key attached_lines ≡ tracked in_flight
unfolding admit_l0_pipe get co_net_l0d.Base.modify
admitted = refl

-- The task ended before it had a pipe, and the line has heard from its peer in between.
abbrev ended : Sessions
ended =
    (line_key, record attached { pipe_connect_inflight = true; peer_return_attached = true }) ∷ []

ended_line :
    get line_key ended
    ≡ some (record attached { pipe_connect_inflight = true; peer_return_attached = true })
unfolding get
ended_line = refl

admit_l0_pipe-once_example :
    (admit_l0_pipe false line_key in_flight ≡ refused)
    × (admit_l0_pipe false line_key ended ≡ refused)
    × (admit_l0_pipe false line_key (drop_inflight_guard line_key ended)
        ≡ tracked (modify line_key (set_inflight true) ended))
admit_l0_pipe-once_example =
    admit_l0_pipe-once line_key attached_lines in_flight ended _ admitted ended_line refl refl

-- A rejected line and one that is ready.
abbrev two_lines : Sessions
two_lines =
    (duplex_key 5 8400 (codes "s0"), record attached { session_id = codes "s0"; rejected = true })
    ∷ (line_key, record attached { pipe_tx = some 4 })
    ∷ []

duplex_live_session-IsReady_example : IsReady 5 8400 (duplex_live_session two_lines 5 8400)
duplex_live_session-IsReady_example = duplex_live_session-IsReady 5 8400 two_lines refl

-- A rejected line that is walked first hides a line that still connects.
hidden :
    duplex_live_session
      ((
        duplex_key 5 8400 (codes "s0"),
        record attached { session_id = codes "s0"; rejected = true },
      )
        ∷ attached_lines)
      5
      8400
    ≡ some (record attached { session_id = codes "s0"; rejected = true })
unfolding duplex_live_session co_net_l0d.Duplex.Session.live_session_from
hidden = refl

duplex_offer_is_expired_iff_example :
    (duplex_offer_is_expired 1010 1110 ≡ false) ↔ ((1010 ≤ 1120) × (1110 ≤ 1110))
duplex_offer_is_expired_iff_example = duplex_offer_is_expired_iff 1010 1110 (ground arith)

-- An offer opens a line, and its pipe comes up.
abbrev after_offer : Host
after_offer = (apply_duplex_offer host offer (some port_wallet) 1020 (some friend)).0

abbrev after_up : Host
after_up = record after_offer { duplex = l0_pipe_up line_key 1 7 after_offer.duplex }

run : Reach host after_up
run =
    co_net_l0d.Duplex.Reach.next
      (co_net_l0d.Duplex.Reach.next co_net_l0d.Duplex.Reach.here
        (co_net_l0d.Duplex.Reach.offer host offer (some port_wallet) 1020 (some friend)))
      (co_net_l0d.Duplex.Reach.up after_offer line_key 1 7)

Reach-IsKeyed_example :
    let left = (l0_pipe_failed line_key after_up.duplex after_up.raised).0 in
    IsKeyed after_up.duplex
    × (duplex_pipe_heartbeat left 5 8400 (codes "s1") ≡ stop)
    × (admit_l0_pipe false line_key left ≡ refused)
    × (begin_l0_pipe line_key 8 left ≡ none)
Reach-IsKeyed_example = Reach-IsKeyed run (refl, tt) line_key 8
