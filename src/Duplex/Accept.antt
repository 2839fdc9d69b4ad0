-- ===== src/Duplex/Accept.antt =====
-- `apply_duplex_accept` of src/l0/client.rs.
pub mod Once
pub mod Effects
use co_net_l0d.Base.{
  ℕ, Bool, true, false, not, ◌&&◌, ◌||◌, Option, none, some, List, [], ◌∷◌, if◌then◌else◌, is_empty,
  Text, text_eq, get, text_key, Bytes,
}
use co_net_l0d.Eoa.{eoa_eq}
use co_net_l0d.Duplex.Session.{DuplexSession, Sessions, is_blank, duplex_offer_is_expired}
use co_net_l0d.Duplex.Lines.{DuplexAccept, Queues, try_send, has_id}

-- `if !raw.trim().is_empty() { field = Some(raw) }`
abbrev pub keep_unless_blank : Text → Option Text → Option Text
keep_unless_blank raw old = if not (is_blank raw) then some raw else old

-- The guards in front of the first change.
unfoldable pub accept_is_valid : DuplexAccept → ℕ → DuplexSession → Bool
accept_is_valid accept now sess =
    eoa_eq accept.billing_wallet sess.peer_eoa
    && not (duplex_offer_is_expired accept.timestamp now)
    && not (
        is_blank accept.listen_user_pgp
        || is_blank accept.listen_route_pgp
        || eoa_eq accept.listen_wallet accept.billing_wallet)

abbrev attach : DuplexAccept → DuplexSession → DuplexSession
attach accept sess = record sess {
  peer_listen_user_pgp = keep_unless_blank accept.listen_user_pgp sess.peer_listen_user_pgp;
  peer_listen_route_pgp = some accept.listen_route_pgp;
  peer_listen_wallet = some accept.listen_wallet;
  peer_listen_mailbox_wallet =
      keep_unless_blank accept.listen_mailbox_wallet sess.peer_listen_mailbox_wallet;
  peer_attached = true;
  rejected = false;
}

deliver_to : DuplexAccept → DuplexSession → Option ℕ → Queues → DuplexSession × Queues
deliver_to accept sess none queues = (sess, queues)
deliver_to accept sess (some tx) queues = elim (try_send tx accept.response_chunk queues) [
  | none ↦ (sess, queues)
  | some queues' ↦ (record sess { response_chunk_delivered = true }, queues')
]

-- The responseChunk goes to the local socket of the line, once.
deliver_response : List (Text × ℕ) → DuplexAccept → DuplexSession → Queues → DuplexSession × Queues
deliver_response local_streams accept sess queues =
    if not (is_empty accept.response_chunk) && not sess.response_chunk_delivered
    then deliver_to accept sess (get accept.session_id local_streams) queues
    else (sess, queues)

accept_with_key :
    List (Text × ℕ) → DuplexAccept → Option Text → DuplexSession → Queues → DuplexSession × Queues
accept_with_key local_streams accept none sess queues =
    deliver_response local_streams accept (attach accept (record sess { key = some accept.key }))
      queues
accept_with_key local_streams accept (some own) sess queues =
    if not (text_eq own accept.key)
    then (record sess { rejected = true; peer_attached = false }, queues)
    else deliver_response local_streams accept (attach accept sess) queues

-- The body of the loop, at the line that the accept names.
unfoldable pub accept_session :
    List (Text × ℕ) → DuplexAccept → ℕ → DuplexSession → Queues → DuplexSession × Queues
unfolding accept_with_key deliver_response deliver_to
accept_session local_streams accept now sess queues =
    if accept_is_valid accept now sess
    then accept_with_key local_streams accept sess.key sess queues
    else (sess, queues)

unfoldable pub apply_duplex_accept :
    List (Text × ℕ) → DuplexAccept → ℕ → Sessions → Queues → Sessions × Queues
apply_duplex_accept local_streams accept now [] queues = ([], queues)
apply_duplex_accept local_streams accept now ((k, sess) ∷ rest) queues =
    let (sess', queues') = accept_session local_streams accept now sess queues in
    let (rest', queues'') = apply_duplex_accept local_streams accept now rest queues in
    if has_id accept.session_id sess
    then ((k, sess') ∷ rest, queues')
    else ((k, sess) ∷ rest', queues'')
