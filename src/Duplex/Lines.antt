-- ===== src/Duplex/Lines.antt =====
-- What the handlers of src/l0/client.rs share: the signed messages, the queues, and the operations on
-- the map of the lines that cancel, reject or forget a line.
pub mod First
pub mod Keyed
pub mod Room
use co_net_l0d.Base.{
  ℕ, ◌+◌, ◌-◌, Bool, true, false, not, Option, none, some, List, [], ◌∷◌, ◌++◌, ltb, ◌==◌,
  if◌then◌else◌, Text, text_eq, Bytes, get, modify_first,
}
use co_net_l0d.Duplex.Session.{DuplexSession, Sessions, duplex_key, owns_listen}

-- `DuplexAccept` and `DuplexOffer` of src/l0/duplex.rs, as their parsers return them.
pub record DuplexAccept : Type 0 where
  pub session_id : Text
  pub listen_wallet : Text
  pub listen_user_pgp : Text
  pub listen_route_pgp : Text
  pub listen_mailbox_wallet : Text
  pub billing_wallet : Text
  pub timestamp : ℕ
  pub key : Text
  pub response_chunk : Bytes

pub record DuplexOffer : Type 0 where
  pub session_id : Text
  pub main_wallet : Text
  pub peer_wallet : Text
  pub port : ℕ
  pub key : Text
  pub listen_wallet : Text
  pub listen_user_pgp : Text
  pub listen_route_pgp : Text
  pub listen_mailbox_wallet : Text
  pub sender : Text
  pub billing_wallet : Text
  pub timestamp : ℕ
  pub first_chunk : Bytes

-- The bounded queues (`mpsc`), by number: the room that is left in each, none in one that is full or
-- closed, and what was put into them, oldest first.
pub record Queues : Type 0 where
  pub room : ℕ → ℕ
  pub sent : List (ℕ × Bytes)

abbrev use_room : (ℕ → ℕ) → ℕ → ℕ → ℕ
use_room room q i = if i == q then room i - 1 else room i

-- `try_send`; `none` is a queue that is full or closed.
unfoldable pub try_send : ℕ → Bytes → Queues → Option Queues
try_send q bytes queues =
    if queues.room q == 0
    then none
    else some (record { room = use_room queues.room q; sent = queues.sent ++ (q, bytes) ∷ [] })

-- Raising the flag of an occupy task, where there is one.
abbrev pub raise : Option ℕ → List ℕ → List ℕ
raise none raised = raised
raise (some flag) raised = flag ∷ raised

abbrev pub has_id : Text → DuplexSession → Bool
has_id session_id sess = text_eq sess.session_id session_id

-- `retain_duplex_except_session_id`: the lines that are left, and the flags raised.
unfoldable pub retain_duplex_except_session_id : Text → Sessions → List ℕ → Sessions × List ℕ
retain_duplex_except_session_id session_id [] raised = ([], raised)
retain_duplex_except_session_id session_id ((k, sess) ∷ rest) raised =
    let (kept, flags) = retain_duplex_except_session_id session_id rest raised in
    if has_id session_id sess
    then (kept, raise sess.pipe_cancel flags)
    else ((k, sess) ∷ kept, flags)

abbrev pub reject_session : DuplexSession → DuplexSession
reject_session sess = record sess {
  rejected = true;
  peer_attached = false;
  pipe_cancel = none;
  pipe_tx = none;
  pipe_connect_inflight = false;
}

-- `mark_duplex_rejected`: the first line with the id, in the order of the walk.
unfoldable pub mark_duplex_rejected : Text → Sessions → List ℕ → Sessions × List ℕ
mark_duplex_rejected session_id [] raised = ([], raised)
mark_duplex_rejected session_id ((k, sess) ∷ rest) raised =
    let (marked, flags) = mark_duplex_rejected session_id rest raised in
    if has_id session_id sess
    then ((k, reject_session sess) ∷ rest, raise sess.pipe_cancel raised)
    else ((k, sess) ∷ marked, flags)

-- `clear_l0_pipe_after_listen_timeout`
unfoldable pub clear_l0_pipe_after_listen_timeout : Text → Sessions → Sessions
clear_l0_pipe_after_listen_timeout routing_eoa [] = []
clear_l0_pipe_after_listen_timeout routing_eoa ((k, live) ∷ rest) =
    (
      k,
      (if owns_listen live routing_eoa
          then record live { pipe_tx = none; peer_return_attached = false }
          else live),
    )
    ∷ clear_l0_pipe_after_listen_timeout routing_eoa rest
