-- ===== src/Duplex/Pipe.antt =====
-- The life of one occupied pipe in `spawn_l0_pipe` of src/l0/client.rs: whether a task is started,
-- what it does to its line before it connects, when the pipe is up, when it is closed and when it
-- fails. What the task sends over the network is not part of it.
pub mod Generations
pub mod Failure
pub mod Keyed
use co_net_l0d.Base.{
  ℕ, ◌+◌, ◌%◌, ◌^◌, Bool, true, false, not, ◌&&◌, ◌||◌, Option, none, some, List, [], ◌∷◌, ◌==◌,
  if◌then◌else◌, is_some, Text, get, modify, Eq,
}
use co_net_l0d.Duplex.Session.{
  DuplexSession, DuplexKey, Sessions, duplex_key, duplex_key_eq,
  should_rebuild_l0_pipe_after_listen_up,
}
use co_net_l0d.Duplex.Lines.{raise, retain_duplex_except_session_id}

pub data Admission : Type 0 where
  -- no task is started
  refused : Admission
  -- a task is started that the line does not track: it carries one reject
  untracked : Admission
  -- a task is started, and the line says so
  tracked : Sessions → Admission

admit_live : DuplexKey → Sessions → Option DuplexSession → Admission
admit_live k duplex none = refused
admit_live k duplex (some live) =
    if is_some live.pipe_tx && live.peer_attached && not live.rejected
    then refused
    else if live.pipe_connect_inflight
    then refused
    else tracked (modify k (λ s. record s { pipe_connect_inflight = true }) duplex)

-- The part of `spawn_l0_pipe` before its task; the flag is `sess.rejected`.
unfoldable pub admit_l0_pipe : Bool → DuplexKey → Sessions → Admission
unfolding admit_live
admit_l0_pipe oneshot_reject k duplex =
    if oneshot_reject then untracked else admit_live k duplex (get k duplex)

-- `pipe_gen.wrapping_add(1)` on `u64`
abbrev pub next_gen : ℕ → ℕ
next_gen gen = (gen + 1) % 2 ^ 64

abbrev start_gen : ℕ → DuplexSession → DuplexSession
start_gen cancel live = record live { pipe_gen = next_gen live.pipe_gen; pipe_cancel = some cancel }

begin_live : DuplexKey → ℕ → Sessions → Option DuplexSession → Option (Sessions × ℕ)
begin_live k cancel duplex none = none
begin_live k cancel duplex (some live) =
    if live.rejected || not live.peer_attached
    then none
    else some (modify k (start_gen cancel) duplex, next_gen live.pipe_gen)

-- The start of one round of a tracked task, with the flag `cancel` made for it: `none` ends the task.
unfoldable pub begin_l0_pipe : DuplexKey → ℕ → Sessions → Option (Sessions × ℕ)
unfolding begin_live
begin_l0_pipe k cancel duplex = begin_live k cancel duplex (get k duplex)

-- `on_up`, after HTTP 200: the line gets the sender `tx` of generation `gen`.
abbrev install : ℕ → ℕ → DuplexSession → DuplexSession
install gen tx live =
    if live.pipe_gen == gen && live.peer_attached && not live.rejected
    then record live { pipe_tx = some tx }
    else live

unfoldable pub l0_pipe_up : DuplexKey → ℕ → ℕ → Sessions → Sessions
l0_pipe_up k gen tx duplex = modify k (install gen tx) duplex

abbrev drop_tx : ℕ → DuplexSession → DuplexSession
drop_tx gen live = if live.pipe_gen == gen then record live { pipe_tx = none } else live

closed_retry : ℕ → Option DuplexSession → Bool
closed_retry gen none = false
closed_retry gen (some live) =
    if live.pipe_gen == gen then live.peer_attached && not live.rejected else false

-- `l0_pipe_closed_should_retry`
unfoldable pub l0_pipe_closed_should_retry : DuplexKey → ℕ → Sessions → Sessions × Bool
unfolding closed_retry
l0_pipe_closed_should_retry k gen duplex =
    (modify k (drop_tx gen) duplex, closed_retry gen (get k duplex))

cancel_live : Option DuplexSession → List ℕ → List ℕ
cancel_live none raised = raised
cancel_live (some live) raised = raise live.pipe_cancel raised

-- The end of a task whose occupation failed: the line is cancelled and forgotten.
unfoldable pub l0_pipe_failed : DuplexKey → Sessions → List ℕ → Sessions × List ℕ
unfolding cancel_live
l0_pipe_failed k duplex raised =
    retain_duplex_except_session_id k.session_id duplex (cancel_live (get k duplex) raised)

-- The guard of a tracked task, when the task ends in any way.
unfoldable pub drop_inflight_guard : DuplexKey → Sessions → Sessions
drop_inflight_guard k duplex =
    modify k (λ live. record live { pipe_connect_inflight = false }) duplex

-- The lines that `rebuild_l0_pipes_after_listen_up` takes up.
unfoldable pub lines_to_rebuild : Text → Sessions → List DuplexSession
lines_to_rebuild routing_eoa [] = []
lines_to_rebuild routing_eoa ((k, s) ∷ rest) =
    if should_rebuild_l0_pipe_after_listen_up s routing_eoa
    then s ∷ lines_to_rebuild routing_eoa rest
    else lines_to_rebuild routing_eoa rest
