-- ===== src/Duplex/Reach.antt =====
-- The lines over the life of the daemon: the offers and accepts that arrive, what becomes of the pipes, and
-- what rejects or forgets a line in src/l0/client.rs are steps, in whatever order the tasks take the lock
-- of the map.
use co_net_l0d.Base.{
  ℕ, ◌≡◌, refl, sym, ◌∙◌, inl, inr, false, Option, none, some, List, [], ◌∷◌, Bool-cases, Text,
}
use co_net_l0d.Duplex.Session.{
  DuplexKey, Sessions, duplex_key_of, duplex_key_eq, owns_listen, duplex_pipe_heartbeat, stop,
}
use co_net_l0d.Duplex.Lines.{
  DuplexAccept, DuplexOffer, Queues, has_id, retain_duplex_except_session_id, mark_duplex_rejected,
  clear_l0_pipe_after_listen_timeout,
}
use co_net_l0d.Duplex.Lines.Keyed.{IsKeyed, if-place, Pointwise-IsKeyed, retain-IsKeyed}
use co_net_l0d.Duplex.Wire.{Host}
use co_net_l0d.Duplex.Offer.{apply_duplex_offer}
use co_net_l0d.Duplex.Offer.Keyed.{apply_duplex_offer-IsKeyed}
use co_net_l0d.Duplex.Accept.{apply_duplex_accept}
use co_net_l0d.Duplex.Accept.Effects.{AcceptEffect, apply_duplex_accept-effect}
use co_net_l0d.Duplex.Pipe.{
  tracked, refused, admit_l0_pipe, begin_l0_pipe, l0_pipe_up, l0_pipe_closed_should_retry,
  l0_pipe_failed, drop_inflight_guard,
}
use co_net_l0d.Duplex.Pipe.Keyed.{
  admit-IsKeyed, begin-IsKeyed, up-IsKeyed, closed-IsKeyed, ended-IsKeyed, failed-IsKeyed,
}
use co_net_l0d.Duplex.Pipe.Failure.{l0_pipe_failed-ends}

abbrev with_lines : Host → Sessions → Host
with_lines host m = record host { duplex = m }

abbrev with_raised : Host → Sessions × List ℕ → Host
with_raised host (m, raised) = record host { duplex = m; raised = raised }

-- One event.
pub data Step : Host → Host → Type 0 where
  offer :
      (h : Host) (o : DuplexOffer) (ingress : Option Text) (now : ℕ) (generated : Option Text)
      → Step h (apply_duplex_offer h o ingress now generated).0
  accept :
      (h : Host) (local_streams : List (Text × ℕ)) (a : DuplexAccept) (now : ℕ) (queues : Queues)
      → Step h (with_lines h (apply_duplex_accept local_streams a now h.duplex queues).0)
  admit :
      (h : Host) (k : DuplexKey) (m : Sessions)
      → admit_l0_pipe false k h.duplex ≡ tracked m
      → Step h (with_lines h m)
  begin :
      (h : Host) (k : DuplexKey) (cancel gen : ℕ) (m : Sessions)
      → begin_l0_pipe k cancel h.duplex ≡ some (m, gen)
      → Step h (with_lines h m)
  up :
      (h : Host) (k : DuplexKey) (gen tx : ℕ) → Step h (with_lines h (l0_pipe_up k gen tx h.duplex))
  closed :
      (h : Host) (k : DuplexKey) (gen : ℕ)
      → Step h (with_lines h (l0_pipe_closed_should_retry k gen h.duplex).0)
  failed : (h : Host) (k : DuplexKey) → Step h (with_raised h (l0_pipe_failed k h.duplex h.raised))
  ended : (h : Host) (k : DuplexKey) → Step h (with_lines h (drop_inflight_guard k h.duplex))
  timed_out :
      (h : Host) (routing_eoa : Text)
      → Step h (with_lines h (clear_l0_pipe_after_listen_timeout routing_eoa h.duplex))
  rejected :
      (h : Host) (session_id : Text)
      → Step h (with_raised h (mark_duplex_rejected session_id h.duplex h.raised))
  forgotten :
      (h : Host) (session_id : Text)
      → Step h (with_raised h (retain_duplex_except_session_id session_id h.duplex h.raised))

pub data Reach (h : Host) : Host → Type 0 where
  here : Reach h h
  next : {i j : Host} → Reach h i → Step i j → Reach h j

timed_out-IsKeyed :
    (routing_eoa : Text) (m : Sessions)
    → IsKeyed m
    → IsKeyed (clear_l0_pipe_after_listen_timeout routing_eoa m)
unfolding clear_l0_pipe_after_listen_timeout
timed_out-IsKeyed routing_eoa [] h = tt
timed_out-IsKeyed routing_eoa ((k, s) ∷ m) (h, hs) = (
  h ∙ sym (if-place (owns_listen s routing_eoa) _ s (duplex_key_of s) refl refl),
  timed_out-IsKeyed routing_eoa m hs,
)

rejected-IsKeyed :
    (session_id : Text) (m : Sessions) (raised : List ℕ)
    → IsKeyed m
    → IsKeyed (mark_duplex_rejected session_id m raised).0
unfolding mark_duplex_rejected
rejected-IsKeyed session_id [] raised h = tt
rejected-IsKeyed session_id ((k, s) ∷ m) raised (h, hs) = elim (Bool-cases (has_id session_id s)) [
  | inl own ↦ rw own (h, hs)
  | inr kept ↦ rw kept (h, rejected-IsKeyed session_id m raised hs)
]

Step-IsKeyed : {h i : Host} → Step h i → IsKeyed h.duplex → IsKeyed i.duplex
Step-IsKeyed (offer h o ingress now generated) keyed =
    apply_duplex_offer-IsKeyed h o ingress now generated keyed
Step-IsKeyed (accept h local_streams a now queues) keyed =
    Pointwise-IsKeyed (AcceptEffect local_streams a now) (λ s t e. e.1.place) h.duplex _
      (apply_duplex_accept-effect local_streams a now h.duplex queues) keyed
Step-IsKeyed (admit h k m e) keyed = admit-IsKeyed k h.duplex m e keyed
Step-IsKeyed (begin h k cancel gen m e) keyed = begin-IsKeyed k cancel gen h.duplex m e keyed
Step-IsKeyed (up h k gen tx) keyed = up-IsKeyed k gen tx h.duplex keyed
Step-IsKeyed (closed h k gen) keyed = closed-IsKeyed k gen h.duplex keyed
Step-IsKeyed (failed h k) keyed = failed-IsKeyed k h.duplex h.raised keyed
Step-IsKeyed (ended h k) keyed = ended-IsKeyed k h.duplex keyed
Step-IsKeyed (timed_out h routing_eoa) keyed = timed_out-IsKeyed routing_eoa h.duplex keyed
Step-IsKeyed (rejected h session_id) keyed = rejected-IsKeyed session_id h.duplex h.raised keyed
Step-IsKeyed (forgotten h session_id) keyed = retain-IsKeyed session_id h.duplex h.raised keyed

-- After any run of events from a state in which every line stands under its own key, this is so still, and
-- the failure of any pipe then ends all work on its line.
pub Reach-IsKeyed :
    {h i : Host}
    → Reach h i
    → IsKeyed h.duplex
    → (k : DuplexKey) (cancel : ℕ)
    → let left = (l0_pipe_failed k i.duplex i.raised).0 in
      IsKeyed i.duplex
      × (duplex_pipe_heartbeat left k.dest k.port k.session_id ≡ stop)
      × (admit_l0_pipe false k left ≡ refused)
      × (begin_l0_pipe k cancel left ≡ none)
Reach-IsKeyed {h} {i} run keyed k cancel =
    let still = run-IsKeyed run keyed in
    let (stops, no_task, no_round) = l0_pipe_failed-ends k i.duplex i.raised cancel still in
    (still, stops, no_task, no_round)
  where
    run-IsKeyed : {h i : Host} → Reach h i → IsKeyed h.duplex → IsKeyed i.duplex
    run-IsKeyed here start = start
    run-IsKeyed (next before step) start = Step-IsKeyed step (run-IsKeyed before start)
