-- ===== src/Duplex/Pipe/Failure.antt =====
-- A line whose pipe could not be occupied.
use co_net_l0d.Base.{
  ℕ, ◌≡◌, refl, sym, ap, ◌∙◌, inl, inr, false, none, List, [], ◌∷◌, arith, Bool-cases, text_eq_iff,
  get,
}
use co_net_l0d.Duplex.Session.{
  DuplexKey, Sessions, duplex_key_eq, heartbeat_of, duplex_pipe_heartbeat, stop,
}
use co_net_l0d.Duplex.Lines.{has_id, retain_duplex_except_session_id}
use co_net_l0d.Duplex.Lines.Keyed.{IsKeyed}
use co_net_l0d.Duplex.Pipe.{
  refused, admit_live, admit_l0_pipe, begin_live, begin_l0_pipe, cancel_live, l0_pipe_failed,
}

-- No line with the id is left under a key of that id.
get-retain :
    (k : DuplexKey) (m : Sessions) (raised : List ℕ)
    → IsKeyed m
    → get k (retain_duplex_except_session_id k.session_id m raised).0 ≡ none
unfolding retain_duplex_except_session_id get
get-retain k [] raised h = refl
get-retain k ((j, s) ∷ m) raised (here, h) = elim (Bool-cases (has_id k.session_id s)) [
  | inl own ↦ rw own (get-retain k m raised h)
  | inr other ↦ elim (Bool-cases (duplex_key_eq.beq j k)) [
    | inl same ↦
        let id =
          ap (λ (d : DuplexKey). d.session_id) (sym here ∙ (duplex_key_eq.beq_iff j k).0 same) in
        let own = (text_eq_iff s.session_id k.session_id).1 id in absurd (ground arith)
    | inr differs ↦ rw (other, differs) (get-retain k m raised h)
  ]
]

-- Where every line stands under its own key, the failure of a pipe ends all work on its line: its
-- heartbeats stop, no task for it is admitted, and no round of a task that still runs begins.
pub l0_pipe_failed-ends :
    (k : DuplexKey) (m : Sessions) (raised : List ℕ) (cancel : ℕ)
    → IsKeyed m
    → let left = (l0_pipe_failed k m raised).0 in
      (duplex_pipe_heartbeat left k.dest k.port k.session_id ≡ stop)
      × (admit_l0_pipe false k left ≡ refused)
      × (begin_l0_pipe k cancel left ≡ none)
unfolding l0_pipe_failed duplex_pipe_heartbeat admit_l0_pipe begin_l0_pipe heartbeat_of
l0_pipe_failed-ends k m raised cancel h =
    let gone = get-retain k m (cancel_live (get k m) raised) h in
    (ap heartbeat_of gone, ap (admit_live k _) gone, ap (begin_live k cancel _) gone)
