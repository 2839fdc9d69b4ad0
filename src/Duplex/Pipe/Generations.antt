-- ===== src/Duplex/Pipe/Generations.antt =====
-- A task of an old generation never touches the sender of a newer pipe, and a line has one task at a
-- time that is admitted.
use mathlib.Core.Path.{ap₂}
use co_net_l0d.Base.{
  ℕ, ◌^◌, ◌<◌, ◌≡◌, ◌≢◌, refl, ap, inl, inr, Bool, true, false, not, ◌&&◌, none, some, arith,
  is_some, Option-cases, get, modify, get-modify_self, modify-fixed, modify-modify, subst,
}
use co_net_l0d.Duplex.Session.{DuplexSession, DuplexKey, Sessions, duplex_key_eq}
use co_net_l0d.Duplex.Pipe.{
  refused, tracked, admit_live, admit_l0_pipe, next_gen, start_gen, begin_l0_pipe, begin_live,
  install, l0_pipe_up, drop_tx, l0_pipe_closed_should_retry, drop_inflight_guard,
}

module _ (k : DuplexKey) (gen : ℕ) (m : Sessions) (live : DuplexSession)
    (here : get k m ≡ some live) where
  up_stale : (tx : ℕ) → live.pipe_gen ≢ gen → l0_pipe_up k gen tx m ≡ m
  unfolding l0_pipe_up
  up_stale tx old = modify-fixed k (install gen tx) m (λ v g. unchanged v (cc (here, g)))
    where
      unchanged : (v : DuplexSession) → v ≡ live → install gen tx v ≡ v
      unchanged v e = rw e (ground arith)

  closed_stale : live.pipe_gen ≢ gen → l0_pipe_closed_should_retry k gen m ≡ (m, false)
  unfolding l0_pipe_closed_should_retry
  closed_stale old =
      ap₂ (λ a b. (a, b)) (modify-fixed k (drop_tx gen) m (λ v g. unchanged v (cc (here, g))))
        (rw here (ground arith))
    where
      unchanged : (v : DuplexSession) → v ≡ live → drop_tx gen v ≡ v
      unchanged v e = rw e (ground arith)

next_gen-ne : (gen : ℕ) → gen < 2 ^ 64 → next_gen gen ≢ gen
next_gen-ne gen h e = omega arith

begin_live-some :
    (k : DuplexKey) (cancel gen : ℕ) (m m' : Sessions) (live : DuplexSession)
    → begin_live k cancel m (some live) ≡ some (m', gen)
    → (modify k (start_gen cancel) m ≡ m') × (gen ≡ next_gen live.pipe_gen)
unfolding begin_live
begin_live-some k cancel gen m m' live h = (ground arith, ground arith)

begin-live :
    (k : DuplexKey) (cancel gen : ℕ) (m m' : Sessions) (live : DuplexSession)
    → get k m ≡ some live
    → begin_l0_pipe k cancel m ≡ some (m', gen)
    → (get k m' ≡ some (start_gen cancel live)) × (gen ≡ next_gen live.pipe_gen)
unfolding begin_l0_pipe
begin-live k cancel gen m m' live here h =
    let (moved, next) =
      begin_live-some k cancel gen m m' live
        (subst (λ o. begin_live k cancel m o ≡ some (m', gen)) here h) in
    (
      subst (λ n. get k n ≡ some (start_gen cancel live)) moved
          (get-modify_self k (start_gen cancel) live m here),
      next,
    )

-- When a task starts a new generation of the pipe of a line, a task of the generation before it can
-- no longer do anything to the line: if its pipe comes up late the sender is not installed, and if it
-- closes the sender of the newer pipe stays and the old task is not retried.
pub begin_l0_pipe-stale :
    (k : DuplexKey) (cancel gen tx : ℕ) (m m' : Sessions) (live : DuplexSession)
    → get k m ≡ some live
    → live.pipe_gen < 2 ^ 64
    → begin_l0_pipe k cancel m ≡ some (m', gen)
    → (l0_pipe_up k live.pipe_gen tx m' ≡ m')
      × (l0_pipe_closed_should_retry k live.pipe_gen m' ≡ (m', false))
begin_l0_pipe-stale k cancel gen tx m m' live here range h =
    let (now, _) = begin-live k cancel gen m m' live here h in
    let old = next_gen-ne live.pipe_gen range in
    (
      up_stale k live.pipe_gen m' (start_gen cancel live) now tx old,
      closed_stale k live.pipe_gen m' (start_gen cancel live) now old,
    )

abbrev pub set_inflight : Bool → DuplexSession → DuplexSession
set_inflight on live = record live { pipe_connect_inflight = on }

admit_live-some :
    (k : DuplexKey) (m m' : Sessions) (live : DuplexSession)
    → admit_live k m (some live) ≡ tracked m'
    → (modify k (set_inflight true) m ≡ m')
      × ((is_some live.pipe_tx && live.peer_attached && not live.rejected) ≡ false)
unfolding admit_live
admit_live-some k m m' live h = (ground arith, ground arith)

admit_live-live :
    (k : DuplexKey) (m m' : Sessions)
    → admit_l0_pipe false k m ≡ tracked m'
    → (live : DuplexSession) × (get k m ≡ some live)
      × (modify k (set_inflight true) m ≡ m')
      × ((is_some live.pipe_tx && live.peer_attached && not live.rejected) ≡ false)
unfolding admit_l0_pipe
admit_live-live k m m' h = elim (Option-cases (get k m)) [
  | inl gone ↦ absurd (none_admitted (subst (λ o. admit_live k m o ≡ tracked m') gone h))
  | inr (live, here) ↦
      let (moved, idle) =
        admit_live-some k m m' live (subst (λ o. admit_live k m o ≡ tracked m') here h) in
      (live, here, moved, idle)
]
  where
    none_admitted : admit_live k m none ≡ tracked m' → ⊥
    none_admitted e = ground arith

module _ (k : DuplexKey) (m : Sessions) (live : DuplexSession) (here : get k m ≡ some live) where
  admit-busy : live.pipe_connect_inflight ≡ true → admit_l0_pipe false k m ≡ refused
  unfolding admit_l0_pipe admit_live
  admit-busy busy = rw (here, busy) (ground arith)

  admit-idle :
      (is_some live.pipe_tx && live.peer_attached && not live.rejected) ≡ false
      → admit_l0_pipe false k (drop_inflight_guard k m) ≡ tracked (modify k (set_inflight true) m)
  admit-idle idle =
      unfold admit_l0_pipe drop_inflight_guard in
      rw (get-modify_self k (set_inflight false) live m here) (
        rw (idle, admit_live)
          (ap tracked (modify-modify k (set_inflight true) (set_inflight false) m)))

-- After a tracked task was admitted for a line a second one is refused, and so it is in every later state
-- in which the task of the line is in flight. Where the line then still stands without a pipe, the next task
-- is admitted once the guard of the first is dropped, and nothing else of the lines is changed by that.
pub admit_l0_pipe-once :
    (k : DuplexKey) (m m' later : Sessions) (left : DuplexSession)
    → admit_l0_pipe false k m ≡ tracked m'
    → get k later ≡ some left
    → left.pipe_connect_inflight ≡ true
    → left.pipe_tx ≡ none
    → (admit_l0_pipe false k m' ≡ refused)
      × (admit_l0_pipe false k later ≡ refused)
      × (admit_l0_pipe false k (drop_inflight_guard k later)
          ≡ tracked (modify k (set_inflight true) later))
admit_l0_pipe-once k m m' later left h stands busy unpiped =
    let (live, here, moved, _) = admit_live-live k m m' h in
    (
      subst (λ n. admit_l0_pipe false k n ≡ refused) moved
          (admit-busy k (modify k (set_inflight true) m) (set_inflight true live)
            (get-modify_self k (set_inflight true) live m here) refl),
      admit-busy k later left stands busy,
      admit-idle k later left stands (rw unpiped refl),
    )
