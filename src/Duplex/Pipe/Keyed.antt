-- ===== src/Duplex/Pipe/Keyed.antt =====
-- The life of a pipe leaves every line under its own key.
use co_net_l0d.Base.{
  ℕ, ◌≡◌, refl, inl, inr, true, false, Option, none, some, List, modify, arith, Bool-cases, subst,
  is_some, not, ◌&&◌, ◌||◌, get,
}
use co_net_l0d.Duplex.Session.{DuplexSession, DuplexKey, Sessions, duplex_key_of, duplex_key_eq}
use co_net_l0d.Duplex.Lines.Keyed.{IsKeyed, if-place, modify-IsKeyed, retain-IsKeyed}
use co_net_l0d.Duplex.Pipe.{
  tracked, admit_live, admit_l0_pipe, begin_live, begin_l0_pipe, l0_pipe_up,
  l0_pipe_closed_should_retry, l0_pipe_failed, cancel_live, drop_inflight_guard, start_gen,
}

admitted :
    (k : DuplexKey) (m n : Sessions) (o : Option DuplexSession)
    → admit_live k m o ≡ tracked n
    → modify k (λ s. record s { pipe_connect_inflight = true }) m ≡ n
unfolding admit_live
admitted k m n none e = absurd (ground arith)
admitted k m n (some live) e =
    elim (Bool-cases (is_some live.pipe_tx && live.peer_attached && not live.rejected)) [
      | inl up ↦ absurd (ground arith)
      | inr down ↦ elim (Bool-cases live.pipe_connect_inflight) [
        | inl busy ↦ absurd (ground arith)
        | inr idle ↦ ground arith
      ]
    ]

begun :
    (k : DuplexKey) (cancel gen : ℕ) (m n : Sessions) (o : Option DuplexSession)
    → begin_live k cancel m o ≡ some (n, gen)
    → modify k (start_gen cancel) m ≡ n
unfolding begin_live
begun k cancel gen m n none e = absurd (ground arith)
begun k cancel gen m n (some live) e = elim (Bool-cases (live.rejected || not live.peer_attached)) [
  | inl over ↦ absurd (ground arith)
  | inr goes ↦ ground arith
]

pub admit-IsKeyed :
    (k : DuplexKey) (m n : Sessions) → admit_l0_pipe false k m ≡ tracked n → IsKeyed m → IsKeyed n
unfolding admit_l0_pipe
admit-IsKeyed k m n e h =
    subst IsKeyed (admitted k m n (get k m) e)
      (modify-IsKeyed k (λ s. record s { pipe_connect_inflight = true }) m (λ s. refl) h)

pub begin-IsKeyed :
    (k : DuplexKey) (cancel gen : ℕ) (m n : Sessions)
    → begin_l0_pipe k cancel m ≡ some (n, gen)
    → IsKeyed m
    → IsKeyed n
unfolding begin_l0_pipe
begin-IsKeyed k cancel gen m n e h =
    subst IsKeyed (begun k cancel gen m n (get k m) e)
      (modify-IsKeyed k (start_gen cancel) m (λ s. refl) h)

pub up-IsKeyed :
    (k : DuplexKey) (gen tx : ℕ) (m : Sessions) → IsKeyed m → IsKeyed (l0_pipe_up k gen tx m)
unfolding l0_pipe_up
up-IsKeyed k gen tx m h = modify-IsKeyed k _ m (λ s. if-place _ _ s (duplex_key_of s) refl refl) h

pub closed-IsKeyed :
    (k : DuplexKey) (gen : ℕ) (m : Sessions)
    → IsKeyed m
    → IsKeyed (l0_pipe_closed_should_retry k gen m).0
unfolding l0_pipe_closed_should_retry
closed-IsKeyed k gen m h = modify-IsKeyed k _ m (λ s. if-place _ _ s (duplex_key_of s) refl refl) h

pub ended-IsKeyed : (k : DuplexKey) (m : Sessions) → IsKeyed m → IsKeyed (drop_inflight_guard k m)
unfolding drop_inflight_guard
ended-IsKeyed k m h = modify-IsKeyed k _ m (λ s. refl) h

pub failed-IsKeyed :
    (k : DuplexKey) (m : Sessions) (raised : List ℕ)
    → IsKeyed m
    → IsKeyed (l0_pipe_failed k m raised).0
unfolding l0_pipe_failed
failed-IsKeyed k m raised h = retain-IsKeyed k.session_id m (cancel_live (get k m) raised) h
