-- ===== src/Duplex/Lines/Room.antt =====
-- A queue that has room takes what is sent.
use co_net_l0d.Base.{ℕ, ◌+◌, ◌≤◌, ◌≡◌, refl, false, some, [], ◌∷◌, ◌++◌, arith, ◌==◌, Bytes}
use co_net_l0d.Duplex.Lines.{Queues, try_send}

pub try_send-room :
    (q : ℕ) (bytes : Bytes) (queues : Queues)
    → 1 ≤ queues.room q
    → (queues' : Queues) × (try_send q bytes queues ≡ some queues')
      × (queues'.sent ≡ queues.sent ++ (q, bytes) ∷ [])
      × (queues'.room q + 1 ≡ queues.room q)
unfolding try_send
try_send-room q bytes queues h =
    let nonzero : (queues.room q == 0) ≡ false = ground arith in
    rw nonzero (_, refl, refl, ground arith)
