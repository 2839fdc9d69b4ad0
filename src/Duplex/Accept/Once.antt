-- ===== src/Duplex/Accept/Once.antt =====
-- The responseChunk of a line is delivered at most once.
use co_net_l0d.Base.{
  ℕ, ◌+◌, ◌≤◌, ◌≡◌, subst, true, false, Option, none, some, List, [], ◌∷◌, arith, if◌then◌else◌,
  Bool-cases, Option-cases, inl, inr, length, length-append, All, Text, Bytes, get, text_key,
}
use co_net_l0d.Duplex.Session.{DuplexSession, Sessions}
use co_net_l0d.Duplex.Lines.{DuplexAccept, Queues, try_send, has_id}
use co_net_l0d.Duplex.Accept.{
  accept_is_valid, accept_with_key, deliver_response, deliver_to, attach, accept_session,
  apply_duplex_accept,
}

try_send-length :
    (q : ℕ) (bytes : Bytes) (queues queues' : Queues)
    → try_send q bytes queues ≡ some queues'
    → length queues'.sent ≡ length queues.sent + 1
unfolding try_send
try_send-length q bytes queues queues' h =
    let more = length-append queues.sent ((q, bytes) ∷ []) in ground arith

-- One if the chunk is still to be delivered.
abbrev owed : DuplexSession → ℕ
owed s = if s.response_chunk_delivered then 0 else 1

-- No more was sent than what is not owed any longer, and the line has its id.
abbrev Pays : DuplexSession → Queues → DuplexSession × Queues → Type 0
Pays s q r =
    (length (r.1).sent + owed r.0 ≤ length q.sent + owed s) × ((r.0).session_id ≡ s.session_id)

module _ (local_streams : List (Text × ℕ)) (accept : DuplexAccept) where
  deliver_to-Pays :
      (s : DuplexSession) (o : Option ℕ) (q : Queues)
      → s.response_chunk_delivered ≡ false
      → Pays s q (deliver_to accept s o q)
  unfolding deliver_to
  deliver_to-Pays s none q h = ground arith
  deliver_to-Pays s (some tx) q h = elim (Option-cases (try_send tx accept.response_chunk q)) [
    | inl full ↦ rw (full, deliver_to) (ground arith)
    | inr (q', sent) ↦
        rw (sent, deliver_to) (ground (arith, try_send-length tx accept.response_chunk q q' sent))
  ]

  deliver_response-Pays :
      (s : DuplexSession) (q : Queues) → Pays s q (deliver_response local_streams accept s q)
  unfolding deliver_response
  deliver_response-Pays s q =
      ground (arith, deliver_to-Pays s (get accept.session_id local_streams) q)

  accept_with_key-Pays :
      (o : Option Text) (s : DuplexSession) (q : Queues)
      → Pays s q (accept_with_key local_streams accept o s q)
  unfolding accept_with_key
  accept_with_key-Pays none s q =
      deliver_response-Pays (attach accept (record s { key = some accept.key })) q
  accept_with_key-Pays (some own) s q = ground (arith, deliver_response-Pays (attach accept s) q)

-- What the first line with the id still owes.
abbrev owed_by : Text → Sessions → ℕ
owed_by session_id [] = 0
owed_by session_id ((k, s) ∷ m) = if has_id session_id s then owed s else owed_by session_id m

module _ (local_streams : List (Text × ℕ)) (accept : DuplexAccept) (now : ℕ) where
  accept_session-Pays :
      (s : DuplexSession) (q : Queues) → Pays s q (accept_session local_streams accept now s q)
  unfolding accept_session
  accept_session-Pays s q = elim (Bool-cases (accept_is_valid accept now s)) [
    | inl valid ↦ rw (valid, accept_session) (accept_with_key-Pays local_streams accept s.key s q)
    | inr bad ↦ rw (bad, accept_session) (ground arith)
  ]

  apply-owed :
      (m : Sessions) (q : Queues)
      → length ((apply_duplex_accept local_streams accept now m q).1).sent
          + owed_by accept.session_id (apply_duplex_accept local_streams accept now m q).0
        ≤ length q.sent + owed_by accept.session_id m
  unfolding apply_duplex_accept
  apply-owed [] q = omega arith
  apply-owed ((k, s) ∷ m) q = elim (Bool-cases (has_id accept.session_id s)) [
    | inl own ↦
        let paid = accept_session-Pays s q in
        let same : has_id accept.session_id (accept_session local_streams accept now s q).0 ≡ true =
          rw paid.1 own in
        rw (own, apply_duplex_accept) (rw same paid.0)
    | inr other ↦ rw (other, apply_duplex_accept) (rw other (apply-owed m q))
  ]

-- One accept as it is handled: the local sockets that are open, the message and the time.
pub record Arrival : Type 0 where
  pub local_streams : List (Text × ℕ)
  pub accept : DuplexAccept
  pub now : ℕ

unfoldable pub accept_all : List Arrival → Sessions → Queues → Sessions × Queues
accept_all [] m q = (m, q)
accept_all (a ∷ later) m q =
    let (m', q') = apply_duplex_accept a.local_streams a.accept a.now m q in accept_all later m' q'

accept_all-owed :
    (id : Text) (arrivals : List Arrival) (m : Sessions) (q : Queues)
    → All (λ (a : Arrival). (a.accept).session_id ≡ id) arrivals
    → length ((accept_all arrivals m q).1).sent + owed_by id (accept_all arrivals m q).0
      ≤ length q.sent + owed_by id m
unfolding accept_all
accept_all-owed id [] m q h = omega arith
accept_all-owed id (a ∷ later) m q (e, h) =
    let (m', q') = apply_duplex_accept a.local_streams a.accept a.now m q in
    let one =
      subst (λ i. length q'.sent + owed_by i m' ≤ length q.sent + owed_by i m) e
        (apply-owed a.local_streams a.accept a.now m q) in
    omega (arith, one, accept_all-owed id later m' q' h)

owed_by-le-one : (id : Text) (m : Sessions) → owed_by id m ≤ 1
owed_by-le-one id [] = omega arith
owed_by-le-one id ((k, s) ∷ m) = ground (arith, owed_by-le-one id m)

-- However often the accepts of one line arrive, and whatever they carry, at most one chunk is put
-- into a queue.
pub accept_all-once :
    (id : Text) (arrivals : List Arrival) (m : Sessions) (q : Queues)
    → All (λ (a : Arrival). (a.accept).session_id ≡ id) arrivals
    → length ((accept_all arrivals m q).1).sent ≤ length q.sent + 1
accept_all-once id arrivals m q h =
    omega (arith, accept_all-owed id arrivals m q h, owed_by-le-one id m)
