-- ===== src/Inbound/Dispatch/Isolation.antt =====
-- What an AES blob that is not for its session can do.
use co_net_l0d.Base.{
  ℕ, ◌≡◌, refl, sym, subst, ap, ◌∙◌, inl, inr, Bool, true, false, not, Option, none, some, List, [],
  ◌∷◌, arith, if◌then◌else◌, Bool-cases, Text, text_eq, trim, get, text_key, Bytes,
}
use co_net_l0d.Duplex.Session.{DuplexSession, Sessions}
use co_net_l0d.Duplex.Lines.{has_id, mark_duplex_rejected}
use co_net_l0d.Duplex.Lines.First.{Replaced, Replaced-here, Replaced-later}
use co_net_l0d.Inbound.{ListenOwner, Client, Outcome, err, refuse}
use co_net_l0d.Inbound.Dispatch.{
  Reader, line_of, reject_line, chunk_by, session_blob, owned_blob, is_session, apply_inbound_chunk,
  blob_line, blob_key, blob_plain, blob_json, blob_ping, blob_frame,
  apply_duplex_aes_blob_for_session,
}

-- The stream that brought the chunk is bound to another session, or to none, or is not owned.
abbrev pub Bound : Text → Option ListenOwner → Type 0
Bound session_id none = Unit {0}
Bound session_id (some o) = is_session session_id o.session_id ≡ false

abbrev pub Unowned : Client → Text → Option Text → Type 0
Unowned client owner none = Unit {0}
Unowned client owner (some session_id) = Bound session_id (get owner client.listen_owners)

-- Nothing but counters and owners differs, and the chunk was an error.
abbrev pub Untouched : Client → Client × Outcome → Type 0
Untouched client r = (r.0.host ≡ client.host) × (r.0.queues ≡ client.queues) × (r.1 ≡ err)

-- The line as a rejection leaves it: without a pipe or a task for one, and detached from its peer.
abbrev severed : DuplexSession → DuplexSession
severed s = record s {
  rejected = true;
  peer_attached = false;
  pipe_cancel = none;
  pipe_tx = none;
  pipe_connect_inflight = false;
}

mark_duplex_rejected-Replaced :
    (session_id : Text) (m : Sessions) (raised : List ℕ) (s : DuplexSession)
    → line_of session_id m ≡ some s
    → Replaced session_id s (severed s) m (mark_duplex_rejected session_id m raised).0
unfolding line_of mark_duplex_rejected
mark_duplex_rejected-Replaced session_id [] raised s h = absurd (ground arith)
mark_duplex_rejected-Replaced session_id ((k, t) ∷ m) raised s h =
    elim (Bool-cases (has_id session_id t)) [
      | inl own ↦
          let same : t ≡ s = ground arith in
          subst
            (λ u.
              Replaced session_id u (severed u) ((k, t) ∷ m)
                (mark_duplex_rejected session_id ((k, t) ∷ m) raised).0)
            same (rw own (Replaced-here session_id k t _ m own))
      | inr other ↦ rw other (
          Replaced-later session_id k t s _ m _ other
            (mark_duplex_rejected-Replaced session_id m raised s (ground arith)))
    ]

-- The blob is none that the peer of the session sealed for it: the key does not open it, or it opens to no
-- text, or to a ping or a frame of another session.
pub data Foreign (reader : Reader) (session_id key blob : Text) : Type 0 where
  unopened : reader.aes_open key blob ≡ none → Foreign reader session_id key blob
  no_text :
      (plain : Bytes)
      → reader.aes_open key blob ≡ some plain
      → reader.from_utf8 plain ≡ none
      → Foreign reader session_id key blob
  other_ping :
      (plain : Bytes) (json other : Text)
      → reader.aes_open key blob ≡ some plain
      → reader.from_utf8 plain ≡ some json
      → reader.parse_duplex_ping_json json ≡ some other
      → text_eq other session_id ≡ false
      → Foreign reader session_id key blob
  other_frame :
      (plain : Bytes) (json other payload : Text)
      → reader.aes_open key blob ≡ some plain
      → reader.from_utf8 plain ≡ some json
      → reader.parse_duplex_ping_json json ≡ none
      → reader.parse_duplex_frame_json json ≡ some (other, payload)
      → text_eq other session_id ≡ false
      → Foreign reader session_id key blob

module _ (reader : Reader) (now : ℕ) (generated : Option Text) where
  if-Untouched :
      (client : Client) (b : Bool) (r : Client × Outcome)
      → Untouched client r
      → Untouched client (if b then refuse client else r)
  if-Untouched client true r h = (refl, refl, refl)
  if-Untouched client false r h = h

  owned_blob-Untouched :
      (client : Client) (owner session_id blob : Text) (o : Option ListenOwner)
      → Bound session_id o
      → Untouched client (owned_blob reader now generated client owner session_id blob o)
  unfolding owned_blob
  owned_blob-Untouched client owner session_id blob none h = (refl, refl, refl)
  owned_blob-Untouched client owner session_id blob (some o) h = rw h (refl, refl, refl)

  session_blob-Untouched :
      (client : Client) (owner : Text) (o : Option Text) (blob : Text)
      → Unowned client owner o
      → Untouched client (session_blob reader now generated client owner o blob)
  unfolding session_blob
  session_blob-Untouched client owner none blob h = (refl, refl, refl)
  session_blob-Untouched client owner (some session_id) blob h =
      owned_blob-Untouched client owner session_id blob (get owner client.listen_owners) h

  -- An AES blob on a stream that is not owned, or is bound to another session than the one it was read
  -- for, is an error that changes no line and sends nothing.
  pub apply_inbound_chunk-Unowned :
      (client : Client) (owner : Text) (session_id : Option Text) (payload : Text)
      → reader.parse_l0_occupied (trim payload) ≡ false
      → reader.looks_like_aes_blob (trim payload) ≡ true
      → Unowned client owner session_id
      → Untouched client (apply_inbound_chunk reader now generated client owner session_id payload)
  unfolding apply_inbound_chunk chunk_by
  apply_inbound_chunk-Unowned client owner session_id payload open_stream blob h =
      if-Untouched client (not client.enabled) _
        (rw (open_stream, blob) (session_blob-Untouched client owner session_id (trim payload) h))

  -- Whatever makes a blob foreign, it ends in the rejection of the line.
  blob_key-Foreign :
      (client : Client) (session_id key blob : Text)
      → Foreign reader session_id key blob
      → blob_key reader now generated client session_id blob (some key)
        ≡ (reject_line client session_id, err)
  unfolding blob_key blob_plain blob_json blob_ping blob_frame
  blob_key-Foreign client session_id key blob (unopened shut) =
      ap (blob_plain reader now generated client session_id) shut
  blob_key-Foreign client session_id key blob (no_text plain opened binary) =
      ap (blob_plain reader now generated client session_id) opened
      ∙ ap (blob_json reader now generated client session_id) binary
  blob_key-Foreign client session_id key blob
        (other_ping plain json other opened utf8 ping differs) =
      ap (blob_plain reader now generated client session_id) opened
      ∙ ap (blob_json reader now generated client session_id) utf8
      ∙ ap (blob_ping reader now generated client session_id json) ping
      ∙ rw differs refl
  blob_key-Foreign client session_id key blob
        (other_frame plain json other payload opened utf8 ping frame differs) =
      ap (blob_plain reader now generated client session_id) opened
      ∙ ap (blob_json reader now generated client session_id) utf8
      ∙ ap (blob_ping reader now generated client session_id json) ping
      ∙ ap (blob_frame reader now generated client session_id json) frame
      ∙ rw differs refl

  -- An AES blob for a session whose first line has a key, and which that key does not open, or opens to no
  -- text, or to a ping or a frame of another session, is an error: nothing is sent, and that line, and no
  -- other, is rejected, detached, and without a pipe or a task for one.
  pub apply_duplex_aes_blob-foreign :
      (client : Client) (session_id blob : Text) (s : DuplexSession) (key : Text)
      → line_of session_id client.host.duplex ≡ some s
      → s.key ≡ some key
      → Foreign reader session_id key blob
      → let r = apply_duplex_aes_blob_for_session reader now generated client session_id blob in
        (r.1 ≡ err)
        × (r.0.queues ≡ client.queues)
        × Replaced session_id s
            (record s {
              rejected = true;
              peer_attached = false;
              pipe_cancel = none;
              pipe_tx = none;
              pipe_connect_inflight = false;
            })
            client.host.duplex
            r.0.host.duplex
  unfolding apply_duplex_aes_blob_for_session blob_line
  apply_duplex_aes_blob-foreign client session_id blob s key line keyed foreign =
      let step =
        ap (blob_line reader now generated client session_id blob) line
        ∙ ap (blob_key reader now generated client session_id blob) keyed
        ∙ blob_key-Foreign client session_id key blob foreign in
      (
        ap (λ r. r.1) step,
        ap (λ r. r.0.queues) step,
        subst (λ r. Replaced session_id s (severed s) client.host.duplex r.0.host.duplex) (sym step)
            (mark_duplex_rejected-Replaced session_id client.host.duplex client.host.raised s line),
      )
