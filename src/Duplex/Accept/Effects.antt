-- ===== src/Duplex/Accept/Effects.antt =====
-- Which lines an accept changes, and how.
use co_net_l0d.Base.{
  ℕ, ◌≡◌, refl, ap, ◌∙◌, ◌⊎◌, inl, inr, true, false, not, ◌&&◌, Option, none, some, List, [], ◌∷◌,
  arith, Bool-cases, Option-cases, Text, text_eq, text_eq_iff, get, text_key, is_empty,
}
use co_net_l0d.Eoa.{eoa_eq}
use co_net_l0d.Duplex.Session.{DuplexSession, Sessions, is_blank, duplex_offer_is_expired}
use co_net_l0d.Duplex.Lines.{DuplexAccept, Queues, try_send, has_id}
use co_net_l0d.Duplex.Lines.Keyed.{Pointwise, Pointwise-same, SamePlace}
use co_net_l0d.Duplex.Accept.{
  accept_is_valid, accept_with_key, deliver_response, deliver_to, attach, accept_session,
  apply_duplex_accept,
}

-- The line `s` became `t` by an accept of key `key`: it is where it was, its key was set only if it had
-- none, and it is attached with the key of the accept, or rejected.
pub record Accepted (key : Text) (s t : DuplexSession) : Type 0 where
  pub place : SamePlace s t
  pub key_kept : ((s.key ≡ none) × (t.key ≡ some key)) ⊎ (t.key ≡ s.key)
  pub outcome :
      ((t.peer_attached ≡ true) × (t.rejected ≡ false) × (t.key ≡ some key))
      ⊎ ((t.peer_attached ≡ false) × (t.rejected ≡ true))

module _ (local_streams : List (Text × ℕ)) (accept : DuplexAccept) where
  deliver_to-Accepted :
      (s t : DuplexSession) (o : Option ℕ) (q : Queues)
      → Accepted accept.key s t
      → Accepted accept.key s (deliver_to accept t o q).0
  unfolding deliver_to
  deliver_to-Accepted s t none q h = h
  deliver_to-Accepted s t (some tx) q h =
      elim (Option-cases (try_send tx accept.response_chunk q)) [
        | inl full ↦ rw (full, deliver_to) h
        | inr (q', sent) ↦
            rw (sent, deliver_to)
              (record { place = h.place; key_kept = h.key_kept; outcome = h.outcome })
      ]

  deliver_response-Accepted :
      (s t : DuplexSession) (q : Queues)
      → Accepted accept.key s t
      → Accepted accept.key s (deliver_response local_streams accept t q).0
  unfolding deliver_response
  deliver_response-Accepted s t q h =
      elim (Bool-cases (not (is_empty accept.response_chunk) && not t.response_chunk_delivered)) [
        | inl due ↦
            rw (due, deliver_response)
              (deliver_to-Accepted s t (get accept.session_id local_streams) q h)
        | inr none_due ↦ rw (none_due, deliver_response) h
      ]

  accept_with_key-Accepted :
      (o : Option Text) (s : DuplexSession) (q : Queues)
      → s.key ≡ o
      → Accepted accept.key s (accept_with_key local_streams accept o s q).0
  unfolding accept_with_key
  accept_with_key-Accepted none s q e =
      deliver_response-Accepted s (attach accept (record s { key = some accept.key })) q (record {
        place = (refl, refl, refl);
        key_kept = inl (e, refl);
        outcome = inl (refl, refl, refl);
      })
  accept_with_key-Accepted (some own) s q e = elim (Bool-cases (text_eq own accept.key)) [
    | inl same ↦
        rw (same, accept_with_key)
          (deliver_response-Accepted s (attach accept s) q (record {
            place = (refl, refl, refl);
            key_kept = inr refl;
            outcome = inl (refl, refl, e ∙ ap some ((text_eq_iff own accept.key).0 same));
          }))
    | inr other ↦
        rw (other, accept_with_key)
          (record { place = (refl, refl, refl); key_kept = inr refl; outcome = inr (refl, refl) })
  ]

-- The line is the one that the accept names, the signer is its peer, the accept is not expired, and
-- it names a listening wallet of its own with both keys.
pub record Authentic (accept : DuplexAccept) (now : ℕ) (s : DuplexSession) : Type 0 where
  pub named : s.session_id ≡ accept.session_id
  pub signer : eoa_eq accept.billing_wallet s.peer_eoa ≡ true
  pub fresh : duplex_offer_is_expired accept.timestamp now ≡ false
  pub user_pgp : is_blank accept.listen_user_pgp ≡ false
  pub route_pgp : is_blank accept.listen_route_pgp ≡ false
  pub distinct : eoa_eq accept.listen_wallet accept.billing_wallet ≡ false

module _ (local_streams : List (Text × ℕ)) (accept : DuplexAccept) (now : ℕ) where
  valid-Authentic :
      (s : DuplexSession)
      → has_id accept.session_id s ≡ true
      → accept_is_valid accept now s ≡ true
      → Authentic accept now s
  unfolding accept_is_valid
  valid-Authentic s own valid =
      let same = (text_eq_iff s.session_id accept.session_id).0 own in
      record {
        named = same;
        signer = ground arith;
        fresh = ground arith;
        user_pgp = ground arith;
        route_pgp = ground arith;
        distinct = ground arith;
      }

  -- The effect of an accept on the line `s`, which became `t`.
  abbrev pub AcceptEffect : DuplexSession → DuplexSession → Type 0
  AcceptEffect s t = Authentic accept now s × Accepted accept.key s t

  accept_session-effect :
      (s : DuplexSession) (q : Queues)
      → has_id accept.session_id s ≡ true
      → (s ≡ (accept_session local_streams accept now s q).0)
        ⊎ AcceptEffect s (accept_session local_streams accept now s q).0
  unfolding accept_session
  accept_session-effect s q own = elim (Bool-cases (accept_is_valid accept now s)) [
    | inl valid ↦
        rw (valid, accept_session)
          (inr (
            valid-Authentic s own valid,
            accept_with_key-Accepted local_streams accept s.key s q refl,
          ))
    | inr bad ↦ rw (bad, accept_session) (inl refl)
  ]

  -- An accept leaves the map as it is but for lines with its own session id that pass every check:
  -- the signer is the peer of the line, the accept is not expired, both keys are there and the
  -- listening wallet is not the billing wallet. Such a line stays in its place, its AES key is set only
  -- where it had none, and it is then attached with the key of the accept, or rejected.
  pub apply_duplex_accept-effect :
      (m : Sessions) (q : Queues)
      → Pointwise AcceptEffect m (apply_duplex_accept local_streams accept now m q).0
  unfolding apply_duplex_accept
  apply_duplex_accept-effect [] q = tt
  apply_duplex_accept-effect ((k, s) ∷ m) q = elim (Bool-cases (has_id accept.session_id s)) [
    | inl own ↦
        rw (own, apply_duplex_accept)
          (refl, accept_session-effect s q own, Pointwise-same AcceptEffect m)
    | inr other ↦ rw (other, apply_duplex_accept) (refl, inl refl, apply_duplex_accept-effect m q)
  ]
