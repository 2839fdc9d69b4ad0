-- ===== src/Outbound/Prepare.antt =====
-- `prepare_overlay_post` of src/l0/client.rs.
use co_net_l0d.Base.{
  ℕ, ◌≡◌, ◌≢◌, ap, ◌∙◌, inl, inr, Bool, false, Option, none, some, List, [], ◌∷◌, arith,
  if◌then◌else◌, is_empty, Option-cases, Text, get, nat_eq, Bytes,
}
use co_net_l0d.Frame
use co_net_l0d.Envelope.Json.{Codec, encode}
use co_net_l0d.Duplex.Session.{DuplexSession, duplex_live_session}
use co_net_l0d.Duplex.Lines.{Queues, try_send}
use co_net_l0d.Outbound.{
  PeerKey, peer_key_eq, PeerPgp, Client, Sealing, OverlayPostPlan, occupied, p1, suppressed,
  refused, post_url,
}

module _ (c : Codec) (sealing : Sealing) where
  into_pipe : Queues → ℕ → Option Text → OverlayPostPlan
  into_pipe queues tx none = refused
  into_pipe queues tx (some blob) = elim (try_send tx blob queues) [
    | none ↦ suppressed
    | some queues' ↦ occupied queues'
  ]

  pipe_plan : Queues → Bytes → ℕ → Text → Option Text → Option ℕ → OverlayPostPlan
  unfolding into_pipe
  pipe_plan queues packet seq session_id none tx = suppressed
  pipe_plan queues packet seq session_id (some key) none = suppressed
  pipe_plan queues packet seq session_id (some key) (some tx) =
      into_pipe queues tx (sealing.seal_frame key session_id (Frame.encode seq packet))

  -- What a line makes of the batch; `none` is a batch that no line owns.
  line_plan : Queues → Bytes → ℕ → Option DuplexSession → Option OverlayPostPlan
  unfolding pipe_plan
  line_plan queues packet seq none = none
  line_plan queues packet seq (some sess) =
      if sess.rejected
      then none
      else some (pipe_plan queues packet seq sess.session_id sess.key sess.pipe_tx)

  -- The sender of an envelope: the wallet of the port, or else the routing wallet.
  abbrev sender_or : Text → Option Text → Text
  sender_or routing_eoa none = routing_eoa
  sender_or routing_eoa (some eoa) = if is_empty eoa then routing_eoa else eoa

  wrapped : Text → Option Text → OverlayPostPlan
  wrapped url none = refused
  wrapped url (some armor) = p1 url armor

  envelope_plan : PeerPgp → Text → Option Text → OverlayPostPlan
  unfolding wrapped
  envelope_plan keys url none = refused
  envelope_plan keys url (some json) =
      wrapped url (sealing.wrap_overlay_for_post json keys.user keys.route)

  line_or_post :
      Client → PeerKey → Bytes → ℕ → PeerPgp → Text → Option OverlayPostPlan → OverlayPostPlan
  unfolding envelope_plan
  line_or_post client to packet seq keys url (some plan) = plan
  line_or_post client to packet seq keys url none =
      envelope_plan keys url
        (encode c (sender_or client.routing_eoa (get to.port client.channel_eoa)) seq packet)

  url_plan : Client → PeerKey → Bytes → ℕ → PeerPgp → Option Text → OverlayPostPlan
  unfolding line_or_post line_plan
  url_plan client to packet seq keys none = refused
  url_plan client to packet seq keys (some url) =
      line_or_post client to packet seq keys url
        (line_plan client.queues packet seq (duplex_live_session client.duplex to.dest to.port))

  entry_plan : Client → PeerKey → Bytes → ℕ → PeerPgp → List Text → OverlayPostPlan
  unfolding url_plan
  entry_plan client to packet seq keys [] = refused
  entry_plan client to packet seq keys (entry ∷ rest) =
      url_plan client to packet seq keys (post_url entry)

  peer_plan : Client → PeerKey → Bytes → ℕ → Option PeerPgp → OverlayPostPlan
  unfolding entry_plan
  peer_plan client to packet seq none = refused
  peer_plan client to packet seq (some keys) = entry_plan client to packet seq keys client.entries

  unfoldable pub prepare_overlay_post : Client → PeerKey → Bytes → ℕ → OverlayPostPlan
  unfolding peer_plan
  prepare_overlay_post client to packet seq = peer_plan client to packet seq (get to client.peers)

  abbrev Private : OverlayPostPlan → Type 0
  Private plan = (url armor : Text) → plan ≢ p1 url armor

  into_pipe-Private : (queues : Queues) (tx : ℕ) (o : Option Text) → Private (into_pipe queues tx o)
  unfolding into_pipe
  into_pipe-Private queues tx none url armor = ground arith
  into_pipe-Private queues tx (some blob) url armor =
      elim (Option-cases (try_send tx blob queues)) [
        | inl full ↦ rw (full, into_pipe) (ground arith)
        | inr (q, sent) ↦ rw (sent, into_pipe) (ground arith)
      ]

  pipe_plan-Private :
      (queues : Queues) (packet : Bytes) (seq : ℕ) (session_id : Text) (key : Option Text)
      (tx : Option ℕ)
      → Private (pipe_plan queues packet seq session_id key tx)
  unfolding pipe_plan
  pipe_plan-Private queues packet seq session_id none tx url armor = ground arith
  pipe_plan-Private queues packet seq session_id (some key) none url armor = ground arith
  pipe_plan-Private queues packet seq session_id (some key) (some tx) url armor =
      into_pipe-Private queues tx _ url armor

  url_plan-Private :
      (client : Client) (to : PeerKey) (packet : Bytes) (seq : ℕ) (keys : PeerPgp) (o : Option Text)
      (sess : DuplexSession)
      → duplex_live_session client.duplex to.dest to.port ≡ some sess
      → sess.rejected ≡ false
      → Private (url_plan client to packet seq keys o)
  unfolding url_plan line_plan line_or_post
  url_plan-Private client to packet seq keys none sess live kept url armor = ground arith
  url_plan-Private client to packet seq keys (some u) sess live kept url armor =
      rw (live, kept)
        (pipe_plan-Private client.queues packet seq sess.session_id sess.key sess.pipe_tx url armor)

  entry_plan-Private :
      (client : Client) (to : PeerKey) (packet : Bytes) (seq : ℕ) (keys : PeerPgp)
      (entries : List Text) (sess : DuplexSession)
      → duplex_live_session client.duplex to.dest to.port ≡ some sess
      → sess.rejected ≡ false
      → Private (entry_plan client to packet seq keys entries)
  unfolding entry_plan
  entry_plan-Private client to packet seq keys [] sess live kept url armor = ground arith
  entry_plan-Private client to packet seq keys (e ∷ es) sess live kept url armor =
      url_plan-Private client to packet seq keys (post_url e) sess live kept url armor

  -- Where the line chosen for the traffic of a peer and port is not rejected, whatever its state, no
  -- batch for them is prepared for the post path.
  pub prepare_overlay_post-private :
      (client : Client) (to : PeerKey) (packet : Bytes) (seq : ℕ) (sess : DuplexSession)
      → duplex_live_session client.duplex to.dest to.port ≡ some sess
      → sess.rejected ≡ false
      → (url armor : Text) → prepare_overlay_post client to packet seq ≢ p1 url armor
  unfolding prepare_overlay_post peer_plan
  prepare_overlay_post-private client to packet seq sess live kept url armor =
      elim (Option-cases (get to client.peers)) [
        | inl missing ↦ rw missing (ground arith)
        | inr (keys, known) ↦
            rw known
              (entry_plan-Private client to packet seq keys client.entries sess live kept url armor)
      ]

  -- What a peer and port have where a batch for them can go into a pipe.
  pub record Occupies (client : Client) (to : PeerKey) (sess : DuplexSession) (key : Text) (tx : ℕ)
      : Type 0 where
    pub keys : PeerPgp
    pub known : get to client.peers ≡ some keys
    pub entry : Text
    pub others : List Text
    pub entries : client.entries ≡ entry ∷ others
    pub url : Text
    pub posts : post_url entry ≡ some url
    pub live : duplex_live_session client.duplex to.dest to.port ≡ some sess
    pub kept : sess.rejected ≡ false
    pub keyed : sess.key ≡ some key
    pub piped : sess.pipe_tx ≡ some tx

  abbrev unless_rejected : OverlayPostPlan → Bool → Option OverlayPostPlan
  unless_rejected plan b = if b then none else some plan

  into_pipe-sent :
      (queues queues' : Queues) (tx : ℕ) (blob : Text)
      → try_send tx blob queues ≡ some queues'
      → into_pipe queues tx (some blob) ≡ occupied queues'
  unfolding into_pipe
  into_pipe-sent queues queues' tx blob sent = rw (sent, into_pipe)

  pub prepare_overlay_post-occupied :
      (client : Client) (to : PeerKey) (packet : Bytes) (seq : ℕ) (sess : DuplexSession)
      (key : Text) (tx : ℕ) (blob : Text) (queues : Queues)
      → Occupies client to sess key tx
      → sealing.seal_frame key sess.session_id (Frame.encode seq packet) ≡ some blob
      → try_send tx blob client.queues ≡ some queues
      → prepare_overlay_post client to packet seq ≡ occupied queues
  unfolding prepare_overlay_post peer_plan entry_plan url_plan line_plan pipe_plan line_or_post
      into_pipe
  prepare_overlay_post-occupied client to packet seq sess key tx blob queues o sealed sent =
      ap (peer_plan client to packet seq) o.known
      ∙ ap (entry_plan client to packet seq o.keys) o.entries
      ∙ ap (url_plan client to packet seq o.keys) o.posts
      ∙ ap
          (λ l.
            line_or_post client to packet seq o.keys o.url (line_plan client.queues packet seq l))
          o.live
      ∙ ap (line_or_post client to packet seq o.keys o.url) (ap (unless_rejected _) o.kept)
      ∙ ap (λ k. pipe_plan client.queues packet seq sess.session_id k sess.pipe_tx) o.keyed
      ∙ ap (pipe_plan client.queues packet seq sess.session_id (some key)) o.piped
      ∙ ap (into_pipe client.queues tx) sealed
      ∙ into_pipe-sent client.queues queues tx blob sent
