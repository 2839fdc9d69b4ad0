-- ===== src/Duplex/Offer/Allocate.antt =====
-- The allocation of a new proxy line in `apply_duplex_offer`, for an offer that matches no line.
use co_net_l0d.Base.{
  ℕ, Bool, true, false, not, ◌&&◌, Option, none, some, List, ◌∷◌, is_empty, if◌then◌else◌, Text,
  eq_ignore_case, get, insert, nat_eq,
}
use co_net_l0d.Eoa.{eoa_eq}
use co_net_l0d.Duplex.Session.{
  DuplexSession, duplex_key_of, duplex_key_eq, is_blank, unspecified, proxy,
}
use co_net_l0d.Duplex.Lines.{DuplexOffer}
use co_net_l0d.Duplex.Wire.{
  ChannelWire, ProxyMode, request_response, duplex, Host, OfferAction, nothing, handshake,
}

-- `arrived_on_main_wallet_port`: the armor was decrypted by the wallet of this port.
abbrev pub arrived_on : ChannelWire → Option Text → Bool
arrived_on wire none = false
arrived_on wire (some wallet) = eoa_eq wallet wire.eoa

abbrev pub is_duplex : Option ProxyMode → Bool
is_duplex none = false
is_duplex (some request_response) = false
is_duplex (some duplex) = true

-- The conditions under which an offer may open a line.
unfoldable pub may_allocate : Host → DuplexOffer → Option Text → ChannelWire → Bool
may_allocate host offer ingress wire =
    eq_ignore_case wire.main_wallet offer.main_wallet
    && arrived_on wire ingress
    && eoa_eq offer.sender offer.listen_wallet
    && eoa_eq offer.peer_wallet offer.main_wallet
    && (not (is_blank offer.listen_user_pgp) && not (is_blank offer.listen_route_pgp))
    && not (is_empty offer.first_chunk)
    && is_duplex (host.proxy_mode offer.port)

-- The identity of the new line, from the pool or else made anew, with the pools that are left and
-- whether it already listens.
unfoldable pub identity_from :
    Option (List Text)
    → Option Text
    → ℕ
    → List (ℕ × List Text)
    → Option (Text × Bool) × List (ℕ × List Text)
identity_from (some (wallet ∷ ready)) generated port pools =
    (some (wallet, true), insert port ready pools)
identity_from _ none port pools = (none, pools)
identity_from _ (some wallet) port pools = (some (wallet, false), pools)

-- The line as it is allocated.
abbrev pub new_line : DuplexOffer → ℕ → Text → DuplexSession
new_line offer now identity = record {
  session_id = offer.session_id;
  role = proxy;
  created_at = now;
  key = some offer.key;
  dest = unspecified;
  port = offer.port;
  peer_eoa = offer.billing_wallet;
  peer_attached = true;
  rejected = false;
  host_eoa = offer.main_wallet;
  peer_listen_user_pgp = some offer.listen_user_pgp;
  peer_listen_route_pgp = some offer.listen_route_pgp;
  peer_listen_wallet = some offer.listen_wallet;
  peer_listen_mailbox_wallet =
      if not (is_blank offer.listen_mailbox_wallet) then some offer.listen_mailbox_wallet else none;
  accept_identity = some identity;
  peer_return_attached = false;
  response_chunk_delivered = false;
  pipe_tx = none;
  pipe_gen = 0;
  pipe_connect_inflight = false;
  pipe_cancel = none;
}

abbrev pub shake : ChannelWire → DuplexOffer → ℕ → Text → Bool → OfferAction
shake wire offer now identity listen_ready =
    handshake wire offer.listen_wallet offer.listen_route_pgp (new_line offer now identity)
      offer.listen_user_pgp offer.first_chunk listen_ready

unfoldable pub open_line :
    Host
    → DuplexOffer
    → ℕ
    → ChannelWire
    → Option (Text × Bool) × List (ℕ × List Text)
    → Host × OfferAction
open_line host offer now wire (none, pools) = (record host { ready_identities = pools }, nothing)
open_line host offer now wire (some (identity, listen_ready), pools) =
    let line = new_line offer now identity in
    (
      record host {
        duplex = insert (duplex_key_of line) line host.duplex;
        ready_identities = pools;
      },
      shake wire offer now identity listen_ready,
    )

unfoldable pub allocate_on :
    Host → DuplexOffer → Option Text → ℕ → Option Text → Option ChannelWire → Host × OfferAction
allocate_on host offer ingress now generated none = (host, nothing)
allocate_on host offer ingress now generated (some wire) =
    if may_allocate host offer ingress wire
    then open_line host offer now wire (
        identity_from (get offer.port host.ready_identities) generated offer.port
          host.ready_identities)
    else (host, nothing)

-- `generated` is what `TemporaryIdentity::generate` returns if it is called.
unfoldable pub allocate : Host → DuplexOffer → Option Text → ℕ → Option Text → Host × OfferAction
unfolding allocate_on open_line identity_from
allocate host offer ingress now generated =
    allocate_on host offer ingress now generated (get offer.port host.channel_wire)
