-- ===== src/Duplex/Offer.antt =====
-- `apply_duplex_offer` of src/l0/client.rs, up to what it starts: the accept of a line, the handshake
-- of a new proxy line, or a reject are returned as an action.
pub mod Match
pub mod Allocate
pub mod Replay
pub mod Authority
pub mod Keyed
use co_net_l0d.Base.{
  ℕ, Bool, true, false, not, ◌&&◌, Option, none, some, List, Text, if◌then◌else◌, get, nat_eq,
}
use co_net_l0d.Eoa.{eoa_eq}
use co_net_l0d.Duplex.Session.{Sessions, is_blank, duplex_offer_is_expired}
use co_net_l0d.Duplex.Lines.{DuplexOffer}
use co_net_l0d.Duplex.Wire.{
  ChannelWire, Host, OfferAction, nothing, send_accept, handshake, send_reject,
}
use Match.{Matched, unmatched, duplicate, updated, match_offer}
use Allocate.{allocate}

unfoldable pub reject_on : DuplexOffer → Option ChannelWire → OfferAction
reject_on offer none = nothing
reject_on offer (some wire) =
    if eoa_eq wire.main_wallet offer.main_wallet && not (is_blank offer.listen_route_pgp)
    then send_reject wire offer.listen_wallet offer.listen_route_pgp offer.key offer.session_id
    else nothing

-- The end of the handler: what was prepared is started, and where nothing was the offer is rejected.
unfoldable pub finish : Host → DuplexOffer → OfferAction → OfferAction
finish host offer nothing = reject_on offer (get offer.port host.channel_wire)
finish host offer action = action

unfoldable pub after_loop :
    Host → DuplexOffer → Option Text → ℕ → Option Text → Matched → Host × OfferAction
after_loop host offer ingress now generated unmatched =
    let (host', action) = allocate host offer ingress now generated in
    (host', finish host' offer action)
after_loop host offer ingress now generated (duplicate sessions) =
    (record host { duplex = sessions }, nothing)
after_loop host offer ingress now generated (updated sessions raised action) =
    (record host { duplex = sessions; raised = raised }, finish host offer action)

-- `ingress` is the wallet whose key decrypted the armor, and `generated` what
-- `TemporaryIdentity::generate` returns if it is called.
unfoldable pub apply_duplex_offer :
    Host → DuplexOffer → Option Text → ℕ → Option Text → Host × OfferAction
unfolding after_loop finish reject_on
apply_duplex_offer host offer ingress now generated =
    if duplex_offer_is_expired offer.timestamp now
    then (host, nothing)
    else after_loop host offer ingress now generated
        (match_offer host.channel_wire offer now host.duplex host.raised)
