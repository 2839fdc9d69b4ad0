-- ===== src/Duplex/Wire.antt =====
-- What the client of src/l0/client.rs knows beside its lines: the wire of each port, the prepared
-- identities, and the proxy ports. The keys and entries of a wire serve only the network.
use co_net_l0d.Base.{ℕ, Option, List, Bool, Text, Bytes}
use co_net_l0d.Duplex.Session.{DuplexSession, Sessions}

pub record ChannelWire : Type 0 where
  pub eoa : Text
  pub main_wallet : Text

pub data ProxyMode : Type 0 where
  request_response duplex : ProxyMode

pub record Host : Type 0 where
  pub duplex : Sessions
  pub raised : List ℕ
  pub channel_wire : List (ℕ × ChannelWire)
  pub ready_identities : List (ℕ × List Text)
  -- `ProxyRegistry::mode`
  pub proxy_mode : ℕ → Option ProxyMode

pub data OfferAction : Type 0 where
  nothing : OfferAction
  -- wire, listen wallet and route key of the initiator, line, user key
  send_accept : ChannelWire → Text → Text → DuplexSession → Text → OfferAction
  -- the same with the first chunk and whether the identity already listens
  handshake : ChannelWire → Text → Text → DuplexSession → Text → Bytes → Bool → OfferAction
  -- wire, listen wallet, route key, AES key, session id
  send_reject : ChannelWire → Text → Text → Text → Text → OfferAction
