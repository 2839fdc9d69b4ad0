-- ===== src/Message/Authority.antt =====
-- Whom an accepted offer or accept comes from: the wallet that signed it is the billing wallet it names.
use co_net_l0d.Base.{
  ◌≡◌, ap, ◌∙◌, some, Text, codes, leb, ◌>>=◌, >>=-eq-some, guard-eq-some, unwrap_or, as_bytes,
  or_else, trim,
}
use co_net_l0d.Crates.{Serde, Base64, Secp}
use co_net_l0d.Eoa.{normalize_eoa, eoa_eq, duplex_normalize_eoa}
use co_net_l0d.Eoa.Laws.{eoa_eq-normal, duplex_normalize_eoa-normal}
use co_net_l0d.Eoa.Sign.{recover_personal_sign}
use co_net_l0d.Aes.{key_from_standard_b64}
use co_net_l0d.Duplex.Lines.{DuplexAccept, DuplexOffer}
use co_net_l0d.Message.{Lookup, str_at, nat_at, is_word, document}
use co_net_l0d.Message.Parse.{
  offer_of, accept_of, parse_offer_plain, parse_accept_plain, wallet_at, chunk_at,
}
use co_net_l0d.Message.Signed.{
  verified_signed_message, parse_offer_from_inbound_plain, parse_accept_from_inbound_plain,
}

module _ (b64 : Base64) where
  -- The billing wallet of an offer is the normal form of what it names, or of its sender.
  pub offer_of-billing :
      (v : Lookup) (offer : DuplexOffer)
      → offer_of b64 v ≡ some offer
      → (sender : Text) × (duplex_normalize_eoa
            (unwrap_or sender (str_at v (codes "billingWallet")))
          ≡ some offer.billing_wallet)
  unfolding offer_of
  offer_of-billing v offer h =
      let (_, h1) =
        guard-eq-some (is_word (codes "duplex_offer") (str_at v (codes "command"))) _ h in
      let (_, _, h2) = >>=-eq-some (str_at v (codes "pipe_handle")) _ h1 in
      let (raw, _, h3) = >>=-eq-some (str_at v (codes "Securitykey")) _ h2 in
      let (_, _, h4) = >>=-eq-some (key_from_standard_b64 b64 raw) _ h3 in
      let (_, _, h5) =
        >>=-eq-some
          (wallet_at (or_else (str_at v (codes "listenWallet")) (str_at v (codes "walletAddress"))))
          _ h4 in
      let (sender, _, h6) = >>=-eq-some (wallet_at (str_at v (codes "walletAddress"))) _ h5 in
      let (billing, e, h7) =
        >>=-eq-some (duplex_normalize_eoa (unwrap_or sender (str_at v (codes "billingWallet")))) _
          h6 in
      let (_, _, h8) =
        >>=-eq-some
          (wallet_at (or_else (str_at v (codes "mainWallet")) (str_at v (codes "walletAddress")))) _
          h7 in
      let (_, _, h9) = >>=-eq-some (wallet_at (str_at v (codes "peerWallet"))) _ h8 in
      let (port, _, h10) = >>=-eq-some (nat_at v (codes "port")) _ h9 in
      let (_, h11) = guard-eq-some (leb port 65535) _ h10 in
      let (_, _, h12) = >>=-eq-some (nat_at v (codes "timestamp")) _ h11 in
      let (_, _, h13) = >>=-eq-some (chunk_at b64 (str_at v (codes "firstChunk"))) _ h12 in
      let same : billing ≡ offer.billing_wallet =
        ap (λ o. unwrap_or billing (o >>= λ (x : DuplexOffer). some x.billing_wallet)) h13 in
      (sender, e ∙ ap some same)

  pub accept_of-billing :
      (v : Lookup) (accept : DuplexAccept)
      → accept_of b64 v ≡ some accept
      → (sender : Text) × (duplex_normalize_eoa
            (unwrap_or sender (str_at v (codes "billingWallet")))
          ≡ some accept.billing_wallet)
  unfolding accept_of
  accept_of-billing v accept h =
      let (_, h1) =
        guard-eq-some (is_word (codes "duplex_accept") (str_at v (codes "command"))) _ h in
      let (_, _, h2) = >>=-eq-some (str_at v (codes "pipe_handle")) _ h1 in
      let (_, _, h3) =
        >>=-eq-some
          (wallet_at (or_else (str_at v (codes "listenWallet")) (str_at v (codes "walletAddress"))))
          _ h2 in
      let (sender, _, h4) = >>=-eq-some (wallet_at (str_at v (codes "walletAddress"))) _ h3 in
      let (billing, e, h5) =
        >>=-eq-some (duplex_normalize_eoa (unwrap_or sender (str_at v (codes "billingWallet")))) _
          h4 in
      let (raw, _, h6) = >>=-eq-some (str_at v (codes "Securitykey")) _ h5 in
      let (_, _, h7) = >>=-eq-some (key_from_standard_b64 b64 raw) _ h6 in
      let (_, _, h8) = >>=-eq-some (nat_at v (codes "timestamp")) _ h7 in
      let (_, _, h9) = >>=-eq-some (chunk_at b64 (str_at v (codes "responseChunk"))) _ h8 in
      let same : billing ≡ accept.billing_wallet =
        ap (λ o. unwrap_or billing (o >>= λ (x : DuplexAccept). some x.billing_wallet)) h9 in
      (sender, e ∙ ap some same)

module _ (serde : Serde) (b64 : Base64) (secp : Secp) where
  -- An offer is accepted only out of a signed wrapper whose message is the offer and whose signature
  -- recovers an address with the billing wallet of the offer as its normal form.
  pub parse_offer_from_inbound_plain-Signed :
      (plain : Text) (offer : DuplexOffer)
      → parse_offer_from_inbound_plain serde b64 secp plain ≡ some offer
      → (message signature signer : Text) × (verified_signed_message serde b64 plain
          ≡ some (message, signature))
        × (parse_offer_plain b64 serde message ≡ some offer)
        × (recover_personal_sign secp (as_bytes message) signature ≡ some signer)
        × (normalize_eoa signer ≡ some offer.billing_wallet)
  unfolding parse_offer_from_inbound_plain parse_offer_plain
  parse_offer_from_inbound_plain-Signed plain offer h =
      let ((message, signature), verified, h1) =
        >>=-eq-some (verified_signed_message serde b64 plain) _ h in
      let (got, parsed, h2) = >>=-eq-some (parse_offer_plain b64 serde message) _ h1 in
      let (signer, recovered, h3) =
        >>=-eq-some (recover_personal_sign secp (as_bytes message) signature) _ h2 in
      let (equal, h4) = guard-eq-some (eoa_eq signer got.billing_wallet) _ h3 in
      let same : got ≡ offer = ap (unwrap_or got) h4 in
      let (v, _, read) = >>=-eq-some (document serde (trim message)) (offer_of b64) parsed in
      let (_, billing) = offer_of-billing b64 v got read in
      let signed =
        eoa_eq-normal signer got.billing_wallet equal
          (duplex_normalize_eoa-normal _ got.billing_wallet billing) in
      (
        message,
        signature,
        signer,
        verified,
        parsed ∙ ap some same,
        recovered,
        signed ∙ ap (λ (o : DuplexOffer). some o.billing_wallet) same,
      )

  -- And so is an accept.
  pub parse_accept_from_inbound_plain-Signed :
      (plain : Text) (accept : DuplexAccept)
      → parse_accept_from_inbound_plain serde b64 secp plain ≡ some accept
      → (message signature signer : Text) × (verified_signed_message serde b64 plain
          ≡ some (message, signature))
        × (parse_accept_plain b64 serde message ≡ some accept)
        × (recover_personal_sign secp (as_bytes message) signature ≡ some signer)
        × (normalize_eoa signer ≡ some accept.billing_wallet)
  unfolding parse_accept_from_inbound_plain parse_accept_plain
  parse_accept_from_inbound_plain-Signed plain accept h =
      let ((message, signature), verified, h1) =
        >>=-eq-some (verified_signed_message serde b64 plain) _ h in
      let (got, parsed, h2) = >>=-eq-some (parse_accept_plain b64 serde message) _ h1 in
      let (signer, recovered, h3) =
        >>=-eq-some (recover_personal_sign secp (as_bytes message) signature) _ h2 in
      let (equal, h4) = guard-eq-some (eoa_eq signer got.billing_wallet) _ h3 in
      let same : got ≡ accept = ap (unwrap_or got) h4 in
      let (v, _, read) = >>=-eq-some (document serde (trim message)) (accept_of b64) parsed in
      let (_, billing) = accept_of-billing b64 v got read in
      let signed =
        eoa_eq-normal signer got.billing_wallet equal
          (duplex_normalize_eoa-normal _ got.billing_wallet billing) in
      (
        message,
        signature,
        signer,
        verified,
        parsed ∙ ap some same,
        recovered,
        signed ∙ ap (λ (o : DuplexAccept). some o.billing_wallet) same,
      )
