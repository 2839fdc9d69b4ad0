-- ===== src/Message/Fields.antt =====
-- The fields of offers and accepts, read from the fields that are written.
use co_net_l0d.Base.{
  ℕ, ◌≤◌, ◌≡◌, refl, ◌∙◌, true, Option, none, some, [], ◌∷◌, arith, le→leb, length, Text, codes,
  trim, is_empty, get, insert, text_key, ◌>>=◌, >>=-eq-some, unwrap_or, Bytes, IsBytes, Bool-cases,
  inl, inr,
}
use co_net_l0d.Crates.{Serde, Base64, IsBase64}
use co_net_l0d.Eoa.{duplex_normalize_eoa}
use co_net_l0d.Eoa.Laws.{duplex_normalize_eoa_idem, duplex_normalize_eoa_blank}
use co_net_l0d.Aes.{key_len, key_from_standard_b64-key_to_standard_b64}
use co_net_l0d.Message.Encode.{mailbox_field, with_mailbox, with_chunk, offer_fields, accept_fields}
use co_net_l0d.Message.Parse.{offer_of, accept_of}

-- The chunk that a message brings.
abbrev pub IsChunk : Option Bytes → Type 0
IsChunk none = Unit {0}
IsChunk (some chunk) = IsBytes chunk

empty_text : (s : Text) → is_empty s ≡ true → s ≡ []
empty_text [] h = refl
empty_text (c ∷ s) h = absurd (ground arith)

-- What is written for a mailbox is what it normalizes to, and nothing where none is named.
pub mailbox_field-eq-some :
    (wallet : Text) (mailbox : Option Text)
    → mailbox_field wallet ≡ some mailbox
    → duplex_normalize_eoa wallet ≡ mailbox
unfolding mailbox_field
mailbox_field-eq-some wallet mailbox h = elim (Bool-cases (is_empty (trim wallet))) [
  | inl blank ↦
      duplex_normalize_eoa_blank wallet (empty_text (trim wallet) blank)
      ∙ (let e : none ≡ mailbox = ground arith in e)
  | inr named ↦
      let (w, e, k) =
        >>=-eq-some (duplex_normalize_eoa wallet) (λ w. some (some w))
          (let e : (duplex_normalize_eoa wallet >>= λ w. some (some w)) ≡ some mailbox =
              ground arith in
            e) in
      e ∙ ground arith
]

pub mailbox_idem :
    (wallet : Text) (mailbox : Option Text)
    → duplex_normalize_eoa wallet ≡ mailbox
    → (mailbox >>= duplex_normalize_eoa) ≡ mailbox
mailbox_idem wallet none h = refl
mailbox_idem wallet (some w) h = duplex_normalize_eoa_idem wallet w h

module _ (serde : Serde) (b64 : Base64) (laws : IsBase64 b64) where
  pub offer_of-offer_fields :
      (initiator billing main peer listen user_pgp route_pgp : Text) (port : ℕ) (session_id : Text)
      (key : Bytes) (timestamp : ℕ) (mailbox : Option Text) (chunk : Option Bytes)
      → duplex_normalize_eoa initiator ≡ some initiator
      → duplex_normalize_eoa billing ≡ some billing
      → duplex_normalize_eoa main ≡ some main
      → duplex_normalize_eoa peer ≡ some peer
      → duplex_normalize_eoa listen ≡ some listen
      → (mailbox >>= duplex_normalize_eoa) ≡ mailbox
      → port ≤ 65535
      → IsBytes key
      → length key ≡ key_len
      → IsChunk chunk
      → offer_of b64 (λ k. get k (
          with_chunk serde b64 (codes "firstChunk") chunk (
            with_mailbox mailbox (
              offer_fields serde b64 initiator billing main peer listen user_pgp route_pgp port
                session_id key timestamp))))
        ≡ some (record {
          session_id = session_id;
          main_wallet = main;
          peer_wallet = peer;
          port = port;
          key = key;
          listen_wallet = listen;
          listen_user_pgp = user_pgp;
          listen_route_pgp = route_pgp;
          listen_mailbox_wallet = unwrap_or [] mailbox;
          sender = initiator;
          billing_wallet = billing;
          timestamp = timestamp;
          first_chunk = unwrap_or [] chunk;
        })
  unfolding offer_of get insert
  offer_of-offer_fields initiator billing main peer listen user_pgp route_pgp port session_id key
        timestamp none none hi hb hm hp hl hx range bytes size ok =
      rw (key_from_standard_b64-key_to_standard_b64 b64 laws key bytes size)
        (rw (hi, hb, hm, hp, hl) (rw (le→leb port 65535 range) refl))
  offer_of-offer_fields initiator billing main peer listen user_pgp route_pgp port session_id key
        timestamp none (some c) hi hb hm hp hl hx range bytes size ok =
      rw (key_from_standard_b64-key_to_standard_b64 b64 laws key bytes size)
        (rw (hi, hb, hm, hp, hl) (rw (le→leb port 65535 range) (rw (laws.decode-encode c ok) refl)))
  offer_of-offer_fields initiator billing main peer listen user_pgp route_pgp port session_id key
        timestamp (some w) none hi hb hm hp hl hx range bytes size ok =
      rw (key_from_standard_b64-key_to_standard_b64 b64 laws key bytes size)
        (rw (hi, hb, hm, hp, hl) (rw (le→leb port 65535 range) (rw hx refl)))
  offer_of-offer_fields initiator billing main peer listen user_pgp route_pgp port session_id key
        timestamp (some w) (some c) hi hb hm hp hl hx range bytes size ok =
      rw (key_from_standard_b64-key_to_standard_b64 b64 laws key bytes size) (
        rw (hi, hb, hm, hp, hl)
          (rw (le→leb port 65535 range) (rw (laws.decode-encode c ok) (rw hx refl))))

  pub accept_of-accept_fields :
      (responder billing listen user_pgp route_pgp session_id : Text) (key : Bytes) (timestamp : ℕ)
      (mailbox : Option Text) (chunk : Option Bytes)
      → duplex_normalize_eoa responder ≡ some responder
      → duplex_normalize_eoa billing ≡ some billing
      → duplex_normalize_eoa listen ≡ some listen
      → (mailbox >>= duplex_normalize_eoa) ≡ mailbox
      → IsBytes key
      → length key ≡ key_len
      → IsChunk chunk
      → accept_of b64 (λ k. get k (
          with_chunk serde b64 (codes "responseChunk") chunk (
            with_mailbox mailbox (
              accept_fields serde b64 responder billing listen user_pgp route_pgp session_id key
                timestamp))))
        ≡ some (record {
          session_id = session_id;
          listen_wallet = listen;
          listen_user_pgp = user_pgp;
          listen_route_pgp = route_pgp;
          listen_mailbox_wallet = unwrap_or [] mailbox;
          billing_wallet = billing;
          timestamp = timestamp;
          key = key;
          response_chunk = unwrap_or [] chunk;
        })
  unfolding accept_of get insert
  accept_of-accept_fields responder billing listen user_pgp route_pgp session_id key timestamp none
        none hr hb hl hx bytes size ok =
      rw (key_from_standard_b64-key_to_standard_b64 b64 laws key bytes size) (rw (hr, hb, hl) refl)
  accept_of-accept_fields responder billing listen user_pgp route_pgp session_id key timestamp none
        (some c) hr hb hl hx bytes size ok =
      rw (key_from_standard_b64-key_to_standard_b64 b64 laws key bytes size)
        (rw (hr, hb, hl) (rw (laws.decode-encode c ok) refl))
  accept_of-accept_fields responder billing listen user_pgp route_pgp session_id key timestamp
        (some w) none hr hb hl hx bytes size ok =
      rw (key_from_standard_b64-key_to_standard_b64 b64 laws key bytes size)
        (rw (hr, hb, hl) (rw hx refl))
  accept_of-accept_fields responder billing listen user_pgp route_pgp session_id key timestamp
        (some w) (some c) hr hb hl hx bytes size ok =
      rw (key_from_standard_b64-key_to_standard_b64 b64 laws key bytes size)
        (rw (hr, hb, hl) (rw (laws.decode-encode c ok) (rw hx refl)))
