-- ===== src/Message/Tests.antt =====
-- Tests and instances for the messages.
use co_net_l0d.Base.{
  ℕ, suc, ◌+◌, ◌≡◌, refl, sym, ◌∙◌, true, false, Bool, Option, none, some, List, [], ◌∷◌, ◌++◌,
  arith, length, replicate, Text, codes, unwrap_or, Bytes, IsBytes, as_bytes,
}
use co_net_l0d.Crates.PlainSerde.{plain_serde, plain_serde-IsSerde}
use co_net_l0d.Crates.PlainSealing.{plain_base64, plain_base64-IsBase64}
use co_net_l0d.Crates.PlainSecp.{plain_secp, plain_secp-IsSecp}
use co_net_l0d.Eoa.{normalize_eoa, duplex_normalize_eoa}
use co_net_l0d.Eoa.Sign.{address_of, recover_personal_sign}
use co_net_l0d.Duplex.Lines.{DuplexAccept, DuplexOffer}
use co_net_l0d.Message.Encode.{
  encode_offer_command_for_port, encode_accept_command, encode_reject_command,
}
use co_net_l0d.Message.Parse.{parse_offer_plain, parse_accept_plain, reject_plain}
use co_net_l0d.Message.RoundTrip.{parse_offer_plain-encode, parse_accept_plain-encode}
use co_net_l0d.Message.Signed.{
  signed_plain, parse_offer_from_inbound_plain, parse_accept_from_inbound_plain,
  verified_signed_message, parse_signed_or_raw, signed_or_raw_call,
}
use co_net_l0d.Message.Authority.{
  parse_offer_from_inbound_plain-Signed, parse_accept_from_inbound_plain-Signed,
}
use co_net_l0d.Message.Handshake.{
  parse_offer_from_inbound_plain-signed_plain, parse_accept_from_inbound_plain-signed_plain,
}
use co_net_l0d.Message.Nesting.{parse_signed_or_raw_total}

abbrev wallet : ℕ → Text
wallet c = codes "0x" ++ replicate 40 c

abbrev key : Bytes
key = replicate 32 7

abbrev chunk : Bytes
chunk = 1 ∷ 2 ∷ []

-- The address of secret 17.
abbrev own : Text
own = unwrap_or [] (address_of plain_secp 17)

abbrev offer_json : Text
offer_json = unwrap_or [] (
    encode_offer_command_for_port plain_serde plain_base64 (wallet b'A') own (wallet b'B')
      (wallet b'C') (wallet b'A') (codes "user") (codes "route") (wallet b'D') 8400 (codes "s1") key
      1000 (some chunk))

key-IsBytes : IsBytes key
key-IsBytes = ground arith

chunk-IsBytes : IsBytes chunk
chunk-IsBytes = ground arith

offer_written :
    encode_offer_command_for_port plain_serde plain_base64
      (wallet b'A')
      own
      (wallet b'B')
      (wallet b'C')
      (wallet b'A')
      (codes "user")
      (codes "route")
      (wallet b'D')
      8400
      (codes "s1")
      key
      1000
      (some chunk)
    ≡ some offer_json
unfolding encode_offer_command_for_port duplex_normalize_eoa co_net_l0d.Eoa.Sign.address_from_point
    co_net_l0d.Message.Encode.mailbox_field co_net_l0d.Base.insert
    co_net_l0d.Aes.key_to_standard_b64
offer_written = refl

parse_offer_plain-encode_example :
    (i b m p l : Text) × (duplex_normalize_eoa (wallet b'A') ≡ some i)
    × (duplex_normalize_eoa own ≡ some b)
    × (duplex_normalize_eoa (wallet b'B') ≡ some m)
    × (duplex_normalize_eoa (wallet b'C') ≡ some p)
    × (duplex_normalize_eoa (wallet b'A') ≡ some l)
    × (parse_offer_plain plain_base64 plain_serde offer_json
        ≡ some (record {
          session_id = codes "s1";
          main_wallet = m;
          peer_wallet = p;
          port = 8400;
          key = key;
          listen_wallet = l;
          listen_user_pgp = codes "user";
          listen_route_pgp = codes "route";
          listen_mailbox_wallet = unwrap_or [] (duplex_normalize_eoa (wallet b'D'));
          sender = i;
          billing_wallet = b;
          timestamp = 1000;
          first_chunk = chunk;
        }))
parse_offer_plain-encode_example =
    parse_offer_plain-encode plain_serde plain_base64 plain_serde-IsSerde plain_base64-IsBase64
      (wallet b'A') own (wallet b'B') (wallet b'C') (wallet b'A') (codes "user") (codes "route")
      (wallet b'D') 8400 (codes "s1") key 1000 (some chunk) offer_json (ground arith) key-IsBytes
      refl chunk-IsBytes offer_written

abbrev accept_json : Text
accept_json = unwrap_or [] (
    encode_accept_command plain_serde plain_base64 (wallet b'A') own (wallet b'A') (codes "user")
      (codes "route") [] (codes "s1") key 1000 none)

accept_written :
    encode_accept_command plain_serde plain_base64
      (wallet b'A')
      own
      (wallet b'A')
      (codes "user")
      (codes "route")
      []
      (codes "s1")
      key
      1000
      none
    ≡ some accept_json
unfolding encode_accept_command duplex_normalize_eoa co_net_l0d.Eoa.Sign.address_from_point
    co_net_l0d.Message.Encode.mailbox_field co_net_l0d.Base.insert
    co_net_l0d.Aes.key_to_standard_b64
accept_written = refl

parse_accept_plain-encode_example :
    (b l : Text) × (duplex_normalize_eoa own ≡ some b)
    × (duplex_normalize_eoa (wallet b'A') ≡ some l)
    × (parse_accept_plain plain_base64 plain_serde accept_json
        ≡ some (record {
          session_id = codes "s1";
          listen_wallet = l;
          listen_user_pgp = codes "user";
          listen_route_pgp = codes "route";
          listen_mailbox_wallet = unwrap_or [] (duplex_normalize_eoa []);
          billing_wallet = b;
          timestamp = 1000;
          key = key;
          response_chunk = [];
        }))
parse_accept_plain-encode_example =
    parse_accept_plain-encode plain_serde plain_base64 plain_serde-IsSerde plain_base64-IsBase64
      (wallet b'A') own (wallet b'A') (codes "user") (codes "route") [] (codes "s1") key 1000 none
      accept_json key-IsBytes refl tt accept_written

-- The signed wrapper of the offer, by secret 17, in base64.
abbrev offer_plain : Text
offer_plain = unwrap_or [] (signed_plain plain_serde plain_base64 plain_secp 17 own offer_json)

own_address : address_of plain_secp 17 ≡ some own
unfolding co_net_l0d.Eoa.Sign.address_from_point
own_address = refl

own_normal : normalize_eoa own ≡ some own
unfolding normalize_eoa co_net_l0d.Eoa.Sign.address_from_point
own_normal = refl

offer_signed : signed_plain plain_serde plain_base64 plain_secp 17 own offer_json ≡ some offer_plain
unfolding encode_offer_command_for_port duplex_normalize_eoa co_net_l0d.Eoa.Sign.address_from_point
    co_net_l0d.Message.Encode.mailbox_field co_net_l0d.Base.insert
    co_net_l0d.Aes.key_to_standard_b64 co_net_l0d.Base.get signed_plain co_net_l0d.Eoa.eoa_eq
    normalize_eoa co_net_l0d.Eoa.Sign.personal_sign
offer_signed = refl

parse_offer_from_inbound_plain-signed_plain_example :
    (offer : DuplexOffer) × (parse_offer_plain plain_base64 plain_serde offer_json ≡ some offer)
    × (parse_offer_from_inbound_plain plain_serde plain_base64 plain_secp offer_plain ≡ some offer)
parse_offer_from_inbound_plain-signed_plain_example =
    parse_offer_from_inbound_plain-signed_plain plain_serde plain_base64 plain_secp
      plain_serde-IsSerde plain_base64-IsBase64 plain_secp-IsSecp (wallet b'A') own (wallet b'B')
      (wallet b'C') (wallet b'A') (codes "user") (codes "route") (wallet b'D') 8400 (codes "s1") key
      1000 (some chunk) offer_json 17 own own offer_plain (ground arith) key-IsBytes refl
      chunk-IsBytes offer_written own_address own_normal offer_signed

-- The wallets in normal form.
abbrev offer : DuplexOffer
offer = record {
  session_id = codes "s1";
  main_wallet = wallet b'b';
  peer_wallet = wallet b'c';
  port = 8400;
  key = key;
  listen_wallet = wallet b'a';
  listen_user_pgp = codes "user";
  listen_route_pgp = codes "route";
  listen_mailbox_wallet = wallet b'd';
  sender = wallet b'a';
  billing_wallet = own;
  timestamp = 1000;
  first_chunk = chunk;
}

offer_read : parse_offer_plain plain_base64 plain_serde offer_json ≡ some offer
unfolding encode_offer_command_for_port duplex_normalize_eoa co_net_l0d.Eoa.Sign.address_from_point
    co_net_l0d.Message.Encode.mailbox_field co_net_l0d.Base.insert
    co_net_l0d.Aes.key_to_standard_b64 co_net_l0d.Base.get parse_offer_plain
    co_net_l0d.Aes.key_from_standard_b64
offer_read = refl

offer_taken :
    (o : DuplexOffer) × (parse_offer_plain plain_base64 plain_serde offer_json ≡ some o)
    × (parse_offer_from_inbound_plain plain_serde plain_base64 plain_secp offer_plain ≡ some o)
offer_taken =
    parse_offer_from_inbound_plain-signed_plain plain_serde plain_base64 plain_secp
      plain_serde-IsSerde plain_base64-IsBase64 plain_secp-IsSecp (wallet b'A') own (wallet b'B')
      (wallet b'C') (wallet b'A') (codes "user") (codes "route") (wallet b'D') 8400 (codes "s1") key
      1000 (some chunk) offer_json 17 own own offer_plain (ground arith) key-IsBytes refl
      chunk-IsBytes offer_written own_address own_normal offer_signed

offer_accepted :
    parse_offer_from_inbound_plain plain_serde plain_base64 plain_secp offer_plain ≡ some offer
offer_accepted = let (o, reads, taken) = offer_taken in taken ∙ sym reads ∙ offer_read

parse_offer_from_inbound_plain-Signed_example :
    (message signature signer : Text) × (verified_signed_message plain_serde plain_base64
        offer_plain
      ≡ some (message, signature))
    × (parse_offer_plain plain_base64 plain_serde message ≡ some offer)
    × (recover_personal_sign plain_secp (as_bytes message) signature ≡ some signer)
    × (normalize_eoa signer ≡ some own)
parse_offer_from_inbound_plain-Signed_example =
    parse_offer_from_inbound_plain-Signed plain_serde plain_base64 plain_secp offer_plain offer
      offer_accepted

-- An accept, signed by the same secret.
abbrev accept : DuplexAccept
accept = record {
  session_id = codes "s1";
  listen_wallet = wallet b'a';
  listen_user_pgp = codes "user";
  listen_route_pgp = codes "route";
  listen_mailbox_wallet = [];
  billing_wallet = own;
  timestamp = 1000;
  key = key;
  response_chunk = [];
}

abbrev accept_plain : Text
accept_plain = unwrap_or [] (signed_plain plain_serde plain_base64 plain_secp 17 own accept_json)

accept_read : parse_accept_plain plain_base64 plain_serde accept_json ≡ some accept
unfolding encode_accept_command duplex_normalize_eoa co_net_l0d.Eoa.Sign.address_from_point
    co_net_l0d.Message.Encode.mailbox_field co_net_l0d.Base.insert
    co_net_l0d.Aes.key_to_standard_b64 co_net_l0d.Base.get parse_accept_plain
    co_net_l0d.Aes.key_from_standard_b64
accept_read = refl

accept_signed :
    signed_plain plain_serde plain_base64 plain_secp 17 own accept_json ≡ some accept_plain
unfolding encode_accept_command duplex_normalize_eoa co_net_l0d.Eoa.Sign.address_from_point
    co_net_l0d.Message.Encode.mailbox_field co_net_l0d.Base.insert
    co_net_l0d.Aes.key_to_standard_b64 co_net_l0d.Base.get signed_plain co_net_l0d.Eoa.eoa_eq
    normalize_eoa co_net_l0d.Eoa.Sign.personal_sign
accept_signed = refl

accept_accepted :
    parse_accept_from_inbound_plain plain_serde plain_base64 plain_secp accept_plain ≡ some accept
accept_accepted =
    let (o, reads, taken) =
      parse_accept_from_inbound_plain-signed_plain plain_serde plain_base64 plain_secp
        plain_serde-IsSerde plain_base64-IsBase64 plain_secp-IsSecp (wallet b'A') own (wallet b'A')
        (codes "user") (codes "route") [] (codes "s1") key 1000 none accept_json 17 own own
        accept_plain key-IsBytes refl tt accept_written own_address own_normal accept_signed in
    taken ∙ sym reads ∙ accept_read

parse_accept_from_inbound_plain-Signed_example :
    (message signature signer : Text) × (verified_signed_message plain_serde plain_base64
        accept_plain
      ≡ some (message, signature))
    × (parse_accept_plain plain_base64 plain_serde message ≡ some accept)
    × (recover_personal_sign plain_secp (as_bytes message) signature ≡ some signer)
    × (normalize_eoa signer ≡ some own)
parse_accept_from_inbound_plain-Signed_example =
    parse_accept_from_inbound_plain-Signed plain_serde plain_base64 plain_secp accept_plain accept
      accept_accepted

-- A rejection inside of base64.
abbrev nested_reject : Text
nested_reject = plain_base64.encode (
    as_bytes (
      unwrap_or [] (
        encode_reject_command plain_serde (wallet b'A') (codes "s1") 1000 (codes "pool_full")
          true)))

parse_signed_or_raw_total_example :
    parse_signed_or_raw plain_serde plain_base64 (reject_plain plain_serde) nested_reject
    ≡ signed_or_raw_call plain_serde plain_base64
        (reject_plain plain_serde)
        (parse_signed_or_raw plain_serde plain_base64 (reject_plain plain_serde))
        nested_reject
parse_signed_or_raw_total_example =
    parse_signed_or_raw_total plain_serde plain_base64 plain_base64-IsBase64
      (reject_plain plain_serde) nested_reject
