-- ===== src/Eoa/Tests.antt =====
-- Tests and instances for wallet addresses.
use co_net_l0d.Base.{◌≡◌, refl, ◌↔◌, ◌⊎◌, true, false, none, some, Text, codes, to_lowercase}
use co_net_l0d.Eoa.{normalize_eoa, eoa_eq, duplex_normalize_eoa}
use co_net_l0d.Eoa.Digits.{HasDigits, IsNoAddress, eoa_eq_iff}
use co_net_l0d.Eoa.Laws.{duplex_normalize_eoa_agrees}

abbrev mixed : Text
mixed = codes "0xABCDEF1111111111111111111111111111111111"

abbrev small : Text
small = codes "0xabcdef1111111111111111111111111111111111"

addresses :
    (normalize_eoa mixed ≡ some small)
    × (normalize_eoa (codes "0x1111") ≡ none)
    × (eoa_eq mixed small ≡ true)
    × (eoa_eq (codes "web3") (codes "") ≡ true)
    × (eoa_eq (codes "web3") small ≡ false)
    × (duplex_normalize_eoa (codes " abcdef1111111111111111111111111111111111 ") ≡ some small)
unfolding normalize_eoa eoa_eq duplex_normalize_eoa
addresses = (refl, refl, refl, refl, refl, refl)

duplex_normalize_eoa_agrees_example : duplex_normalize_eoa mixed ≡ some small
duplex_normalize_eoa_agrees_example = duplex_normalize_eoa_agrees mixed small addresses.0

eoa_eq_iff_example : (eoa_eq mixed small ≡ true) ↔ (
    ((x : Text) × (y : Text) × HasDigits mixed x
      × HasDigits small y
      × (to_lowercase x ≡ to_lowercase y))
    ⊎ (IsNoAddress mixed × IsNoAddress small))
eoa_eq_iff_example = eoa_eq_iff mixed small
