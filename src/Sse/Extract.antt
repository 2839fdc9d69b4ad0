-- ===== src/Sse/Extract.antt =====
-- What a frame of a listen stream carries: `sse_or_raw_payload`, `clip_pgp_armor`, `armor_from_si_json`,
-- `extract_armors_from_frame` and `extract_pgp_armors_from_sse` of src/l0/listen.rs.
use co_net_l0d.Base.{
  ℕ, ◌+◌, Bool, true, false, not, ◌&&◌, ◌||◌, Option, none, some, List, [], ◌∷◌, ◌++◌, ◌==◌,
  if◌then◌else◌, is_empty, is_some, length, take, drop, Text, codes, len, starts_with, strip_prefix,
  strip_suffix, trim, trim_start, trim_end, to_lowercase, contains_text, ◌>>=◌, ◌>>◌, guard,
  unwrap_or, concat,
}
use co_net_l0d.Crates.{Serde, Base64}
use co_net_l0d.Message.{str_at, bool_at, document}
use co_net_l0d.Message.Parse.{
  looks_like_aes_blob, parse_l0_occupied, parse_duplex_frame_json, parse_accept_plain,
}
use co_net_l0d.Message.Signed.{parse_reject}
use co_net_l0d.Sse.{find_text, data_of}

-- `str::lines`: a line ends before its `\n` or `\r\n`.
abbrev pub line_before : ℕ → List Text → List Text
line_before c [] = (c ∷ []) ∷ []
line_before c (l ∷ ls) = (c ∷ l) ∷ ls

unfoldable pub lines : Text → List Text
lines [] = []
lines (c ∷ s) =
    let rest = lines s in
    if c == b'\n'
    then [] ∷ rest
    else if c == 13 && starts_with (codes "\n") s
    then rest
    else line_before c rest

-- The loop of `sse_or_raw_payload`: the data lines, and whether one continues another.
abbrev pub data_line : List Text → Bool → Text → Option Text → List Text × Bool
data_line got continuations line (some rest) = (got ++ trim_start rest ∷ [], continuations)
data_line got continuations line none =
    if is_empty got then (got, continuations) else (got ++ line ∷ [], true)

abbrev pub data_step : List Text → Bool → Text → List Text × Bool
data_step got continuations line =
    if is_empty line || starts_with (codes ":") line
    then (got, continuations)
    else data_line got continuations line (strip_prefix (codes "data:") line)

unfoldable pub data_lines : List Text → List Text → Bool → List Text × Bool
data_lines [] got continuations = (got, continuations)
data_lines (raw ∷ rest) got continuations =
    let (more, joined) = data_step got continuations (trim_end raw) in data_lines rest more joined

-- `join("\n")`
abbrev pub join_lines : List Text → Text
join_lines [] = []
join_lines (l ∷ []) = l
join_lines (l ∷ k ∷ ls) = l ++ b'\n' ∷ join_lines (k ∷ ls)

abbrev pub payload_of : Text → List Text × Bool → Text
payload_of block (got, continuations) =
    if is_empty got then trim block else if continuations then concat got else join_lines got

unfoldable pub sse_or_raw_payload : Text → Text
unfolding data_lines lines
sse_or_raw_payload block = payload_of block (data_lines (lines block) [] false)

abbrev pub begin_mark : Text
begin_mark = codes "-----BEGIN PGP MESSAGE-----"

abbrev pub end_mark : Text
end_mark = codes "-----END PGP MESSAGE-----"

-- `is_pgp_message_armor` of src/l0/pgp.rs
abbrev pub is_pgp_message_armor : Text → Bool
is_pgp_message_armor raw = contains_text begin_mark raw

abbrev pub with_newline : Text → Text
with_newline armor =
    if is_some (strip_suffix (codes "\n") armor) then armor else armor ++ b'\n' ∷ []

unfoldable pub clip_pgp_armor : Text → Option Text
clip_pgp_armor raw = do
  first ← find_text begin_mark raw
  let rest = drop first raw
  end ← find_text end_mark rest
  let armor = with_newline (take (end + length end_mark) rest)
  guard (is_pgp_message_armor armor)
  some armor

-- One line of `extract_pgp_armors_from_sse`: the armor that it completes, the one that is being read, and
-- whether one is.
abbrev pub armor_line : Text → Text → Bool → List Text × Text × Bool
armor_line line current in_armor =
    let begins = contains_text begin_mark line in
    let armor = (if begins then [] else current) ++ line ++ b'\n' ∷ [] in
    if not begins && not in_armor
    then ([], current, false)
    else if not (contains_text end_mark line)
    then ([], armor, true)
    else if is_pgp_message_armor armor
    then (armor ∷ [], [], false)
    else ([], [], false)

unfoldable pub armors_from_lines : List Text → Text → Bool → List Text
armors_from_lines [] current in_armor = []
armors_from_lines (raw_line ∷ rest) current in_armor =
    let line = data_of raw_line (strip_prefix (codes "data:") raw_line) in
    let (out, next, inside) = armor_line line current in_armor in
    out ++ armors_from_lines rest next inside

unfoldable pub extract_pgp_armors_from_sse : Text → List Text
unfolding armors_from_lines lines
extract_pgp_armors_from_sse chunk = armors_from_lines (lines chunk) [] false

module _ (serde : Serde) where
  unfoldable pub parse_l0_listen_handshake : Text → Option Text
  parse_l0_listen_handshake payload = do
    v ← document serde (trim payload)
    guard (unwrap_or false (bool_at v (codes "ok")))
    raw ← str_at v (codes "nodeWallet")
    let wallet = trim raw
    guard (len wallet == 42 && starts_with (codes "0x") wallet)
    some (to_lowercase wallet)

  unfoldable pub armor_from_si_json : Text → Option Text
  unfolding clip_pgp_armor
  armor_from_si_json payload = do
    v ← document serde (trim payload)
    data_text ← str_at v (codes "data")
    clip_pgp_armor data_text

  module _ (b64 : Base64) where
    -- JSON that the client handles itself.
    abbrev pub is_app_json : Text → Bool
    is_app_json trimmed =
        starts_with (codes "{") trimmed
        && (is_some (parse_l0_listen_handshake trimmed)
            || is_some (parse_duplex_frame_json serde trimmed)
            || is_some (parse_accept_plain b64 serde trimmed)
            || is_some (parse_reject serde b64 trimmed)
            || parse_l0_occupied serde trimmed
            || contains_text (codes "\"duplex_offer\"") trimmed)

    abbrev pub carried : Text → Text → Option Text → List Text
    carried frame payload (some armor) = armor ∷ []
    carried frame payload none =
        if is_app_json (trim payload) || looks_like_aes_blob b64 (trim payload)
        then trim payload ∷ []
        else extract_pgp_armors_from_sse frame

    unfoldable pub extract_armors_from_frame : Text → List Text
    unfolding sse_or_raw_payload armor_from_si_json extract_pgp_armors_from_sse
    extract_armors_from_frame frame =
        let payload = sse_or_raw_payload frame in carried frame payload (armor_from_si_json payload)
