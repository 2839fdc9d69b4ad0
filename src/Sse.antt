-- ===== src/Sse.antt =====
-- The framing of a listen stream in src/l0/listen.rs: server-sent events are cut out of a buffer, comments
-- are dropped, and what a frame carries is extracted. A position is a number of characters.
pub mod Extract
pub mod Find
pub mod Frames
pub mod Pump
pub mod Blobs
mod Tests
use co_net_l0d.Base.{
  ℕ, zero, suc, ◌+◌, ◌-◌, Bool, true, false, not, ◌&&◌, ◌||◌, Option, none, some, List, [], ◌∷◌,
  ◌++◌, ltb, leb, ◌==◌, if◌then◌else◌, is_empty, length, take, drop, all, Text, codes, len,
  starts_with, strip_prefix, trim, trim_start, contains_text, unwrap_or,
}
use co_net_l0d.Crates.{is_base64}

-- `str::find` of a text.
unfoldable pub find_from : ℕ → Text → Text → Option ℕ
find_from i pat [] = if starts_with pat [] then some i else none
find_from i pat (c ∷ s) = if starts_with pat (c ∷ s) then some i else find_from (suc i) pat s

unfoldable pub find_text : Text → Text → Option ℕ
unfolding find_from
find_text pat s = find_from 0 pat s

abbrev pub crlf_crlf : Text
crlf_crlf = 13 ∷ 10 ∷ 13 ∷ 10 ∷ []

abbrev pub lf_lf : Text
lf_lf = 10 ∷ 10 ∷ []

-- Where a comment that starts at `i` ends.
abbrev pub comment_end : ℕ → Option ℕ → Option ℕ → Option (ℕ × ℕ)
comment_end i (some rel) lf = some (i, i + rel + 4)
comment_end i none (some rel) = some (i, i + rel + 2)
comment_end i none none = none

-- The walk of `next_complete_sse_comment`; `at_line` says that a line starts here.
unfoldable pub comment_from : ℕ → Bool → Text → Option (ℕ × ℕ)
comment_from i at_line [] = none
comment_from i at_line (c ∷ s) =
    let later = comment_from (suc i) (c == b'\n') s in
    if at_line && c == b':'
    then comment_end i (find_text crlf_crlf (c ∷ s)) (find_text lf_lf (c ∷ s))
    else later

unfoldable pub next_complete_sse_comment : Text → Option (ℕ × ℕ)
unfolding comment_from
next_complete_sse_comment buf = comment_from 0 true buf

-- `strip_complete_sse_comments`; each round takes a character out at least, so that the length of the
-- buffer is fuel enough.
unfoldable pub strip_rounds : ℕ → Text → Text
strip_rounds zero buf = buf
strip_rounds (suc n) buf = elim (next_complete_sse_comment buf) [
  | none ↦ buf
  | some (first, end) ↦ strip_rounds n (take first buf ++ drop end buf)
]

unfoldable pub strip_complete_sse_comments : Text → Text
unfolding strip_rounds
strip_complete_sse_comments buf = strip_rounds (length buf) buf

-- `lines().next()`, less the end of the line.
unfoldable pub first_line : Text → Text
first_line [] = []
first_line (c ∷ s) = if c == b'\n' then [] else c ∷ first_line s

-- `t.strip_prefix("data:").map(str::trim_start).unwrap_or(t)`
abbrev pub data_of : Text → Option Text → Text
data_of t none = t
data_of t (some rest) = trim_start rest

unfoldable pub is_pending_aes_sse : Text → Bool
is_pending_aes_sse buffer =
    let t = trim_start buffer in
    let head = trim (first_line (data_of t (strip_prefix (codes "data:") t))) in
    not (is_empty head)
    && not (starts_with (codes "{") head)
    && not (starts_with (codes "-----") head)
    && all is_base64 (take 16 head)

abbrev pub earlier : Option ℕ → Option ℕ → Option (ℕ × ℕ)
earlier (some a) (some b) = if leb a b then some (a, 4) else some (b, 2)
earlier (some a) none = some (a, 4)
earlier none (some b) = some (b, 2)
earlier none none = none

unfoldable pub find_frame_end : Text → Option (ℕ × ℕ)
find_frame_end buffer =
    if is_pending_aes_sse buffer
    then earlier (find_text crlf_crlf buffer) none
    else earlier (find_text crlf_crlf buffer) (find_text lf_lf buffer)

-- `extract` is `extract_armors_from_frame`.
module _ (extract : Text → List Text) where
  -- What becomes of a buffer by the end of its first frame, with the rounds that follow.
  abbrev pub drained : (Text → List Text × Text) → Text → Option (ℕ × ℕ) → List Text × Text
  drained again buf none = ([], buf)
  drained again buf (some (end, sep)) =
      let (out, rest) = again (drop (end + sep) buf) in (extract (take end buf) ++ out, rest)

  -- The loop of `drain_sse_armors`, with what is left of the buffer. A frame is a character long at
  -- least, so that the length of the buffer is fuel enough.
  unfoldable pub drain_rounds : ℕ → Text → List Text × Text
  drain_rounds zero buffer = ([], buffer)
  drain_rounds (suc n) buffer =
      let buf = strip_complete_sse_comments buffer in
      drained (drain_rounds n) buf (find_frame_end buf)

  -- A long buffer that can hold neither an armor nor JSON is dropped where nothing came of it.
  abbrev pub unless_useless : List Text × Text → List Text × Text
  unless_useless (out, buffer) =
      if is_empty out
        && ltb 64000 (len buffer)
        && not (contains_text (codes "BEGIN PGP") buffer)
        && not (contains_text (codes "{") buffer)
      then (out, [])
      else (out, buffer)

  unfoldable pub drain_sse_armors : Text → List Text × Text
  unfolding drain_rounds
  drain_sse_armors buffer =
      let buf = strip_complete_sse_comments buffer in
      unless_useless (drain_rounds (suc (length buf)) buf)

  -- The loop of `pump_sse_armors_with_idle_timeout` over the chunks that are read, up to the end of the
  -- stream: what was sent, and the buffer.
  unfoldable pub pump : Text → List Text → List Text × Text
  unfolding drain_sse_armors
  pump buffer [] = ([], buffer)
  pump buffer (chunk ∷ chunks) =
      let (out, rest) = drain_sse_armors (buffer ++ chunk) in
      let (more, left) = pump rest chunks in (out ++ more, left)

  -- The loop of `extract_inbound_armors`.
  unfoldable pub extract_rounds : ℕ → Text → List Text
  extract_rounds zero rest = []
  extract_rounds (suc n) rest = elim (find_frame_end rest) [
    | none ↦ if is_empty (trim rest) then [] else extract rest
    | some (end, sep) ↦ extract (take end rest) ++ extract_rounds n (drop (end + sep) rest)
  ]

  unfoldable pub extract_inbound_armors : Text → List Text
  unfolding extract_rounds
  extract_inbound_armors chunk =
      let buf = strip_complete_sse_comments chunk in extract_rounds (suc (length buf)) buf
