-- ===== src/Sse/Frames.antt =====
-- The frame of an AES blob in a listen stream: it is found whole, and no part of it is taken for a frame.
use co_net_l0d.Base.{
  ℕ, zero, suc, ◌≤◌, ◌≡◌, refl, sym, ap, ◌∙◌, Bool, true, false, not, ◌&&◌, Option, none, some, [],
  ◌∷◌, ◌++◌, append_assoc, arith, ◌==◌, if◌then◌else◌, if-true, if-false, &&-true, length,
  length-append, take, drop, all, Text, codes, trim, trim_start, trim_end, trim_end_here,
  trim_end-visible, is_whitespace,
}
use co_net_l0d.Crates.{is_base64}
use co_net_l0d.Aes.{is_base64_visible}
use co_net_l0d.Message.Wrapped.{base64_no_object}
use co_net_l0d.Message.Blob.{base64_no_armor}
use co_net_l0d.Sse.{
  find_from, find_text, crlf_crlf, lf_lf, comment_from, next_complete_sse_comment, strip_rounds,
  strip_complete_sse_comments, first_line, is_pending_aes_sse, earlier, find_frame_end,
}
use co_net_l0d.Sse.Find.{
  find_text-skip, find_text-none_of_last, find_text-none_of_none, find_from-none,
}

-- `data: <base64>\r\n\r\n`
abbrev pub data_field : Text → Text
data_field blob = codes "data: " ++ blob

abbrev pub frame : Text → Text
frame blob = data_field blob ++ crlf_crlf

-- No line starts with a colon; `at_line` says that a line starts here.
abbrev pub is_quiet : Bool → Text → Bool
is_quiet at_line [] = true
is_quiet at_line (c ∷ s) = not (at_line && c == b':') && is_quiet (c == b'\n') s

comment_from-quiet :
    (i : ℕ) (at_line : Bool) (s : Text)
    → is_quiet at_line s ≡ true
    → comment_from i at_line s ≡ none
unfolding comment_from
comment_from-quiet i at_line [] h = refl
comment_from-quiet i at_line (c ∷ s) h =
    let (now, later) = &&-true (not (at_line && c == b':')) (is_quiet (c == b'\n') s) h in
    let plain : (at_line && c == b':') ≡ false = ground arith in
    if-false _ _ _ plain ∙ comment_from-quiet (suc i) (c == b'\n') s later

strip_rounds-quiet : (n : ℕ) (s : Text) → is_quiet true s ≡ true → strip_rounds n s ≡ s
unfolding strip_rounds next_complete_sse_comment
strip_rounds-quiet zero s h = refl
strip_rounds-quiet (suc n) s h =
    ap
      (λ (o : Option (ℕ × ℕ)). elim o [
        | none ↦ s
        | some (first, end) ↦ strip_rounds n (take first s ++ drop end s)
      ])
      (comment_from-quiet 0 true s h)

pub strip-quiet : (s : Text) → is_quiet true s ≡ true → strip_complete_sse_comments s ≡ s
unfolding strip_complete_sse_comments
strip-quiet s h = strip_rounds-quiet (length s) s h

pub quiet-prefix :
    (at_line : Bool) (s t : Text) → is_quiet at_line (s ++ t) ≡ true → is_quiet at_line s ≡ true
quiet-prefix at_line [] t h = refl
quiet-prefix at_line (c ∷ s) t h =
    let (now, later) = &&-true (not (at_line && c == b':')) (is_quiet (c == b'\n') (s ++ t)) h in
    rw (now, quiet-prefix (c == b'\n') s t later) refl

quiet-base64 : (b u : Text) → all is_base64 b ≡ true → is_quiet false (b ++ u) ≡ is_quiet false u
quiet-base64 [] u h = refl
quiet-base64 (c ∷ b) u h =
    let (now, later) = &&-true (is_base64 c) (all is_base64 b) h in
    let inner : (c == b'\n') ≡ false = ground arith in rw inner (quiet-base64 b u later)

pub quiet-frame :
    (b u : Text)
    → all is_base64 b ≡ true
    → is_quiet true u ≡ true
    → is_quiet true (frame b ++ u) ≡ true
quiet-frame b u h quiet =
    ap (is_quiet true) (append_assoc (data_field b) crlf_crlf u)
    ∙ quiet-base64 b (crlf_crlf ++ u) h
    ∙ quiet

first_line-base64 :
    (b u : Text) → all is_base64 b ≡ true → first_line (b ++ (crlf_crlf ++ u)) ≡ b ++ 13 ∷ []
unfolding first_line
first_line-base64 [] u h = refl
first_line-base64 (c ∷ b) u h =
    let (now, later) = &&-true (is_base64 c) (all is_base64 b) h in
    let inner : (c == b'\n') ≡ false = ground arith in
    if-false _ _ _ inner ∙ ap (λ l. c ∷ l) (first_line-base64 b u later)

trim_end-return : (b : Text) → trim_end (b ++ 13 ∷ []) ≡ trim_end b
trim_end-return [] = refl
trim_end-return (c ∷ b) = ap (trim_end_here is_whitespace c) (trim_end-return b)

all-take : (p : ℕ → Bool) (n : ℕ) (s : Text) → all p s ≡ true → all p (take n s) ≡ true
all-take p zero s h = refl
all-take p (suc n) [] h = refl
all-take p (suc n) (c ∷ s) h =
    let (now, later) = &&-true (p c) (all p s) h in rw (now, all-take p n s later) refl

pending-frame :
    (c : ℕ) (b u : Text)
    → all is_base64 (c ∷ b) ≡ true
    → is_pending_aes_sse (data_field (c ∷ b) ++ (crlf_crlf ++ u)) ≡ true
unfolding is_pending_aes_sse
pending-frame c b u h =
    let (now, later) = &&-true (is_base64 c) (all is_base64 b) h in
    let seen = is_base64_visible c now in
    let start : trim_start (c ∷ (b ++ (crlf_crlf ++ u))) ≡ c ∷ (b ++ (crlf_crlf ++ u)) =
      if-false _ _ _ seen in
    let head : trim (first_line (trim_start (c ∷ (b ++ (crlf_crlf ++ u))))) ≡ c ∷ b =
      ap (λ s. trim (first_line s)) start
      ∙ ap trim (first_line-base64 (c ∷ b) u h)
      ∙ ap trim_end (if-false (is_whitespace c) _ _ seen)
      ∙ trim_end-return (c ∷ b)
      ∙ trim_end-visible is_base64 is_base64_visible (c ∷ b) h in
    rw head
      (rw (base64_no_object (c ∷ b) h, base64_no_armor (c ∷ b) h) (all-take is_base64 16 (c ∷ b) h))

no_return : (b : Text) → all is_base64 b ≡ true → all (λ c. not (c == 13)) (data_field b) ≡ true
no_return b h = later b h
  where
    later : (s : Text) → all is_base64 s ≡ true → all (λ c. not (c == 13)) s ≡ true
    later [] k = refl
    later (c ∷ s) k =
        let (now, rest) = &&-true (is_base64 c) (all is_base64 s) k in
        let inner : (c == 13) ≡ false = ground arith in rw inner (later s rest)

no_feed : (b : Text) → all is_base64 b ≡ true → all (λ c. not (c == 10)) (data_field b) ≡ true
no_feed b h = later b h
  where
    later : (s : Text) → all is_base64 s ≡ true → all (λ c. not (c == 10)) s ≡ true
    later [] k = refl
    later (c ∷ s) k =
        let (now, rest) = &&-true (is_base64 c) (all is_base64 s) k in
        let inner : (c == 10) ≡ false = ground arith in rw inner (later s rest)

-- At the start of a buffer the frame of a blob is found, whatever follows.
pub find_frame_end-frame :
    (c : ℕ) (b u : Text)
    → all is_base64 (c ∷ b) ≡ true
    → find_frame_end (frame (c ∷ b) ++ u) ≡ some (length (data_field (c ∷ b)), 4)
unfolding find_frame_end
find_frame_end-frame c b u h =
    let whole = append_assoc (data_field (c ∷ b)) crlf_crlf u in
    let t = data_field (c ∷ b) ++ (crlf_crlf ++ u) in
    ap find_frame_end whole
    ∙ if-true (is_pending_aes_sse t) (earlier (find_text crlf_crlf t) none)
        (earlier (find_text crlf_crlf t) (find_text lf_lf t)) (pending-frame c b u h)
    ∙ ap (λ o. earlier o none)
        (find_text-skip 13 (10 ∷ 13 ∷ 10 ∷ []) (data_field (c ∷ b)) (crlf_crlf ++ u)
          (no_return (c ∷ b) h) refl)

-- No proper part of a frame is taken for one.
pub find_frame_end-part :
    (b p q : Text)
    → all is_base64 b ≡ true
    → frame b ≡ p ++ q
    → 1 ≤ length q
    → find_frame_end p ≡ none
unfolding find_frame_end find_text find_from
find_frame_end-part b p q h parts more =
    let returns : find_text crlf_crlf (frame b) ≡ some (length (data_field b)) =
      find_text-skip 13 (10 ∷ 13 ∷ 10 ∷ []) (data_field b) crlf_crlf (no_return b h) refl in
    let feeds : find_text lf_lf (frame b) ≡ none =
      find_from-none 0 10 (10 ∷ []) (data_field b) crlf_crlf (no_feed b h) refl in
    let no_returns : find_text crlf_crlf p ≡ none =
      find_text-none_of_last crlf_crlf p q (length (data_field b)) (omega arith) more
        (ap (find_text crlf_crlf) (sym parts) ∙ returns)
        (sym (length-append (data_field b) crlf_crlf) ∙ ap length parts) in
    let no_feeds : find_text lf_lf p ≡ none =
      find_text-none_of_none lf_lf p q (omega arith) (ap (find_text lf_lf) (sym parts) ∙ feeds) in
    both (is_pending_aes_sse p) (find_text crlf_crlf p) (find_text lf_lf p) no_returns no_feeds
  where
    both :
        (pending : Bool) (r f : Option ℕ)
        → r ≡ none
        → f ≡ none
        → (if pending then earlier r none else earlier r f) ≡ none
    both true r f hr hf = ap (λ o. earlier o none) hr
    both false r f hr hf = ap (λ o. earlier o f) hr ∙ ap (earlier none) hf
