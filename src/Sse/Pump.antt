-- ===== src/Sse/Pump.antt =====
-- A stream of AES blobs, however it is cut into chunks.
use co_net_l0d.Base.{
  ℕ, zero, suc, ◌+◌, ◌≤◌, ◌<◌, ◌≡◌, refl, sym, ap, ◌∙◌, inl, inr, Bool, true, false, not, ◌&&◌,
  List, [], ◌∷◌, ◌++◌, append-nil, append_assoc, arith, ltb, ltb→lt, Bool-cases, subst, length,
  length-append, take, drop, take-append, drop-append, concat, if-false, all, All, is_empty,
  contains_text, Text, len, codes,
}
use co_net_l0d.Crates.{is_base64}
use co_net_l0d.Sse.{
  find_frame_end, is_pending_aes_sse, find_text, drained, crlf_crlf, strip_complete_sse_comments,
  drain_rounds, unless_useless, drain_sse_armors, pump,
}
use co_net_l0d.Sse.Frames.{
  data_field, frame, is_quiet, strip-quiet, quiet-prefix, quiet-frame, find_frame_end-frame,
  find_frame_end-part,
}

-- What is framed: characters of base64, one at least, in a frame that is shorter than a buffer that is
-- dropped, and that is extracted from its frame.
pub record IsBlob (extract : Text → List Text) (blob : Text) : Type 0 where
  pub chars : all is_base64 blob ≡ true
  pub some_char : 1 ≤ length blob
  pub short : len (frame blob) ≤ 64000
  pub carries : extract (data_field blob) ≡ blob ∷ []

len-append : (s t : Text) → len (s ++ t) ≡ len s + len t
len-append [] t = omega arith
len-append (c ∷ s) t = omega (arith, len-append s t)

small : (a b c d : Bool) → b ≡ false → (a && b && c && d) ≡ false
small true b c d h = rw h refl
small false b c d h = refl

All-left : (P : Text → Type 0) (xs ys : List Text) → All P (xs ++ ys) → All P ys
All-left P [] ys h = h
All-left P (x ∷ xs) ys (h, hs) = All-left P xs ys hs

length-frame : (b : Text) → 1 ≤ length (frame b)
length-frame b = omega arith

-- Where one of two texts that make up the same text ends within the other.
split_short :
    (f s t u : Text)
    → s ++ t ≡ f ++ u
    → length s < length f
    → (q : Text) × (f ≡ s ++ q) × (1 ≤ length q) × (t ≡ q ++ u)
split_short f [] t u e h = (f, refl, h, e)
split_short [] (c ∷ s) t u e h = absurd (omega arith)
split_short (d ∷ f) (c ∷ s) t u e h =
    let tail : s ++ t ≡ f ++ u = cc in
    let head : c ≡ d = cc in
    let (q, same, more, rest) = split_short f s t u tail (omega arith) in
    (q, cc (head, same), more, rest)

split_long :
    (f s t u : Text)
    → s ++ t ≡ f ++ u
    → length f ≤ length s
    → (s' : Text) × (s ≡ f ++ s') × (s' ++ t ≡ u)
split_long [] s t u e h = (s, refl, e)
split_long (d ∷ f) [] t u e h = absurd (omega arith)
split_long (d ∷ f) (c ∷ s) t u e h =
    let tail : s ++ t ≡ f ++ u = cc in
    let head : c ≡ d = cc in
    let (s', same, rest) = split_long f s t u tail (omega arith) in (s', cc (head, same), rest)

abbrev pub stream : List Text → Text
stream [] = []
stream (b ∷ bs) = frame b ++ stream bs

stream-quiet :
    (extract : Text → List Text) (bs : List Text)
    → All (IsBlob extract) bs
    → is_quiet true (stream bs) ≡ true
stream-quiet extract [] h = refl
stream-quiet extract (b ∷ bs) (h, hs) =
    quiet-frame b (stream bs) h.chars (stream-quiet extract bs hs)

-- What is left is nothing, or a proper part of the first frame that is left.
abbrev pub IsPart : Text → List Text → Type 0
IsPart rest [] = rest ≡ []
IsPart rest (b ∷ bs) = length rest < length (frame b)

module _ (extract : Text → List Text) where
  -- The state after a part of the stream.
  record Drained (result : List Text × Text) (bs : List Text) (t : Text) : Type 0 where
    taken : List Text
    left : List Text
    rest : Text
    gives : result ≡ (taken, rest)
    splits : bs ≡ taken ++ left
    remains : rest ++ t ≡ stream left
    part : IsPart rest left

  drain_rounds-part :
      (n : ℕ) (b s q : Text)
      → IsBlob extract b
      → frame b ≡ s ++ q
      → 1 ≤ length q
      → drain_rounds extract (suc n) s ≡ ([], s)
  unfolding drain_rounds
  drain_rounds-part n b s q h parts more =
      let quiet = quiet-prefix true s q (
        ap (is_quiet true) (sym parts)
        ∙ sym (ap (is_quiet true) (append-nil (frame b)))
        ∙ quiet-frame b [] h.chars refl) in
      ap (λ buf. drained extract (drain_rounds extract n) buf (find_frame_end buf))
        (strip-quiet s quiet)
      ∙ ap (drained extract (drain_rounds extract n) s)
          (find_frame_end-part b s q h.chars parts more)

  drain_rounds-frame :
      (n : ℕ) (b s : Text) (out : List Text) (rest : Text)
      → IsBlob extract b
      → is_quiet true (frame b ++ s) ≡ true
      → drain_rounds extract n s ≡ (out, rest)
      → drain_rounds extract (suc n) (frame b ++ s) ≡ (b ∷ out, rest)
  unfolding drain_rounds
  drain_rounds-frame n [] s out rest h quiet e = absurd (omega (arith, h.some_char))
  drain_rounds-frame n (c ∷ b) s out rest h quiet e =
      let f = data_field (c ∷ b) in
      let assoc = append_assoc f crlf_crlf s in
      let body : take (length f) (frame (c ∷ b) ++ s) ≡ f =
        ap (take (length f)) assoc ∙ take-append f (crlf_crlf ++ s) in
      let after : drop (length f + 4) (frame (c ∷ b) ++ s) ≡ s =
        ap (λ k. drop k (frame (c ∷ b) ++ s)) (sym (length-append f crlf_crlf))
        ∙ drop-append (frame (c ∷ b)) s in
      let whole = frame (c ∷ b) ++ s in
      ap (λ buf. drained extract (drain_rounds extract n) buf (find_frame_end buf))
        (strip-quiet whole quiet)
      ∙ ap (drained extract (drain_rounds extract n) whole) (find_frame_end-frame c b s h.chars)
      ∙ ap (λ r. (extract (take (length f) whole) ++ r.0, r.1))
          (ap (drain_rounds extract n) after ∙ e)
      ∙ ap (λ l. (l ++ out, rest)) (ap extract body ∙ h.carries)

  drain_rounds-nil : (n : ℕ) → drain_rounds extract (suc n) [] ≡ ([], [])
  unfolding drain_rounds find_frame_end is_pending_aes_sse find_text strip_complete_sse_comments
      co_net_l0d.Sse.first_line
  drain_rounds-nil n = refl

  -- Before the first frame is whole.
  part-Drained :
      (n : ℕ) (b : Text) (bs : List Text) (s t : Text)
      → IsBlob extract b
      → s ++ t ≡ stream (b ∷ bs)
      → length s < length (frame b)
      → Drained (drain_rounds extract (suc n) s) (b ∷ bs) t
  part-Drained n b bs s t h e before =
      let (q, parts, more, rest) = split_short (frame b) s t (stream bs) e before in
      record {
        taken = [];
        left = b ∷ bs;
        rest = s;
        gives = drain_rounds-part n b s q h parts more;
        splits = refl;
        remains = e;
        part = before;
      }

  -- After it.
  frame-Drained :
      (n : ℕ) (b : Text) (bs : List Text) (s t : Text)
      → IsBlob extract b
      → All (IsBlob extract) bs
      → s ++ t ≡ stream bs
      → Drained (drain_rounds extract n s) bs t
      → Drained (drain_rounds extract (suc n) (frame b ++ s)) (b ∷ bs) t
  frame-Drained n b bs s t h hs e d =
      let whole : (frame b ++ s) ++ t ≡ stream (b ∷ bs) =
        append_assoc (frame b) s t ∙ ap (λ u. frame b ++ u) e in
      let quiet =
        quiet-prefix true (frame b ++ s) t
          (ap (is_quiet true) whole ∙ stream-quiet extract (b ∷ bs) (h, hs)) in
      record {
        taken = b ∷ d.taken;
        left = d.left;
        rest = d.rest;
        gives = drain_rounds-frame n b s d.taken d.rest h quiet d.gives;
        splits = ap (λ l. b ∷ l) d.splits;
        remains = d.remains;
        part = d.part;
      }

  drain_rounds-Drained :
      (n : ℕ) (bs : List Text) (s t : Text)
      → All (IsBlob extract) bs
      → s ++ t ≡ stream bs
      → length s ≤ n
      → Drained (drain_rounds extract (suc n) s) bs t
  drain_rounds-Drained n [] [] t h e size = record {
    taken = [];
    left = [];
    rest = [];
    gives = drain_rounds-nil n;
    splits = refl;
    remains = e;
    part = refl;
  }
  drain_rounds-Drained n [] (c ∷ s) t h e size = absurd (ground arith)
  drain_rounds-Drained zero (b ∷ bs) s t (h, hs) e size =
      part-Drained zero b bs s t h e (omega (arith, length-frame b))
  drain_rounds-Drained (suc n) (b ∷ bs) s t (h, hs) e size =
      elim (Bool-cases (ltb (length s) (length (frame b)))) [
        | inl before ↦ part-Drained (suc n) b bs s t h e (ltb→lt _ _ before)
        | inr after ↦
            let (s', parts, more) = split_long (frame b) s t (stream bs) e (ground arith) in
            let size' : length s' ≤ n =
              omega (arith, ap length parts, length-append (frame b) s', length-frame b) in
            subst (λ u. Drained (drain_rounds extract (suc (suc n)) u) (b ∷ bs) t) (sym parts)
              (frame-Drained (suc n) b bs s' t h hs more
                (drain_rounds-Drained n bs s' t hs more size'))
      ]

  -- A part of a frame is never dropped as useless.
  unless_useless-part :
      (out : List Text) (rest t : Text) (bs : List Text)
      → All (IsBlob extract) bs
      → rest ++ t ≡ stream bs
      → IsPart rest bs
      → unless_useless extract (out, rest) ≡ (out, rest)
  unless_useless-part out rest t [] h e part = rw part (ground arith)
  unless_useless-part out rest t (b ∷ bs) (h, hs) e part =
      let (q, parts, _, _) = split_short (frame b) rest t (stream bs) e part in
      let short : ltb 64000 (len rest) ≡ false =
        ground (arith, ap len parts, len-append rest q, h.short) in
      if-false _ _ _ (
        small (is_empty out) (ltb 64000 (len rest)) (not (contains_text (codes "BEGIN PGP") rest))
          (not (contains_text (codes "{") rest)) short)

  drain_sse_armors-Drained :
      (bs : List Text) (s t : Text)
      → All (IsBlob extract) bs
      → s ++ t ≡ stream bs
      → Drained (drain_sse_armors extract s) bs t
  unfolding drain_sse_armors
  drain_sse_armors-Drained bs s t h e =
      let quiet = quiet-prefix true s t (ap (is_quiet true) e ∙ stream-quiet extract bs h) in
      let d = drain_rounds-Drained (length s) bs s t h e (omega arith) in
      let left_blobs =
        All-left (IsBlob extract) d.taken d.left (subst (All (IsBlob extract)) d.splits h) in
      record {
        taken = d.taken;
        left = d.left;
        rest = d.rest;
        gives =
            ap (λ buf. unless_useless extract (drain_rounds extract (suc (length buf)) buf))
              (strip-quiet s quiet)
            ∙ ap (unless_useless extract) d.gives
            ∙ unless_useless-part d.taken d.rest t d.left left_blobs d.remains d.part;
        splits = d.splits;
        remains = d.remains;
        part = d.part;
      }

  pub pump-from :
      (buffer : Text) (chunks bs : List Text)
      → All (IsBlob extract) bs
      → buffer ++ concat chunks ≡ stream bs
      → IsPart buffer bs
      → pump extract buffer chunks ≡ (bs, [])
  unfolding pump
  pump-from buffer [] [] h e part = ap (λ r. ([], r)) part
  pump-from buffer [] (b ∷ bs) h e part = absurd (
      omega
        (arith, ap length e, length-append buffer [], length-append (frame b) (stream bs), part))
  pump-from buffer (chunk ∷ chunks) bs h e part =
      let d =
        drain_sse_armors-Drained bs (buffer ++ chunk) (concat chunks) h
          (append_assoc buffer chunk (concat chunks) ∙ e) in
      let later =
        pump-from d.rest chunks d.left
          (All-left (IsBlob extract) d.taken d.left (subst (All (IsBlob extract)) d.splits h))
          d.remains d.part in
      ap (λ r. (r.0 ++ (pump extract r.1 chunks).0, (pump extract r.1 chunks).1)) d.gives
      ∙ ap (λ r. (d.taken ++ r.0, r.1)) later
      ∙ ap (λ l. (l, [])) (sym d.splits)
