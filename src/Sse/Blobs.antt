-- ===== src/Sse/Blobs.antt =====
-- A listen stream that carries AES blobs.
use co_net_l0d.Base.{
  ℕ, ◌≤◌, ◌≡◌, refl, ap, ◌∙◌, true, false, ◌&&◌, ◌||◌, Option, none, some, List, [], ◌∷◌, arith,
  if◌then◌else◌, if-true, if-false, &&-true, concat, all, All, Text, codes, len, trim, trim_start,
  trim_end, trim_end_here, trim-visible, trim_end-visible, starts_with, ◌==◌, ◌>>=◌, is_whitespace,
}
use co_net_l0d.Crates.{Json, object, value, Document, Serde, IsSerde, Base64, is_base64}
use co_net_l0d.Aes.{is_base64_visible}
use co_net_l0d.Message.{document, str_at}
use co_net_l0d.Message.Parse.{looks_like_aes_blob}
use co_net_l0d.Message.Wrapped.{base64_no_object}
use co_net_l0d.Sse.{pump}
use co_net_l0d.Sse.Extract.{
  lines, data_lines, sse_or_raw_payload, clip_pgp_armor, armor_from_si_json,
  extract_armors_from_frame, line_before, payload_of, data_step, carried, is_app_json,
  extract_pgp_armors_from_sse,
}
use co_net_l0d.Sse.Frames.{data_field, frame}
use co_net_l0d.Sse.Pump.{IsBlob, IsPart, stream, pump-from}

lines-one : (c : ℕ) (s : Text) → all is_base64 (c ∷ s) ≡ true → lines (c ∷ s) ≡ (c ∷ s) ∷ []
unfolding lines
lines-one c [] h = ground arith
lines-one c (d ∷ s) h =
    let (now, later) = &&-true (is_base64 c) (all is_base64 (d ∷ s)) h in
    let feed : (c == b'\n') ≡ false = ground arith in
    let return : (c == 13 && starts_with (codes "\n") (d ∷ s)) ≡ false = ground arith in
    if-false (c == b'\n') _ _ feed
    ∙ if-false (c == 13 && starts_with (codes "\n") (d ∷ s)) _ _ return
    ∙ ap (line_before c) (lines-one d s later)

lines-data_field :
    (c : ℕ) (s : Text)
    → all is_base64 (c ∷ s) ≡ true
    → lines (data_field (c ∷ s)) ≡ data_field (c ∷ s) ∷ []
unfolding lines
lines-data_field c s h =
    ap
      (λ ls. line_before b'd' (
        line_before b'a'
          (line_before b't' (line_before b'a' (line_before b':' (line_before b' ' ls))))))
      (lines-one c s h)

sse_or_raw_payload-data_field :
    (c : ℕ) (s : Text)
    → all is_base64 (c ∷ s) ≡ true
    → sse_or_raw_payload (data_field (c ∷ s)) ≡ c ∷ s
unfolding sse_or_raw_payload data_lines
sse_or_raw_payload-data_field c s h =
    let (now, _) = &&-true (is_base64 c) (all is_base64 s) h in
    let field = data_field (c ∷ s) in
    let line : trim_end field ≡ field =
      ap
        (λ t. trim_end_here is_whitespace b'd' (
          trim_end_here is_whitespace b'a' (
            trim_end_here is_whitespace b't' (
              trim_end_here is_whitespace b'a'
                (trim_end_here is_whitespace b':' (trim_end_here is_whitespace b' ' t))))))
        (trim_end-visible is_base64 is_base64_visible (c ∷ s) h) in
    let start : trim_start (c ∷ s) ≡ c ∷ s =
      if-false (is_whitespace c) _ _ (is_base64_visible c now) in
    ap (λ ls. payload_of field (data_lines ls [] false)) (lines-data_field c s h)
    ∙ ap (λ l. payload_of field (data_step [] false l)) line
    ∙ start

-- A text that the client takes for an AES blob, in a frame of at most 64000 bytes.
pub record IsAesBlob (b64 : Base64) (blob : Text) : Type 0 where
  pub chars : all is_base64 blob ≡ true
  pub looks : looks_like_aes_blob b64 blob ≡ true
  pub short : len (frame blob) ≤ 64000

module _ (serde : Serde) (b64 : Base64) (laws : IsSerde serde) where
  -- A text in base64 is no SI JSON.
  armor_from_si_json-base64 :
      (s : Text) → all is_base64 s ≡ true → trim s ≡ s → armor_from_si_json serde s ≡ none
  unfolding armor_from_si_json
  armor_from_si_json-base64 s h bare =
      ap armor (ap (document serde) bare) ∙ unread (serde.from_str s) refl
    where
      armor : Option (Text → Option Json) → Option Text
      armor o = o >>= λ v. str_at v (codes "data") >>= clip_pgp_armor

      unread : (d : Option Document) → serde.from_str s ≡ d → armor (document serde s) ≡ none
      unread none e = rw e refl
      unread (some (value j)) e = rw e refl
      unread (some (object fields)) e = absurd (
          let opens = laws.from_str-object s fields e in
          let closed = base64_no_object s h in ground (arith, ap (starts_with (codes "{")) bare))

  -- The frame of a blob carries the blob.
  extract_armors_from_frame-blob :
      (blob : Text)
      → IsAesBlob b64 blob
      → extract_armors_from_frame serde b64 (data_field blob) ≡ blob ∷ []
  unfolding extract_armors_from_frame looks_like_aes_blob
  extract_armors_from_frame-blob [] h = absurd (ground (arith, h.looks))
  extract_armors_from_frame-blob (c ∷ s) h =
      let b = c ∷ s in
      let field = data_field b in
      let bare = trim-visible is_base64 is_base64_visible b h.chars in
      let found : (is_app_json serde b64 b || looks_like_aes_blob b64 b) ≡ true =
        rw (base64_no_object b h.chars) h.looks in
      ap (λ p. carried serde b64 field p (armor_from_si_json serde p))
        (sse_or_raw_payload-data_field c s h.chars)
      ∙ ap (carried serde b64 field b) (armor_from_si_json-base64 b h.chars bare)
      ∙ ap
          (λ t.
            if is_app_json serde b64 t || looks_like_aes_blob b64 t
            then t ∷ []
            else extract_pgp_armors_from_sse field)
          bare
      ∙ if-true (is_app_json serde b64 b || looks_like_aes_blob b64 b) _ _ found

  IsAesBlob-IsBlob :
      (blob : Text) → IsAesBlob b64 blob → IsBlob (extract_armors_from_frame serde b64) blob
  unfolding looks_like_aes_blob
  IsAesBlob-IsBlob [] h = absurd (ground (arith, h.looks))
  IsAesBlob-IsBlob (c ∷ s) h = record {
    chars = h.chars;
    some_char = omega arith;
    short = h.short;
    carries = extract_armors_from_frame-blob (c ∷ s) h;
  }

  -- A stream of AES blobs, each in a frame of at most 64000 bytes, brings exactly these blobs, in order and
  -- with nothing left over, however it is cut into chunks.
  pub pump-blobs :
      (blobs chunks : List Text)
      → All (IsAesBlob b64) blobs
      → concat chunks ≡ stream blobs
      → pump (extract_armors_from_frame serde b64) [] chunks ≡ (blobs, [])
  pump-blobs blobs chunks h cut =
      pump-from (extract_armors_from_frame serde b64) [] chunks blobs (all_blobs blobs h) cut
        (nothing_yet blobs)
    where
      all_blobs :
          (bs : List Text)
          → All (IsAesBlob b64) bs
          → All (IsBlob (extract_armors_from_frame serde b64)) bs
      all_blobs [] k = tt
      all_blobs (b ∷ bs) (k, ks) = (IsAesBlob-IsBlob b k, all_blobs bs ks)

      nothing_yet : (bs : List Text) → IsPart [] bs
      nothing_yet [] = refl
      nothing_yet (b ∷ bs) = omega arith
