-- ===== src/Sse/Tests.antt =====
-- Tests and instances for listen streams.
use co_net_l0d.Base.{◌≡◌, refl, List, [], ◌∷◌, ◌++◌, arith, replicate, take, drop, Text, codes}
use co_net_l0d.Crates.PlainSerde.{plain_serde, plain_serde-IsSerde}
use co_net_l0d.Crates.PlainSealing.{plain_base64}
use co_net_l0d.Message.Parse.{looks_like_aes_blob}
use co_net_l0d.Sse.{
  find_text, crlf_crlf, lf_lf, comment_from, next_complete_sse_comment, strip_rounds,
  strip_complete_sse_comments, first_line, is_pending_aes_sse, find_frame_end, pump,
}
use co_net_l0d.Sse.Extract.{extract_armors_from_frame, lines, data_lines, sse_or_raw_payload}
use co_net_l0d.Sse.Frames.{frame}
use co_net_l0d.Sse.Pump.{stream}
use co_net_l0d.Sse.Blobs.{IsAesBlob, pump-blobs}

-- Twenty-nine bytes in the letters of the instance.
abbrev blob : Text
blob = replicate 58 b'C'

abbrev keepalive : Text
keepalive = codes ": keepalive" ++ lf_lf

-- A comment of its own is dropped, and one in the middle of a blob.
comments_dropped :
    (strip_complete_sse_comments keepalive ≡ [])
    × (strip_complete_sse_comments (codes "data: QUJD" ++ 10 ∷ keepalive)
        ≡ codes "data: QUJD" ++ 10 ∷ [])
unfolding strip_complete_sse_comments strip_rounds next_complete_sse_comment comment_from find_text
    co_net_l0d.Sse.find_from
comments_dropped = (refl, refl)

-- A comment that arrives together with the frame behind it takes that frame with it: the first blank line
-- of two CRLF is looked for before that of two LF.
frame_behind_comment_dropped : strip_complete_sse_comments (keepalive ++ frame blob) ≡ []
unfolding strip_complete_sse_comments strip_rounds next_complete_sse_comment comment_from find_text
    co_net_l0d.Sse.find_from
frame_behind_comment_dropped = refl

payloads :
    (sse_or_raw_payload (codes "data: QUJD" ++ 10 ∷ codes "data: REVG")
      ≡ codes "QUJD" ++ 10 ∷ codes "REVG")
    × (sse_or_raw_payload (codes "data: QUJD" ++ 13 ∷ 10 ∷ codes "REVG") ≡ codes "QUJDREVG")
    × (lines (codes "a" ++ 13 ∷ 10 ∷ 10 ∷ codes "b") ≡ codes "a" ∷ [] ∷ codes "b" ∷ [])
unfolding sse_or_raw_payload data_lines lines
payloads = (refl, refl, refl)

blob-IsAesBlob : IsAesBlob plain_base64 blob
unfolding looks_like_aes_blob
blob-IsAesBlob = record { chars = refl; looks = refl; short = ground arith }

abbrev cut : List Text
cut =
    take 3 (stream (blob ∷ blob ∷ []))
    ∷ take 90 (drop 3 (stream (blob ∷ blob ∷ [])))
    ∷ drop 93 (stream (blob ∷ blob ∷ []))
    ∷ []

pump-blobs_example :
    pump (extract_armors_from_frame plain_serde plain_base64) [] cut ≡ (blob ∷ blob ∷ [], [])
pump-blobs_example =
    pump-blobs plain_serde plain_base64 plain_serde-IsSerde (blob ∷ blob ∷ []) cut
      (blob-IsAesBlob, (blob-IsAesBlob, tt)) refl
