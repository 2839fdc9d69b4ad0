-- ===== src/Listen/Entry.antt =====
-- `pick_listen_entry` of src/l0/listen.rs.
use co_net_l0d.Base.{
  ◌≡◌, inl, inr, Bool, true, false, not, Option, none, some, List, [], ◌∷◌, arith, any, find,
  or_else, Bool-cases, Text, text_eq,
}

-- `last_failed != Some(entry)`
abbrev pub differs : Option Text → Text → Bool
differs none entry = true
differs (some failed) entry = not (text_eq failed entry)

abbrev first : List Text → Option Text
first [] = none
first (e ∷ es) = some e

unfoldable pub pick_listen_entry : List Text → Option Text → Option Text
pick_listen_entry entries last_failed = or_else (find (differs last_failed) entries) (first entries)

find-differs :
    (es : List Text) (failed : Text)
    → any (λ e. not (text_eq failed e)) es ≡ true
    → (entry : Text) × (find (differs (some failed)) es ≡ some entry)
      × (text_eq failed entry ≡ false)
find-differs [] failed h = absurd (ground arith)
find-differs (e ∷ es) failed h = elim (Bool-cases (text_eq failed e)) [
  | inl same ↦ rw same (find-differs es failed (ground arith))
  | inr other ↦ (e, rw other, other)
]

-- Where some entry is not the one that failed last, an entry other than that one is picked.
pub pick_listen_entry-fresh :
    (entries : List Text) (failed : Text)
    → any (λ e. not (text_eq failed e)) entries ≡ true
    → (entry : Text) × (pick_listen_entry entries (some failed) ≡ some entry)
      × (text_eq failed entry ≡ false)
unfolding pick_listen_entry
pick_listen_entry-fresh entries failed h =
    let (entry, found, other) = find-differs entries failed h in (entry, rw found, other)
