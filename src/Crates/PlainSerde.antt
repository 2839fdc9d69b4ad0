-- ===== src/Crates/PlainSerde.antt =====
-- A reader and a writer that meet what is documented of serde_json, small enough to be evaluated.
use mathlib.Core.Path.{ap₂}
use mathlib.Core.Option
use co_net_l0d.Base.{
  ℕ, zero, suc, ◌≡◌, refl, ap, ◌∙◌, subst, inl, inr, true, false, Option, none, some, [], ◌∷◌, ◌++◌,
  append_assoc, arith, ◌==◌, if◌then◌else◌, Bool-cases, &&-true, length, take, drop, take-append,
  drop-append, all, Text, codes, trim, trim_end, trim_end_here, trim_end-append, starts_with,
  is_whitespace, text_key, is_scalar, IsText,
}
use co_net_l0d.Crates.{Json, null, bool, num, text, other, Fields, Document, object, Serde, IsSerde}

-- serde_json: each text stands behind its length, the fields behind their number, between braces.
abbrev dump_json : Json → Text → Text
dump_json null s = 0 ∷ s
dump_json (bool true) s = 1 ∷ s
dump_json (bool false) s = 2 ∷ s
dump_json (num n) s = 3 ∷ n ∷ s
dump_json (text t) s = 4 ∷ length t ∷ (t ++ s)
dump_json (other t) s = 5 ∷ length t ∷ (t ++ s)

abbrev dump_fields : Fields → Text → Text
dump_fields [] s = s
dump_fields ((k, v) ∷ fields) s = length k ∷ (k ++ dump_json v (dump_fields fields s))

module _ {A : Type 0} where
  abbrev read_text : Text → (Text → Text → Option A) → Option A
  read_text [] f = none
  read_text (n ∷ s) f = f (take n s) (drop n s)

  abbrev read_num : Text → (Json → Text → Option A) → Option A
  read_num [] f = none
  read_num (n ∷ s) f = f (num n) s

  abbrev read_tag : ℕ → Text → (Json → Text → Option A) → Option A
  read_tag zero s f = f null s
  read_tag (suc zero) s f = f (bool true) s
  read_tag (suc (suc zero)) s f = f (bool false) s
  read_tag (suc (suc (suc zero))) s f = read_num s f
  read_tag (suc (suc (suc (suc zero)))) s f = read_text s (λ t r. f (text t) r)
  read_tag (suc (suc (suc (suc (suc n))))) s f = read_text s (λ t r. f (other t) r)

  abbrev read_json : Text → (Json → Text → Option A) → Option A
  read_json [] f = none
  read_json (tag ∷ s) f = read_tag tag s f

  read_text-append :
      (t s : Text) (f : Text → Text → Option A) → read_text (length t ∷ (t ++ s)) f ≡ f t s
  read_text-append t s f = ap₂ f (take-append t s) (drop-append t s)

  read_json-dump :
      (j : Json) (s : Text) (f : Json → Text → Option A) → read_json (dump_json j s) f ≡ f j s
  read_json-dump null s f = refl
  read_json-dump (bool true) s f = refl
  read_json-dump (bool false) s f = refl
  read_json-dump (num n) s f = refl
  read_json-dump (text t) s f = read_text-append t s (λ u r. f (text u) r)
  read_json-dump (other t) s f = read_text-append t s (λ u r. f (other u) r)

abbrev read_fields : ℕ → Text → Option Fields
read_fields zero s = some []
read_fields (suc n) s =
    read_text s
      (λ k r. read_json r (λ v u. Option.map (λ fields. (k, v) ∷ fields) (read_fields n u)))

read_fields-dump :
    (fields : Fields) (s : Text) → read_fields (length fields) (dump_fields fields s) ≡ some fields
read_fields-dump [] s = refl
read_fields-dump ((k, v) ∷ fields) s =
    let after = dump_json v (dump_fields fields s) in
    let more : Json → Text → Option Fields =
      λ j u. Option.map (λ (r : Fields). (k, j) ∷ r) (read_fields (length fields) u) in
    read_text-append k after (λ key r.
      read_json r
        (λ j u. Option.map (λ (rest : Fields). (key, j) ∷ rest) (read_fields (length fields) u)))
    ∙ read_json-dump v (dump_fields fields s) more
    ∙ ap (Option.map (λ r. (k, v) ∷ r)) (read_fields-dump fields s)

abbrev read_document : Text → Option Document
read_document [] = none
read_document (c ∷ []) = none
read_document (c ∷ n ∷ s) = if c == b'{' then Option.map object (read_fields n s) else none

abbrev dumped : Fields → Text
dumped fields = b'{' ∷ length fields ∷ (dump_fields fields [] ++ b'}' ∷ [])

abbrev pub plain_serde : Serde
plain_serde = record {
  to_string = λ fields. if all is_scalar (dumped fields) then some (dumped fields) else none;
  from_str = read_document;
}

all-IsText : (s : Text) → all is_scalar s ≡ true → IsText s
all-IsText [] h = tt
all-IsText (c ∷ s) h =
    let (now, later) = &&-true (is_scalar c) (all is_scalar s) h in (now, all-IsText s later)

dump_json-append : (j : Json) (s t : Text) → dump_json j s ++ t ≡ dump_json j (s ++ t)
dump_json-append null s t = refl
dump_json-append (bool true) s t = refl
dump_json-append (bool false) s t = refl
dump_json-append (num n) s t = refl
dump_json-append (text u) s t = ap (λ r. 4 ∷ length u ∷ r) (append_assoc u s t)
dump_json-append (other u) s t = ap (λ r. 5 ∷ length u ∷ r) (append_assoc u s t)

dump_fields-append :
    (fields : Fields) (s t : Text) → dump_fields fields s ++ t ≡ dump_fields fields (s ++ t)
dump_fields-append [] s t = refl
dump_fields-append ((k, v) ∷ fields) s t =
    ap (λ r. length k ∷ r)
      (append_assoc k (dump_json v (dump_fields fields s)) t
        ∙ ap (λ r. k ++ r)
            (dump_json-append v (dump_fields fields s) t
              ∙ ap (dump_json v) (dump_fields-append fields s t)))

to_string-eq-some :
    (fields : Fields) (json : Text)
    → plain_serde.to_string fields ≡ some json
    → (all is_scalar (dumped fields) ≡ true) × (dumped fields ≡ json)
to_string-eq-some fields json h = elim (Bool-cases (all is_scalar (dumped fields))) [
  | inl good ↦ (good, ground arith)
  | inr bad ↦ absurd (ground arith)
]

opens : (t : Text) → starts_with (codes "{") (trim_end (b'{' ∷ t)) ≡ true
opens t = opens_here (trim_end t)
  where
    opens_here : (u : Text) → starts_with (codes "{") (trim_end_here is_whitespace b'{' u) ≡ true
    opens_here [] = refl
    opens_here (c ∷ u) = refl

read_document-opens :
    (s : Text) (fields : Fields)
    → read_document s ≡ some (object fields)
    → starts_with (codes "{") (trim s) ≡ true
read_document-opens [] fields h = absurd (ground arith)
read_document-opens (c ∷ []) fields h = absurd (ground arith)
read_document-opens (c ∷ n ∷ s) fields h = elim (Bool-cases (c == b'{')) [
  | inl brace ↦
      let same : b'{' ≡ c = ground arith in
      subst (λ d. starts_with (codes "{") (trim (d ∷ n ∷ s)) ≡ true) same (opens (n ∷ s))
  | inr bad ↦ absurd (ground arith)
]

pub plain_serde-IsSerde : IsSerde plain_serde
plain_serde-IsSerde = record {
  to_string-IsText = λ fields json h.
      let (good, same) = to_string-eq-some fields json h in
      subst IsText same (all-IsText (dumped fields) good);
  trim-to_string = λ fields json h.
      let (_, same) = to_string-eq-some fields json h in
      subst (λ j. trim j ≡ j) same
        (trim_end-append (b'{' ∷ length fields ∷ dump_fields fields []) b'}' refl);
  to_string-starts_with = λ fields json h.
      let (_, same) = to_string-eq-some fields json h in
      subst (λ j. starts_with (codes "{") j ≡ true) same refl;
  from_str-to_string = λ fields json h.
      let (_, same) = to_string-eq-some fields json h in
      (
        object fields,
        subst (λ j. read_document j ≡ some (object fields)) same
            (ap (λ t. Option.map object (read_fields (length fields) t))
                (dump_fields-append fields [] (b'}' ∷ []))
              ∙ ap (Option.map object) (read_fields-dump fields (b'}' ∷ []))),
        λ k. refl,
      );
  from_str-object = read_document-opens;
}
