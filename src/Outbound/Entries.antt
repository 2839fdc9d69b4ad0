-- ===== src/Outbound/Entries.antt =====
-- `send_via_entries` of src/l0/post.rs: a post is tried at one entry after the other. What the network
-- answers stands beside each entry.
use co_net_l0d.Base.{
  ℕ, ◌≡◌, refl, sym, ap, ◌∙◌, ◌⊎◌, inl, inr, Option, none, some, List, [], ◌∷◌, ◌++◌, arith, All,
  Option-cases, subst, Text,
}
use co_net_l0d.Outbound.{post_url}

-- What `send` comes to: a status, an error that speaks of a timeout, or another error.
pub data Answer : Type 0 where
  accepted : ℕ → Answer
  timed_out failed : Answer

pub data SendResult : Type 0 where
  sent : ℕ → Text → SendResult
  not_sent : SendResult

-- After the answer of an entry, with the result of the entries that are left.
answered : Text → Answer → SendResult → SendResult
answered entry (accepted status) rest = sent status entry
answered entry timed_out rest = not_sent
answered entry failed rest = rest

at_url : Text → Answer → Option Text → SendResult → SendResult
unfolding answered
at_url entry answer none rest = rest
at_url entry answer (some url) rest = answered entry answer rest

unfoldable pub send_via_entries : List (Text × Answer) → SendResult
unfolding at_url
send_via_entries [] = not_sent
send_via_entries ((entry, answer) ∷ rest) =
    at_url entry answer (post_url entry) (send_via_entries rest)

-- An entry that is passed over: it is no proper URL, or its post failed at once.
abbrev pub Passed : Text × Answer → Type 0
Passed e = (post_url e.0 ≡ none) ⊎ (e.1 ≡ failed)

-- The entries before the one that decided, and that one.
pub record Decided (entries : List (Text × Answer)) (entry : Text) (answer : Answer) : Type 0 where
  pub before : List (Text × Answer)
  pub after : List (Text × Answer)
  pub split : entries ≡ before ++ (entry, answer) ∷ after
  pub passed : All Passed before
  pub url : Text
  pub posts : post_url entry ≡ some url

later :
    (e : Text × Answer) (es : List (Text × Answer)) (entry : Text) (answer : Answer)
    → Passed e
    → Decided es entry answer
    → Decided (e ∷ es) entry answer
later e es entry answer p d = record {
  before = e ∷ d.before;
  after = d.after;
  split = ap (◌∷◌ e) d.split;
  passed = (p, d.passed);
  url = d.url;
  posts = d.posts;
}

answered-Decided :
    (e : Text) (answer : Answer) (url : Text) (rest : List (Text × Answer)) (status : ℕ)
    (entry : Text)
    → post_url e ≡ some url
    → (send_via_entries rest ≡ sent status entry → Decided rest entry (accepted status))
    → answered e answer (send_via_entries rest) ≡ sent status entry
    → Decided ((e, answer) ∷ rest) entry (accepted status)
unfolding answered
answered-Decided e (accepted s) url rest status entry posts ih h =
    let same : e ≡ entry = ground arith in
    let code : s ≡ status = ground arith in
    record {
      before = [];
      after = rest;
      split = ap (λ n. (e, accepted n) ∷ rest) code ∙ ap (λ t. (t, accepted status) ∷ rest) same;
      passed = tt;
      url = url;
      posts = ap post_url (sym same) ∙ posts;
    }
answered-Decided e timed_out url rest status entry posts ih h = absurd (ground arith)
answered-Decided e failed url rest status entry posts ih h =
    later (e, failed) rest entry (accepted status) (inr refl) (ih h)

-- A post is reported as sent only at an entry of the list that is a proper URL and accepted it, and all
-- entries before it are improper or failed otherwise than by a timeout.
pub send_via_entries-Decided :
    (entries : List (Text × Answer)) (status : ℕ) (entry : Text)
    → send_via_entries entries ≡ sent status entry
    → Decided entries entry (accepted status)
unfolding send_via_entries at_url
send_via_entries-Decided [] status entry h = absurd (ground arith)
send_via_entries-Decided ((e, answer) ∷ rest) status entry h = elim (Option-cases (post_url e)) [
  | inl bad ↦
      later (e, answer) rest entry (accepted status) (inl bad)
        (send_via_entries-Decided rest status entry
          (subst (λ o. at_url e answer o (send_via_entries rest) ≡ sent status entry) bad h))
  | inr (url, posts) ↦
      answered-Decided e answer url rest status entry posts
        (send_via_entries-Decided rest status entry)
        (subst (λ o. at_url e answer o (send_via_entries rest) ≡ sent status entry) posts h)
]
