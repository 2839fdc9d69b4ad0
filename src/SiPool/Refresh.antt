-- ===== src/SiPool/Refresh.antt =====
-- The nodes that `refresh` of src/l0/si_pool.rs collects.
use co_net_l0d.Base.{
  ℕ, zero, suc, ◌≡◌, refl, sym, ap, ◌∙◌, inl, inr, Bool, true, false, not, ◌&&◌, ◌||◌, Option, none,
  some, List, [], ◌∷◌, ◌++◌, if◌then◌else◌, Bool-cases, any, map, all, Text, arith, is_empty, leb,
  ltb, length, ◌==◌, ◌+◌, text_eq, to_lowercase, unwrap_or,
}
use co_net_l0d.SiPool.{
  SiNode, SiPool, Page, page, empty_result, rpc_error, Round, finished, gave_up, again, seen_before,
  add_nodes, refresh_round, refresh_rounds, refreshed, refresh, max_consecutive_rpc_fail, page_size,
}

-- The name of a node in the set of those that were seen.
abbrev name_of : SiNode → Text
name_of node = to_lowercase node.entry

unfoldable pub distinct : List Text → Bool
distinct [] = true
distinct (x ∷ xs) = not (any (text_eq x) xs) && distinct xs

-- No two nodes have entries that differ at most in case, and none has an empty entry.
abbrev pub are_nodes : List SiNode → Bool
are_nodes nodes = distinct (map name_of nodes) && not (any is_empty (map name_of nodes))

any-snoc : (p : Text → Bool) (xs : List Text) (y : Text) → any p (xs ++ y ∷ []) ≡ (p y || any p xs)
any-snoc p [] y = refl
any-snoc p (x ∷ xs) y = rw (any-snoc p xs y) (grind arith)

map-snoc :
    (nodes : List SiNode) (node : SiNode)
    → map name_of (nodes ++ node ∷ []) ≡ map name_of nodes ++ name_of node ∷ []
map-snoc [] node = refl
map-snoc (x ∷ nodes) node = ap (λ xs. name_of x ∷ xs) (map-snoc nodes node)

text_eq_sym : (s t : Text) → text_eq s t ≡ text_eq t s
text_eq_sym [] [] = refl
text_eq_sym [] (b ∷ t) = refl
text_eq_sym (a ∷ s) [] = refl
text_eq_sym (a ∷ s) (b ∷ t) = rw (text_eq_sym s t) (ground arith)

distinct-snoc :
    (xs : List Text) (y : Text)
    → distinct xs ≡ true
    → any (text_eq y) xs ≡ false
    → distinct (xs ++ y ∷ []) ≡ true
unfolding distinct
distinct-snoc [] y h new = refl
distinct-snoc (x ∷ xs) y h new =
    let rest = distinct-snoc xs y (ground arith) (ground arith) in
    rw (any-snoc (text_eq x) xs y, text_eq_sym x y, rest) (ground arith)

-- The names that were seen are those of the nodes so far.
abbrev IsSeen : List SiNode → List Text → Type 0
IsSeen nodes seen = (n : Text) → any (text_eq n) (map name_of nodes) ≡ any (text_eq n) seen

are_nodes-snoc :
    (nodes : List SiNode) (node : SiNode)
    → are_nodes nodes ≡ true
    → is_empty (name_of node) ≡ false
    → any (text_eq (name_of node)) (map name_of nodes) ≡ false
    → are_nodes (nodes ++ node ∷ []) ≡ true
are_nodes-snoc nodes node h named new =
    let names = distinct-snoc (map name_of nodes) (name_of node) (ground arith) new in
    rw (map-snoc nodes node, any-snoc is_empty (map name_of nodes) (name_of node), names)
      (ground arith)

IsSeen-snoc :
    (nodes : List SiNode) (node : SiNode) (seen : List Text)
    → IsSeen nodes seen
    → IsSeen (nodes ++ node ∷ []) (name_of node ∷ seen)
IsSeen-snoc nodes node seen h n =
    rw (map-snoc nodes node, any-snoc (text_eq n) (map name_of nodes) (name_of node), h n) refl

-- A page keeps the nodes of the earlier pages distinct from its own.
add_nodes-are_nodes :
    (nodes all : List SiNode) (seen : List Text)
    → IsSeen all seen
    → are_nodes all ≡ true
    → IsSeen (add_nodes nodes all seen).0 (add_nodes nodes all seen).1
      × (are_nodes (add_nodes nodes all seen).0 ≡ true)
unfolding add_nodes
add_nodes-are_nodes [] all seen shown h = (shown, h)
add_nodes-are_nodes (node ∷ nodes) all seen shown h =
    elim (Bool-cases (is_empty (name_of node) || seen_before (name_of node) seen)) [
      | inl skipped ↦ rw (add_nodes, skipped) (add_nodes-are_nodes nodes all seen shown h)
      | inr new ↦
          rw (add_nodes, new)
            (add_nodes-are_nodes nodes (all ++ node ∷ []) (name_of node ∷ seen)
              (IsSeen-snoc all node seen shown)
              (are_nodes-snoc all node h (ground arith) (shown (name_of node) ∙ ground arith)))
    ]

-- What a round leads to has only distinct nodes.
IsKept : Round → Type 0
IsKept (finished nodes) = are_nodes nodes ≡ true
IsKept gave_up = Unit
IsKept (again offset fails nodes seen) = IsSeen nodes seen × (are_nodes nodes ≡ true)

IsKept-if : (b : Bool) (r s : Round) → IsKept r → IsKept s → IsKept (if b then r else s)
IsKept-if true r s h k = h
IsKept-if false r s h k = k

refresh_round-IsKept :
    (offset fails : ℕ) (nodes : List SiNode) (seen : List Text) (p : Page)
    → IsSeen nodes seen
    → are_nodes nodes ≡ true
    → IsKept (refresh_round offset fails nodes seen p)
unfolding refresh_round IsKept
refresh_round-IsKept offset fails nodes seen empty_result shown h = h
refresh_round-IsKept offset fails nodes seen rpc_error shown h =
    IsKept-if (leb max_consecutive_rpc_fail (suc fails)) gave_up
      (again offset (suc fails) nodes seen) tt (shown, h)
refresh_round-IsKept offset fails nodes seen (page more) shown h =
    let kept = add_nodes-are_nodes more nodes seen shown h in
    IsKept-if
      (is_empty more
        || length (add_nodes more nodes seen).0 == length nodes
        || ltb (length more) page_size)
      (finished (add_nodes more nodes seen).0)
      (again (offset + length more) 0 (add_nodes more nodes seen).0 (add_nodes more nodes seen).1)
      kept.1 kept

refresh_rounds-are_nodes :
    (fetch : ℕ → ℕ → Page) (n offset fails : ℕ) (nodes : List SiNode) (seen : List Text)
    (found : List SiNode)
    → IsSeen nodes seen
    → are_nodes nodes ≡ true
    → refresh_rounds fetch n offset fails nodes seen ≡ some found
    → are_nodes found ≡ true
unfolding refresh_rounds IsKept
refresh_rounds-are_nodes fetch zero offset fails nodes seen found shown h got =
    sym (ap (λ o. are_nodes (unwrap_or [] o)) got) ∙ h
refresh_rounds-are_nodes fetch (suc n) offset fails nodes seen found shown h got =
    led (refresh_round offset fails nodes seen (fetch n offset))
      (refresh_round-IsKept offset fails nodes seen (fetch n offset) shown h)
      (λ o f all names. refresh_rounds-are_nodes fetch n o f all names found) got
  where
    led :
        (r : Round)
        → IsKept r
        → ((o f : ℕ) (all : List SiNode) (names : List Text)
            → IsSeen all names
            → are_nodes all ≡ true
            → refresh_rounds fetch n o f all names ≡ some found
            → are_nodes found ≡ true)
        → (elim r [
          | finished all ↦ some all
          | gave_up ↦ none
          | again o f all names ↦ refresh_rounds fetch n o f all names
        ])
          ≡ some found
        → are_nodes found ≡ true
    led (finished all) kept next result = sym (ap (λ o. are_nodes (unwrap_or [] o)) result) ∙ kept
    led gave_up kept next result = absurd (ground arith)
    led (again o f all names) kept next result = next o f all names kept.0 kept.1 result

-- A refresh that succeeds, whatever the pages and failures of the registry are, leaves a pool with at least
-- one node, none of them with an empty entry and no two with entries that differ at most in case; it is
-- fresh as of now, and its cooldowns are those of before.
pub refresh-are_nodes :
    (fetch : ℕ → ℕ → Page) (now : ℕ) (pool fresh : SiPool)
    → refresh fetch now pool ≡ some fresh
    → (are_nodes fresh.nodes ≡ true)
      × (is_empty fresh.nodes ≡ false)
      × (fresh.last_refresh ≡ some now)
      × (fresh.cooldown ≡ pool.cooldown)
unfolding refresh distinct
refresh-are_nodes fetch now pool fresh h =
    made (refresh_rounds fetch 1000 0 0 [] [])
      (λ found. refresh_rounds-are_nodes fetch 1000 0 0 [] [] found (λ n. refl) refl) h
  where
    made :
        (o : Option (List SiNode))
        → ((found : List SiNode) → o ≡ some found → are_nodes found ≡ true)
        → refreshed now pool o ≡ some fresh
        → (are_nodes fresh.nodes ≡ true)
          × (is_empty fresh.nodes ≡ false)
          × (fresh.last_refresh ≡ some now)
          × (fresh.cooldown ≡ pool.cooldown)
    made none kept result = absurd (ground arith)
    made (some []) kept result = absurd (ground arith)
    made (some (x ∷ xs)) kept result =
        let same = ap (unwrap_or pool) result in
        (
          sym (ap (λ (p : SiPool). are_nodes p.nodes) same) ∙ kept (x ∷ xs) refl,
          sym (ap (λ (p : SiPool). is_empty p.nodes) same),
          sym (ap (λ (p : SiPool). p.last_refresh) same),
          sym (ap (λ (p : SiPool). p.cooldown) same),
        )
