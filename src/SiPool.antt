-- ===== src/SiPool.antt =====
-- The pool of SI nodes of src/l0/si_pool.rs, and the posts through it of src/l0/post.rs. What the network
-- answers, the order of a shuffle and the time are arguments.
pub mod Acquire
pub mod Refresh
mod Tests
use co_net_l0d.Base.{
  ℕ, zero, suc, ◌+◌, ◌≤◌, Bool, true, false, not, ◌&&◌, ◌||◌, Option, none, some, List, [], ◌∷◌,
  ◌++◌, map, ltb, leb, ◌==◌, if◌then◌else◌, is_empty, is_some, length, take, any, retain, Text,
  codes, text_eq, text_key, to_lowercase, trim, trim_start_by, trim_end_by, contains_char,
  contains_text, get, insert,
}
use co_net_l0d.Outbound.{post_url}
use co_net_l0d.Outbound.Entries.{Answer, accepted, timed_out, failed}

pub record SiNode : Type 0 where
  pub id : ℕ
  pub domain : Text
  pub ip_addr : Text
  pub region : Text
  pub entry : Text

abbrev pub entry_of : SiNode → Text
entry_of node = node.entry

-- The fields of `SiPool` that change; times are in seconds.
pub record SiPool : Type 0 where
  pub nodes : List SiNode
  pub last_refresh : Option ℕ
  pub cooldown : List (Text × ℕ)

abbrev pub page_size : ℕ
page_size = 100

abbrev refresh_interval : ℕ
refresh_interval = 300

abbrev fail_cooldown : ℕ
fail_cooldown = 180

abbrev pub max_pick_attempts : ℕ
max_pick_attempts = 24

abbrev pub max_consecutive_rpc_fail : ℕ
max_consecutive_rpc_fail = 5

abbrev is_slash : ℕ → Bool
is_slash c = c == b'/'

abbrev is_edge : ℕ → Bool
is_edge c = c == b'/' || c == b'.'

-- `entry_url_from_domain`
unfoldable pub entry_url_from_domain : Text → Option Text
entry_url_from_domain domain =
    let host = to_lowercase (trim_end_by is_edge (trim_start_by is_edge (trim domain))) in
    if is_empty host
    then none
    else if contains_char b'.' host || contains_char b'/' host || contains_char b':' host
    then none
    else some (codes "http://" ++ host ++ codes ".conet.network")

-- One page of `getAllNodes`: nodes, the answer that there is nothing, or a failure.
pub data Page : Type 0 where
  page : List SiNode → Page
  empty_result : Page
  rpc_error : Page

-- The loop over one page: the nodes so far, and the names that were seen.
abbrev pub seen_before : Text → List Text → Bool
seen_before name seen = any (text_eq name) seen

unfoldable pub add_nodes : List SiNode → List SiNode → List Text → List SiNode × List Text
add_nodes [] all seen = (all, seen)
add_nodes (node ∷ rest) all seen =
    let name = to_lowercase node.entry in
    let (more, names) =
      (if is_empty name || seen_before name seen
        then (all, seen)
        else (all ++ node ∷ [], name ∷ seen)) in
    add_nodes rest more names

-- What one page leads to: the end of the loop, an error, or a next round.
pub data Round : Type 0 where
  finished : List SiNode → Round
  gave_up : Round
  again : ℕ → ℕ → List SiNode → List Text → Round

unfoldable pub refresh_round : ℕ → ℕ → List SiNode → List Text → Page → Round
unfolding add_nodes
refresh_round offset fails all seen empty_result = finished all
refresh_round offset fails all seen rpc_error =
    if leb max_consecutive_rpc_fail (suc fails) then gave_up else again offset (suc fails) all seen
refresh_round offset fails all seen (page nodes) =
    let (more, names) = add_nodes nodes all seen in
    if is_empty nodes || length more == length all || ltb (length nodes) page_size
    then finished more
    else again (offset + length nodes) 0 more names

-- The loop of `refresh`, at most `n` rounds; `fetch` answers a round and an offset.
unfoldable pub refresh_rounds :
    (ℕ → ℕ → Page) → ℕ → ℕ → ℕ → List SiNode → List Text → Option (List SiNode)
refresh_rounds fetch zero offset fails all seen = some all
refresh_rounds fetch (suc n) offset fails all seen =
    elim (refresh_round offset fails all seen (fetch n offset)) [
      | finished nodes ↦ some nodes
      | gave_up ↦ none
      | again offset' fails' all' seen' ↦ refresh_rounds fetch n offset' fails' all' seen'
    ]

abbrev pub refreshed : ℕ → SiPool → Option (List SiNode) → Option SiPool
refreshed now pool none = none
refreshed now pool (some nodes) =
    if is_empty nodes then none else some (record pool { nodes = nodes; last_refresh = some now })

unfoldable pub refresh : (ℕ → ℕ → Page) → ℕ → SiPool → Option SiPool
unfolding refresh_rounds
refresh fetch now pool = refreshed now pool (refresh_rounds fetch 1000 0 0 [] [])

abbrev is_stale : ℕ → Option ℕ → Bool
is_stale now none = true
is_stale now (some at) = leb (at + refresh_interval) now

-- `ensure_fresh_inner`
unfoldable pub ensure_fresh : (ℕ → ℕ → Page) → ℕ → SiPool → Option SiPool
unfolding refresh
ensure_fresh fetch now pool =
    if is_stale now pool.last_refresh || is_empty pool.nodes
    then refresh fetch now pool
    else some pool

-- `entry.trim().trim_end_matches('/')`
abbrev bare_entry : Text → Text
bare_entry entry = trim_end_by is_slash (trim entry)

unfoldable pub mark_failed : ℕ → Text → SiPool → SiPool
mark_failed now entry pool =
    if is_empty (bare_entry entry)
    then pool
    else record pool { cooldown = insert (bare_entry entry) (now + fail_cooldown) pool.cooldown }

abbrev pub is_excluded : Option Text → Text → Bool
is_excluded none entry = false
is_excluded (some exclude) entry = text_eq (bare_entry exclude) (bare_entry entry)

abbrev pub is_cooling : List (Text × ℕ) → Text → Bool
is_cooling cooldown entry =
    is_some (get (bare_entry entry) cooldown) || is_some (get entry cooldown)

abbrev pub drop_expired : ℕ → List (Text × ℕ) → List (Text × ℕ)
drop_expired now cooldown = retain (λ e. ltb now e.1) cooldown

-- The candidates of `acquire`: those that are neither excluded nor cooling, or else those that are not
-- excluded, or else all.
abbrev pub or_all : List Text → List Text → List Text
or_all [] all = all
or_all (e ∷ es) all = e ∷ es

unfoldable pub candidates_of : Option Text → List (Text × ℕ) → List Text → List Text
candidates_of exclude cooldown entries =
    or_all (retain (λ e. not (is_excluded exclude e) && not (is_cooling cooldown e)) entries)
      (or_all (retain (λ e. not (is_excluded exclude e)) entries) entries)

-- What `qualify_entry` finds, with the time of a failure.
pub data Probe : Type 0 where
  reachable : Probe
  unreachable : ℕ → Probe

unfoldable pub pick : (Text → Probe) → List Text → SiPool → SiPool × Option Text
pick probe [] pool = (pool, none)
pick probe (entry ∷ rest) pool = elim (probe entry) [
  | reachable ↦ (pool, some entry)
  | unreachable now ↦ pick probe rest (mark_failed now entry pool)
]

module _ (fetch : ℕ → ℕ → Page) (shuffle : List Text → List Text) where
  abbrev acquire_from : (Text → Probe) → Option Text → ℕ → SiPool → SiPool × Option Text
  acquire_from probe exclude now pool =
      let entries = map entry_of pool.nodes in
      let ready = record pool { cooldown = drop_expired now pool.cooldown } in
      if is_empty pool.nodes
      then (ready, none)
      else pick probe
          (take max_pick_attempts (shuffle (candidates_of exclude ready.cooldown entries))) ready

  abbrev acquired : (Text → Probe) → Option Text → ℕ → SiPool → Option SiPool → SiPool × Option Text
  acquired probe exclude now pool none = (pool, none)
  acquired probe exclude now pool (some fresh) = acquire_from probe exclude now fresh

  unfoldable pub acquire : (Text → Probe) → Option Text → ℕ → SiPool → SiPool × Option Text
  acquire probe exclude now pool = acquired probe exclude now pool (ensure_fresh fetch now pool)

  -- `send_via_pool`, at most `n` rounds; round `n` has its time, what probes find, and what posts answer.
  module _ (clock : ℕ → ℕ) (probe : ℕ → Text → Probe) (send : ℕ → Text → Answer) where
    unfoldable pub send_via_pool : ℕ → Option Text → SiPool → SiPool × Option (ℕ × Text)
    send_via_pool zero exclude pool = (pool, none)
    send_via_pool (suc n) exclude pool =
        let (fresh, picked) = acquire (probe n) exclude (clock n) pool in
        elim picked [
          | none ↦ (fresh, none)
          | some entry ↦
              let blamed = mark_failed (clock n) entry fresh in
              elim (post_url entry) [
                | none ↦ send_via_pool n (some entry) blamed
                | some url ↦ elim (send n url) [
                  | accepted status ↦ (fresh, some (status, entry))
                  | timed_out ↦ (blamed, none)
                  | failed ↦ send_via_pool n (some entry) blamed
                ]
              ]
        ]
