-- ===== src/SiPool/Tests.antt =====
-- Tests and instances for the SI pool.
use co_net_l0d.Base.{
  text_eq, ℕ, ◌≡◌, refl, true, false, if◌then◌else◌, ◌==◌, any, is_empty, map, get, insert, none,
  some, List, [], ◌∷◌, Text, codes,
}
use co_net_l0d.Outbound.{post_url}
use co_net_l0d.Outbound.Entries.{accepted, failed}
use co_net_l0d.SiPool.{
  drop_expired, entry_of, SiNode, SiPool, Page, page, rpc_error, Probe, reachable,
  entry_url_from_domain, add_nodes, refresh_round, refresh_rounds, refresh, ensure_fresh,
  mark_failed, candidates_of, pick, acquire, send_via_pool,
}
use co_net_l0d.SiPool.Acquire.{is_fit, acquire-fit}
use co_net_l0d.SiPool.Refresh.{are_nodes, refresh-are_nodes}

abbrev first_entry : Text
first_entry = codes "http://a.conet.network"

abbrev second_entry : Text
second_entry = codes "http://b.conet.network"

abbrev node_at : ℕ → Text → SiNode
node_at n at = record { id = n; domain = []; ip_addr = []; region = []; entry = at }

abbrev two_nodes : List SiNode
two_nodes = node_at 1 first_entry ∷ node_at 2 second_entry ∷ []

abbrev cold_pool : SiPool
cold_pool = record { nodes = []; last_refresh = none; cooldown = (first_entry, 900) ∷ [] }

-- The registry fails once, and then lists one node twice.
abbrev registry : ℕ → ℕ → Page
registry n offset = if n == 999 then rpc_error else page (node_at 1 first_entry ∷ two_nodes)

abbrev warm_pool : SiPool
warm_pool = record cold_pool { nodes = two_nodes; last_refresh = some 800 }

abbrev all_up : Text → Probe
all_up entry = reachable

domains :
    (entry_url_from_domain (codes " A1F0/ ") ≡ some (codes "http://a1f0.conet.network"))
    × (entry_url_from_domain (codes "a.b") ≡ none)
    × (entry_url_from_domain (codes "./") ≡ none)
unfolding entry_url_from_domain
domains = (refl, refl, refl)

refreshes : refresh registry 800 cold_pool ≡ some warm_pool
unfolding refresh refresh_rounds refresh_round add_nodes
refreshes = refl

ensures : ensure_fresh registry 800 cold_pool ≡ some warm_pool
unfolding ensure_fresh refresh refresh_rounds refresh_round add_nodes
ensures = refl

-- A cooling entry is passed over, and its failure is forgotten after a while.
acquires :
    ((acquire registry (λ es. es) all_up none 800 cold_pool).1 ≡ some second_entry)
    × ((acquire registry (λ es. es) all_up none 900 cold_pool).1 ≡ some first_entry)
unfolding acquire pick candidates_of ensure_fresh refresh refresh_rounds refresh_round add_nodes get
acquires = (refl, refl)

-- The first post fails, and the second goes through another node.
posts :
    (send_via_pool registry
      (λ es. es)
      (λ n. 900)
      (λ n. all_up)
      (λ n url. if n == 4 then failed else accepted 200)
      5
      none
      cold_pool).1
    ≡ some (200, second_entry)
unfolding send_via_pool acquire pick candidates_of ensure_fresh refresh refresh_rounds refresh_round
    add_nodes mark_failed post_url get insert
posts = refl

one_fits :
    any (is_fit none (drop_expired 800 warm_pool.cooldown)) (map entry_of warm_pool.nodes) ≡ true
unfolding get
one_fits = refl

acquire-fit_example :
    (all_up second_entry ≡ reachable)
    × (is_fit none (drop_expired 800 warm_pool.cooldown) second_entry ≡ true)
    × (any (text_eq second_entry) (map entry_of warm_pool.nodes) ≡ true)
acquire-fit_example =
    acquire-fit registry (λ es. es) all_up none 800 cold_pool warm_pool second_entry
      (λ P xs all. all) ensures one_fits acquires.0

refresh-are_nodes_example :
    (are_nodes two_nodes ≡ true)
    × (is_empty two_nodes ≡ false)
    × (warm_pool.last_refresh ≡ some 800)
    × (warm_pool.cooldown ≡ cold_pool.cooldown)
refresh-are_nodes_example = refresh-are_nodes registry 800 cold_pool warm_pool refreshes
