-- ===== src/Listen.antt =====
-- The owners of listen streams in src/l0/listen.rs. An `OwnedListenSession` is shared by its registry
-- entry and its stream task, so the registry keeps the number of a session and the sessions are in a store.
pub mod Release
pub mod Entry
pub mod Tests
use co_net_l0d.Base.{
  ℕ, Bool, true, false, Option, none, some, List, [], ◌∷◌, ◌++◌, if◌then◌else◌, is_none, is_some,
  Text, codes, eq_ignore_case, get, insert, remove, modify, nat_eq, text_key,
}

pub record OwnedListenSession : Type 0 where
  pub id : Text
  pub owner : Text
  pub session_id : Option Text
  pub listen_kind : Text
  pub cancelled : Bool
  pub has_task : Bool

abbrev persistent_or : Option Text → Text
persistent_or none = codes "persistent"
persistent_or (some s) = s

-- `OwnedListenSession::new`
unfoldable pub new_session : Text → Option Text → Text → OwnedListenSession
new_session owner session_id listen_kind = record {
  id = owner ++ b':' ∷ listen_kind ++ b':' ∷ persistent_or session_id;
  owner = owner;
  session_id = session_id;
  listen_kind = listen_kind;
  cancelled = false;
  has_task = false;
}

-- The store of the sessions and the registry of their numbers.
pub record Owners : Type 0 where
  pub store : List (ℕ × OwnedListenSession)
  pub owners : List (Text × ℕ)

abbrev bind_id : Text → OwnedListenSession → OwnedListenSession
bind_id session_id s = record s { session_id = some session_id }

-- `bind_session_id` of the session with number `h`
unfoldable pub bind_session_id : ℕ → Text → Owners → Owners
bind_session_id h session_id o = record o { store = modify h (bind_id session_id) o.store }

abbrev pub aborted : OwnedListenSession → OwnedListenSession
aborted s = record s { cancelled = true; has_task = false }

unfoldable pub abort_listen_session : ℕ → Owners → Owners
abort_listen_session h o = record o { store = modify h aborted o.store }

-- `register` of the session `s` with number `h`: whether its id was free.
unfoldable pub register : ℕ → OwnedListenSession → Owners → Owners × Bool
register h s o = (record o { owners = insert s.id h o.owners }, is_none (get s.id o.owners))

abbrev owned_by : Text → Option OwnedListenSession → Bool
owned_by wallet none = false
owned_by wallet (some s) = eq_ignore_case s.owner wallet

-- `find_by_wallet`: the first in the order of the walk, by number.
unfoldable pub find_by_wallet : Text → List (ℕ × OwnedListenSession) → List (Text × ℕ) → Option ℕ
find_by_wallet wallet store [] = none
find_by_wallet wallet store ((id, h) ∷ rest) =
    if owned_by wallet (get h store) then some h else find_by_wallet wallet store rest

cancel_found : Owners → Option ℕ → Owners × Bool
cancel_found o none = (o, false)
cancel_found o (some h) = (abort_listen_session h o, true)

-- `cancel` of an owner by its id
unfoldable pub cancel : Text → Owners → Owners × Bool
unfolding cancel_found
cancel id o = cancel_found o (get id o.owners)

remove_session : Owners → Option OwnedListenSession → Owners × Bool
remove_session o none = (o, false)
remove_session o (some s) =
    (record o { owners = remove s.id o.owners }, is_some (get s.id o.owners))

release_found : Owners → Option ℕ → Owners × Bool
unfolding remove_session
release_found o none = (o, false)
release_found o (some h) =
    remove_session (abort_listen_session h o) (get h (abort_listen_session h o).store)

unfoldable pub release_by_wallet : Text → Owners → Owners × Bool
unfolding release_found
release_by_wallet wallet o = release_found o (find_by_wallet wallet o.store o.owners)
