-- ===== src/Listen/Tests.antt =====
-- Tests and instances for the owners of listen streams.
use co_net_l0d.Base.{
  ℕ, ◌≡◌, refl, true, false, none, some, [], ◌∷◌, Text, codes, text_eq, eq_ignore_case, get, nat_eq,
  text_key,
}
use co_net_l0d.Listen.{OwnedListenSession, Owners, new_session, find_by_wallet, release_by_wallet}
use co_net_l0d.Listen.Release.{release_by_wallet-releases}
use co_net_l0d.Listen.Entry.{pick_listen_entry, pick_listen_entry-fresh}

abbrev stream : OwnedListenSession
stream = record {
  id = codes "0xab:l0:s1";
  owner = codes "0xab";
  session_id = some (codes "s1");
  listen_kind = codes "l0";
  cancelled = false;
  has_task = true;
}

named :
    new_session (codes "0xab") (some (codes "s1")) (codes "l0") ≡ record stream { has_task = false }
unfolding new_session
named = refl

abbrev owners : Owners
owners = record { store = (3, stream) ∷ []; owners = (codes "0xab:l0:s1", 3) ∷ [] }

stream_found : find_by_wallet (codes "0xAB") owners.store owners.owners ≡ some 3
unfolding find_by_wallet get
stream_found = refl

stream_stored :
    (get (codes "0xab:l0:s1") owners.owners ≡ some 3) × (get 3 owners.store ≡ some stream)
unfolding get
stream_stored = (refl, refl)

release_by_wallet-releases_example :
    let r = (release_by_wallet (codes "0xAB") owners).0 in
    (h : ℕ) × (s : OwnedListenSession) × (get h owners.store ≡ some s)
    × (eq_ignore_case s.owner (codes "0xAB") ≡ true)
    × (get h r.store ≡ some (record s { cancelled = true; has_task = false }))
    × (get s.id r.owners ≡ none)
release_by_wallet-releases_example =
    release_by_wallet-releases (codes "0xAB") owners (codes "0xab:l0:s1") 3 stream stream_stored.0
      stream_stored.1 refl

pick_listen_entry-fresh_example :
    (entry : Text) × (pick_listen_entry (codes "a" ∷ codes "b" ∷ []) (some (codes "a"))
      ≡ some entry)
    × (text_eq (codes "a") entry ≡ false)
pick_listen_entry-fresh_example =
    pick_listen_entry-fresh (codes "a" ∷ codes "b" ∷ []) (codes "a") refl
