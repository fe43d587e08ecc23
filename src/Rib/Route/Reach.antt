-- ===== src/Rib/Route/Reach.antt =====
-- The RIBs that sequences of the route operations of modified_poptrie/poptrie4.c and poptrie6.c lead to.
use poptrie_project.Base.{ℕ, suc, ◌≡◌, Bool, none, some, []}
use poptrie_project.Trie.{nil, bits, cell_at}
use poptrie_project.Rib.{RadixNode, Machine, Rib, memory, ext_nh, key_bit, rib_lookup}
use poptrie_project.Rib.Inv.{IsCached}
use poptrie_project.Rib.Cache.{rib_lookup-ext_nh}
use poptrie_project.Rib.Route.{add_from, update_from, change_from, del_from}
use poptrie_project.Rib.Route.Keeps.{
  add_from-IsCached, update_from-IsCached, change_from-IsCached, del_from-IsCached,
}

-- A run of operations, each of which may fail: `mem` allocations succeed, and `updated` tells
-- whether the update of the arrays does.
pub data Reachable (m : Machine) : Rib → Type 0 where
  start : Reachable m nil
  add :
      (root : Rib) (updated : Bool) (mem prefix len nexthop : ℕ)
      → Reachable m root
      → Reachable m (add_from m updated mem root prefix len nexthop).tree
  update :
      (root : Rib) (updated : Bool) (mem prefix len nexthop : ℕ)
      → Reachable m root
      → Reachable m (update_from m updated mem root prefix len nexthop).tree
  change :
      (root : Rib) (updated : Bool) (prefix len nexthop : ℕ)
      → Reachable m root
      → Reachable m (change_from m updated prefix nexthop len 0 root []).tree
  del :
      (root : Rib) (updated : Bool) (prefix len : ℕ)
      → Reachable m root
      → Reachable m (del_from m updated prefix len 0 root [] none).tree

-- Every RIB that additions, updates, changes and deletions lead to, failed ones included, keeps the
-- invariant of the cached pointers: each node's `ext` is the nearest valid node from it up.
pub Reachable-IsCached : (m : Machine) (root : Rib) → Reachable m root → IsCached none [] root
Reachable-IsCached m _ start = tt
Reachable-IsCached m _ (add root updated mem prefix len nexthop h) =
    add_from-IsCached m updated mem root prefix len nexthop (Reachable-IsCached m root h)
Reachable-IsCached m _ (update root updated mem prefix len nexthop h) =
    update_from-IsCached m updated mem root prefix len nexthop (Reachable-IsCached m root h)
Reachable-IsCached m _ (change root updated prefix len nexthop h) =
    change_from-IsCached m updated prefix nexthop len 0 root [] none (Reachable-IsCached m root h)
Reachable-IsCached m _ (del root updated prefix len h) =
    del_from-IsCached m updated prefix len 0 root [] none (Reachable-IsCached m root h)

-- So in such a RIB `EXT_NH` of the last node on the path of an address is what the lookup in the RIB
-- returns for it.
pub Reachable-ext_nh :
    (m : Machine) (root : Rib) (addr n : ℕ) (c : RadixNode)
    → Reachable m root
    → cell_at root (bits (key_bit m addr) 0 n) ≡ some c
    → cell_at root (bits (key_bit m addr) 0 (suc n)) ≡ none
    → rib_lookup m root addr ≡ ext_nh (memory m root) c
Reachable-ext_nh m root addr n c h at last =
    rib_lookup-ext_nh m root addr n c (Reachable-IsCached m root h) at last
