-- ===== src/Rib/Route/Keeps.antt =====
-- The four route operations of modified_poptrie/poptrie4.c and poptrie6.c keep the invariant of
-- the RIB, and deleting a route frees no node.
use poptrie_project.Base.{
  ℕ, zero, suc, ◌≡◌, refl, ◌∙◌, sym, subst, Bool, true, false, Option, none, some, [], ◌∷◌, ◌++◌,
  arith, Bool-cases, inl, inr,
}
use poptrie_project.Trie.{nil, node}
use poptrie_project.Rib.{Addr, RadixNode, Rib, Machine, memory, here, key_bit, del_propagate}
use poptrie_project.Rib.Inv.{
  IsCached, here-valid, here-invalid, length-snoc, memory-Loads, addr_eq_refl,
}
use poptrie_project.Rib.Marks.{del_propagate-IsCached, replace}
use poptrie_project.Rib.Route.{
  Status, ok, err, Outcome, failed, finish, withdraw, del_here, add_from, update_from, change_child,
  change_from, prune, prune_if, del_child, del_from,
}
use poptrie_project.Rib.Route.Inv.{
  finish-IsCached, add_here-Keeps, update_here-Keeps, change_here-IsCached, insert_from-IsCached,
}

-- Adding a route keeps every `ext` at the nearest valid node, on every outcome.
pub add_from-IsCached :
    (m : Machine) (updated : Bool) (mem : ℕ) (root : Rib) (prefix len nexthop : ℕ)
    → IsCached none [] root
    → IsCached none [] (add_from m updated mem root prefix len nexthop).tree
unfolding add_from
add_from-IsCached m updated mem root prefix len nexthop h =
    insert_from-IsCached m _ prefix len (add_here-Keeps updated nexthop len) len mem 0
      (memory m root) root [] none (omega arith) h (memory-Loads m root h) (λ q e. cc)

-- Updating a route keeps every `ext` at the nearest valid node, on every outcome.
pub update_from-IsCached :
    (m : Machine) (updated : Bool) (mem : ℕ) (root : Rib) (prefix len nexthop : ℕ)
    → IsCached none [] root
    → IsCached none [] (update_from m updated mem root prefix len nexthop).tree
unfolding update_from
update_from-IsCached m updated mem root prefix len nexthop h =
    insert_from-IsCached m _ prefix len (update_here-Keeps updated nexthop len) len mem 0
      (memory m root) root [] none (omega arith) h (memory-Loads m root h) (λ q e. cc)

change_child-IsCached :
    (b : Bool) (above : Option Addr) (path : Addr) (c : RadixNode) (l r : Rib)
    (call : Rib → Addr → Outcome)
    → IsCached above path (node c l r)
    → ((u : Rib) (p : Addr) (a : Option Addr) → IsCached a p u → IsCached a p (call u p).tree)
    → IsCached above path (change_child b c l r path call).tree
unfolding change_child
change_child-IsCached true above path c l r call h keep =
    (h.0, h.1, h.2, keep r (path ++ true ∷ []) (here c above path) h.3)
change_child-IsCached false above path c l r call h keep =
    (h.0, h.1, keep l (path ++ false ∷ []) (here c above path) h.2, h.3)

-- Changing a route keeps every `ext` at the nearest valid node, on every outcome.
pub change_from-IsCached :
    (m : Machine) (updated : Bool) (prefix nexthop rest depth : ℕ) (t : Rib) (path : Addr)
    (above : Option Addr)
    → IsCached above path t
    → IsCached above path (change_from m updated prefix nexthop rest depth t path).tree
unfolding change_from
change_from-IsCached m updated prefix nexthop zero depth nil path above h = tt
change_from-IsCached m updated prefix nexthop (suc rest) depth nil path above h = tt
change_from-IsCached m updated prefix nexthop zero depth (node c l r) path above h =
    change_here-IsCached updated above path c l r nexthop h
change_from-IsCached m updated prefix nexthop (suc rest) depth (node c l r) path above h =
    change_child-IsCached (key_bit m prefix depth) above path c l r _ h
      (λ u p a k. change_from-IsCached m updated prefix nexthop rest (suc depth) u p a k)

abbrev pub withdrawn : RadixNode → Rib → Rib → Option Addr → Addr → Rib
withdrawn c l r above path =
    let d : RadixNode = record c { valid = false; nexthop = 0; ext = above; mark = true } in
    node d (del_propagate path above l) (del_propagate path above r)

-- At a valid node the withdrawal reaches the node itself.
pub withdraw_lem :
    (c : RadixNode) (l r : Rib) (above : Option Addr) (path : Addr)
    → c.ext ≡ some path
    → withdraw c l r above path ≡ withdrawn c l r above path
unfolding withdraw
withdraw_lem c l r above path e = ground (arith, addr_eq_refl path)

withdraw-IsCached :
    (above : Option Addr) (path : Addr) (c : RadixNode) (l r : Rib)
    → c.valid ≡ true
    → IsCached above path (node c l r)
    → IsCached above path (withdraw c l r above path)
withdraw-IsCached above path c l r v h =
    let now = here-valid c above path v in
    let d : RadixNode = record c { valid = false; nexthop = 0; ext = above; mark = true } in
    let gone = here-invalid d above path refl in
    let own : replace path above (some path) ≡ above = rw (addr_eq_refl path) in
    let at : (b : Bool) (t : Rib)
        → IsCached (here c above path) (path ++ b ∷ []) t
        → IsCached (here d above path) (path ++ b ∷ []) (del_propagate path above t) =
      λ b t k.
        subst (λ a. IsCached a (path ++ b ∷ []) (del_propagate path above t)) (own ∙ sym gone)
          (del_propagate-IsCached path above (some path) (path ++ b ∷ []) t
            (omega (arith, length-snoc path b))
            (subst (λ a. IsCached a (path ++ b ∷ []) t) now k)) in
    rw (withdraw_lem c l r above path (h.0 ∙ now))
      (sym gone, (λ f. cc), at false l h.2, at true r h.3)

del_here-IsCached :
    (updated : Bool) (above : Option Addr) (path : Addr) (c : RadixNode) (l r : Rib)
    → IsCached above path (node c l r)
    → IsCached above path (del_here updated c l r path above).tree
unfolding del_here
del_here-IsCached updated above path c l r h = elim (Bool-cases c.valid) [
  | inr v ↦ subst (λ o. IsCached above path o.tree) (sym (unset v)) h
  | inl v ↦
      subst (λ o. IsCached above path o.tree) (sym (stored v))
        (finish-IsCached updated above path _ (some c.nexthop) none
          (withdraw-IsCached above path c l r v h))
]
  where
    unset : c.valid ≡ false → del_here updated c l r path above ≡ failed (node c l r)
    unset v = ground arith

    stored :
        c.valid ≡ true
        → del_here updated c l r path above
          ≡ finish updated (withdraw c l r above path) (some c.nexthop) none
    stored v = ground arith

prune-IsCached :
    (st : Status) (above : Option Addr) (path : Addr) (c : RadixNode) (l r : Rib)
    → IsCached above path (node c l r)
    → IsCached above path (prune_if st c l r)
unfolding prune
prune-IsCached err above path c l r h = h
prune-IsCached ok above path c nil nil h = tt
prune-IsCached ok above path c nil (node d s t) h = h
prune-IsCached ok above path c (node d s t) r h = h

del_child-IsCached :
    (b : Bool) (above : Option Addr) (path : Addr) (c : RadixNode) (l r : Rib)
    (call : Rib → Addr → Option Addr → Outcome)
    → IsCached above path (node c l r)
    → ((u : Rib) (p : Addr) (a : Option Addr) → IsCached a p u → IsCached a p (call u p a).tree)
    → IsCached above path (del_child b c l r path above call).tree
unfolding del_child
del_child-IsCached true above path c l r call h keep =
    prune-IsCached _ above path c l _
      (h.0, h.1, h.2, keep r (path ++ true ∷ []) (here c above path) h.3)
del_child-IsCached false above path c l r call h keep =
    prune-IsCached _ above path c _ r
      (h.0, h.1, keep l (path ++ false ∷ []) (here c above path) h.2, h.3)

-- Deleting a route keeps every `ext` at the nearest valid node, on every outcome.
pub del_from-IsCached :
    (m : Machine) (updated : Bool) (prefix rest depth : ℕ) (t : Rib) (path : Addr)
    (above : Option Addr)
    → IsCached above path t
    → IsCached above path (del_from m updated prefix rest depth t path above).tree
unfolding del_from
del_from-IsCached m updated prefix zero depth nil path above h = tt
del_from-IsCached m updated prefix (suc rest) depth nil path above h = tt
del_from-IsCached m updated prefix zero depth (node c l r) path above h =
    del_here-IsCached updated above path c l r h
del_from-IsCached m updated prefix (suc rest) depth (node c l r) path above h =
    del_child-IsCached (key_bit m prefix depth) above path c l r _ h
      (λ u p a k. del_from-IsCached m updated prefix rest (suc depth) u p a k)
