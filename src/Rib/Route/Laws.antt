-- ===== src/Rib/Route/Laws.antt =====
-- The route operations from the root of the RIB against their specifications
-- (modified_poptrie/poptrie4.c and poptrie6.c).
use poptrie_project.Base.{
  ℕ, zero, suc, ◌+◌, ◌≤◌, ◌<◌, ◌≡◌, refl, ◌∙◌, sym, ap, subst, Bool, true, false, Option, none,
  some, List, [], ◌∷◌, ◌++◌, ◌⊎◌, arith, Option-cases, inl, inr, some_eq,
}
use poptrie_project.Trie.{nil, node, bits, table}
use poptrie_project.Rib.{Addr, RadixNode, Rib, Machine, Memory, memory, here, key_bit}
use poptrie_project.Rib.Table.{entry}
use poptrie_project.Rib.Route.{
  err, Outcome, failed, Slot, alloc, add_here, update_here, insert_child, insert_from, add_from,
  update_from, change_child, change_from, del_child, del_from,
}
use poptrie_project.Rib.Route.Size.{Stays, kept_right, kept_left, del_from-Stays}
use poptrie_project.Rib.Route.Effect.{
  Spec, AddSpec, ChangeSpec, UpdateSpec, DelSpec, Acts, ActsHere, Acts-right, Acts-left,
  add_here-Acts, change_here-Acts, update_here-Acts, del_here-Acts,
}

Acts-here :
    (spec : Spec) (short : Type 0) (t : Rib) (o : Outcome)
    → ActsHere spec t o
    → Acts spec short [] t o
Acts-here spec short t o h = record { at = inl h.0; others = h.1 }

Acts-failed :
    (spec : Spec) (short : Type 0) (p : List Bool) (t : Rib)
    → short
    → Acts spec short p t (failed t)
Acts-failed spec short p t s = record { at = inr (refl, refl, refl, s); others = λ q ne. refl }

-- The allocation keeps the table and takes at most one call of `malloc`.
Acts-slot :
    (spec : Spec) (few less : Type 0) (p : List Bool) (t u : Rib) (o : Outcome)
    → ((q : List Bool) → table entry u q ≡ table entry t q)
    → (few → less)
    → Acts spec few p u o
    → Acts spec less p t o
Acts-slot spec few less p t u o same more a = record {
  at = at (a.at);
  others = λ q ne. a.others q ne ∙ same q;
}
  where
    at :
        spec (table entry u p) o.status (table entry o.tree p) o.dropped
          ⊎ ((o.status ≡ err) × (table entry o.tree p ≡ table entry u p) × (o.dropped ≡ none) × few)
        → spec (table entry t p) o.status (table entry o.tree p) o.dropped
          ⊎ ((o.status ≡ err)
              × (table entry o.tree p ≡ table entry t p)
              × (o.dropped ≡ none)
              × less)
    at (inl h) = inl (subst (λ v. spec v o.status (table entry o.tree p) o.dropped) (same p) h)
    at (inr (e, v, d, s)) = inr (e, v ∙ same p, d, more s)

alloc-table :
    (m : Machine) (mem : ℕ) (load : Memory) (t : Rib) (path : Addr) (ext : Option Addr) {s : Slot}
    → alloc m mem load t path ext ≡ some s
    → (q : List Bool) → table entry (node s.cell s.left s.right) q ≡ table entry t q
unfolding alloc
alloc-table m zero load nil path ext e q = cc
alloc-table m (suc mem) load nil path ext e [] = ground arith
alloc-table m (suc mem) load nil path ext e (true ∷ q) = ground arith
alloc-table m (suc mem) load nil path ext e (false ∷ q) = ground arith
alloc-table m zero load (node c l r) path ext e q =
    ap (λ s. table entry (node s.cell s.left s.right) q) (sym (some_eq e))
alloc-table m (suc mem) load (node c l r) path ext e q =
    ap (λ s. table entry (node s.cell s.left s.right) q) (sym (some_eq e))

alloc-mem :
    (m : Machine) (mem : ℕ) (load : Memory) (t : Rib) (path : Addr) (ext : Option Addr) {s : Slot}
    → alloc m mem load t path ext ≡ some s
    → mem ≤ s.mem + 1
unfolding alloc
alloc-mem m zero load nil path ext e = cc
alloc-mem m (suc mem) load nil path ext e = omega (arith, ap (λ s. s.mem) (some_eq e))
alloc-mem m zero load (node c l r) path ext e = omega arith
alloc-mem m (suc mem) load (node c l r) path ext e = omega (arith, ap (λ s. s.mem) (some_eq e))

alloc_short :
    (m : Machine) (mem : ℕ) (load : Memory) (t : Rib) (path : Addr) (ext : Option Addr)
    → alloc m mem load t path ext ≡ none
    → mem ≡ 0
unfolding alloc
alloc_short m zero load t path ext e = refl
alloc_short m (suc mem) load nil path ext e = cc
alloc_short m (suc mem) load (node c l r) path ext e = cc

module _ (m : Machine) (spec : Spec) (target : Slot → Addr → Outcome) (prefix : ℕ)
    (acts : (s : Slot) (path : Addr)
      → ActsHere spec (node s.cell s.left s.right) (target s path)) where
  insert_child-Acts :
      (b : Bool) (s : Slot) (path : Addr) (ext : Option Addr)
      (call : Memory → Rib → Addr → Option Addr → Outcome) (short : Type 0) (p : List Bool)
      → ((load : Memory) (u : Rib) (q : Addr) (e : Option Addr)
          → Acts spec short p u (call load u q e))
      → Acts spec short
          (b ∷ p)
          (node s.cell s.left s.right)
          (insert_child m target prefix b s path ext call)
  unfolding insert_child
  insert_child-Acts true s path ext call short p h =
      Acts-right spec short p s.cell s.left s.right
        (call s.load s.right (path ++ true ∷ []) (here s.cell ext path)) _ refl refl (λ q. refl)
        (h _ _ _ _)
  insert_child-Acts false s path ext call short p h =
      Acts-left spec short p s.cell s.left s.right
        (call s.load s.left (path ++ false ∷ []) (here s.cell ext path)) _ refl refl (λ q. refl)
        (h _ _ _ _)

  insert_from-Acts :
      (rest mem depth : ℕ) (load : Memory) (t : Rib) (path : Addr) (ext : Option Addr)
      → Acts spec
          (mem ≤ rest)
          (bits (key_bit m prefix) depth rest)
          t
          (insert_from m target prefix rest mem depth load t path ext)
  unfolding insert_from
  insert_from-Acts zero mem depth load t path ext =
      elim (Option-cases (alloc m mem load t path ext)) [
        | inl a ↦
            rw (insert_from, a)
              (Acts-failed spec _ _ t (omega (arith, alloc_short m mem load t path ext a)))
        | inr (s, a) ↦
            rw (insert_from, a)
              (Acts-slot spec (mem ≤ 0) (mem ≤ 0) [] t (node s.cell s.left s.right) _
                (alloc-table m mem load t path ext a) (λ h. h) (Acts-here spec _ _ _ (acts s path)))
      ]
  insert_from-Acts (suc rest) mem depth load t path ext =
      elim (Option-cases (alloc m mem load t path ext)) [
        | inl a ↦
            rw (insert_from, a)
              (Acts-failed spec _ _ t (omega (arith, alloc_short m mem load t path ext a)))
        | inr (s, a) ↦
            rw (insert_from, a)
              (Acts-slot spec (s.mem ≤ rest) (mem ≤ suc rest) _ t (node s.cell s.left s.right) _
                (alloc-table m mem load t path ext a)
                (λ h. omega (arith, alloc-mem m mem load t path ext a))
                (insert_child-Acts (key_bit m prefix depth) s path ext _ (s.mem ≤ rest) _
                  (λ load' u p e. insert_from-Acts rest s.mem (suc depth) load' u p e)))
      ]

-- With enough memory, and an update that goes well, an insertion meets its specification.
with_memory :
    (spec : Spec) (mem len : ℕ) (p : List Bool) (t : Rib) (o : Outcome)
    → len < mem
    → Acts spec (mem ≤ len) p t o
    → Acts spec ⊥ p t o
with_memory spec mem len p t o enough a =
    Acts-slot spec (mem ≤ len) ⊥ p t t o (λ q. refl) (λ h. omega arith) a

-- `_route_add` from the root, where `_update_subtree` goes well: a new route is added with its
-- next hop, a known one is refused, and no other prefix changes. Where `malloc` fails, which takes
-- that it is not called successfully once for each level, the table stays as it was.
pub add_from-Acts :
    (m : Machine) (mem : ℕ) (root : Rib) (prefix len nexthop : ℕ)
    → Acts
        (AddSpec nexthop)
        (mem ≤ len)
        (bits (key_bit m prefix) 0 len)
        root
        (add_from m true mem root prefix len nexthop)
unfolding add_from
add_from-Acts m mem root prefix len nexthop =
    insert_from-Acts m (AddSpec nexthop) (λ s path. add_here true s nexthop len path) prefix
      (λ s path. add_here-Acts s nexthop len path) len mem 0 (memory m root) root [] none

-- `_route_update` from the root, where `_update_subtree` goes well: the route has the next hop
-- afterwards, and no other prefix changes; where `malloc` fails the table stays as it was.
pub update_from-Acts :
    (m : Machine) (mem : ℕ) (root : Rib) (prefix len nexthop : ℕ)
    → Acts
        (UpdateSpec nexthop)
        (mem ≤ len)
        (bits (key_bit m prefix) 0 len)
        root
        (update_from m true mem root prefix len nexthop)
unfolding update_from
update_from-Acts m mem root prefix len nexthop =
    insert_from-Acts m (UpdateSpec nexthop) (λ s path. update_here true s nexthop len path) prefix
      (λ s path. update_here-Acts s nexthop len path) len mem 0 (memory m root) root [] none

-- A missing node: the operation fails, and there is no route.
Acts-nil : (spec : Spec) (p : List Bool) → spec none err none none → Acts spec ⊥ p nil (failed nil)
Acts-nil spec p h = record { at = inl h; others = λ q ne. refl }

change_child-Acts :
    (spec : Spec) (b : Bool) (c : RadixNode) (l r : Rib) (path : Addr) (call : Rib → Addr → Outcome)
    (p : List Bool)
    → ((u : Rib) (q : Addr) → Acts spec ⊥ p u (call u q))
    → Acts spec ⊥ (b ∷ p) (node c l r) (change_child b c l r path call)
unfolding change_child
change_child-Acts spec true c l r path call p h =
    Acts-right spec ⊥ p c l r (call r (path ++ true ∷ [])) _ refl refl (λ q. refl) (h _ _)
change_child-Acts spec false c l r path call p h =
    Acts-left spec ⊥ p c l r (call l (path ++ false ∷ [])) _ refl refl (λ q. refl) (h _ _)

-- `_route_change`, where `_update_subtree` goes well: a known route has the next hop afterwards,
-- an unknown one is refused, and no other prefix changes.
pub change_from-Acts :
    (m : Machine) (prefix nexthop rest depth : ℕ) (t : Rib) (path : Addr)
    → Acts
        (ChangeSpec nexthop)
        ⊥
        (bits (key_bit m prefix) depth rest)
        t
        (change_from m true prefix nexthop rest depth t path)
unfolding change_from
change_from-Acts m prefix nexthop zero depth nil path =
    Acts-nil (ChangeSpec nexthop) _ (refl, refl, refl)
change_from-Acts m prefix nexthop (suc rest) depth nil path =
    Acts-nil (ChangeSpec nexthop) _ (refl, refl, refl)
change_from-Acts m prefix nexthop zero depth (node c l r) path =
    Acts-here (ChangeSpec nexthop) ⊥ _ _ (change_here-Acts c l r nexthop path)
change_from-Acts m prefix nexthop (suc rest) depth (node c l r) path =
    change_child-Acts (ChangeSpec nexthop) (key_bit m prefix depth) c l r path _ _
      (λ u q. change_from-Acts m prefix nexthop rest (suc depth) u q)

del_child-Acts :
    (spec : Spec) (b : Bool) (c : RadixNode) (l r : Rib) (path : Addr) (ext : Option Addr)
    (call : Rib → Addr → Option Addr → Outcome) (p : List Bool)
    → ((u : Rib) (q : Addr) (e : Option Addr) → Acts spec ⊥ p u (call u q e))
    → ((u : Rib) (q : Addr) (e : Option Addr) → Stays u (call u q e))
    → Acts spec ⊥ (b ∷ p) (node c l r) (del_child b c l r path ext call)
unfolding del_child
del_child-Acts spec true c l r path ext call p h stays =
    let o = call r (path ++ true ∷ []) (here c ext path) in
    Acts-right spec ⊥ p c l r o _ refl refl
      (λ q. ap (λ t. table entry t q) (kept_right c l r o (stays r _ _))) (h _ _ _)
del_child-Acts spec false c l r path ext call p h stays =
    let o = call l (path ++ false ∷ []) (here c ext path) in
    Acts-left spec ⊥ p c l r o _ refl refl
      (λ q. ap (λ t. table entry t q) (kept_left c l r o (stays l _ _))) (h _ _ _)

-- `_route_del`, where `_update_subtree` goes well: a known route is gone afterwards, an unknown
-- one is refused, and no other prefix changes.
pub del_from-Acts :
    (m : Machine) (prefix rest depth : ℕ) (t : Rib) (path : Addr) (ext : Option Addr)
    → Acts DelSpec ⊥
        (bits (key_bit m prefix) depth rest)
        t
        (del_from m true prefix rest depth t path ext)
unfolding del_from
del_from-Acts m prefix zero depth nil path ext = Acts-nil DelSpec _ (refl, refl, refl)
del_from-Acts m prefix (suc rest) depth nil path ext = Acts-nil DelSpec _ (refl, refl, refl)
del_from-Acts m prefix zero depth (node c l r) path ext =
    Acts-here DelSpec ⊥ _ _ (del_here-Acts c l r path ext)
del_from-Acts m prefix (suc rest) depth (node c l r) path ext =
    del_child-Acts DelSpec (key_bit m prefix depth) c l r path ext _ _
      (λ u q e. del_from-Acts m prefix rest (suc depth) u q e)
      (λ u q e. del_from-Stays m true prefix rest (suc depth) u q e)
