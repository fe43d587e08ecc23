-- ===== src/Rib/Route.antt =====
-- Adding, changing, updating and deleting a route: `poptrie_route_add` and its kin with their
-- recursions in modified_poptrie/poptrie4.c, and the copies of them in poptrie6.c.
-- The state here is the RIB and the FIB mapping table. `_update_subtree`, which rebuilds the
-- arrays of the poptrie and touches neither, enters by its return code: `updated` says that it is
-- not negative. `_clear_mark`, its last step, is part of the model.
pub mod Inv
pub mod Keeps
pub mod Reach
pub mod Size
pub mod Effect
pub mod Laws
pub mod Refs
mod Tests
use poptrie_project.Base.{
  ℕ, zero, suc, Bool, true, false, not, Option, none, some, List, [], ◌∷◌, ◌++◌, if◌then◌else◌,
  ◌==◌, get_elem?,
}
use mathlib.Core.Option
use poptrie_project.Trie.{nil, node}
use poptrie_project.Fib.{Fib, FibEntry, fib_ref, fib_deref, fib_release, leaf_of}
use poptrie_project.Rib.{
  Addr, RadixNode, Rib, Machine, Memory, memory, store, key_bit, add_propagate, change_propagate,
  del_propagate, clear_mark, rib_lookup, here,
}

-- 0 and -1.
pub data Status : Type 0 where
  ok err : Status

-- The outcome of a recursion: the return code, the subtree after it, and the FIB index whose
-- count it takes down.
pub record Outcome : Type 0 where
  pub status : Status
  pub tree : Rib
  pub dropped : Option ℕ

abbrev pub failed : Rib → Outcome
failed t = record { status = err; tree = t; dropped = none }

-- The end of `_update_subtree` at a node: marks are cleared if the update went well.
pub finish : Bool → Rib → Option ℕ → Option ℕ → Outcome
unfolding clear_mark
finish true t on_ok on_err = record { status = ok; tree = clear_mark t; dropped = on_ok }
finish false t on_ok on_err = record { status = err; tree = t; dropped = on_err }

-- The allocation at the head of `_route_add` and `_route_update`: the node with its children, the
-- memory with it, and the calls of `malloc` left that succeed.
pub record Slot : Type 0 where
  pub mem : ℕ
  pub load : Memory
  pub cell : RadixNode
  pub left : Rib
  pub right : Rib

abbrev pub new_node : Machine → Option Addr → RadixNode
new_node m ext = record m.uninit { valid = false; ext = ext; mark = false }

pub alloc : Machine → ℕ → Memory → Rib → Addr → Option Addr → Option Slot
alloc m zero load nil path ext = none
alloc m (suc mem) load nil path ext = some (record {
  mem = mem;
  load = store load path (new_node m ext);
  cell = new_node m ext;
  left = nil;
  right = nil;
})
alloc m mem load (node c l r) path ext =
    some (record { mem = mem; load = load; cell = c; left = l; right = r })

-- A valid node made of a node: `valid`, `nexthop` and `len` are written, and the route is
-- propagated below it.
pub announce : Memory → RadixNode → Rib → Rib → ℕ → ℕ → Addr → Rib
unfolding add_propagate
announce load c l r nexthop len path =
    let c' : RadixNode = record c { valid = true; nexthop = nexthop; len = len } in
    add_propagate (store load path c') path (node c' l r)

-- The new next hop of a valid node, and the marks below it.
pub rehop : RadixNode → Rib → Rib → ℕ → Addr → Rib
unfolding change_propagate
rehop c l r nexthop path = change_propagate path (node (record c { nexthop = nexthop }) l r)

-- The route withdrawn at a valid node: `ext` takes the place of the node below it.
pub withdraw : RadixNode → Rib → Rib → Option Addr → Addr → Rib
unfolding del_propagate
withdraw c l r ext path = invalidate (del_propagate path ext (node c l r))
  where
    invalidate : Rib → Rib
    invalidate nil = nil
    invalidate (node c' l' r') = node (record c' { valid = false; nexthop = 0 }) l' r'

-- The branch `len == depth` of `_route_add`; `updated` is the outcome of `_update_subtree`.
pub add_here : Bool → Slot → ℕ → ℕ → Addr → Outcome
unfolding finish announce
add_here updated s nexthop len path =
    if s.cell.valid
    then failed (node s.cell s.left s.right)
    else finish updated (announce s.load s.cell s.left s.right nexthop len path) none none

-- The branch `len == depth` of `_route_change` at a node.
pub change_here : Bool → RadixNode → Rib → Rib → ℕ → Addr → Outcome
unfolding finish rehop
change_here updated c l r nexthop path =
    if not c.valid
    then failed (node c l r)
    else if c.nexthop == nexthop
    then record { status = ok; tree = node c l r; dropped = some nexthop }
    else finish updated (rehop c l r nexthop path) (some c.nexthop) (some c.nexthop)

-- The branch `len == depth` of `_route_update`.
pub update_here : Bool → Slot → ℕ → ℕ → Addr → Outcome
unfolding add_here change_here
update_here updated s nexthop len path =
    if s.cell.valid
    then change_here updated s.cell s.left s.right nexthop path
    else add_here updated s nexthop len path

-- The branch `len == depth` of `_route_del` at a node.
pub del_here : Bool → RadixNode → Rib → Rib → Addr → Option Addr → Outcome
unfolding finish withdraw
del_here updated c l r path ext =
    if not c.valid
    then failed (node c l r)
    else finish updated (withdraw c l r ext path) (some c.nexthop) none

-- The recursion of `_route_add` and `_route_update`, which agree but for the branch `target` at
-- `len == depth`. `rest` is `len - depth`.
module _ (m : Machine) (target : Slot → Addr → Outcome) (prefix : ℕ) where
  -- Into the child on the side of the bit.
  pub insert_child :
      Bool → Slot → Addr → Option Addr → (Memory → Rib → Addr → Option Addr → Outcome) → Outcome
  insert_child true s path ext call =
      let o = call s.load s.right (path ++ true ∷ []) (here s.cell ext path) in
      record o { tree = node s.cell s.left o.tree }
  insert_child false s path ext call =
      let o = call s.load s.left (path ++ false ∷ []) (here s.cell ext path) in
      record o { tree = node s.cell o.tree s.right }

  pub insert_from : ℕ → ℕ → ℕ → Memory → Rib → Addr → Option Addr → Outcome
  insert_from zero mem depth load t path ext = elim (alloc m mem load t path ext) [
    | none ↦ failed t
    | some s ↦ target s path
  ]
  insert_from (suc rest) mem depth load t path ext = elim (alloc m mem load t path ext) [
    | none ↦ failed t
    | some s ↦
        insert_child (key_bit m prefix depth) s path ext
          (λ load' u p e. insert_from rest s.mem (suc depth) load' u p e)
  ]

-- `_route_add` from the root.
pub add_from : Machine → Bool → ℕ → Rib → ℕ → ℕ → ℕ → Outcome
unfolding insert_from alloc insert_child add_here key_bit here
add_from m updated mem root prefix len nexthop =
    insert_from m (λ s path. add_here updated s nexthop len path) prefix len mem 0 (memory m root)
      root [] none

-- `_route_update` from the root.
pub update_from : Machine → Bool → ℕ → Rib → ℕ → ℕ → ℕ → Outcome
unfolding insert_from alloc insert_child update_here key_bit here
update_from m updated mem root prefix len nexthop =
    insert_from m (λ s path. update_here updated s nexthop len path) prefix len mem 0
      (memory m root) root [] none

-- `_route_change` into a child.
pub change_child : Bool → RadixNode → Rib → Rib → Addr → (Rib → Addr → Outcome) → Outcome
change_child true c l r path call =
    let o = call r (path ++ true ∷ []) in record o { tree = node c l o.tree }
change_child false c l r path call =
    let o = call l (path ++ false ∷ []) in record o { tree = node c o.tree r }

-- `_route_change`.
pub change_from : Machine → Bool → ℕ → ℕ → ℕ → ℕ → Rib → Addr → Outcome
unfolding change_child change_here key_bit
change_from m updated prefix nexthop rest depth nil path = failed nil
change_from m updated prefix nexthop zero depth (node c l r) path =
    change_here updated c l r nexthop path
change_from m updated prefix nexthop (suc rest) depth (node c l r) path =
    change_child (key_bit m prefix depth) c l r path
      (λ u p. change_from m updated prefix nexthop rest (suc depth) u p)

-- The end of `_route_del` at an inner node: a node without children is freed.
pub prune : RadixNode → Rib → Rib → Rib
prune c nil nil = nil
prune c nil (node rc rl rr) = node c nil (node rc rl rr)
prune c (node lc ll lr) r = node c (node lc ll lr) r

abbrev pub prune_if : Status → RadixNode → Rib → Rib → Rib
prune_if ok c l r = prune c l r
prune_if err c l r = node c l r

-- `_route_del` into a child.
pub del_child :
    Bool
    → RadixNode
    → Rib
    → Rib
    → Addr
    → Option Addr
    → (Rib → Addr → Option Addr → Outcome)
    → Outcome
unfolding prune
del_child true c l r path ext call =
    let o = call r (path ++ true ∷ []) (here c ext path) in
    record o { tree = prune_if o.status c l o.tree }
del_child false c l r path ext call =
    let o = call l (path ++ false ∷ []) (here c ext path) in
    record o { tree = prune_if o.status c o.tree r }

-- `_route_del`.
pub del_from : Machine → Bool → ℕ → ℕ → ℕ → Rib → Addr → Option Addr → Outcome
unfolding del_child del_here key_bit here
del_from m updated prefix rest depth nil path ext = failed nil
del_from m updated prefix zero depth (node c l r) path ext = del_here updated c l r path ext
del_from m updated prefix (suc rest) depth (node c l r) path ext =
    del_child (key_bit m prefix depth) c l r path ext
      (λ u p e. del_from m updated prefix rest (suc depth) u p e)

-- The RIB and the FIB mapping table of `struct poptrie`.
pub record Routes : Type 0 where
  pub rib : Rib
  pub fib : Fib

-- `poptrie->fib.entries[n].refs--` where a recursion does it.
abbrev pub drop_ref : Fib → Option ℕ → Fib
drop_ref es none = es
drop_ref es (some n) = fib_release es n

-- `poptrie_route_add`.
pub route_add : Machine → Bool → ℕ → Routes → ℕ → ℕ → ℕ → Status × Routes
unfolding add_from fib_ref fib_deref
route_add m updated mem s prefix len hop =
    let (n, fib) = fib_ref s.fib hop in
    let o = add_from m updated mem s.rib prefix len (leaf_of n) in
    elim o.status [
      | ok ↦ (ok, record { rib = o.tree; fib = fib })
      | err ↦ (err, record { rib = o.tree; fib = fib_deref fib hop })
    ]

-- `poptrie_route_change`.
pub route_change : Machine → Bool → Routes → ℕ → ℕ → ℕ → Status × Routes
unfolding change_from fib_ref fib_release
route_change m updated s prefix len hop =
    let (n, fib) = fib_ref s.fib hop in
    let o = change_from m updated prefix (leaf_of n) len 0 s.rib [] in
    (o.status, record { rib = o.tree; fib = drop_ref fib o.dropped })

-- `poptrie_route_update`.
pub route_update : Machine → Bool → ℕ → Routes → ℕ → ℕ → ℕ → Status × Routes
unfolding update_from fib_ref fib_release
route_update m updated mem s prefix len hop =
    let (n, fib) = fib_ref s.fib hop in
    let o = update_from m updated mem s.rib prefix len (leaf_of n) in
    (o.status, record { rib = o.tree; fib = drop_ref fib o.dropped })

-- `poptrie_route_del`.
pub route_del : Machine → Bool → Routes → ℕ → ℕ → Status × Routes
unfolding del_from fib_release
route_del m updated s prefix len =
    let o = del_from m updated prefix len 0 s.rib [] none in
    (o.status, record { rib = o.tree; fib = drop_ref s.fib o.dropped })

-- `poptrie_rib_lookup`: the entry of the FIB mapping table, none outside it.
pub rib_lookup_hop : Machine → Routes → ℕ → Option ℕ
unfolding rib_lookup
rib_lookup_hop m s addr = Option.map (λ e. e.hop) (get_elem? s.fib (rib_lookup m s.rib addr))
