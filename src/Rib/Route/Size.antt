-- ===== src/Rib/Route/Size.antt =====
-- The nodes of the RIB under `_route_del` of modified_poptrie/poptrie4.c and poptrie6.c.
use poptrie_project.Base.{
  ℕ, zero, suc, ◌≡◌, refl, ◌∙◌, ap, Bool, true, false, Option, [], ◌∷◌, ◌++◌, arith, ◌<◌,
}
use poptrie_project.Trie.{nil, node, size}
use poptrie_project.Rib.{Addr, RadixNode, Rib, Machine, key_bit, here, del_propagate, clear_mark}
use poptrie_project.Rib.Route.{
  Status, ok, err, Outcome, finish, withdraw, del_here, prune, prune_if, del_child, del_from,
}

size-del_propagate :
    (q : Addr) (next : Option Addr) (t : Rib) → size (del_propagate q next t) ≡ size t
unfolding del_propagate
size-del_propagate q next nil = refl
size-del_propagate q next (node c l r) =
    ground (arith, size-del_propagate q next l, size-del_propagate q next r)

size-clear_mark : (t : Rib) → size (clear_mark t) ≡ size t
unfolding clear_mark
size-clear_mark nil = refl
size-clear_mark (node c l r) = ground (arith, size-clear_mark l, size-clear_mark r)

size-withdraw :
    (c : RadixNode) (l r : Rib) (ext : Option Addr) (path : Addr)
    → size (withdraw c l r ext path) ≡ size (node c l r)
unfolding withdraw
size-withdraw c l r ext path =
    ground (arith, size-del_propagate path ext l, size-del_propagate path ext r)

size-del_here :
    (updated : Bool) (c : RadixNode) (l r : Rib) (path : Addr) (ext : Option Addr)
    → size (del_here updated c l r path ext).tree ≡ size (node c l r)
unfolding del_here finish
size-del_here true c l r path ext =
    ground (arith, size-withdraw c l r ext path, size-clear_mark (withdraw c l r ext path))
size-del_here false c l r path ext = ground (arith, size-withdraw c l r ext path)

-- An outcome at `u` has as many nodes, and where there are none it is a failure.
abbrev pub Stays : Rib → Outcome → Type 0
Stays u o = (size o.tree ≡ size u) × (u ≡ nil → o.status ≡ err)

prune_left : (st : Status) (c : RadixNode) (l r : Rib) → 0 < size l → prune_if st c l r ≡ node c l r
unfolding prune
prune_left err c l r h = refl
prune_left ok c nil r h = elim h [ ]
prune_left ok c (node d s t) r h = refl

prune_right :
    (st : Status) (c : RadixNode) (l r : Rib) → 0 < size r → prune_if st c l r ≡ node c l r
unfolding prune
prune_right err c l r h = refl
prune_right ok c nil nil h = elim h [ ]
prune_right ok c nil (node d s t) h = refl
prune_right ok c (node d s t) r h = refl

prune_err : (st : Status) (c : RadixNode) (l r : Rib) → st ≡ err → prune_if st c l r ≡ node c l r
prune_err ok c l r e = absurd (ground arith)
prune_err err c l r e = refl

-- A node keeps its place below the recursion: a missing child makes it fail.
pub kept_right :
    (c : RadixNode) (l u : Rib) (o : Outcome)
    → Stays u o
    → prune_if o.status c l o.tree ≡ node c l o.tree
kept_right c l nil o h = prune_err o.status c l o.tree (h.1 refl)
kept_right c l (node d s t) o h = prune_right o.status c l o.tree (omega (arith, h.0))

pub kept_left :
    (c : RadixNode) (u r : Rib) (o : Outcome)
    → Stays u o
    → prune_if o.status c o.tree r ≡ node c o.tree r
kept_left c nil r o h = prune_err o.status c o.tree r (h.1 refl)
kept_left c (node d s t) r o h = prune_left o.status c o.tree r (omega (arith, h.0))

size-del_child :
    (b : Bool) (c : RadixNode) (l r : Rib) (path : Addr) (ext : Option Addr)
    (call : Rib → Addr → Option Addr → Outcome)
    → ((u : Rib) (p : Addr) (e : Option Addr) → Stays u (call u p e))
    → size (del_child b c l r path ext call).tree ≡ size (node c l r)
unfolding del_child
size-del_child true c l r path ext call h =
    let o = call r (path ++ true ∷ []) (here c ext path) in
    ap size (kept_right c l r o (h r _ _))
    ∙ omega (arith, (h r (path ++ true ∷ []) (here c ext path)).0)
size-del_child false c l r path ext call h =
    let o = call l (path ++ false ∷ []) (here c ext path) in
    ap size (kept_left c l r o (h l _ _))
    ∙ omega (arith, (h l (path ++ false ∷ []) (here c ext path)).0)

del_from_nil :
    (m : Machine) (updated : Bool) (prefix rest depth : ℕ) (t : Rib) (path : Addr)
    (ext : Option Addr)
    → t ≡ nil
    → (del_from m updated prefix rest depth t path ext).status ≡ err
unfolding del_from
del_from_nil m updated prefix zero depth nil path ext e = refl
del_from_nil m updated prefix (suc rest) depth nil path ext e = refl
del_from_nil m updated prefix rest depth (node c l r) path ext e = absurd (ground arith)

-- Deleting a route frees no node: the test for a node without children at the end of `_route_del`
-- never succeeds, since the child on the path is still there.
pub size-del_from :
    (m : Machine) (updated : Bool) (prefix rest depth : ℕ) (t : Rib) (path : Addr)
    (ext : Option Addr)
    → size (del_from m updated prefix rest depth t path ext).tree ≡ size t
unfolding del_from
size-del_from m updated prefix zero depth nil path ext = refl
size-del_from m updated prefix (suc rest) depth nil path ext = refl
size-del_from m updated prefix zero depth (node c l r) path ext =
    size-del_here updated c l r path ext
size-del_from m updated prefix (suc rest) depth (node c l r) path ext =
    size-del_child (key_bit m prefix depth) c l r path ext _ (λ u p e. (
      size-del_from m updated prefix rest (suc depth) u p e,
      del_from_nil m updated prefix rest (suc depth) u p e,
    ))

pub del_from-Stays :
    (m : Machine) (updated : Bool) (prefix rest depth : ℕ) (t : Rib) (path : Addr)
    (ext : Option Addr)
    → Stays t (del_from m updated prefix rest depth t path ext)
del_from-Stays m updated prefix rest depth t path ext = (
  size-del_from m updated prefix rest depth t path ext,
  del_from_nil m updated prefix rest depth t path ext,
)
