-- ===== src/Rib/Route/Effect.antt =====
-- What the route operations of modified_poptrie/poptrie4.c and poptrie6.c do to the routing table
-- of the RIB.
use poptrie_project.Base.{
  ℕ, ◌≡◌, ◌≢◌, refl, ◌∙◌, sym, ap, subst, Bool, true, false, Option, none, some, List, [], ◌∷◌, ◌⊎◌,
  arith, Bool-cases, inl, inr, ◌==◌,
}
use poptrie_project.Trie.{node, table}
use poptrie_project.Rib.{Addr, RadixNode, Rib, Memory, store, del_propagate}
use poptrie_project.Rib.Table.{
  entry, table-add_propagate, table-change_propagate, table-del_propagate, table-clear_mark,
}
use poptrie_project.Rib.Route.{
  Status, ok, err, Outcome, finish, Slot, announce, rehop, withdraw, add_here, change_here,
  update_here, del_here,
}

-- A specification of an operation at a prefix: from the value before to the return code, the value
-- after it, and the FIB index whose count is taken down.
abbrev pub Spec : Type 1
Spec = Option ℕ → Status → Option ℕ → Option ℕ → Type 0

-- `_route_add`: only a new route is added.
abbrev pub AddSpec : ℕ → Spec
AddSpec nexthop none st after dropped = (st ≡ ok) × (after ≡ some nexthop) × (dropped ≡ none)
AddSpec nexthop (some old) st after dropped = (st ≡ err) × (after ≡ some old) × (dropped ≡ none)

-- `_route_change`: only a known route is changed, and its old next hop is dropped.
abbrev pub ChangeSpec : ℕ → Spec
ChangeSpec nexthop none st after dropped = (st ≡ err) × (after ≡ none) × (dropped ≡ none)
ChangeSpec nexthop (some old) st after dropped =
    (st ≡ ok) × (after ≡ some nexthop) × (dropped ≡ some old)

-- `_route_update`: a route is added or changed, and an old next hop is dropped.
abbrev pub UpdateSpec : ℕ → Spec
UpdateSpec nexthop before st after dropped = (st ≡ ok) × (after ≡ some nexthop) × (dropped ≡ before)

-- `_route_del`: only a known route is deleted, and its next hop is dropped.
abbrev pub DelSpec : Spec
DelSpec none st after dropped = (st ≡ err) × (after ≡ none) × (dropped ≡ none)
DelSpec (some old) st after dropped = (st ≡ ok) × (after ≡ none) × (dropped ≡ some old)

-- An operation at the prefix `p` meets a specification, or fails without a change where memory is
-- short, and leaves the value of every other prefix alone.
pub record Acts (spec : Spec) (short : Type 0) (p : List Bool) (t : Rib) (o : Outcome)
    : Type 0 where
  pub at :
      spec (table entry t p) o.status (table entry o.tree p) o.dropped
      ⊎ ((o.status ≡ err) × (table entry o.tree p ≡ table entry t p) × (o.dropped ≡ none) × short)
  pub others : (q : List Bool) → q ≢ p → table entry o.tree q ≡ table entry t q

-- The outcome at a child is the outcome at its parent.
pub Acts-right :
    (spec : Spec) (short : Type 0) (p : List Bool) (c : RadixNode) (l r : Rib) (o o' : Outcome)
    → o'.status ≡ o.status
    → o'.dropped ≡ o.dropped
    → ((q : List Bool) → table entry o'.tree q ≡ table entry (node c l o.tree) q)
    → Acts spec short p r o
    → Acts spec short (true ∷ p) (node c l r) o'
Acts-right spec short p c l r o o' st drop same a = record {
  at = rw (st, drop, same (true ∷ p)) a.at;
  others = others;
}
  where
    others : (q : List Bool) → q ≢ true ∷ p → table entry o'.tree q ≡ table entry (node c l r) q
    others [] ne = same []
    others (true ∷ q) ne = same (true ∷ q) ∙ a.others q (λ e. ne (ap (λ x. true ∷ x) e))
    others (false ∷ q) ne = same (false ∷ q)

pub Acts-left :
    (spec : Spec) (short : Type 0) (p : List Bool) (c : RadixNode) (l r : Rib) (o o' : Outcome)
    → o'.status ≡ o.status
    → o'.dropped ≡ o.dropped
    → ((q : List Bool) → table entry o'.tree q ≡ table entry (node c o.tree r) q)
    → Acts spec short p l o
    → Acts spec short (false ∷ p) (node c l r) o'
Acts-left spec short p c l r o o' st drop same a = record {
  at = rw (st, drop, same (false ∷ p)) a.at;
  others = others;
}
  where
    others : (q : List Bool) → q ≢ false ∷ p → table entry o'.tree q ≡ table entry (node c l r) q
    others [] ne = same []
    others (false ∷ q) ne = same (false ∷ q) ∙ a.others q (λ e. ne (ap (λ x. false ∷ x) e))
    others (true ∷ q) ne = same (true ∷ q)

-- The same where a node is reached.
abbrev pub ActsHere : Spec → Rib → Outcome → Type 0
ActsHere spec t o =
    spec (table entry t []) o.status (table entry o.tree []) o.dropped
    × ((q : List Bool) → q ≢ [] → table entry o.tree q ≡ table entry t q)

table-cell :
    (c d : RadixNode) (l r : Rib) (q : List Bool)
    → q ≢ []
    → table entry (node c l r) q ≡ table entry (node d l r) q
table-cell c d l r [] ne = absurd (ne refl)
table-cell c d l r (true ∷ q) ne = refl
table-cell c d l r (false ∷ q) ne = refl

table-announce :
    (load : Memory) (c : RadixNode) (l r : Rib) (nexthop len : ℕ) (path : Addr) (q : List Bool)
    → table entry (announce load c l r nexthop len path) q
      ≡ table entry (node (record c { valid = true; nexthop = nexthop }) l r) q
unfolding announce
table-announce load c l r nexthop len path q =
    table-add_propagate (store load path (record c { valid = true; nexthop = nexthop; len = len }))
      path (node (record c { valid = true; nexthop = nexthop; len = len }) l r) q
    ∙ same q
  where
    same :
        (q : List Bool)
        → table entry (node (record c { valid = true; nexthop = nexthop; len = len }) l r) q
          ≡ table entry (node (record c { valid = true; nexthop = nexthop }) l r) q
    same [] = refl
    same (true ∷ q) = refl
    same (false ∷ q) = refl

table-rehop :
    (c : RadixNode) (l r : Rib) (nexthop : ℕ) (path : Addr) (q : List Bool)
    → table entry (rehop c l r nexthop path) q
      ≡ table entry (node (record c { nexthop = nexthop }) l r) q
unfolding rehop
table-rehop c l r nexthop path q =
    table-change_propagate path (node (record c { nexthop = nexthop }) l r) q

table-withdraw :
    (c : RadixNode) (l r : Rib) (ext : Option Addr) (path : Addr) (q : List Bool)
    → table entry (withdraw c l r ext path) q
      ≡ table entry (node (record c { valid = false; nexthop = 0 }) l r) q
unfolding withdraw del_propagate
table-withdraw c l r ext path [] = ground arith
table-withdraw c l r ext path (true ∷ q) = ground (arith, table-del_propagate path ext r q)
table-withdraw c l r ext path (false ∷ q) = ground (arith, table-del_propagate path ext l q)

-- An update that goes well leaves the table of the tree that it was called on.
finish_acts :
    (spec : Spec) (c d : RadixNode) (l r t : Rib) (a b : Option ℕ)
    → ((q : List Bool) → table entry t q ≡ table entry (node d l r) q)
    → spec (entry c) ok (entry d) a
    → ActsHere spec (node c l r) (finish true t a b)
unfolding finish
finish_acts spec c d l r t a b same meets = (
  rw (table-clear_mark t [], same []) meets,
  λ q ne. table-clear_mark t q ∙ same q ∙ table-cell d c l r q ne,
)

pub add_here-Acts :
    (s : Slot) (nexthop len : ℕ) (path : Addr)
    → ActsHere (AddSpec nexthop) (node s.cell s.left s.right) (add_here true s nexthop len path)
unfolding add_here
add_here-Acts s nexthop len path = elim (Bool-cases s.cell.valid) [
  | inl v ↦ ground arith
  | inr v ↦
      subst (λ o. ActsHere (AddSpec nexthop) (node s.cell s.left s.right) o) (sym (adds v))
        (finish_acts (AddSpec nexthop) s.cell (record s.cell { valid = true; nexthop = nexthop })
          s.left s.right (announce s.load s.cell s.left s.right nexthop len path) none none
          (table-announce s.load s.cell s.left s.right nexthop len path) (ground arith))
]
  where
    adds :
        s.cell.valid ≡ false
        → add_here true s nexthop len path
          ≡ finish true (announce s.load s.cell s.left s.right nexthop len path) none none
    adds v = ground arith

pub change_here-Acts :
    (c : RadixNode) (l r : Rib) (nexthop : ℕ) (path : Addr)
    → ActsHere (ChangeSpec nexthop) (node c l r) (change_here true c l r nexthop path)
unfolding change_here
change_here-Acts c l r nexthop path = elim (Bool-cases c.valid) [
  | inr v ↦ ground arith
  | inl v ↦ elim (Bool-cases (c.nexthop == nexthop)) [
    | inl t ↦ ground arith
    | inr f ↦
        subst (λ o. ActsHere (ChangeSpec nexthop) (node c l r) o) (sym (changes v f))
          (finish_acts (ChangeSpec nexthop) c (record c { nexthop = nexthop }) l r
            (rehop c l r nexthop path) (some c.nexthop) (some c.nexthop)
            (table-rehop c l r nexthop path) (ground arith))
  ]
]
  where
    changes :
        c.valid ≡ true
        → (c.nexthop == nexthop) ≡ false
        → change_here true c l r nexthop path
          ≡ finish true (rehop c l r nexthop path) (some c.nexthop) (some c.nexthop)
    changes v f = ground arith

pub del_here-Acts :
    (c : RadixNode) (l r : Rib) (path : Addr) (ext : Option Addr)
    → ActsHere DelSpec (node c l r) (del_here true c l r path ext)
unfolding del_here
del_here-Acts c l r path ext = elim (Bool-cases c.valid) [
  | inr v ↦ ground arith
  | inl v ↦
      subst (λ o. ActsHere DelSpec (node c l r) o) (sym (deletes v))
        (finish_acts DelSpec c (record c { valid = false; nexthop = 0 }) l r
          (withdraw c l r ext path) (some c.nexthop) none (table-withdraw c l r ext path)
          (ground arith))
]
  where
    deletes :
        c.valid ≡ true
        → del_here true c l r path ext ≡ finish true (withdraw c l r ext path) (some c.nexthop) none
    deletes v = ground arith

-- An update at a node that has a route is a change, at one that has none an addition.
pub update_here-Acts :
    (s : Slot) (nexthop len : ℕ) (path : Addr)
    → ActsHere
        (UpdateSpec nexthop)
        (node s.cell s.left s.right)
        (update_here true s nexthop len path)
unfolding update_here
update_here-Acts s nexthop len path =
    ground
      (arith, add_here-Acts s nexthop len path, change_here-Acts s.cell s.left s.right nexthop path)
