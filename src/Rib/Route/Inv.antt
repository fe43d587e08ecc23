-- ===== src/Rib/Route/Inv.antt =====
-- The route operations of modified_poptrie/poptrie4.c and poptrie6.c keep every `ext` at the
-- nearest valid node.
use poptrie_project.Base.{
  ℕ, zero, suc, ◌+◌, ◌<◌, ◌≡◌, refl, ◌∙◌, sym, ap, subst, Bool, true, false, Option, none, some, [],
  ◌∷◌, ◌++◌, arith, length, Bool-cases, Option-cases, inl, inr, ◌==◌, some_eq,
}
use poptrie_project.Trie.{nil, node}
use poptrie_project.Rib.{Addr, RadixNode, Rib, Machine, Memory, store, here, key_bit}
use poptrie_project.Rib.Inv.{
  IsCached, Loads, here-valid, here-invalid, length-snoc, store_self, store_above, Loads-store,
}
use poptrie_project.Rib.Propagate.{announced-IsCached}
use poptrie_project.Rib.Marks.{change_propagate-IsCached, clear_mark-IsCached}
use poptrie_project.Rib.Route.{
  ok, Outcome, failed, finish, Slot, new_node, alloc, announce, rehop, add_here, change_here,
  update_here, insert_child, insert_from,
}

-- The end of an update keeps the invariant, marks cleared or not.
pub finish-IsCached :
    (updated : Bool) (above : Option Addr) (path : Addr) (t : Rib) (a b : Option ℕ)
    → IsCached above path t
    → IsCached above path (finish updated t a b).tree
unfolding finish
finish-IsCached true above path t a b h = clear_mark-IsCached above path t h
finish-IsCached false above path t a b h = h

-- The memory reads the depth at the node above.
abbrev pub Older : Memory → Option Addr → Addr → Type 0
Older load above path =
    (q : Addr) → above ≡ some q → ((load q).len ≡ length q) × (length q < length path)

-- A node that a recursion has reached, with its memory.
pub record SlotIsCached (above : Option Addr) (path : Addr) (s : Slot) : Type 0 where
  pub cached : IsCached above path (node s.cell s.left s.right)
  pub reads : Loads s.load path (node s.cell s.left s.right)
  pub older : Older s.load above path

alloc-SlotIsCached :
    (m : Machine) (mem : ℕ) (load : Memory) (t : Rib) (path : Addr) (above : Option Addr) {s : Slot}
    → IsCached above path t
    → Loads load path t
    → Older load above path
    → alloc m mem load t path above ≡ some s
    → SlotIsCached above path s
unfolding alloc here
alloc-SlotIsCached m zero load nil path above inv reads old e = cc
alloc-SlotIsCached m (suc mem) load nil path above inv reads old e =
    subst (λ s. SlotIsCached above path s) (some_eq e)
      (record {
        cached = (refl, (λ v. cc), tt, tt);
        reads = ((λ v. cc), tt, tt);
        older = λ q e'. (
          ap (λ x. x.len) (store_above load path q (new_node m above) (old q e').1) ∙ (old q e').0,
          (old q e').1,
        );
      })
alloc-SlotIsCached m zero load (node c l r) path above inv reads old e =
    subst (λ s. SlotIsCached above path s) (some_eq e)
      (record { cached = inv; reads = reads; older = old })
alloc-SlotIsCached m (suc mem) load (node c l r) path above inv reads old e =
    subst (λ s. SlotIsCached above path s) (some_eq e)
      (record { cached = inv; reads = reads; older = old })

-- What lies above a child.
child-Older :
    (load : Memory) (above : Option Addr) (path : Addr) (c : RadixNode) (b : Bool)
    → (c.valid ≡ true → (load path).len ≡ length path)
    → Older load above path
    → Older load (here c above path) (path ++ b ∷ [])
child-Older load above path c b reads old q e = elim (Bool-cases c.valid) [
  | inl v ↦
      let same : path ≡ q = some_eq (sym (here-valid c above path v) ∙ e) in
      subst (λ p. ((load p).len ≡ length p) × (length p < length (path ++ b ∷ []))) same
        (reads v, omega (arith, length-snoc path b))
  | inr v ↦
      let o = old q (sym (here-invalid c above path v) ∙ e) in
      (o.0, omega (arith, o.1, length-snoc path b))
]

announce-IsCached :
    (above : Option Addr) (path : Addr) (s : Slot) (nexthop len : ℕ)
    → s.cell.valid ≡ false
    → len ≡ length path
    → SlotIsCached above path s
    → IsCached above path (announce s.load s.cell s.left s.right nexthop len path)
unfolding announce
announce-IsCached above path s nexthop len v e h =
    let c : RadixNode = record s.cell { valid = true; nexthop = nexthop; len = len } in
    let load' = store s.load path c in
    let now = here-invalid s.cell above path v in
    announced-IsCached load' above path c s.left s.right refl e (h.cached.0 ∙ now)
      (ap (λ x. x.len) (store_self s.load path c) ∙ e)
      (λ q eq.
        omega (arith, ap (λ x. x.len) (store_above s.load path q c (h.older q eq).1), h.older q eq))
      (subst (λ a. IsCached a (path ++ false ∷ []) s.left) now h.cached.2)
      (subst (λ a. IsCached a (path ++ true ∷ []) s.right) now h.cached.3)
      (Loads-store s.load path c (path ++ false ∷ []) s.left (omega (arith, length-snoc path false))
        h.reads.1)
      (Loads-store s.load path c (path ++ true ∷ []) s.right (omega (arith, length-snoc path true))
        h.reads.2)

-- A branch `len == depth` that keeps the invariant.
abbrev pub KeepsTarget : ℕ → (Slot → Addr → Outcome) → Type 0
KeepsTarget len target =
    (s : Slot) (path : Addr) (above : Option Addr)
    → len ≡ length path
    → SlotIsCached above path s
    → IsCached above path (target s path).tree

add_here_valid :
    (updated : Bool) (s : Slot) (nexthop len : ℕ) (path : Addr)
    → s.cell.valid ≡ true
    → add_here updated s nexthop len path ≡ failed (node s.cell s.left s.right)
unfolding add_here
add_here_valid updated s nexthop len path v = ground arith

add_here_invalid :
    (updated : Bool) (s : Slot) (nexthop len : ℕ) (path : Addr)
    → s.cell.valid ≡ false
    → add_here updated s nexthop len path
      ≡ finish updated (announce s.load s.cell s.left s.right nexthop len path) none none
unfolding add_here
add_here_invalid updated s nexthop len path v = ground arith

pub add_here-Keeps :
    (updated : Bool) (nexthop len : ℕ)
    → KeepsTarget len (λ s path. add_here updated s nexthop len path)
add_here-Keeps updated nexthop len s path above e h = elim (Bool-cases s.cell.valid) [
  | inl v ↦ rw (add_here_valid updated s nexthop len path v) h.cached
  | inr v ↦ rw (add_here_invalid updated s nexthop len path v) (
      finish-IsCached updated above path _ none none
        (announce-IsCached above path s nexthop len v e h))
]

rehop-IsCached :
    (above : Option Addr) (path : Addr) (c : RadixNode) (l r : Rib) (nexthop : ℕ)
    → IsCached above path (node c l r)
    → IsCached above path (rehop c l r nexthop path)
unfolding rehop here
rehop-IsCached above path c l r nexthop h =
    change_propagate-IsCached path above path (node (record c { nexthop = nexthop }) l r) h

pub change_here-IsCached :
    (updated : Bool) (above : Option Addr) (path : Addr) (c : RadixNode) (l r : Rib) (nexthop : ℕ)
    → IsCached above path (node c l r)
    → IsCached above path (change_here updated c l r nexthop path).tree
unfolding change_here
change_here-IsCached updated above path c l r nexthop h = elim (Bool-cases c.valid) [
  | inr v ↦ subst (λ o. IsCached above path o.tree) (sym (unset v)) h
  | inl v ↦ elim (Bool-cases (c.nexthop == nexthop)) [
    | inl t ↦ subst (λ o. IsCached above path o.tree) (sym (same v t)) h
    | inr f ↦
        subst (λ o. IsCached above path o.tree) (sym (other v f))
          (finish-IsCached updated above path _ (some c.nexthop) (some c.nexthop)
            (rehop-IsCached above path c l r nexthop h))
  ]
]
  where
    unset : c.valid ≡ false → change_here updated c l r nexthop path ≡ failed (node c l r)
    unset v = ground arith

    same :
        c.valid ≡ true
        → (c.nexthop == nexthop) ≡ true
        → change_here updated c l r nexthop path
          ≡ record { status = ok; tree = node c l r; dropped = some nexthop }
    same v t = ground arith

    other :
        c.valid ≡ true
        → (c.nexthop == nexthop) ≡ false
        → change_here updated c l r nexthop path
          ≡ finish updated (rehop c l r nexthop path) (some c.nexthop) (some c.nexthop)
    other v f = ground arith

pub update_here-Keeps :
    (updated : Bool) (nexthop len : ℕ)
    → KeepsTarget len (λ s path. update_here updated s nexthop len path)
unfolding update_here
update_here-Keeps updated nexthop len s path above e h = elim (Bool-cases s.cell.valid) [
  | inl v ↦
      subst (λ o. IsCached above path o.tree) (sym (changes v))
        (change_here-IsCached updated above path s.cell s.left s.right nexthop h.cached)
  | inr v ↦
      subst (λ o. IsCached above path o.tree) (sym (adds v))
        (add_here-Keeps updated nexthop len s path above e h)
]
  where
    changes :
        s.cell.valid ≡ true
        → update_here updated s nexthop len path
          ≡ change_here updated s.cell s.left s.right nexthop path
    changes v = ground arith

    adds :
        s.cell.valid ≡ false
        → update_here updated s nexthop len path ≡ add_here updated s nexthop len path
    adds v = ground arith

module _ (m : Machine) (target : Slot → Addr → Outcome) (prefix len : ℕ)
    (keeps : KeepsTarget len target) where
  insert_child-IsCached :
      (b : Bool) (s : Slot) (path : Addr) (above : Option Addr)
      (call : Memory → Rib → Addr → Option Addr → Outcome)
      → SlotIsCached above path s
      → ((load : Memory) (u : Rib) (p : Addr) (a : Option Addr)
          → length p ≡ suc (length path)
          → IsCached a p u
          → Loads load p u
          → Older load a p
          → IsCached a p (call load u p a).tree)
      → IsCached above path (insert_child m target prefix b s path above call).tree
  unfolding insert_child
  insert_child-IsCached true s path above call h below = (
    h.cached.0,
    h.cached.1,
    h.cached.2,
    below s.load s.right (path ++ true ∷ []) (here s.cell above path) (length-snoc path true)
        h.cached.3 h.reads.2 (child-Older s.load above path s.cell true h.reads.0 h.older),
  )
  insert_child-IsCached false s path above call h below = (
    h.cached.0,
    h.cached.1,
    below s.load s.left (path ++ false ∷ []) (here s.cell above path) (length-snoc path false)
        h.cached.2 h.reads.1 (child-Older s.load above path s.cell false h.reads.0 h.older),
    h.cached.3,
  )

  pub insert_from-IsCached :
      (rest mem depth : ℕ) (load : Memory) (t : Rib) (path : Addr) (above : Option Addr)
      → length path + rest ≡ len
      → IsCached above path t
      → Loads load path t
      → Older load above path
      → IsCached above path (insert_from m target prefix rest mem depth load t path above).tree
  unfolding insert_from
  insert_from-IsCached zero mem depth load t path above e inv reads old =
      elim (Option-cases (alloc m mem load t path above)) [
        | inl a ↦ rw (insert_from, a) inv
        | inr (s, a) ↦
            rw (insert_from, a)
              (keeps s path above (omega arith)
                (alloc-SlotIsCached m mem load t path above inv reads old a))
      ]
  insert_from-IsCached (suc rest) mem depth load t path above e inv reads old =
      elim (Option-cases (alloc m mem load t path above)) [
        | inl a ↦ rw (insert_from, a) inv
        | inr (s, a) ↦
            rw (insert_from, a)
              (insert_child-IsCached (key_bit m prefix depth) s path above _
                (alloc-SlotIsCached m mem load t path above inv reads old a)
                (λ load' u p q e' inv' reads' old'.
                  insert_from-IsCached rest s.mem (suc depth) load' u p q (omega arith) inv' reads'
                    old'))
      ]
