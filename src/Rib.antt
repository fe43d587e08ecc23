-- ===== src/Rib.antt =====
-- The RIB of the poptrie: the radix tree of `struct radix_node` (modified_poptrie/poptrie.h) and
-- the functions on it of poptrie4.c, poptrie6.c and poptrie_private.h.
-- A node's address is its path from the root, since nodes never move: a pointer `ext` is such a
-- path. What it points at is read through `load`, the memory. The length of an address is a
-- parameter, 32 for poptrie4.c and 128 for poptrie6.c.
pub mod Route
pub mod V6
pub mod Inv
pub mod Propagate
pub mod Marks
pub mod Table
pub mod Cache
use poptrie_project.Base.{
  ℕ, zero, suc, ◌+◌, ◌-◌, ◌/◌, ◌%◌, ◌^◌, Bool, true, false, not, Option, none, some, List, [], ◌∷◌,
  ◌++◌, ◌&&◌, ◌||◌, if◌then◌else◌, ◌==◌, ltb, get_or_else,
}
use poptrie_project.Trie.{Trie, nil, node, cell_at}

-- The address of a node: the path to it, 1 to the right.
abbrev pub Addr : Type 0
Addr = List Bool

-- `struct radix_node` without the child pointers.
pub record RadixNode : Type 0 where
  pub valid : Bool
  pub len : ℕ
  pub nexthop : ℕ
  pub ext : Option Addr
  pub mark : Bool

abbrev pub Rib : Type 0
Rib = Trie RadixNode

-- What the C program leaves open: `KEYLENGTH`, what memory reads as that is not initialised or
-- does not belong to a node, and the value of `BT` where its shift count is negative.
pub record Machine : Type 0 where
  pub keylength : ℕ
  pub uninit : RadixNode
  pub wild_bit : ℕ → ℕ → Bool

-- `BT(a, b)`.
pub bt : ℕ → ℕ → Bool
bt a b = a / 2 ^ b % 2 == 1

-- `BT(prefix, KEYLENGTH - depth - 1)`.
pub key_bit : Machine → ℕ → ℕ → Bool
unfolding bt
key_bit m prefix depth =
    if ltb depth m.keylength then bt prefix (m.keylength - depth - 1) else m.wild_bit prefix depth

abbrev pub addr_eq : Addr → Addr → Bool
addr_eq [] [] = true
addr_eq [] (y ∷ q) = false
addr_eq (x ∷ p) [] = false
addr_eq (true ∷ p) (true ∷ q) = addr_eq p q
addr_eq (true ∷ p) (false ∷ q) = false
addr_eq (false ∷ p) (true ∷ q) = false
addr_eq (false ∷ p) (false ∷ q) = addr_eq p q

-- `ext == node->ext`, for a pointer `ext` that is not null.
abbrev pub ext_is : Option Addr → Addr → Bool
ext_is none q = false
ext_is (some p) q = addr_eq p q

-- The nodes as pointers see them.
abbrev pub Memory : Type 0
Memory = Addr → RadixNode

abbrev pub memory : Machine → Rib → Memory
memory m root p = get_or_else (cell_at root p) m.uninit

abbrev pub store : Memory → Addr → RadixNode → Memory
store load p c q = if addr_eq q p then c else load q

-- The nearest valid node at or above a node, given the one above it: how the recursions of the
-- route operations carry `ext` down.
unfoldable pub here : RadixNode → Option Addr → Addr → Option Addr
here c ext path = if c.valid then some path else ext

-- `EXT_NH(n)`.
abbrev pub ext_nh : Memory → RadixNode → ℕ
ext_nh load c = elim c.ext [ none ↦ 0 | some p ↦ (load p).nexthop ]

-- The mark of a child, 0 if there is none.
abbrev pub mark_of : Rib → Bool
mark_of nil = false
mark_of (node c l r) = c.mark

-- `poptrie_route_add_propagate` at a child pointer, `ext` being not null. Each branch that goes on
-- sets the mark, also where the next hop stays.
pub add_propagate : Memory → Addr → Rib → Rib
add_propagate load ext nil = nil
add_propagate load ext (node c l r) =
    let l' = add_propagate load ext l in
    let r' = add_propagate load ext r in
    let spread =
      node (record c { ext = some ext; mark = true || mark_of l' || mark_of r' }) l' r' in
    elim c.ext [
      | none ↦ spread
      | some q ↦
          if ltb (load q).len (load ext).len then spread else node (record c { mark = true }) l r
    ]

-- `poptrie_route_change_propagate`.
pub change_propagate : Addr → Rib → Rib
change_propagate ext nil = nil
change_propagate ext (node c l r) =
    let l' = change_propagate ext l in
    let r' = change_propagate ext r in
    let own = if ext_is c.ext ext then true else c.mark in
    node (record c { mark = own || mark_of l' || mark_of r' }) l' r'

-- `poptrie_route_del_propagate`: `next` may be null.
pub del_propagate : Addr → Option Addr → Rib → Rib
del_propagate oext next nil = nil
del_propagate oext next (node c l r) =
    let l' = del_propagate oext next l in
    let r' = del_propagate oext next r in
    if ext_is c.ext oext
    then node (record c { ext = next; mark = true || mark_of l' || mark_of r' }) l' r'
    else node (record c { mark = c.mark || mark_of l' || mark_of r' }) l' r'

-- `_clear_mark`.
pub clear_mark : Rib → Rib
clear_mark nil = nil
clear_mark (node c l r) =
    let l' = clear_mark l in
    let r' = clear_mark r in
    if not c.mark then node c l r else node (record c { mark = false }) l' r'

-- `_next_block`: the node under the path of the bits of `idx` from `shift` on, with `rest` levels
-- to go, `depth - shift`.
unfoldable pub next_block : ℕ → Rib → ℕ → Rib
unfolding bt
next_block rest nil idx = nil
next_block zero (node c l r) idx = node c l r
next_block (suc rest) (node c l r) idx =
    if bt idx rest then next_block rest r idx else next_block rest l idx

-- `_rib_lookup`, with the node `en` as a cell.
pub lookup_from : Machine → Rib → ℕ → ℕ → Option RadixNode → ℕ
lookup_from m nil addr depth en = 0
lookup_from m (node c l r) addr depth en =
    let en' = if c.valid then some c else en in
    let answer : ℕ = elim en' [ none ↦ 0 | some e ↦ e.nexthop ] in
    if key_bit m addr depth
    then (elim r [ nil ↦ answer | node _ _ _ ↦ lookup_from m r addr (suc depth) en' ])
    else (elim l [ nil ↦ answer | node _ _ _ ↦ lookup_from m l addr (suc depth) en' ])

pub rib_lookup : Machine → Rib → ℕ → ℕ
unfolding lookup_from key_bit
rib_lookup m root addr = lookup_from m root addr 0 none

-- `_release_radix` of poptrie.c: how many nodes are freed.
pub release_radix : Rib → ℕ
release_radix nil = 0
release_radix (node c l r) = release_radix l + release_radix r + 1
