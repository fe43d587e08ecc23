-- ===== src/Rib/Table.antt =====
-- The routing table of the RIB, and the lookup in it. Marks and pointers are no part of it.
use poptrie_project.Base.{
  ℕ, suc, ◌≡◌, refl, Bool, true, false, Option, none, some, List, [], ◌∷◌, arith, if◌then◌else◌,
  get_or_else,
}
use poptrie_project.Trie.{nil, node, table, walk}
use poptrie_project.Trie.Match.{IsLongestMatch, walk-IsLongestMatch}
use poptrie_project.Rib.{
  Addr, RadixNode, Rib, Machine, Memory, add_propagate, change_propagate, del_propagate, clear_mark,
  lookup_from, rib_lookup, key_bit,
}

-- The next hop that a node gives to its prefix.
abbrev pub entry : RadixNode → Option ℕ
entry c = if c.valid then some c.nexthop else none

pub table-add_propagate :
    (load : Memory) (ext : Addr) (t : Rib) (q : List Bool)
    → table entry (add_propagate load ext t) q ≡ table entry t q
unfolding add_propagate
table-add_propagate load ext nil q = refl
table-add_propagate load ext (node c l r) [] = ground arith
table-add_propagate load ext (node c l r) (true ∷ q) =
    ground (arith, table-add_propagate load ext r q)
table-add_propagate load ext (node c l r) (false ∷ q) =
    ground (arith, table-add_propagate load ext l q)

pub table-change_propagate :
    (ext : Addr) (t : Rib) (q : List Bool)
    → table entry (change_propagate ext t) q ≡ table entry t q
unfolding change_propagate
table-change_propagate ext nil q = refl
table-change_propagate ext (node c l r) [] = refl
table-change_propagate ext (node c l r) (true ∷ q) = table-change_propagate ext r q
table-change_propagate ext (node c l r) (false ∷ q) = table-change_propagate ext l q

pub table-del_propagate :
    (ext : Addr) (next : Option Addr) (t : Rib) (q : List Bool)
    → table entry (del_propagate ext next t) q ≡ table entry t q
unfolding del_propagate
table-del_propagate ext next nil q = refl
table-del_propagate ext next (node c l r) [] = ground arith
table-del_propagate ext next (node c l r) (true ∷ q) =
    ground (arith, table-del_propagate ext next r q)
table-del_propagate ext next (node c l r) (false ∷ q) =
    ground (arith, table-del_propagate ext next l q)

pub table-clear_mark : (t : Rib) (q : List Bool) → table entry (clear_mark t) q ≡ table entry t q
unfolding clear_mark
table-clear_mark nil q = refl
table-clear_mark (node c l r) [] = ground arith
table-clear_mark (node c l r) (true ∷ q) = ground (arith, table-clear_mark r q)
table-clear_mark (node c l r) (false ∷ q) = ground (arith, table-clear_mark l q)

abbrev en_value : Option RadixNode → Option ℕ
en_value none = none
en_value (some c) = some c.nexthop

-- The answer below a child pointer: that of the candidate if it is null.
abbrev answer : Machine → Rib → ℕ → ℕ → Option RadixNode → ℕ
answer m nil addr depth en = get_or_else (en_value en) 0
answer m (node c l r) addr depth en = lookup_from m (node c l r) addr depth en

lookup_from_node :
    (m : Machine) (c : RadixNode) (l r : Rib) (addr depth : ℕ) (en : Option RadixNode)
    → lookup_from m (node c l r) addr depth en
      ≡ answer m
          (if key_bit m addr depth then r else l)
          addr
          (suc depth)
          (if c.valid then some c else en)
unfolding lookup_from
lookup_from_node m c nil nil addr depth en = ground arith
lookup_from_node m c nil (node d s t) addr depth en = ground arith
lookup_from_node m c (node d s t) nil addr depth en = ground arith
lookup_from_node m c (node d s t) (node f u v) addr depth en = ground arith

answer-walk :
    (m : Machine) (t : Rib) (addr depth : ℕ) (en : Option RadixNode)
    → answer m t addr depth en ≡ get_or_else (walk entry (key_bit m addr) depth t (en_value en)) 0
unfolding walk
answer-walk m nil addr depth en = refl
answer-walk m (node c l r) addr depth en = ground (
  arith,
  lookup_from_node m c l r addr depth en,
  answer-walk m l addr (suc depth) (some c),
  answer-walk m r addr (suc depth) (some c),
  answer-walk m l addr (suc depth) en,
  answer-walk m r addr (suc depth) en,
)

-- The lookup in the RIB is the walk from its root.
pub rib_lookup-walk :
    (m : Machine) (root : Rib) (addr : ℕ)
    → rib_lookup m root addr ≡ get_or_else (walk entry (key_bit m addr) 0 root none) 0
unfolding rib_lookup lookup_from walk
rib_lookup-walk m nil addr = refl
rib_lookup-walk m (node c l r) addr = answer-walk m (node c l r) addr 0 none

-- The lookup in the RIB returns the next hop of the longest prefix of the address that has a
-- route, and 0, the default entry, if no prefix of the address has one; whatever `BT` yields where
-- its shift count is negative.
pub rib_lookup-IsLongestMatch :
    (m : Machine) (root : Rib) (addr : ℕ)
    → (best : Option ℕ) × (rib_lookup m root addr ≡ get_or_else best 0)
      × IsLongestMatch (table entry root) (key_bit m addr) 0 best
rib_lookup-IsLongestMatch m root addr = (
  walk entry (key_bit m addr) 0 root none,
  rib_lookup-walk m root addr,
  walk-IsLongestMatch entry (key_bit m addr) 0 root,
)
