-- ===== src/Poptrie/Inode.antt =====
-- `_update_inode` of modified_poptrie/poptrie_private.h, on a new node and on an old one whose parts it
-- keeps where nothing is marked. What `_update_inode_chunk` returns, what it does to the arrays and
-- the blocks that the two allocations return are arguments.
pub mod Slots
pub mod View
pub mod Lookup
mod Tests
use poptrie_project.Base.{
  ℕ, zero, suc, ◌+◌, ◌-◌, Bool, true, false, ◌||◌, ◌&&◌, ◌==◌, length, Option, none, some, List, [],
  ◌∷◌, if◌then◌else◌,
}
use mathlib.Core.Option
use poptrie_project.Vec.{Vec, vec_bt, popcnt, popcnt_ls}
use poptrie_project.Trie.{nil, node}
use poptrie_project.Rib.{RadixNode, Rib, Memory, ext_nh}
use poptrie_project.Poptrie.{PoptrieNode, Arrays, leaf_at}
use poptrie_project.Poptrie.Leaves.{Item, inner, leaf, Run, compress}
use poptrie_project.Poptrie.Triangle.{Triangle, parse_triangle}
use poptrie_project.Poptrie.Store.{Committed, commit}
use poptrie_project.Poptrie.Part.{old_child, no_block}

-- What an entry becomes: the leaf `sleaf`, as where `_update_inode_chunk` returns 1, or the
-- descendant `children[i]`, as where it returns 0.
pub data Slot : Type 0 where
  compressed : ℕ → Slot
  built : PoptrieNode → Slot

-- `_update_inode_chunk` at the entry i, a node of the RIB, for the old descendant `ninode`, none for
-- -1; none where it fails.
abbrev pub Chunk : Type 0
Chunk = ℕ → Rib → Option ℕ → Option Slot

abbrev pub marked : Rib → Bool
marked nil = false
marked (node c l r) = c.mark

-- The test "One or more child is marked". `inode` below 0 is an old node none.
abbrev pub needs_update : Option PoptrieNode → Rib → Bool
needs_update none t = true
needs_update (some o) nil = false
needs_update (some o) (node c l r) = marked l || marked r

abbrev pub ninode : Option PoptrieNode → ℕ → Option ℕ
ninode none i = none
ninode (some o) i = if vec_bt o.vector i then some (o.base1 + (popcnt_ls o.vector i - 1)) else none

-- The branch "None of children is marked, then copy".
unfoldable pub copy_old : Arrays → Option PoptrieNode → ℕ → Option Slot
copy_old a none i = none
copy_old a (some o) i = elim (vec_bt o.vector i) [
  | true ↦ Option.map (λ n. built n) (old_child o i a.nodes)
  | false ↦ Option.map (λ hop. compressed hop) (leaf_at a o i)
]

-- The leaf of an entry without descendants. A null entry does not occur.
abbrev pub slot_leaf : Memory → Rib → Slot
slot_leaf load nil = compressed 0
slot_leaf load (node c l r) = compressed (ext_nh load c)

-- One round of the loop.
unfoldable pub slot : Memory → Arrays → Option PoptrieNode → Chunk → ℕ → Rib → Bool → Option Slot
unfolding copy_old
slot load a old chunk i t false = some (slot_leaf load t)
slot load a old chunk i t true =
    if needs_update old t then chunk i t (ninode old i) else copy_old a old i

-- What the calls of `_update_inode_chunk` do to the arrays, by the entry.
abbrev pub Writes : Type 0
Writes = ℕ → Arrays → Arrays

abbrev pub after : Option PoptrieNode → Writes → ℕ → Rib → Bool → Arrays → Arrays
after old writes i t b a = if b && needs_update old t then writes i a else a

-- The loop from the entry i on. Each round reads the arrays as the rounds before left them.
unfoldable pub slots :
    Memory
    → Option PoptrieNode
    → Chunk
    → Writes
    → Arrays
    → ℕ
    → List Rib
    → Vec
    → Option (Arrays × List Slot)
unfolding slot
slots load old chunk writes a i [] v = some (a, [])
slots load old chunk writes a i (t ∷ nodes) [] = some (a, [])
slots load old chunk writes a i (t ∷ nodes) (b ∷ v) =
    let rest = slots load old chunk writes (after old writes i t b a) (suc i) nodes v in
    elim (slot load a old chunk i t b) [
      | none ↦ none
      | some s ↦ Option.map (λ p. (p.0, s ∷ p.1)) rest
    ]

-- `vector` after the loop: `VEC_CLEAR` where a descendant became a leaf.
unfoldable pub vector_of : List Slot → Vec
vector_of [] = []
vector_of (compressed hop ∷ ss) = false ∷ vector_of ss
vector_of (built n ∷ ss) = true ∷ vector_of ss

-- The leaves that the loop meets.
unfoldable pub items_of : List Slot → List Item
items_of [] = []
items_of (compressed hop ∷ ss) = leaf hop ∷ items_of ss
items_of (built n ∷ ss) = inner ∷ items_of ss

-- `children`. What is not filled in, `uninit`, is not read.
unfoldable pub children_of : PoptrieNode → List Slot → List PoptrieNode
children_of uninit [] = []
children_of uninit (compressed hop ∷ ss) = uninit ∷ children_of uninit ss
children_of uninit (built n ∷ ss) = n ∷ children_of uninit ss

-- The block for `nvec` descendants or `nlvec` leaves: where there are none, nothing is allocated, and
-- the base is -1, a `u32` in the node.
abbrev pub block_of : ℕ → Option ℕ → Option ℕ
block_of count alloc = if count == 0 then some no_block else alloc

-- The end of the function, from the two allocations on; none where it returns -1.
unfoldable pub finish :
    PoptrieNode → Option ℕ → Option ℕ → Bool → Arrays → List Slot → Option Committed
unfolding vector_of items_of children_of
finish uninit alloc1 alloc0 wanted a ss =
    let r : Run = compress (items_of ss) in
    elim (block_of (popcnt (vector_of ss)) alloc1) [
      | none ↦ none
      | some base1 ↦ elim (block_of (length r.leaves) alloc0) [
        | none ↦ none
        | some base0 ↦ some (commit a (vector_of ss) (children_of uninit ss) r base1 base0 wanted)
      ]
    ]

-- `_update_inode`; none where it returns -1, or where it reads outside an array.
unfoldable pub update_inode :
    Memory
    → Arrays
    → PoptrieNode
    → Option PoptrieNode
    → Chunk
    → Writes
    → RadixNode
    → Rib
    → Rib
    → Option ℕ
    → Option ℕ
    → Bool
    → Option Committed
unfolding slots finish
update_inode load a uninit old chunk writes c l r alloc1 alloc0 wanted =
    let tri : Triangle = parse_triangle 6 c l r in
    elim (slots load old chunk writes a 0 tri.nodes tri.vector) [
      | none ↦ none
      | some p ↦ finish uninit alloc1 alloc0 wanted p.0 p.1
    ]
