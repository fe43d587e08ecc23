-- ===== src/Poptrie/Tests/Root.antt =====
-- The node that `_update_inode` of modified_poptrie/poptrie_private.h makes of the root of a RIB, and
-- the lookup at it.
use poptrie_project.Base.{
  zero, suc, subst, sym, ◌∙◌, some_eq, set, ℕ, ◌≡◌, refl, false, none, some, List, [], ◌∷◌, arith,
  length, get_elem?, get_or_else,
}
use poptrie_project.Vec.{popcnt}
use poptrie_project.Trie.{nil, walk}
use poptrie_project.Rib.Table.{entry}
use poptrie_project.Rib.Cache.{hop_at}
use poptrie_project.Poptrie.{Arrays, leaf_at, lookup_loop, index4}
use poptrie_project.Poptrie.Leaves.{compress, compress_from, push_leaf}
use poptrie_project.Poptrie.Store.{Committed, commit, store_children}
use poptrie_project.Poptrie.Triangle.{parse_triangle}
use poptrie_project.Poptrie.Inode.{
  Slot, built, compressed, Chunk, Writes, slot, slots, vector_of, items_of, children_of, block_of,
  finish, update_inode,
}
use poptrie_project.Poptrie.Inode.View.{HasRoom, Runs}
use poptrie_project.Poptrie.Inode.Lookup.{update_inode-lookup_loop}
use poptrie_project.Poptrie.Tests.{
  no_shift, blank, child, arrays, default, first, rib, mem, rib-IsCached, rib-Reads, At-zero,
}

-- `_update_inode` makes a new node of the root of the RIB. The entry 63 has a descendant, for which
-- `_update_inode_chunk` writes a leaf.
abbrev chunk : Chunk
chunk i t n = some (built child)

abbrev writes : Writes
writes i a = record a { leaves = set a.leaves 5 4 }

abbrev root_slots : ℕ → List Slot
root_slots zero = built child ∷ []
root_slots (suc k) = compressed 3 ∷ root_slots k

-- The arrays after the loop.
abbrev written : Arrays
written = record arrays { leaves = set arrays.leaves 5 4 }

root-slots :
    slots mem none chunk writes arrays 0
      (parse_triangle 6 default nil first).nodes
      (parse_triangle 6 default nil first).vector
    ≡ some (written, root_slots 63)
unfolding slots slot parse_triangle mem
root-slots = refl

root-leaves : (compress (items_of (root_slots 63))).leaves ≡ 3 ∷ []
unfolding compress compress_from push_leaf items_of
root-leaves = refl

root-popcnt : popcnt (vector_of (root_slots 63)) ≡ 1
unfolding vector_of
root-popcnt = refl

-- The descendant takes the block 1, the leaf the block 2.
HasBases : Arrays × List Slot → Type 0
HasBases p =
    (base1 : ℕ) × (base0 : ℕ) × (block_of (popcnt (vector_of p.1)) (some 1) ≡ some base1)
    × (block_of (length (compress (items_of p.1)).leaves) (some 2) ≡ some base0)
    × HasRoom p.0 p.1 base1 base0

root-HasBases : HasBases (written, root_slots 63)
unfolding HasBases
root-HasBases = (
  1,
  2,
  rw (root-popcnt) refl,
  rw (root-leaves) refl,
  record {
    nodes = rw (root-popcnt) (λ pos. omega arith);
    leaves = rw (root-leaves) (λ pos. omega arith);
  },
)

root-Runs : Runs mem arrays none chunk writes default nil first (some 1) (some 2)
unfolding HasBases
root-Runs = record {
  has = tt;
  works = λ i t n. (built child, refl);
  keeps = λ i a' same. tt;
  blocks = λ end ss e. subst HasBases (some_eq (sym root-slots ∙ e)) root-HasBases;
}

-- What the function leaves, and arrays where its node then stands at 0.
abbrev root_done : Committed
root_done =
    commit written (vector_of (root_slots 63)) (children_of blank (root_slots 63))
      (compress (items_of (root_slots 63))) 1 2 false

root_later : Arrays
unfolding commit
root_later = record root_done.arrays { nodes = set root_done.arrays.nodes 0 root_done.node }

root-update_inode :
    update_inode mem arrays blank none chunk writes default nil first (some 1) (some 2) false
    ≡ some root_done
unfolding update_inode finish compress
root-update_inode = rw (update_inode, root-slots, finish, root-popcnt, root-leaves) refl

root-stands : get_elem? root_later.nodes 0 ≡ some root_done.node
unfolding root_later commit store_children vector_of children_of
root-stands = refl

root-leaf_at :
    (i : ℕ) → leaf_at root_later root_done.node i ≡ leaf_at root_done.arrays root_done.node i
unfolding root_later leaf_at
root-leaf_at i = refl

update_inode-lookup_loop_example :
    lookup_loop 5 (index4 no_shift 0x0a000000) root_later 0 0 8
    ≡ some (get_or_else (walk entry (λ i. false) 0 rib (hop_at mem none)) 0)
update_inode-lookup_loop_example =
    update_inode-lookup_loop mem arrays blank none chunk writes default nil first (some 1) (some 2)
      false (λ i. false) 0 [] none default nil nil root_done root_later 0 4 8
      (index4 no_shift 0x0a000000) root-Runs rib-IsCached rib-Reads At-zero root-update_inode
      root-stands root-leaf_at
