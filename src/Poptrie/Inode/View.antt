-- ===== src/Poptrie/Inode/View.antt =====
-- What a node that `_update_inode` of modified_poptrie/poptrie_private.h fills in leads to.
use poptrie_project.Base.{
  ◌-◌, get_elem?-bound, List, length, ◌∙◌, sym, ℕ, ◌+◌, ◌≤◌, ◌≡◌, refl, ap, Bool, true, false,
  Option, none, some, arith, get_elem?, if◌then◌else◌,
}
use mathlib.Core.Option
use poptrie_project.Vec.{popcnt, popcnt_ls}
use poptrie_project.Trie.{node}
use poptrie_project.Rib.{RadixNode, Rib, Memory, ext_nh}
use poptrie_project.Poptrie.{PoptrieNode, Arrays}
use poptrie_project.Poptrie.Leaves.{compress}
use poptrie_project.Poptrie.Leaves.Read.{compress-Reads}
use poptrie_project.Vec.Count.{vec_bt-popcnt_ls}
use poptrie_project.Poptrie.Triangle.{Triangle, parse_triangle}
use poptrie_project.Poptrie.Triangle.Place.{At, HasSize, parse_triangle-HasSize}
use poptrie_project.Poptrie.Store.{Committed, commit}
use poptrie_project.Poptrie.Store.Read.{commit-leaf_at, commit_child}
use poptrie_project.Poptrie.Part.View.{Entry, to_leaf, to_node, view}
use poptrie_project.Poptrie.Part.Read.{popcnt_ls-popcnt, view-leaf, view-node}
use poptrie_project.Poptrie.Inode.{
  Slot, compressed, built, Chunk, needs_update, ninode, copy_old, slot, slots, vector_of, items_of,
  children_of, update_inode, Writes, finish, block_of,
}
use poptrie_project.Poptrie.Inode.Slots.{
  OldEntries, SameOld, SameOld-refl, slots-Fills, slot-total, vector_of-compressed, vector_of-built,
  length-items_of,
}

abbrev pub entry_of : Slot → Entry
entry_of (compressed hop) = to_leaf hop
entry_of (built n) = to_node n

-- What an entry of the triangle shall lead to: where nothing below it is marked, what the old node
-- leads to; else what the recursive call returns; and the next hop of a leaf.
unfoldable pub wanted_entry :
    Memory → Arrays → Option PoptrieNode → Chunk → ℕ → RadixNode → Rib → Rib → Bool → Option Entry
wanted_entry load a old chunk i c l r false = some (to_leaf (ext_nh load c))
wanted_entry load a none chunk i c l r true =
    Option.map (λ s. entry_of s) (chunk i (node c l r) none)
wanted_entry load a (some o) chunk i c l r true =
    if needs_update (some o) (node c l r)
    then Option.map (λ s. entry_of s) (chunk i (node c l r) (ninode (some o) i))
    else view a o i

slot-wanted_entry :
    (load : Memory) (a : Arrays) (old : Option PoptrieNode) (chunk : Chunk) (i : ℕ) (c : RadixNode)
    (l r : Rib) (b : Bool)
    → Option.map (λ s. entry_of s) (slot load a old chunk i (node c l r) b)
      ≡ wanted_entry load a old chunk i c l r b
unfolding slot copy_old wanted_entry view
slot-wanted_entry load a old chunk i c l r false = refl
slot-wanted_entry load a none chunk i c l r true = refl
slot-wanted_entry load a (some o) chunk i c l r true = ground arith

-- The bases of a node of the slots leave room in the arrays for what there is.
pub record HasRoom (a : Arrays) (ss : List Slot) (base1 base0 : ℕ) : Type 0 where
  pub nodes : 1 ≤ popcnt (vector_of ss) → base1 + popcnt (vector_of ss) ≤ length a.nodes
  pub leaves :
      1 ≤ length (compress (items_of ss)).leaves
      → base0 + length (compress (items_of ss)).leaves ≤ length a.leaves

-- A node of the slots leads to each of them.
commit-view :
    (a : Arrays) (uninit : PoptrieNode) (ss : List Slot) (base1 base0 : ℕ) (wanted : Bool) (i : ℕ)
    (s : Slot)
    → length ss ≤ 64
    → HasRoom a ss base1 base0
    → get_elem? ss i ≡ some s
    → view
        (commit a
          (vector_of ss)
          (children_of uninit ss)
          (compress (items_of ss))
          base1
          base0
          wanted).arrays
        (commit a
          (vector_of ss)
          (children_of uninit ss)
          (compress (items_of ss))
          base1
          base0
          wanted).node
        i
      ≡ some (entry_of s)
unfolding commit
commit-view a uninit ss base1 base0 wanted i (compressed hop) le room e =
    let (b, q) = vector_of-compressed ss i hop e in
    let len = length-items_of ss in
    let (pos, reads) = compress-Reads (items_of ss) i hop (omega arith) q in
    let bound =
      get_elem?-bound (compress (items_of ss)).leaves
        (popcnt_ls (compress (items_of ss)).leafvec i - 1) hop reads in
    let done : Committed =
      commit a (vector_of ss) (children_of uninit ss) (compress (items_of ss)) base1 base0 wanted in
    view-leaf done.arrays done.node i hop b (
      commit-leaf_at a (vector_of ss) (children_of uninit ss) (items_of ss) base1 base0 wanted i hop
        (omega arith) (room.leaves (omega arith)) q)
commit-view a uninit ss base1 base0 wanted i (built n) le room e =
    let (b, q) = vector_of-built uninit ss i n e in
    let ge = vec_bt-popcnt_ls (vector_of ss) i b in
    let total = popcnt_ls-popcnt (vector_of ss) i in
    let done : Committed =
      commit a (vector_of ss) (children_of uninit ss) (compress (items_of ss)) base1 base0 wanted in
    view-node done.arrays done.node n i b (
      commit_child a (vector_of ss) (children_of uninit ss) (compress (items_of ss)) base1 base0
        wanted i n (room.nodes (omega arith)) b q)

-- What `_update_inode` relies on: the old node, if there is one, leads to something at each index;
-- `_update_inode_chunk` succeeds, and leaves what the old node leads to; and the allocations
-- succeed where they are made, with blocks that have room in the arrays.
pub record Runs (load : Memory) (a : Arrays) (old : Option PoptrieNode) (chunk : Chunk)
    (writes : Writes) (c : RadixNode) (l r : Rib) (alloc1 alloc0 : Option ℕ) : Type 0 where
  pub has : OldEntries a old
  pub works : (i : ℕ) (t : Rib) (n : Option ℕ) → (s : Slot) × (chunk i t n ≡ some s)
  pub keeps : (i : ℕ) (a' : Arrays) → SameOld old a a' → SameOld old a (writes i a')
  pub blocks :
      (end : Arrays) (ss : List Slot)
      → slots load old chunk writes a 0
          (parse_triangle 6 c l r).nodes
          (parse_triangle 6 c l r).vector
        ≡ some (end, ss)
      → (base1 : ℕ) × (base0 : ℕ) × (block_of (popcnt (vector_of ss)) alloc1 ≡ some base1)
        × (block_of (length (compress (items_of ss)).leaves) alloc0 ≡ some base0)
        × HasRoom end ss base1 base0

-- Where the old node, if there is one, leads to something at each index, `_update_inode_chunk`
-- succeeds and leaves what the old node leads to, and the allocations that are made succeed with
-- room in the arrays, `_update_inode` fills in a node that leads, at the place of each entry of the
-- triangle, to what this entry shall lead to: the next hop of a leaf; what the recursive call
-- returns where something below is marked or there is no old node; else what the old node leads to.
pub update_inode-view :
    (load : Memory) (a : Arrays) (uninit : PoptrieNode) (old : Option PoptrieNode) (chunk : Chunk)
    (writes : Writes) (c : RadixNode) (l r : Rib) (alloc1 alloc0 : Option ℕ) (wanted : Bool)
    → Runs load a old chunk writes c l r alloc1 alloc0
    → (done : Committed) × (update_inode load a uninit old chunk writes c l r alloc1 alloc0 wanted
        ≡ some done)
      × ((i : ℕ) (c' : RadixNode) (l' r' : Rib) (b : Bool)
          → At (parse_triangle 6 c l r) i (node c' l' r') b
          → view done.arrays done.node i ≡ wanted_entry load a old chunk i c' l' r' b)
unfolding update_inode finish HasSize
update_inode-view load a uninit old chunk writes c l r alloc1 alloc0 wanted runs =
    let tri : Triangle = parse_triangle 6 c l r in
    let (n, v) = parse_triangle-HasSize 6 c l r in
    let (end, ss, e, len, fills) =
      slots-Fills load a a old chunk writes 0 tri.nodes tri.vector runs.has runs.works runs.keeps
        (SameOld-refl old a) (omega arith) in
    let (base1, base0, b1, b0, room) = runs.blocks end ss e in
    (
      commit end (vector_of ss) (children_of uninit ss) (compress (items_of ss)) base1 base0 wanted,
      rw (update_inode, e, finish, b1, b0) refl,
      λ i c' l' r' b at.
          let zero_add : 0 + i ≡ i = omega arith in
          let filled = fills i (node c' l' r') b at.0 at.1 in
          let bound = get_elem?-bound tri.nodes i (node c' l' r') at.0 in
          let (s, q) =
            slot-total load a old chunk (0 + i) (node c' l' r') b runs.has runs.works
              (omega arith) in
          commit-view end uninit ss base1 base0 wanted i s (omega arith) room (filled ∙ q)
          ∙ ap (Option.map (λ s. entry_of s)) (sym q)
          ∙ slot-wanted_entry load a old chunk (0 + i) c' l' r' b
          ∙ ap (λ k. wanted_entry load a old chunk k c' l' r' b) zero_add,
    )
