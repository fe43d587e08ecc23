-- ===== src/Poptrie/Inode/Tests.antt =====
-- A run of `_update_inode` of modified_poptrie/poptrie_private.h on an old node, and the theorem at it.
use poptrie_project.Base.{
  ◌==◌, if◌then◌else◌, none, ℕ, zero, suc, ◌+◌, ◌-◌, ◌≡◌, refl, ◌∙◌, sym, ap, subst, Bool, true,
  false, some, List, [], ◌∷◌, arith, length, get_elem?, some_eq,
}
use poptrie_project.Vec.{zeros, vec_bt, popcnt}
use poptrie_project.Vec.Count.{vec_bt-zeros, popcnt_ls-zeros}
use poptrie_project.Trie.{nil, node}
use poptrie_project.Rib.{RadixNode, Rib, Memory}
use poptrie_project.Poptrie.{PoptrieNode, Arrays, leaf_at}
use poptrie_project.Poptrie.Leaves.{compress, compress_from, push_leaf}
use poptrie_project.Poptrie.Triangle.{parse_triangle}
use poptrie_project.Poptrie.Triangle.Place.{At}
use poptrie_project.Poptrie.Store.{Committed}
use poptrie_project.Poptrie.Part.{old_child, no_block}
use poptrie_project.Poptrie.Part.View.{view, HasEntries}
use poptrie_project.Poptrie.Inode.{
  Slot, compressed, Chunk, slot, slots, copy_old, vector_of, items_of, update_inode, Writes,
  block_of,
}
use poptrie_project.Poptrie.Inode.View.{HasRoom, Runs, wanted_entry, update_inode-view}

abbrev cell : RadixNode
cell = record { valid = true; len = 0; nexthop = 3; ext = some []; mark = false }

-- Seven levels down the right side, none of them marked.
abbrev right_side : ℕ → Rib
right_side zero = node cell nil nil
right_side (suc k) = node cell nil (right_side k)

mem : Memory
mem p = cell

-- An old node with a descendant at the index 0 and the leaf 5 elsewhere.
abbrev old : PoptrieNode
old = record { leafvec = false ∷ true ∷ zeros 62; vector = true ∷ zeros 63; base0 = 0; base1 = 1 }

abbrev arrays : Arrays
arrays = record { nodes = old ∷ old ∷ []; leaves = 5 ∷ 0 ∷ 0 ∷ []; dir = []; fib = [] }

abbrev nine : Chunk
nine i t n = some (compressed 9)

abbrev no_writes : Writes
no_writes i a = a

old-leaf_at : (i : ℕ) → vec_bt old.vector i ≡ false → leaf_at arrays old i ≡ some 5
unfolding leaf_at
old-leaf_at zero b = absurd (grind arith)
old-leaf_at (suc zero) b = refl
old-leaf_at (suc (suc i)) b =
    ap
      (λ k.
        if 0 + (0 + (1 + k)) == 0 then none else get_elem? arrays.leaves (0 + (0 + (1 + k)) - 1))
      (popcnt_ls-zeros 62 i)

old-old_child : (i : ℕ) → vec_bt old.vector i ≡ true → old_child old i arrays.nodes ≡ some old
old-old_child zero b = refl
old-old_child (suc i) b = let off = vec_bt-zeros 63 i in absurd (grind arith)

old-HasEntries : HasEntries arrays old
old-HasEntries = record {
  size = refl;
  leaves = λ i lt b. (5, old-leaf_at i b);
  children = λ i lt b. (old, old-old_child i b);
}

abbrev filled : ℕ → List Slot
filled zero = compressed 5 ∷ []
filled (suc k) = compressed 3 ∷ filled k

-- The entry 63 has descendants without marks, and the old node has the leaf 5 there.
run-slots :
    slots mem
      (some old)
      nine
      no_writes
      arrays
      0
      (parse_triangle 6 cell nil (right_side 6)).nodes
      (parse_triangle 6 cell nil (right_side 6)).vector
    ≡ some (arrays, filled 63)
unfolding slots slot copy_old parse_triangle leaf_at mem
run-slots = refl

run-leaves : (compress (items_of (filled 63))).leaves ≡ 3 ∷ 5 ∷ []
unfolding compress compress_from push_leaf items_of
run-leaves = refl

run-popcnt : popcnt (vector_of (filled 63)) ≡ 0
unfolding vector_of
run-popcnt = refl

-- The node has no descendant: its base1 is -1. Its two leaves take the block 1.
HasBases : Arrays × List Slot → Type 0
HasBases p =
    (base1 : ℕ) × (base0 : ℕ) × (block_of (popcnt (vector_of p.1)) none ≡ some base1)
    × (block_of (length (compress (items_of p.1)).leaves) (some 1) ≡ some base0)
    × HasRoom p.0 p.1 base1 base0

run-HasBases : HasBases (arrays, filled 63)
unfolding HasBases
run-HasBases = (
  no_block,
  1,
  rw (run-popcnt) refl,
  rw (run-leaves) refl,
  record {
    nodes = rw (run-popcnt) (λ pos. absurd (omega arith));
    leaves = rw (run-leaves) (λ pos. omega arith);
  },
)

runs : Runs mem arrays (some old) nine no_writes cell nil (right_side 6) none (some 1)
unfolding HasBases
runs = record {
  has = old-HasEntries;
  works = λ i t n. (compressed 9, refl);
  keeps = λ i a' same. same;
  blocks = λ end ss e. subst HasBases (some_eq (sym run-slots ∙ e)) run-HasBases;
}

update_inode-view_example :
    (done : Committed) × (update_inode mem arrays old
        (some old)
        nine
        no_writes
        cell
        nil
        (right_side 6)
        none
        (some 1)
        false
      ≡ some done)
    × ((i : ℕ) (c' : RadixNode) (l' r' : Rib) (b : Bool)
        → At (parse_triangle 6 cell nil (right_side 6)) i (node c' l' r') b
        → view done.arrays done.node i ≡ wanted_entry mem arrays (some old) nine i c' l' r' b)
update_inode-view_example =
    update_inode-view mem arrays old (some old) nine no_writes cell nil (right_side 6) none (some 1)
      false runs
