-- ===== src/Poptrie/Part.antt =====
-- The steps of `_update_part` of modified_poptrie/poptrie_private.h that go up the stack,
-- `_update_part_loop1` and `_update_part_loop2`, at a node of the arrays (`stack->inode` not below
-- 0). `stack->width` is 6, so that `NODEINDEX` is 0 and `BITINDEX` the index. The blocks
-- that `buddy_alloc2` returns are arguments, none where it fails.
pub mod View
pub mod Read
pub mod Steps
pub mod Insert
mod Tests
use poptrie_project.Base.{
  ℕ, zero, suc, ◌+◌, ◌-◌, ◌^◌, Bool, true, false, ◌&&◌, not, Option, none, some, List, [], ◌∷◌,
  if◌then◌else◌, ◌==◌, set, get_elem?,
}
use mathlib.Core.Option
use poptrie_project.Vec.{Vec, vec_bt, vec_set, vec_clear, popcnt, popcnt_ls}
use poptrie_project.Poptrie.{PoptrieNode, Arrays, leaf_at}
use poptrie_project.Poptrie.Leaves.{Item, inner, leaf, Run, compress}
use poptrie_project.Poptrie.Store.{store_leaves}

-- The entries that the loop over the leaves meets where `vector` is clear; none where it reads
-- outside the array.
unfoldable pub leaf_items : (ℕ → Option ℕ) → Vec → ℕ → Option (List Item)
leaf_items hop_of [] i = some []
leaf_items hop_of (true ∷ v) i = Option.map (λ its. inner ∷ its) (leaf_items hop_of v (suc i))
leaf_items hop_of (false ∷ v) i = elim (hop_of i) [
  | none ↦ none
  | some hop ↦ Option.map (λ its. leaf hop ∷ its) (leaf_items hop_of v (suc i))
]

-- The loops that copy descendants to `base1 + n`: where the bit i of the vector is set, the n-th
-- one comes from `src n i`, which reads the array as it is by then.
unfoldable pub copy_nodes {ℓ} :
    {A : Type ℓ} → (ℕ → ℕ → List A → Option A) → List A → ℕ → ℕ → Vec → ℕ → Option (List A)
copy_nodes src arr base1 n [] i = some arr
copy_nodes src arr base1 n (false ∷ v) i = copy_nodes src arr base1 n v (suc i)
copy_nodes src arr base1 n (true ∷ v) i = elim (src n i arr) [
  | none ↦ none
  | some x ↦ copy_nodes src (set arr (base1 + n) x) base1 (suc n) v (suc i)
]

-- What a step leaves: -1; 1, as nothing has changed; 1, as the node of the arrays is changed; 0 with
-- a leaf for the parent (`vcomp` stays 1); or 0 with `cnodes` and the arrays.
pub data Part : Type 0 where
  failed : Arrays → Part
  unchanged : Part
  replaced : Arrays → Part
  goes_up : ℕ → Part
  rebuilt : Arrays → PoptrieNode → Part

-- `bit` is `BITINDEX(stack->idx)`.
abbrev pub new_leaf : Arrays → PoptrieNode → ℕ → ℕ → ℕ → Option ℕ
new_leaf a n bit sleaf i = if i == bit then some sleaf else leaf_at a n i

abbrev pub is_single : Vec → List ℕ → Bool
is_single vector (x ∷ []) = popcnt vector == 0
is_single vector leaves = false

-- `node->leafvec == leafvec`.
abbrev pub vec_eq : Vec → Vec → Bool
vec_eq [] [] = true
vec_eq [] (c ∷ w) = false
vec_eq (b ∷ v) [] = false
vec_eq (b ∷ v) (c ∷ w) = (if b then c else not c) && vec_eq v w

abbrev pub old_child : PoptrieNode → ℕ → List PoptrieNode → Option PoptrieNode
old_child n i arr = get_elem? arr (n.base1 + (popcnt_ls n.vector i - 1))

abbrev pub with_leaves : Arrays → ℕ → Run → Arrays
with_leaves a base0 r = record a { leaves = store_leaves a.leaves base0 r.leaves }

-- The base -1, a `u32` in the node.
abbrev pub no_block : ℕ
no_block = 2 ^ 32 - 1

-- The new block of descendants: none is allocated where `POPCNT(vector)` is 0.
abbrev pub node_block : Vec → Option ℕ → Option ℕ
node_block vector base1 = if popcnt vector == 0 then some no_block else base1

-- The descendants that stay are copied to the new block.
unfoldable pub keep_children : Arrays → PoptrieNode → Vec → Run → ℕ → Option ℕ → Option Part
unfolding copy_nodes
keep_children a n vector r base0 base1 = elim (node_block vector base1) [
  | none ↦ some (failed a)
  | some b ↦
      Option.map
        (λ nodes.
          rebuilt (record a { nodes = nodes })
            (record { leafvec = r.leafvec; vector = vector; base0 = base0; base1 = b }))
        (copy_nodes (λ k i arr. old_child n i arr) a.nodes b 0 vector 0)
]

-- The branch "Internal node to leaf". `top` is `(stack - 1)->idx < 0`.
unfoldable pub drop_child : Arrays → PoptrieNode → Bool → ℕ → ℕ → Option ℕ → Option ℕ → Option Part
unfolding leaf_items keep_children
drop_child a n top bit sleaf base0 base1 =
    let vector : Vec = vec_clear n.vector bit in
    elim (leaf_items (new_leaf a n bit sleaf) vector 0) [
      | none ↦ none
      | some its ↦ elim (is_single vector (compress its).leaves && not top) [
        | true ↦ some (goes_up sleaf)
        | false ↦ elim base0 [
          | none ↦ some (failed a)
          | some b ↦ keep_children (with_leaves a b (compress its)) n vector (compress its) b base1
        ]
      ]
    ]

-- The branch "Leaf node is changed".
unfoldable pub change_leaf : Arrays → PoptrieNode → Bool → ℕ → ℕ → Option ℕ → Option Part
unfolding leaf_items
change_leaf a n top bit sleaf base0 = elim (leaf_items (new_leaf a n bit sleaf) n.vector 0) [
  | none ↦ none
  | some its ↦ elim (is_single n.vector (compress its).leaves && not top) [
    | true ↦ some (goes_up sleaf)
    | false ↦ elim (vec_eq n.leafvec (compress its).leafvec) [
      | true ↦ some unchanged
      | false ↦ elim base0 [
        | none ↦ some (failed a)
        | some b ↦ some (
            rebuilt (with_leaves a b (compress its))
              (record n { leafvec = (compress its).leafvec; base0 = b }))
      ]
    ]
  ]
]

-- `_update_part_loop1`.
unfoldable pub update_part_loop1 :
    Arrays → PoptrieNode → Bool → ℕ → ℕ → Option ℕ → Option ℕ → Option Part
unfolding drop_child change_leaf
update_part_loop1 a n top bit sleaf base0 base1 = elim (vec_bt n.vector bit) [
  | true ↦ drop_child a n top bit sleaf base0 base1
  | false ↦ change_leaf a n top bit sleaf base0
]

-- `node->base1 = base1;` for the node `inode` of the arrays.
abbrev pub set_base1 : List PoptrieNode → ℕ → ℕ → List PoptrieNode
set_base1 nodes inode base1 = elim (get_elem? nodes inode) [
  | none ↦ nodes
  | some n ↦ set nodes inode (record n { base1 = base1 })
]

-- Where the bit is set, the node of the arrays itself is changed, and the function returns 1.
unfoldable pub replace_child : Arrays → ℕ → PoptrieNode → ℕ → PoptrieNode → Option ℕ → Option Part
unfolding copy_nodes
replace_child a inode n bit c none = some (failed a)
replace_child a inode n bit c (some base1) =
    Option.map (λ nodes. replaced (record a { nodes = set_base1 nodes inode base1 }))
      (copy_nodes (λ k i arr. if i == bit then some c else get_elem? arr (n.base1 + k)) a.nodes
        base1 0 n.vector 0)

-- The new block of leaves: none is allocated where `ZEROCNT(vector)` is 0, and `base0` is -1.
abbrev pub leaf_block : Vec → Option ℕ → Option ℕ
leaf_block vector base0 = if popcnt vector == 64 then some no_block else base0

-- Where it is clear, the leaves without the one of the bit are compressed again.
unfoldable pub insert_child :
    Arrays → PoptrieNode → ℕ → PoptrieNode → Option ℕ → Option ℕ → Option Part
unfolding leaf_items copy_nodes
insert_child a n bit c base0 none = some (failed a)
insert_child a n bit c base0 (some base1) =
    let vector : Vec = vec_set n.vector bit in
    elim (leaf_items (leaf_at a n) vector 0) [
      | none ↦ none
      | some its ↦ elim (leaf_block vector base0) [
        | none ↦ some (failed a)
        | some b ↦
            let r : Run = compress its in
            Option.map
              (λ nodes.
                rebuilt (record (with_leaves a b r) { nodes = nodes })
                  (record { leafvec = r.leafvec; vector = vector; base0 = b; base1 = base1 }))
              (copy_nodes (λ k i arr. if i == bit then some c else old_child n i arr) a.nodes base1
                0 vector 0)
      ]
    ]

-- `_update_part_loop2`, for the node `inode` and `cnodes` with the node c.
unfoldable pub update_part_loop2 : Arrays → ℕ → ℕ → PoptrieNode → Option ℕ → Option ℕ → Option Part
unfolding replace_child insert_child
update_part_loop2 a inode bit c base0 base1 = elim (get_elem? a.nodes inode) [
  | none ↦ none
  | some n ↦ elim (vec_bt n.vector bit) [
    | true ↦ replace_child a inode n bit c base1
    | false ↦ insert_child a n bit c base0 base1
  ]
]
