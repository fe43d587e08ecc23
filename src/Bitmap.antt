-- ===== src/Bitmap.antt =====
-- The tree bitmap of modified_tree_bitmap/: the multi-bit nodes of mb_node.c and mb_node.h and the
-- table of fast_lookup.c. The memory block of a node, with the rules left of `child_ptr` and the
-- children from it on, is its two lists; the rule at `child_ptr - p` has the place p.
pub mod Packed
pub mod Update
pub mod Fast
pub mod Entry
pub mod Trie
use poptrie_project.Base.{
  ℕ, zero, suc, ◌+◌, ◌-◌, ◌*◌, ◌/◌, ◌^◌, Bool, true, false, ◌&&◌, Option, none, some, List, [], ◌∷◌,
  if◌then◌else◌, ◌==◌, set,
}
use poptrie_project.Vec.{
  Vec, zeros, vec_bt, vec_set, vec_clear, vec_and, popcnt, count_from, highest,
}
use poptrie_project.Bitmap.Packed.{slot, insert_at, remove_at}

-- `struct mb_node_v6`: `external`, `internal` and the block at `child_ptr`.
mutual
  pub data MbNode : Type 0 where
    mb_node : Vec → Vec → List ℕ → Nodes → MbNode

  pub data Nodes : Type 0 where
    nil : Nodes
    cons : MbNode → Nodes → Nodes

abbrev pub external : MbNode → Vec
external (mb_node e i rs cs) = e

abbrev pub internal : MbNode → Vec
internal (mb_node e i rs cs) = i

abbrev pub rules : MbNode → List ℕ
rules (mb_node e i rs cs) = rs

-- The children as a list, and back.
abbrev pub to_list : Nodes → List MbNode
to_list nil = []
to_list (cons n ns) = n ∷ to_list ns

abbrev pub from_list : List MbNode → Nodes
from_list [] = nil
from_list (n ∷ ns) = cons n (from_list ns)

abbrev pub children : MbNode → List MbNode
children (mb_node e i rs cs) = to_list cs

-- A node of `calloc`.
abbrev pub empty : MbNode
empty = mb_node (zeros 64) (zeros 64) [] nil

-- `STRIDE`.
abbrev pub stride_bits : ℕ
stride_bits = 6

-- `count_inl_bitmap`.
abbrev pub count_inl_bitmap : ℕ → ℕ → ℕ
count_inl_bitmap bit cidr = 2 ^ cidr + bit - 1

-- `UP_RULE`, with 8 bytes to a pointer and 24 to a node, and the bytes of `new_node`.
abbrev pub up_rule : ℕ → ℕ
up_rule x = (x * 8 + 24 - 1) / 24

abbrev pub block_bytes : ℕ → ℕ → ℕ
block_bytes mb_cnt result_cnt = (mb_cnt + up_rule result_cnt) * 24

-- `extend_rule`: the new rule at the place pos, from 1 on.
unfoldable pub extend_rule : MbNode → ℕ → ℕ → MbNode
extend_rule (mb_node e i rs cs) pos nhi = mb_node e i (insert_at (pos - 1) nhi rs) cs

-- `extend_child`: a new child at the place pos, from 0 on.
unfoldable pub extend_child : MbNode → ℕ → MbNode
extend_child (mb_node e i rs cs) pos = mb_node e i rs (from_list (insert_at pos empty (to_list cs)))

-- `reduce_child`: the child at the place pos goes, from 0 on.
unfoldable pub reduce_child : MbNode → ℕ → MbNode
reduce_child (mb_node e i rs cs) pos = mb_node e i rs (from_list (remove_at pos (to_list cs)))

-- `reduce_rule`: the rule at the place pos goes, from 1 on.
unfoldable pub reduce_rule : MbNode → ℕ → MbNode
reduce_rule (mb_node e i rs cs) pos =
    if popcnt i == 0 then mb_node e i rs cs else mb_node e i (remove_at (pos - 1) rs) cs

-- `update_inl_bitmap`, `update_enl_bitmap` and the calls of `clear_bitmap` on the two bitmaps.
abbrev pub update_inl_bitmap : MbNode → ℕ → MbNode
update_inl_bitmap (mb_node e i rs cs) pos = mb_node e (vec_set i pos) rs cs

abbrev pub update_enl_bitmap : MbNode → ℕ → MbNode
update_enl_bitmap (mb_node e i rs cs) pos = mb_node (vec_set e pos) i rs cs

abbrev pub clear_inl_bitmap : MbNode → ℕ → MbNode
clear_inl_bitmap (mb_node e i rs cs) pos = mb_node e (vec_clear i pos) rs cs

abbrev pub clear_enl_bitmap : MbNode → ℕ → MbNode
clear_enl_bitmap (mb_node e i rs cs) pos = mb_node (vec_clear e pos) i rs cs

-- A write of the rule at `child_ptr - p`, and of the child that `p` counts from 1.
abbrev pub put_rule : MbNode → ℕ → ℕ → MbNode
put_rule (mb_node e i rs cs) p nhi = mb_node e i (set rs (p - 1) nhi) cs

abbrev pub put_child : MbNode → ℕ → MbNode → MbNode
put_child (mb_node e i rs cs) p c = mb_node e i rs (from_list (set (to_list cs) (p - 1) c))

-- The rounds of the loop of `tree_function` without FAST_TREE_FUNCTION, `rounds` of them left.
pub tree_loop : ℕ → Vec → ℕ → Option ℕ
tree_loop zero bitmap stride = none
tree_loop (suc rounds) bitmap stride =
    let stride' = stride / 2 in
    if vec_bt bitmap (count_inl_bitmap stride' rounds)
    then some (count_inl_bitmap stride' rounds)
    else tree_loop rounds bitmap stride'

-- The rounds of the loop of `find_overlap_in_node`, with the shift `stride >> (STRIDE -
-- limit_inside)` done: the place and `*mask`.
pub find_overlap_in_node : ℕ → Vec → ℕ → Option (ℕ × ℕ)
find_overlap_in_node zero bitmap stride = none
find_overlap_in_node (suc i) bitmap stride =
    let stride' = stride / 2 in
    if vec_bt bitmap (count_inl_bitmap stride' i)
    then some (count_inl_bitmap stride' i, i)
    else find_overlap_in_node i bitmap stride'

-- The rounds of `fast_table_init` that fill an entry of `fct`.
pub fct_loop : ℕ → ℕ → Vec → Vec
fct_loop zero stride row = row
fct_loop (suc rounds) stride row =
    fct_loop rounds (stride / 2) (vec_set row (count_inl_bitmap stride rounds))

-- The entry of `fct` for an index.
unfoldable pub fct : ℕ → Vec
unfolding fct_loop
fct i = fct_loop stride_bits i (zeros 64)

-- `tree_function` with FAST_TREE_FUNCTION; none for -1.
unfoldable pub tree_function : Vec → ℕ → Option ℕ
unfolding fct
tree_function bitmap stride = highest (vec_and (fct (stride / 2)) bitmap)
