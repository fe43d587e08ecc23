-- ===== src/Bitmap/Entry.antt =====
-- The operations on a trie of multi-bit nodes: `insert_entry`, `delete_entry`, `update_nodes`,
-- `prefix_exist`, `do_search`, `do_search_lazy` and `detect_overlap` of
-- modified_tree_bitmap/bitmap_v4.c, and their kin of bitmap_v6.c. A prefix of length cidr has
-- `k`, cidr / STRIDE, whole strides and `r`, cidr % STRIDE, bits more: `cidr < STRIDE` is k = 0,
-- and `cidr -= STRIDE` is the predecessor of k.
pub mod Table
pub mod Child
pub mod Insert
pub mod Depth
pub mod Lazy
pub mod Search
pub mod Drop
pub mod Delete
pub mod Key
use poptrie_project.Base.{
  ℕ, zero, suc, ◌+◌, ◌-◌, ◌*◌, ◌/◌, ◌%◌, ◌^◌, Bool, true, false, ◌&&◌, Option, none, some, List, [],
  ◌∷◌, if◌then◌else◌, ◌==◌, leb, ltb, set, length,
}
use poptrie_project.Vec.{Vec, vec_bt, vec_set, vec_clear, popcnt, count_from}
use poptrie_project.Bitmap.Packed.{slot}
use poptrie_project.Bitmap.{
  MbNode, mb_node, Nodes, external, internal, rules, children, empty, stride_bits, count_inl_bitmap,
  extend_rule, extend_child, reduce_child, reduce_rule, update_inl_bitmap, update_enl_bitmap,
  clear_inl_bitmap, clear_enl_bitmap, put_rule, put_child, tree_function,
}

-- The shifts of an address: `(uint8_t)(ip >> (LENGTH - n))` and `ip << n`.
pub record Shifts (Ip : Type 0) : Type 0 where
  pub top : Ip → ℕ → ℕ
  pub shift : Ip → ℕ → Ip

-- The rule and the child of a bit, `count_ones` and the arithmetic on `child_ptr`.
abbrev pub rule_at : MbNode → ℕ → Option ℕ
rule_at n pos = slot (rules n) (count_from (internal n) pos)

abbrev pub child_at : MbNode → ℕ → Option MbNode
child_at n pos = slot (children n) (count_from (external n) pos)

abbrev pub is_empty : MbNode → Bool
is_empty n = (popcnt (internal n) == 0) && (popcnt (external n) == 0)

-- The branch of `insert_entry` for `cidr < STRIDE`.
unfoldable pub insert_rule : MbNode → ℕ → ℕ → MbNode
insert_rule n pos nhi =
    if vec_bt (internal n) pos
    then put_rule n (count_from (internal n) pos) nhi
    else (let n1 = update_inl_bitmap n pos in extend_rule n1 (count_from (internal n1) pos) nhi)

-- The other branch makes sure that the child is there.
unfoldable pub open_child : MbNode → ℕ → MbNode
open_child n pos =
    if vec_bt (external n) pos
    then n
    else (let n1 = update_enl_bitmap n pos in extend_child n1 (count_from (external n1) pos - 1))

-- What `delete_entry` leaves: the trie, `node_need_to_del`, and the next hop that it destroys.
pub record Deleted : Type 0 where
  pub node : MbNode
  pub node_need_to_del : Bool
  pub destroyed : Option ℕ

-- The round `i == total` of `update_nodes`.
unfoldable pub delete_rule : MbNode → ℕ → Bool → Deleted
delete_rule n pos destroy =
    let n1 = clear_inl_bitmap (reduce_rule n (count_from (internal n) pos)) pos in
    record {
      node = n1;
      node_need_to_del = is_empty n1;
      destroyed = if destroy then rule_at n pos else none;
    }

-- A round of `update_nodes` above, for the child that the round before leaves.
unfoldable pub delete_child : MbNode → ℕ → Deleted → Deleted
delete_child n pos d =
    let n1 =
      if d.node_need_to_del
      then clear_enl_bitmap
          (reduce_child (put_child n (count_from (external n) pos) d.node)
            (count_from (external n) pos - 1))
          pos
      else put_child n (count_from (external n) pos) d.node in
    record d { node = n1; node_need_to_del = is_empty n1 }

module _ {Ip : Type 0} (m : Shifts Ip) where
  -- `insert_entry`. Where the block has no child at the place, which a trie that keeps its
  -- invariant does not meet, the trie stays.
  unfoldable pub insert_entry : ℕ → ℕ → MbNode → Ip → ℕ → MbNode
  unfolding insert_rule open_child
  insert_entry zero r n ip nhi = insert_rule n (count_inl_bitmap (m.top ip r) r) nhi
  insert_entry (suc k) r n ip nhi =
      let pos = m.top ip stride_bits in
      let n1 = open_child n pos in
      elim (child_at n1 pos) [
        | none ↦ n1
        | some c ↦
            put_child n1 (count_from (external n1) pos)
              (insert_entry k r c (m.shift ip stride_bits) nhi)
      ]

  -- `delete_entry` with `update_nodes`.
  unfoldable pub delete_entry : ℕ → ℕ → MbNode → Ip → Bool → Deleted
  unfolding delete_rule delete_child
  delete_entry zero r n ip destroy = delete_rule n (count_inl_bitmap (m.top ip r) r) destroy
  delete_entry (suc k) r n ip destroy =
      let pos = m.top ip stride_bits in
      elim (child_at n pos) [
        | none ↦ record { node = n; node_need_to_del = is_empty n; destroyed = none }
        | some c ↦ delete_child n pos (delete_entry k r c (m.shift ip stride_bits) destroy)
      ]

  -- `prefix_exist`, from a node on.
  unfoldable pub prefix_exist : ℕ → ℕ → MbNode → Ip → Bool
  prefix_exist zero r n ip = vec_bt (internal n) (count_inl_bitmap (m.top ip r) r)
  prefix_exist (suc k) r n ip =
      let pos = m.top ip stride_bits in
      if vec_bt (external n) pos
      then (elim (child_at n pos) [
        | none ↦ false
        | some c ↦ prefix_exist k r c (m.shift ip stride_bits)
      ])
      else false

  -- The loop of `do_search`, with fuel; `longest` is the next hop that it points to.
  unfoldable pub do_search : ℕ → MbNode → Ip → Option ℕ → Option ℕ
  do_search zero n ip longest = none
  do_search (suc fuel) n ip longest =
      let stride = m.top ip stride_bits in
      let longest' : Option ℕ = elim (tree_function (internal n) stride) [
        | none ↦ longest
        | some pos ↦ rule_at n pos
      ] in
      elim (vec_bt (external n) stride) [
        | false ↦ longest'
        | true ↦ elim (child_at n stride) [
          | none ↦ none
          | some c ↦ do_search fuel c (m.shift ip stride_bits) longest'
        ]
      ]

  -- The loop of `do_search_lazy` over `lazy_mark`, from `travel_depth` down.
  unfoldable pub check_marks : List (MbNode × ℕ) → Option ℕ
  check_marks [] = none
  check_marks ((n, stride) ∷ marks) = elim (tree_function (internal n) stride) [
    | none ↦ check_marks marks
    | some pos ↦ rule_at n pos
  ]

  -- `do_search_lazy`, with fuel. `lazy_mark` has `level` entries, and a write behind them is none.
  unfoldable pub do_search_lazy : ℕ → ℕ → MbNode → Ip → List (MbNode × ℕ) → Option ℕ
  unfolding check_marks
  do_search_lazy level zero n ip marks = none
  do_search_lazy level (suc fuel) n ip marks =
      let stride = m.top ip stride_bits in
      elim (vec_bt (external n) stride) [
        | false ↦ check_marks ((n, stride) ∷ marks)
        | true ↦ elim (ltb (length marks) level) [
          | false ↦ none
          | true ↦ elim (child_at n stride) [
            | none ↦ none
            | some c ↦ do_search_lazy level fuel c (m.shift ip stride_bits) ((n, stride) ∷ marks)
          ]
        ]
      ]
