-- ===== src/Radix/Bytes.antt =====
-- The counter `bytes` of modified_radix_tree/radix.c against the memory that the tree takes.
use poptrie_project.Base.{
  ℕ, zero, suc, ◌+◌, ◌%◌, ◌^◌, ◌≡◌, refl, Bool, true, false, Option, none, some, List, arith,
  if◌then◌else◌,
}
use poptrie_project.Trie.{Trie, nil, node, size}
use poptrie_project.Radix.{
  Cell, RadixTree, Status, Slot, alloc, place, into_child, bit_test, add_from, add, free_nodes,
  add64, node_bytes, data_bytes, release,
}

-- What a tree should cost: `sizeof(struct radix_tree_node)` for a node and one byte for an entry.
abbrev pub footprint : Trie Cell → ℕ
footprint nil = 0
footprint (node c l r) =
    node_bytes + (if c.valid then data_bytes else 0) + footprint l + footprint r

-- Two counters, each beside the tree that it belongs to, differ as the footprints do.
abbrev pub Counts : ℕ → Trie Cell → ℕ → Trie Cell → Type 0
Counts bytes t by t' = (by + footprint t) % 2 ^ 64 ≡ (bytes + footprint t') % 2 ^ 64

into_child-Counts :
    (o : Option Bool) (s : Slot) (call : Trie Cell → Status × Trie Cell × ℕ)
    → ((u : Trie Cell) → Counts s.bytes u (call u).2 (call u).1)
    → Counts s.bytes (node s.cell s.left s.right) (into_child o s call).2 (into_child o s call).1
unfolding into_child
into_child-Counts none s call h = refl
into_child-Counts (some true) s call h = omega (arith, h s.right)
into_child-Counts (some false) s call h = omega (arith, h s.left)

add_from-Counts :
    (rest mem bytes : ℕ) (t : Trie Cell) (key : List ℕ) (value depth : ℕ)
    → let (st, t', by) = add_from rest mem bytes t key value depth in Counts bytes t by t'
unfolding add_from alloc place
add_from-Counts zero zero bytes nil key value depth = refl
add_from-Counts zero (suc mem) bytes nil key value depth = omega arith
add_from-Counts zero mem bytes (node c l r) key value depth = ground arith
add_from-Counts (suc rest) zero bytes nil key value depth = refl
add_from-Counts (suc rest) (suc mem) bytes nil key value depth = omega (
  arith,
  into_child-Counts (bit_test key depth)
      (record {
        cell = record { valid = false; value = 0 };
        left = nil;
        right = nil;
        mem = mem;
        bytes = add64 bytes node_bytes;
      })
      (λ u. add_from rest mem (add64 bytes node_bytes) u key value (suc depth))
      (λ u. add_from-Counts rest mem (add64 bytes node_bytes) u key value (suc depth)),
)
add_from-Counts (suc rest) mem bytes (node c l r) key value depth =
    into_child-Counts (bit_test key depth)
      (record { cell = c; left = l; right = r; mem = mem; bytes = bytes })
      (λ u. add_from rest mem bytes u key value (suc depth))
      (λ u. add_from-Counts rest mem bytes u key value (suc depth))

-- Every insertion, also one that fails on the way, moves `bytes` by what the tree has grown,
-- modulo 2^64.
pub add-Counts :
    (mem : ℕ) (rt : RadixTree) (key : List ℕ) (prefixlen value : ℕ)
    → let rt' = (add mem rt key prefixlen value).1 in Counts rt.bytes rt.root rt'.bytes rt'.root
unfolding add
add-Counts mem rt key prefixlen value = add_from-Counts prefixlen mem rt.bytes rt.root key value 0

free_nodes-eq-size : (t : Trie Cell) → free_nodes t ≡ size t
unfolding free_nodes
free_nodes-eq-size nil = refl
free_nodes-eq-size (node c l r) = omega (arith, free_nodes-eq-size l, free_nodes-eq-size r)

-- A release frees every node of the tree, and the structure exactly if `radix_tree_init` made it.
pub release_lem : (rt : RadixTree) → release rt ≡ (size rt.root, rt.allocated)
unfolding release
release_lem rt = rw (free_nodes-eq-size rt.root)
