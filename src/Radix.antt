-- ===== src/Radix.antt =====
-- modified_radix_tree/radix.c and radix.h: the binary radix tree of the baseline.
-- A key is the list of bytes behind the `uint8_t *key`; reading past it is the outcome `fault`.
-- A `void *` is a number and `NULL` is 0. The recursions of the source follow the tree, but for
-- `_add`, which follows the levels left, `prefixlen - depth`.
pub mod Lookup
pub mod Add
pub mod Bytes
pub mod Delete
mod Tests
use poptrie_project.Base.{
  ℕ, zero, suc, ◌+◌, ◌/◌, ◌%◌, ◌^◌, Bool, true, false, not, Option, none, some, List, ◌&&◌, ◌||◌,
  bit_and, if◌then◌else◌, ◌==◌, get_elem?,
}
use mathlib.Core.Option
use poptrie_project.Trie.{Trie, nil, node}

-- `valid` and `data` of `struct radix_tree_node`; the child pointers are those of the trie.
pub record Cell : Type 0 where
  pub valid : Bool
  pub value : ℕ

-- `struct radix_tree`, with the global `bytes` of radix.c.
pub record RadixTree : Type 0 where
  pub root : Trie Cell
  pub allocated : Bool
  pub bytes : ℕ

-- What an insertion returns: 0, -1, or the read past the key.
pub data Status : Type 0 where
  ok err fault : Status

abbrev pub null : ℕ
null = 0

-- `unsigned long long` addition.
abbrev pub add64 : ℕ → ℕ → ℕ
add64 a b = (a + b) % 2 ^ 64

-- `sizeof(struct radix_tree_node)` on a 64-bit machine, and `sizeof(*data)`, which is 1 for a
-- `void *` under GNU C.
abbrev pub node_bytes : ℕ
node_bytes = 32

abbrev pub data_bytes : ℕ
data_bytes = 1

-- The macro `BIT_TEST`, none where the byte lies outside the key.
pub bit_test : List ℕ → ℕ → Option Bool
bit_test key b = elim (get_elem? key (b / 8)) [
  | none ↦ none
  | some byte ↦ some (not (bit_and byte (0x80 / 2 ^ (b % 8)) == 0))
]

-- `radix_tree_init` for a caller's structure (true) or a null pointer (false); `mem` says whether
-- `malloc` succeeds.
pub init : Bool → Bool → ℕ → Option RadixTree
init true mem bytes = some (record { root = nil; allocated = false; bytes = bytes })
init false true bytes = some (record { root = nil; allocated = true; bytes = bytes })
init false false bytes = none

-- `_free_nodes`: how many nodes are freed.
pub free_nodes : Trie Cell → ℕ
free_nodes nil = 0
free_nodes (node c l r) = free_nodes l + free_nodes r + 1

-- `radix_tree_release`: the nodes freed, and whether the structure itself is.
pub release : RadixTree → ℕ × Bool
release rt = (free_nodes rt.root, rt.allocated)

-- `_lookup`, none where it reads past the key. The candidate is the cell of the node `cand`.
pub lookup_from : Trie Cell → Option Cell → List ℕ → ℕ → Option ℕ
lookup_from nil none key depth = some null
lookup_from nil (some cand) key depth = some cand.value
lookup_from (node c l r) cand key depth =
    let cand' = if c.valid then some c else cand in
    elim (bit_test key depth) [
      | none ↦ none
      | some true ↦ lookup_from r cand' key (suc depth)
      | some false ↦ lookup_from l cand' key (suc depth)
    ]

pub lookup : RadixTree → List ℕ → Option ℕ
unfolding lookup_from bit_test
lookup rt key = lookup_from rt.root none key 0

-- The allocation at the head of `_add`: a node with its fields, the allocations left, and
-- `bytes`; none where `malloc` fails.
pub record Slot : Type 0 where
  pub cell : Cell
  pub left : Trie Cell
  pub right : Trie Cell
  pub mem : ℕ
  pub bytes : ℕ

-- `mem` is the number of calls of `malloc` that succeed before one fails.
pub alloc : Trie Cell → ℕ → ℕ → Option Slot
alloc nil zero bytes = none
alloc nil (suc mem) bytes = some (record {
  cell = record { valid = false; value = null };
  left = nil;
  right = nil;
  mem = mem;
  bytes = add64 bytes node_bytes;
})
alloc (node c l r) mem bytes =
    some (record { cell = c; left = l; right = r; mem = mem; bytes = bytes })

-- The branch `prefixlen == depth` of `_add`.
pub place : Slot → ℕ → Status × Trie Cell × ℕ
place s value = if s.cell.valid then (ok, node s.cell s.left s.right, s.bytes) else (
  ok,
  node (record { valid = true; value = value }) s.left s.right,
  add64 s.bytes data_bytes,
)

-- The other branch of `_add`: into the child on the side of the bit.
pub into_child : Option Bool → Slot → (Trie Cell → Status × Trie Cell × ℕ) → Status × Trie Cell × ℕ
into_child none s call = (fault, node s.cell s.left s.right, s.bytes)
into_child (some true) s call = let (st, r, by) = call s.right in (st, node s.cell s.left r, by)
into_child (some false) s call = let (st, l, by) = call s.left in (st, node s.cell l s.right, by)

-- `_add`: the status, the subtree and `bytes` after it. `rest` is `prefixlen - depth`.
pub add_from : ℕ → ℕ → ℕ → Trie Cell → List ℕ → ℕ → ℕ → Status × Trie Cell × ℕ
add_from zero mem bytes t key value depth = elim (alloc t mem bytes) [
  | none ↦ (err, t, bytes)
  | some s ↦ place s value
]
add_from (suc rest) mem bytes t key value depth = elim (alloc t mem bytes) [
  | none ↦ (err, t, bytes)
  | some s ↦
      into_child (bit_test key depth) s (λ u. add_from rest s.mem s.bytes u key value (suc depth))
]

pub add : ℕ → RadixTree → List ℕ → ℕ → ℕ → Status × RadixTree
unfolding add_from alloc place into_child bit_test
add mem rt key prefixlen value =
    let (st, root, bytes) = add_from prefixlen mem rt.bytes rt.root key value 0 in
    (st, record rt { root = root; bytes = bytes })

-- `_shrink`: the subtree after it, and whether its node stays.
pub is_nil : Trie Cell → Bool
is_nil nil = true
is_nil (node c l r) = false

pub shrink : Trie Cell → Trie Cell × Bool
unfolding is_nil
shrink nil = (nil, false)
shrink (node c l r) =
    let (l', lret) = shrink l in
    let (r', rret) = shrink r in
    if lret || rret
    then (node c l' r', true)
    else if is_nil l' && is_nil r' && not c.valid
    then (nil, false)
    else (node c l' r', true)

-- The branch `prefixlen == depth` of `_delete` at a node.
pub remove : Cell → Trie Cell → Trie Cell → ℕ × Trie Cell
unfolding shrink
remove c l r =
    if c.valid
    then (c.value, (shrink (node (record { valid = false; value = null }) l r)).0)
    else (null, node c l r)

-- The other branch of `_delete`: into the child on the side of the bit.
pub delete_child :
    Option Bool
    → Cell
    → Trie Cell
    → Trie Cell
    → (Trie Cell → Option (ℕ × Trie Cell))
    → Option (ℕ × Trie Cell)
delete_child none c l r call = none
delete_child (some true) c l r call = Option.map (λ x. (x.0, node c l x.1)) (call r)
delete_child (some false) c l r call = Option.map (λ x. (x.0, node c x.1 r)) (call l)

-- `_delete`: the data that was stored or `NULL`, and the subtree after it; none where it reads
-- past the key. `rest` is `prefixlen - depth`.
pub delete_from : ℕ → Trie Cell → List ℕ → ℕ → Option (ℕ × Trie Cell)
delete_from rest nil key depth = some (null, nil)
delete_from zero (node c l r) key depth = some (remove c l r)
delete_from (suc rest) (node c l r) key depth =
    delete_child (bit_test key depth) c l r (λ u. delete_from rest u key (suc depth))

pub delete : RadixTree → List ℕ → ℕ → Option (ℕ × RadixTree)
unfolding delete_from delete_child remove bit_test
delete rt key prefixlen = elim (delete_from prefixlen rt.root key 0) [
  | none ↦ none
  | some (out, root) ↦ some (out, record rt { root = root })
]
