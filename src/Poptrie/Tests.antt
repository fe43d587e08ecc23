-- ===== src/Poptrie/Tests.antt =====
-- Runs of the poptrie functions of modified_poptrie/poptrie_private.h and of the lookup, and the
-- theorems at concrete inputs.
mod Root
use poptrie_project.Base.{
  zero, suc, subst, sym, ◌∙◌, ap, some_eq, set, ◌==◌, if◌then◌else◌, ◌≢◌, ℕ, ◌+◌, ◌-◌, ◌≤◌, ◌≡◌,
  refl, Bool, true, false, Option, none, some, List, [], ◌∷◌, arith, length, get_elem?, get_or_else,
}
use poptrie_project.Vec.{zeros, popcnt, popcnt_ls}
use poptrie_project.Trie.{nil, node, bits, walk}
use poptrie_project.Rib.{Addr, RadixNode, Rib, Memory, Machine, memory, here}
use poptrie_project.Rib.V6.{v4}
use poptrie_project.Rib.Inv.{IsCached}
use poptrie_project.Rib.Table.{entry}
use poptrie_project.Rib.Cache.{hop_at, Reads}
use poptrie_project.Poptrie.{
  PoptrieNode, Arrays, leaf_at, dir_leaf, lookup_loop, lookup_leaf, index4, rounds4, poptrie_lookup,
  poptrie6_lookup,
}
use poptrie_project.Poptrie.Rounds.{IsTree, rounds4_enough}
use poptrie_project.Base.Int.{pos}
use poptrie_project.Poptrie.Leaves.{Item, inner, leaf, compress, compress_from, push_leaf}
use poptrie_project.Poptrie.Leaves.Read.{compress-Reads}
use poptrie_project.Poptrie.Store.{Committed, commit, store_children}
use poptrie_project.Poptrie.Triangle.{parse_triangle}
use poptrie_project.Poptrie.Triangle.Place.{number, At}
use poptrie_project.Poptrie.Triangle.Walk.{parse_triangle_leaf, parse_triangle_inner}
use poptrie_project.Poptrie.Inode.{
  Slot, built, compressed, Chunk, Writes, slot, slots, vector_of, items_of, children_of, block_of,
  finish, update_inode,
}
use poptrie_project.Poptrie.Inode.View.{HasRoom, Runs}
use poptrie_project.Poptrie.Inode.Lookup.{update_inode-lookup_loop}
use poptrie_project.Vec.Count.{vec_bt-zeros, popcnt_ls-zeros}

-- A shift by a negative count, which does not occur in these runs.
abbrev no_shift : ℕ → ℕ → ℕ
no_shift s n = 0

abbrev three : List Item
three = leaf 4 ∷ inner ∷ leaf 4 ∷ leaf 5 ∷ []

compress-three : (compress three).leaves ≡ 4 ∷ 5 ∷ []
unfolding compress
compress-three = refl

compress-Reads_example :
    (1 ≤ popcnt_ls (compress three).leafvec 3)
    × (get_elem? (compress three).leaves (popcnt_ls (compress three).leafvec 3 - 1) ≡ some 5)
compress-Reads_example = compress-Reads three 3 5 (omega arith) refl

abbrev blank : PoptrieNode
blank = record { leafvec = []; vector = []; base0 = 0; base1 = 0 }

abbrev child : PoptrieNode
child = record { leafvec = []; vector = []; base0 = 9; base1 = 9 }

-- The blocks of a fresh poptrie, all 64 leaves free.
abbrev arrays : Arrays
arrays = record {
  nodes = blank ∷ blank ∷ blank ∷ [];
  leaves = 0 ∷ 0 ∷ 0 ∷ 0 ∷ 0 ∷ 0 ∷ [];
  dir = [];
  fib = [];
}

one_leaf : (commit arrays (zeros 2) [] (compress (leaf 4 ∷ leaf 4 ∷ [])) 0 2 true).leaf ≡ some 4
unfolding commit compress
one_leaf = refl

-- A RIB with the default route 3 and a route 4 seven levels down its right side.
abbrev default : RadixNode
default = record { valid = true; len = 0; nexthop = 3; ext = some []; mark = false }

abbrev plain : RadixNode
plain = record { valid = false; len = 0; nexthop = 0; ext = some []; mark = false }

abbrev ones : ℕ → List Bool
ones n = bits (λ i. true) 0 n

abbrev deep : RadixNode
deep = record { valid = true; len = 7; nexthop = 4; ext = some (ones 7); mark = false }

abbrev sixth : Rib
sixth = node plain nil (node deep nil nil)

abbrev first : Rib
first = node plain nil (node plain nil (node plain nil (node plain nil (node plain nil sixth))))

abbrev rib : Rib
rib = node default nil first

abbrev m4 : Machine
m4 = v4 (record { keylength = 0; uninit = plain; wild_bit = λ i j. false })

mem : Memory
mem = memory m4 rib

rib-IsCached : IsCached none [] rib
unfolding here
rib-IsCached = (
  refl,
  (λ v. refl),
  tt,
  (
    refl,
    (λ v. cc),
    tt,
    (
      refl,
      (λ v. cc),
      tt,
      (
        refl,
        (λ v. cc),
        tt,
        (
          refl,
          (λ v. cc),
          tt,
          (refl, (λ v. cc), tt, (refl, (λ v. cc), tt, (refl, (λ v. refl), tt, tt))),
        ),
      ),
    ),
  ),
)

rib-Reads : Reads mem [] rib
unfolding mem Reads
rib-Reads q c e = rw e

At-zero :
    At
      (parse_triangle 6 default nil first)
      (number (bits (λ i. false) 0 6))
      (node default nil nil)
      false
unfolding parse_triangle
At-zero = (refl, refl)

At-ones : At (parse_triangle 6 default nil first) (number (ones 6)) sixth true
unfolding parse_triangle
At-ones = (refl, refl)

parse_triangle_leaf_example : walk entry (λ i. false) 0 rib (hop_at mem none) ≡ hop_at mem (some [])
parse_triangle_leaf_example =
    parse_triangle_leaf mem (λ i. false) 0 default nil first [] none default nil nil rib-IsCached
      rib-Reads At-zero

parse_triangle_inner_example :
    (above : Option Addr) × IsCached above (ones 6) sixth
    × Reads mem (ones 6) sixth
    × (walk entry (λ i. true) 0 rib (hop_at mem none)
        ≡ walk entry (λ i. true) 6 sixth (hop_at mem above))
parse_triangle_inner_example =
    parse_triangle_inner mem (λ i. true) 0 default nil first [] none sixth rib-IsCached rib-Reads
      At-ones

-- The root of the RIB as the node 1 of a poptrie whose direct pointing array names the FIB's
-- entry 1 as a leaf for the addresses from 64.0.0.0 on.
abbrev built_table : Arrays
built_table = record {
  nodes =
      blank ∷ record { leafvec = true ∷ zeros 63; vector = zeros 64; base0 = 2; base1 = 0 } ∷ [];
  leaves = 0 ∷ 0 ∷ 2 ∷ [];
  dir = 1 ∷ 0x80000001 ∷ 0x80000001 ∷ 0x80000001 ∷ [];
  fib =
      record { hop = 0; refs = pos 1 }
      ∷ record { hop = 70; refs = pos 1 }
      ∷ record { hop = 80; refs = pos 1 }
      ∷ [];
}

poptrie_lookup_node : poptrie_lookup no_shift built_table 0x0a000000 ≡ some 80
unfolding poptrie_lookup
poptrie_lookup_node = refl

poptrie_lookup_direct : poptrie_lookup no_shift built_table 0xc0000000 ≡ some 70
unfolding poptrie_lookup
poptrie_lookup_direct = refl

poptrie6_lookup_node : poptrie6_lookup no_shift built_table 0x0a000000 ≡ some 80
unfolding poptrie6_lookup
poptrie6_lookup_node = refl

-- The one entry that is not a leaf leads to a node of height 1.
built_table-leaf_at :
    (i : ℕ)
    → leaf_at built_table
        (record { leafvec = true ∷ zeros 63; vector = zeros 64; base0 = 2; base1 = 0 })
        i
      ≡ some 2
unfolding leaf_at
built_table-leaf_at zero = refl
built_table-leaf_at (suc i) =
    ap (λ k. if 2 + (1 + k) == 0 then none else get_elem? built_table.leaves (2 + (1 + k) - 1))
      (popcnt_ls-zeros 63 i)

node-IsTree : IsTree built_table 10 1
unfolding IsTree
node-IsTree = (
  record { leafvec = true ∷ zeros 63; vector = zeros 64; base0 = 2; base1 = 0 },
  refl,
  λ i lt f. (2, built_table-leaf_at i),
  λ i lt t. let off = vec_bt-zeros 64 i in absurd (grind arith),
)

is_leaf : true ≢ false
is_leaf e = absurd (ground arith)

trees_built :
    (top e : ℕ)
    → get_elem? built_table.dir top ≡ some e
    → dir_leaf e ≡ false
    → IsTree built_table rounds4 e
trees_built zero e q f = subst (IsTree built_table rounds4) (some_eq q) node-IsTree
trees_built (suc zero) e q f = absurd (is_leaf (ap dir_leaf (some_eq q) ∙ f))
trees_built (suc (suc zero)) e q f = absurd (is_leaf (ap dir_leaf (some_eq q) ∙ f))
trees_built (suc (suc (suc zero))) e q f = absurd (is_leaf (ap dir_leaf (some_eq q) ∙ f))
trees_built (suc (suc (suc (suc top)))) e q f = absurd (grind arith)

rounds4_enough_example :
    (hop : ℕ) × ((k : ℕ)
      → lookup_leaf (rounds4 + k) (index4 no_shift 0x0a000000) built_table ≡ some hop)
rounds4_enough_example =
    rounds4_enough no_shift built_table 0x0a000000 (record { size = refl; trees = trees_built })
