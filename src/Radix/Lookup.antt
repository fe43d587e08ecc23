-- ===== src/Radix/Lookup.antt =====
-- `radix_tree_lookup` of modified_radix_tree/radix.c against the longest prefix match.
use poptrie_project.Base.{
  ℕ, zero, suc, ◌+◌, ◌*◌, ◌/◌, ◌≤◌, ◌<◌, ◌≡◌, refl, Bool, false, Option, none, some, List, arith,
  if◌then◌else◌, length, get_elem?-lt, get_elem?-le, get_or_else, Bool-cases, inl, inr,
}
use poptrie_project.Trie.{Trie, nil, node, bits, cell_at, height, table, walk}
use poptrie_project.Trie.Match.{IsLongestMatch, walk-IsLongestMatch}
use poptrie_project.Radix.{Cell, RadixTree, null, bit_test, lookup_from, lookup}

-- The bit that `BIT_TEST` reads, 0 past the key.
abbrev pub key_bit : List ℕ → ℕ → Bool
key_bit key d = get_or_else (bit_test key d) false

-- The value that a cell gives to its prefix.
abbrev pub entry : Cell → Option ℕ
entry c = if c.valid then some c.value else none

abbrev pub cand_value : Option Cell → Option ℕ
cand_value none = none
cand_value (some c) = some c.value

pub bit_test-lt :
    (key : List ℕ) (d : ℕ) → d < 8 * length key → bit_test key d ≡ some (key_bit key d)
unfolding bit_test
bit_test-lt key d h = ground (arith, (get_elem?-lt key (d / 8) (omega arith)).1)

pub bit_test-le : (key : List ℕ) (d : ℕ) → 8 * length key ≤ d → bit_test key d ≡ none
unfolding bit_test
bit_test-le key d h = ground (arith, get_elem?-le key (d / 8))

lookup_from_lem :
    (t : Trie Cell) (cand : Option Cell) (key : List ℕ) (d : ℕ)
    → d + height t ≤ 8 * length key
    → lookup_from t cand key d
      ≡ some (get_or_else (walk entry (key_bit key) d t (cand_value cand)) null)
unfolding lookup_from walk
lookup_from_lem nil none key d h = refl
lookup_from_lem nil (some c) key d h = refl
lookup_from_lem (node c l r) cand key d h = ground (
  arith,
  bit_test-lt key d (omega arith),
  lookup_from_lem l cand key (suc d),
  lookup_from_lem r cand key (suc d),
  lookup_from_lem l (some c) key (suc d),
  lookup_from_lem r (some c) key (suc d),
)

-- With every node at a depth that the key covers, the lookup returns the data of the longest
-- stored prefix of the key, or `NULL` if no prefix of the key is stored, and reads inside the key.
pub lookup-IsLongestMatch :
    (rt : RadixTree) (key : List ℕ)
    → height rt.root ≤ 8 * length key
    → (best : Option ℕ) × (lookup rt key ≡ some (get_or_else best null))
      × IsLongestMatch (table entry rt.root) (key_bit key) 0 best
unfolding lookup
lookup-IsLongestMatch rt key h = (
  walk entry (key_bit key) 0 rt.root none,
  lookup_from_lem rt.root none key 0 (omega arith),
  walk-IsLongestMatch entry (key_bit key) 0 rt.root,
)

lookup_from_overread :
    (n : ℕ) (t : Trie Cell) (cand : Option Cell) (key : List ℕ) (d : ℕ) {c : Cell}
    → d + n ≡ 8 * length key
    → cell_at t (bits (key_bit key) d n) ≡ some c
    → lookup_from t cand key d ≡ none
unfolding lookup_from
lookup_from_overread n nil cand key d e at = absurd (ground arith)
lookup_from_overread zero (node c l r) cand key d e at =
    rw (lookup_from, bit_test-le key d (omega arith))
lookup_from_overread (suc n) (node c l r) cand key d e at = elim (Bool-cases (key_bit key d)) [
  | inl b ↦
      rw (lookup_from, bit_test-lt key d (omega arith), b)
        (lookup_from_overread n r _ key (suc d) (omega arith) (rw b at at))
  | inr b ↦
      rw (lookup_from, bit_test-lt key d (omega arith), b)
        (lookup_from_overread n l _ key (suc d) (omega arith) (rw b at at))
]

-- Where the tree has a node for all the bits of the key, the lookup of that key reads the byte
-- behind its end.
pub lookup_overread :
    (rt : RadixTree) (key : List ℕ) {c : Cell}
    → cell_at rt.root (bits (key_bit key) 0 (8 * length key)) ≡ some c
    → lookup rt key ≡ none
unfolding lookup
lookup_overread rt key at = lookup_from_overread _ rt.root none key 0 (omega arith) at
