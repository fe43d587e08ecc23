-- ===== src/Radix/Tests.antt =====
-- Runs of the radix tree of modified_radix_tree/radix.c, and the theorems at concrete inputs.
use poptrie_project.Base.{
  ℕ, ◌≡◌, refl, true, false, Option, none, some, not, Bool, List, [], ◌∷◌, arith, get_or_else,
}
use poptrie_project.Trie.{Trie, nil, node, bits, table}
use poptrie_project.Trie.Match.{IsLongestMatch}
use poptrie_project.Radix.{Cell, RadixTree, null, add, delete, lookup, shrink, is_nil, bit_test}
use poptrie_project.Radix.Lookup.{key_bit, entry, lookup-IsLongestMatch, lookup_overread}
use poptrie_project.Radix.Add.{Adds, add-Adds}
use poptrie_project.Radix.Bytes.{Counts, add-Counts}
use poptrie_project.Radix.Delete.{Removes, IsCompact, delete-Removes, shrink-IsCompact}

abbrev empty : RadixTree
empty = record { root = nil; allocated = true; bytes = 0 }

-- 128/1 with the data 7, then 160/3 with the data 9.
one_route : RadixTree
unfolding add
one_route = (add 9 empty (128 ∷ []) 1 7).1

two_routes : RadixTree
unfolding one_route
two_routes = (add 9 one_route (160 ∷ []) 3 9).1

lookups :
    (lookup two_routes (128 ∷ []) ≡ some 7)
    × (lookup two_routes (170 ∷ []) ≡ some 9)
    × (lookup two_routes (5 ∷ []) ≡ some 0)
unfolding two_routes lookup
lookups = (refl, refl, refl)

lookup-IsLongestMatch_example :
    (best : Option ℕ) × (lookup two_routes (170 ∷ []) ≡ some (get_or_else best null))
    × IsLongestMatch (table entry two_routes.root) (key_bit (170 ∷ [])) 0 best
unfolding two_routes
lookup-IsLongestMatch_example = lookup-IsLongestMatch two_routes (170 ∷ []) (omega arith)

host_route : RadixTree
unfolding add
host_route = (add 9 empty (170 ∷ []) 8 5).1

lookup_overread_example : lookup host_route (170 ∷ []) ≡ none
unfolding host_route bit_test
lookup_overread_example =
    lookup_overread host_route (170 ∷ []) {c = record { valid = true; value = 5 }} refl

add-Adds_example :
    Adds
      (add 9 one_route (160 ∷ []) 3 9).0
      (bits (key_bit (160 ∷ [])) 0 3)
      9
      one_route.root
      (add 9 one_route (160 ∷ []) 3 9).1.root
add-Adds_example = add-Adds 9 one_route (160 ∷ []) 3 9 (omega arith)

add-Counts_example :
    let rt' = (add 9 one_route (160 ∷ []) 3 9).1 in
    Counts one_route.bytes one_route.root rt'.bytes rt'.root
add-Counts_example = add-Counts 9 one_route (160 ∷ []) 3 9

delete-Removes_example :
    (out : ℕ) × (rt' : RadixTree) × (delete two_routes (160 ∷ []) 3 ≡ some (out, rt'))
    × Removes (bits (key_bit (160 ∷ [])) 0 3) out two_routes.root rt'.root
delete-Removes_example = delete-Removes two_routes (160 ∷ []) 3 (omega arith)

-- The two routes beside a node without an entry.
abbrev loose : Trie Cell
loose =
    let dead : Cell = record { valid = false; value = 0 } in
    node dead (node dead nil nil) two_routes.root

shrink-IsCompact_example :
    IsCompact (shrink loose).0
    × ((shrink loose).1 ≡ not (is_nil (shrink loose).0))
    × ((q : List Bool) → table entry (shrink loose).0 q ≡ table entry loose q)
shrink-IsCompact_example = shrink-IsCompact loose
