-- ===== src/Poptrie/Descend/Tests.antt =====
-- A descent of modified_poptrie/poptrie4.c, and the theorem at it.
use poptrie_project.Base.{
  ℕ, zero, suc, ◌+◌, ◌-◌, ◌*◌, ◌<◌, ◌≡◌, refl, true, some, [], ◌∷◌, arith, length, get_elem?, subst,
  some_eq,
}
use poptrie_project.Vec.{zeros, vec_bt, popcnt_ls}
use poptrie_project.Vec.Count.{vec_bt-zeros}
use poptrie_project.Trie.{nil, node}
use poptrie_project.Rib.{RadixNode, Rib, next_block}
use poptrie_project.Poptrie.{PoptrieNode, Arrays, index4, poptrie_s}
use poptrie_project.Poptrie.Descend.{Descent, descend}
use poptrie_project.Poptrie.Descend.Follow.{IsClosed, Visits, descend-Visits}

abbrev cell : RadixNode
cell = record { valid = true; len = 0; nexthop = 3; ext = some []; mark = true }

abbrev left_side : ℕ → Rib
left_side zero = node cell nil nil
left_side (suc k) = node cell (left_side k) nil

-- A node with a descendant at the index 0, which has none.
abbrev first : PoptrieNode
first = record { leafvec = zeros 64; vector = true ∷ zeros 63; base0 = 0; base1 = 1 }

abbrev second : PoptrieNode
second = record { leafvec = zeros 64; vector = zeros 64; base0 = 0; base1 = 0 }

abbrev arrays : Arrays
arrays = record { nodes = first ∷ second ∷ []; leaves = []; dir = []; fib = [] }

-- The node has its descendants in the arrays.
abbrev HasChildren : PoptrieNode → Type 0
HasChildren n =
    (idx : ℕ)
    → vec_bt n.vector idx ≡ true
    → (c : PoptrieNode) × (get_elem? arrays.nodes (n.base1 + (popcnt_ls n.vector idx - 1)) ≡ some c)

first-HasChildren : HasChildren first
first-HasChildren zero b = (second, refl)
first-HasChildren (suc idx) b = let off = vec_bt-zeros 63 idx in absurd (grind arith)

second-HasChildren : HasChildren second
second-HasChildren idx b = let off = vec_bt-zeros 64 idx in absurd (grind arith)

arrays-IsClosed : IsClosed arrays
unfolding IsClosed
arrays-IsClosed zero idx n e b = subst HasChildren (some_eq e) first-HasChildren idx b
arrays-IsClosed (suc zero) idx n e b = subst HasChildren (some_eq e) second-HasChildren idx b
arrays-IsClosed (suc (suc i)) idx n e b = absurd (grind arith)

-- A shift by a negative count, which does not occur.
abbrev no_shift : ℕ → ℕ → ℕ
no_shift s n = 0

-- The prefix 0.0.0.0/14 pushes one entry, and stops at its descendant.
run-descend :
    descend 2 (index4 no_shift 0) arrays (left_side 12) (some 0) [] 14 2
    ≡ some
        (record { tnode = left_side 6; inode = some 1; stack = record { inode = 0; idx = 0 } ∷ [] })
unfolding descend index4 next_block
run-descend = refl

descend-Visits_example :
    (d : Descent) × (descend 2 (index4 no_shift 0) arrays (left_side 12) (some 0) [] 14 poptrie_s
      ≡ some d)
    × (poptrie_s + 6 * length d.stack < 14)
    × ((j : ℕ)
        → d.inode ≡ some j
        → Visits (index4 no_shift 0) arrays 0 poptrie_s j (length d.stack))
descend-Visits_example =
    descend-Visits 2 (index4 no_shift 0) arrays (left_side 12) 0 first 14 arrays-IsClosed refl
      (omega arith) (omega arith)
