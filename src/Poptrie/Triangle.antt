-- ===== src/Poptrie/Triangle.antt =====
-- `_parse_triangle` of modified_poptrie/poptrie_private.h: the six levels of the RIB under a node
-- as the 64 entries of a poptrie node.
pub mod Place
pub mod Walk
use poptrie_project.Base.{ℕ, zero, suc, ◌^◌, Bool, true, false, ◌||◌, List, [], ◌∷◌, ◌++◌}
use poptrie_project.Vec.{Vec, zeros}
use poptrie_project.Trie.{nil, node}
use poptrie_project.Rib.{RadixNode, Rib}

-- The arrays that the function fills, from the position `pos` on: `nodes`, and the bits of
-- `*vector`. An entry is a copy of a node, a null pointer is `nil`.
pub record Triangle : Type 0 where
  pub nodes : List Rib
  pub vector : Vec

abbrev pub has_child : Rib → Bool
has_child nil = false
has_child (node c l r) = true

-- The copies of a node without its children that stand for a missing child.
abbrev pub copies : ℕ → RadixNode → List Rib
copies zero c = []
copies (suc n) c = node c nil nil ∷ copies n c

abbrev pub without_child : ℕ → RadixNode → Triangle
without_child hlen c = record { nodes = copies hlen c; vector = zeros hlen }

abbrev pub beside : Triangle → Triangle → Triangle
beside s t = record { nodes = s.nodes ++ t.nodes; vector = s.vector ++ t.vector }

-- `_parse_triangle` at a node, with `rest` levels to go, `6 - depth`.
unfoldable pub parse_triangle : ℕ → RadixNode → Rib → Rib → Triangle
parse_triangle zero c l r = record {
  nodes = node c l r ∷ [];
  vector = (has_child l || has_child r) ∷ [];
}
parse_triangle (suc rest) c l r =
    beside
      (elim l [ nil ↦ without_child (2 ^ rest) c | node c' l' r' ↦ parse_triangle rest c' l' r' ])
      (elim r [ nil ↦ without_child (2 ^ rest) c | node c' l' r' ↦ parse_triangle rest c' l' r' ])
