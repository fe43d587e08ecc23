-- ===== src/Poptrie/Descend.antt =====
-- `_descend_and_update` of modified_poptrie/poptrie4.c and poptrie6.c down to its call of
-- `_update_part`: the node it stops at and the stack. The depth starts at `POPTRIE_S`, so that `width`
-- is 6 in each round.
pub mod Follow
mod Tests
use poptrie_project.Base.{
  ℕ, zero, suc, ◌+◌, ◌-◌, true, false, Option, none, some, List, [], ◌∷◌, leb, get_elem?,
}
use poptrie_project.Vec.{vec_bt, popcnt_ls}
use poptrie_project.Trie.{nil, node}
use poptrie_project.Rib.{Rib, next_block}
use poptrie_project.Poptrie.{PoptrieNode, Arrays}

-- `struct poptrie_stack`, as far as the descent fills it in.
pub record PoptrieStack : Type 0 where
  pub inode : ℕ
  pub idx : ℕ

-- The arguments of the call of `_update_part`; an inode below 0 is none. The stack has its top
-- first.
pub record Descent : Type 0 where
  pub tnode : Rib
  pub inode : Option ℕ
  pub stack : List PoptrieStack

-- The old descendant for an index.
abbrev pub next_inode : PoptrieNode → ℕ → Option ℕ
next_inode n idx = elim (vec_bt n.vector idx) [
  | true ↦ some (n.base1 + (popcnt_ls n.vector idx - 1))
  | false ↦ none
]

-- With fuel; none where the array is read out of its bounds.
unfoldable pub descend :
    ℕ → (ℕ → ℕ → ℕ) → Arrays → Rib → Option ℕ → List PoptrieStack → ℕ → ℕ → Option Descent
descend zero index a t inode stack len depth = none
descend (suc fuel) index a t inode stack len depth = elim (leb len (depth + 6)) [
  | true ↦ some (record { tnode = t; inode = inode; stack = stack })
  | false ↦
      let idx : ℕ = index depth 6 in
      elim inode [
        | none ↦ some (record { tnode = t; inode = none; stack = stack })
        | some i ↦ elim (get_elem? a.nodes i) [
          | none ↦ none
          | some n ↦ elim (next_block 6 t idx) [
            | nil ↦ some (record { tnode = t; inode = some i; stack = stack })
            | node c l r ↦
                descend fuel index a (node c l r) (next_inode n idx)
                  (record { inode = i; idx = idx } ∷ stack) len (depth + 6)
          ]
        ]
      ]
]
