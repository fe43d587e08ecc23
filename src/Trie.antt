-- ===== src/Trie.antt =====
-- Binary tries, the shape that `struct radix_tree_node` (modified_radix_tree/radix.h) and
-- `struct radix_node` (modified_poptrie/poptrie.h) share: two child pointers and the other fields,
-- here a cell of type `C`. A null pointer is `nil`.
pub mod Match
use poptrie_project.Base.{
  ℕ, zero, suc, Bool, true, false, Option, none, some, List, [], ◌∷◌, if◌then◌else◌, max, or_else,
}

pub data Trie {ℓ} (C : Type ℓ) : Type ℓ where
  nil : Trie C
  node : C → Trie C → Trie C → Trie C

-- The `n` bits of a key from position `d` on.
abbrev pub bits : (ℕ → Bool) → ℕ → ℕ → List Bool
bits b d zero = []
bits b d (suc n) = b d ∷ bits b (suc d) n

module _ {ℓ} {C : Type ℓ} where
  -- The cell that a path of bits leads to, 1 going to the right.
  abbrev pub cell_at : Trie C → List Bool → Option C
  cell_at nil p = none
  cell_at (node c l r) [] = some c
  cell_at (node c l r) (true ∷ p) = cell_at r p
  cell_at (node c l r) (false ∷ p) = cell_at l p

  abbrev pub height : Trie C → ℕ
  height nil = 0
  height (node c l r) = suc (max (height l) (height r))

  abbrev pub size : Trie C → ℕ
  size nil = 0
  size (node c l r) = suc (Prim.Native.Nat.◌+◌ (size l) (size r))

module _ {ℓ κ} {C : Type ℓ} {V : Type κ} (val : C → Option V) where
  abbrev pub cell_value : Option C → Option V
  cell_value none = none
  cell_value (some c) = val c

  -- The routing table that a trie stands for: the value at each prefix.
  abbrev pub table : Trie C → List Bool → Option V
  table t p = cell_value (cell_at t p)

  -- A walk down the trie along a key, which keeps the last value seen.
  unfoldable pub walk : (ℕ → Bool) → ℕ → Trie C → Option V → Option V
  walk b d nil cand = cand
  walk b d (node c l r) cand =
      let best = or_else (val c) cand in
      if b d then walk b (suc d) r best else walk b (suc d) l best
