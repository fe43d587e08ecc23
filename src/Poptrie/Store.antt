-- ===== src/Poptrie/Store.antt =====
-- The end of `_update_inode` in modified_poptrie/poptrie_private.h: the leaves and the
-- descendants are copied to the arrays, and the node is filled in.
pub mod Read
use poptrie_project.Base.{
  ℕ, zero, suc, ◌+◌, ◌-◌, Bool, true, false, ◌&&◌, ◌==◌, Option, none, some, List, [], ◌∷◌,
  if◌then◌else◌, length, set,
}
use poptrie_project.Vec.{Vec, popcnt}
use poptrie_project.Poptrie.{PoptrieNode, Arrays}
use poptrie_project.Poptrie.Leaves.{Run}

module _ {ℓ} {A : Type ℓ} where
  -- The loop that copies `leaves` to `base0`.
  unfoldable pub store_leaves : List A → ℕ → List A → List A
  store_leaves arr base0 [] = arr
  store_leaves arr base0 (x ∷ xs) = store_leaves (set arr base0 x) (suc base0) xs

  -- The loop that copies the children whose bit is set to `base1 + num`.
  unfoldable pub store_children : List A → ℕ → Vec → List A → List A
  store_children arr at [] children = arr
  store_children arr at vector [] = arr
  store_children arr at (false ∷ vector) (c ∷ children) = store_children arr at vector children
  store_children arr at (true ∷ vector) (c ∷ children) =
      store_children (set arr at c) (suc at) vector children

-- What the end of the function leaves: the arrays, the node `*n` and, where the function
-- returns 1, the leaf `*leaf`.
pub record Committed : Type 0 where
  pub arrays : Arrays
  pub node : PoptrieNode
  pub leaf : Option ℕ

-- One leaf and no descendant is compressed, where the caller gives a place for the leaf.
unfoldable pub compressed_leaf : Bool → Vec → List ℕ → Option ℕ
compressed_leaf wanted vector (x ∷ []) = if (popcnt vector == 0) && wanted then some x else none
compressed_leaf wanted vector leaves = none

-- From the allocated blocks `base1` and `base0` on.
unfoldable pub commit : Arrays → Vec → List PoptrieNode → Run → ℕ → ℕ → Bool → Committed
unfolding store_leaves store_children compressed_leaf
commit a vector children r base1 base0 wanted = record {
  arrays = record a {
    nodes = store_children a.nodes base1 vector children;
    leaves = store_leaves a.leaves base0 r.leaves;
  };
  node = record { leafvec = r.leafvec; vector = vector; base0 = base0; base1 = base1 };
  leaf = compressed_leaf wanted vector r.leaves;
}
