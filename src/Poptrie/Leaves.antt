-- ===== src/Poptrie/Leaves.antt =====
-- The leaf compression of `_update_inode` in modified_poptrie/poptrie_private.h.
pub mod Read
use poptrie_project.Base.{
  ℕ, zero, suc, ◌+◌, ◌-◌, ◌<◌, ◌≤◌, ◌≡◌, ◌≢◌, refl, ◌∙◌, sym, ap, Bool, true, false, not, Option,
  none, some, List, [], ◌∷◌, ◌++◌, if◌then◌else◌, ◌==◌, arith, length, set, get_elem?, get_or_else,
  inl, inr, Bool-cases, append_assoc,
}
use poptrie_project.Vec.{Vec, zeros, vec_init, vec_bt, vec_set, popcnt, popcnt_ls}

-- What the loop over the 64 entries meets: a descendant node, or a leaf with its next hop, which
-- is `EXT_NH` of the entry or the leaf that a descendant was compressed into.
pub data Item : Type 0 where
  inner : Item
  leaf : ℕ → Item

-- `leafvec`, the array `leaves` up to `nlvec`, and `prev`, none for `(u64)-1`.
pub record Run : Type 0 where
  pub leafvec : Vec
  pub leaves : List ℕ
  pub prev : Option ℕ

abbrev pub same_hop : Option ℕ → ℕ → Bool
same_hop none hop = false
same_hop (some p) hop = p == hop

-- `if ( prev != hop ) { VEC_SET(leafvec, i); leaves[nlvec] = hop; nlvec++; } prev = hop;`
unfoldable pub push_leaf : Run → ℕ → ℕ → Run
push_leaf r i hop =
    if same_hop r.prev hop
    then record r { prev = some hop }
    else record { leafvec = vec_set r.leafvec i; leaves = r.leaves ++ hop ∷ []; prev = some hop }

-- The loop from the entry `i` on.
unfoldable pub compress_from : ℕ → Run → List Item → Run
unfolding push_leaf
compress_from i r [] = r
compress_from i r (inner ∷ items) = compress_from (suc i) r items
compress_from i r (leaf hop ∷ items) = compress_from (suc i) (push_leaf r i hop) items

unfoldable pub compress : List Item → Run
unfolding compress_from
compress items = compress_from 0 (record { leafvec = vec_init; leaves = []; prev = none }) items
