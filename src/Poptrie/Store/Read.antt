-- ===== src/Poptrie/Store/Read.antt =====
-- The lookup reads from a node that `_update_inode` filled in what the function put there.
use poptrie_project.Base.{
  ℕ, zero, suc, ◌+◌, ◌-◌, ◌<◌, ◌≤◌, ◌≡◌, refl, ◌∙◌, ap, Bool, true, false, some, List, [], ◌∷◌,
  arith, length, set, ◌==◌, get_elem?, length-set, get_elem?-set_self, get_elem?-set_ne,
}
use poptrie_project.Vec.{Vec, vec_bt, popcnt, popcnt_ls}
use poptrie_project.Vec.Count.{vec_bt-popcnt_ls}
use poptrie_project.Poptrie.{PoptrieNode, Arrays, leaf_at}
use poptrie_project.Poptrie.Leaves.{Item, leaf, Run, compress}
use poptrie_project.Poptrie.Leaves.Read.{compress-Reads, compress_single}
use poptrie_project.Poptrie.Store.{store_leaves, store_children, compressed_leaf, commit}

module _ {ℓ} {A : Type ℓ} where
  store_leaves-lt :
      (xs arr : List A) (base i : ℕ)
      → i < base
      → get_elem? (store_leaves arr base xs) i ≡ get_elem? arr i
  unfolding store_leaves
  store_leaves-lt [] arr base i h = refl
  store_leaves-lt (x ∷ xs) arr base i h =
      store_leaves-lt xs (set arr base x) (suc base) i (omega arith)
      ∙ get_elem?-set_ne arr base i x (λ e. omega arith)

  pub store_leaves_read :
      (xs arr : List A) (base i : ℕ) (x : A)
      → base + length xs ≤ length arr
      → get_elem? xs i ≡ some x
      → get_elem? (store_leaves arr base xs) (base + i) ≡ some x
  unfolding store_leaves
  store_leaves_read [] arr base i x h e = absurd (grind arith)
  store_leaves_read (y ∷ ys) arr base zero x h e =
      let p : base + 0 ≡ base = omega arith in
      let kept = store_leaves-lt ys (set arr base y) (suc base) base (omega arith) in
      let new = get_elem?-set_self arr base y (omega arith) in
      ap (get_elem? (store_leaves (set arr base y) (suc base) ys)) p ∙ kept ∙ new ∙ e
  store_leaves_read (y ∷ ys) arr base (suc i) x h e =
      let len = length-set arr base y in
      let p : base + suc i ≡ suc base + i = omega arith in
      ap (get_elem? (store_leaves (set arr base y) (suc base) ys)) p
      ∙ store_leaves_read ys (set arr base y) (suc base) i x (omega arith) e

  store_children-lt :
      (v : Vec) (cs arr : List A) (at i : ℕ)
      → i < at
      → get_elem? (store_children arr at v cs) i ≡ get_elem? arr i
  unfolding store_children
  store_children-lt [] cs arr at i h = refl
  store_children-lt (b ∷ v) [] arr at i h = refl
  store_children-lt (false ∷ v) (c ∷ cs) arr at i h = store_children-lt v cs arr at i h
  store_children-lt (true ∷ v) (c ∷ cs) arr at i h =
      store_children-lt v cs (set arr at c) (suc at) i (omega arith)
      ∙ get_elem?-set_ne arr at i c (λ e. omega arith)

  pub store_children_read :
      (v : Vec) (cs arr : List A) (at i : ℕ) (x : A)
      → at + popcnt v ≤ length arr
      → vec_bt v i ≡ true
      → get_elem? cs i ≡ some x
      → get_elem? (store_children arr at v cs) (at + (popcnt_ls v i - 1)) ≡ some x
  unfolding store_children
  store_children_read [] cs arr at i x h b e = absurd (grind arith)
  store_children_read (b' ∷ v) [] arr at i x h b e = absurd (grind arith)
  store_children_read (false ∷ v) (c ∷ cs) arr at zero x h b e = absurd (grind arith)
  store_children_read (false ∷ v) (c ∷ cs) arr at (suc i) x h b e =
      let p : at + (0 + popcnt_ls v i - 1) ≡ at + (popcnt_ls v i - 1) = omega arith in
      ap (get_elem? (store_children arr at v cs)) p
      ∙ store_children_read v cs arr at i x (omega arith) b e
  store_children_read (true ∷ v) (c ∷ cs) arr at zero x h b e =
      let p : at + 0 ≡ at = omega arith in
      let kept = store_children-lt v cs (set arr at c) (suc at) at (omega arith) in
      let new = get_elem?-set_self arr at c (omega arith) in
      ap (get_elem? (store_children (set arr at c) (suc at) v cs)) p ∙ kept ∙ new ∙ e
  store_children_read (true ∷ v) (c ∷ cs) arr at (suc i) x h b e =
      let len = length-set arr at c in
      let pos = vec_bt-popcnt_ls v i b in
      let p : at + (1 + popcnt_ls v i - 1) ≡ suc at + (popcnt_ls v i - 1) = omega arith in
      ap (get_elem? (store_children (set arr at c) (suc at) v cs)) p
      ∙ store_children_read v cs (set arr at c) (suc at) i x (omega arith) b e

-- Where the compressed leaves fit from `base0` on, the lookup at the node that is filled in
-- reads for each leaf entry its leaf.
pub commit-leaf_at :
    (a : Arrays) (vector : Vec) (children : List PoptrieNode) (items : List Item) (base1 base0 : ℕ)
    (wanted : Bool) (j hop : ℕ)
    → length items ≤ 64
    → base0 + length (compress items).leaves ≤ length a.leaves
    → get_elem? items j ≡ some (leaf hop)
    → leaf_at
        (commit a vector children (compress items) base1 base0 wanted).arrays
        (commit a vector children (compress items) base1 base0 wanted).node
        j
      ≡ some hop
unfolding commit leaf_at
commit-leaf_at a vector children items base1 base0 wanted j hop le fits e =
    let r : Run = compress items in
    let (pos, reads) = compress-Reads items j hop le e in
    let c : ℕ = popcnt_ls r.leafvec j in
    let p : base0 + c - 1 ≡ base0 + (c - 1) = omega arith in
    let some_leaf : (base0 + c == 0) ≡ false = ground arith in
    rw (some_leaf) (
      ap (get_elem? (store_leaves a.leaves base0 r.leaves)) p
      ∙ store_leaves_read r.leaves a.leaves base0 (c - 1) hop fits reads)

-- Where the descendants fit from `base1` on, the place that the lookup computes for an entry
-- with its bit set holds the entry's descendant.
pub commit_child :
    (a : Arrays) (vector : Vec) (children : List PoptrieNode) (r : Run) (base1 base0 : ℕ)
    (wanted : Bool) (j : ℕ) (child : PoptrieNode)
    → base1 + popcnt vector ≤ length a.nodes
    → vec_bt vector j ≡ true
    → get_elem? children j ≡ some child
    → get_elem? (commit a vector children r base1 base0 wanted).arrays.nodes (
        (commit a vector children r base1 base0 wanted).node.base1
        + (popcnt_ls (commit a vector children r base1 base0 wanted).node.vector j - 1))
      ≡ some child
unfolding commit
commit_child a vector children r base1 base0 wanted j child fits b e =
    store_children_read vector children a.nodes base1 j child fits b e

compressed_leaf-some :
    (wanted : Bool) (vector : Vec) (xs : List ℕ) (x : ℕ)
    → compressed_leaf wanted vector xs ≡ some x
    → (popcnt vector ≡ 0) × (xs ≡ x ∷ [])
unfolding compressed_leaf
compressed_leaf-some wanted vector [] x e = absurd (grind arith)
compressed_leaf-some wanted vector (y ∷ z ∷ zs) x e = absurd (grind arith)
compressed_leaf-some wanted vector (y ∷ []) x e = ground arith

-- Where the function compresses the node into one leaf, the node has no descendant, and a leaf
-- entry has this leaf.
pub commit_compressed :
    (a : Arrays) (vector : Vec) (children : List PoptrieNode) (items : List Item) (base1 base0 : ℕ)
    (wanted : Bool) (x j hop : ℕ)
    → length items ≤ 64
    → (commit a vector children (compress items) base1 base0 wanted).leaf ≡ some x
    → get_elem? items j ≡ some (leaf hop)
    → (popcnt vector ≡ 0) × (hop ≡ x)
unfolding commit
commit_compressed a vector children items base1 base0 wanted x j hop le e at =
    let (none_set, one) = compressed_leaf-some wanted vector (compress items).leaves x e in
    (none_set, compress_single items j hop x le one at)
