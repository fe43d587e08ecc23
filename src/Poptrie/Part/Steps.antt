-- ===== src/Poptrie/Part/Steps.antt =====
-- `_update_part_loop1` and `_update_part_loop2` of modified_poptrie/poptrie_private.h as updates of
-- one entry of a node.
use poptrie_project.Base.{
  ℕ, ◌+◌, ◌-◌, ◌<◌, ◌≤◌, ◌≡◌, ◌≢◌, refl, ◌∙◌, sym, ap, subst, Bool, true, false, Option, some, List,
  [], ◌∷◌, arith, length, get_elem?, not, ◌&&◌, length-set, inl, inr, ◌==◌, Bool-cases,
}
use poptrie_project.Vec.{Vec, vec_bt, vec_clear, popcnt, popcnt_ls}
use poptrie_project.Vec.Count.{vec_bt-popcnt_ls}
use poptrie_project.Poptrie.{PoptrieNode, Arrays}
use poptrie_project.Poptrie.Leaves.{Item, compress}
use poptrie_project.Poptrie.Leaves.Read.{compress_single}
use poptrie_project.Poptrie.Part.{
  Part, failed, unchanged, replaced, goes_up, rebuilt, leaf_items, copy_nodes, old_child, new_leaf,
  is_single, vec_eq, with_leaves, node_block, keep_children, drop_child, change_leaf,
  update_part_loop1,
}
use poptrie_project.Poptrie.Part.View.{
  to_leaf, view, HasEntries, ReadsLeaves, copy_nodes-Copied, Sources,
}
use poptrie_project.Poptrie.Part.Read.{
  IsFresh, old-Outside, Replaces, IsAt, collected, stored-Replaces, view-leaf, eq-true, eq-false,
  vec_bt-lt, popcnt_ls-popcnt, vec_clear_self, vec_clear_ne, vec_clear_same, new_leaf_self,
  new_leaf_ne,
}

is_single-true :
    (v : Vec) (xs : List ℕ) → is_single v xs ≡ true → (popcnt v ≡ 0) × (x : ℕ) × (xs ≡ x ∷ [])
is_single-true v [] e = absurd (grind arith)
is_single-true v (x ∷ y ∷ xs) e = absurd (grind arith)
is_single-true v (x ∷ []) e = (ground arith, x, refl)

true_ne_false : true ≢ false
true_ne_false e = absurd (ground arith)

and_left : (b c : Bool) → (b && c) ≡ true → b ≡ true
and_left b c e = ground arith

-- No bit of a vector without ones is set.
popcnt-zero : (v : Vec) (i : ℕ) → popcnt v ≡ 0 → vec_bt v i ≡ false
popcnt-zero v i e = elim (Bool-cases (vec_bt v i)) [
  | inl t ↦ let ge = vec_bt-popcnt_ls v i t in let le = popcnt_ls-popcnt v i in absurd (omega arith)
  | inr f ↦ f
]

-- What a step of `_update_part_loop1` may return for a node whose entry at the index becomes a leaf:
-- 1 where the new leaves start at the same entries as the old; the leaf for the parent where
-- every other entry is this leaf; or a node with this entry replaced.
pub Outcome : Arrays → PoptrieNode → ℕ → ℕ → Part → Type 0
Outcome a n bit sleaf (failed a') = ⊥
Outcome a n bit sleaf unchanged =
    (vec_bt n.vector bit ≡ false)
    × (its : List Item) × (leaf_items (new_leaf a n bit sleaf) n.vector 0 ≡ some its)
    × (vec_eq n.leafvec (compress its).leafvec ≡ true)
Outcome a n bit sleaf (replaced a') = ⊥
Outcome a n bit sleaf (goes_up hop) =
    (hop ≡ sleaf) × ((i : ℕ) → i < 64 → i ≢ bit → view a n i ≡ some (to_leaf sleaf))
Outcome a n bit sleaf (rebuilt a' n') = Replaces a n a' n' bit (to_leaf sleaf)

module _ (a : Arrays) (n : PoptrieNode) (bit sleaf : ℕ) (has : HasEntries a n) (lt : bit < 64) where
  -- Where the loop leaves one leaf alone, all entries are this leaf.
  single_leaf :
      (vector : Vec) (its : List Item)
      → IsAt a n bit sleaf vector has
      → length its ≡ length vector
      → ReadsLeaves (new_leaf a n bit sleaf) vector 0 its
      → is_single vector (compress its).leaves ≡ true
      → (i : ℕ) → i < 64
      → i ≢ bit
      → view a n i ≡ some (to_leaf sleaf)
  single_leaf vector its (size, off, same) len reads single i below ne =
      let (zero_set, x, one) = is_single-true vector (compress its).leaves single in
      let at : (j : ℕ) → 0 + j ≡ j = λ j. omega arith in
      let (hop, q) = has.leaves i below (sym (same i ne) ∙ popcnt-zero vector i zero_set) in
      let self : sleaf ≡ x = compress_single its bit sleaf x (omega arith) one (
        reads bit sleaf (omega arith) off (
          ap (new_leaf a n bit sleaf) (at bit)
          ∙ new_leaf_self a n bit sleaf vector has bit (ground arith))) in
      let other : hop ≡ x = compress_single its i hop x (omega arith) one (
        reads i hop (omega arith) (popcnt-zero vector i zero_set) (
          ap (new_leaf a n bit sleaf) (at i)
          ∙ new_leaf_ne a n bit sleaf vector has i (ground arith)
          ∙ q)) in
      view-leaf a n i hop (sym (same i ne) ∙ popcnt-zero vector i zero_set) q
      ∙ ap (λ h. some (to_leaf h)) (other ∙ sym self)

  change_leaf-Outcome :
      (top : Bool) (b0 : ℕ)
      → ((its : List Item)
          → leaf_items (new_leaf a n bit sleaf) n.vector 0 ≡ some its
          → b0 + length (compress its).leaves ≤ length a.leaves)
      → vec_bt n.vector bit ≡ false
      → (p : Part) × (change_leaf a n top bit sleaf (some b0) ≡ some p) × Outcome a n bit sleaf p
  unfolding change_leaf Outcome
  change_leaf-Outcome top b0 fits off =
      let at : IsAt a n bit sleaf n.vector has = (has.size, off, λ i ne. refl) in
      let (its, e, len, reads) = collected a n bit sleaf n.vector has at in
      elim (Bool-cases (is_single n.vector (compress its).leaves && not top)) [
        | inl s ↦ (
          goes_up sleaf,
          rw (change_leaf, e, s) refl,
          (refl, single_leaf n.vector its at len reads (and_left _ _ s)),
        )
        | inr s ↦ elim (Bool-cases (vec_eq n.leafvec (compress its).leafvec)) [
          | inl q ↦ (unchanged, rw (change_leaf, e, s, q) refl, (off, its, e, q))
          | inr q ↦ (
            rebuilt (with_leaves a b0 (compress its))
                (record n { leafvec = (compress its).leafvec; base0 = b0 }),
            rw (change_leaf, e, s, q) refl,
            stored-Replaces a n bit sleaf n.vector has a.nodes its b0 n.base1 at len reads
                (fits its e) (λ i c t r. r),
          )
        ]
      ]

  cleared : IsAt a n bit sleaf (vec_clear n.vector bit) has
  cleared =
      let in_vector : bit < length n.vector = subst (λ k. bit < k) (sym has.size) lt in
      (
        length-set n.vector bit false ∙ has.size,
        vec_clear_self n.vector bit in_vector,
        λ i ne. vec_clear_ne n.vector bit i (λ e. ne (sym e)),
      )

  -- The descendants that stay, in their new block.
  kept_children :
      (b : ℕ)
      → IsFresh a n (vec_clear n.vector bit) b
      → (nodes : List PoptrieNode) × (copy_nodes
            (λ k i xs. old_child n i xs)
            a.nodes
            b
            0
            (vec_clear n.vector bit)
            0
          ≡ some nodes)
        × ((i : ℕ) (c : PoptrieNode)
            → vec_bt (vec_clear n.vector bit) i ≡ true
            → old_child n i a.nodes ≡ some c
            → get_elem? nodes (b + (popcnt_ls (vec_clear n.vector bit) i - 1)) ≡ some c)
  kept_children b fresh =
      let vector : Vec = vec_clear n.vector bit in
      let (size, off, same) = cleared in
      let src : ℕ → ℕ → List PoptrieNode → Option PoptrieNode = λ k i xs. old_child n i xs in
      let at : (j : ℕ) → 0 + j ≡ j = λ j. omega arith in
      let old : (j : ℕ) → vec_bt vector j ≡ true → vec_bt n.vector j ≡ true = λ j t.
        elim (Bool-cases (j == bit)) [
          | inl e ↦ absurd (true_ne_false (sym t ∙ ap (vec_bt vector) (eq-true j bit e) ∙ off))
          | inr e ↦ sym (same j (eq-false j bit e)) ∙ t
        ] in
      let sources : Sources src b (popcnt vector) a.nodes 0 vector 0 = λ j t.
        let in_vector = vec_bt-lt vector j t in
        let ge = vec_bt-popcnt_ls vector j t in
        let le = popcnt_ls-popcnt vector j in
        let (c, q) = has.children j (omega arith) (old j t) in
        (
          c,
          λ ys agree.
              ap (λ i. old_child n i ys) (at j)
              ∙ agree (n.base1 + (popcnt_ls n.vector j - 1))
                  (old-Outside a n vector b j fresh (omega arith) (old j t))
              ∙ q,
        ) in
      let (nodes, e, kept, reads) =
        copy_nodes-Copied src b (popcnt vector) a.nodes a.nodes b 0 vector 0 (λ j o. refl)
          (omega arith) (omega arith) (λ pos. fresh.room pos) sources in
      (
        nodes,
        e,
        λ i c t q.
            ap (get_elem? nodes) (omega arith)
            ∙ reads i c t (ap (λ i. old_child n i a.nodes) (at i) ∙ q),
      )

  drop_child-Outcome :
      (top : Bool) (b0 b : ℕ) (base1 : Option ℕ)
      → ((its : List Item)
          → leaf_items (new_leaf a n bit sleaf) (vec_clear n.vector bit) 0 ≡ some its
          → b0 + length (compress its).leaves ≤ length a.leaves)
      → node_block (vec_clear n.vector bit) base1 ≡ some b
      → IsFresh a n (vec_clear n.vector bit) b
      → (p : Part) × (drop_child a n top bit sleaf (some b0) base1 ≡ some p)
        × Outcome a n bit sleaf p
  unfolding drop_child keep_children Outcome
  drop_child-Outcome top b0 b base1 fits block fresh =
      let vector : Vec = vec_clear n.vector bit in
      let (its, e, len, reads) = collected a n bit sleaf vector has cleared in
      elim (Bool-cases (is_single vector (compress its).leaves && not top)) [
        | inl s ↦ (
          goes_up sleaf,
          rw (drop_child, e, s) refl,
          (refl, single_leaf vector its cleared len reads (and_left _ _ s)),
        )
        | inr s ↦
            let (nodes, q, kept) = kept_children b fresh in
            (
              rebuilt (record (with_leaves a b0 (compress its)) { nodes = nodes })
                  (record {
                    leafvec = (compress its).leafvec;
                    vector = vector;
                    base0 = b0;
                    base1 = b;
                  }),
              rw (drop_child, e, s, keep_children, block, q) refl,
              stored-Replaces a n bit sleaf vector has nodes its b0 b cleared len reads (fits its e)
                  kept,
            )
      ]

-- The blocks that the allocations of `_update_part_loop1` return: the leaves fit from `base0` on,
-- and the one for the descendants is fresh.
pub record HasBlocks (a : Arrays) (n : PoptrieNode) (bit sleaf b0 : ℕ) (base1 : Option ℕ)
    : Type 0 where
  pub leaves :
      (its : List Item)
      → leaf_items (new_leaf a n bit sleaf) (vec_clear n.vector bit) 0 ≡ some its
      → b0 + length (compress its).leaves ≤ length a.leaves
  pub b : ℕ
  pub block : node_block (vec_clear n.vector bit) base1 ≡ some b
  pub fresh : IsFresh a n (vec_clear n.vector bit) b

-- At a node every index of which leads to something, `_update_part_loop1` with blocks that are free
-- does one of three things: it gives the leaf on to the parent, and every other index of the
-- node leads to this leaf; it leaves a node that leads to the leaf at the index and to what the
-- old node leads to elsewhere; or, at a leaf, it takes the new leaves to be the old ones as they
-- start at the same entries.
pub update_part_loop1-Outcome :
    (a : Arrays) (n : PoptrieNode) (top : Bool) (bit sleaf b0 : ℕ) (base1 : Option ℕ)
    → HasEntries a n
    → bit < 64
    → HasBlocks a n bit sleaf b0 base1
    → (p : Part) × (update_part_loop1 a n top bit sleaf (some b0) base1 ≡ some p)
      × Outcome a n bit sleaf p
unfolding update_part_loop1
update_part_loop1-Outcome a n top bit sleaf b0 base1 has lt blocks =
    elim (Bool-cases (vec_bt n.vector bit)) [
      | inl t ↦
          let (p, e, o) =
            drop_child-Outcome a n bit sleaf has lt top b0 blocks.b base1 blocks.leaves blocks.block
              blocks.fresh in
          (p, rw (update_part_loop1, t) e, o)
      | inr f ↦
          let (p, e, o) =
            change_leaf-Outcome a n bit sleaf has lt top b0
              (λ its e. blocks.leaves its (
                ap (λ v. leaf_items (new_leaf a n bit sleaf) v 0) (vec_clear_same n.vector bit f)
                ∙ e))
              f in
          (p, rw (update_part_loop1, f) e, o)
    ]
