-- ===== src/Poptrie/Rounds.antt =====
-- The loops of `poptrie_lookup` and `poptrie6_lookup` end with a leaf, at the latest in the round
-- that is the height of the nodes.
use poptrie_project.Base.{
  ℕ, zero, suc, ◌+◌, ◌-◌, ◌<◌, ◌≡◌, ◌^◌, ◌%◌, refl, ◌∙◌, ap, some, arith, true, false, Bool-cases,
  inl, inr, get_elem?, get_elem?-lt, length,
}
use poptrie_project.Vec.{vec_bt, popcnt_ls}
use poptrie_project.Poptrie.{
  PoptrieNode, Arrays, index4, index6, poptrie_s, leaf_at, lookup_loop, dir_leaf, lookup_leaf,
  rounds4, rounds6,
}

-- The node i is in the array, each of its indexes leads to a leaf in the array or to a descendant,
-- and so on for at most h nodes on each way down.
unfoldable pub IsTree : Arrays → ℕ → ℕ → Type 0
IsTree a zero i = ⊥
IsTree a (suc h) i =
    (n : PoptrieNode) × (get_elem? a.nodes i ≡ some n)
    × ((idx : ℕ)
        → idx < 64
        → vec_bt n.vector idx ≡ false
        → (hop : ℕ) × (leaf_at a n idx ≡ some hop))
    × ((idx : ℕ)
        → idx < 64
        → vec_bt n.vector idx ≡ true
        → IsTree a h (n.base1 + (popcnt_ls n.vector idx - 1)))

-- Every entry of the direct pointing array is a leaf or leads to nodes of height at most h.
pub record IsBuilt (a : Arrays) (h : ℕ) : Type 0 where
  pub size : length a.dir ≡ 2 ^ poptrie_s
  pub trees : (top e : ℕ) → get_elem? a.dir top ≡ some e → dir_leaf e ≡ false → IsTree a h e

lookup_loop-some :
    (h : ℕ) (index : ℕ → ℕ → ℕ) (a : Arrays) (i idx pos : ℕ)
    → ((s : ℕ) → index s 6 < 64)
    → idx < 64
    → IsTree a h i
    → (hop : ℕ) × ((k : ℕ) → lookup_loop (h + k) index a i idx pos ≡ some hop)
unfolding lookup_loop IsTree
lookup_loop-some zero index a i idx pos bound lt t = elim t [ ]
lookup_loop-some (suc h) index a i idx pos bound lt (n, e, leaves, children) =
    let fuel : (k : ℕ) → suc h + k ≡ suc (h + k) = λ k. omega arith in
    elim (Bool-cases (vec_bt n.vector idx)) [
      | inr f ↦
          let (hop, q) = leaves idx lt f in
          (hop, λ k. ap (λ m. lookup_loop m index a i idx pos) (fuel k) ∙ rw (lookup_loop, e, f) q)
      | inl f ↦
          let (hop, q) =
            lookup_loop-some h index a (n.base1 + (popcnt_ls n.vector idx - 1)) (index pos 6)
              (pos + 6) bound (bound pos) (children idx lt f) in
          (
            hop,
            λ k. ap (λ m. lookup_loop m index a i idx pos) (fuel k) ∙ rw (lookup_loop, e, f) (q k),
          )
    ]

lookup_leaf-some :
    (h : ℕ) (index : ℕ → ℕ → ℕ) (a : Arrays)
    → ((s : ℕ) → index s 6 < 64)
    → index 0 poptrie_s < 2 ^ poptrie_s
    → IsBuilt a h
    → (hop : ℕ) × ((k : ℕ) → lookup_leaf (h + k) index a ≡ some hop)
unfolding lookup_leaf
lookup_leaf-some h index a bound top built =
    let (e, q) = get_elem?-lt a.dir (index 0 poptrie_s) (omega (arith, built.size)) in
    elim (Bool-cases (dir_leaf e)) [
      | inl f ↦ (e % 2 ^ 31, λ k. rw (lookup_leaf, q, f) refl)
      | inr f ↦
          let (hop, r) =
            lookup_loop-some h index a e (index poptrie_s 6) (poptrie_s + 6) bound (bound poptrie_s)
              (built.trees (index 0 poptrie_s) e q f) in
          (hop, λ k. rw (lookup_leaf, q, f) (r k))
    ]

-- Where the direct pointing array has an entry for each of its indexes, and every entry is a leaf or
-- leads to nodes of height at most 10, the loop of `poptrie_lookup` ends with a leaf, and this within 10 rounds: with more rounds it
-- finds the same leaf. This is so whatever a shift by a negative count yields.
pub rounds4_enough :
    (wild : ℕ → ℕ → ℕ) (a : Arrays) (addr : ℕ)
    → IsBuilt a rounds4
    → (hop : ℕ) × ((k : ℕ) → lookup_leaf (rounds4 + k) (index4 wild addr) a ≡ some hop)
unfolding index4
rounds4_enough wild a addr built =
    lookup_leaf-some rounds4 (index4 wild addr) a (λ s. omega arith) (omega arith) built

-- The same of the loop of `poptrie6_lookup` with 21 rounds.
pub rounds6_enough :
    (wild : ℕ → ℕ → ℕ) (a : Arrays) (addr : ℕ)
    → IsBuilt a rounds6
    → (hop : ℕ) × ((k : ℕ) → lookup_leaf (rounds6 + k) (index6 wild addr) a ≡ some hop)
unfolding index6
rounds6_enough wild a addr built =
    lookup_leaf-some rounds6 (index6 wild addr) a (λ s. ground arith) (ground arith) built
