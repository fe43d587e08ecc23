-- ===== src/Poptrie/Part/Read.antt =====
-- What `_update_part_loop1` and `_update_part_loop2` of modified_poptrie/poptrie_private.h leave at
-- each index of the node.
use poptrie_project.Base.{
  ℕ, zero, suc, ◌+◌, ◌-◌, ◌<◌, ◌≤◌, ◌≡◌, ◌≢◌, refl, ◌∙◌, sym, ap, true, false, Option, some, List,
  [], ◌∷◌, arith, length, get_elem?, get_or_else, get_elem?-set_self, get_elem?-set_ne, ◌⊎◌, inl,
  inr, if◌then◌else◌, ◌==◌, Bool-cases,
}
use mathlib.Core.Option
use poptrie_project.Vec.{Vec, vec_bt, vec_set, vec_clear, popcnt, popcnt_ls}
use poptrie_project.Vec.Count.{vec_bt-popcnt_ls}
use poptrie_project.Poptrie.{PoptrieNode, Arrays, leaf_at}
use poptrie_project.Poptrie.Leaves.{Item, compress}
use poptrie_project.Poptrie.Store.{commit}
use poptrie_project.Poptrie.Store.Read.{commit-leaf_at}
use poptrie_project.Poptrie.Part.{old_child, new_leaf, with_leaves}
use poptrie_project.Poptrie.Part.View.{
  Entry, to_leaf, to_node, view, HasEntries, Collected, ReadsLeaves, leaf_items-Collected, Outside,
}

pub popcnt_ls-popcnt : (v : Vec) (i : ℕ) → popcnt_ls v i ≤ popcnt v
popcnt_ls-popcnt [] i = omega arith
popcnt_ls-popcnt (b ∷ v) zero = omega arith
popcnt_ls-popcnt (b ∷ v) (suc i) = let ih = popcnt_ls-popcnt v i in omega arith

pub vec_clear_self : (v : Vec) (i : ℕ) → i < length v → vec_bt (vec_clear v i) i ≡ false
vec_clear_self v i lt = ap (λ o. get_or_else o false) (get_elem?-set_self v i false lt)

pub vec_clear_ne : (v : Vec) (i j : ℕ) → i ≢ j → vec_bt (vec_clear v i) j ≡ vec_bt v j
vec_clear_ne v i j ne = ap (λ o. get_or_else o false) (get_elem?-set_ne v i j false ne)

pub view-leaf :
    (a : Arrays) (n : PoptrieNode) (i hop : ℕ)
    → vec_bt n.vector i ≡ false
    → leaf_at a n i ≡ some hop
    → view a n i ≡ some (to_leaf hop)
unfolding view
view-leaf a n i hop b e = rw (view, b) (ap (Option.map (λ h. to_leaf h)) e)

pub view-node :
    (a : Arrays) (n c : PoptrieNode) (i : ℕ)
    → vec_bt n.vector i ≡ true
    → old_child n i a.nodes ≡ some c
    → view a n i ≡ some (to_node c)
unfolding view
view-node a n c i b e = rw (view, b) (ap (Option.map (λ h. to_node h)) e)

-- A node with the leaves that the loop collected reads them.
pub stored_leaf_at :
    (a : Arrays) (nodes : List PoptrieNode) (hop_of : ℕ → Option ℕ) (vector : Vec) (its : List Item)
    (b0 b1 i hop : ℕ)
    → length vector ≡ 64
    → length its ≡ length vector
    → ReadsLeaves hop_of vector 0 its
    → b0 + length (compress its).leaves ≤ length a.leaves
    → i < 64
    → vec_bt vector i ≡ false
    → hop_of i ≡ some hop
    → leaf_at
        (record (with_leaves a b0 (compress its)) { nodes = nodes })
        (record { leafvec = (compress its).leafvec; vector = vector; base0 = b0; base1 = b1 })
        i
      ≡ some hop
unfolding commit leaf_at
stored_leaf_at a nodes hop_of vector its b0 b1 i hop size len reads fits lt b e =
    commit-leaf_at a vector [] its b1 b0 true i hop (omega arith) fits
      (reads i hop (omega arith) b (ap hop_of (omega arith) ∙ e))

stored_leaf :
    (a : Arrays) (nodes : List PoptrieNode) (hop_of : ℕ → Option ℕ) (vector : Vec) (its : List Item)
    (b0 b1 i hop : ℕ)
    → length vector ≡ 64
    → length its ≡ length vector
    → ReadsLeaves hop_of vector 0 its
    → b0 + length (compress its).leaves ≤ length a.leaves
    → i < 64
    → vec_bt vector i ≡ false
    → hop_of i ≡ some hop
    → view
        (record (with_leaves a b0 (compress its)) { nodes = nodes })
        (record { leafvec = (compress its).leafvec; vector = vector; base0 = b0; base1 = b1 })
        i
      ≡ some (to_leaf hop)
stored_leaf a nodes hop_of vector its b0 b1 i hop size len reads fits lt b e =
    view-leaf (record (with_leaves a b0 (compress its)) { nodes = nodes })
      (record { leafvec = (compress its).leafvec; vector = vector; base0 = b0; base1 = b1 }) i hop b
      (stored_leaf_at a nodes hop_of vector its b0 b1 i hop size len reads fits lt b e)

-- Setting a bit that is set, or clearing one that is clear, changes nothing.
pub vec_set_same : (v : Vec) (i : ℕ) → vec_bt v i ≡ true → vec_set v i ≡ v
vec_set_same [] i b = refl
vec_set_same (c ∷ v) zero b = ap (λ d. d ∷ v) (sym b)
vec_set_same (c ∷ v) (suc i) b = ap (λ w. c ∷ w) (vec_set_same v i b)

pub vec_clear_same : (v : Vec) (i : ℕ) → vec_bt v i ≡ false → vec_clear v i ≡ v
vec_clear_same [] i b = refl
vec_clear_same (c ∷ v) zero b = ap (λ d. d ∷ v) (sym b)
vec_clear_same (c ∷ v) (suc i) b = ap (λ w. c ∷ w) (vec_clear_same v i b)

pub vec_bt-lt : (v : Vec) (i : ℕ) → vec_bt v i ≡ true → i < length v
vec_bt-lt [] i b = absurd (grind arith)
vec_bt-lt (c ∷ v) zero b = omega arith
vec_bt-lt (c ∷ v) (suc i) b = let ih = vec_bt-lt v i b in omega arith

pub eq-true : (i j : ℕ) → (i == j) ≡ true → i ≡ j
eq-true i j e = ground arith

pub eq-false : (i j : ℕ) → (i == j) ≡ false → i ≢ j
eq-false i j e q = absurd (ground arith)

-- The block is free of the descendants of the node, and inside the array.
pub record IsFresh (a : Arrays) (n : PoptrieNode) (vector : Vec) (b : ℕ) : Type 0 where
  pub room : 1 ≤ popcnt vector → b + popcnt vector ≤ length a.nodes
  pub apart : 1 ≤ popcnt vector → (n.base1 + popcnt n.vector ≤ b) ⊎ (b + popcnt vector ≤ n.base1)

-- An old descendant of the node stands outside the block.
pub old-Outside :
    (a : Arrays) (n : PoptrieNode) (vector : Vec) (b i : ℕ)
    → IsFresh a n vector b
    → 1 ≤ popcnt vector
    → vec_bt n.vector i ≡ true
    → Outside b (popcnt vector) (n.base1 + (popcnt_ls n.vector i - 1))
old-Outside a n vector b i fresh pos s =
    let ge = vec_bt-popcnt_ls n.vector i s in
    let le = popcnt_ls-popcnt n.vector i in
    elim (fresh.apart pos) [ inl o ↦ inl (omega arith) | inr o ↦ inr (omega arith) ]

-- The entry of the index is replaced, and the other indexes lead to what they did.
abbrev pub Replaces : Arrays → PoptrieNode → Arrays → PoptrieNode → ℕ → Entry → Type 0
Replaces a n a' n' bit e =
    (i : ℕ) → i < 64 → view a' n' i ≡ (if i == bit then some e else view a n i)

-- The loop over the leaves of a node with its bit clear for the changed entry.
module _ (a : Arrays) (n : PoptrieNode) (bit sleaf : ℕ) (vector : Vec) (has : HasEntries a n) where
  abbrev pub IsAt : Type 0
  IsAt =
      (length vector ≡ 64)
      × (vec_bt vector bit ≡ false)
      × ((i : ℕ) → i ≢ bit → vec_bt vector i ≡ vec_bt n.vector i)

  pub new_leaf_ne : (i : ℕ) → (i == bit) ≡ false → new_leaf a n bit sleaf i ≡ leaf_at a n i
  new_leaf_ne i e = rw (e) refl

  pub new_leaf_self : (i : ℕ) → (i == bit) ≡ true → new_leaf a n bit sleaf i ≡ some sleaf
  new_leaf_self i e = rw (e) refl

  pub collected : IsAt → Collected (new_leaf a n bit sleaf) vector 0
  collected (size, off, same) = leaf_items-Collected (new_leaf a n bit sleaf) vector 0 (λ j lt b.
      let at : 0 + j ≡ j = omega arith in
      elim (Bool-cases (j == bit)) [
        | inl e ↦ (sleaf, ap (new_leaf a n bit sleaf) at ∙ new_leaf_self j e)
        | inr e ↦
            let (hop, q) = has.leaves j (omega arith) (sym (same j (eq-false j bit e)) ∙ b) in
            (hop, ap (new_leaf a n bit sleaf) at ∙ new_leaf_ne j e ∙ q)
      ])

  -- A node with these leaves, and the old descendants, has the entry replaced.
  pub stored-Replaces :
      (nodes : List PoptrieNode) (its : List Item) (b0 b1 : ℕ)
      → IsAt
      → length its ≡ length vector
      → ReadsLeaves (new_leaf a n bit sleaf) vector 0 its
      → b0 + length (compress its).leaves ≤ length a.leaves
      → ((i : ℕ) (c : PoptrieNode)
          → vec_bt vector i ≡ true
          → old_child n i a.nodes ≡ some c
          → get_elem? nodes (b1 + (popcnt_ls vector i - 1)) ≡ some c)
      → Replaces a n
          (record (with_leaves a b0 (compress its)) { nodes = nodes })
          (record { leafvec = (compress its).leafvec; vector = vector; base0 = b0; base1 = b1 })
          bit
          (to_leaf sleaf)
  stored-Replaces nodes its b0 b1 (size, off, same) len reads fits kept i lt =
      let reads_leaf = stored_leaf a nodes (new_leaf a n bit sleaf) vector its b0 b1 i in
      elim (Bool-cases (i == bit)) [
        | inl e ↦
            let q = eq-true i bit e in
            rw (e) (
              reads_leaf sleaf size len reads fits lt (ap (vec_bt vector) q ∙ off)
                (new_leaf_self i e))
        | inr e ↦
            let s = same i (eq-false i bit e) in
            elim (Bool-cases (vec_bt n.vector i)) [
              | inl t ↦
                  let (c, q) = has.children i lt t in
                  rw (e) (
                    view-node (record (with_leaves a b0 (compress its)) { nodes = nodes })
                      (record {
                        leafvec = (compress its).leafvec;
                        vector = vector;
                        base0 = b0;
                        base1 = b1;
                      })
                      c i (s ∙ t) (kept i c (s ∙ t) q)
                    ∙ sym (view-node a n c i t q))
              | inr f ↦
                  let (hop, q) = has.leaves i lt f in
                  rw (e) (
                    reads_leaf hop size len reads fits lt (s ∙ f) (new_leaf_ne i e ∙ q)
                    ∙ sym (view-leaf a n i hop f q))
            ]
      ]
