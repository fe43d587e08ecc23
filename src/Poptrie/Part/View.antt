-- ===== src/Poptrie/Part/View.antt =====
-- What a lookup finds at an index of a poptrie node, and what the loops of `_update_part_loop1` and
-- `_update_part_loop2` of modified_poptrie/poptrie_private.h leave there.
use poptrie_project.Base.{
  ◌≢◌, Option-cases, some_eq, set, none, ℕ, zero, suc, ◌+◌, ◌-◌, ◌<◌, ◌≤◌, ◌≡◌, refl, ◌∙◌, sym, ap,
  ap₂, true, false, Option, some, List, [], ◌∷◌, arith, length, get_elem?, length-set,
  get_elem?-set_self, get_elem?-set_ne, ◌⊎◌, inl, inr,
}
use mathlib.Core.Option
use poptrie_project.Vec.{Vec, vec_bt, popcnt, popcnt_ls}
use poptrie_project.Vec.Count.{vec_bt-popcnt_ls}
use poptrie_project.Poptrie.{PoptrieNode, Arrays, leaf_at}
use poptrie_project.Poptrie.Leaves.{Item, inner, leaf}
use poptrie_project.Poptrie.Part.{leaf_items, copy_nodes, old_child}

-- What stands at an index: the hop of a leaf, or a descendant.
pub data Entry : Type 0 where
  to_leaf : ℕ → Entry
  to_node : PoptrieNode → Entry

unfoldable pub view : Arrays → PoptrieNode → ℕ → Option Entry
view a n i = elim (vec_bt n.vector i) [
  | false ↦ Option.map (λ hop. to_leaf hop) (leaf_at a n i)
  | true ↦ Option.map (λ c. to_node c) (old_child n i a.nodes)
]

-- The node has 64 bits, and every index below 64 leads to something.
pub record HasEntries (a : Arrays) (n : PoptrieNode) : Type 0 where
  pub size : length n.vector ≡ 64
  pub leaves : (i : ℕ) → i < 64 → vec_bt n.vector i ≡ false → (hop : ℕ) × (leaf_at a n i ≡ some hop)
  pub children :
      (i : ℕ)
      → i < 64
      → vec_bt n.vector i ≡ true
      → (c : PoptrieNode) × (old_child n i a.nodes ≡ some c)

-- The items have the leaf of every index whose bit is clear.
abbrev pub ReadsLeaves : (ℕ → Option ℕ) → Vec → ℕ → List Item → Type 0
ReadsLeaves hop_of v i its =
    (j hop : ℕ)
    → j < length v
    → vec_bt v j ≡ false
    → hop_of (i + j) ≡ some hop
    → get_elem? its j ≡ some (leaf hop)

ReadsLeaves-inner :
    (hop_of : ℕ → Option ℕ) (v : Vec) (i : ℕ) (its : List Item)
    → ReadsLeaves hop_of v (suc i) its
    → ReadsLeaves hop_of (true ∷ v) i (inner ∷ its)
ReadsLeaves-inner hop_of v i its h zero hop lt b q = absurd (grind arith)
ReadsLeaves-inner hop_of v i its h (suc j) hop lt b q =
    h j hop (omega arith) b (ap hop_of (omega arith) ∙ q)

ReadsLeaves-leaf :
    (hop_of : ℕ → Option ℕ) (v : Vec) (i h0 : ℕ) (its : List Item)
    → hop_of i ≡ some h0
    → ReadsLeaves hop_of v (suc i) its
    → ReadsLeaves hop_of (false ∷ v) i (leaf h0 ∷ its)
ReadsLeaves-leaf hop_of v i h0 its e h zero hop lt b q =
    ap (Option.map (λ n. leaf n)) (sym e ∙ ap hop_of (omega arith) ∙ q)
ReadsLeaves-leaf hop_of v i h0 its e h (suc j) hop lt b q =
    h j hop (omega arith) b (ap hop_of (omega arith) ∙ q)

-- What the loop over the leaves collects.
abbrev pub Collected : (ℕ → Option ℕ) → Vec → ℕ → Type 0
Collected hop_of v i =
    (its : List Item) × (leaf_items hop_of v i ≡ some its)
    × (length its ≡ length v)
    × ReadsLeaves hop_of v i its

Collected-inner :
    (hop_of : ℕ → Option ℕ) (v : Vec) (i : ℕ)
    → Collected hop_of v (suc i)
    → Collected hop_of (true ∷ v) i
unfolding leaf_items
Collected-inner hop_of v i (its, e, len, reads) = (
  inner ∷ its,
  ap (Option.map (λ xs. inner ∷ xs)) e,
  ap suc len,
  ReadsLeaves-inner hop_of v i its reads,
)

Collected-leaf :
    (hop_of : ℕ → Option ℕ) (v : Vec) (i h0 : ℕ)
    → hop_of i ≡ some h0
    → Collected hop_of v (suc i)
    → Collected hop_of (false ∷ v) i
unfolding leaf_items
Collected-leaf hop_of v i h0 e0 (its, e, len, reads) = (
  leaf h0 ∷ its,
  rw (leaf_items, e0) (ap (Option.map (λ xs. leaf h0 ∷ xs)) e),
  ap suc len,
  ReadsLeaves-leaf hop_of v i h0 its e0 reads,
)

pub leaf_items-Collected :
    (hop_of : ℕ → Option ℕ) (v : Vec) (i : ℕ)
    → ((j : ℕ) → j < length v → vec_bt v j ≡ false → (hop : ℕ) × (hop_of (i + j) ≡ some hop))
    → Collected hop_of v i
unfolding leaf_items
leaf_items-Collected hop_of [] i h = ([], refl, refl, λ j hop lt. absurd (omega arith))
leaf_items-Collected hop_of (true ∷ v) i h = Collected-inner hop_of v i (
    leaf_items-Collected hop_of v (suc i)
      (λ j lt c. let (hop, q) = h (suc j) (omega arith) c in (hop, ap hop_of (omega arith) ∙ q)))
leaf_items-Collected hop_of (false ∷ v) i h =
    let (h0, e0) = h 0 (omega arith) refl in
    Collected-leaf hop_of v i h0 (ap hop_of (omega arith) ∙ e0) (
      leaf_items-Collected hop_of v (suc i)
        (λ j lt c. let (hop, q) = h (suc j) (omega arith) c in (hop, ap hop_of (omega arith) ∙ q)))

-- The place is outside the block of m entries at lo.
abbrev pub Outside : ℕ → ℕ → ℕ → Type 0
Outside lo m j = (j < lo) ⊎ (lo + m ≤ j)

none_ne_some {ℓ} : {A : Type ℓ} {x : A} → none ≢ some x
none_ne_some e = absurd (grind arith)

module _ {ℓ} {A : Type ℓ} where
  -- Two arrays have the same entries outside the block.
  abbrev pub Agree : ℕ → ℕ → List A → List A → Type ℓ
  Agree lo m xs ys = (j : ℕ) → Outside lo m j → get_elem? ys j ≡ get_elem? xs j

  Agree-set :
      (lo m : ℕ) (xs ys : List A) (i : ℕ) (x : A)
      → lo ≤ i
      → i < lo + m
      → Agree lo m xs ys
      → Agree lo m xs (set ys i x)
  Agree-set lo m xs ys i x le lt h j out =
      get_elem?-set_ne ys i j x (λ e. elim out [ inl o ↦ omega arith | inr o ↦ omega arith ])
      ∙ h j out

  -- The sources of the bits of v do not read the block, and exist.
  abbrev pub Sources : (ℕ → ℕ → List A → Option A) → ℕ → ℕ → List A → ℕ → Vec → ℕ → Type ℓ
  Sources src lo m xs n v i =
      (j : ℕ)
      → vec_bt v j ≡ true
      → (x : A) × ((ys : List A)
          → Agree lo m xs ys
          → src (n + (popcnt_ls v j - 1)) (i + j) ys ≡ some x)

  Sources-clear :
      (src : ℕ → ℕ → List A → Option A) (lo m : ℕ) (xs : List A) (n : ℕ) (v : Vec) (i : ℕ)
      → Sources src lo m xs n (false ∷ v) i
      → Sources src lo m xs n v (suc i)
  Sources-clear src lo m xs n v i h j b =
      let (x, s) = h (suc j) b in
      (x, λ ys agree. ap₂ (λ k q. src k q ys) (omega arith) (omega arith) ∙ s ys agree)

  Sources-set :
      (src : ℕ → ℕ → List A → Option A) (lo m : ℕ) (xs : List A) (n : ℕ) (v : Vec) (i : ℕ)
      → Sources src lo m xs n (true ∷ v) i
      → Sources src lo m xs (suc n) v (suc i)
  Sources-set src lo m xs n v i h j b =
      let pos = vec_bt-popcnt_ls v j b in
      let (x, s) = h (suc j) b in
      (x, λ ys agree. ap₂ (λ k q. src k q ys) (omega arith) (omega arith) ∙ s ys agree)

  -- The copy of the source of each bit stands at its place.
  abbrev pub ReadsCopies : (ℕ → ℕ → List A → Option A) → List A → List A → ℕ → ℕ → Vec → ℕ → Type ℓ
  ReadsCopies src xs res base1 n v i =
      (j : ℕ) (x : A)
      → vec_bt v j ≡ true
      → src (n + (popcnt_ls v j - 1)) (i + j) xs ≡ some x
      → get_elem? res (base1 + (n + (popcnt_ls v j - 1))) ≡ some x

  ReadsCopies-clear :
      (src : ℕ → ℕ → List A → Option A) (xs res : List A) (base1 n : ℕ) (v : Vec) (i : ℕ)
      → ReadsCopies src xs res base1 n v (suc i)
      → ReadsCopies src xs res base1 n (false ∷ v) i
  ReadsCopies-clear src xs res base1 n v i h zero x b q = absurd (grind arith)
  ReadsCopies-clear src xs res base1 n v i h (suc j) x b q =
      ap (get_elem? res) (omega arith)
      ∙ h j x b (ap₂ (λ k q. src k q xs) (omega arith) (omega arith) ∙ q)

  ReadsCopies-set :
      (src : ℕ → ℕ → List A → Option A) (xs res : List A) (base1 n : ℕ) (v : Vec) (i : ℕ) (x0 : A)
      → get_elem? res (base1 + n) ≡ some x0
      → src n i xs ≡ some x0
      → ReadsCopies src xs res base1 (suc n) v (suc i)
      → ReadsCopies src xs res base1 n (true ∷ v) i
  ReadsCopies-set src xs res base1 n v i x0 here e h zero x b q =
      ap (get_elem? res) (omega arith)
      ∙ here
      ∙ sym e
      ∙ ap₂ (λ k q. src k q xs) (omega arith) (omega arith)
      ∙ q
  ReadsCopies-set src xs res base1 n v i x0 here e h (suc j) x b q =
      let pos = vec_bt-popcnt_ls v j b in
      ap (get_elem? res) (omega arith)
      ∙ h j x b (ap₂ (λ k q. src k q xs) (omega arith) (omega arith) ∙ q)

  -- What the loop copies.
  abbrev pub Copied : (ℕ → ℕ → List A → Option A) → List A → List A → ℕ → ℕ → Vec → ℕ → Type ℓ
  Copied src xs arr base1 n v i =
      (res : List A) × (copy_nodes src arr base1 n v i ≡ some res)
      × ((j : ℕ) → j < base1 + n → get_elem? res j ≡ get_elem? arr j)
      × ReadsCopies src xs res base1 n v i

  Copied-clear :
      (src : ℕ → ℕ → List A → Option A) (xs arr : List A) (base1 n : ℕ) (v : Vec) (i : ℕ)
      → Copied src xs arr base1 n v (suc i)
      → Copied src xs arr base1 n (false ∷ v) i
  unfolding copy_nodes
  Copied-clear src xs arr base1 n v i (res, e, kept, reads) =
      (res, e, kept, ReadsCopies-clear src xs res base1 n v i reads)

  Copied-set :
      (src : ℕ → ℕ → List A → Option A) (xs arr : List A) (base1 n : ℕ) (v : Vec) (i : ℕ) (x0 : A)
      → base1 + n < length arr
      → src n i arr ≡ some x0
      → src n i xs ≡ some x0
      → Copied src xs (set arr (base1 + n) x0) base1 (suc n) v (suc i)
      → Copied src xs arr base1 n (true ∷ v) i
  unfolding copy_nodes
  Copied-set src xs arr base1 n v i x0 lt e0 f0 (res, e, kept, reads) = (
    res,
    rw (copy_nodes, e0) e,
    λ j lt. kept j (omega arith) ∙ get_elem?-set_ne arr (base1 + n) j x0 (λ e. omega arith),
    ReadsCopies-set src xs res base1 n v i x0
        (kept (base1 + n) (omega arith) ∙ get_elem?-set_self arr (base1 + n) x0 lt) f0 reads,
  )

  pub copy_nodes-Copied :
      (src : ℕ → ℕ → List A → Option A) (lo m : ℕ) (xs arr : List A) (base1 n : ℕ) (v : Vec) (i : ℕ)
      → Agree lo m xs arr
      → lo ≤ base1 + n
      → base1 + n + popcnt v ≤ lo + m
      → (1 ≤ popcnt v → lo + m ≤ length arr)
      → Sources src lo m xs n v i
      → Copied src xs arr base1 n v i
  unfolding copy_nodes
  copy_nodes-Copied src lo m xs arr base1 n [] i agree le fits room h =
      (arr, refl, λ j lt. refl, λ j x b q. absurd (grind arith))
  copy_nodes-Copied src lo m xs arr base1 n (false ∷ v) i agree le fits room h =
      Copied-clear src xs arr base1 n v i (
        copy_nodes-Copied src lo m xs arr base1 n v (suc i) agree le (omega arith)
          (λ some_set. room (omega arith)) (Sources-clear src lo m xs n v i h))
  copy_nodes-Copied src lo m xs arr base1 n (true ∷ v) i agree le fits room h =
      let (x0, s) = h 0 refl in
      let at : (ys : List A) → src n i ys ≡ src (n + 0) (i + 0) ys =
        λ ys. ap₂ (λ k q. src k q ys) (omega arith) (omega arith) in
      let len = length-set arr (base1 + n) x0 in
      let space = room (omega arith) in
      Copied-set src xs arr base1 n v i x0 (omega arith) (at arr ∙ s arr agree)
        (at xs ∙ s xs (λ j o. refl))
        (copy_nodes-Copied src lo m xs (set arr (base1 + n) x0) base1 (suc n) v (suc i)
          (Agree-set lo m xs arr (base1 + n) x0 le (omega arith) agree) (omega arith) (omega arith)
          (λ some_set. omega arith) (Sources-set src lo m xs n v i h))

  -- The loop writes to its block alone.
  pub copy_nodes-Outside :
      (src : ℕ → ℕ → List A → Option A) (arr res : List A) (base1 n : ℕ) (v : Vec) (i j : ℕ)
      → copy_nodes src arr base1 n v i ≡ some res
      → Outside (base1 + n) (popcnt v) j
      → get_elem? res j ≡ get_elem? arr j
  unfolding copy_nodes
  copy_nodes-Outside src arr res base1 n [] i j e out = ap (λ xs. get_elem? xs j) (sym (some_eq e))
  copy_nodes-Outside src arr res base1 n (false ∷ v) i j e out =
      copy_nodes-Outside src arr res base1 n v (suc i) j e
        (elim out [ inl o ↦ inl o | inr o ↦ inr (omega arith) ])
  copy_nodes-Outside src arr res base1 n (true ∷ v) i j e out = elim (Option-cases (src n i arr)) [
    | inl q ↦ absurd (none_ne_some (sym (rw (copy_nodes, q) refl) ∙ e))
    | inr (x, q) ↦
        let run : copy_nodes src (set arr (base1 + n) x) base1 (suc n) v (suc i) ≡ some res =
          sym (rw (copy_nodes, q) refl) ∙ e in
        let ne : base1 + n ≢ j = λ same. elim out [ inl o ↦ omega arith | inr o ↦ omega arith ] in
        copy_nodes-Outside src (set arr (base1 + n) x) res base1 (suc n) v (suc i) j run
          (elim out [ inl o ↦ inl (omega arith) | inr o ↦ inr (omega arith) ])
        ∙ get_elem?-set_ne arr (base1 + n) j x ne
  ]
