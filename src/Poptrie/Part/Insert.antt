-- ===== src/Poptrie/Part/Insert.antt =====
-- `_update_part_loop2` of modified_poptrie/poptrie_private.h as the update of one entry of a node
-- to a descendant.
use poptrie_project.Base.{
  get_elem?-bound, set, Option, ℕ, zero, suc, ◌+◌, ◌-◌, ◌<◌, ◌≤◌, ◌≡◌, ◌≢◌, refl, ◌∙◌, sym, ap, ap₂,
  subst, Bool, true, false, some, List, [], ◌∷◌, arith, length, get_elem?, get_or_else, length-set,
  get_elem?-set_self, get_elem?-set_ne, inl, inr, if◌then◌else◌, ◌==◌, Bool-cases,
}
use poptrie_project.Vec.{Vec, vec_bt, vec_set, popcnt, popcnt_ls}
use poptrie_project.Vec.Count.{vec_bt-popcnt_ls}
use poptrie_project.Poptrie.{PoptrieNode, Arrays, leaf_at}
use poptrie_project.Poptrie.Leaves.{Item, Run, compress}
use poptrie_project.Poptrie.Part.{
  Part, failed, unchanged, goes_up, replaced, set_base1, rebuilt, leaf_items, copy_nodes, old_child,
  with_leaves, leaf_block, replace_child, insert_child, update_part_loop2,
}
use poptrie_project.Poptrie.Part.View.{
  to_node, view, HasEntries, leaf_items-Collected, copy_nodes-Copied, Sources, Outside,
  copy_nodes-Outside,
}
use poptrie_project.Poptrie.Part.Read.{
  IsFresh, old-Outside, stored_leaf_at, view-node, Replaces, view-leaf, eq-true, eq-false,
  vec_bt-lt, popcnt_ls-popcnt, vec_set_same,
}

true_ne_false : true ≢ false
true_ne_false e = absurd (ground arith)

popcnt_le : (v : Vec) → popcnt v ≤ length v
popcnt_le [] = omega arith
popcnt_le (false ∷ v) = let ih = popcnt_le v in omega arith
popcnt_le (true ∷ v) = let ih = popcnt_le v in omega arith

-- A vector with a clear bit has fewer ones than bits.
popcnt-lt : (v : Vec) (i : ℕ) → i < length v → vec_bt v i ≡ false → popcnt v < length v
popcnt-lt [] i lt b = absurd (omega arith)
popcnt-lt (false ∷ v) zero lt b = let le = popcnt_le v in omega arith
popcnt-lt (true ∷ v) zero lt b = absurd (true_ne_false b)
popcnt-lt (false ∷ v) (suc i) lt b = let ih = popcnt-lt v i (omega arith) b in omega arith
popcnt-lt (true ∷ v) (suc i) lt b = let ih = popcnt-lt v i (omega arith) b in omega arith

vec_set_self : (v : Vec) (i : ℕ) → i < length v → vec_bt (vec_set v i) i ≡ true
vec_set_self v i lt = ap (λ o. get_or_else o false) (get_elem?-set_self v i true lt)

vec_set_ne : (v : Vec) (i j : ℕ) → i ≢ j → vec_bt (vec_set v i) j ≡ vec_bt v j
vec_set_ne v i j ne = ap (λ o. get_or_else o false) (get_elem?-set_ne v i j true ne)

if-true : {A : Type 0} (b : Bool) (x y : A) → b ≡ true → (if b then x else y) ≡ x
if-true b x y e = rw (e) refl

if-false : {A : Type 0} (b : Bool) (x y : A) → b ≡ false → (if b then x else y) ≡ y
if-false b x y e = rw (e) refl

module _ (a : Arrays) (n c : PoptrieNode) (bit : ℕ) (has : HasEntries a n) (lt : bit < 64) where
  -- A vector with the bit set, and the other bits as the node has them.
  abbrev IsWith : Vec → Type 0
  IsWith vector =
      (length vector ≡ 64)
      × (vec_bt vector bit ≡ true)
      × ((i : ℕ) → i ≢ bit → vec_bt vector i ≡ vec_bt n.vector i)

  -- A node that reads the leaves and the descendants so has the entry replaced.
  node-Replaces :
      (a' : Arrays) (n' : PoptrieNode)
      → IsWith n'.vector
      → ((i hop : ℕ)
          → i < 64
          → vec_bt n'.vector i ≡ false
          → leaf_at a n i ≡ some hop
          → leaf_at a' n' i ≡ some hop)
      → old_child n' bit a'.nodes ≡ some c
      → ((i : ℕ) (d : PoptrieNode)
          → i ≢ bit
          → vec_bt n'.vector i ≡ true
          → old_child n i a.nodes ≡ some d
          → old_child n' i a'.nodes ≡ some d)
      → Replaces a n a' n' bit (to_node c)
  node-Replaces a' n' (size, on, same) leaves here others i below = elim (Bool-cases (i == bit)) [
    | inl e ↦
        let q = eq-true i bit e in
        view-node a' n' c i (ap (vec_bt n'.vector) q ∙ on)
          (ap (λ j. old_child n' j a'.nodes) q ∙ here)
        ∙ sym (if-true (i == bit) (some (to_node c)) (view a n i) e)
    | inr e ↦
        let ne = eq-false i bit e in
        let s = same i ne in
        elim (Bool-cases (vec_bt n.vector i)) [
          | inl t ↦
              let (d, q) = has.children i below t in
              view-node a' n' d i (s ∙ t) (others i d ne (s ∙ t) q)
              ∙ sym (view-node a n d i t q)
              ∙ sym (if-false (i == bit) (some (to_node c)) (view a n i) e)
          | inr f ↦
              let (hop, q) = has.leaves i below f in
              view-leaf a' n' i hop (s ∙ f) (leaves i hop below (s ∙ f) q)
              ∙ sym (view-leaf a n i hop f q)
              ∙ sym (if-false (i == bit) (some (to_node c)) (view a n i) e)
        ]
  ]

  -- Where the loop takes the new descendant for the bit and the old ones for the others, the new
  -- block holds them.
  copied :
      (src : ℕ → ℕ → List PoptrieNode → Option PoptrieNode) (vector : Vec) (b : ℕ)
      → IsWith vector
      → IsFresh a n vector b
      → ((k : ℕ) (xs : List PoptrieNode) → src k bit xs ≡ some c)
      → ((j : ℕ) (xs : List PoptrieNode)
          → j ≢ bit
          → src (popcnt_ls vector j - 1) j xs ≡ old_child n j xs)
      → (nodes : List PoptrieNode) × (copy_nodes src a.nodes b 0 vector 0 ≡ some nodes)
        × (get_elem? nodes (b + (popcnt_ls vector bit - 1)) ≡ some c)
        × ((i : ℕ) (d : PoptrieNode)
            → i ≢ bit
            → vec_bt vector i ≡ true
            → old_child n i a.nodes ≡ some d
            → get_elem? nodes (b + (popcnt_ls vector i - 1)) ≡ some d)
  copied src vector b (size, on, same) fresh new old =
      let at : (k j : ℕ) (xs : List PoptrieNode) → src (0 + k) (0 + j) xs ≡ src k j xs =
        λ k j xs. ap₂ (λ k j. src k j xs) (omega arith) (omega arith) in
      let sources : Sources src b (popcnt vector) a.nodes 0 vector 0 = λ j t.
        let in_vector = vec_bt-lt vector j t in
        let ge = vec_bt-popcnt_ls vector j t in
        let le = popcnt_ls-popcnt vector j in
        elim (Bool-cases (j == bit)) [
          | inl e ↦
              let q = eq-true j bit e in
              (
                c,
                λ ys agree.
                    at (popcnt_ls vector j - 1) j ys
                    ∙ ap (λ i. src (popcnt_ls vector j - 1) i ys) q
                    ∙ new (popcnt_ls vector j - 1) ys,
              )
          | inr e ↦
              let ne = eq-false j bit e in
              let was = sym (same j ne) ∙ t in
              let (d, q) = has.children j (omega arith) was in
              (
                d,
                λ ys agree.
                    at (popcnt_ls vector j - 1) j ys
                    ∙ old j ys ne
                    ∙ agree (n.base1 + (popcnt_ls n.vector j - 1))
                        (old-Outside a n vector b j fresh (omega arith) was)
                    ∙ q,
              )
        ] in
      let (nodes, e, kept, reads) =
        copy_nodes-Copied src b (popcnt vector) a.nodes a.nodes b 0 vector 0 (λ j o. refl)
          (omega arith) (omega arith) (λ pos. fresh.room pos) sources in
      (
        nodes,
        e,
        ap (get_elem? nodes) (omega arith)
            ∙ reads bit c on (
                at (popcnt_ls vector bit - 1) bit a.nodes ∙ new (popcnt_ls vector bit - 1) a.nodes),
        λ i d ne t q.
            ap (get_elem? nodes) (omega arith)
            ∙ reads i d t (at (popcnt_ls vector i - 1) i a.nodes ∙ old i a.nodes ne ∙ q),
      )

  replace_child-Replaces :
      (inode b : ℕ)
      → get_elem? a.nodes inode ≡ some n
      → vec_bt n.vector bit ≡ true
      → IsFresh a n n.vector b
      → Outside b (popcnt n.vector) inode
      → (a' : Arrays) × (n' : PoptrieNode) × (replace_child a inode n bit c (some b)
          ≡ some (replaced a'))
        × (get_elem? a'.nodes inode ≡ some n')
        × Replaces a n a' n' bit (to_node c)
  unfolding replace_child leaf_at
  replace_child-Replaces inode b stands on fresh out =
      let src : ℕ → ℕ → List PoptrieNode → Option PoptrieNode =
        λ k i xs. if i == bit then some c else get_elem? xs (n.base1 + k) in
      let with_bit : IsWith n.vector = (has.size, on, λ i ne. refl) in
      let (nodes, e, here, others) =
        copied src n.vector b with_bit fresh
          (λ k xs. if-true (bit == bit) (some c) (get_elem? xs (n.base1 + k)) (ground arith))
          (λ j xs ne. if-false (j == bit) (some c) (old_child n j xs) (ground arith)) in
      let n' : PoptrieNode = record n { base1 = b } in
      let still : get_elem? nodes inode ≡ some n =
        copy_nodes-Outside src a.nodes nodes b 0 n.vector 0 inode e
          (elim out [ inl o ↦ inl (omega arith) | inr o ↦ inr (omega arith) ])
        ∙ stands in
      let a' : Arrays = record a { nodes = set nodes inode n' } in
      let block : (i : ℕ)
          → vec_bt n.vector i ≡ true
          → get_elem? (set nodes inode n') (b + (popcnt_ls n.vector i - 1))
            ≡ get_elem? nodes (b + (popcnt_ls n.vector i - 1)) =
        λ i t.
          let ge = vec_bt-popcnt_ls n.vector i t in
          let le = popcnt_ls-popcnt n.vector i in
          get_elem?-set_ne nodes inode (b + (popcnt_ls n.vector i - 1)) n'
            (λ q. elim out [ inl o ↦ omega arith | inr o ↦ omega arith ]) in
      (
        a',
        n',
        rw (replace_child, e, set_base1, still) refl,
        get_elem?-set_self nodes inode n' (get_elem?-bound nodes inode n still),
        node-Replaces a' n' with_bit (λ i hop below f q. q) (block bit on ∙ here)
            (λ i d ne t q. block i t ∙ others i d ne t q),
      )

  insert_child-Replaces :
      (b0 b : ℕ) (base0 : Option ℕ)
      → vec_bt n.vector bit ≡ false
      → leaf_block (vec_set n.vector bit) base0 ≡ some b0
      → ((its : List Item)
          → leaf_items (leaf_at a n) (vec_set n.vector bit) 0 ≡ some its
          → popcnt (vec_set n.vector bit) < 64
          → b0 + length (compress its).leaves ≤ length a.leaves)
      → IsFresh a n (vec_set n.vector bit) b
      → (inode : ℕ) → Outside b (popcnt (vec_set n.vector bit)) inode
      → (a' : Arrays) × (n' : PoptrieNode) × (insert_child a n bit c base0 (some b)
          ≡ some (rebuilt a' n'))
        × (get_elem? a'.nodes inode ≡ get_elem? a.nodes inode)
        × Replaces a n a' n' bit (to_node c)
  unfolding insert_child
  insert_child-Replaces b0 b base0 off block fits fresh inode out =
      let vector : Vec = vec_set n.vector bit in
      let in_vector : bit < length n.vector = subst (λ k. bit < k) (sym has.size) lt in
      let size : length vector ≡ 64 = length-set n.vector bit true ∙ has.size in
      let with_bit : IsWith vector = (
        size,
        vec_set_self n.vector bit in_vector,
        λ i ne. vec_set_ne n.vector bit i (λ e. ne (sym e)),
      ) in
      let old : (j : ℕ) → vec_bt vector j ≡ false → vec_bt n.vector j ≡ false = λ j f.
        elim (Bool-cases (j == bit)) [
          | inl e ↦ absurd (
              true_ne_false (
                sym (vec_set_self n.vector bit in_vector)
                ∙ ap (vec_bt vector) (sym (eq-true j bit e))
                ∙ f))
          | inr e ↦ sym (vec_set_ne n.vector bit j (λ q. eq-false j bit e (sym q))) ∙ f
        ] in
      let at : (j : ℕ) → 0 + j ≡ j = λ j. omega arith in
      let (its, e, len, reads) = leaf_items-Collected (leaf_at a n) vector 0 (λ j below f.
        let (hop, q) = has.leaves j (omega arith) (old j f) in
        (hop, ap (leaf_at a n) (at j) ∙ q)) in
      let src : ℕ → ℕ → List PoptrieNode → Option PoptrieNode =
        λ k i xs. if i == bit then some c else old_child n i xs in
      let (nodes, q, here, others) =
        copied src vector b with_bit fresh
          (λ k xs. if-true (bit == bit) (some c) (old_child n bit xs) (ground arith))
          (λ j xs ne. if-false (j == bit) (some c) (old_child n j xs) (ground arith)) in
      let r : Run = compress its in
      let a' : Arrays = record (with_leaves a b0 r) { nodes = nodes } in
      let n' : PoptrieNode = record {
        leafvec = r.leafvec;
        vector = vector;
        base0 = b0;
        base1 = b;
      } in
      (
        a',
        n',
        rw (insert_child, e, block, q) refl,
        copy_nodes-Outside src a.nodes nodes b 0 vector 0 inode q
            (elim out [ inl o ↦ inl (omega arith) | inr o ↦ inr (omega arith) ]),
        node-Replaces a' n' with_bit
            (λ i hop below f h.
              stored_leaf_at a nodes (leaf_at a n) vector its b0 b i hop size len reads
                (fits its e (let less = popcnt-lt vector i (omega arith) f in omega arith)) below f
                h)
            here others,
      )

-- What `_update_part_loop2` leaves at the node `inode`: where its bit was set, it returns 1, and the
-- node of the arrays has the entry replaced; where its bit was clear, it returns 0, the node
-- `cnodes` has the entry replaced, and the one of the arrays is as it was.
pub Inserted : Arrays → ℕ → PoptrieNode → ℕ → PoptrieNode → Part → Type 0
Inserted a inode n bit c (failed a') = ⊥
Inserted a inode n bit c unchanged = ⊥
Inserted a inode n bit c (goes_up hop) = ⊥
Inserted a inode n bit c (replaced a') =
    (vec_bt n.vector bit ≡ true)
    × (n' : PoptrieNode) × (get_elem? a'.nodes inode ≡ some n')
    × Replaces a n a' n' bit (to_node c)
Inserted a inode n bit c (rebuilt a' n') =
    (vec_bt n.vector bit ≡ false)
    × (get_elem? a'.nodes inode ≡ some n)
    × Replaces a n a' n' bit (to_node c)

-- Where every index of a node of the arrays leads to something, `_update_part_loop2` with blocks that
-- are free leaves a node that leads to the new descendant at the index, and to what the old node
-- leads to at every other index below 64. Where the bit of the index was set, this node is in the
-- arrays, in place of the old one, and the function returns 1; else it is `cnodes`, the old one
-- stays in the arrays, and the function returns 0.
pub update_part_loop2-Replaces :
    (a : Arrays) (inode : ℕ) (n c : PoptrieNode) (bit b0 b : ℕ) (base0 : Option ℕ)
    → get_elem? a.nodes inode ≡ some n
    → HasEntries a n
    → bit < 64
    → leaf_block (vec_set n.vector bit) base0 ≡ some b0
    → ((its : List Item)
        → leaf_items (leaf_at a n) (vec_set n.vector bit) 0 ≡ some its
        → popcnt (vec_set n.vector bit) < 64
        → b0 + length (compress its).leaves ≤ length a.leaves)
    → IsFresh a n (vec_set n.vector bit) b
    → Outside b (popcnt (vec_set n.vector bit)) inode
    → (p : Part) × (update_part_loop2 a inode bit c base0 (some b) ≡ some p)
      × Inserted a inode n bit c p
unfolding update_part_loop2 Inserted
update_part_loop2-Replaces a inode n c bit b0 b base0 stands has lt block fits fresh out =
    elim (Bool-cases (vec_bt n.vector bit)) [
      | inl t ↦
          let same = vec_set_same n.vector bit t in
          let (a', n', e, at, r) =
            replace_child-Replaces a n c bit has lt inode b stands t
              (subst (λ v. IsFresh a n v b) same fresh)
              (subst (λ v. Outside b (popcnt v) inode) same out) in
          (replaced a', rw (update_part_loop2, stands, t) e, (t, n', at, r))
      | inr f ↦
          let (a', n', e, at, r) =
            insert_child-Replaces a n c bit has lt b0 b base0 f block fits fresh inode out in
          (rebuilt a' n', rw (update_part_loop2, stands, f) e, (f, at ∙ stands, r))
    ]
