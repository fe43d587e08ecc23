-- ===== src/Poptrie/Descend/Follow.antt =====
-- `_descend_and_update` of modified_poptrie/poptrie4.c and poptrie6.c stops, within its stack, at a node
-- that the lookup of the prefix visits.
use poptrie_project.Base.{
  ℕ, zero, suc, ◌+◌, ◌-◌, ◌*◌, ◌<◌, ◌≤◌, ◌≡◌, refl, ◌∙◌, ◌⊎◌, subst, ◌≢◌, sym, ap, true, false,
  Option, none, some, List, [], ◌∷◌, arith, length, leb, get_elem?, some_eq, Bool-cases, inl, inr,
}
use poptrie_project.Vec.{vec_bt, popcnt_ls}
use poptrie_project.Trie.{nil, node}
use poptrie_project.Rib.{RadixNode, Rib, next_block}
use poptrie_project.Poptrie.{PoptrieNode, Arrays, poptrie_s, lookup_loop}
use poptrie_project.Poptrie.Descend.{PoptrieStack, Descent, next_inode, descend}

-- Every descendant of a node of the arrays is in the arrays.
unfoldable pub IsClosed : Arrays → Type 0
IsClosed a =
    (i idx : ℕ) (n : PoptrieNode)
    → get_elem? a.nodes i ≡ some n
    → vec_bt n.vector idx ≡ true
    → (c : PoptrieNode) × (get_elem? a.nodes (n.base1 + (popcnt_ls n.vector idx - 1)) ≡ some c)

-- The lookup at node i and depth comes to node j, p strides further down.
abbrev pub Visits : (ℕ → ℕ → ℕ) → Arrays → ℕ → ℕ → ℕ → ℕ → Type 0
Visits index a i depth j p =
    (f : ℕ)
    → lookup_loop (p + f) index a i (index depth 6) (depth + 6)
      ≡ lookup_loop f index a j (index (depth + 6 * p) 6) (depth + 6 * p + 6)

Visits-zero : (index : ℕ → ℕ → ℕ) (a : Arrays) (i depth : ℕ) → Visits index a i depth i 0
Visits-zero index a i depth f =
    let at : depth + 6 * 0 ≡ depth = omega arith in
    let fuel : 0 + f ≡ f = omega arith in
    ap (λ k. lookup_loop k index a i (index depth 6) (depth + 6)) fuel
    ∙ sym (ap (λ k. lookup_loop f index a i (index k 6) (k + 6)) at)

Visits-suc :
    (index : ℕ → ℕ → ℕ) (a : Arrays) (i depth j p : ℕ) (n : PoptrieNode)
    → get_elem? a.nodes i ≡ some n
    → vec_bt n.vector (index depth 6) ≡ true
    → Visits index a (n.base1 + (popcnt_ls n.vector (index depth 6) - 1)) (depth + 6) j p
    → Visits index a i depth j (suc p)
unfolding lookup_loop
Visits-suc index a i depth j p n e b v f =
    let at : depth + 6 + 6 * p ≡ depth + 6 * suc p = omega arith in
    let idx : ℕ = index depth 6 in
    let round : lookup_loop (suc (p + f)) index a i idx (depth + 6)
        ≡ lookup_loop (p + f) index a (n.base1 + (popcnt_ls n.vector idx - 1)) (index (depth + 6) 6)
            (depth + 6 + 6) =
      rw (lookup_loop, e, b) refl in
    let fuel : suc p + f ≡ suc (p + f) = omega arith in
    ap (λ k. lookup_loop k index a i idx (depth + 6)) fuel
    ∙ round
    ∙ v f
    ∙ ap (λ k. lookup_loop f index a j (index k 6) (k + 6)) at

-- The descent stops after p pushes.
abbrev Stops :
    ℕ
    → (ℕ → ℕ → ℕ)
    → Arrays
    → Rib
    → Option ℕ
    → List PoptrieStack
    → ℕ
    → ℕ
    → (Descent → ℕ → Type 0)
    → Type 0
Stops fuel index a t inode stack len depth follows =
    (d : Descent) × (p : ℕ) × (descend fuel index a t inode stack len depth ≡ some d)
    × (length d.stack ≡ p + length stack)
    × (depth + 6 * p < len)
    × follows d p

leb-lt : (m n : ℕ) → leb m n ≡ false → n < m
leb-lt m n e = ground arith

none_ne : {A : Type 0} {x : A} → none ≢ some x
none_ne e = absurd (grind arith)

Stops-none :
    (fuel : ℕ) (index : ℕ → ℕ → ℕ) (a : Arrays) (t : Rib) (stack : List PoptrieStack)
    (len depth : ℕ)
    → depth < len
    → len ≤ depth + 6 * fuel
    → Stops fuel index a t none stack len depth (λ d p. (d.inode ≡ none) × (p ≡ 0))
unfolding descend
Stops-none zero index a t stack len depth lt enough = absurd (omega arith)
Stops-none (suc fuel) index a t stack len depth lt enough = (
  record { tnode = t; inode = none; stack = stack },
  0,
  elim (Bool-cases (leb len (depth + 6))) [
    | inl s ↦ rw (descend, s) refl
    | inr s ↦ rw (descend, s) refl
  ],
  omega arith,
  omega arith,
  (refl, refl),
)

-- A round that goes on is a push.
Stops-push :
    (fuel : ℕ) (index : ℕ → ℕ → ℕ) (a : Arrays) (t : Rib) (i : ℕ) (n : PoptrieNode) (c : RadixNode)
    (l r : Rib) (stack : List PoptrieStack) (len depth : ℕ) (follows : Descent → ℕ → Type 0)
    → leb len (depth + 6) ≡ false
    → get_elem? a.nodes i ≡ some n
    → next_block 6 t (index depth 6) ≡ node c l r
    → Stops fuel index a
        (node c l r)
        (next_inode n (index depth 6))
        (record { inode = i; idx = index depth 6 } ∷ stack)
        len
        (depth + 6)
        (λ d p. follows d (suc p))
    → Stops (suc fuel) index a t (some i) stack len depth follows
unfolding descend
Stops-push fuel index a t i n c l r stack len depth follows s e b (d, p, run, len_eq, lt, w) =
    (d, suc p, rw (descend, s, e, b) run, omega arith, omega arith, w)

Stops-here :
    (fuel : ℕ) (index : ℕ → ℕ → ℕ) (a : Arrays) (t : Rib) (i : ℕ) (stack : List PoptrieStack)
    (len depth : ℕ)
    → depth < len
    → descend (suc fuel) index a t (some i) stack len depth
      ≡ some (record { tnode = t; inode = some i; stack = stack })
    → Stops
        (suc fuel)
        index
        a
        t
        (some i)
        stack
        len
        depth
        (λ d p. (j : ℕ) → d.inode ≡ some j → Visits index a i depth j p)
Stops-here fuel index a t i stack len depth lt run = (
  record { tnode = t; inode = some i; stack = stack },
  0,
  run,
  omega arith,
  omega arith,
  λ j e. subst (λ k. Visits index a i depth k 0) (some_eq e) (Visits-zero index a i depth),
)

Rib-cases : (t : Rib) → (t ≡ nil) ⊎ ((c : RadixNode) × (l : Rib) × (r : Rib) × (t ≡ node c l r))
Rib-cases nil = inl refl
Rib-cases (node c l r) = inr (c, l, r, refl)

descend-Stops :
    (fuel : ℕ) (index : ℕ → ℕ → ℕ) (a : Arrays) (t : Rib) (i : ℕ) (n : PoptrieNode)
    (stack : List PoptrieStack) (len depth : ℕ)
    → IsClosed a
    → get_elem? a.nodes i ≡ some n
    → depth < len
    → len ≤ depth + 6 * fuel
    → Stops fuel index a t
        (some i)
        stack
        len
        depth
        (λ d p. (j : ℕ) → d.inode ≡ some j → Visits index a i depth j p)
unfolding descend IsClosed
descend-Stops zero index a t i n stack len depth closed e lt enough = absurd (omega arith)
descend-Stops (suc fuel) index a t i n stack len depth closed e lt enough =
    let idx : ℕ = index depth 6 in
    elim (Bool-cases (leb len (depth + 6))) [
      | inl s ↦ Stops-here fuel index a t i stack len depth lt (rw (descend, s) refl)
      | inr s ↦ elim (Rib-cases (next_block 6 t idx)) [
        | inl b ↦ Stops-here fuel index a t i stack len depth lt (rw (descend, s, e, b) refl)
        | inr (c, l, r, b) ↦
            Stops-push fuel index a t i n c l r stack len depth
              (λ d p. (j : ℕ) → d.inode ≡ some j → Visits index a i depth j p) s e b
              (elim (Bool-cases (vec_bt n.vector idx)) [
                | inl bt ↦
                    let (child, stands) = closed i idx n e bt in
                    let below : depth + 6 < len = leb-lt len (depth + 6) s in
                    let (d, p, run, size, less, w) =
                      descend-Stops fuel index a (node c l r)
                        (n.base1 + (popcnt_ls n.vector idx - 1)) child
                        (record { inode = i; idx = idx } ∷ stack) len (depth + 6) closed stands
                        below (omega arith) in
                    (
                      d,
                      p,
                      rw (next_inode, bt) run,
                      size,
                      less,
                      λ j at. Visits-suc index a i depth j p n e bt (w j at),
                    )
                | inr bt ↦
                    let below : depth + 6 < len = leb-lt len (depth + 6) s in
                    let (d, p, run, size, less, left) =
                      Stops-none fuel index a (node c l r) (record { inode = i; idx = idx } ∷ stack)
                        len (depth + 6) below (omega arith) in
                    (
                      d,
                      p,
                      rw (next_inode, bt) run,
                      size,
                      less,
                      λ j at. absurd (none_ne (sym left.0 ∙ at)),
                    )
              ])
      ]
    ]

-- Let the arrays hold every descendant of their nodes, and let a prefix be longer than `POPTRIE_S`.
-- With enough rounds for its strides, `_descend_and_update` from a node of the arrays comes to its call of `_update_part`. It pushes
-- fewer entries than there are strides, and the old node that it stops at, if there is one, is
-- the one that the lookup of the prefix comes to after as many rounds as there are pushes.
pub descend-Visits :
    (fuel : ℕ) (index : ℕ → ℕ → ℕ) (a : Arrays) (t : Rib) (i : ℕ) (n : PoptrieNode) (len : ℕ)
    → IsClosed a
    → get_elem? a.nodes i ≡ some n
    → poptrie_s < len
    → len ≤ poptrie_s + 6 * fuel
    → (d : Descent) × (descend fuel index a t (some i) [] len poptrie_s ≡ some d)
      × (poptrie_s + 6 * length d.stack < len)
      × ((j : ℕ) → d.inode ≡ some j → Visits index a i poptrie_s j (length d.stack))
descend-Visits fuel index a t i n len closed e lt enough =
    let (d, p, run, size, less, w) =
      descend-Stops fuel index a t i n [] len poptrie_s closed e lt enough in
    let pushes : p ≡ length d.stack = omega arith in
    (d, run, omega arith, λ j at. subst (Visits index a i poptrie_s j) pushes (w j at))
