-- ===== src/Poptrie/Triangle/Walk.antt =====
-- The entry of the triangle for the next six bits of a key carries the walk down the RIB on.
use poptrie_project.Base.{
  ℕ, zero, suc, ◌+◌, ◌^◌, ◌≡◌, refl, ◌∙◌, sym, ap, subst, Bool, true, false, ◌||◌, Option, some, [],
  ◌∷◌, ◌++◌, arith, length, if◌then◌else◌, some_eq, Bool-cases, inl, inr, or_else, append-nil,
  append_assoc,
}
use poptrie_project.Trie.{nil, node, bits, walk}
use poptrie_project.Rib.{Addr, RadixNode, Rib, Memory, here}
use poptrie_project.Rib.Inv.{IsCached}
use poptrie_project.Rib.Table.{entry}
use poptrie_project.Rib.Cache.{hop_at, hop_at-here, Reads, Reads-child, Reads-root}
use poptrie_project.Poptrie.Triangle.{has_child, without_child, beside, parse_triangle}
use poptrie_project.Poptrie.Triangle.Place.{
  number, half, true_ne, length-bits, number-lt, HasSize, parse_triangle-half, half-HasSize,
  parse_triangle-HasSize, Answers, At, At-left, At-right, get_elem?-copies, zeros-true, cell_eq,
}

-- A child that is missing.
Answers-copies :
    (load : Memory) (b : ℕ → Bool) (n i d : ℕ) (path : Addr) (c : RadixNode) (t : Rib)
    (inner : Bool) (answer : Option ℕ)
    → At (without_child n c) i t inner
    → answer ≡ hop_at load c.ext
    → Answers load b d path t inner answer
Answers-copies load b n i d path c t inner answer at e = (
  λ c' l r q f.
      e
      ∙ ap (λ (x : RadixNode). hop_at load x.ext)
          (cell_eq (sym (get_elem?-copies n i c t at.0) ∙ q)),
  λ f. absurd (zeros-true n i (at.1 ∙ ap some f)),
)

walk-leaf :
    (b : ℕ → Bool) (d : ℕ) (c : RadixNode) (cand : Option ℕ)
    → walk entry b d (node c nil nil) cand ≡ or_else (entry c) cand
unfolding walk
walk-leaf b d c cand = elim (Bool-cases (b d)) [ inl t ↦ rw (t) refl | inr t ↦ rw (t) refl ]

-- What a node caches is the best value down to it.
cached-best :
    (load : Memory) (path : Addr) (above : Option Addr) (c : RadixNode) (l r : Rib)
    → IsCached above path (node c l r)
    → Reads load path (node c l r)
    → or_else (entry c) (hop_at load above) ≡ hop_at load c.ext
cached-best load path above c l r inv reads =
    sym (hop_at-here load c above path (Reads-root load path c l r reads))
    ∙ ap (hop_at load) (sym inv.0)

-- The bottom of the triangle.
Answers-bottom :
    (load : Memory) (b : ℕ → Bool) (d : ℕ) (path : Addr) (above : Option Addr) (c : RadixNode)
    (l r : Rib)
    → IsCached above path (node c l r)
    → Reads load path (node c l r)
    → Answers load b d path
        (node c l r)
        (has_child l || has_child r)
        (walk entry b d (node c l r) (hop_at load above))
Answers-bottom load b d path above c nil nil inv reads = (
  λ c' l r q f.
      walk-leaf b d c (hop_at load above)
      ∙ cached-best load path above c nil nil inv reads
      ∙ ap (λ (x : RadixNode). hop_at load x.ext) (cell_eq q),
  λ f. absurd (true_ne f),
)
Answers-bottom load b d path above c (node c1 l1 r1) r inv reads =
    (λ c' l' r' q f. absurd (true_ne (sym f)), λ f. (above, inv, reads, refl))
Answers-bottom load b d path above c nil (node c1 l1 r1) inv reads =
    (λ c' l' r' q f. absurd (true_ne (sym f)), λ f. (above, inv, reads, refl))

-- The claim of the main lemma for the triangles of `rest` levels.
Carries : Memory → (ℕ → Bool) → ℕ → Type 0
Carries load b rest =
    (d : ℕ) (c : RadixNode) (l r : Rib) (path : Addr) (above : Option Addr) (t : Rib) (inner : Bool)
    → IsCached above path (node c l r)
    → Reads load path (node c l r)
    → At (parse_triangle rest c l r) (number (bits b d rest)) t inner
    → Answers load b (d + rest) (path ++ bits b d rest) t inner
        (walk entry b d (node c l r) (hop_at load above))

Answers-half :
    (load : Memory) (b : ℕ → Bool) (rest d : ℕ) (c : RadixNode) (u : Rib) (path : Addr)
    (here : Option Addr) (t : Rib) (inner : Bool)
    → Carries load b rest
    → hop_at load here ≡ hop_at load c.ext
    → IsCached here path u
    → Reads load path u
    → At (half rest c u) (number (bits b d rest)) t inner
    → Answers load b
        (d + rest)
        (path ++ bits b d rest)
        t
        inner
        (walk entry b d u (hop_at load here))
unfolding Carries walk
Answers-half load b rest d c nil path here t inner ih e inv reads at =
    Answers-copies load b (2 ^ rest) (number (bits b d rest)) (d + rest) (path ++ bits b d rest) c t
      inner (hop_at load here) at e
Answers-half load b rest d c (node c' l r) path here t inner ih e inv reads at =
    ih d c' l r path here t inner inv reads at

-- The bits of the key select the half under the child that the walk goes to.
At-half :
    (b : ℕ → Bool) (rest d : ℕ) (c : RadixNode) (l r t : Rib) (inner : Bool)
    → At (parse_triangle (suc rest) c l r) (number (bits b d (suc rest))) t inner
    → At (half rest c (if b d then r else l)) (number (bits b (suc d) rest)) t inner
At-half b rest d c l r t inner at = elim (Bool-cases (b d)) [
  | inl e ↦ rw (e) (
      At-right (2 ^ rest) i (half rest c l) (half rest c r) t inner size (
        subst (λ n. At (beside (half rest c l) (half rest c r)) (2 ^ n + i) t inner) len
          (rw (e) at at')))
  | inr e ↦ rw (e) (
      At-left (2 ^ rest) i (half rest c l) (half rest c r) t inner size (number-lt b (suc d) rest) (
        subst (λ n. At (beside (half rest c l) (half rest c r)) n t inner) (omega arith)
          (rw (e) at at')))
]
  where
    i : ℕ
    i = number (bits b (suc d) rest)

    len : length (bits b (suc d) rest) ≡ rest
    len = length-bits b (suc d) rest

    size : HasSize (2 ^ rest) (half rest c l)
    size = half-HasSize rest c l (parse_triangle-HasSize rest)

    at' : At (beside (half rest c l) (half rest c r)) (number (bits b d (suc rest))) t inner
    at' =
        subst (λ u. At u (number (bits b d (suc rest))) t inner) (parse_triangle-half rest c l r) at

walk-node :
    (b : ℕ → Bool) (d : ℕ) (c : RadixNode) (l r : Rib) (cand : Option ℕ)
    → walk entry b d (node c l r) cand
      ≡ walk entry b (suc d) (if b d then r else l) (or_else (entry c) cand)
unfolding walk
walk-node b d c l r cand = elim (Bool-cases (b d)) [ inl t ↦ rw (t) refl | inr t ↦ rw (t) refl ]

IsCached-child :
    (above : Option Addr) (path : Addr) (c : RadixNode) (l r : Rib) (b : Bool)
    → IsCached above path (node c l r)
    → IsCached (here c above path) (path ++ b ∷ []) (if b then r else l)
IsCached-child above path c l r true inv = inv.3
IsCached-child above path c l r false inv = inv.2

Carries-suc :
    (load : Memory) (b : ℕ → Bool) (rest : ℕ) → Carries load b rest → Carries load b (suc rest)
unfolding Carries
Carries-suc load b rest ih d c l r path above t inner inv reads at =
    let root = hop_at-here load c above path (Reads-root load path c l r reads) in
    let u : Rib = if b d then r else l in
    let q : Addr = path ++ b d ∷ [] in
    let best : Option Addr = here c above path in
    let below =
      Answers-half load b rest (suc d) c u q best t inner ih (ap (hop_at load) (sym inv.0))
        (IsCached-child above path c l r (b d) inv) (Reads-child load path c l r (b d) reads)
        (At-half b rest d c l r t inner at) in
    let steps : walk entry b (suc d) u (hop_at load best)
        ≡ walk entry b d (node c l r) (hop_at load above) =
      ap (walk entry b (suc d) u) root ∙ sym (walk-node b d c l r (hop_at load above)) in
    subst (Answers load b (d + suc rest) (path ++ bits b d (suc rest)) t inner) steps (
      subst
        (λ n.
          Answers load b n (path ++ bits b d (suc rest)) t inner
            (walk entry b (suc d) u (hop_at load best)))
        (omega arith)
        (subst
          (λ p. Answers load b (suc d + rest) p t inner (walk entry b (suc d) u (hop_at load best)))
          (append_assoc path (b d ∷ []) (bits b (suc d) rest)) below))

Carries-zero : (load : Memory) (b : ℕ → Bool) → Carries load b zero
unfolding Carries parse_triangle
Carries-zero load b d c l r path above t inner inv reads at =
    let tq : node c l r ≡ t = some_eq at.0 in
    let iq : (has_child l || has_child r) ≡ inner = some_eq at.1 in
    let answer = walk entry b d (node c l r) (hop_at load above) in
    let bottom = Answers-bottom load b d path above c l r inv reads in
    subst (λ n. Answers load b n (path ++ []) t inner answer) (omega arith)
      (subst (λ p. Answers load b d p t inner answer) (sym (append-nil path))
        (subst (λ u. Answers load b d path u inner answer) tq
          (subst (λ f. Answers load b d path (node c l r) f answer) iq bottom)))

triangle-Carries : (load : Memory) (b : ℕ → Bool) (rest : ℕ) → Carries load b rest
triangle-Carries load b zero = Carries-zero load b
triangle-Carries load b (suc rest) = Carries-suc load b rest (triangle-Carries load b rest)

-- In a RIB that keeps the invariant, let the bits of a key from depth d on lead to an entry of
-- the triangle under a node at depth d whose bit in `vector` is clear. Then the pointer `ext` of
-- the entry reads the answer of the lookup that continues at the node.
pub parse_triangle_leaf :
    (load : Memory) (b : ℕ → Bool) (d : ℕ) (c : RadixNode) (l r : Rib) (path : Addr)
    (above : Option Addr) (c' : RadixNode) (l' r' : Rib)
    → IsCached above path (node c l r)
    → Reads load path (node c l r)
    → At (parse_triangle 6 c l r) (number (bits b d 6)) (node c' l' r') false
    → walk entry b d (node c l r) (hop_at load above) ≡ hop_at load c'.ext
unfolding Carries
parse_triangle_leaf load b d c l r path above c' l' r' inv reads at =
    (triangle-Carries load b 6 d c l r path above (node c' l' r') false inv reads at).0 c' l' r'
      refl refl

-- Where the bit of the entry is set, the lookup comes to the entry six levels further down and
-- carries on there with the best next hop so far, and the invariant holds under the entry.
pub parse_triangle_inner :
    (load : Memory) (b : ℕ → Bool) (d : ℕ) (c : RadixNode) (l r : Rib) (path : Addr)
    (above : Option Addr) (t : Rib)
    → IsCached above path (node c l r)
    → Reads load path (node c l r)
    → At (parse_triangle 6 c l r) (number (bits b d 6)) t true
    → (above' : Option Addr) × IsCached above' (path ++ bits b d 6) t
      × Reads load (path ++ bits b d 6) t
      × (walk entry b d (node c l r) (hop_at load above)
          ≡ walk entry b (d + 6) t (hop_at load above'))
unfolding Carries
parse_triangle_inner load b d c l r path above t inv reads at =
    (triangle-Carries load b 6 d c l r path above t true inv reads at).1 refl
