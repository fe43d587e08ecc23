-- ===== src/Poptrie/Triangle/Place.antt =====
-- Places in the triangle of `_parse_triangle` in modified_poptrie/poptrie_private.h.
use poptrie_project.Base.{
  ℕ, zero, suc, ◌+◌, ◌^◌, ◌<◌, ◌≡◌, ◌≢◌, refl, ◌∙◌, sym, ap, ap₂, subst, Bool, true, false, ◌||◌,
  Option, none, some, List, [], ◌∷◌, arith, length, get_elem?, get_or_else, length-append,
  get_elem?-append_lt, get_elem?-append_right, if◌then◌else◌, some_eq,
}
use native.Mathlib.Nat.{two-pow-succ}
use poptrie_project.Vec.{zeros}
use poptrie_project.Vec.Count.{length-zeros, vec_bt-zeros}
use poptrie_project.Trie.{nil, node, bits, walk}
use poptrie_project.Rib.{Addr, RadixNode, Rib, Memory}
use poptrie_project.Rib.Inv.{IsCached}
use poptrie_project.Rib.Table.{entry}
use poptrie_project.Rib.Cache.{hop_at, Reads}
use poptrie_project.Poptrie.Triangle.{
  Triangle, has_child, copies, without_child, beside, parse_triangle,
}

-- The number whose bits are these, the highest first: an index of `INDEX`.
abbrev pub number : List Bool → ℕ
number [] = 0
number (b ∷ p) = (if b then 2 ^ length p else 0) + number p

pub true_ne : false ≢ true
true_ne e = cc

pub length-bits : (b : ℕ → Bool) (d n : ℕ) → length (bits b d n) ≡ n
length-bits b d zero = refl
length-bits b d (suc n) = ap suc (length-bits b (suc d) n)

pub pow_suc : (n : ℕ) → 2 ^ suc n ≡ 2 ^ n + 2 ^ n
pow_suc n = two-pow-succ n

pub number-lt : (b : ℕ → Bool) (d n : ℕ) → number (bits b d n) < 2 ^ n
number-lt b d zero = omega arith
number-lt b d (suc n) =
    let ih = number-lt b (suc d) n in
    let p = pow_suc n in let q = ap (λ k. 2 ^ k) (length-bits b (suc d) n) in grind arith

length-copies : (n : ℕ) (c : RadixNode) → length (copies n c) ≡ n
length-copies zero c = refl
length-copies (suc n) c = ap suc (length-copies n c)

-- Both arrays have an element for each of the 2 ^ rest entries.
-- The half of the triangle under a child.
abbrev pub half : ℕ → RadixNode → Rib → Triangle
half rest c nil = without_child (2 ^ rest) c
half rest c (node c' l' r') = parse_triangle rest c' l' r'

unfoldable pub HasSize : ℕ → Triangle → Type 0
HasSize n t = (length t.nodes ≡ n) × (length t.vector ≡ n)

without_child-HasSize : (n : ℕ) (c : RadixNode) → HasSize n (without_child n c)
unfolding HasSize
without_child-HasSize n c = (length-copies n c, length-zeros n)

beside-HasSize :
    (m n : ℕ) (s t : Triangle) → HasSize m s → HasSize n t → HasSize (m + n) (beside s t)
unfolding HasSize
beside-HasSize m n s t a b = (
  length-append s.nodes t.nodes ∙ ap₂ ◌+◌ a.0 b.0,
  length-append s.vector t.vector ∙ ap₂ ◌+◌ a.1 b.1,
)

one_entry : (t : Rib) (b : Bool) → HasSize 1 (record { nodes = t ∷ []; vector = b ∷ [] })
unfolding HasSize
one_entry t b = (refl, refl)

pub parse_triangle-half :
    (rest : ℕ) (c : RadixNode) (l r : Rib)
    → parse_triangle (suc rest) c l r ≡ beside (half rest c l) (half rest c r)
unfolding parse_triangle
parse_triangle-half rest c nil nil = refl
parse_triangle-half rest c nil (node c' l' r') = refl
parse_triangle-half rest c (node c' l' r') nil = refl
parse_triangle-half rest c (node c' l' r') (node c'' l'' r'') = refl

pub half-HasSize :
    (rest : ℕ) (c : RadixNode) (t : Rib)
    → ((c' : RadixNode) (l r : Rib) → HasSize (2 ^ rest) (parse_triangle rest c' l r))
    → HasSize (2 ^ rest) (half rest c t)
half-HasSize rest c nil ih = without_child-HasSize (2 ^ rest) c
half-HasSize rest c (node c' l' r') ih = ih c' l' r'

triangle_one : (c : RadixNode) (l r : Rib) → HasSize 1 (parse_triangle zero c l r)
unfolding parse_triangle
triangle_one c l r = one_entry (node c l r) (has_child l || has_child r)

pub parse_triangle-HasSize :
    (rest : ℕ) (c : RadixNode) (l r : Rib) → HasSize (2 ^ rest) (parse_triangle rest c l r)
parse_triangle-HasSize zero c l r = triangle_one c l r
parse_triangle-HasSize (suc rest) c l r =
    let ih = parse_triangle-HasSize rest in
    subst (λ n. HasSize n (parse_triangle (suc rest) c l r)) (sym (pow_suc rest))
      (subst (HasSize (2 ^ rest + 2 ^ rest)) (sym (parse_triangle-half rest c l r)) (
        beside-HasSize (2 ^ rest) (2 ^ rest) (half rest c l) (half rest c r)
          (half-HasSize rest c l ih) (half-HasSize rest c r ih)))

-- What the entry `t` at a path, with its bit `inner`, says of the answer of a walk: a leaf caches
-- it, and an internal node carries the walk on.
abbrev pub Answers : Memory → (ℕ → Bool) → ℕ → Addr → Rib → Bool → Option ℕ → Type 0
Answers load b d path t inner answer =
    ((c : RadixNode) (l r : Rib) → t ≡ node c l r → inner ≡ false → answer ≡ hop_at load c.ext)
    × (inner ≡ true
        → (above : Option Addr) × IsCached above path t
          × Reads load path t
          × (answer ≡ walk entry b d t (hop_at load above)))

-- The place `i` of a triangle.
abbrev pub At : Triangle → ℕ → Rib → Bool → Type 0
At tri i t inner = (get_elem? tri.nodes i ≡ some t) × (get_elem? tri.vector i ≡ some inner)

pub At-left :
    (n i : ℕ) (s u : Triangle) (t : Rib) (inner : Bool)
    → HasSize n s
    → i < n
    → At (beside s u) i t inner
    → At s i t inner
unfolding HasSize
At-left n i s u t inner size lt at = (
  sym (get_elem?-append_lt s.nodes u.nodes i (omega (arith, size.0))) ∙ at.0,
  sym (get_elem?-append_lt s.vector u.vector i (omega (arith, size.1))) ∙ at.1,
)

pub At-right :
    (n i : ℕ) (s u : Triangle) (t : Rib) (inner : Bool)
    → HasSize n s
    → At (beside s u) (n + i) t inner
    → At u i t inner
unfolding HasSize
At-right n i s u t inner size at = (
  sym (get_elem?-append_right s.nodes u.nodes i (n + i) (omega (arith, size.0))) ∙ at.0,
  sym (get_elem?-append_right s.vector u.vector i (n + i) (omega (arith, size.1))) ∙ at.1,
)

pub get_elem?-copies :
    (n i : ℕ) (c : RadixNode) (t : Rib) → get_elem? (copies n c) i ≡ some t → t ≡ node c nil nil
get_elem?-copies zero i c t e = absurd (grind arith)
get_elem?-copies (suc n) zero c t e = sym (some_eq e)
get_elem?-copies (suc n) (suc i) c t e = get_elem?-copies n i c t e

pub zeros-true : (n i : ℕ) → get_elem? (zeros n) i ≢ some true
zeros-true n i e = true_ne (sym (vec_bt-zeros n i) ∙ ap (λ o. get_or_else o false) e)

cell_of : Rib → Option RadixNode
cell_of nil = none
cell_of (node c l r) = some c

pub cell_eq : {c d : RadixNode} {l r l' r' : Rib} → node c l r ≡ node d l' r' → c ≡ d
unfolding cell_of
cell_eq e = some_eq (ap cell_of e)
