-- ===== src/Bitmap/Fast.antt =====
-- `tree_function` of modified_tree_bitmap/mb_node.c by the table `fct` finds what its loop finds.
use poptrie_project.Base.{
  ℕ, zero, suc, ◌/◌, ◌^◌, ◌<◌, ◌≤◌, ◌≡◌, refl, ◌∙◌, sym, ap, Bool, true, false, Option, none, some,
  [], ◌∷◌, if◌then◌else◌, arith, length, or_else, length-set,
}
use native.Mathlib.Nat.{two-pow-succ}
use poptrie_project.Vec.{Vec, zeros, vec_bt, vec_set, vec_and, highest}
use poptrie_project.Vec.Count.{vec_bt-zeros, vec_bt-vec_set_ne}
use poptrie_project.Bitmap.{stride_bits, count_inl_bitmap, tree_loop, fct_loop, fct, tree_function}

-- No bit up to p is set.
Above : ℕ → Vec → Type 0
Above p m = (q : ℕ) → q ≤ p → vec_bt m q ≡ false

Above-tail : (p : ℕ) (b : Bool) (m : Vec) → Above (suc p) (b ∷ m) → Above p m
unfolding Above
Above-tail p b m h q le = h (suc q) (omega arith)

up : Option ℕ → Option ℕ
up none = none
up (some i) = some (suc i)

up-or_else :
    (o : Option ℕ) (b : Bool) (p : ℕ)
    → up (or_else o (if b then some p else none))
      ≡ or_else (up o) (if b then some (suc p) else none)
unfolding up
up-or_else none true p = refl
up-or_else none false p = refl
up-or_else (some i) b p = refl

or_else-none : (o : Option ℕ) → or_else o none ≡ o
or_else-none none = refl
or_else-none (some i) = refl

pick :
    (o : Option ℕ) (b : Bool) (p : ℕ) (rest : Option ℕ)
    → or_else (or_else o (if b then some p else none)) rest ≡ or_else o (if b then some p else rest)
pick none true p rest = refl
pick none false p rest = refl
pick (some i) b p rest = refl

highest-zeros : (n : ℕ) (v : Vec) → highest (vec_and (zeros n) v) ≡ none
highest-zeros zero v = refl
highest-zeros (suc n) [] = refl
highest-zeros (suc n) (c ∷ v) =
    ap (λ (o : Option ℕ). elim o [ none ↦ none | some i ↦ some (suc i) ]) (highest-zeros n v)

highest-vec_set :
    (p : ℕ) (m v : Vec)
    → p < length m
    → Above p m
    → highest (vec_and (vec_set m p) v)
      ≡ or_else (highest (vec_and m v)) (if vec_bt v p then some p else none)
unfolding Above up
highest-vec_set p [] v lt h = absurd (omega arith)
highest-vec_set zero (b ∷ m) [] lt h = refl
highest-vec_set (suc p) (b ∷ m) [] lt h = refl
highest-vec_set zero (true ∷ m) (c ∷ v) lt h = absurd (grind (arith, h zero))
highest-vec_set zero (false ∷ m) (c ∷ v) lt h =
    elim (highest (vec_and m v))
      as (λ o.
        (elim o [ none ↦ if c then some 0 else none | some i ↦ some (suc i) ])
        ≡ or_else (elim o [ none ↦ none | some i ↦ some (suc i) ]) (if c then some 0 else none)) [
          | none ↦ refl
          | some i ↦ refl
        ]
highest-vec_set (suc p) (true ∷ m) (c ∷ v) lt h = absurd (grind (arith, h zero))
highest-vec_set (suc p) (false ∷ m) (c ∷ v) lt h =
    let ih = highest-vec_set p m v (omega arith) (Above-tail p false m h) in
    ap up ih ∙ up-or_else (highest (vec_and m v)) (vec_bt v p) p

-- The rounds of the table fill in from the highest level down: each sets a bit below the others.
fct_loop-highest :
    (rounds s : ℕ) (m v : Vec)
    → 2 ^ rounds ≤ suc (length m)
    → s < 2 ^ rounds
    → ((q : ℕ) → suc q < 2 ^ rounds → vec_bt m q ≡ false)
    → highest (vec_and (fct_loop rounds (s / 2) m) v)
      ≡ or_else (highest (vec_and m v)) (tree_loop rounds v s)
unfolding fct_loop tree_loop Above
fct_loop-highest zero s m v len lt clear = sym (or_else-none (highest (vec_and m v)))
fct_loop-highest (suc rounds) s m v len lt clear =
    let double = two-pow-succ rounds in
    let bit : s / 2 < 2 ^ rounds = omega arith in
    let p : ℕ = count_inl_bitmap (s / 2) rounds in
    let one = highest-vec_set p m v (omega arith) (λ q le. clear q (omega arith)) in
    let rest =
      fct_loop-highest rounds (s / 2) (vec_set m p) v (omega (arith, length-set m p true)) bit
        (λ q h. vec_bt-vec_set_ne m p q (λ e. omega arith) ∙ clear q (omega arith)) in
    rest
    ∙ ap (λ o. or_else o (tree_loop rounds v (s / 2))) one
    ∙ pick (highest (vec_and m v)) (vec_bt v p) p (tree_loop rounds v (s / 2))

-- For a bitmap and a stride of 6 bits, the table finds what the loop finds.
pub tree_function-tree_loop :
    (bitmap : Vec) (stride : ℕ)
    → stride < 64
    → tree_function bitmap stride ≡ tree_loop stride_bits bitmap stride
unfolding tree_function fct
tree_function-tree_loop bitmap stride lt =
    fct_loop-highest 6 stride (zeros 64) bitmap (omega arith) lt (λ q h. vec_bt-zeros 64 q)
    ∙ ap (λ o. or_else o (tree_loop 6 bitmap stride)) (highest-zeros 64 bitmap)
