-- ===== src/Vec/Count.antt =====
-- Counting the ones of a bit vector: what `POPCNT_LS` says before and after a bit is set.
use poptrie_project.Base.{
  ℕ, zero, suc, ◌+◌, ◌<◌, ◌≤◌, ◌≡◌, ◌≢◌, refl, ap, true, false, [], ◌∷◌, if◌then◌else◌, arith,
  length, get_or_else, get_elem?-set_ne,
}
use poptrie_project.Vec.{Vec, zeros, vec_bt, vec_set, popcnt_ls}

pub length-zeros : (n : ℕ) → length (zeros n) ≡ n
length-zeros zero = refl
length-zeros (suc n) = ap suc (length-zeros n)

pub vec_bt-zeros : (n j : ℕ) → vec_bt (zeros n) j ≡ false
vec_bt-zeros zero j = refl
vec_bt-zeros (suc n) zero = refl
vec_bt-zeros (suc n) (suc j) = vec_bt-zeros n j

pub popcnt_ls-zeros : (n j : ℕ) → popcnt_ls (zeros n) j ≡ 0
popcnt_ls-zeros zero j = refl
popcnt_ls-zeros (suc n) zero = refl
popcnt_ls-zeros (suc n) (suc j) = let ih = popcnt_ls-zeros n j in omega arith

-- Setting a clear bit adds one to the counts from it on.
pub popcnt_ls-vec_set :
    (v : Vec) (i j : ℕ)
    → i < length v
    → vec_bt v i ≡ false
    → i ≤ j
    → popcnt_ls (vec_set v i) j ≡ suc (popcnt_ls v j)
popcnt_ls-vec_set [] i j h c le = absurd (omega arith)
popcnt_ls-vec_set (b ∷ v) zero zero h c le = grind arith
popcnt_ls-vec_set (b ∷ v) zero (suc j) h c le = grind arith
popcnt_ls-vec_set (b ∷ v) (suc i) zero h c le = absurd (omega arith)
popcnt_ls-vec_set (b ∷ v) (suc i) (suc j) h c le =
    let ih = popcnt_ls-vec_set v i j (omega arith) c (omega arith) in grind arith

-- It leaves the counts below it.
pub popcnt_ls-vec_set_lt : (v : Vec) (i j : ℕ) → j < i → popcnt_ls (vec_set v i) j ≡ popcnt_ls v j
popcnt_ls-vec_set_lt [] i j h = refl
popcnt_ls-vec_set_lt (b ∷ v) zero j h = absurd (omega arith)
popcnt_ls-vec_set_lt (b ∷ v) (suc i) zero h = refl
popcnt_ls-vec_set_lt (b ∷ v) (suc i) (suc j) h =
    ap (λ n. (if b then 1 else 0) + n) (popcnt_ls-vec_set_lt v i j (omega arith))

pub vec_bt-vec_set_ne : (v : Vec) (i j : ℕ) → i ≢ j → vec_bt (vec_set v i) j ≡ vec_bt v j
vec_bt-vec_set_ne v i j h = ap (λ o. get_or_else o false) (get_elem?-set_ne v i j true h)

-- A bit that is set counts.
pub vec_bt-popcnt_ls : (v : Vec) (i : ℕ) → vec_bt v i ≡ true → 1 ≤ popcnt_ls v i
vec_bt-popcnt_ls [] i h = absurd (grind arith)
vec_bt-popcnt_ls (b ∷ v) zero h = ground arith
vec_bt-popcnt_ls (b ∷ v) (suc i) h = let ih = vec_bt-popcnt_ls v i h in omega arith
