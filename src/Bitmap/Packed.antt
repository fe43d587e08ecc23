-- ===== src/Bitmap/Packed.antt =====
-- Arrays with an element for each bit of a bitmap that is set, the one of the highest bit first, as
-- a node of modified_tree_bitmap/mb_node.h keeps its rules and its children.
use poptrie_project.Base.{
  ℕ, zero, suc, ◌<◌, ◌≤◌, ◌≡◌, refl, ap, true, false, Option, none, some, List, [], ◌∷◌,
  if◌then◌else◌, arith, length, get_elem?,
}
use poptrie_project.Vec.{Vec, vec_bt, vec_set, vec_clear, popcnt, count_from}

module _ {ℓ} {A : Type ℓ} where
  -- The element that stands `p` places from the start, the first one at 1; none outside.
  abbrev pub slot : List A → ℕ → Option A
  slot xs zero = none
  slot xs (suc p) = get_elem? xs p

  -- The two `memcpy` around a new element at the place `k`, and around a removed one.
  abbrev pub insert_at : ℕ → A → List A → List A
  insert_at zero x ys = x ∷ ys
  insert_at (suc k) x [] = x ∷ []
  insert_at (suc k) x (y ∷ ys) = y ∷ insert_at k x ys

  abbrev pub remove_at : ℕ → List A → List A
  remove_at k [] = []
  remove_at zero (y ∷ ys) = ys
  remove_at (suc k) (y ∷ ys) = y ∷ remove_at k ys

  -- The element of the bit i.
  abbrev pub packed : Vec → List A → ℕ → Option A
  packed v xs i = if vec_bt v i then slot xs (count_from v i) else none

  pub insert_at_self :
      (k : ℕ) (x : A) (ys : List A) → k ≤ length ys → get_elem? (insert_at k x ys) k ≡ some x
  insert_at_self zero x ys h = refl
  insert_at_self (suc k) x [] h = absurd (omega arith)
  insert_at_self (suc k) x (y ∷ ys) h = insert_at_self k x ys (omega arith)

  pub insert_at_lt :
      (k m : ℕ) (x : A) (ys : List A)
      → m < k
      → k ≤ length ys
      → get_elem? (insert_at k x ys) m ≡ get_elem? ys m
  insert_at_lt zero m x ys h le = absurd (omega arith)
  insert_at_lt (suc k) m x [] h le = absurd (omega arith)
  insert_at_lt (suc k) zero x (y ∷ ys) h le = refl
  insert_at_lt (suc k) (suc m) x (y ∷ ys) h le = insert_at_lt k m x ys (omega arith) (omega arith)

  pub insert_at_le :
      (k m : ℕ) (x : A) (ys : List A)
      → k ≤ m
      → k ≤ length ys
      → get_elem? (insert_at k x ys) (suc m) ≡ get_elem? ys m
  insert_at_le zero m x ys h le = refl
  insert_at_le (suc k) m x [] h le = absurd (omega arith)
  insert_at_le (suc k) zero x (y ∷ ys) h le = absurd (omega arith)
  insert_at_le (suc k) (suc m) x (y ∷ ys) h le = insert_at_le k m x ys (omega arith) (omega arith)

  pub length-insert_at : (k : ℕ) (x : A) (ys : List A) → length (insert_at k x ys) ≡ suc (length ys)
  length-insert_at zero x ys = refl
  length-insert_at (suc k) x [] = refl
  length-insert_at (suc k) x (y ∷ ys) = ap suc (length-insert_at k x ys)

  pub remove_at_lt : (k m : ℕ) (ys : List A) → m < k → get_elem? (remove_at k ys) m ≡ get_elem? ys m
  remove_at_lt k m [] h = refl
  remove_at_lt zero m (y ∷ ys) h = absurd (omega arith)
  remove_at_lt (suc k) zero (y ∷ ys) h = refl
  remove_at_lt (suc k) (suc m) (y ∷ ys) h = remove_at_lt k m ys (omega arith)

  pub remove_at_le :
      (k m : ℕ) (ys : List A) → k ≤ m → get_elem? (remove_at k ys) m ≡ get_elem? ys (suc m)
  remove_at_le k m [] h = refl
  remove_at_le zero m (y ∷ ys) h = refl
  remove_at_le (suc k) zero (y ∷ ys) h = absurd (omega arith)
  remove_at_le (suc k) (suc m) (y ∷ ys) h = remove_at_le k m ys (omega arith)

  pub length-remove_at :
      (k : ℕ) (ys : List A) → k < length ys → suc (length (remove_at k ys)) ≡ length ys
  length-remove_at k [] h = absurd (omega arith)
  length-remove_at zero (y ∷ ys) h = refl
  length-remove_at (suc k) (y ∷ ys) h = ap suc (length-remove_at k ys (omega arith))

-- The counts.
pub count_from-le : (v : Vec) (i : ℕ) → count_from v i ≤ popcnt v
count_from-le v zero = omega arith
count_from-le [] (suc i) = omega arith
count_from-le (b ∷ v) (suc i) = let h = count_from-le v i in omega arith

pub count_from-vec_bt : (v : Vec) (i : ℕ) → vec_bt v i ≡ true → 1 ≤ count_from v i
count_from-vec_bt [] i h = absurd (grind arith)
count_from-vec_bt (b ∷ v) zero h = ground arith
count_from-vec_bt (b ∷ v) (suc i) h = count_from-vec_bt v i h

pub popcnt-vec_set :
    (v : Vec) (i : ℕ) → i < length v → vec_bt v i ≡ false → popcnt (vec_set v i) ≡ suc (popcnt v)
popcnt-vec_set [] i h c = absurd (omega arith)
popcnt-vec_set (b ∷ v) zero h c = grind arith
popcnt-vec_set (b ∷ v) (suc i) h c = let ih = popcnt-vec_set v i (omega arith) c in omega arith

pub popcnt-vec_clear :
    (v : Vec) (i : ℕ) → vec_bt v i ≡ true → suc (popcnt (vec_clear v i)) ≡ popcnt v
popcnt-vec_clear [] i c = absurd (grind arith)
popcnt-vec_clear (b ∷ v) zero c = grind arith
popcnt-vec_clear (b ∷ v) (suc i) c = let ih = popcnt-vec_clear v i c in omega arith

pub count_from-vec_set :
    (v : Vec) (i : ℕ)
    → i < length v
    → vec_bt v i ≡ false
    → count_from (vec_set v i) i ≡ suc (count_from v i)
count_from-vec_set v zero h c = popcnt-vec_set v zero h c
count_from-vec_set [] (suc i) h c = absurd (omega arith)
count_from-vec_set (b ∷ v) (suc i) h c = count_from-vec_set v i (omega arith) c

pub count_from-vec_clear :
    (v : Vec) (i : ℕ) → vec_bt v i ≡ true → suc (count_from (vec_clear v i) i) ≡ count_from v i
count_from-vec_clear v zero c = popcnt-vec_clear v zero c
count_from-vec_clear [] (suc i) c = absurd (grind arith)
count_from-vec_clear (b ∷ v) (suc i) c = count_from-vec_clear v i c
