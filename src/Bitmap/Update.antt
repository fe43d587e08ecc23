-- ===== src/Bitmap/Update.antt =====
-- What setting, clearing and overwriting a bit of a packed array does to the elements of the others.
use poptrie_project.Base.{
  ℕ, zero, suc, ◌+◌, ◌-◌, ◌<◌, ◌≤◌, ◌≡◌, ◌≢◌, refl, ◌∙◌, sym, ap, Bool, true, false, none, some,
  List, [], ◌∷◌, if◌then◌else◌, arith, length, set, get_elem?, get_elem?-set_self, get_elem?-set_ne,
  get_elem?-lt,
}
use poptrie_project.Vec.{Vec, vec_bt, vec_set, vec_clear, popcnt, count_from}
use poptrie_project.Bitmap.Packed.{
  slot, insert_at, remove_at, packed, insert_at_self, insert_at_lt, insert_at_le, remove_at_lt,
  remove_at_le, count_from-le, count_from-vec_bt, popcnt-vec_set, popcnt-vec_clear,
}

module _ {ℓ} {A : Type ℓ} where
  slot-insert_at_self :
      (p k : ℕ) (x : A) (xs : List A)
      → p ≡ suc k
      → k ≤ length xs
      → slot (insert_at k x xs) p ≡ some x
  slot-insert_at_self p k x xs e le = ap (slot (insert_at k x xs)) e ∙ insert_at_self k x xs le

  slot-some : (p : ℕ) (xs : List A) → 1 ≤ p → p ≤ length xs → (x : A) × (slot xs p ≡ some x)
  slot-some zero xs h le = absurd (omega arith)
  slot-some (suc p) xs h le = get_elem?-lt xs p (omega arith)

  slot-insert_at_lt :
      (p k : ℕ) (x : A) (xs : List A)
      → p ≤ k
      → k ≤ length xs
      → slot (insert_at k x xs) p ≡ slot xs p
  slot-insert_at_lt zero k x xs h le = refl
  slot-insert_at_lt (suc p) k x xs h le = insert_at_lt k p x xs (omega arith) le

  slot-insert_at_le :
      (q p k : ℕ) (x : A) (xs : List A)
      → q ≡ suc p
      → k < p
      → k ≤ length xs
      → slot (insert_at k x xs) q ≡ slot xs p
  slot-insert_at_le q zero k x xs e h le = absurd (omega arith)
  slot-insert_at_le q (suc p) k x xs e h le =
      ap (slot (insert_at k x xs)) e ∙ insert_at_le k p x xs (omega arith) le

  slot-remove_at_lt : (p k : ℕ) (xs : List A) → p ≤ k → slot (remove_at k xs) p ≡ slot xs p
  slot-remove_at_lt zero k xs h = refl
  slot-remove_at_lt (suc p) k xs h = remove_at_lt k p xs (omega arith)

  slot-remove_at_le :
      (q p k : ℕ) (xs : List A) → q ≡ suc p → k < p → slot (remove_at k xs) p ≡ slot xs q
  slot-remove_at_le q zero k xs e h = absurd (omega arith)
  slot-remove_at_le q (suc p) k xs e h = remove_at_le k p xs (omega arith) ∙ ap (slot xs) (sym e)

  -- Bit 0 has the last element.
  packed-zero :
      (b b' : Bool) (v v' : Vec) (xs ys : List A)
      → b ≡ b'
      → (b ≡ true → slot xs (1 + popcnt v) ≡ slot ys (1 + popcnt v'))
      → packed (b ∷ v) xs 0 ≡ packed (b' ∷ v') ys 0
  packed-zero true true v v' xs ys e h = h refl
  packed-zero true false v v' xs ys e h = cc
  packed-zero false true v v' xs ys e h = cc
  packed-zero false false v v' xs ys e h = refl

  -- The elements of the bits of a smaller count agree.
  packed_cong :
      (v : Vec) (xs ys : List A) (j : ℕ)
      → slot xs (count_from v j) ≡ slot ys (count_from v j)
      → packed v xs j ≡ packed v ys j
  packed_cong v xs ys j h = ap (λ o. if vec_bt v j then o else none) h

  slot-set_self :
      (p : ℕ) (x : A) (xs : List A) → 1 ≤ p → p ≤ length xs → slot (set xs (p - 1) x) p ≡ some x
  slot-set_self zero x xs h le = absurd (omega arith)
  slot-set_self (suc p) x xs h le =
      ap (λ k. get_elem? (set xs k x) p) (omega arith) ∙ get_elem?-set_self xs p x (omega arith)

  slot-set_ne :
      (p q : ℕ) (x : A) (xs : List A) → 1 ≤ q → p ≢ q → slot (set xs (q - 1) x) p ≡ slot xs p
  slot-set_ne zero q x xs h ne = refl
  slot-set_ne (suc p) q x xs h ne = get_elem?-set_ne xs (q - 1) p x (λ e. ne (omega arith))

  -- The new element of a bit that was clear.
  pub packed-insert_at_self :
      (v : Vec) (xs : List A) (i : ℕ) (x : A)
      → i < length v
      → popcnt v ≤ length xs
      → vec_bt v i ≡ false
      → packed (vec_set v i) (insert_at (count_from v i) x xs) i ≡ some x
  packed-insert_at_self [] xs i x lt le c = absurd (omega arith)
  packed-insert_at_self (true ∷ v) xs zero x lt le c = absurd (grind arith)
  packed-insert_at_self (false ∷ v) xs zero x lt le c =
      slot-insert_at_self (1 + popcnt v) (0 + popcnt v) x xs (omega arith) le
  packed-insert_at_self (b ∷ v) xs (suc i) x lt le c =
      packed-insert_at_self v xs i x (omega arith) (omega arith) c

  -- The other bits keep theirs.
  pub packed-insert_at_ne :
      (v : Vec) (xs : List A) (i j : ℕ) (x : A)
      → i < length v
      → popcnt v ≤ length xs
      → vec_bt v i ≡ false
      → j ≢ i
      → packed (vec_set v i) (insert_at (count_from v i) x xs) j ≡ packed v xs j
  packed-insert_at_ne [] xs i j x lt le c ne = absurd (omega arith)
  packed-insert_at_ne (b ∷ v) xs zero zero x lt le c ne = absurd (ne refl)
  packed-insert_at_ne (true ∷ v) xs zero (suc j) x lt le c ne = absurd (grind arith)
  packed-insert_at_ne (false ∷ v) xs zero (suc j) x lt le c ne =
      packed_cong v (insert_at (0 + popcnt v) x xs) xs j (
        slot-insert_at_lt (count_from v j) (0 + popcnt v) x xs (omega (arith, count_from-le v j))
          le)
  packed-insert_at_ne (b ∷ v) xs (suc i) zero x lt le c ne =
      packed-zero b b (vec_set v i) v (insert_at (count_from v i) x xs) xs refl (λ e.
        let n = popcnt-vec_set v i (omega arith) c in
        let m = count_from-le v i in
        slot-insert_at_le (1 + popcnt (vec_set v i)) (1 + popcnt v) (count_from v i) x xs
          (omega arith) (omega arith) (omega arith))
  packed-insert_at_ne (b ∷ v) xs (suc i) (suc j) x lt le c ne =
      packed-insert_at_ne v xs i j x (omega arith) (omega arith) c (λ e. ne (ap suc e))

  -- The element of a bit that is set, overwritten.
  pub packed-set_self :
      (v : Vec) (xs : List A) (i : ℕ) (x : A)
      → popcnt v ≤ length xs
      → vec_bt v i ≡ true
      → packed v (set xs (count_from v i - 1) x) i ≡ some x
  packed-set_self v xs i x le c =
      ap (λ (b : Bool). if b then slot (set xs (count_from v i - 1) x) (count_from v i) else none) c
      ∙ slot-set_self (count_from v i) x xs (count_from-vec_bt v i c)
          (omega (arith, count_from-le v i))

  pub packed-set_ne :
      (v : Vec) (xs : List A) (i j : ℕ) (x : A)
      → vec_bt v i ≡ true
      → j ≢ i
      → packed v (set xs (count_from v i - 1) x) j ≡ packed v xs j
  packed-set_ne [] xs i j x c ne = refl
  packed-set_ne (b ∷ v) xs zero zero x c ne = absurd (ne refl)
  packed-set_ne (false ∷ v) xs zero (suc j) x c ne = absurd (grind arith)
  packed-set_ne (true ∷ v) xs zero (suc j) x c ne =
      packed_cong v (set xs (1 + popcnt v - 1) x) xs j (
        slot-set_ne (count_from v j) (1 + popcnt v) x xs (omega arith)
          (λ e. omega (arith, count_from-le v j)))
  packed-set_ne (b ∷ v) xs (suc i) zero x c ne =
      packed-zero b b v v (set xs (count_from v i - 1) x) xs refl (λ e.
        slot-set_ne (1 + popcnt v) (count_from v i) x xs (count_from-vec_bt v i c)
          (λ q. omega (arith, count_from-le v i)))
  packed-set_ne (b ∷ v) xs (suc i) (suc j) x c ne = packed-set_ne v xs i j x c (λ e. ne (ap suc e))

  -- A bit that is cleared has no element.
  pub packed-remove_at_self : (v : Vec) (xs : List A) (i : ℕ) → packed (vec_clear v i) xs i ≡ none
  packed-remove_at_self [] xs i = refl
  packed-remove_at_self (b ∷ v) xs zero = refl
  packed-remove_at_self (b ∷ v) xs (suc i) = packed-remove_at_self v xs i

  pub packed-remove_at_ne :
      (v : Vec) (xs : List A) (i j : ℕ)
      → vec_bt v i ≡ true
      → j ≢ i
      → packed (vec_clear v i) (remove_at (count_from v i - 1) xs) j ≡ packed v xs j
  packed-remove_at_ne [] xs i j c ne = absurd (grind arith)
  packed-remove_at_ne (b ∷ v) xs zero zero c ne = absurd (ne refl)
  packed-remove_at_ne (false ∷ v) xs zero (suc j) c ne = absurd (grind arith)
  packed-remove_at_ne (true ∷ v) xs zero (suc j) c ne =
      packed_cong v (remove_at (1 + popcnt v - 1) xs) xs j (
        slot-remove_at_lt (count_from v j) (1 + popcnt v - 1) xs (omega (arith, count_from-le v j)))
  packed-remove_at_ne (b ∷ v) xs (suc i) zero c ne =
      packed-zero b b (vec_clear v i) v (remove_at (count_from v i - 1) xs) xs refl (λ e.
        let n = popcnt-vec_clear v i c in
        let m = count_from-le v i in
        let p = count_from-vec_bt v i c in
        slot-remove_at_le (1 + popcnt v) (1 + popcnt (vec_clear v i)) (count_from v i - 1) xs
          (omega arith) (omega arith))
  packed-remove_at_ne (b ∷ v) xs (suc i) (suc j) c ne =
      packed-remove_at_ne v xs i j c (λ e. ne (ap suc e))

  -- A bit that is set has an element, where there are enough.
  pub packed-some :
      (v : Vec) (xs : List A) (i : ℕ)
      → popcnt v ≤ length xs
      → vec_bt v i ≡ true
      → (x : A) × (slot xs (count_from v i) ≡ some x)
  packed-some v xs i le c =
      slot-some (count_from v i) xs (count_from-vec_bt v i c) (omega (arith, count_from-le v i))
