-- ===== src/Bitmap/Entry/Key.antt =====
-- `insert_entry` and `delete_entry` of modified_tree_bitmap/ as updates of the table at one key.
use poptrie_project.Base.{
  ℕ, ◌<◌, ◌≡◌, refl, ◌∙◌, ap, ap₂, Bool, true, false, ◌&&◌, none, some, List, [], ◌∷◌,
  if◌then◌else◌, ◌==◌, arith, Bool-cases, inl, inr,
}
use poptrie_project.Bitmap.{MbNode}
use poptrie_project.Bitmap.Entry.{Shifts, insert_entry, delete_entry}
use poptrie_project.Bitmap.Entry.Table.{get, IsPacked}
use poptrie_project.Bitmap.Entry.Insert.{
  strides, place, HasStrides, insert_entry_self, insert_entry-ne,
}
use poptrie_project.Bitmap.Entry.Delete.{delete_entry_self, delete_entry-ne}

abbrev pub same_path : List ℕ → List ℕ → Bool
same_path [] [] = true
same_path [] (y ∷ ys) = false
same_path (x ∷ xs) [] = false
same_path (x ∷ xs) (y ∷ ys) = (x == y) && same_path xs ys

same_path_sound : (xs ys : List ℕ) → same_path xs ys ≡ true → xs ≡ ys
same_path_sound [] [] e = refl
same_path_sound [] (y ∷ ys) e = cc
same_path_sound (x ∷ xs) [] e = cc
same_path_sound (x ∷ xs) (y ∷ ys) e = ap₂ ◌∷◌ (ground arith) (same_path_sound xs ys (ground arith))

same_path_refl : (xs : List ℕ) → same_path xs xs ≡ true
same_path_refl [] = refl
same_path_refl (x ∷ xs) = ground (arith, same_path_refl xs)

module _ {Ip : Type 0} (m : Shifts Ip) where
  -- Whether a key of the table is the prefix of length 6 k + r of an address.
  abbrev pub is_key : ℕ → ℕ → Ip → List ℕ → ℕ → Bool
  is_key k r ip q p = same_path q (strides m k ip) && (p == place m k r ip)

  key_true :
      (k r : ℕ) (ip : Ip) (q : List ℕ) (p : ℕ)
      → is_key k r ip q p ≡ true
      → (q ≡ strides m k ip) × (p ≡ place m k r ip)
  key_true k r ip q p e = (same_path_sound q (strides m k ip) (ground arith), ground arith)

  key_false :
      (k r : ℕ) (ip : Ip) (q : List ℕ) (p : ℕ)
      → is_key k r ip q p ≡ false
      → ¬ ((q ≡ strides m k ip) × (p ≡ place m k r ip))
  key_false k r ip q p e (a, b) =
      absurd
        (grind (arith, same_path_refl (strides m k ip), ap (λ xs. same_path xs (strides m k ip)) a))

  -- In a trie whose blocks hold an element for each bit, the insertion of a prefix changes the
  -- table at this prefix alone, where it puts the next hop.
  pub insert_entry-get :
      (k r : ℕ) (n : MbNode) (ip : Ip) (x : ℕ) (q : List ℕ) (p : ℕ)
      → HasStrides m
      → place m k r ip < 64
      → IsPacked n
      → get (insert_entry m k r n ip x) q p ≡ (if is_key k r ip q p then some x else get n q p)
  insert_entry-get k r n ip x q p lt fits w = elim (Bool-cases (is_key k r ip q p)) [
    | inl e ↦
        let (a, b) = key_true k r ip q p e in
        rw (e)
          (ap₂ (get (insert_entry m k r n ip x)) a b ∙ insert_entry_self m k r n ip x lt fits w)
    | inr e ↦ rw (e) (insert_entry-ne m k r n ip x q p lt fits w (key_false k r ip q p e))
  ]

  -- The deletion of a prefix that the table has changes the table at this prefix alone, where
  -- nothing is left.
  pub delete_entry-get :
      (k r : ℕ) (n : MbNode) (ip : Ip) (f : Bool) (y : ℕ) (q : List ℕ) (p : ℕ)
      → IsPacked n
      → get n (strides m k ip) (place m k r ip) ≡ some y
      → get (delete_entry m k r n ip f).node q p ≡ (if is_key k r ip q p then none else get n q p)
  delete_entry-get k r n ip f y q p w there = elim (Bool-cases (is_key k r ip q p)) [
    | inl e ↦
        let (a, b) = key_true k r ip q p e in
        rw (e) (
          ap₂ (get (delete_entry m k r n ip f).node) a b ∙ delete_entry_self m k r n ip f y w there)
    | inr e ↦ rw (e) (delete_entry-ne m k r n ip f y q p w there (key_false k r ip q p e))
  ]
