-- ===== src/Buddy/Free.antt =====
-- `buddy_free2` of modified_poptrie/buddy.c finds the size that a block was allocated with.
use native.Mathlib.Nat.{two-pow-succ}
use poptrie_project.Base.{
  ℕ, zero, suc, ◌+◌, ◌^◌, ◌<◌, ◌≤◌, ◌≡◌, ◌∙◌, ap, true, false, some, arith, length, get_elem?,
  get_or_else, inl, inr, ◌⊎◌, get_elem?-set_self, get_elem?-set_ne,
}
use poptrie_project.Buddy.{Buddy, tail_of, is_flagged, buddy_alloc2, find_size}
use poptrie_project.Buddy.Laws.{buddy_alloc2-bitmap}

pow_pos : (n : ℕ) → 1 ≤ 2 ^ n
pow_pos zero = omega arith
pow_pos (suc n) = let ih = pow_pos n in let p = two-pow-succ n in omega arith

cases_le : (j n : ℕ) → j ≤ n → (j ≡ n) ⊎ (j < n)
cases_le j n h = ground arith

pow_lt : (k n : ℕ) → k < n → 2 ^ k < 2 ^ n
pow_lt k zero h = absurd (omega arith)
pow_lt k (suc n) h =
    let p = two-pow-succ n in
    let q = pow_pos n in
    elim (cases_le k n (omega arith)) [
      | inl e ↦ omega (arith, ap (λ i. 2 ^ i) e)
      | inr ne ↦ omega (arith, pow_lt k n (omega arith))
    ]

find_size_lem :
    (fuel : ℕ) (bs : Buddy) (a j sz : ℕ)
    → j ≤ sz
    → sz < j + fuel
    → ((k : ℕ) → k < sz → is_flagged bs (tail_of a k) ≡ false)
    → is_flagged bs (tail_of a sz) ≡ true
    → find_size fuel bs a j ≡ some sz
unfolding find_size
find_size_lem zero bs a j sz le lt below here = absurd (omega arith)
find_size_lem (suc fuel) bs a j sz le lt below here = elim (cases_le j sz le) [
  | inl e ↦ rw (find_size, ap (λ i. is_flagged bs (tail_of a i)) e ∙ here) (ap some e)
  | inr less ↦
      rw (find_size, below j less)
        (find_size_lem fuel bs a (suc j) sz (omega arith) (omega arith) below here)
]

-- After an allocation whose tail lies in the bitmap, with no bit set at the tail of a smaller block
-- at the same offset before it, the search of `buddy_free2` finds the size of the allocation.
pub find_size-buddy_alloc2 :
    (bs bs' : Buddy) (sz a : ℕ)
    → buddy_alloc2 bs sz ≡ some (bs', a)
    → tail_of a sz < length bs.bitmap
    → sz ≤ bs'.sz
    → ((k : ℕ) → k < sz → is_flagged bs (tail_of a k) ≡ false)
    → find_size (suc bs'.sz) bs' a 0 ≡ some sz
find_size-buddy_alloc2 bs bs' sz a e fits le clear =
    let bits = buddy_alloc2-bitmap bs bs' sz a e in
    find_size_lem (suc bs'.sz) bs' a 0 sz (omega arith) (omega arith)
      (λ k lt.
        let p = pow_lt k sz lt in
        let q = pow_pos k in
        ap (λ b. get_or_else (get_elem? b (tail_of a k)) false) bits
        ∙ ap (λ o. get_or_else o false)
            (get_elem?-set_ne bs.bitmap (tail_of a sz) (tail_of a k) true (λ r. omega arith))
        ∙ clear k lt)
      (ap (λ b. get_or_else (get_elem? b (tail_of a sz)) false) bits
        ∙ ap (λ o. get_or_else o false) (get_elem?-set_self bs.bitmap (tail_of a sz) true fits))
