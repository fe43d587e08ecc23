-- ===== src/Buddy/Laws.antt =====
-- What `buddy_init` and `buddy_alloc2` of modified_poptrie/buddy.c do to the lists and the bitmap.
use mathlib.Core.Option
use poptrie_project.Base.{
  leb-false, ltb-false, ltb-true, ℕ, zero, suc, ◌+◌, ◌-◌, ◌^◌, ◌<◌, ◌≤◌, ◌≡◌, refl, ◌∙◌, sym, ap,
  true, Option, none, some, List, arith, length, get_or_else, set, some_eq, Bool-cases, inl, inr,
  ◌⊎◌, leb, get_elem?-set_self, length-set,
}
use poptrie_project.Vec.{zeros}
use poptrie_project.Buddy.{
  Link, head, block, Buddy, load, store, is_eol, offset, tail_of, flag, split_block, split_buddy,
  eols, buddy_init, buddy_alloc2, finish_alloc,
}

length-eols : (n : ℕ) → length (eols n) ≡ n
length-eols zero = refl
length-eols (suc n) = ap suc (length-eols n)

-- A level whose list has a block is not split.
split_buddy-some :
    (above : ℕ) (bs : Buddy) (lv a : ℕ)
    → load bs (head lv) ≡ some a
    → split_buddy above bs lv ≡ some bs
unfolding split_buddy
split_buddy-some zero bs lv a e = rw (e) refl
split_buddy-some (suc above) bs lv a e = rw (split_buddy, e) refl

-- Where the allocation takes a block from the list of the size asked for, it returns the first
-- one, which the list's head then skips, and sets the bit of the tail.
pub buddy_alloc2-some :
    (bs : Buddy) (sz a : ℕ)
    → sz < bs.level
    → load bs (head sz) ≡ some a
    → buddy_alloc2 bs sz
      ≡ some (flag (store bs (head sz) (load bs (block a))) (tail_of a sz) true, a)
unfolding buddy_alloc2 finish_alloc
buddy_alloc2-some bs sz a lt e =
    rw (leb-false bs.level sz lt)
      (rw (split_buddy-some (bs.level - sz - 1) bs sz a e) (rw (e) refl))

-- A buddy system whose list of size `sz` starts with a block that links to itself.
IsStuck : Buddy → ℕ → Type 0
IsStuck bs sz =
    (sz < bs.level)
    × (load bs (head sz) ≡ some 0)
    × (load bs (block 0) ≡ some 0)
    × (bs.level ≡ length bs.heads)

buddy_alloc2-IsStuck :
    (bs : Buddy) (sz : ℕ)
    → IsStuck bs sz
    → (bs' : Buddy) × (buddy_alloc2 bs sz ≡ some (bs', 0)) × IsStuck bs' sz
unfolding IsStuck
buddy_alloc2-IsStuck bs sz (lt, first, link, len) = (
  flag (store bs (head sz) (load bs (block 0))) (tail_of 0 sz) true,
  buddy_alloc2-some bs sz 0 lt first,
  (
    lt,
    ap (λ o. get_or_else o none) (get_elem?-set_self bs.heads sz (load bs (block 0)) (omega arith))
        ∙ link,
    link,
    len ∙ sym (length-set bs.heads sz (load bs (block 0))),
  ),
)

buddy_init-IsStuck :
    (fresh : List Link) (sz level bsz : ℕ)
    → 1 ≤ length fresh
    → sz < level
    → 4 ≤ bsz
    → (bs : Buddy) × (buddy_init true fresh sz level bsz ≡ some bs) × IsStuck bs sz
unfolding buddy_init IsStuck
buddy_init-IsStuck fresh sz level bsz some_block lt le = (
  record {
    sz = sz;
    level = level;
    heads = set (eols level) sz (some 0);
    links = set fresh 0 (some 0);
    bitmap = zeros (2 ^ sz);
  },
  rw (ltb-false bsz 4 le, ltb-true sz level lt) refl,
  (
    lt,
    ap (λ o. get_or_else o none)
        (get_elem?-set_self (eols level) sz (some 0) (omega (arith, length-eols level))),
    ap (λ o. get_or_else o none) (get_elem?-set_self fresh 0 (some 0) (omega arith)),
    sym (length-set (eols level) sz (some 0) ∙ length-eols level),
  ),
)

-- Where `buddy_init` is given more levels than it has a block size for, the one block of the
-- highest level links to itself: the allocation of this size returns the block 0, and the next
-- one returns it again.
pub buddy_init_twice :
    (fresh : List Link) (sz level bsz : ℕ)
    → 1 ≤ length fresh
    → sz < level
    → 4 ≤ bsz
    → (bs bs' bs'' : Buddy) × (buddy_init true fresh sz level bsz ≡ some bs)
      × (buddy_alloc2 bs sz ≡ some (bs', 0))
      × (buddy_alloc2 bs' sz ≡ some (bs'', 0))
buddy_init_twice fresh sz level bsz some_block lt le =
    let (bs, init, stuck) = buddy_init-IsStuck fresh sz level bsz some_block lt le in
    let (bs', once, stuck') = buddy_alloc2-IsStuck bs sz stuck in
    let (bs'', again, stuck'') = buddy_alloc2-IsStuck bs' sz stuck' in
    (bs, bs', bs'', init, once, again)

-- An allocation that a level does not exist for, or that finds every list from its level on
-- empty, fails.
pub split_buddy-none :
    (above : ℕ) (bs : Buddy) (lv : ℕ)
    → ((i : ℕ) → lv ≤ i → i ≤ lv + above → load bs (head i) ≡ none)
    → split_buddy above bs lv ≡ none
unfolding split_buddy
split_buddy-none zero bs lv h = rw (h lv (omega arith) (omega arith)) refl
split_buddy-none (suc above) bs lv h =
    let ih = split_buddy-none above bs (suc lv) (λ i a b. h i (omega arith) (omega arith)) in
    rw (split_buddy, h lv (omega arith) (omega arith), h (suc lv) (omega arith) (omega arith), ih)
      refl

split_block-bitmap : (bs : Buddy) (lv : ℕ) → (split_block bs lv).bitmap ≡ bs.bitmap
unfolding split_block
split_block-bitmap bs lv = refl

map_split :
    (o : Option Buddy) (lv : ℕ) (bs' : Buddy)
    → Option.map (λ bs. split_block bs lv) o ≡ some bs'
    → (bs : Buddy) × (o ≡ some bs) × (bs' ≡ split_block bs lv)
map_split none lv bs' e = absurd (grind arith)
map_split (some bs) lv bs' e = (bs, refl, sym (some_eq e))

split_buddy-suc :
    (above : ℕ) (bs bs' : Buddy) (lv : ℕ)
    → split_buddy (suc above) bs lv ≡ some bs'
    → (bs' ≡ bs)
      ⊎ (bs' ≡ split_block bs lv)
      ⊎ ((bs1 : Buddy) × (split_buddy above bs (suc lv) ≡ some bs1) × (bs' ≡ split_block bs1 lv))
unfolding split_buddy
split_buddy-suc above bs bs' lv e = elim (Bool-cases (is_eol (load bs (head lv)))) [
  | inr f ↦ inl (sym (some_eq (rw (split_buddy, f) at e)))
  | inl t ↦ elim (Bool-cases (is_eol (load bs (head (suc lv))))) [
    | inr f ↦ inr (inl (sym (some_eq (rw (split_buddy, t, f) at e))))
    | inl u ↦
        inr (inr (map_split (split_buddy above bs (suc lv)) lv bs' (rw (split_buddy, t, u) at e)))
  ]
]

-- Splitting leaves the bitmap.
split_buddy-bitmap :
    (above : ℕ) (bs bs' : Buddy) (lv : ℕ)
    → split_buddy above bs lv ≡ some bs'
    → bs'.bitmap ≡ bs.bitmap
unfolding split_buddy
split_buddy-bitmap zero bs bs' lv e = ground arith
split_buddy-bitmap (suc above) bs bs' lv e = elim (split_buddy-suc above bs bs' lv e) [
  | inl q ↦ ap (λ (x : Buddy). x.bitmap) q
  | inr (inl q) ↦ ap (λ (x : Buddy). x.bitmap) q ∙ split_block-bitmap bs lv
  | inr (inr (bs1, r, q)) ↦
      ap (λ (x : Buddy). x.bitmap) q
      ∙ split_block-bitmap bs1 lv
      ∙ split_buddy-bitmap above bs bs1 (suc lv) r
]

alloc_bits :
    (o : Option Buddy) (bs bs' : Buddy) (sz a : ℕ)
    → ((bs1 : Buddy) → o ≡ some bs1 → bs1.bitmap ≡ bs.bitmap)
    → finish_alloc o sz ≡ some (bs', a)
    → bs'.bitmap ≡ set bs.bitmap (tail_of a sz) true
unfolding finish_alloc
alloc_bits none bs bs' sz a kept e = absurd (grind arith)
alloc_bits (some bs1) bs bs' sz a kept e =
    let got = some_eq e in
    sym (ap (λ (x : Buddy × ℕ). x.0.bitmap) got)
    ∙ ap (λ b. set b (tail_of (offset (load bs1 (head sz))) sz) true) (kept bs1 refl)
    ∙ ap (λ (x : Buddy × ℕ). set bs.bitmap (tail_of x.1 sz) true) got

-- On every branch on which the allocation succeeds, of the bits of the bitmap it sets the one of
-- the block's tail and changes no other.
pub buddy_alloc2-bitmap :
    (bs bs' : Buddy) (sz a : ℕ)
    → buddy_alloc2 bs sz ≡ some (bs', a)
    → bs'.bitmap ≡ set bs.bitmap (tail_of a sz) true
unfolding buddy_alloc2 finish_alloc
buddy_alloc2-bitmap bs bs' sz a e = elim (Bool-cases (leb bs.level sz)) [
  | inl t ↦ absurd (grind (arith, rw (t) at e))
  | inr f ↦
      alloc_bits (split_buddy (bs.level - sz - 1) bs sz) bs bs' sz a
        (λ bs1. split_buddy-bitmap (bs.level - sz - 1) bs bs1 sz) (rw (f) at e)
]
