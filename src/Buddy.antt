-- ===== src/Buddy.antt =====
-- The buddy allocator of modified_poptrie/buddy.c. The blocks and the array of heads are one
-- memory of links: a block's first word is the link at its offset.
pub mod Laws
pub mod Free
mod Tests
use mathlib.Core.Option
use poptrie_project.Base.{
  ℕ, zero, suc, ◌+◌, ◌-◌, ◌*◌, ◌/◌, ◌^◌, Bool, true, false, Option, none, some, List, [], ◌∷◌,
  if◌then◌else◌, ltb, leb, ◌==◌, ◌||◌, not, get_elem?, get_or_else, set,
}
use poptrie_project.Vec.{zeros}

-- The word of a link: `BUDDY_EOL` or the offset of a block.
abbrev pub Link : Type 0
Link = Option ℕ

-- The place of a link, a pointer `u32 *`: a head of `buddy`, or the first word of a block.
pub data Place : Type 0 where
  head : ℕ → Place
  block : ℕ → Place

-- `struct buddy`: `buddy`, the links in `blocks` and the bits of `b`. `bsz` scales every offset
-- alike and is left out.
pub record Buddy : Type 0 where
  pub sz : ℕ
  pub level : ℕ
  pub heads : List Link
  pub links : List Link
  pub bitmap : List Bool

abbrev pub load : Buddy → Place → Link
load bs (head i) = get_or_else (get_elem? bs.heads i) none
load bs (block a) = get_or_else (get_elem? bs.links a) none

abbrev pub store : Buddy → Place → Link → Buddy
store bs (head i) v = record bs { heads = set bs.heads i v }
store bs (block a) v = record bs { links = set bs.links a v }

abbrev pub is_eol : Link → Bool
is_eol none = true
is_eol (some a) = false

abbrev pub offset : Link → ℕ
offset none = 2 ^ 32 - 1
offset (some a) = a

-- The bit of the tail block of the 2 ^ sz blocks from `a` on.
abbrev pub tail_of : ℕ → ℕ → ℕ
tail_of a sz = a + 2 ^ sz - 1

abbrev pub is_flagged : Buddy → ℕ → Bool
is_flagged bs i = get_or_else (get_elem? bs.bitmap i) false

abbrev pub flag : Buddy → ℕ → Bool → Buddy
flag bs i b = record bs { bitmap = set bs.bitmap i b }

-- The heads of empty lists.
abbrev pub eols : ℕ → List Link
eols zero = []
eols (suc n) = none ∷ eols n

-- The end of `_split_buddy`: the first block of the level above becomes two of the level `lv`.
pub split_block : Buddy → ℕ → Buddy
split_block bs lv =
    let a : Link = load bs (head (suc lv)) in
    let bs2 = store bs (head lv) a in
    let bs3 = store bs2 (head (suc lv)) (load bs2 (block (offset a))) in
    let next = offset a + 2 ^ lv in
    store (store bs3 (block next) none) (block (offset a)) (some next)

-- `_split_buddy`, with `above` the levels above `lv`, `level - lv - 1`; none for -1.
pub split_buddy : ℕ → Buddy → ℕ → Option Buddy
unfolding split_block
split_buddy zero bs lv = if is_eol (load bs (head lv)) then none else some bs
split_buddy (suc above) bs lv = elim (is_eol (load bs (head lv))) [
  | false ↦ some bs
  | true ↦ elim (is_eol (load bs (head (suc lv)))) [
    | false ↦ some (split_block bs lv)
    | true ↦ Option.map (λ bs1. split_block bs1 lv) (split_buddy above bs (suc lv))
  ]
]

-- The loop of `buddy_init` that links the blocks of the highest level, for the first `n` of them.
pub link_blocks : ℕ → ℕ → ℕ → List Link → List Link
link_blocks count step zero links = links
link_blocks count step (suc i) links =
    set (link_blocks count step i links) (i * step)
      (if i == count - 1 then none else some ((i + 1) * step))

-- `buddy_init`, none for -1: `allocated` says whether the three allocations succeed and `fresh`
-- holds the words of the new blocks. `buddy` counts `level` heads and `b` is cleared.
pub buddy_init : Bool → List Link → ℕ → ℕ → ℕ → Option Buddy
unfolding link_blocks
buddy_init allocated fresh sz level bsz =
    if ltb bsz 4 || not allocated
    then none
    else (if ltb sz level
        then some (record {
          sz = sz;
          level = level;
          heads = set (eols level) sz (some 0);
          links = set fresh 0 (some 0);
          bitmap = zeros (2 ^ sz);
        })
        else some (record {
          sz = sz;
          level = level;
          heads = set (eols level) (level - 1) (some 0);
          links = link_blocks (2 ^ (sz - level + 1)) (2 ^ (level - 1)) (2 ^ (sz - level + 1)) fresh;
          bitmap = zeros (2 ^ sz);
        }))

-- `buddy_alloc2` from "Obtain from the head" on.
pub finish_alloc : Option Buddy → ℕ → Option (Buddy × ℕ)
finish_alloc none sz = none
finish_alloc (some bs) sz =
    let a = offset (load bs (head sz)) in
    let bs2 = store bs (head sz) (load bs (block a)) in some (flag bs2 (tail_of a sz) true, a)

-- `buddy_alloc2` with a size that is not negative; none for -1.
pub buddy_alloc2 : Buddy → ℕ → Option (Buddy × ℕ)
unfolding split_buddy finish_alloc
buddy_alloc2 bs sz =
    if leb bs.level sz then none else finish_alloc (split_buddy (bs.level - sz - 1) bs sz) sz

-- Whether one of the `n` bits from `s` on is set.
pub any_flagged : Buddy → ℕ → ℕ → Bool
any_flagged bs s zero = false
any_flagged bs s (suc n) = is_flagged bs s || any_flagged bs (suc s) n

-- The loop of `_merge` that takes two blocks out of the list, with fuel.
pub unlink : ℕ → Buddy → Place → ℕ → ℕ → Buddy
unlink zero bs n s lv = bs
unlink (suc fuel) bs n s lv = elim (load bs n) [
  | none ↦ bs
  | some a ↦
      if (s == a) || ((s + 2 ^ lv) == a)
      then unlink fuel (store bs n (load bs (block a))) n s lv
      else unlink fuel bs (block a) s lv
]

-- The loop of `buddy_free2` that inserts the block in front of the first one above it, with fuel.
pub insert : ℕ → Buddy → Place → ℕ → Buddy
insert zero bs n a = bs
insert (suc fuel) bs n a = elim (load bs n) [
  | none ↦ store (store bs n (some a)) (block a) none
  | some next ↦
      if ltb a next
      then store (store bs n (some a)) (block a) (some next)
      else insert fuel bs (block next) a
]

-- `_merge`, with `above` the levels above `lv`, `level - lv - 1`, and fuel for its loop.
pub merge : ℕ → ℕ → Buddy → ℕ → ℕ → Buddy
unfolding any_flagged unlink
merge fuel zero bs off lv = bs
merge fuel (suc above) bs off lv =
    let s = off / 2 ^ (lv + 1) * 2 ^ (lv + 1) in
    elim (any_flagged bs s (2 ^ (lv + 1))) [
      | true ↦ bs
      | false ↦
          let bs1 = unlink fuel bs (head lv) s lv in
          let bs2 = store bs1 (block s) (load bs1 (head (suc lv))) in
          merge fuel above (store bs2 (head (suc lv)) (some s)) s (suc lv)
    ]

-- The loop of `buddy_free2` that finds the size of the block at `a`, with fuel; none where no
-- bit is set, where the code reads on beyond the bitmap.
pub find_size : ℕ → Buddy → ℕ → ℕ → Option ℕ
find_size zero bs a sz = none
find_size (suc fuel) bs a sz = elim (is_flagged bs (tail_of a sz)) [
  | true ↦ some sz
  | false ↦ find_size fuel bs a (suc sz)
]

-- `buddy_free2`. A list has at most as many blocks as there are.
pub buddy_free2 : Buddy → ℕ → Option Buddy
unfolding find_size insert merge
buddy_free2 bs a = elim (find_size (suc bs.sz) bs a 0) [
  | none ↦ none
  | some sz ↦
      if leb bs.level sz
      then some bs
      else (let bs1 = flag bs (tail_of a sz) false in
          let bs2 = insert (suc (2 ^ bs.sz)) bs1 (head sz) a in
          some (merge (suc (2 ^ bs.sz)) (bs.level - sz - 1) bs2 a sz))
]
