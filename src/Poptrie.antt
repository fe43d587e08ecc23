-- ===== src/Poptrie.antt =====
-- The arrays of the poptrie (`struct poptrie` of modified_poptrie/poptrie.h) and the lookup in
-- them, `poptrie_lookup` of poptrie4.c and `poptrie6_lookup` of poptrie6.c.
-- A read outside an array is the outcome none.
mod Tests
pub mod Rounds
pub mod Triangle
pub mod Leaves
pub mod Store
pub mod Part
pub mod Inode
pub mod Descend
use poptrie_project.Base.{
  ℕ, zero, suc, ◌+◌, ◌-◌, ◌*◌, ◌/◌, ◌%◌, ◌^◌, Bool, true, false, Option, none, some, List,
  if◌then◌else◌, ◌==◌, leb, get_elem?,
}
use mathlib.Core.Option
use poptrie_project.Fib.{FibEntry, Fib}
use poptrie_project.Vec.{Vec, vec_bt, popcnt_ls}

-- `struct poptrie_node`.
pub record PoptrieNode : Type 0 where
  pub leafvec : Vec
  pub vector : Vec
  pub base0 : ℕ
  pub base1 : ℕ

-- The arrays of `struct poptrie` that a lookup reads.
pub record Arrays : Type 0 where
  pub nodes : List PoptrieNode
  pub leaves : List ℕ
  pub dir : List ℕ
  pub fib : Fib

-- `POPTRIE_S`.
abbrev pub poptrie_s : ℕ
poptrie_s = 2

-- `INDEX` of poptrie4.c. What C leaves open, the value of a shift by a negative count, is `wild`.
pub index4 : (ℕ → ℕ → ℕ) → ℕ → ℕ → ℕ → ℕ
index4 wild a s n =
    (if leb (s + n) 64 then a * 2 ^ 32 % 2 ^ 64 / 2 ^ (64 - (s + n)) else wild s n) % 2 ^ n

-- `INDEX` of poptrie6.c.
pub index6 : (ℕ → ℕ → ℕ) → ℕ → ℕ → ℕ → ℕ
index6 wild a s n =
    if s + n == 0
    then 0
    else (if leb (s + n) 128 then a / 2 ^ (128 - (s + n)) else wild s n) % 2 ^ n

-- The entry of the FIB mapping table that a leaf names.
abbrev pub hop_of : Fib → ℕ → Option ℕ
hop_of fib n = Option.map (λ e. e.hop) (get_elem? fib n)

-- The leaf that stands for the index `idx` of a node. The place before the first leaf is outside
-- the array.
pub leaf_at : Arrays → PoptrieNode → ℕ → Option ℕ
leaf_at a n idx =
    if n.base0 + popcnt_ls n.leafvec idx == 0
    then none
    else get_elem? a.leaves (n.base0 + popcnt_ls n.leafvec idx - 1)

-- The loop of `poptrie_lookup`, with fuel, up to the leaf. `index` is `INDEX` of the address.
pub lookup_loop : ℕ → (ℕ → ℕ → ℕ) → Arrays → ℕ → ℕ → ℕ → Option ℕ
unfolding leaf_at
lookup_loop zero index a inode idx pos = none
lookup_loop (suc fuel) index a inode idx pos = elim (get_elem? a.nodes inode) [
  | none ↦ none
  | some n ↦ elim (vec_bt n.vector idx) [
    | false ↦ leaf_at a n idx
    | true ↦
        lookup_loop fuel index a (n.base1 + (popcnt_ls n.vector idx - 1)) (index pos 6) (pos + 6)
  ]
]

-- An entry of the direct pointing array with its highest bit set is a leaf.
abbrev pub dir_leaf : ℕ → Bool
dir_leaf e = leb (2 ^ 31) e

-- The leaf that an address leads to.
pub lookup_leaf : ℕ → (ℕ → ℕ → ℕ) → Arrays → Option ℕ
unfolding lookup_loop
lookup_leaf fuel index a = elim (get_elem? a.dir (index 0 poptrie_s)) [
  | none ↦ none
  | some e ↦ elim (dir_leaf e) [
    | true ↦ some (e % 2 ^ 31)
    | false ↦ lookup_loop fuel index a e (index poptrie_s 6) (poptrie_s + 6)
  ]
]

-- Each round reads six more bits of the address, from bit 2 on: ten rounds are more than the five
-- that 32 bits have, 21 all that 128 bits have.
abbrev pub rounds4 : ℕ
rounds4 = 10

abbrev pub rounds6 : ℕ
rounds6 = 21

-- `poptrie_lookup`.
pub poptrie_lookup : (ℕ → ℕ → ℕ) → Arrays → ℕ → Option ℕ
unfolding lookup_leaf index4
poptrie_lookup wild a addr = elim (lookup_leaf rounds4 (index4 wild addr) a) [
  | none ↦ none
  | some n ↦ hop_of a.fib n
]

-- `poptrie6_lookup`.
pub poptrie6_lookup : (ℕ → ℕ → ℕ) → Arrays → ℕ → Option ℕ
unfolding lookup_leaf index6
poptrie6_lookup wild a addr = elim (lookup_leaf rounds6 (index6 wild addr) a) [
  | none ↦ none
  | some n ↦ hop_of a.fib n
]
