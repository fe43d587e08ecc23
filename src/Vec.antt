-- ===== src/Vec.antt =====
-- The 64-bit vectors of modified_poptrie/poptrie_private.h: a `u64` that the code reads and writes
-- through the macros `VEC_*` and `POPCNT*` alone is its list of bits, the lowest first.
pub mod Count
use poptrie_project.Base.{
  ℕ, zero, suc, ◌+◌, ◌-◌, ◌<◌, ◌≤◌, ◌≡◌, ◌≢◌, refl, ap, Bool, true, false, ◌&&◌, not, Option, none,
  some, List, [], ◌∷◌, ◌++◌, if◌then◌else◌, arith, length, set, get_elem?, get_or_else,
}

abbrev pub Vec : Type 0
Vec = List Bool

abbrev pub zeros : ℕ → Vec
zeros zero = []
zeros (suc n) = false ∷ zeros n

-- `VEC_INIT`.
abbrev pub vec_init : Vec
vec_init = zeros 64

-- `VEC_BT`.
abbrev pub vec_bt : Vec → ℕ → Bool
vec_bt v i = get_or_else (get_elem? v i) false

-- `VEC_SET`.
abbrev pub vec_set : Vec → ℕ → Vec
vec_set v i = set v i true

-- `VEC_CLEAR`.
abbrev pub vec_clear : Vec → ℕ → Vec
vec_clear v i = set v i false

-- `POPCNT`.
abbrev pub popcnt : Vec → ℕ
popcnt [] = 0
popcnt (b ∷ v) = (if b then 1 else 0) + popcnt v

-- `POPCNT_LS`: the ones among the bits 0 to i.
abbrev pub popcnt_ls : Vec → ℕ → ℕ
popcnt_ls [] i = 0
popcnt_ls (b ∷ v) zero = if b then 1 else 0
popcnt_ls (b ∷ v) (suc i) = (if b then 1 else 0) + popcnt_ls v i

-- The ones from the bit i on, `__builtin_popcountl(bitmap>>pos)`.
abbrev pub count_from : Vec → ℕ → ℕ
count_from v zero = popcnt v
count_from [] (suc i) = 0
count_from (b ∷ v) (suc i) = count_from v i

abbrev pub vec_and : Vec → Vec → Vec
vec_and [] w = []
vec_and (b ∷ v) [] = []
vec_and (b ∷ v) (c ∷ w) = (b && c) ∷ vec_and v w

-- The highest bit that is set, `63 - __builtin_clzll(v)`; none for 0.
abbrev pub highest : Vec → Option ℕ
highest [] = none
highest (b ∷ v) = elim (highest v) [ none ↦ if b then some 0 else none | some i ↦ some (suc i) ]
