-- ===== src/Buddy/Tests.antt =====
-- Runs of the allocator of modified_poptrie/buddy.c, and the theorems at concrete inputs.
use poptrie_project.Base.{
  ℕ, zero, suc, ◌<◌, ◌≡◌, refl, true, false, none, some, List, [], ◌∷◌, arith,
}
use mathlib.Core.Option
use poptrie_project.Buddy.{
  Link, Buddy, tail_of, buddy_init, buddy_alloc2, buddy_free2, is_flagged, find_size,
}
use poptrie_project.Buddy.Free.{find_size-buddy_alloc2}
use poptrie_project.Buddy.Laws.{buddy_init_twice}

abbrev fresh : List Link
fresh = some 7 ∷ some 7 ∷ some 7 ∷ some 7 ∷ some 7 ∷ some 7 ∷ some 7 ∷ some 7 ∷ []

-- Eight blocks in the lists of the levels 0 to 2.
abbrev start : Buddy
start = record {
  sz = 3;
  level = 3;
  heads = none ∷ none ∷ some 0 ∷ [];
  links = some 4 ∷ some 7 ∷ some 7 ∷ some 7 ∷ none ∷ some 7 ∷ some 7 ∷ some 7 ∷ [];
  bitmap = false ∷ false ∷ false ∷ false ∷ false ∷ false ∷ false ∷ false ∷ [];
}

buddy_init-start : buddy_init true fresh 3 3 4 ≡ some start
unfolding buddy_init
buddy_init-start = refl

-- One block is taken: its buddy at 1 and the pair at 2 are free.
abbrev one_taken : Buddy
one_taken = record {
  sz = 3;
  level = 3;
  heads = some 1 ∷ some 2 ∷ some 4 ∷ [];
  links = some 1 ∷ none ∷ none ∷ some 7 ∷ none ∷ some 7 ∷ some 7 ∷ some 7 ∷ [];
  bitmap = true ∷ false ∷ false ∷ false ∷ false ∷ false ∷ false ∷ false ∷ [];
}

buddy_alloc2_one : buddy_alloc2 start 0 ≡ some (one_taken, 0)
unfolding buddy_alloc2
buddy_alloc2_one = refl

-- Freeing it merges the blocks again.
buddy_free2_one :
    Option.map (λ (x : Buddy). x.heads) (buddy_free2 one_taken 0) ≡ some (none ∷ none ∷ some 0 ∷ [])
unfolding buddy_free2
buddy_free2_one = refl

buddy_init_twice_example :
    (bs bs' bs'' : Buddy) × (buddy_init true fresh 3 4 4 ≡ some bs)
    × (buddy_alloc2 bs 3 ≡ some (bs', 0))
    × (buddy_alloc2 bs' 3 ≡ some (bs'', 0))
buddy_init_twice_example = buddy_init_twice fresh 3 4 4 (omega arith) (omega arith) (omega arith)

-- The blocks 0 and 1 are taken together.
abbrev pair_taken : Buddy
pair_taken = record {
  sz = 3;
  level = 3;
  heads = none ∷ some 2 ∷ some 4 ∷ [];
  links = some 2 ∷ some 7 ∷ none ∷ some 7 ∷ none ∷ some 7 ∷ some 7 ∷ some 7 ∷ [];
  bitmap = false ∷ true ∷ false ∷ false ∷ false ∷ false ∷ false ∷ false ∷ [];
}

buddy_alloc2_pair : buddy_alloc2 start 1 ≡ some (pair_taken, 0)
unfolding buddy_alloc2
buddy_alloc2_pair = refl

nothing_flagged : (k : ℕ) → k < 1 → is_flagged start (tail_of 0 k) ≡ false
nothing_flagged zero lt = refl
nothing_flagged (suc k) lt = absurd (omega arith)

find_size-buddy_alloc2_example : find_size 4 pair_taken 0 0 ≡ some 1
find_size-buddy_alloc2_example =
    find_size-buddy_alloc2 start pair_taken 1 0 buddy_alloc2_pair (omega arith) (omega arith)
      nothing_flagged
