-- ===== src/Poptrie/Part/Tests.antt =====
-- Runs of `_update_part_loop1` and `_update_part_loop2` of modified_poptrie/poptrie_private.h, and the
-- theorems at concrete inputs.
use poptrie_project.Base.{
  ◌==◌, if◌then◌else◌, ℕ, zero, suc, ◌+◌, ◌-◌, ◌≤◌, ◌≡◌, refl, ◌∙◌, sym, ap, subst, true, false,
  none, some, List, [], ◌∷◌, arith, length, get_elem?, some_eq, inl,
}
use poptrie_project.Vec.{zeros, vec_bt, vec_clear, vec_set}
use poptrie_project.Vec.Count.{vec_bt-zeros, popcnt_ls-zeros}
use poptrie_project.Poptrie.{PoptrieNode, Arrays, leaf_at}
use poptrie_project.Poptrie.Leaves.{Item, inner, leaf, compress, compress_from, push_leaf}
use poptrie_project.Poptrie.Part.{
  replaced, replace_child, copy_nodes, Part, leaf_items, old_child, new_leaf, no_block,
  update_part_loop1, update_part_loop2,
}
use poptrie_project.Poptrie.Part.View.{HasEntries}
use poptrie_project.Poptrie.Part.Steps.{Outcome, HasBlocks, update_part_loop1-Outcome}
use poptrie_project.Poptrie.Part.Insert.{Inserted, update_part_loop2-Replaces}

abbrev child : PoptrieNode
child = record { leafvec = true ∷ zeros 63; vector = zeros 64; base0 = 0; base1 = no_block }

abbrev other : PoptrieNode
other = record { leafvec = true ∷ zeros 63; vector = zeros 64; base0 = 1; base1 = no_block }

-- A node with a descendant at the index 0 and the leaf 5 elsewhere.
abbrev old : PoptrieNode
old = record { leafvec = false ∷ true ∷ zeros 62; vector = true ∷ zeros 63; base0 = 0; base1 = 1 }

abbrev arrays : Arrays
arrays = record {
  nodes = old ∷ child ∷ child ∷ child ∷ child ∷ [];
  leaves = 5 ∷ 0 ∷ 0 ∷ [];
  dir = [];
  fib = [];
}

old-leaf_at : (i : ℕ) → vec_bt old.vector i ≡ false → leaf_at arrays old i ≡ some 5
unfolding leaf_at
old-leaf_at zero b = absurd (grind arith)
old-leaf_at (suc zero) b = refl
old-leaf_at (suc (suc i)) b =
    ap
      (λ k.
        if 0 + (0 + (1 + k)) == 0 then none else get_elem? arrays.leaves (0 + (0 + (1 + k)) - 1))
      (popcnt_ls-zeros 62 i)

old-old_child : (i : ℕ) → vec_bt old.vector i ≡ true → old_child old i arrays.nodes ≡ some child
old-old_child zero b = refl
old-old_child (suc i) b = let off = vec_bt-zeros 63 i in absurd (grind arith)

old-HasEntries : HasEntries arrays old
old-HasEntries = record {
  size = refl;
  leaves = λ i lt b. (5, old-leaf_at i b);
  children = λ i lt b. (child, old-old_child i b);
}

abbrev fives : ℕ → List Item
fives zero = []
fives (suc k) = leaf 5 ∷ fives k

dropped : leaf_items (new_leaf arrays old 0 7) (vec_clear old.vector 0) 0 ≡ some (leaf 7 ∷ fives 63)
unfolding leaf_items leaf_at
dropped = refl

dropped_leaves : (compress (leaf 7 ∷ fives 63)).leaves ≡ 7 ∷ 5 ∷ []
unfolding compress compress_from push_leaf
dropped_leaves = refl

blocks : HasBlocks arrays old 0 7 1 none
blocks = record {
  leaves = λ its e.
      subst (λ xs. 1 + length (compress xs).leaves ≤ 3) (some_eq (sym dropped ∙ e))
        (subst (λ xs. 1 + length xs ≤ 3) (sym dropped_leaves) (omega arith));
  b = no_block;
  block = refl;
  fresh = record { room = λ pos. absurd (omega arith); apart = λ pos. absurd (omega arith) };
}

update_part_loop1-Outcome_example :
    (p : Part) × (update_part_loop1 arrays old true 0 7 (some 1) none ≡ some p)
    × Outcome arrays old 0 7 p
update_part_loop1-Outcome_example =
    update_part_loop1-Outcome arrays old true 0 7 1 none old-HasEntries (omega arith) blocks

inserted :
    leaf_items (leaf_at arrays old) (vec_set old.vector 1) 0 ≡ some (inner ∷ inner ∷ fives 62)
unfolding leaf_items leaf_at
inserted = refl

inserted_leaves : (compress (inner ∷ inner ∷ fives 62)).leaves ≡ 5 ∷ []
unfolding compress compress_from push_leaf
inserted_leaves = refl

update_part_loop2-Replaces_example :
    (p : Part) × (update_part_loop2 arrays 0 1 child (some 1) (some 2) ≡ some p)
    × Inserted arrays 0 old 1 child p
update_part_loop2-Replaces_example =
    update_part_loop2-Replaces arrays 0 old child 1 1 2 (some 1) refl old-HasEntries (omega arith)
      refl
      (λ its e lt.
        subst (λ xs. 1 + length (compress xs).leaves ≤ 3) (some_eq (sym inserted ∙ e))
          (subst (λ xs. 1 + length xs ≤ 3) (sym inserted_leaves) (omega arith)))
      (record { room = λ pos. omega arith; apart = λ pos. inl (omega arith) }) (inl (omega arith))

-- Where the bit is set, the node of the arrays takes the new block.
run-replaced :
    update_part_loop2 arrays 0 0 other none (some 3)
    ≡ some (
        replaced
          (record arrays { nodes = record old { base1 = 3 } ∷ child ∷ child ∷ other ∷ child ∷ [] }))
unfolding update_part_loop2 replace_child copy_nodes
run-replaced = refl
