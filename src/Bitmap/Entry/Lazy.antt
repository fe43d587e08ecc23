-- ===== src/Bitmap/Entry/Lazy.antt =====
-- `do_search_lazy` of modified_tree_bitmap/bitmap_v4.c and bitmap_v6.c returns what `do_search` does.
use poptrie_project.Base.{
  ℕ, zero, suc, ◌≡◌, refl, sym, ap, Option, none, some, List, [], ◌∷◌, Bool-cases, Option-cases,
  inl, inr, true, ltb, ltb-true, length, arith, ◌+◌, ◌≤◌,
}
use poptrie_project.Vec.{vec_bt}
use poptrie_project.Bitmap.{MbNode, internal, external, stride_bits, tree_function}
use poptrie_project.Bitmap.Entry.Depth.{depth, child_at-depth, depth_pos}
use poptrie_project.Bitmap.Entry.{Shifts, rule_at, child_at, do_search, do_search_lazy, check_marks}

module _ {Ip : Type 0} (m : Shifts Ip) where
  -- What a step of either search finds in a node.
  step_found : MbNode → ℕ → Option ℕ → Option ℕ
  step_found n stride longest = elim (tree_function (internal n) stride) [
    | none ↦ longest
    | some pos ↦ rule_at n pos
  ]

  do_search-marks :
      (level fuel : ℕ) (n : MbNode) (ip : Ip) (marks : List (MbNode × ℕ)) (longest : Option ℕ)
      → longest ≡ check_marks m marks
      → length marks + depth n ≤ suc level
      → do_search m fuel n ip longest ≡ do_search_lazy m level fuel n ip marks
  unfolding do_search do_search_lazy check_marks step_found
  do_search-marks level zero n ip marks longest e le = refl
  do_search-marks level (suc fuel) n ip marks longest e le =
      let stride : ℕ = m.top ip stride_bits in
      let found = ap (step_found n stride) e in
      elim (Bool-cases (vec_bt (external n) stride)) [
        | inr f ↦ rw (do_search, do_search_lazy, f) found
        | inl f ↦ elim (Option-cases (child_at n stride)) [
          | inl g ↦ elim (Bool-cases (ltb (length marks) level)) [
            | inl t ↦ rw (do_search, do_search_lazy, f, t, g) refl
            | inr t ↦ rw (do_search, do_search_lazy, f, t, g) refl
          ]
          | inr (c, g) ↦
              let less = child_at-depth n c stride g in
              let pos = depth_pos c in
              let room : ltb (length marks) level ≡ true = ltb-true _ _ (omega arith) in
              rw (do_search, do_search_lazy, f, room, g)
                (do_search-marks level fuel c (m.shift ip stride_bits) ((n, stride) ∷ marks)
                  (step_found n stride longest) found (omega arith))
        ]
      ]

  -- In a trie of at most one level more than `lazy_mark` has entries, the search that marks the
  -- nodes on its way and looks for rules from the last one back returns what the search that looks
  -- at every node returns, for any address.
  pub do_search_lazy-do_search :
      (level fuel : ℕ) (n : MbNode) (ip : Ip)
      → depth n ≤ suc level
      → do_search_lazy m level fuel n ip [] ≡ do_search m fuel n ip none
  unfolding check_marks
  do_search_lazy-do_search level fuel n ip le =
      sym (do_search-marks level fuel n ip [] none refl (omega arith))
