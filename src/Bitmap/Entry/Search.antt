-- ===== src/Bitmap/Entry/Search.antt =====
-- `do_search` of modified_tree_bitmap/bitmap_v4.c and bitmap_v6.c finds the longest match.
use poptrie_project.Base.{
  ℕ, zero, suc, ◌/◌, ◌<◌, ◌≤◌, ◌≡◌, refl, ◌∙◌, sym, ap, ap₂, Bool, false, Option, none, some, List,
  [], ◌∷◌, if◌then◌else◌, arith, length, or_else, Bool-cases, inl, inr,
}
use poptrie_project.Vec.{Vec, vec_bt, popcnt, count_from}
use poptrie_project.Bitmap.Packed.{slot, packed}
use poptrie_project.Bitmap.Update.{packed-some}
use poptrie_project.Bitmap.{
  MbNode, mb_node, external, internal, children, stride_bits, count_inl_bitmap, tree_loop,
  tree_function,
}
use poptrie_project.Bitmap.Fast.{tree_function-tree_loop}
use poptrie_project.Bitmap.Entry.{Shifts, rule_at, do_search, do_search_lazy}
use poptrie_project.Bitmap.Entry.Depth.{depth, child_at-depth, depth_pos}
use poptrie_project.Bitmap.Entry.Lazy.{do_search_lazy-do_search}
use poptrie_project.Bitmap.Entry.Table.{get, IsPacked, child_at-some}
use poptrie_project.Bitmap.Entry.Child.{under, get-under}
use poptrie_project.Bitmap.Entry.Insert.{strides, behind, HasStrides}

or_else-none : (o : Option ℕ) → or_else o none ≡ o
or_else-none none = refl
or_else-none (some x) = refl

-- The longest prefix of a stride that the table has under a path, of at most `rounds` - 1 bits.
pub longest_at : ℕ → (ℕ → Option ℕ) → ℕ → Option ℕ
longest_at zero row stride = none
longest_at (suc rounds) row stride =
    or_else (row (count_inl_bitmap (stride / 2) rounds)) (longest_at rounds row (stride / 2))

longest_at_cong :
    (rounds stride : ℕ) (row row' : ℕ → Option ℕ)
    → ((p : ℕ) → row p ≡ row' p)
    → longest_at rounds row stride ≡ longest_at rounds row' stride
unfolding longest_at
longest_at_cong zero stride row row' h = refl
longest_at_cong (suc rounds) stride row row' h =
    ap₂ or_else (h (count_inl_bitmap (stride / 2) rounds))
      (longest_at_cong rounds (stride / 2) row row' h)

longest_at-none : (rounds stride : ℕ) → longest_at rounds (λ p. none) stride ≡ none
unfolding longest_at
longest_at-none zero stride = refl
longest_at-none (suc rounds) stride = longest_at-none rounds (stride / 2)

-- The rule that the loop of `tree_function` selects is the longest one of the node.
tree_loop-longest_at :
    (rounds stride : ℕ) (i : Vec) (rs : List ℕ) (best : Option ℕ)
    → popcnt i ≤ length rs
    → (elim (tree_loop rounds i stride) as (λ o. Option ℕ) [
      | none ↦ best
      | some pos ↦ slot rs (count_from i pos)
    ])
      ≡ or_else (longest_at rounds (packed i rs) stride) best
unfolding tree_loop longest_at
tree_loop-longest_at zero stride i rs best le = refl
tree_loop-longest_at (suc rounds) stride i rs best le =
    elim (Bool-cases (vec_bt i (count_inl_bitmap (stride / 2) rounds))) [
      | inr f ↦
          rw (tree_loop, longest_at, f) (tree_loop-longest_at rounds (stride / 2) i rs best le)
      | inl t ↦
          let (x, e) = packed-some i rs (count_inl_bitmap (stride / 2) rounds) le t in
          rw (tree_loop, longest_at, t, e) refl
    ]

-- The longest of the prefixes of an address in the table of a trie, of at most k strides and five
-- bits.
module _ {Ip : Type 0} (m : Shifts Ip) where
  pub longest_match : ℕ → (List ℕ → ℕ → Option ℕ) → Ip → Option ℕ
  unfolding longest_at
  longest_match zero t ip = longest_at stride_bits (t []) (m.top ip stride_bits)
  longest_match (suc k) t ip =
      or_else
        (longest_at stride_bits (t (strides m (suc k) ip))
          (m.top (behind m (suc k) ip) stride_bits))
        (longest_match k t ip)

  longest_match_cong :
      (k : ℕ) (t t' : List ℕ → ℕ → Option ℕ) (ip : Ip)
      → ((q : List ℕ) (p : ℕ) → t q p ≡ t' q p)
      → longest_match k t ip ≡ longest_match k t' ip
  unfolding longest_match
  longest_match_cong zero t t' ip h = longest_at_cong 6 (m.top ip stride_bits) (t []) (t' []) (h [])
  longest_match_cong (suc k) t t' ip h =
      ap₂ or_else
        (longest_at_cong 6 (m.top (behind m (suc k) ip) stride_bits) (t (strides m (suc k) ip))
          (t' (strides m (suc k) ip)) (h (strides m (suc k) ip)))
        (longest_match_cong k t t' ip h)

  or_else_assoc : (a b c : Option ℕ) → or_else a (or_else b c) ≡ or_else (or_else a b) c
  or_else_assoc none b c = refl
  or_else_assoc (some x) b c = refl

  -- Prefixes of one stride and more are those of the table under the stride.
  longest_match-suc :
      (k : ℕ) (t : List ℕ → ℕ → Option ℕ) (ip : Ip)
      → longest_match (suc k) t ip
        ≡ or_else
            (longest_match k (λ ds. t (m.top ip stride_bits ∷ ds)) (m.shift ip stride_bits))
            (longest_at stride_bits (t []) (m.top ip stride_bits))
  unfolding longest_match
  longest_match-suc zero t ip = refl
  longest_match-suc (suc k) t ip =
      ap
        (or_else (
          longest_at stride_bits (t (strides m (suc (suc k)) ip))
            (m.top (behind m (suc (suc k)) ip) stride_bits)))
        (longest_match-suc k t ip)
      ∙ or_else_assoc
          (longest_at stride_bits (t (strides m (suc (suc k)) ip))
            (m.top (behind m (suc (suc k)) ip) stride_bits))
          (longest_match k (λ ds. t (m.top ip stride_bits ∷ ds)) (m.shift ip stride_bits))
          (longest_at stride_bits (t []) (m.top ip stride_bits))

  longest_match-none : (k : ℕ) (ip : Ip) → longest_match k (λ q p. none) ip ≡ none
  unfolding longest_match
  longest_match-none zero ip = longest_at-none 6 (m.top ip stride_bits)
  longest_match-none (suc k) ip =
      ap₂ or_else (longest_at-none 6 (m.top (behind m (suc k) ip) stride_bits))
        (longest_match-none k ip)

  -- The node of the trie alone.
  root-longest_at :
      (n : MbNode) (s : ℕ) (best : Option ℕ)
      → IsPacked n
      → s < 64
      → (elim (tree_function (internal n) s) as (λ o. Option ℕ) [
        | none ↦ best
        | some pos ↦ rule_at n pos
      ])
        ≡ or_else (longest_at stride_bits (get n []) s) best
  unfolding IsPacked get
  root-longest_at (mb_node e i rs cs) s best w lt =
      ap
        (λ (o : Option ℕ). elim o as (λ o. Option ℕ) [
          | none ↦ best
          | some pos ↦ slot rs (count_from i pos)
        ])
        (tree_function-tree_loop i s lt)
      ∙ tree_loop-longest_at 6 s i rs best (omega (arith, w.2))

  -- Without a child the table ends at the node.
  no_child :
      (k : ℕ) (n : MbNode) (ip : Ip)
      → vec_bt (external n) (m.top ip stride_bits) ≡ false
      → longest_match k (get n) ip ≡ longest_at stride_bits (get n []) (m.top ip stride_bits)
  unfolding longest_match under
  no_child zero n ip f = refl
  no_child (suc k) n ip f =
      let s : ℕ = m.top ip stride_bits in
      let gone : packed (external n) (children n) s ≡ none =
        ap (λ (b : Bool). if b then slot (children n) (count_from (external n) s) else none) f in
      longest_match-suc k (get n) ip
      ∙ ap (λ o. or_else o (longest_at stride_bits (get n []) s))
          (longest_match_cong k (λ ds. get n (s ∷ ds)) (λ q p. none) (m.shift ip stride_bits)
              (λ ds p. get-under n s p ds ∙ ap (under ds p) gone)
            ∙ longest_match-none k (m.shift ip stride_bits))

  -- A search that goes no further than the node.
  do_search-stop :
      (fuel k : ℕ) (n : MbNode) (ip : Ip) (best : Option ℕ)
      → HasStrides m
      → IsPacked n
      → vec_bt (external n) (m.top ip stride_bits) ≡ false
      → do_search m (suc fuel) n ip best ≡ or_else (longest_match k (get n) ip) best
  unfolding do_search
  do_search-stop fuel k n ip best lt w f =
      rw (do_search, f)
        (root-longest_at n (m.top ip stride_bits) best w (lt ip)
          ∙ ap (λ o. or_else o best) (sym (no_child k n ip f)))

  do_search-or_else :
      (k : ℕ) (n : MbNode) (ip : Ip) (best : Option ℕ)
      → HasStrides m
      → IsPacked n
      → depth n ≤ suc k
      → do_search m (suc k) n ip best ≡ or_else (longest_match k (get n) ip) best
  unfolding do_search under
  do_search-or_else zero n ip best lt w le =
      elim (Bool-cases (vec_bt (external n) (m.top ip stride_bits))) [
        | inr f ↦ do_search-stop zero zero n ip best lt w f
        | inl f ↦
            let (c, at, elem, u) = child_at-some n (m.top ip stride_bits) w f in
            absurd (omega (arith, child_at-depth n c (m.top ip stride_bits) at, depth_pos c))
      ]
  do_search-or_else (suc k) n ip best lt w le =
      elim (Bool-cases (vec_bt (external n) (m.top ip stride_bits))) [
        | inr f ↦ do_search-stop (suc k) (suc k) n ip best lt w f
        | inl f ↦
            let s : ℕ = m.top ip stride_bits in
            let ip' : Ip = m.shift ip stride_bits in
            let (c, at, elem, u) = child_at-some n s w f in
            let here : Option ℕ = longest_at stride_bits (get n []) s in
            let best' : Option ℕ = elim (tree_function (internal n) s) [
              | none ↦ best
              | some pos ↦ rule_at n pos
            ] in
            let same =
              longest_match_cong k (λ ds. get n (s ∷ ds)) (get c) ip'
                (λ ds p. get-under n s p ds ∙ ap (under ds p) elem) in
            rw (do_search, f, at)
              (do_search-or_else k c ip' best' lt u (omega (arith, child_at-depth n c s at))
                ∙ ap (or_else (longest_match k (get c) ip')) (root-longest_at n s best w (lt ip))
                ∙ or_else_assoc (longest_match k (get c) ip') here best
                ∙ ap (λ o. or_else (or_else o here) best) (sym same)
                ∙ ap (λ o. or_else o best) (sym (longest_match-suc k (get n) ip)))
      ]

  -- In a trie whose blocks hold an element for each bit, with a round for each of its levels, the
  -- search returns the longest of the address's prefixes that the trie has.
  pub do_search-longest_match :
      (k : ℕ) (n : MbNode) (ip : Ip)
      → HasStrides m
      → IsPacked n
      → depth n ≤ suc k
      → do_search m (suc k) n ip none ≡ longest_match k (get n) ip
  do_search-longest_match k n ip lt w le =
      do_search-or_else k n ip none lt w le ∙ or_else-none (longest_match k (get n) ip)

  -- So does the search with marks.
  pub do_search_lazy-longest_match :
      (k : ℕ) (n : MbNode) (ip : Ip)
      → HasStrides m
      → IsPacked n
      → depth n ≤ suc k
      → do_search_lazy m (suc k) (suc k) n ip [] ≡ longest_match k (get n) ip
  do_search_lazy-longest_match k n ip lt w le =
      do_search_lazy-do_search m (suc k) (suc k) n ip (omega arith)
      ∙ do_search-longest_match k n ip lt w le
