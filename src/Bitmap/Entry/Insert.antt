-- ===== src/Bitmap/Entry/Insert.antt =====
-- `insert_entry` of modified_tree_bitmap/bitmap_v4.c and bitmap_v6.c adds one prefix to the table.
use poptrie_project.Base.{
  ℕ, zero, suc, ◌<◌, ◌≡◌, refl, ◌∙◌, sym, ap, ap₂, subst, some, List, [], ◌∷◌, inl, inr,
}
use poptrie_project.Vec.{count_from}
use poptrie_project.Bitmap.{MbNode, external, stride_bits, count_inl_bitmap, put_child}
use poptrie_project.Bitmap.Entry.{Shifts, child_at, open_child, insert_entry}
use poptrie_project.Bitmap.Entry.Table.{get, IsPacked, child_at-some}
use poptrie_project.Bitmap.Entry.Child.{
  insert_rule_self, insert_rule-ne, insert_rule-below, insert_rule-IsPacked, open_child-bit,
  open_child-get, open_child-IsPacked, put_child_self, put_child-ne, put_child-root,
  put_child-IsPacked, eq-or-ne, under, get-under,
}

module _ {Ip : Type 0} (m : Shifts Ip) where
  -- The k strides of an address, and the address behind them.
  abbrev pub strides : ℕ → Ip → List ℕ
  strides zero ip = []
  strides (suc k) ip = m.top ip stride_bits ∷ strides k (m.shift ip stride_bits)

  abbrev pub behind : ℕ → Ip → Ip
  behind zero ip = ip
  behind (suc k) ip = behind k (m.shift ip stride_bits)

  -- The place of a prefix in its last node.
  abbrev pub place : ℕ → ℕ → Ip → ℕ
  place k r ip = count_inl_bitmap (m.top (behind k ip) r) r

  -- The first six bits of an address are a number below 64.
  abbrev pub HasStrides : Type 0
  HasStrides = (ip : Ip) → m.top ip stride_bits < 64

  insert_entry-some :
      (k r : ℕ) (n c : MbNode) (ip : Ip) (x : ℕ)
      → child_at (open_child n (m.top ip stride_bits)) (m.top ip stride_bits) ≡ some c
      → insert_entry m (suc k) r n ip x
        ≡ put_child
            (open_child n (m.top ip stride_bits))
            (count_from (external (open_child n (m.top ip stride_bits))) (m.top ip stride_bits))
            (insert_entry m k r c (m.shift ip stride_bits) x)
  unfolding insert_entry
  insert_entry-some k r n c ip x e = rw (insert_entry, e) refl

  -- The child that the loop goes on with.
  Opened : MbNode → Ip → Type 0
  Opened n ip =
      (c : MbNode) × (child_at (open_child n (m.top ip stride_bits)) (m.top ip stride_bits)
        ≡ some c)
      × IsPacked c
      × ((ds : List ℕ) (p : ℕ) → get n (m.top ip stride_bits ∷ ds) p ≡ get c ds p)

  opens : (n : MbNode) (ip : Ip) → HasStrides → IsPacked n → Opened n ip
  unfolding Opened under
  opens n ip lt w =
      let pos : ℕ = m.top ip stride_bits in
      let o : MbNode = open_child n pos in
      let (c, at, elem, u) =
        child_at-some o pos (open_child-IsPacked n pos w (lt ip))
          (open_child-bit n pos w (lt ip)) in
      (
        c,
        at,
        u,
        λ ds p.
            sym (open_child-get n pos p (pos ∷ ds) w (lt ip))
            ∙ get-under o pos p ds
            ∙ ap (under ds p) elem,
      )

  -- The insertion keeps the invariant of the blocks.
  pub insert_entry-IsPacked :
      (k r : ℕ) (n : MbNode) (ip : Ip) (x : ℕ)
      → HasStrides
      → place k r ip < 64
      → IsPacked n
      → IsPacked (insert_entry m k r n ip x)
  unfolding insert_entry Opened
  insert_entry-IsPacked zero r n ip x lt fits w = insert_rule-IsPacked n (place zero r ip) x w fits
  insert_entry-IsPacked (suc k) r n ip x lt fits w =
      let pos : ℕ = m.top ip stride_bits in
      let o : MbNode = open_child n pos in
      let (c, at, u, same) = opens n ip lt w in
      subst IsPacked (sym (insert_entry-some k r n c ip x at)) (
        put_child-IsPacked o (insert_entry m k r c (m.shift ip stride_bits) x)
          (count_from (external o) pos) (open_child-IsPacked n pos w (lt ip))
          (insert_entry-IsPacked k r c (m.shift ip stride_bits) x lt fits u))

  -- In a trie whose blocks hold an element for each bit, the prefix that is inserted has the new
  -- next hop.
  pub insert_entry_self :
      (k r : ℕ) (n : MbNode) (ip : Ip) (x : ℕ)
      → HasStrides
      → place k r ip < 64
      → IsPacked n
      → get (insert_entry m k r n ip x) (strides k ip) (place k r ip) ≡ some x
  unfolding insert_entry Opened
  insert_entry_self zero r n ip x lt fits w = insert_rule_self n (place zero r ip) x w fits
  insert_entry_self (suc k) r n ip x lt fits w =
      let pos : ℕ = m.top ip stride_bits in
      let o : MbNode = open_child n pos in
      let (c, at, u, same) = opens n ip lt w in
      let c' : MbNode = insert_entry m k r c (m.shift ip stride_bits) x in
      ap (λ t. get t (strides (suc k) ip) (place (suc k) r ip)) (insert_entry-some k r n c ip x at)
      ∙ put_child_self o c' pos (place (suc k) r ip) (strides k (m.shift ip stride_bits))
          (open_child-IsPacked n pos w (lt ip)) (open_child-bit n pos w (lt ip))
      ∙ insert_entry_self k r c (m.shift ip stride_bits) x lt fits u

  -- Every other prefix keeps its next hop, or stays absent.
  pub insert_entry-ne :
      (k r : ℕ) (n : MbNode) (ip : Ip) (x : ℕ) (q : List ℕ) (p : ℕ)
      → HasStrides
      → place k r ip < 64
      → IsPacked n
      → ¬ ((q ≡ strides k ip) × (p ≡ place k r ip))
      → get (insert_entry m k r n ip x) q p ≡ get n q p
  unfolding insert_entry Opened
  insert_entry-ne zero r n ip x [] p lt fits w ne =
      insert_rule-ne n (place zero r ip) x p w fits (λ e. ne (refl, e))
  insert_entry-ne zero r n ip x (d ∷ ds) p lt fits w ne =
      insert_rule-below n (place zero r ip) x d p ds
  insert_entry-ne (suc k) r n ip x [] p lt fits w ne =
      let pos : ℕ = m.top ip stride_bits in
      let o : MbNode = open_child n pos in
      let (c, at, u, same) = opens n ip lt w in
      ap (λ t. get t [] p) (insert_entry-some k r n c ip x at)
      ∙ put_child-root o (insert_entry m k r c (m.shift ip stride_bits) x)
          (count_from (external o) pos) p
      ∙ open_child-get n pos p [] w (lt ip)
  insert_entry-ne (suc k) r n ip x (d ∷ ds) p lt fits w ne =
      let pos : ℕ = m.top ip stride_bits in
      let o : MbNode = open_child n pos in
      let (c, at, u, same) = opens n ip lt w in
      let c' : MbNode = insert_entry m k r c (m.shift ip stride_bits) x in
      let bit = open_child-bit n pos w (lt ip) in
      ap (λ t. get t (d ∷ ds) p) (insert_entry-some k r n c ip x at) ∙ elim (eq-or-ne d pos) [
        | inl e ↦
            ap (λ i. get (put_child o (count_from (external o) pos) c') (i ∷ ds) p) e
            ∙ put_child_self o c' pos p ds (open_child-IsPacked n pos w (lt ip)) bit
            ∙ insert_entry-ne k r c (m.shift ip stride_bits) x ds p lt fits u
                (λ h. ne (ap₂ ◌∷◌ e h.0, h.1))
            ∙ sym (same ds p)
            ∙ ap (λ i. get n (i ∷ ds) p) (sym e)
        | inr other ↦
            put_child-ne o c' pos d p ds bit other ∙ open_child-get n pos p (d ∷ ds) w (lt ip)
      ]
