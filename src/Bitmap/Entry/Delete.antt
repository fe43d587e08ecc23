-- ===== src/Bitmap/Entry/Delete.antt =====
-- `delete_entry` of modified_tree_bitmap/bitmap_v4.c and bitmap_v6.c removes one prefix.
use poptrie_project.Base.{
  ℕ, zero, suc, ◌≡◌, ◌≢◌, refl, ◌∙◌, sym, ap, ap₂, subst, Bool, true, false, Option, none, some,
  List, [], ◌∷◌, if◌then◌else◌, inl, inr, Option-cases, Bool-cases, arith,
}
use poptrie_project.Vec.{vec_bt, count_from}
use poptrie_project.Bitmap.Packed.{slot}
use poptrie_project.Bitmap.Update.{packed-some}
use poptrie_project.Bitmap.{MbNode, mb_node, internal, external, children, stride_bits}
use poptrie_project.Bitmap.Entry.{
  Shifts, rule_at, child_at, is_empty, Deleted, delete_rule, delete_child, delete_entry,
  prefix_exist,
}
use poptrie_project.Bitmap.Entry.Table.{get, IsPacked, child_at-some}
use poptrie_project.Bitmap.Entry.Child.{eq-or-ne, under, get-under}
use poptrie_project.Bitmap.Entry.Insert.{strides, place}
use poptrie_project.Bitmap.Entry.Drop.{
  get-is_empty, delete_rule_self, delete_rule-ne, delete_rule-below, delete_rule-IsPacked,
  delete_child_self, delete_child-ne, delete_child-root, delete_child-IsPacked,
}

-- A rule that the table has stands at a bit that is set.
get-vec_bt :
    (n : MbNode) (p y : ℕ)
    → get n [] p ≡ some y
    → (vec_bt (internal n) p ≡ true) × (rule_at n p ≡ some y)
unfolding get
get-vec_bt n p y e = elim (Bool-cases (vec_bt (internal n) p)) [
  | inl t ↦ (t, rw (t) at e)
  | inr f ↦ absurd (grind (arith, rw (f) at e))
]

abbrev pub has : Option ℕ → Bool
has none = false
has (some y) = true

module _ {Ip : Type 0} (m : Shifts Ip) where
  -- The child on the way to a prefix that the table has.
  Follows : MbNode → Ip → List ℕ → ℕ → ℕ → Type 0
  Follows n ip ds p y =
      (vec_bt (external n) (m.top ip stride_bits) ≡ true)
      × (c : MbNode) × (child_at n (m.top ip stride_bits) ≡ some c)
      × IsPacked c
      × (get c ds p ≡ some y)
      × ((es : List ℕ) (q : ℕ) → get n (m.top ip stride_bits ∷ es) q ≡ get c es q)

  follows :
      (n : MbNode) (ip : Ip) (ds : List ℕ) (p y : ℕ)
      → IsPacked n
      → get n (m.top ip stride_bits ∷ ds) p ≡ some y
      → Follows n ip ds p y
  unfolding Follows under
  follows n ip ds p y w e =
      let s : ℕ = m.top ip stride_bits in
      elim (Bool-cases (vec_bt (external n) s)) [
        | inl t ↦
            let (c, at, elem, u) = child_at-some n s w t in
            (
              t,
              c,
              at,
              u,
              sym (get-under n s p ds ∙ ap (under ds p) elem) ∙ e,
              λ es q. get-under n s q es ∙ ap (under es q) elem,
            )
        | inr f ↦ absurd (
            none_ne (
              sym (
                get-under n s p ds
                ∙ ap (under ds p) (
                    ap
                      (λ (b : Bool).
                        if b then slot (children n) (count_from (external n) s) else none)
                      f))
              ∙ e))
      ]
    where
      none_ne : {x : ℕ} → ◌≢◌ {A = Option ℕ} none (some x)
      none_ne q = cc

  delete_entry-some :
      (k r : ℕ) (n c : MbNode) (ip : Ip) (f : Bool)
      → child_at n (m.top ip stride_bits) ≡ some c
      → delete_entry m (suc k) r n ip f
        ≡ delete_child n (m.top ip stride_bits) (delete_entry m k r c (m.shift ip stride_bits) f)
  unfolding delete_entry
  delete_entry-some k r n c ip f e = rw (delete_entry, e) refl

  -- The flag tells that the node is empty.
  node_need_to_del-is_empty :
      (k r : ℕ) (n : MbNode) (ip : Ip) (f : Bool)
      → (delete_entry m k r n ip f).node_need_to_del ≡ is_empty (delete_entry m k r n ip f).node
  unfolding delete_entry delete_rule delete_child
  node_need_to_del-is_empty zero r n ip f = refl
  node_need_to_del-is_empty (suc k) r n ip f =
      elim (Option-cases (child_at n (m.top ip stride_bits))) [
        | inl e ↦ rw (delete_entry, e) refl
        | inr (c, e) ↦ rw (delete_entry, e) refl
      ]

  -- A trie that the deletion leaves empty has no rule.
  deleted_gone :
      (k r : ℕ) (n : MbNode) (ip : Ip) (f : Bool) (q : List ℕ) (p : ℕ)
      → (delete_entry m k r n ip f).node_need_to_del ≡ true
      → get (delete_entry m k r n ip f).node q p ≡ none
  deleted_gone k r n ip f q p e =
      get-is_empty (delete_entry m k r n ip f).node q p
        (sym (node_need_to_del-is_empty k r n ip f) ∙ e)

  -- Deleting a prefix that the table has keeps the invariant of the blocks.
  pub delete_entry-IsPacked :
      (k r : ℕ) (n : MbNode) (ip : Ip) (f : Bool) (y : ℕ)
      → IsPacked n
      → get n (strides m k ip) (place m k r ip) ≡ some y
      → IsPacked (delete_entry m k r n ip f).node
  unfolding delete_entry Follows
  delete_entry-IsPacked zero r n ip f y w e =
      delete_rule-IsPacked n (place m zero r ip) f (get-vec_bt n (place m zero r ip) y e).0 w
  delete_entry-IsPacked (suc k) r n ip f y w e =
      let (b, c, at, u, there, same) =
        follows n ip (strides m k (m.shift ip stride_bits)) (place m (suc k) r ip) y w e in
      subst (λ (d : Deleted). IsPacked d.node) (sym (delete_entry-some k r n c ip f at))
        (delete_child-IsPacked n (m.top ip stride_bits)
          (delete_entry m k r c (m.shift ip stride_bits) f) b w
          (delete_entry-IsPacked k r c (m.shift ip stride_bits) f y u there))

  -- The prefix that is deleted, which the table had, is gone.
  pub delete_entry_self :
      (k r : ℕ) (n : MbNode) (ip : Ip) (f : Bool) (y : ℕ)
      → IsPacked n
      → get n (strides m k ip) (place m k r ip) ≡ some y
      → get (delete_entry m k r n ip f).node (strides m k ip) (place m k r ip) ≡ none
  unfolding delete_entry Follows
  delete_entry_self zero r n ip f y w e =
      delete_rule_self n (place m zero r ip) f (get-vec_bt n (place m zero r ip) y e).0
  delete_entry_self (suc k) r n ip f y w e =
      let ip' : Ip = m.shift ip stride_bits in
      let ds : List ℕ = strides m k ip' in
      let p : ℕ = place m (suc k) r ip in
      let (b, c, at, u, there, same) = follows n ip ds p y w e in
      ap (λ (d : Deleted). get d.node (strides m (suc k) ip) p) (delete_entry-some k r n c ip f at)
      ∙ delete_child_self n (m.top ip stride_bits) p ds (delete_entry m k r c ip' f) w b
          (deleted_gone k r c ip' f ds p)
      ∙ delete_entry_self k r c ip' f y u there

  -- Deleting a prefix that the table has changes no other prefix.
  pub delete_entry-ne :
      (k r : ℕ) (n : MbNode) (ip : Ip) (f : Bool) (y : ℕ) (q : List ℕ) (p : ℕ)
      → IsPacked n
      → get n (strides m k ip) (place m k r ip) ≡ some y
      → ¬ ((q ≡ strides m k ip) × (p ≡ place m k r ip))
      → get (delete_entry m k r n ip f).node q p ≡ get n q p
  unfolding delete_entry Follows
  delete_entry-ne zero r n ip f y [] p w e ne =
      delete_rule-ne n (place m zero r ip) p f (get-vec_bt n (place m zero r ip) y e).0
        (λ h. ne (refl, h))
  delete_entry-ne zero r n ip f y (d ∷ ds) p w e ne =
      delete_rule-below n (place m zero r ip) d p ds f (get-vec_bt n (place m zero r ip) y e).0
  delete_entry-ne (suc k) r n ip f y [] p w e ne =
      let ip' : Ip = m.shift ip stride_bits in
      let (b, c, at, u, there, same) =
        follows n ip (strides m k ip') (place m (suc k) r ip) y w e in
      ap (λ (d : Deleted). get d.node [] p) (delete_entry-some k r n c ip f at)
      ∙ delete_child-root n (m.top ip stride_bits) p (delete_entry m k r c ip' f)
  delete_entry-ne (suc k) r n ip f y (d ∷ ds) p w e ne =
      let s : ℕ = m.top ip stride_bits in
      let ip' : Ip = m.shift ip stride_bits in
      let (b, c, at, u, there, same) =
        follows n ip (strides m k ip') (place m (suc k) r ip) y w e in
      let below : Deleted = delete_entry m k r c ip' f in
      ap (λ (x : Deleted). get x.node (d ∷ ds) p) (delete_entry-some k r n c ip f at)
      ∙ elim (eq-or-ne d s) [
        | inr other ↦ delete_child-ne n s d p ds below b other
        | inl q ↦
            ap (λ i. get (delete_child n s below).node (i ∷ ds) p) q
            ∙ delete_child_self n s p ds below w b (deleted_gone k r c ip' f ds p)
            ∙ delete_entry-ne k r c ip' f y ds p u there (λ h. ne (ap₂ ◌∷◌ q h.0, h.1))
            ∙ sym (same ds p)
            ∙ ap (λ i. get n (i ∷ ds) p) (sym q)
      ]

  -- The next hop that is handed to `destroy_nhi` is the one of the prefix that is deleted.
  pub delete_entry-destroyed :
      (k r : ℕ) (n : MbNode) (ip : Ip) (y : ℕ)
      → IsPacked n
      → get n (strides m k ip) (place m k r ip) ≡ some y
      → (delete_entry m k r n ip true).destroyed ≡ some y
  unfolding delete_entry delete_rule delete_child Follows
  delete_entry-destroyed zero r n ip y w e = (get-vec_bt n (place m zero r ip) y e).1
  delete_entry-destroyed (suc k) r n ip y w e =
      let (b, c, at, u, there, same) =
        follows n ip (strides m k (m.shift ip stride_bits)) (place m (suc k) r ip) y w e in
      ap (λ (d : Deleted). d.destroyed) (delete_entry-some k r n c ip true at)
      ∙ delete_entry-destroyed k r c (m.shift ip stride_bits) y u there

  root-has : (n : MbNode) (p : ℕ) → IsPacked n → vec_bt (internal n) p ≡ has (get n [] p)
  unfolding IsPacked get
  root-has (mb_node e i rs cs) p w = elim (Bool-cases (vec_bt i p)) [
    | inr f ↦ rw (f) refl
    | inl t ↦ let (x, q) = packed-some i rs p (omega (arith, w.2)) t in rw (t, q) refl
  ]

  -- In a trie whose blocks hold an element for each bit, `prefix_exist` finds the prefixes that the
  -- table has, and no others.
  pub prefix_exist-get :
      (k r : ℕ) (n : MbNode) (ip : Ip)
      → IsPacked n
      → prefix_exist m k r n ip ≡ has (get n (strides m k ip) (place m k r ip))
  unfolding prefix_exist under
  prefix_exist-get zero r n ip w = root-has n (place m zero r ip) w
  prefix_exist-get (suc k) r n ip w =
      let s : ℕ = m.top ip stride_bits in
      let ds : List ℕ = strides m k (m.shift ip stride_bits) in
      let p : ℕ = place m (suc k) r ip in
      elim (Bool-cases (vec_bt (external n) s)) [
        | inr f ↦
            rw (prefix_exist, f)
              (sym (
                ap has (
                  get-under n s p ds
                  ∙ ap (under ds p) (
                      ap
                        (λ (b : Bool).
                          if b then slot (children n) (count_from (external n) s) else none)
                        f))))
        | inl t ↦
            let (c, at, elem, u) = child_at-some n s w t in
            rw (prefix_exist, t, at)
              (prefix_exist-get k r c (m.shift ip stride_bits) u
                ∙ sym (ap has (get-under n s p ds ∙ ap (under ds p) elem)))
      ]
