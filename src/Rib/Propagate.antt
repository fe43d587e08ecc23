-- ===== src/Rib/Propagate.antt =====
-- The three propagations of modified_poptrie/poptrie_private.h keep `ext` at the nearest valid
-- node, and `_clear_mark` touches the marks alone.
use poptrie_project.Base.{
  ◌<◌, ◌≡◌, ◌∙◌, sym, subst, Bool, true, false, Option, some, [], ◌∷◌, ◌++◌, ◌||◌, arith, length,
  Bool-cases, Option-cases, inl, inr, ltb,
}
use poptrie_project.Trie.{nil, node}
use poptrie_project.Rib.{Addr, RadixNode, Rib, Memory, mark_of, here, add_propagate}
use poptrie_project.Rib.Inv.{IsCached, Loads, here-valid, here-invalid, length-snoc}

add_propagate_stop :
    (load : Memory) (ext q : Addr) (c : RadixNode) (l r : Rib)
    → c.ext ≡ some q
    → ltb (load q).len (load ext).len ≡ false
    → add_propagate load ext (node c l r) ≡ node (record c { mark = true }) l r
unfolding add_propagate
add_propagate_stop load ext q c l r e f = ground arith

abbrev spread : Memory → Addr → RadixNode → Rib → Rib → Rib
spread load ext c l r =
    let l' = add_propagate load ext l in
    let r' = add_propagate load ext r in
    node (record c { ext = some ext; mark = true || mark_of l' || mark_of r' }) l' r'

add_propagate_go :
    (load : Memory) (ext : Addr) (c : RadixNode) (l r : Rib)
    → ((q : Addr) → c.ext ≡ some q → (load q).len < (load ext).len)
    → add_propagate load ext (node c l r) ≡ spread load ext c l r
unfolding add_propagate
add_propagate_go load ext c l r h = elim (Option-cases c.ext) [
  | inl e ↦ ground arith
  | inr (q, e) ↦ ground (arith, h q e)
]

-- A part of the invariant only depends on which node is the nearest valid one.
moved :
    (c d : RadixNode) (above above' : Option Addr) (path p : Addr) (t : Rib)
    → here c above path ≡ here d above' path
    → IsCached (here c above path) p t
    → IsCached (here d above' path) p t
moved c d above above' path p t e h = subst (λ a. IsCached a p t) e h

-- Below a node that becomes valid, where `above` was the nearest valid node.
add_propagate-IsCached :
    (load : Memory) (ext : Addr) (above : Option Addr) (path : Addr) (t : Rib)
    → (load ext).len < length path
    → ((q : Addr) → above ≡ some q → (load q).len < (load ext).len)
    → IsCached above path t
    → Loads load path t
    → IsCached (some ext) path (add_propagate load ext t)
unfolding add_propagate
add_propagate-IsCached load ext above path nil lt old inv reads = tt
add_propagate-IsCached load ext above path (node c l r) lt old inv reads =
    elim (Bool-cases c.valid) [
      | inl v ↦
          let own = inv.0 ∙ here-valid c above path v in
          let d : RadixNode = record c { mark = true } in
          let same = here-valid c above path v ∙ sym (here-valid d (some ext) path v) in
          rw (add_propagate_stop load ext path c l r own (ground (arith, reads.0 v))) (
            inv.0 ∙ same,
            inv.1,
            moved c d above (some ext) path (path ++ false ∷ []) l same inv.2,
            moved c d above (some ext) path (path ++ true ∷ []) r same inv.3,
          )
      | inr v ↦
          let own = inv.0 ∙ here-invalid c above path v in
          let l' = add_propagate load ext l in
          let r' = add_propagate load ext r in
          let d : RadixNode = record c {
            ext = some ext;
            mark = true || mark_of l' || mark_of r';
          } in
          let now = here-invalid d (some ext) path v in
          let at : (b : Bool) (t : Rib)
              → IsCached (here c above path) (path ++ b ∷ []) t
              → IsCached above (path ++ b ∷ []) t =
            λ b t h. subst (λ a. IsCached a (path ++ b ∷ []) t) (here-invalid c above path v) h in
          let back : (b : Bool) (t : Rib)
              → IsCached (some ext) (path ++ b ∷ []) t
              → IsCached (here d (some ext) path) (path ++ b ∷ []) t =
            λ b t h. subst (λ a. IsCached a (path ++ b ∷ []) t) (sym now) h in
          rw (add_propagate_go load ext c l r (λ q e. old q (sym own ∙ e))) (
            sym now,
            inv.1,
            back false l' (
                add_propagate-IsCached load ext above (path ++ false ∷ []) l
                  (omega (arith, length-snoc path false)) old (at false l inv.2) reads.1),
            back true r' (
                add_propagate-IsCached load ext above (path ++ true ∷ []) r
                  (omega (arith, length-snoc path true)) old (at true r inv.3) reads.2),
          )
    ]

-- The nodes under a root that becomes valid: the root, whose `ext` was the node above it.
pub announced-IsCached :
    (load : Memory) (above : Option Addr) (path : Addr) (c : RadixNode) (l r : Rib)
    → c.valid ≡ true
    → c.len ≡ length path
    → c.ext ≡ above
    → (load path).len ≡ length path
    → ((q : Addr) → above ≡ some q → (load q).len < length path)
    → IsCached above (path ++ false ∷ []) l
    → IsCached above (path ++ true ∷ []) r
    → Loads load (path ++ false ∷ []) l
    → Loads load (path ++ true ∷ []) r
    → IsCached above path (add_propagate load path (node c l r))
announced-IsCached load above path c l r v len own reads old il ir ll lr =
    let l' = add_propagate load path l in
    let r' = add_propagate load path r in
    let d : RadixNode = record c { ext = some path; mark = true || mark_of l' || mark_of r' } in
    let now = here-valid d above path v in
    let older : (q : Addr) → above ≡ some q → (load q).len < (load path).len =
      λ q e. omega (arith, old q e) in
    let back : (b : Bool) (t : Rib)
        → IsCached (some path) (path ++ b ∷ []) t
        → IsCached (here d above path) (path ++ b ∷ []) t =
      λ b t h. subst (λ a. IsCached a (path ++ b ∷ []) t) (sym now) h in
    rw (add_propagate_go load path c l r (λ q e. older q (sym own ∙ e))) (
      sym now,
      (λ _. len),
      back false l' (
          add_propagate-IsCached load path above (path ++ false ∷ []) l
            (omega (arith, length-snoc path false)) older il ll),
      back true r' (
          add_propagate-IsCached load path above (path ++ true ∷ []) r
            (omega (arith, length-snoc path true)) older ir lr),
    )
