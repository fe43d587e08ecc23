-- ===== src/Rib/Marks.antt =====
-- `poptrie_route_change_propagate`, `poptrie_route_del_propagate` and `_clear_mark` of
-- modified_poptrie/poptrie_private.h against the invariant of the RIB.
use poptrie_project.Base.{
  ◌<◌, ◌≡◌, ◌∙◌, ap, subst, true, false, Option, [], ◌∷◌, ◌++◌, ◌||◌, arith, length, if◌then◌else◌,
  Bool-cases, inl, inr,
}
use poptrie_project.Trie.{nil, node}
use poptrie_project.Rib.{
  Addr, RadixNode, Rib, addr_eq, ext_is, mark_of, here, change_propagate, del_propagate, clear_mark,
}
use poptrie_project.Rib.Inv.{IsCached, length-snoc, addr_eq-length}

-- Marking for a changed next hop moves no `ext`.
pub change_propagate-IsCached :
    (q : Addr) (above : Option Addr) (path : Addr) (t : Rib)
    → IsCached above path t
    → IsCached above path (change_propagate q t)
unfolding change_propagate here
change_propagate-IsCached q above path nil inv = tt
change_propagate-IsCached q above path (node c l r) inv = (
  inv.0,
  inv.1,
  change_propagate-IsCached q (here c above path) (path ++ false ∷ []) l inv.2,
  change_propagate-IsCached q (here c above path) (path ++ true ∷ []) r inv.3,
)

-- Clearing the marks moves no `ext`.
pub clear_mark-IsCached :
    (above : Option Addr) (path : Addr) (t : Rib)
    → IsCached above path t
    → IsCached above path (clear_mark t)
unfolding clear_mark here
clear_mark-IsCached above path nil inv = tt
clear_mark-IsCached above path (node c l r) inv =
    let il = clear_mark-IsCached (here c above path) (path ++ false ∷ []) l inv.2 in
    let ir = clear_mark-IsCached (here c above path) (path ++ true ∷ []) r inv.3 in
    elim (Bool-cases c.mark) [
      | inl m ↦ rw (clear_mark, m) (inv.0, inv.1, il, ir)
      | inr m ↦ rw (clear_mark, m) inv
    ]

-- What becomes of a pointer when the node at `q` is withdrawn.
abbrev pub replace : Addr → Option Addr → Option Addr → Option Addr
replace q next a = if ext_is a q then next else a

longer_ne : (p q : Addr) → length q < length p → addr_eq p q ≡ false
longer_ne p q lt = elim (Bool-cases (addr_eq p q)) [
  | inl e ↦ absurd (omega (arith, addr_eq-length p q e))
  | inr e ↦ e
]

abbrev replaced : Addr → Option Addr → RadixNode → Rib → Rib → Rib
replaced q next c l r =
    let l' = del_propagate q next l in
    let r' = del_propagate q next r in
    let d : RadixNode = record c {
      ext = replace q next c.ext;
      mark = (if ext_is c.ext q then true else c.mark) || mark_of l' || mark_of r';
    } in
    node d l' r'

del_propagate_lem :
    (q : Addr) (next : Option Addr) (c : RadixNode) (l r : Rib)
    → del_propagate q next (node c l r) ≡ replaced q next c l r
unfolding del_propagate
del_propagate_lem q next c l r = ground arith

-- The nearest valid node stays the nearest, but for the withdrawn one above.
replace-here :
    (q : Addr) (next above : Option Addr) (path : Addr) (c : RadixNode)
    → length q < length path
    → replace q next (here c above path) ≡ here c (replace q next above) path
unfolding here
replace-here q next above path c lt = ground (arith, longer_ne path q lt)

-- Below the withdrawn node the pointers to it become `next`.
pub del_propagate-IsCached :
    (q : Addr) (next above : Option Addr) (path : Addr) (t : Rib)
    → length q < length path
    → IsCached above path t
    → IsCached (replace q next above) path (del_propagate q next t)
unfolding del_propagate here
del_propagate-IsCached q next above path nil lt inv = tt
del_propagate-IsCached q next above path (node c l r) lt inv =
    let above' = here c above path in
    let same = replace-here q next above path c lt in
    let il =
      del_propagate-IsCached q next above' (path ++ false ∷ []) l
        (omega (arith, length-snoc path false)) inv.2 in
    let ir =
      del_propagate-IsCached q next above' (path ++ true ∷ []) r
        (omega (arith, length-snoc path true)) inv.3 in
    rw del_propagate_lem (
      ap (replace q next) inv.0 ∙ same,
      inv.1,
      subst (λ a. IsCached a (path ++ false ∷ []) (del_propagate q next l)) same il,
      subst (λ a. IsCached a (path ++ true ∷ []) (del_propagate q next r)) same ir,
    )
