-- ===== src/Bitmap/Entry/Table.antt =====
-- The routing table of a trie of multi-bit nodes (modified_tree_bitmap/), and the invariant that the
-- blocks of its nodes hold an element for each bit.
use poptrie_project.Base.{
  ℕ, zero, suc, ◌≡◌, refl, ap, subst, true, Option, none, some, List, [], ◌∷◌, arith, length, set,
  get_elem?, some_eq,
}
use poptrie_project.Vec.{vec_bt, popcnt, count_from}
use poptrie_project.Vec.Count.{vec_bt-zeros}
use poptrie_project.Bitmap.Packed.{slot, insert_at, remove_at, packed}
use poptrie_project.Bitmap.Update.{packed-some}
use poptrie_project.Bitmap.{
  MbNode, mb_node, Nodes, nil, cons, external, internal, rules, children, to_list, from_list, empty,
}
use poptrie_project.Bitmap.Entry.{child_at}

-- The rule at a path of strides and a place in the last node.
unfoldable pub get : MbNode → List ℕ → ℕ → Option ℕ
get n [] p = packed (internal n) (rules n) p
get n (d ∷ ds) p = elim (packed (external n) (children n) d) [ none ↦ none | some c ↦ get c ds p ]

-- Each block has an element for each bit.
unfoldable mutual
  pub IsPacked : MbNode → Type 0
  IsPacked (mb_node e i rs cs) =
      (length e ≡ 64)
      × (length i ≡ 64)
      × (length rs ≡ popcnt i)
      × (length (to_list cs) ≡ popcnt e)
      × AllPacked cs

  pub AllPacked : Nodes → Type 0
  AllPacked nil = Unit
  AllPacked (cons n ns) = IsPacked n × AllPacked ns

-- The same of a list.
unfoldable pub Each : List MbNode → Type 0
Each [] = Unit
Each (n ∷ ns) = IsPacked n × Each ns

pub to_list-Each : (cs : Nodes) → AllPacked cs → Each (to_list cs)
unfolding IsPacked Each
to_list-Each nil h = tt
to_list-Each (cons n ns) h = (h.0, to_list-Each ns h.1)

pub from_list-AllPacked : (ns : List MbNode) → Each ns → AllPacked (from_list ns)
unfolding IsPacked Each
from_list-AllPacked [] h = tt
from_list-AllPacked (n ∷ ns) h = (h.0, from_list-AllPacked ns h.1)

pub to_list-from_list : (ns : List MbNode) → to_list (from_list ns) ≡ ns
to_list-from_list [] = refl
to_list-from_list (n ∷ ns) = ap (λ xs. n ∷ xs) (to_list-from_list ns)

pub Each-get_elem? :
    (ns : List MbNode) (k : ℕ) (c : MbNode) → Each ns → get_elem? ns k ≡ some c → IsPacked c
unfolding Each
Each-get_elem? [] k c h e = absurd (grind arith)
Each-get_elem? (n ∷ ns) zero c h e = subst IsPacked (some_eq e) h.0
Each-get_elem? (n ∷ ns) (suc k) c h e = Each-get_elem? ns k c h.1 e

pub Each-set : (ns : List MbNode) (k : ℕ) (c : MbNode) → Each ns → IsPacked c → Each (set ns k c)
unfolding Each
Each-set [] k c h w = tt
Each-set (n ∷ ns) zero c h w = (w, h.1)
Each-set (n ∷ ns) (suc k) c h w = (h.0, Each-set ns k c h.1 w)

pub Each-insert_at :
    (k : ℕ) (c : MbNode) (ns : List MbNode) → Each ns → IsPacked c → Each (insert_at k c ns)
unfolding Each
Each-insert_at zero c ns h w = (w, h)
Each-insert_at (suc k) c [] h w = (w, tt)
Each-insert_at (suc k) c (n ∷ ns) h w = (h.0, Each-insert_at k c ns h.1 w)

pub Each-remove_at : (k : ℕ) (ns : List MbNode) → Each ns → Each (remove_at k ns)
unfolding Each
Each-remove_at k [] h = tt
Each-remove_at zero (n ∷ ns) h = h.1
Each-remove_at (suc k) (n ∷ ns) h = (h.0, Each-remove_at k ns h.1)

pub empty-IsPacked : IsPacked empty
unfolding IsPacked
empty-IsPacked = (refl, refl, refl, refl, tt)

pub get-empty : (ds : List ℕ) (p : ℕ) → get empty ds p ≡ none
unfolding get
get-empty [] p = rw (vec_bt-zeros 64 p) refl
get-empty (d ∷ ds) p = rw (vec_bt-zeros 64 d) refl

-- The child of a bit.
pub child_at-some :
    (n : MbNode) (pos : ℕ)
    → IsPacked n
    → vec_bt (external n) pos ≡ true
    → (c : MbNode) × (child_at n pos ≡ some c)
      × (packed (external n) (children n) pos ≡ some c)
      × IsPacked c
unfolding IsPacked
child_at-some (mb_node e i rs cs) pos w b =
    let (c, at) = packed-some e (to_list cs) pos (omega (arith, w.3)) b in
    (c, at, rw (b) at, slot-IsPacked (count_from e pos) c at)
  where
    slot-IsPacked : (q : ℕ) (c : MbNode) → slot (to_list cs) q ≡ some c → IsPacked c
    slot-IsPacked zero c e = absurd (grind arith)
    slot-IsPacked (suc q) c e = Each-get_elem? (to_list cs) q c (to_list-Each cs w.4) e
