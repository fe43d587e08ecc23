-- ===== src/Bitmap/Entry/Child.antt =====
-- What the steps of `insert_entry` of modified_tree_bitmap/ do to the table of one node.
use poptrie_project.Base.{
  ℕ, ◌-◌, ◌<◌, ◌≡◌, ◌≢◌, refl, ◌∙◌, sym, ap, Bool, true, false, Option, none, some, List, [], ◌∷◌,
  if◌then◌else◌, arith, length, set, Bool-cases, inl, inr, ◌⊎◌, length-set, get_elem?-set_self,
  get_or_else, ◌==◌,
}
use poptrie_project.Vec.{Vec, vec_bt, vec_set, count_from}
use poptrie_project.Bitmap.Packed.{
  slot, insert_at, packed, length-insert_at, popcnt-vec_set, count_from-vec_set,
}
use poptrie_project.Bitmap.Update.{
  packed-insert_at_self, packed-insert_at_ne, packed-set_self, packed-set_ne,
}
use poptrie_project.Bitmap.{
  MbNode, mb_node, Nodes, external, children, to_list, from_list, empty, extend_rule, extend_child,
  put_child,
}
use poptrie_project.Bitmap.Entry.{insert_rule, open_child}
use poptrie_project.Bitmap.Entry.Table.{
  get, IsPacked, to_list-Each, from_list-AllPacked, to_list-from_list, Each-set, Each-insert_at,
  empty-IsPacked, get-empty,
}

-- A rule at the place pos of the node alone.
pub insert_rule_self :
    (n : MbNode) (pos x : ℕ) → IsPacked n → pos < 64 → get (insert_rule n pos x) [] pos ≡ some x
unfolding insert_rule IsPacked get extend_rule
insert_rule_self (mb_node e i rs cs) pos x w lt = elim (Bool-cases (vec_bt i pos)) [
  | inl b ↦ rw (b) (packed-set_self i rs pos x (omega (arith, w.2)) b)
  | inr b ↦
      let c = count_from-vec_set i pos (omega (arith, w.1)) b in
      rw (b) (
        ap (λ k. packed (vec_set i pos) (insert_at k x rs) pos) (omega (arith, c))
        ∙ packed-insert_at_self i rs pos x (omega (arith, w.1)) (omega (arith, w.2)) b)
]

pub insert_rule-ne :
    (n : MbNode) (pos x p : ℕ)
    → IsPacked n
    → pos < 64
    → p ≢ pos
    → get (insert_rule n pos x) [] p ≡ get n [] p
unfolding insert_rule IsPacked get extend_rule
insert_rule-ne (mb_node e i rs cs) pos x p w lt ne = elim (Bool-cases (vec_bt i pos)) [
  | inl b ↦ rw (b) (packed-set_ne i rs pos p x b ne)
  | inr b ↦
      let c = count_from-vec_set i pos (omega (arith, w.1)) b in
      rw (b) (
        ap (λ k. packed (vec_set i pos) (insert_at k x rs) p) (omega (arith, c))
        ∙ packed-insert_at_ne i rs pos p x (omega (arith, w.1)) (omega (arith, w.2)) b ne)
]

pub insert_rule-below :
    (n : MbNode) (pos x d p : ℕ) (ds : List ℕ)
    → get (insert_rule n pos x) (d ∷ ds) p ≡ get n (d ∷ ds) p
unfolding insert_rule get extend_rule
insert_rule-below (mb_node e i rs cs) pos x d p ds = elim (Bool-cases (vec_bt i pos)) [
  | inl b ↦ rw (b) refl
  | inr b ↦ rw (b) refl
]

pub insert_rule-IsPacked :
    (n : MbNode) (pos x : ℕ) → IsPacked n → pos < 64 → IsPacked (insert_rule n pos x)
unfolding insert_rule IsPacked extend_rule
insert_rule-IsPacked (mb_node e i rs cs) pos x w lt = elim (Bool-cases (vec_bt i pos)) [
  | inl b ↦ rw (b) (w.0, w.1, length-set rs (count_from i pos - 1) x ∙ w.2, w.3, w.4)
  | inr b ↦
      let p = popcnt-vec_set i pos (omega (arith, w.1)) b in
      let l = length-insert_at (count_from (vec_set i pos) pos - 1) x rs in
      rw (b) (w.0, length-set i pos true ∙ w.1, omega (arith, w.2), w.3, w.4)
]

-- Making sure that a child is there changes no rule.
pub open_child-bit :
    (n : MbNode) (pos : ℕ) → IsPacked n → pos < 64 → vec_bt (external (open_child n pos)) pos ≡ true
unfolding open_child extend_child IsPacked
open_child-bit (mb_node e i rs cs) pos w lt = elim (Bool-cases (vec_bt e pos)) [
  | inl b ↦ rw (b) b
  | inr b ↦
      rw (b) (ap (λ o. get_or_else o false) (get_elem?-set_self e pos true (omega (arith, w.0))))
]

pub get-root :
    (e e' i : Vec) (rs : List ℕ) (cs cs' : Nodes) (p : ℕ)
    → get (mb_node e' i rs cs') [] p ≡ get (mb_node e i rs cs) [] p
unfolding get
get-root e e' i rs cs cs' p = refl

pub eq-or-ne : (a b : ℕ) → (a ≡ b) ⊎ (a ≢ b)
eq-or-ne a b = elim (Bool-cases (a == b)) [
  | inl e ↦ inl (ground arith)
  | inr e ↦ inr (λ q. ground arith)
]

-- The children with a new one for a bit that was clear.
abbrev opened : Vec → Nodes → ℕ → Nodes
opened e cs pos = from_list (insert_at (count_from (vec_set e pos) pos - 1) empty (to_list cs))

packed-opened :
    (e i : Vec) (rs : List ℕ) (cs : Nodes) (pos d : ℕ)
    → IsPacked (mb_node e i rs cs)
    → pos < 64
    → vec_bt e pos ≡ false
    → d ≢ pos
    → packed (vec_set e pos) (to_list (opened e cs pos)) d ≡ packed e (to_list cs) d
unfolding IsPacked
packed-opened e i rs cs pos d w lt b ne =
    let c = count_from-vec_set e pos (omega (arith, w.0)) b in
    ap (λ xs. packed (vec_set e pos) xs d)
      (to_list-from_list (insert_at (count_from (vec_set e pos) pos - 1) empty (to_list cs)))
    ∙ ap (λ k. packed (vec_set e pos) (insert_at k empty (to_list cs)) d) (omega (arith, c))
    ∙ packed-insert_at_ne e (to_list cs) pos d empty (omega (arith, w.0)) (omega (arith, w.3)) b ne

packed-opened_self :
    (e i : Vec) (rs : List ℕ) (cs : Nodes) (pos : ℕ)
    → IsPacked (mb_node e i rs cs)
    → pos < 64
    → vec_bt e pos ≡ false
    → packed (vec_set e pos) (to_list (opened e cs pos)) pos ≡ some empty
unfolding IsPacked
packed-opened_self e i rs cs pos w lt b =
    let c = count_from-vec_set e pos (omega (arith, w.0)) b in
    ap (λ xs. packed (vec_set e pos) xs pos)
      (to_list-from_list (insert_at (count_from (vec_set e pos) pos - 1) empty (to_list cs)))
    ∙ ap (λ k. packed (vec_set e pos) (insert_at k empty (to_list cs)) pos) (omega (arith, c))
    ∙ packed-insert_at_self e (to_list cs) pos empty (omega (arith, w.0)) (omega (arith, w.3)) b

-- The table under a child.
unfoldable pub under : List ℕ → ℕ → Option MbNode → Option ℕ
under ds p none = none
under ds p (some c) = get c ds p

pub get-under :
    (n : MbNode) (d p : ℕ) (ds : List ℕ)
    → get n (d ∷ ds) p ≡ under ds p (packed (external n) (children n) d)
unfolding get under
get-under n d p ds =
    elim (packed (external n) (children n) d)
      as (λ o. elim o [ none ↦ none | some c ↦ get c ds p ] ≡ under ds p o) [
        | none ↦ refl
        | some c ↦ refl
      ]

opened-get :
    (e i : Vec) (rs : List ℕ) (cs : Nodes) (pos d p : ℕ) (ds : List ℕ)
    → IsPacked (mb_node e i rs cs)
    → pos < 64
    → vec_bt e pos ≡ false
    → get (mb_node (vec_set e pos) i rs (opened e cs pos)) (d ∷ ds) p
      ≡ get (mb_node e i rs cs) (d ∷ ds) p
unfolding under
opened-get e i rs cs pos d p ds w lt b = elim (eq-or-ne d pos) [
  | inl q ↦
      get-under (mb_node (vec_set e pos) i rs (opened e cs pos)) d p ds
      ∙ ap (under ds p) (
          ap (packed (vec_set e pos) (to_list (opened e cs pos))) q
          ∙ packed-opened_self e i rs cs pos w lt b)
      ∙ get-empty ds p
      ∙ sym (
          get-under (mb_node e i rs cs) d p ds
          ∙ ap (under ds p) (
              ap (packed e (to_list cs)) q
              ∙ ap (λ (x : Bool). if x then slot (to_list cs) (count_from e pos) else none) b))
  | inr ne ↦
      get-under (mb_node (vec_set e pos) i rs (opened e cs pos)) d p ds
      ∙ ap (under ds p) (packed-opened e i rs cs pos d w lt b ne)
      ∙ sym (get-under (mb_node e i rs cs) d p ds)
]

pub open_child-get :
    (n : MbNode) (pos p : ℕ) (q : List ℕ)
    → IsPacked n
    → pos < 64
    → get (open_child n pos) q p ≡ get n q p
unfolding open_child extend_child
open_child-get (mb_node e i rs cs) pos p [] w lt = elim (Bool-cases (vec_bt e pos)) [
  | inl b ↦ rw (b) refl
  | inr b ↦ rw (b) (get-root e (vec_set e pos) i rs cs (opened e cs pos) p)
]
open_child-get (mb_node e i rs cs) pos p (d ∷ ds) w lt = elim (Bool-cases (vec_bt e pos)) [
  | inl b ↦ rw (b) refl
  | inr b ↦ rw (b) (opened-get e i rs cs pos d p ds w lt b)
]

pub open_child-IsPacked :
    (n : MbNode) (pos : ℕ) → IsPacked n → pos < 64 → IsPacked (open_child n pos)
unfolding open_child extend_child IsPacked
open_child-IsPacked (mb_node e i rs cs) pos w lt = elim (Bool-cases (vec_bt e pos)) [
  | inl b ↦ rw (b) w
  | inr b ↦
      let k : ℕ = count_from (vec_set e pos) pos - 1 in
      let p = popcnt-vec_set e pos (omega (arith, w.0)) b in
      let l = length-insert_at k empty (to_list cs) in
      let f = ap length (to_list-from_list (insert_at k empty (to_list cs))) in
      rw (b) (
        length-set e pos true ∙ w.0,
        w.1,
        w.2,
        omega (arith, w.3),
        from_list-AllPacked (insert_at k empty (to_list cs))
            (Each-insert_at k empty (to_list cs) (to_list-Each cs w.4) empty-IsPacked),
      )
]

-- A child that is replaced.
pub put_child_self :
    (n c : MbNode) (pos p : ℕ) (ds : List ℕ)
    → IsPacked n
    → vec_bt (external n) pos ≡ true
    → get (put_child n (count_from (external n) pos) c) (pos ∷ ds) p ≡ get c ds p
unfolding IsPacked under
put_child_self (mb_node e i rs cs) c pos p ds w b =
    get-under (put_child (mb_node e i rs cs) (count_from e pos) c) pos p ds
    ∙ ap (under ds p) (
        ap (λ xs. packed e xs pos) (to_list-from_list (set (to_list cs) (count_from e pos - 1) c))
        ∙ packed-set_self e (to_list cs) pos c (omega (arith, w.3)) b)

pub put_child-ne :
    (n c : MbNode) (pos d p : ℕ) (ds : List ℕ)
    → vec_bt (external n) pos ≡ true
    → d ≢ pos
    → get (put_child n (count_from (external n) pos) c) (d ∷ ds) p ≡ get n (d ∷ ds) p
unfolding under
put_child-ne (mb_node e i rs cs) c pos d p ds b ne =
    get-under (put_child (mb_node e i rs cs) (count_from e pos) c) d p ds
    ∙ ap (under ds p) (
        ap (λ xs. packed e xs d) (to_list-from_list (set (to_list cs) (count_from e pos - 1) c))
        ∙ packed-set_ne e (to_list cs) pos d c b ne)
    ∙ sym (get-under (mb_node e i rs cs) d p ds)

pub put_child-root : (n c : MbNode) (k p : ℕ) → get (put_child n k c) [] p ≡ get n [] p
unfolding get
put_child-root (mb_node e i rs cs) c k p = refl

pub put_child-IsPacked :
    (n c : MbNode) (k : ℕ) → IsPacked n → IsPacked c → IsPacked (put_child n k c)
unfolding IsPacked
put_child-IsPacked (mb_node e i rs cs) c k w u =
    let f = ap length (to_list-from_list (set (to_list cs) (k - 1) c)) in
    let l = length-set (to_list cs) (k - 1) c in
    (
      w.0,
      w.1,
      w.2,
      omega (arith, w.3),
      from_list-AllPacked (set (to_list cs) (k - 1) c)
          (Each-set (to_list cs) (k - 1) c (to_list-Each cs w.4) u),
    )
