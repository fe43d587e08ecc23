-- ===== src/Bitmap/Entry/Drop.antt =====
-- What the rounds of `update_nodes` of modified_tree_bitmap/ do to the table of one node.
use poptrie_project.Base.{
  ℕ, zero, suc, ◌-◌, ◌≡◌, ◌≢◌, refl, ◌∙◌, sym, ap, Bool, true, false, Option, none, some, List, [],
  ◌∷◌, arith, length, set, Bool-cases, inl, inr, length-set, ◌==◌,
}
use poptrie_project.Vec.{Vec, vec_bt, vec_clear, popcnt, count_from}
use poptrie_project.Bitmap.Packed.{
  remove_at, packed, length-remove_at, popcnt-vec_clear, count_from-vec_bt, count_from-le,
}
use poptrie_project.Bitmap.Update.{packed-remove_at_self, packed-remove_at_ne, packed-set_ne}
use poptrie_project.Bitmap.{
  MbNode, mb_node, Nodes, external, internal, rules, children, to_list, from_list, reduce_rule,
  reduce_child,
}
use poptrie_project.Bitmap.Entry.{is_empty, Deleted, delete_rule, delete_child}
use poptrie_project.Bitmap.Entry.Table.{
  get, IsPacked, to_list-Each, from_list-AllPacked, to_list-from_list, Each-set, Each-remove_at,
}
use poptrie_project.Bitmap.Entry.Child.{
  under, get-under, put_child_self, put_child-ne, put_child-IsPacked,
}

popcnt-zero : (v : Vec) (i : ℕ) → popcnt v ≡ 0 → vec_bt v i ≡ false
popcnt-zero [] i e = refl
popcnt-zero (b ∷ v) zero e = ground arith
popcnt-zero (b ∷ v) (suc i) e = popcnt-zero v i (omega arith)

popcnt-vec_bt : (v : Vec) (i : ℕ) → vec_bt v i ≡ true → (popcnt v == 0) ≡ false
popcnt-vec_bt v i b = let p = count_from-vec_bt v i b in let q = count_from-le v i in ground arith

packed-zero_bits {ℓ} :
    {A : Type ℓ} (v : Vec) (xs : List A) (i : ℕ) → popcnt v ≡ 0 → packed v xs i ≡ none
packed-zero_bits v xs i e = rw (popcnt-zero v i e) refl

-- A node without bits has no rule.
pub get-is_empty : (n : MbNode) (q : List ℕ) (p : ℕ) → is_empty n ≡ true → get n q p ≡ none
unfolding get
get-is_empty n [] p e = packed-zero_bits (internal n) (rules n) p (ground arith)
get-is_empty n (d ∷ ds) p e =
    ap (λ (o : Option MbNode). elim o [ none ↦ none | some c ↦ get c ds p ])
      (packed-zero_bits (external n) (children n) d (ground arith))

pub delete_rule_self :
    (n : MbNode) (pos : ℕ) (f : Bool)
    → vec_bt (internal n) pos ≡ true
    → get (delete_rule n pos f).node [] pos ≡ none
unfolding delete_rule reduce_rule get
delete_rule_self (mb_node e i rs cs) pos f b =
    rw (popcnt-vec_bt i pos b) (packed-remove_at_self i (remove_at (count_from i pos - 1) rs) pos)

pub delete_rule-ne :
    (n : MbNode) (pos p : ℕ) (f : Bool)
    → vec_bt (internal n) pos ≡ true
    → p ≢ pos
    → get (delete_rule n pos f).node [] p ≡ get n [] p
unfolding delete_rule reduce_rule get
delete_rule-ne (mb_node e i rs cs) pos p f b ne =
    rw (popcnt-vec_bt i pos b) (packed-remove_at_ne i rs pos p b ne)

pub delete_rule-below :
    (n : MbNode) (pos d p : ℕ) (ds : List ℕ) (f : Bool)
    → vec_bt (internal n) pos ≡ true
    → get (delete_rule n pos f).node (d ∷ ds) p ≡ get n (d ∷ ds) p
unfolding delete_rule reduce_rule get
delete_rule-below (mb_node e i rs cs) pos d p ds f b = rw (popcnt-vec_bt i pos b) refl

pub delete_rule-IsPacked :
    (n : MbNode) (pos : ℕ) (f : Bool)
    → vec_bt (internal n) pos ≡ true
    → IsPacked n
    → IsPacked (delete_rule n pos f).node
unfolding delete_rule reduce_rule IsPacked
delete_rule-IsPacked (mb_node e i rs cs) pos f b w =
    let p = count_from-vec_bt i pos b in
    let q = count_from-le i pos in
    let l = length-remove_at (count_from i pos - 1) rs (omega (arith, w.2)) in
    let c = popcnt-vec_clear i pos b in
    rw (popcnt-vec_bt i pos b) (w.0, length-set i pos false ∙ w.1, omega (arith, w.2), w.3, w.4)

-- The children of a node that loses one.
abbrev dropped : Vec → Nodes → ℕ → MbNode → Nodes
dropped e cs pos c = from_list (
    remove_at (count_from e pos - 1)
      (to_list (from_list (set (to_list cs) (count_from e pos - 1) c))))

to_list-dropped :
    (e : Vec) (cs : Nodes) (pos : ℕ) (c : MbNode)
    → to_list (dropped e cs pos c)
      ≡ remove_at (count_from e pos - 1) (set (to_list cs) (count_from e pos - 1) c)
to_list-dropped e cs pos c =
    to_list-from_list (
      remove_at (count_from e pos - 1)
        (to_list (from_list (set (to_list cs) (count_from e pos - 1) c))))
    ∙ ap (remove_at (count_from e pos - 1))
        (to_list-from_list (set (to_list cs) (count_from e pos - 1) c))

packed-dropped :
    (e : Vec) (cs : Nodes) (pos d : ℕ) (c : MbNode)
    → vec_bt e pos ≡ true
    → d ≢ pos
    → packed (vec_clear e pos) (to_list (dropped e cs pos c)) d ≡ packed e (to_list cs) d
packed-dropped e cs pos d c b ne =
    ap (λ xs. packed (vec_clear e pos) xs d) (to_list-dropped e cs pos c)
    ∙ packed-remove_at_ne e (set (to_list cs) (count_from e pos - 1) c) pos d b ne
    ∙ packed-set_ne e (to_list cs) pos d c b ne

-- The path of the child reads what the round below leaves.
pub delete_child_self :
    (n : MbNode) (pos p : ℕ) (ds : List ℕ) (d : Deleted)
    → IsPacked n
    → vec_bt (external n) pos ≡ true
    → (d.node_need_to_del ≡ true → get d.node ds p ≡ none)
    → get (delete_child n pos d).node (pos ∷ ds) p ≡ get d.node ds p
unfolding delete_child reduce_child under
delete_child_self (mb_node e i rs cs) pos p ds d w b gone = elim (Bool-cases d.node_need_to_del) [
  | inr f ↦ rw (f) (put_child_self (mb_node e i rs cs) d.node pos p ds w b)
  | inl t ↦ rw (t) (
      get-under (mb_node (vec_clear e pos) i rs (dropped e cs pos d.node)) pos p ds
      ∙ ap (under ds p) (packed-remove_at_self e (to_list (dropped e cs pos d.node)) pos)
      ∙ sym (gone t))
]

pub delete_child-ne :
    (n : MbNode) (pos k p : ℕ) (ds : List ℕ) (d : Deleted)
    → vec_bt (external n) pos ≡ true
    → k ≢ pos
    → get (delete_child n pos d).node (k ∷ ds) p ≡ get n (k ∷ ds) p
unfolding delete_child reduce_child under
delete_child-ne (mb_node e i rs cs) pos k p ds d b ne = elim (Bool-cases d.node_need_to_del) [
  | inr f ↦ rw (f) (put_child-ne (mb_node e i rs cs) d.node pos k p ds b ne)
  | inl t ↦ rw (t) (
      get-under (mb_node (vec_clear e pos) i rs (dropped e cs pos d.node)) k p ds
      ∙ ap (under ds p) (packed-dropped e cs pos k d.node b ne)
      ∙ sym (get-under (mb_node e i rs cs) k p ds))
]

pub delete_child-root :
    (n : MbNode) (pos p : ℕ) (d : Deleted) → get (delete_child n pos d).node [] p ≡ get n [] p
unfolding delete_child reduce_child get
delete_child-root (mb_node e i rs cs) pos p d = elim (Bool-cases d.node_need_to_del) [
  | inr f ↦ rw (f) refl
  | inl t ↦ rw (t) refl
]

pub delete_child-IsPacked :
    (n : MbNode) (pos : ℕ) (d : Deleted)
    → vec_bt (external n) pos ≡ true
    → IsPacked n
    → IsPacked d.node
    → IsPacked (delete_child n pos d).node
unfolding delete_child reduce_child IsPacked
delete_child-IsPacked (mb_node e i rs cs) pos d b w u = elim (Bool-cases d.node_need_to_del) [
  | inr f ↦ rw (f) (put_child-IsPacked (mb_node e i rs cs) d.node (count_from e pos) w u)
  | inl t ↦
      let k : ℕ = count_from e pos - 1 in
      let changed : List MbNode = set (to_list cs) k d.node in
      let p = count_from-vec_bt e pos b in
      let q = count_from-le e pos in
      let s = length-set (to_list cs) k d.node in
      let l = length-remove_at k changed (omega (arith, w.3)) in
      let f = ap length (to_list-dropped e cs pos d.node) in
      let c = popcnt-vec_clear e pos b in
      let each = Each-remove_at k (to_list (from_list changed)) (
        to_list-Each (from_list changed)
          (from_list-AllPacked changed (Each-set (to_list cs) k d.node (to_list-Each cs w.4) u))) in
      rw (t) (
        length-set e pos false ∙ w.0,
        w.1,
        w.2,
        omega (arith, w.3),
        from_list-AllPacked (remove_at k (to_list (from_list changed))) each,
      )
]
