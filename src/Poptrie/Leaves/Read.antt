-- ===== src/Poptrie/Leaves/Read.antt =====
-- The leaf compression of `_update_inode` is lossless: what the lookup's `POPCNT_LS` reads for an
-- entry is the leaf that the loop met there.
use poptrie_project.Base.{
  ℕ, zero, suc, ◌+◌, ◌-◌, ◌<◌, ◌≤◌, ◌≡◌, ◌≢◌, refl, ◌∙◌, sym, ap, true, false, Option, none, some,
  List, [], ◌∷◌, ◌++◌, arith, length, get_elem?, inl, inr, Bool-cases, length-set, some_eq, subst,
  length-append, get_elem?-append_left, get_elem?-append_last,
}
use poptrie_project.Vec.{vec_init, vec_bt, vec_set, popcnt_ls}
use poptrie_project.Vec.Count.{
  vec_bt-zeros, popcnt_ls-zeros, popcnt_ls-vec_set, popcnt_ls-vec_set_lt, vec_bt-vec_set_ne,
}
use poptrie_project.Poptrie.Leaves.{
  Item, inner, leaf, Run, same_hop, push_leaf, compress_from, compress,
}

-- The leaf of an item.
abbrev leaf_of : Item → Option ℕ
leaf_of inner = none
leaf_of (leaf hop) = some hop

inner_ne : {hop : ℕ} → inner ≢ leaf hop
inner_ne e = absurd (grind arith)

leaf_eq : {a b : ℕ} → leaf a ≡ leaf b → a ≡ b
leaf_eq e = some_eq (ap leaf_of e)

single_elem : {x y : ℕ} (i : ℕ) → get_elem? (x ∷ []) i ≡ some y → y ≡ x
single_elem zero e = sym (some_eq e)
single_elem (suc i) e = absurd (grind arith)

-- The state of the loop before entry i: the bits from i on are clear, the ones are as many as
-- the leaves, and `prev` is the last leaf.
pub record IsRun (i : ℕ) (r : Run) : Type 0 where
  pub size : length r.leafvec ≡ 64
  pub clear : (j : ℕ) → i ≤ j → vec_bt r.leafvec j ≡ false
  pub total : (j : ℕ) → i ≤ suc j → popcnt_ls r.leafvec j ≡ length r.leaves
  pub last :
      (p : ℕ)
      → r.prev ≡ some p
      → (1 ≤ length r.leaves) × (get_elem? r.leaves (length r.leaves - 1) ≡ some p)

-- The lookup reads `hop` for entry j.
abbrev pub Reads : Run → ℕ → ℕ → Type 0
Reads r j hop =
    (1 ≤ popcnt_ls r.leafvec j) × (get_elem? r.leaves (popcnt_ls r.leafvec j - 1) ≡ some hop)

IsRun-suc : (i : ℕ) (r : Run) → IsRun i r → IsRun (suc i) r
IsRun-suc i r w = record {
  size = w.size;
  clear = λ j le. w.clear j (omega arith);
  total = λ j le. w.total j (omega arith);
  last = w.last;
}

same_hop-true : (o : Option ℕ) (hop : ℕ) → same_hop o hop ≡ true → o ≡ some hop
same_hop-true none hop h = absurd (grind arith)
same_hop-true (some p) hop h = ap some (ground arith)

-- Appending a leaf and setting its bit keeps the state.
IsRun-append :
    (i : ℕ) (r : Run) (hop : ℕ)
    → i < 64
    → IsRun i r
    → IsRun
        (suc i)
        (record { leafvec = vec_set r.leafvec i; leaves = r.leaves ++ hop ∷ []; prev = some hop })
IsRun-append i r hop lt w =
    let size' : length (vec_set r.leafvec i) ≡ 64 = length-set r.leafvec i true ∙ w.size in
    let len = length-append r.leaves (hop ∷ []) in
    record {
      size = size';
      clear = λ j le. vec_bt-vec_set_ne r.leafvec i j (omega arith) ∙ w.clear j (omega arith);
      total = λ j le.
          let c =
            popcnt_ls-vec_set r.leafvec i j (omega arith) (w.clear i (omega arith)) (omega arith) in
          let t = w.total j (omega arith) in omega arith;
      last = λ p e.
          let eq = some_eq e in
          let k : length (r.leaves ++ hop ∷ []) - 1 ≡ length r.leaves = omega arith in
          (
            omega arith,
            ap (get_elem? (r.leaves ++ hop ∷ [])) k ∙ get_elem?-append_last r.leaves hop ∙ e,
          );
    }

IsRun-push_leaf :
    (i : ℕ) (r : Run) (hop : ℕ) → i < 64 → IsRun i r → IsRun (suc i) (push_leaf r i hop)
unfolding push_leaf
IsRun-push_leaf i r hop lt w = elim (Bool-cases (same_hop r.prev hop)) [
  | inl e ↦ rw (e) (
      IsRun-suc i (record r { prev = some hop })
        (record {
          size = w.size;
          clear = w.clear;
          total = w.total;
          last = λ p q. w.last p (same_hop-true r.prev hop e ∙ q);
        }))
  | inr e ↦ rw (e) (IsRun-append i r hop lt w)
]

prev-push_leaf : (r : Run) (i hop : ℕ) → (push_leaf r i hop).prev ≡ some hop
unfolding push_leaf
prev-push_leaf r i hop = ground arith

-- The entry just met reads as its leaf.
push_leaf-Reads : (i : ℕ) (r : Run) (hop : ℕ) → IsRun (suc i) r → r.prev ≡ some hop → Reads r i hop
push_leaf-Reads i r hop w e =
    let t = w.total i (omega arith) in
    let (pos, l) = w.last hop e in (omega arith, ap (λ n. get_elem? r.leaves (n - 1)) t ∙ l)

-- The entries before it read as they did.
Reads-push_leaf :
    (i j : ℕ) (r : Run) (hop h : ℕ) → j < i → Reads r j h → Reads (push_leaf r i hop) j h
unfolding push_leaf
Reads-push_leaf i j r hop h lt (pos, e) = elim (Bool-cases (same_hop r.prev hop)) [
  | inl s ↦ rw (s) (pos, e)
  | inr s ↦
      let c = popcnt_ls-vec_set_lt r.leafvec i j lt in
      rw (s, c) (pos, get_elem?-append_left r.leaves (hop ∷ []) (popcnt_ls r.leafvec j - 1) h e)
]

pub IsRun-compress_from :
    (items : List Item) (i : ℕ) (r : Run)
    → i + length items ≤ 64
    → IsRun i r
    → IsRun (i + length items) (compress_from i r items)
unfolding compress_from
IsRun-compress_from [] i r le w = subst (λ n. IsRun n r) (omega arith) w
IsRun-compress_from (inner ∷ items) i r le w =
    subst (λ n. IsRun n (compress_from (suc i) r items)) (omega arith)
      (IsRun-compress_from items (suc i) r (omega arith) (IsRun-suc i r w))
IsRun-compress_from (leaf hop ∷ items) i r le w =
    subst (λ n. IsRun n (compress_from (suc i) (push_leaf r i hop) items)) (omega arith)
      (IsRun-compress_from items (suc i) (push_leaf r i hop) (omega arith)
        (IsRun-push_leaf i r hop (omega arith) w))

Reads-compress_from :
    (items : List Item) (i j : ℕ) (r : Run) (h : ℕ)
    → j < i
    → Reads r j h
    → Reads (compress_from i r items) j h
unfolding compress_from
Reads-compress_from [] i j r h lt w = w
Reads-compress_from (inner ∷ items) i j r h lt w =
    Reads-compress_from items (suc i) j r h (omega arith) w
Reads-compress_from (leaf hop ∷ items) i j r h lt w =
    Reads-compress_from items (suc i) j (push_leaf r i hop) h (omega arith)
      (Reads-push_leaf i j r hop h lt w)

compress_from-Reads :
    (items : List Item) (i k : ℕ) (r : Run) (h : ℕ)
    → i + length items ≤ 64
    → IsRun i r
    → get_elem? items k ≡ some (leaf h)
    → Reads (compress_from i r items) (i + k) h
unfolding compress_from
compress_from-Reads [] i k r h le w e = absurd (grind arith)
compress_from-Reads (inner ∷ items) i zero r h le w e = absurd (inner_ne (some_eq e))
compress_from-Reads (leaf hop ∷ items) i zero r h le w e =
    let w' = IsRun-push_leaf i r hop (omega arith) w in
    let q : hop ≡ h = leaf_eq (some_eq e) in
    let now = push_leaf-Reads i (push_leaf r i hop) hop w' (prev-push_leaf r i hop) in
    let later = Reads-compress_from items (suc i) i (push_leaf r i hop) hop (omega arith) now in
    subst (λ n. Reads (compress_from (suc i) (push_leaf r i hop) items) n h) (omega arith)
      (subst (Reads (compress_from (suc i) (push_leaf r i hop) items) i) q later)
compress_from-Reads (inner ∷ items) i (suc k) r h le w e =
    subst (λ n. Reads (compress_from (suc i) r items) n h) (omega arith)
      (compress_from-Reads items (suc i) k r h (omega arith) (IsRun-suc i r w) e)
compress_from-Reads (leaf hop ∷ items) i (suc k) r h le w e =
    subst (λ n. Reads (compress_from (suc i) (push_leaf r i hop) items) n h) (omega arith)
      (compress_from-Reads items (suc i) k (push_leaf r i hop) h (omega arith)
        (IsRun-push_leaf i r hop (omega arith) w) e)

IsRun-empty : IsRun 0 (record { leafvec = vec_init; leaves = []; prev = none })
IsRun-empty = record {
  size = refl;
  clear = λ j le. vec_bt-zeros 64 j;
  total = λ j le. popcnt_ls-zeros 64 j;
  last = λ p e. absurd (grind arith);
}

-- Every leaf among at most 64 entries is the one that counting the bits of `leafvec` up to the
-- entry's index finds in the compressed array.
pub compress-Reads :
    (items : List Item) (j hop : ℕ)
    → length items ≤ 64
    → get_elem? items j ≡ some (leaf hop)
    → Reads (compress items) j hop
unfolding compress
compress-Reads items j hop le e =
    let start : Run = record { leafvec = vec_init; leaves = []; prev = none } in
    subst (λ n. Reads (compress_from 0 start items) n hop) (omega arith)
      (compress_from-Reads items 0 j start hop (omega arith) IsRun-empty e)

-- The bits that the loop sets are as many as the leaves that it appends.
pub compress-length :
    (items : List Item)
    → length items ≤ 64
    → popcnt_ls (compress items).leafvec 63 ≡ length (compress items).leaves
unfolding compress
compress-length items le =
    let start : Run = record { leafvec = vec_init; leaves = []; prev = none } in
    (IsRun-compress_from items 0 start (omega arith) IsRun-empty).total 63 (omega arith)

-- Where the loop appended one leaf alone, every leaf that it met is this one.
pub compress_single :
    (items : List Item) (j hop x : ℕ)
    → length items ≤ 64
    → (compress items).leaves ≡ x ∷ []
    → get_elem? items j ≡ some (leaf hop)
    → hop ≡ x
compress_single items j hop x le single e =
    let (pos, reads) = compress-Reads items j hop le e in
    single_elem (popcnt_ls (compress items).leafvec j - 1)
      (ap (λ xs. get_elem? xs (popcnt_ls (compress items).leafvec j - 1)) (sym single) ∙ reads)
