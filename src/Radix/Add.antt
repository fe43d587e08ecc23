-- ===== src/Radix/Add.antt =====
-- `radix_tree_add` of modified_radix_tree/radix.c: what it does to the routing table.
use poptrie_project.Base.{
  ℕ, zero, suc, ◌+◌, ◌*◌, ◌≤◌, ◌<◌, ◌≡◌, ◌≢◌, refl, ◌∙◌, ap, Bool, true, false, some, List, [], ◌∷◌,
  arith, length, get_or_else, Option-cases, inl, inr,
}
use poptrie_project.Trie.{Trie, nil, node, bits, table}
use poptrie_project.Radix.{
  Cell, RadixTree, Status, ok, err, Slot, alloc, place, into_child, add_from, add,
}
use poptrie_project.Radix.Lookup.{key_bit, entry, bit_test-lt}

-- A slot holds the table of the subtree that it was made for.
alloc-table :
    (t : Trie Cell) (mem bytes : ℕ) {s : Slot}
    → alloc t mem bytes ≡ some s
    → (q : List Bool) → table entry (node s.cell s.left s.right) q ≡ table entry t q
unfolding alloc
alloc-table nil zero bytes e q = cc
alloc-table nil (suc mem) bytes e [] = ground arith
alloc-table nil (suc mem) bytes e (true ∷ q) = ground arith
alloc-table nil (suc mem) bytes e (false ∷ q) = ground arith
alloc-table (node c l r) mem bytes e [] = ground arith
alloc-table (node c l r) mem bytes e (true ∷ q) = ground arith
alloc-table (node c l r) mem bytes e (false ∷ q) = ground arith

-- What an insertion of `value` at `p` does to a table: the prefix has a value afterwards, the
-- old one if it had one, and no other prefix is touched; a failed one changes nothing.
pub record Adds (st : Status) (p : List Bool) (value : ℕ) (t t' : Trie Cell) : Type 0 where
  pub stored : st ≡ ok → table entry t' p ≡ some (get_or_else (table entry t p) value)
  pub failed : st ≢ ok → table entry t' p ≡ table entry t p
  pub others : (q : List Bool) → q ≢ p → table entry t' q ≡ table entry t q

Adds-right :
    {st : Status} {p : List Bool} {value : ℕ} (c : Cell) (l r r' : Trie Cell)
    → Adds st p value r r'
    → Adds st (true ∷ p) value (node c l r) (node c l r')
Adds-right {p = p} c l r r' a = record { stored = a.stored; failed = a.failed; others = at_child }
  where
    at_child :
        (q : List Bool) → q ≢ true ∷ p → table entry (node c l r') q ≡ table entry (node c l r) q
    at_child [] ne = refl
    at_child (true ∷ q) ne = a.others q (λ e. ne (ap (λ x. true ∷ x) e))
    at_child (false ∷ q) ne = refl

Adds-left :
    {st : Status} {p : List Bool} {value : ℕ} (c : Cell) (l l' r : Trie Cell)
    → Adds st p value l l'
    → Adds st (false ∷ p) value (node c l r) (node c l' r)
Adds-left {p = p} c l l' r a = record { stored = a.stored; failed = a.failed; others = at_child }
  where
    at_child :
        (q : List Bool) → q ≢ false ∷ p → table entry (node c l' r) q ≡ table entry (node c l r) q
    at_child [] ne = refl
    at_child (false ∷ q) ne = a.others q (λ e. ne (ap (λ x. false ∷ x) e))
    at_child (true ∷ q) ne = refl

-- An insertion that starts from the slot of a subtree starts from the subtree.
Adds-slot :
    {st : Status} {p : List Bool} {value : ℕ} (t t' u : Trie Cell)
    → ((q : List Bool) → table entry u q ≡ table entry t q)
    → Adds st p value u t'
    → Adds st p value t t'
Adds-slot {p = p} t t' u same a = record {
  stored = λ e. ground (arith, a.stored e, same p);
  failed = λ ne. a.failed ne ∙ same p;
  others = λ q ne. a.others q ne ∙ same q;
}

place-Adds :
    (s : Slot) (value : ℕ)
    → Adds (place s value).0 [] value (node s.cell s.left s.right) (place s value).1
unfolding place
place-Adds s value = record {
  stored = λ e. ground arith;
  failed = λ ne. ground arith;
  others = others;
}
  where
    others :
        (q : List Bool)
        → q ≢ []
        → table entry (place s value).1 q ≡ table entry (node s.cell s.left s.right) q
    others [] ne = absurd (ne refl)
    others (true ∷ q) ne = ground arith
    others (false ∷ q) ne = ground arith

Adds-refl :
    (st : Status) (p : List Bool) (value : ℕ) (t : Trie Cell) → st ≢ ok → Adds st p value t t
Adds-refl st p value t ne = record {
  stored = λ e. absurd (ne e);
  failed = λ _. refl;
  others = λ q _. refl;
}

into_child-Adds :
    (b : Bool) (s : Slot) (call : Trie Cell → Status × Trie Cell × ℕ) (p : List Bool) (value : ℕ)
    → ((u : Trie Cell) → Adds (call u).0 p value u (call u).1)
    → let (st, t', by) = into_child (some b) s call in
      Adds st (b ∷ p) value (node s.cell s.left s.right) t'
unfolding into_child
into_child-Adds true s call p value h = Adds-right s.cell s.left s.right _ (h s.right)
into_child-Adds false s call p value h = Adds-left s.cell s.left _ s.right (h s.left)

add_from-Adds :
    (rest mem bytes : ℕ) (t : Trie Cell) (key : List ℕ) (value depth : ℕ)
    → depth + rest ≤ 8 * length key
    → let (st, t', by) = add_from rest mem bytes t key value depth in
      Adds st (bits (key_bit key) depth rest) value t t'
unfolding add_from
add_from-Adds zero mem bytes t key value depth h = elim (Option-cases (alloc t mem bytes)) [
  | inl e ↦ rw (add_from, e) (Adds-refl err _ value t (ground arith))
  | inr (s, e) ↦ rw (add_from, e) (Adds-slot t _ _ (alloc-table t mem bytes e) (place-Adds s value))
]
add_from-Adds (suc rest) mem bytes t key value depth h = elim (Option-cases (alloc t mem bytes)) [
  | inl e ↦ rw (add_from, e) (Adds-refl err _ value t (ground arith))
  | inr (s, e) ↦
      rw (add_from, e, bit_test-lt key depth (omega arith))
        (Adds-slot t _ _ (alloc-table t mem bytes e) (
          into_child-Adds (key_bit key depth) s _ _ value
            (λ u. add_from-Adds rest s.mem s.bytes u key value (suc depth) (omega arith))))
]

-- A prefix that lies inside the key is inserted into the routing table: on success the prefix has
-- a value, which is the old one if it was stored before, on failure the prefix keeps what it had,
-- and on either outcome no other prefix changes.
pub add-Adds :
    (mem : ℕ) (rt : RadixTree) (key : List ℕ) (prefixlen value : ℕ)
    → prefixlen ≤ 8 * length key
    → Adds
        (add mem rt key prefixlen value).0
        (bits (key_bit key) 0 prefixlen)
        value
        rt.root
        (add mem rt key prefixlen value).1.root
unfolding add
add-Adds mem rt key prefixlen value h =
    add_from-Adds prefixlen mem rt.bytes rt.root key value 0 (omega arith)

into_child-status :
    (b : Bool) (s : Slot) (call : Trie Cell → Status × Trie Cell × ℕ) (st : Status)
    → ((u : Trie Cell) → (call u).0 ≡ st)
    → (into_child (some b) s call).0 ≡ st
unfolding into_child
into_child-status true s call st h = h s.right
into_child-status false s call st h = h s.left

add_from-ok :
    (rest mem bytes : ℕ) (t : Trie Cell) (key : List ℕ) (value depth : ℕ)
    → depth + rest ≤ 8 * length key
    → rest < mem
    → (add_from rest mem bytes t key value depth).0 ≡ ok
unfolding add_from alloc place
add_from-ok zero zero bytes t key value depth h lt = elim lt [ ]
add_from-ok zero (suc mem) bytes nil key value depth h lt = refl
add_from-ok zero (suc mem) bytes (node c l r) key value depth h lt = ground arith
add_from-ok (suc rest) zero bytes t key value depth h lt = elim lt [ ]
add_from-ok (suc rest) (suc mem) bytes nil key value depth h lt =
    rw (bit_test-lt key depth (omega arith)) (
      into_child-status (key_bit key depth) _ _ ok
        (λ u. add_from-ok rest mem _ u key value (suc depth) (omega arith) (omega arith)))
add_from-ok (suc rest) (suc mem) bytes (node c l r) key value depth h lt =
    rw (bit_test-lt key depth (omega arith)) (
      into_child-status (key_bit key depth) _ _ ok
        (λ u. add_from-ok rest (suc mem) _ u key value (suc depth) (omega arith) (omega arith)))

-- An insertion of a prefix inside the key succeeds if `malloc` can be called once for each level.
pub add-ok :
    (mem : ℕ) (rt : RadixTree) (key : List ℕ) (prefixlen value : ℕ)
    → prefixlen ≤ 8 * length key
    → prefixlen < mem
    → (add mem rt key prefixlen value).0 ≡ ok
unfolding add
add-ok mem rt key prefixlen value h lt =
    add_from-ok prefixlen mem rt.bytes rt.root key value 0 (omega arith) lt
