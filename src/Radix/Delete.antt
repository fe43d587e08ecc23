-- ===== src/Radix/Delete.antt =====
-- `radix_tree_delete` and `_shrink` of modified_radix_tree/radix.c.
use poptrie_project.Base.{
  ℕ, zero, suc, ◌+◌, ◌*◌, ◌≤◌, ◌≡◌, ◌≢◌, refl, ap, Bool, true, false, not, ◌||◌, Option, none, some,
  List, [], ◌∷◌, arith, length, get_or_else,
}
use poptrie_project.Trie.{Trie, nil, node, bits, table}
use poptrie_project.Radix.{
  Cell, RadixTree, null, is_nil, shrink, remove, delete_child, delete_from, delete,
}
use poptrie_project.Radix.Lookup.{key_bit, entry, bit_test-lt}

eq-nil : (t : Trie Cell) → is_nil t ≡ true → t ≡ nil
unfolding is_nil
eq-nil nil e = refl
eq-nil (node c l r) e = cc

-- Shrinking loses no entry of the routing table.
pub table-shrink : (t : Trie Cell) (q : List Bool) → table entry (shrink t).0 q ≡ table entry t q
unfolding shrink
table-shrink nil q = refl
table-shrink (node c l r) [] = ground (arith, eq-nil (shrink l).0, eq-nil (shrink r).0)
table-shrink (node c l r) (true ∷ q) = ground (arith, table-shrink r q, eq-nil (shrink r).0)
table-shrink (node c l r) (false ∷ q) = ground (arith, table-shrink l q, eq-nil (shrink l).0)

-- No node without children is without an entry.
abbrev pub IsCompact : Trie Cell → Type 0
IsCompact nil = Unit
IsCompact (node c l r) =
    ((c.valid || not (is_nil l) || not (is_nil r)) ≡ true) × IsCompact l × IsCompact r

-- A shrunk tree is compact, and the value returned says whether a node is left.
no_loose_nodes :
    (t : Trie Cell) → IsCompact (shrink t).0 × ((shrink t).1 ≡ not (is_nil (shrink t).0))
unfolding shrink is_nil
no_loose_nodes nil = (tt, refl)
no_loose_nodes (node c l r) = ground (arith, no_loose_nodes l, no_loose_nodes r)

-- Shrinking leaves no node without an entry and without children, says whether a node is left, and
-- keeps every entry of the routing table.
pub shrink-IsCompact :
    (t : Trie Cell)
    → IsCompact (shrink t).0
      × ((shrink t).1 ≡ not (is_nil (shrink t).0))
      × ((q : List Bool) → table entry (shrink t).0 q ≡ table entry t q)
shrink-IsCompact t = ((no_loose_nodes t).0, (no_loose_nodes t).1, table-shrink t)

-- What a deletion at `p` does to a table: the data is handed back, the prefix has no value
-- afterwards, and no other prefix is touched.
pub record Removes (p : List Bool) (out : ℕ) (t t' : Trie Cell) : Type 0 where
  pub returned : out ≡ get_or_else (table entry t p) null
  pub removed : table entry t' p ≡ none
  pub others : (q : List Bool) → q ≢ p → table entry t' q ≡ table entry t q

remove-Removes :
    (c : Cell) (l r : Trie Cell) → Removes [] (remove c l r).0 (node c l r) (remove c l r).1
unfolding remove
remove-Removes c l r = record {
  returned = ground arith;
  removed = ground (arith, table-shrink (node cleared l r) []);
  others = others;
}
  where
    cleared : Cell
    cleared = record { valid = false; value = null }

    others : (q : List Bool) → q ≢ [] → table entry (remove c l r).1 q ≡ table entry (node c l r) q
    others [] ne = absurd (ne refl)
    others (true ∷ q) ne = ground (arith, table-shrink (node cleared l r) (true ∷ q))
    others (false ∷ q) ne = ground (arith, table-shrink (node cleared l r) (false ∷ q))

-- The entry that `delete_from` is asked for is removed below a node on its side.
child_others_right :
    {p : List Bool} {out : ℕ} (c : Cell) (l r r' : Trie Cell)
    → Removes p out r r'
    → Removes (true ∷ p) out (node c l r) (node c l r')
child_others_right {p} c l r r' a = record {
  returned = a.returned;
  removed = a.removed;
  others = at_child;
}
  where
    at_child :
        (q : List Bool) → q ≢ true ∷ p → table entry (node c l r') q ≡ table entry (node c l r) q
    at_child [] ne = refl
    at_child (true ∷ q) ne = a.others q (λ e. ne (ap (λ x. true ∷ x) e))
    at_child (false ∷ q) ne = refl

child_others_left :
    {p : List Bool} {out : ℕ} (c : Cell) (l l' r : Trie Cell)
    → Removes p out l l'
    → Removes (false ∷ p) out (node c l r) (node c l' r)
child_others_left {p} c l l' r a = record {
  returned = a.returned;
  removed = a.removed;
  others = at_child;
}
  where
    at_child :
        (q : List Bool) → q ≢ false ∷ p → table entry (node c l' r) q ≡ table entry (node c l r) q
    at_child [] ne = refl
    at_child (false ∷ q) ne = a.others q (λ e. ne (ap (λ x. false ∷ x) e))
    at_child (true ∷ q) ne = refl

-- The outcome of a deletion: it returns, with the entry removed.
abbrev pub Deletes : List Bool → Trie Cell → Option (ℕ × Trie Cell) → Type 0
Deletes p t o = (out : ℕ) × (t' : Trie Cell) × (o ≡ some (out, t')) × Removes p out t t'

delete_child-Deletes :
    (b : Bool) (c : Cell) (l r : Trie Cell) (call : Trie Cell → Option (ℕ × Trie Cell))
    (p : List Bool)
    → ((u : Trie Cell) → Deletes p u (call u))
    → Deletes (b ∷ p) (node c l r) (delete_child (some b) c l r call)
unfolding delete_child
delete_child-Deletes true c l r call p h =
    let (out, r', e, a) = h r in (out, node c l r', rw e, child_others_right c l r r' a)
delete_child-Deletes false c l r call p h =
    let (out, l', e, a) = h l in (out, node c l' r, rw e, child_others_left c l l' r a)

delete_from-Deletes :
    (rest : ℕ) (t : Trie Cell) (key : List ℕ) (depth : ℕ)
    → depth + rest ≤ 8 * length key
    → Deletes (bits (key_bit key) depth rest) t (delete_from rest t key depth)
unfolding delete_from
delete_from-Deletes zero nil key depth h =
    (null, nil, refl, record { returned = refl; removed = refl; others = λ q ne. refl })
delete_from-Deletes (suc rest) nil key depth h =
    (null, nil, refl, record { returned = refl; removed = refl; others = λ q ne. refl })
delete_from-Deletes zero (node c l r) key depth h =
    ((remove c l r).0, (remove c l r).1, refl, remove-Removes c l r)
delete_from-Deletes (suc rest) (node c l r) key depth h = rw (bit_test-lt key depth (omega arith)) (
    delete_child-Deletes (key_bit key depth) c l r _ _
      (λ u. delete_from-Deletes rest u key (suc depth) (omega arith)))

-- The deletion of a prefix that lies inside the key returns what was stored there, or `NULL`;
-- the prefix has no entry afterwards, and every other prefix keeps its entry.
pub delete-Removes :
    (rt : RadixTree) (key : List ℕ) (prefixlen : ℕ)
    → prefixlen ≤ 8 * length key
    → (out : ℕ) × (rt' : RadixTree) × (delete rt key prefixlen ≡ some (out, rt'))
      × Removes (bits (key_bit key) 0 prefixlen) out rt.root rt'.root
unfolding delete
delete-Removes rt key prefixlen h =
    let (out, t', e, a) = delete_from-Deletes prefixlen rt.root key 0 (omega arith) in
    (out, record rt { root = t' }, rw (delete, e), a)
