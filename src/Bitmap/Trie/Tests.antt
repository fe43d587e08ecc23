-- ===== src/Bitmap/Trie/Tests.antt =====
-- Runs of the tree bitmap of modified_tree_bitmap/, and the theorems at concrete inputs.
use poptrie_project.Base.{
  ℕ, zero, suc, ◌≡◌, refl, subst, some_eq, true, false, none, some, [], ◌∷◌, arith, get_elem?,
  get_or_else, if◌then◌else◌,
}
use poptrie_project.Vec.{zeros, vec_set}
use poptrie_project.Bitmap.{
  MbNode, empty, stride_bits, tree_loop, tree_function, extend_child, extend_rule,
}
use poptrie_project.Bitmap.Fast.{tree_function-tree_loop}
use poptrie_project.Bitmap.Entry.{Shifts, insert_entry, delete_entry, do_search, do_search_lazy}
use poptrie_project.Bitmap.Entry.Table.{get, IsPacked, empty-IsPacked}
use poptrie_project.Bitmap.Entry.Insert.{
  strides, place, HasStrides, insert_entry-IsPacked, insert_entry_self,
}
use poptrie_project.Bitmap.Entry.Key.{is_key, insert_entry-get, delete_entry-get}
use poptrie_project.Bitmap.Entry.Lazy.{do_search_lazy-do_search}
use poptrie_project.Bitmap.Entry.Depth.{depth}
use poptrie_project.Bitmap.Entry.Search.{longest_match, do_search-longest_match}
use poptrie_project.Bitmap.Trie.{
  Family, InitNode, node, node_of, clear_entry, clear_entries, LookupTrie, insert_prefix,
  delete_prefix, prefix_in_trie, search_trie,
}
use poptrie_project.Bitmap.Trie.Versions.{v4, shifts_v4, v6, shifts_v6, IpV6}
use poptrie_project.Bitmap.Trie.Laws.{
  prefix_in_trie-insert_delete, IsTrie, insert_prefix-IsTrie, search_trie-longest_match,
  search_trie-insert_prefix, clear-IsTrie,
}

-- A shift by the whole width leaves an address.
abbrev m4 : Family ℕ
m4 = v4 (λ ip. ip)

abbrev s4 : Shifts ℕ
s4 = shifts_v4 (λ ip. ip)

abbrev m6 : Family IpV6
m6 = v6 (λ ip. ip)

s4-HasStrides : HasStrides s4
s4-HasStrides ip = omega arith

s6-HasStrides : HasStrides (shifts_v6 (λ ip. ip))
s6-HasStrides ip = omega arith

tree_function-tree_loop_example :
    tree_function (vec_set (vec_set (zeros 64) 0) 2) 0x3f
    ≡ tree_loop stride_bits (vec_set (vec_set (zeros 64) 0) 2) 0x3f
tree_function-tree_loop_example =
    tree_function-tree_loop (vec_set (vec_set (zeros 64) 0) 2) 0x3f (omega arith)

tree_function_run : tree_function (vec_set (vec_set (zeros 64) 0) 2) 0x3f ≡ some 2
unfolding tree_function
tree_function_run = refl

-- The prefix 168.0.0.0/8 with the next hop 7.
abbrev ip8 : ℕ
ip8 = 0xa8000000

one_prefix : MbNode
unfolding insert_entry
one_prefix = insert_entry s4 1 2 empty ip8 7

one_prefix-IsPacked : IsPacked one_prefix
unfolding one_prefix
one_prefix-IsPacked =
    insert_entry-IsPacked s4 1 2 empty ip8 7 s4-HasStrides (omega arith) empty-IsPacked

has_it : get one_prefix (strides s4 1 ip8) (place s4 1 2 ip8) ≡ some 7
unfolding one_prefix
has_it = insert_entry_self s4 1 2 empty ip8 7 s4-HasStrides (omega arith) empty-IsPacked

insert_entry-get_example :
    get (insert_entry s4 0 3 one_prefix 0x40000000 9) (42 ∷ []) 3
    ≡ (if is_key s4 0 3 0x40000000 (42 ∷ []) 3 then some 9 else get one_prefix (42 ∷ []) 3)
insert_entry-get_example =
    insert_entry-get s4 0 3 one_prefix 0x40000000 9 (42 ∷ []) 3 s4-HasStrides (omega arith)
      one_prefix-IsPacked

height : depth one_prefix ≡ 2
unfolding depth one_prefix extend_child extend_rule
height = refl

do_search_run : do_search s4 5 one_prefix 0xa8123456 none ≡ some 7
unfolding do_search one_prefix tree_function extend_child extend_rule
do_search_run = refl

do_search-longest_match_example :
    do_search s4 5 one_prefix 0xa8123456 none ≡ longest_match s4 4 (get one_prefix) 0xa8123456
do_search-longest_match_example =
    do_search-longest_match s4 4 one_prefix 0xa8123456 s4-HasStrides one_prefix-IsPacked
      (omega (arith, height))

do_search_lazy-do_search_example :
    do_search_lazy s4 5 5 one_prefix 0xa8123456 [] ≡ do_search s4 5 one_prefix 0xa8123456 none
do_search_lazy-do_search_example =
    do_search_lazy-do_search s4 5 5 one_prefix 0xa8123456 (omega (arith, height))

delete_entry-get_example :
    get (delete_entry s4 1 2 one_prefix ip8 true).node (42 ∷ []) 3
    ≡ (if is_key s4 1 2 ip8 (42 ∷ []) 3 then none else get one_prefix (42 ∷ []) 3)
delete_entry-get_example =
    delete_entry-get s4 1 2 one_prefix ip8 true 7 (42 ∷ []) 3 one_prefix-IsPacked has_it

-- The first four entries of the table.
abbrev start : LookupTrie
start = record { init = clear_entries 4; up_aux = empty }

-- The prefix 0.8.0.0/14, which stands in the trie of the entry 1.
abbrev ip14 : ℕ
ip14 = 0x00080000

insert_prefix-IsTrie_example : IsTrie m4 (insert_prefix m4 start ip14 14 5)
insert_prefix-IsTrie_example =
    insert_prefix-IsTrie m4 start ip14 14 5 s4-HasStrides (omega arith) (omega arith) (omega arith)
      (clear-IsTrie m4 4)

prefix_in_trie-insert_delete_example :
    (prefix_in_trie m4 (insert_prefix m4 start ip14 14 5) ip14 14 ≡ true)
    × (prefix_in_trie m4 (delete_prefix m4 (insert_prefix m4 start ip14 14 5) ip14 14 true) ip14 14
        ≡ false)
prefix_in_trie-insert_delete_example =
    prefix_in_trie-insert_delete m4 start ip14 14 5 true s4-HasStrides (omega arith) empty-IsPacked
      (omega arith)

search_trie-insert_prefix_example : search_trie m4 (insert_prefix m4 start ip14 13 6) 0x000abcde ≡ 6
search_trie-insert_prefix_example =
    search_trie-insert_prefix m4 start ip14 0x000abcde 13 6 clear_entry (omega arith) (omega arith)
      (omega arith) (omega arith) refl refl (omega arith)

-- A table whose entry 1 has the trie with one prefix.
abbrev with_child : LookupTrie
with_child = record {
  init =
      clear_entry
      ∷ record { prefix_hi = 0; has_a_child = true; has_a_next = false; e = node one_prefix }
      ∷ [];
  up_aux = empty;
}

with_child-IsTrie : IsTrie m4 with_child
unfolding IsTrie
with_child-IsTrie = (entries, empty-IsPacked)
  where
    entries : (i : ℕ) (n : InitNode) → get_elem? with_child.init i ≡ some n → IsPacked (node_of n.e)
    entries zero n e = subst (λ (t : InitNode). IsPacked (node_of t.e)) (some_eq e) empty-IsPacked
    entries (suc zero) n e =
        subst (λ (t : InitNode). IsPacked (node_of t.e)) (some_eq e) one_prefix-IsPacked
    entries (suc (suc i)) n e = absurd (grind arith)

search_trie-longest_match_example :
    search_trie m4 with_child 0x000d4000
    ≡ get_or_else (longest_match s4 4 (get one_prefix) (s4.shift 0x000d4000 13)) 0
search_trie-longest_match_example =
    search_trie-longest_match m4 with_child 0x000d4000
      (record { prefix_hi = 0; has_a_child = true; has_a_next = false; e = node one_prefix }) 4
      s4-HasStrides with_child-IsTrie refl refl refl (omega (arith, height))
