-- ===== src/Lib.antt =====
-- Verification of the poptrie project: IP lookup structures in C.
--
-- The repository keeps three structures for longest prefix match beside one another, to compare
-- them: a plain radix tree (modified_radix_tree/), the poptrie (modified_poptrie/) and the tree
-- bitmap (modified_tree_bitmap/); SAIL (modified_sail/) is C++. Modelled here:
--
-- Base: shared names, Boolean tests, lists and integers; no code.
-- Trie: binary tries, the shape of `struct radix_tree_node` and `struct radix_node`; the routing
-- table of a trie; Trie/Match: the specification of longest prefix match.
-- Radix: modified_radix_tree/radix.c, function by function (`_lookup` is lookup_from, `_add`
-- add_from, `_shrink` shrink, `_delete` delete_from, and the `radix_tree_` functions lookup, add,
-- delete, init, release). Radix/Lookup, Add, Delete, Bytes prove, Radix/Tests runs.
-- Fib: the FIB mapping table, `poptrie_fib_ref` and `poptrie_fib_deref` of
-- modified_poptrie/poptrie_private.h; Fib/Laws proves, Fib/Tests runs.
-- Rib: the radix tree of the poptrie (`struct radix_node`), the propagation of routes
-- (`poptrie_route_add_propagate` and its kin, `_clear_mark`) and the lookup `_rib_lookup`.
-- Rib/Route: `poptrie_route_add`, `_change`, `_update`, `_del` of modified_poptrie/poptrie4.c with
-- their recursions, on the RIB and the FIB mapping table; Rib/V6: the same of poptrie6.c.
-- Rib/Inv states the invariant of the cached pointers `ext`; Rib/Propagate, Marks, Table and Cache
-- prove what the propagations and the lookup do, and the files under Rib/Route/ what the route
-- operations do.
--
-- Vec: the 64-bit vectors and their macros in modified_poptrie/poptrie_private.h.
-- Poptrie: the arrays of `struct poptrie` and the lookups `poptrie_lookup` and `poptrie6_lookup`;
-- Poptrie/Triangle: `_parse_triangle`; Poptrie/Leaves and Store: the leaf compression of
-- `_update_inode` and its end that fills the arrays; Poptrie/Inode: `_update_inode`, with what its
-- calls of `_update_inode_chunk` return and do to the arrays as arguments, and none for its -1.
-- Poptrie/Inode/View is about what the new node leads to at each index, Poptrie/Inode/Lookup about
-- the lookup at it. Their child modules and Poptrie/Rounds prove, Poptrie/Tests runs.
-- Poptrie/Part: `_update_part_loop1` and `_update_part_loop2`; Poptrie/Part/View states what a node
-- leads to at an index, Poptrie/Part/Read, Steps and Insert prove, Poptrie/Part/Tests runs.
-- Poptrie/Descend: `_descend_and_update`; Poptrie/Descend/Follow proves, Poptrie/Descend/Tests runs.
-- Buddy: the allocator of modified_poptrie/buddy.c; Buddy/Laws and Buddy/Free prove,
-- Buddy/Tests runs.
--
-- Bitmap: the nodes of the tree bitmap and the functions on their bits of
-- modified_tree_bitmap/mb_node.h, mb_node.c and fast_lookup.c; Bitmap/Packed proves that the two
-- searches of a bitmap agree, Bitmap/Update what the functions on the packed blocks do.
-- Bitmap/Entry: `insert_entry`, `prefix_exist`, `update_nodes` and `delete_entry`, `do_search` and
-- `do_search_lazy`; its child modules prove them against a table from addresses in the trie to
-- next hops.
-- Bitmap/Trie: the table of the first 13 bits, `detect_overlap`, `insert_prefix`, `delete_prefix`
-- and `search` of modified_tree_bitmap/bitmap_v4.c and bitmap_v6.c, with what differs between
-- the two files as a record of parameters (Bitmap/Trie/Versions); Bitmap/Trie/Laws proves,
-- Bitmap/Trie/Tests runs.
--
-- Conventions. A node is at its path from the root, and a pointer `ext` is such a path, read through
-- the memory of the whole tree: nodes never move. A recursion of the source that goes down to
-- `len == depth` follows the levels left. `malloc` may fail: `mem` is the number of calls that
-- succeed. What C leaves open (memory that is not initialised, a shift by a negative count) is a
-- parameter of type `Machine`, as is the length of an address; in the lookups of the poptrie the
-- shift is the parameter `wild`. The blocks that `buddy_alloc2` returns to the functions on the arrays
-- are arguments, none where it fails, and a block that such a failure gives back is not followed. Reference counts are integers without
-- a bound. A `void *` is a number, NULL is 0. In the tree bitmap the length of a prefix below a node
-- is given as its whole strides and a rest, and the blocks of a node are a list of next hops and
-- a list of nodes: their addresses are not modelled.
--
-- Fuel: the lookup loops get 10 rounds for the 32 bits of an address, which have 5 strides behind the
-- direct pointing array, and 21 for 128 bits: enough for nodes of at most this height. The loops of the allocator over a list get one round for each
-- block and one for the end, the search for a block's size one round for each size. A search in
-- the tree bitmap gets one round for each level (5 for 32 bits, 24 for 128), the search of
-- an overlap one for each stride of the prefix, and the descent of an update one for each stride
-- of its prefix.
--
-- Not modelled: `_update_subtree`, whose return code is an argument of the route operations, with
-- `_update_part` itself and the cleaning functions (`_update_part_loop1` and `_update_part_loop2`
-- are modelled without the branch for `stack->inode < 0`, which no entry of the stack has, and
-- without freeing the old blocks); the memory pools of the tree bitmap, its statistics, printing
-- and the functions that free a whole trie; the copied containers hmap, hash and list; SAIL; the
-- test drivers.
pub mod Base
pub mod Trie
pub mod Radix
pub mod Fib
pub mod Rib
pub mod Vec
pub mod Bitmap
pub mod Buddy
pub mod Poptrie
