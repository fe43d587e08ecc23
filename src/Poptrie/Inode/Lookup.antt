-- ===== src/Poptrie/Inode/Lookup.antt =====
-- A poptrie node that `_update_inode` of modified_poptrie/poptrie_private.h fills in answers as the RIB
-- does.
use poptrie_project.Base.{
  ℕ, suc, ◌≡◌, refl, ◌∙◌, sym, ap, Bool, true, false, Option, none, some, arith, get_elem?,
  get_or_else, some_eq, ◌≢◌,
}
use mathlib.Core.Option
use poptrie_project.Vec.{vec_bt}
use poptrie_project.Trie.{node, bits, walk}
use poptrie_project.Rib.{Addr, RadixNode, Rib, Memory, ext_nh}
use poptrie_project.Rib.Inv.{IsCached}
use poptrie_project.Rib.Table.{entry}
use poptrie_project.Rib.Cache.{hop_at, Reads, ext_nh-hop_at}
use poptrie_project.Poptrie.{PoptrieNode, Arrays, leaf_at, lookup_loop}
use poptrie_project.Poptrie.Store.{Committed}
use poptrie_project.Poptrie.Triangle.{parse_triangle}
use poptrie_project.Poptrie.Triangle.Place.{number, At}
use poptrie_project.Poptrie.Triangle.Walk.{parse_triangle_leaf}
use poptrie_project.Poptrie.Part.{old_child}
use poptrie_project.Poptrie.Part.View.{Entry, to_leaf, to_node, view}
use poptrie_project.Poptrie.Inode.{Chunk, Writes, update_inode}
use poptrie_project.Poptrie.Inode.View.{Runs, wanted_entry, update_inode-view}

abbrev hop_of_entry : Option Entry → Option ℕ
hop_of_entry none = none
hop_of_entry (some (to_leaf hop)) = some hop
hop_of_entry (some (to_node n)) = none

none_ne : {hop : ℕ} → none ≢ some hop
none_ne e = absurd (grind arith)

leaf_cases :
    (b : Bool) (o : Option ℕ) (p : Option PoptrieNode) (hop : ℕ)
    → (elim b [ false ↦ Option.map (λ hop. to_leaf hop) o | true ↦ Option.map (λ c. to_node c) p ])
      ≡ some (to_leaf hop)
    → (b ≡ false) × (o ≡ some hop)
leaf_cases false none p hop e = absurd (none_ne (ap hop_of_entry e))
leaf_cases false (some h) p hop e = (refl, ap hop_of_entry e)
leaf_cases true o none hop e = absurd (none_ne (ap hop_of_entry e))
leaf_cases true o (some c) hop e = absurd (none_ne (ap hop_of_entry e))

-- An index that leads to a leaf has its bit clear, and the leaf is in the array.
view_leaf :
    (a : Arrays) (n : PoptrieNode) (i hop : ℕ)
    → view a n i ≡ some (to_leaf hop)
    → (vec_bt n.vector i ≡ false) × (leaf_at a n i ≡ some hop)
unfolding view
view_leaf a n i hop e = leaf_cases (vec_bt n.vector i) (leaf_at a n i) (old_child n i a.nodes) hop e

-- Let a RIB keep its invariant, and let the bits of a key from depth d on lead to an entry of the
-- triangle under a node at depth d whose bit in `vector` is clear. Let `_update_inode`, where
-- `_update_inode_chunk` and the allocations succeed with room in the arrays, fill in a node for it,
-- and let this node stand at `inode` in arrays where its leaves are as the function left them. Then
-- the loop of the lookup that comes to `inode` with these bits as its index ends there, with the
-- answer of the lookup that continues in the RIB.
pub update_inode-lookup_loop :
    (load : Memory) (a : Arrays) (uninit : PoptrieNode) (old : Option PoptrieNode) (chunk : Chunk)
    (writes : Writes) (c : RadixNode) (l r : Rib) (alloc1 alloc0 : Option ℕ) (wanted : Bool)
    (b : ℕ → Bool) (d : ℕ) (path : Addr) (above : Option Addr) (c' : RadixNode) (l' r' : Rib)
    (done : Committed) (later : Arrays) (inode fuel pos : ℕ) (index : ℕ → ℕ → ℕ)
    → Runs load a old chunk writes c l r alloc1 alloc0
    → IsCached above path (node c l r)
    → Reads load path (node c l r)
    → At (parse_triangle 6 c l r) (number (bits b d 6)) (node c' l' r') false
    → update_inode load a uninit old chunk writes c l r alloc1 alloc0 wanted ≡ some done
    → get_elem? later.nodes inode ≡ some done.node
    → ((i : ℕ) → leaf_at later done.node i ≡ leaf_at done.arrays done.node i)
    → lookup_loop (suc fuel) index later inode (number (bits b d 6)) pos
      ≡ some (get_or_else (walk entry b d (node c l r) (hop_at load above)) 0)
unfolding lookup_loop wanted_entry
update_inode-lookup_loop load a uninit old chunk writes c l r alloc1 alloc0 wanted b d path above c'
      l' r' done later inode fuel pos index runs inv reads at run stands same =
    let (done', e, leads) =
      update_inode-view load a uninit old chunk writes c l r alloc1 alloc0 wanted runs in
    let idx : ℕ = number (bits b d 6) in
    let result : done' ≡ done = some_eq (sym e ∙ run) in
    let led = ap (λ u. view u.arrays u.node idx) (sym result) ∙ leads idx c' l' r' false at in
    let (off, leaf) = view_leaf done.arrays done.node idx (ext_nh load c') led in
    let answer = parse_triangle_leaf load b d c l r path above c' l' r' inv reads at in
    rw (lookup_loop, stands, off)
      (same idx ∙ leaf ∙ ap some (ext_nh-hop_at load c' ∙ sym (ap (λ o. get_or_else o 0) answer)))
