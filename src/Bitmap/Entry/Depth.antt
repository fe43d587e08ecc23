-- ===== src/Bitmap/Entry/Depth.antt =====
-- The height of a trie of multi-bit nodes (modified_tree_bitmap/).
use poptrie_project.Base.{ℕ, zero, suc, ◌<◌, ◌≤◌, ◌≡◌, ap, max, some, arith, get_elem?, some_eq}
use poptrie_project.Vec.{count_from}
use poptrie_project.Bitmap.Packed.{slot}
use poptrie_project.Bitmap.{MbNode, mb_node, Nodes, nil, cons, to_list}
use poptrie_project.Bitmap.Entry.{child_at}

-- The height of a trie.
unfoldable mutual
  pub depth : MbNode → ℕ
  depth (mb_node e i rs cs) = suc (depth_nodes cs)

  pub depth_nodes : Nodes → ℕ
  depth_nodes nil = 0
  depth_nodes (cons n ns) = max (depth n) (depth_nodes ns)

get_elem?-depth :
    (cs : Nodes) (k : ℕ) (c : MbNode) → get_elem? (to_list cs) k ≡ some c → depth c ≤ depth_nodes cs
unfolding depth
get_elem?-depth nil k c e = absurd (grind arith)
get_elem?-depth (cons n ns) zero c e = omega (arith, ap depth (some_eq e))
get_elem?-depth (cons n ns) (suc k) c e = omega (arith, get_elem?-depth ns k c e)

slot-depth :
    (cs : Nodes) (q : ℕ) (c : MbNode) → slot (to_list cs) q ≡ some c → depth c ≤ depth_nodes cs
slot-depth cs zero c e = absurd (grind arith)
slot-depth cs (suc q) c e = get_elem?-depth cs q c e

pub child_at-depth : (n c : MbNode) (pos : ℕ) → child_at n pos ≡ some c → depth c < depth n
unfolding depth
child_at-depth (mb_node e i rs cs) c pos at = omega (arith, slot-depth cs (count_from e pos) c at)

pub depth_pos : (n : MbNode) → 1 ≤ depth n
unfolding depth
depth_pos (mb_node e i rs cs) = omega arith
