-- ===== src/Bitmap/Trie.antt =====
-- `struct lookup_trie` of modified_tree_bitmap/bitmap_v4.h and its operations of bitmap_v4.c, and the
-- same of bitmap_v6.c: the table of 2 ^ 13 entries in front of the tries, and the extra trie `up_aux`.
pub mod Versions
pub mod Laws
mod Tests
use poptrie_project.Base.{
  ℕ, zero, suc, ◌+◌, ◌-◌, ◌*◌, ◌/◌, ◌%◌, ◌^◌, Bool, true, false, ◌&&◌, Option, none, some, List, [],
  ◌∷◌, ◌++◌, if◌then◌else◌, ◌==◌, leb, ltb, not, set, get_elem?, get_or_else,
}
use poptrie_project.Vec.{Vec, vec_bt, popcnt}
use poptrie_project.Bitmap.{
  MbNode, mb_node, nil, internal, external, empty, stride_bits, count_inl_bitmap, fct, put_rule,
  find_overlap_in_node,
}
use poptrie_project.Bitmap.Entry.{
  Shifts, rule_at, child_at, Deleted, insert_entry, delete_entry, prefix_exist, do_search_lazy,
}
use poptrie_project.Vec.{count_from}

-- What bitmap_v4.c and bitmap_v6.c differ in: the shifts of an address, `ip >> (LENGTH -
-- INITIAL_BITS)`, the address 0 and `LEVEL`.
pub record Family (Ip : Type 0) : Type 0 where
  pub shifts : Shifts Ip
  pub index : Ip → ℕ
  pub zero_ip : Ip
  pub level : ℕ

-- `INITIAL_BITS`.
abbrev pub initial_bits : ℕ
initial_bits = 13

-- `union node_entity_v6`; a pointer is a number and NULL is 0. A pointer that is overwritten by NULL
-- leaves the node of `calloc`: the other fields of the union are 0 then.
pub data NodeEntity : Type 0 where
  node : MbNode → NodeEntity
  ptr : ℕ → NodeEntity

abbrev pub node_of : NodeEntity → MbNode
node_of (node n) = n
node_of (ptr p) = empty

abbrev pub ptr_of : NodeEntity → ℕ
ptr_of (node n) = 0
ptr_of (ptr p) = p

-- `struct init_node_v6`, its byte `flags` by its parts.
pub record InitNode : Type 0 where
  pub prefix_hi : ℕ
  pub has_a_child : Bool
  pub has_a_next : Bool
  pub e : NodeEntity

-- An entry with flags 0.
abbrev pub clear_entry : InitNode
clear_entry = record { prefix_hi = 0; has_a_child = false; has_a_next = false; e = ptr 0 }

-- `struct lookup_trie`.
pub record LookupTrie : Type 0 where
  pub init : List InitNode
  pub up_aux : MbNode

abbrev pub clear_entries : ℕ → List InitNode
clear_entries zero = []
clear_entries (suc n) = clear_entry ∷ clear_entries n

-- `init_lookup_trie`, where `calloc` succeeds; otherwise the program exits.
pub init_lookup_trie : LookupTrie
init_lookup_trie = record { init = clear_entries (2 ^ initial_bits); up_aux = empty }

-- A step of the loops over the entries from `index` on, `n` of them.
pub update_entries : (InitNode → InitNode) → ℕ → ℕ → List InitNode → List InitNode
update_entries f index n [] = []
update_entries f zero zero (t ∷ ts) = t ∷ ts
update_entries f zero (suc n) (t ∷ ts) = f t ∷ update_entries f zero n ts
update_entries f (suc index) n (t ∷ ts) = t ∷ update_entries f index n ts

-- What the loop of `detect_overlap` keeps: `final_mask` and `*longest`.
pub record Overlap : Type 0 where
  pub final_mask : ℕ
  pub longest : ℕ

module _ {Ip : Type 0} (m : Family Ip) where
  -- The body of the loop of `insert_prefix` for a prefix of at most 13 bits.
  pub insert_init : ℕ → ℕ → InitNode → InitNode
  insert_init cidr nhi t =
      if ltb cidr t.prefix_hi
      then t
      else (if t.has_a_child
          then record {
            prefix_hi = cidr;
            has_a_child = true;
            has_a_next = false;
            e = node (insert_entry m.shifts 0 0 (node_of t.e) m.zero_ip nhi);
          }
          else record { prefix_hi = cidr; has_a_child = false; has_a_next = true; e = ptr nhi })

  -- The branch of `insert_prefix` for a longer one, at the entry of its index.
  pub insert_below : Ip → ℕ → ℕ → InitNode → InitNode
  insert_below ip cidr nhi t =
      let rest = m.shifts.shift ip initial_bits in
      let add = λ (n : MbNode).
        insert_entry m.shifts ((cidr - initial_bits) / stride_bits)
          ((cidr - initial_bits) % stride_bits) n rest nhi in
      if t.has_a_child
      then record t { e = node (add (node_of t.e)) }
      else (if ltb 0 t.prefix_hi
          then record t {
            has_a_child = true;
            has_a_next = false;
            e = node (add (insert_entry m.shifts 0 0 empty m.zero_ip (ptr_of t.e)));
          }
          else record t { has_a_child = true; e = node (add (node_of t.e)) })

  -- `insert_prefix`.
  pub insert_prefix : LookupTrie → Ip → ℕ → ℕ → LookupTrie
  unfolding update_entries insert_init insert_below
  insert_prefix t ip cidr nhi = if cidr == 0 then t else record {
    init =
        if leb cidr initial_bits
        then update_entries (insert_init cidr nhi) (m.index ip) (2 ^ (initial_bits - cidr)) t.init
        else update_entries (insert_below ip cidr nhi) (m.index ip) 1 t.init;
    up_aux = insert_entry m.shifts (cidr / stride_bits) (cidr % stride_bits) t.up_aux ip nhi;
  }

  -- `search`, with `do_search_lazy`; NULL is 0.
  pub search_trie : LookupTrie → Ip → ℕ
  search_trie t ip = elim (get_elem? t.init (m.index ip)) [
    | none ↦ 0
    | some n ↦
        if n.has_a_child
        then get_or_else
            (do_search_lazy m.shifts m.level m.level (node_of n.e) (m.shifts.shift ip initial_bits)
              [])
            0
        else (if n.has_a_next then ptr_of n.e else 0)
  ]

  -- `prefix_exist`.
  pub prefix_in_trie : LookupTrie → Ip → ℕ → Bool
  prefix_in_trie t ip cidr =
      prefix_exist m.shifts (cidr / stride_bits) (cidr % stride_bits) t.up_aux ip

  -- A round of it at a node: the overlap there, if it is shorter than `org_limit`.
  pub overlap_here : MbNode → ℕ → ℕ → ℕ → ℕ → Overlap → Overlap
  overlap_here n stride limit_inside step org_limit o =
      elim (find_overlap_in_node limit_inside (internal n)
        (stride / 2 ^ (stride_bits - limit_inside))) [
          | none ↦ o
          | some (pos, mask) ↦
              if ltb (step * stride_bits + mask) org_limit
              then record {
                final_mask = step * stride_bits + mask;
                longest = get_or_else (rule_at n pos) 0;
              }
              else o
        ]

  -- The loop of `detect_overlap`, with fuel.
  pub overlap_loop : ℕ → MbNode → Ip → ℕ → ℕ → ℕ → Overlap → Overlap
  unfolding overlap_here
  overlap_loop zero n ip limit step org_limit o = o
  overlap_loop (suc fuel) n ip limit step org_limit o =
      let stride = m.shifts.top ip stride_bits in
      let limit_inside = if ltb stride_bits limit then stride_bits else limit in
      let o1 = overlap_here n stride limit_inside step org_limit o in
      elim (ltb 0 limit) [
        | false ↦ o
        | true ↦ elim (vec_bt (external n) stride) [
          | false ↦ o1
          | true ↦ elim (child_at n stride) [
            | none ↦ o1
            | some c ↦
                overlap_loop fuel c (m.shifts.shift ip stride_bits) (limit - stride_bits) (suc step)
                  org_limit o1
          ]
        ]
      ]

  -- `detect_overlap`, which takes a round for each stride of the limit.
  pub detect_overlap : LookupTrie → Ip → ℕ → ℕ → Overlap
  unfolding overlap_loop
  detect_overlap t ip cidr leaf_pushing_bits =
      let limit = if ltb leaf_pushing_bits cidr then leaf_pushing_bits else cidr in
      overlap_loop limit t.up_aux ip limit 0 limit (record { final_mask = 0; longest = 0 })

  -- The next hop that `destroy_nhi` is called with, where it is set.
  abbrev pub note : Bool → Option ℕ → List ℕ
  note false o = []
  note true none = []
  note true (some x) = x ∷ []

  -- The body of the loop for an entry: its new value, and what it destroys; none for `continue`.
  pub delete_init : ℕ → Overlap → Bool → InitNode → Option (InitNode × List ℕ)
  delete_init cidr near destroy t =
      if ltb cidr t.prefix_hi
      then none
      else (if t.has_a_child
          then (if near.final_mask == 0
              then (let d = delete_entry m.shifts 0 0 (node_of t.e) m.zero_ip destroy in
                  some (
                    if d.node_need_to_del then clear_entry else record {
                      prefix_hi = 0;
                      has_a_child = true;
                      has_a_next = false;
                      e = node d.node;
                    },
                    note destroy d.destroyed,
                  ))
              else (let n = node_of t.e in
                  let pos = count_inl_bitmap (m.shifts.top m.zero_ip 0) 0 in
                  some (
                    record {
                      prefix_hi = near.final_mask;
                      has_a_child = true;
                      has_a_next = false;
                      e = node (put_rule n (count_from (internal n) pos) near.longest);
                    },
                    note destroy (rule_at n pos),
                  )))
          else some (
            if near.final_mask == 0 then clear_entry else record {
              prefix_hi = near.final_mask;
              has_a_child = false;
              has_a_next = true;
              e = ptr near.longest;
            },
            note destroy (some (ptr_of t.e)),
          ))

  -- The loop of `delete_prefix` over the entries from `index` on, `n` of them.
  pub delete_entries : ℕ → Overlap → ℕ → ℕ → Bool → List InitNode → List InitNode × List ℕ
  unfolding delete_init
  delete_entries cidr near index n destroy [] = ([], [])
  delete_entries cidr near zero zero destroy (t ∷ ts) = (t ∷ ts, [])
  delete_entries cidr near zero (suc n) destroy (t ∷ ts) = elim (delete_init cidr near destroy t) [
    | none ↦ let rest = delete_entries cidr near zero n destroy ts in (t ∷ rest.0, rest.1)
    | some (t', gone) ↦
        let rest = delete_entries cidr near zero n false ts in (t' ∷ rest.0, gone ++ rest.1)
  ]
  delete_entries cidr near (suc index) n destroy (t ∷ ts) =
      let rest = delete_entries cidr near index n destroy ts in (t ∷ rest.0, rest.1)

  -- The branch of `delete_prefix` for a longer prefix, at the entry of its index.
  pub delete_below : Ip → ℕ → Overlap → InitNode → InitNode
  delete_below ip cidr near t =
      if t.has_a_child
      then (let d =
            delete_entry m.shifts ((cidr - initial_bits) / stride_bits)
              ((cidr - initial_bits) % stride_bits) (node_of t.e) (m.shifts.shift ip initial_bits)
              false in
          if d.node_need_to_del
          then (if near.final_mask == 0 then clear_entry else record {
            prefix_hi = near.final_mask;
            has_a_child = false;
            has_a_next = true;
            e = ptr near.longest;
          })
          else record t { e = node d.node })
      else t

  -- `delete_prefix`, without the calls of `destroy_nhi` for a prefix of more than 13 bits.
  pub delete_prefix : LookupTrie → Ip → ℕ → Bool → LookupTrie
  unfolding detect_overlap delete_entries delete_below update_entries
  delete_prefix t ip cidr destroy =
      let near = detect_overlap t ip cidr initial_bits in
      if cidr == 0 then t else record {
        init =
            if leb cidr initial_bits
            then (delete_entries cidr near (m.index ip) (2 ^ (initial_bits - cidr)) destroy
                t.init).0
            else update_entries (delete_below ip cidr near) (m.index ip) 1 t.init;
        up_aux =
            (delete_entry m.shifts (cidr / stride_bits) (cidr % stride_bits) t.up_aux ip
              false).node;
      }
