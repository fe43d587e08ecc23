-- ===== src/Bitmap/Trie/Laws.antt =====
-- What `insert_prefix` and `delete_prefix` of modified_tree_bitmap/bitmap_v4.c and bitmap_v6.c do to the
-- extra trie `up_aux` and to the invariant of the blocks.
use poptrie_project.Base.{
  ℕ, zero, suc, ◌+◌, ◌-◌, ◌/◌, ◌%◌, ◌^◌, ◌<◌, ◌≤◌, ◌≡◌, refl, ◌∙◌, sym, ap, subst, Bool, true,
  false, Option, some, List, [], ◌∷◌, ◌==◌, leb, ltb, arith, ltb-false, get_elem?, get_or_else,
  Bool-cases, inl, inr, some_eq,
}
use poptrie_project.Bitmap.{MbNode, empty, stride_bits}
use poptrie_project.Bitmap.Entry.{insert_entry, delete_entry, prefix_exist}
use poptrie_project.Bitmap.Entry.Table.{get, IsPacked, empty-IsPacked}
use poptrie_project.Bitmap.Entry.Insert.{
  strides, place, HasStrides, insert_entry-IsPacked, insert_entry_self,
}
use poptrie_project.Bitmap.Entry.Delete.{
  has, delete_entry_self, delete_entry-IsPacked, prefix_exist-get,
}
use poptrie_project.Bitmap.Entry.Depth.{depth}
use poptrie_project.Bitmap.Entry.Search.{longest_match, do_search_lazy-longest_match}
use poptrie_project.Bitmap.Trie.{
  Family, InitNode, node_of, ptr_of, clear_entries, LookupTrie, initial_bits, insert_init,
  insert_below, insert_prefix, update_entries, prefix_in_trie, delete_prefix, search_trie,
}

nonzero : (cidr : ℕ) → 0 < cidr → (cidr == 0) ≡ false
nonzero cidr h = ground arith

module _ {Ip : Type 0} (m : Family Ip) where
  -- The table of the extra trie for a prefix.
  abbrev pub stored : LookupTrie → Ip → ℕ → Option ℕ
  stored t ip cidr =
      get t.up_aux (strides m.shifts (cidr / stride_bits) ip)
        (place m.shifts (cidr / stride_bits) (cidr % stride_bits) ip)

  up_aux-insert_prefix :
      (t : LookupTrie) (ip : Ip) (cidr x : ℕ)
      → 0 < cidr
      → (insert_prefix m t ip cidr x).up_aux
        ≡ insert_entry m.shifts (cidr / stride_bits) (cidr % stride_bits) t.up_aux ip x
  unfolding insert_prefix
  up_aux-insert_prefix t ip cidr x h = rw (nonzero cidr h) refl

  up_aux-delete_prefix :
      (t : LookupTrie) (ip : Ip) (cidr : ℕ) (f : Bool)
      → 0 < cidr
      → (delete_prefix m t ip cidr f).up_aux
        ≡ (delete_entry m.shifts (cidr / stride_bits) (cidr % stride_bits) t.up_aux ip false).node
  unfolding delete_prefix
  up_aux-delete_prefix t ip cidr f h = rw (nonzero cidr h) refl

  -- A prefix that is inserted is found by `prefix_exist`.
  pub prefix_in_trie-insert_prefix :
      (t : LookupTrie) (ip : Ip) (cidr x : ℕ)
      → HasStrides m.shifts
      → place m.shifts (cidr / stride_bits) (cidr % stride_bits) ip < 64
      → IsPacked t.up_aux
      → 0 < cidr
      → prefix_in_trie m (insert_prefix m t ip cidr x) ip cidr ≡ true
  unfolding prefix_in_trie
  prefix_in_trie-insert_prefix t ip cidr x lt fits w h =
      let k : ℕ = cidr / stride_bits in
      let r : ℕ = cidr % stride_bits in
      let n : MbNode = insert_entry m.shifts k r t.up_aux ip x in
      ap (λ u. prefix_exist m.shifts k r u ip) (up_aux-insert_prefix t ip cidr x h)
      ∙ prefix_exist-get m.shifts k r n ip
          (insert_entry-IsPacked m.shifts k r t.up_aux ip x lt fits w)
      ∙ ap has (insert_entry_self m.shifts k r t.up_aux ip x lt fits w)

  -- A prefix that is in the trie and is deleted is found no longer.
  pub prefix_in_trie-delete_prefix :
      (t : LookupTrie) (ip : Ip) (cidr y : ℕ) (f : Bool)
      → IsPacked t.up_aux
      → 0 < cidr
      → stored t ip cidr ≡ some y
      → prefix_in_trie m (delete_prefix m t ip cidr f) ip cidr ≡ false
  unfolding prefix_in_trie
  prefix_in_trie-delete_prefix t ip cidr y f w h e =
      let k : ℕ = cidr / stride_bits in
      let r : ℕ = cidr % stride_bits in
      let n : MbNode = (delete_entry m.shifts k r t.up_aux ip false).node in
      ap (λ u. prefix_exist m.shifts k r u ip) (up_aux-delete_prefix t ip cidr f h)
      ∙ prefix_exist-get m.shifts k r n ip
          (delete_entry-IsPacked m.shifts k r t.up_aux ip false y w e)
      ∙ ap has (delete_entry_self m.shifts k r t.up_aux ip false y w e)

  -- For a prefix of at least one bit, where the blocks of `up_aux` hold an element for each bit, the
  -- strides of an address are below 64 and so is the place of the prefix's rest, `prefix_exist` finds
  -- the prefix after its insertion, and no longer after its deletion.
  pub prefix_in_trie-insert_delete :
      (t : LookupTrie) (ip : Ip) (cidr x : ℕ) (f : Bool)
      → HasStrides m.shifts
      → place m.shifts (cidr / stride_bits) (cidr % stride_bits) ip < 64
      → IsPacked t.up_aux
      → 0 < cidr
      → (prefix_in_trie m (insert_prefix m t ip cidr x) ip cidr ≡ true)
        × (prefix_in_trie m (delete_prefix m (insert_prefix m t ip cidr x) ip cidr f) ip cidr
            ≡ false)
  prefix_in_trie-insert_delete t ip cidr x f lt fits w h =
      let k : ℕ = cidr / stride_bits in
      let r : ℕ = cidr % stride_bits in
      let aux = up_aux-insert_prefix t ip cidr x h in
      (
        prefix_in_trie-insert_prefix t ip cidr x lt fits w h,
        prefix_in_trie-delete_prefix (insert_prefix m t ip cidr x) ip cidr x f
            (subst IsPacked (sym aux) (insert_entry-IsPacked m.shifts k r t.up_aux ip x lt fits w))
            h
            (ap (λ n. get n (strides m.shifts k ip) (place m.shifts k r ip)) aux
              ∙ insert_entry_self m.shifts k r t.up_aux ip x lt fits w),
      )

  -- The blocks of all tries of the structure hold an element for each bit.
  abbrev pub IsEntry : InitNode → Type 0
  IsEntry t = IsPacked (node_of t.e)

  unfoldable pub IsTrie : LookupTrie → Type 0
  IsTrie t = ((i : ℕ) (n : InitNode) → get_elem? t.init i ≡ some n → IsEntry n) × IsPacked t.up_aux

  update_entries-IsEntry :
      (f : InitNode → InitNode) (index n : ℕ) (ts : List InitNode)
      → ((t : InitNode) → IsEntry t → IsEntry (f t))
      → ((i : ℕ) (t : InitNode) → get_elem? ts i ≡ some t → IsEntry t)
      → (i : ℕ) (t : InitNode) → get_elem? (update_entries f index n ts) i ≡ some t
      → IsEntry t
  unfolding update_entries
  update_entries-IsEntry f index n [] keep old i t e = old i t e
  update_entries-IsEntry f zero zero (u ∷ us) keep old i t e = old i t e
  update_entries-IsEntry f zero (suc n) (u ∷ us) keep old zero t e =
      subst IsEntry (some_eq e) (keep u (old zero u refl))
  update_entries-IsEntry f zero (suc n) (u ∷ us) keep old (suc i) t e =
      update_entries-IsEntry f zero n us keep (λ j. old (suc j)) i t e
  update_entries-IsEntry f (suc index) n (u ∷ us) keep old zero t e = old zero t e
  update_entries-IsEntry f (suc index) n (u ∷ us) keep old (suc i) t e =
      update_entries-IsEntry f index n us keep (λ j. old (suc j)) i t e

  insert_init-IsEntry :
      (cidr x : ℕ) (t : InitNode)
      → HasStrides m.shifts
      → place m.shifts 0 0 m.zero_ip < 64
      → IsEntry t
      → IsEntry (insert_init m cidr x t)
  unfolding insert_init
  insert_init-IsEntry cidr x t lt fits w = elim (Bool-cases (ltb cidr t.prefix_hi)) [
    | inl a ↦ rw (a) w
    | inr a ↦ elim (Bool-cases t.has_a_child) [
      | inl b ↦ rw (a, b) (insert_entry-IsPacked m.shifts 0 0 (node_of t.e) m.zero_ip x lt fits w)
      | inr b ↦ rw (a, b) empty-IsPacked
    ]
  ]

  insert_below-IsEntry :
      (ip : Ip) (cidr x : ℕ) (t : InitNode)
      → HasStrides m.shifts
      → place m.shifts 0 0 m.zero_ip < 64
      → place m.shifts
          ((cidr - initial_bits) / stride_bits)
          ((cidr - initial_bits) % stride_bits)
          (m.shifts.shift ip initial_bits)
        < 64
      → IsEntry t
      → IsEntry (insert_below m ip cidr x t)
  unfolding insert_below
  insert_below-IsEntry ip cidr x t lt root fits w = elim (Bool-cases t.has_a_child) [
    | inl b ↦ rw (b) (insert_entry-IsPacked m.shifts k r (node_of t.e) rest x lt fits w)
    | inr b ↦ elim (Bool-cases (ltb 0 t.prefix_hi)) [
      | inl c ↦
          rw (b, c)
            (insert_entry-IsPacked m.shifts k r
              (insert_entry m.shifts 0 0 empty m.zero_ip (ptr_of t.e)) rest x lt fits
              (insert_entry-IsPacked m.shifts 0 0 empty m.zero_ip (ptr_of t.e) lt root
                empty-IsPacked))
      | inr c ↦ rw (b, c) (insert_entry-IsPacked m.shifts k r (node_of t.e) rest x lt fits w)
    ]
  ]
    where
      k : ℕ
      k = (cidr - initial_bits) / stride_bits

      r : ℕ
      r = (cidr - initial_bits) % stride_bits

      rest : Ip
      rest = m.shifts.shift ip initial_bits

  -- An insertion keeps the invariant of the blocks in every trie of the structure.
  pub insert_prefix-IsTrie :
      (t : LookupTrie) (ip : Ip) (cidr x : ℕ)
      → HasStrides m.shifts
      → place m.shifts 0 0 m.zero_ip < 64
      → place m.shifts (cidr / stride_bits) (cidr % stride_bits) ip < 64
      → place m.shifts
          ((cidr - initial_bits) / stride_bits)
          ((cidr - initial_bits) % stride_bits)
          (m.shifts.shift ip initial_bits)
        < 64
      → IsTrie t
      → IsTrie (insert_prefix m t ip cidr x)
  unfolding insert_prefix IsTrie
  insert_prefix-IsTrie t ip cidr x lt root fits below w = elim (Bool-cases (cidr == 0)) [
    | inl a ↦ rw (a) w
    | inr a ↦ elim (Bool-cases (leb cidr initial_bits)) [
      | inl b ↦
          rw (a, b)
            (
              update_entries-IsEntry (insert_init m cidr x) (m.index ip) (2 ^ (initial_bits - cidr))
                  t.init (λ n. insert_init-IsEntry cidr x n lt root) w.0,
              aux,
            )
      | inr b ↦
          rw (a, b)
            (
              update_entries-IsEntry (insert_below m ip cidr x) (m.index ip) 1 t.init
                  (λ n. insert_below-IsEntry ip cidr x n lt root below) w.0,
              aux,
            )
    ]
  ]
    where
      aux : IsPacked (insert_entry m.shifts (cidr / stride_bits) (cidr % stride_bits) t.up_aux ip x)
      aux =
          insert_entry-IsPacked m.shifts (cidr / stride_bits) (cidr % stride_bits) t.up_aux ip x lt
            fits w.1

  -- Behind an entry with a child, `search` returns the longest of the prefixes of the address's
  -- other bits that the entry's trie has, if that trie is no higher than `LEVEL`.
  pub search_trie-longest_match :
      (t : LookupTrie) (ip : Ip) (n : InitNode) (k : ℕ)
      → HasStrides m.shifts
      → IsTrie t
      → m.level ≡ suc k
      → get_elem? t.init (m.index ip) ≡ some n
      → n.has_a_child ≡ true
      → depth (node_of n.e) ≤ suc k
      → search_trie m t ip
        ≡ get_or_else
            (longest_match m.shifts k (get (node_of n.e)) (m.shifts.shift ip initial_bits))
            0
  unfolding search_trie IsTrie
  search_trie-longest_match t ip n k lt w level at child le =
      rw (search_trie, at, child, level)
        (ap (λ o. get_or_else o 0)
          (do_search_lazy-longest_match m.shifts k (node_of n.e) (m.shifts.shift ip initial_bits) lt
            (w.0 (m.index ip) n at) le))

  update_entries-in :
      (f : InitNode → InitNode) (index n i : ℕ) (ts : List InitNode) (t : InitNode)
      → index ≤ i
      → i < index + n
      → get_elem? ts i ≡ some t
      → get_elem? (update_entries f index n ts) i ≡ some (f t)
  unfolding update_entries
  update_entries-in f index n i [] t lo hi e = absurd (grind arith)
  update_entries-in f zero zero i (u ∷ us) t lo hi e = absurd (omega arith)
  update_entries-in f zero (suc n) zero (u ∷ us) t lo hi e = ap (λ x. some (f x)) (some_eq e)
  update_entries-in f zero (suc n) (suc i) (u ∷ us) t lo hi e =
      update_entries-in f zero n i us t (omega arith) (omega arith) e
  update_entries-in f (suc index) n zero (u ∷ us) t lo hi e = absurd (omega arith)
  update_entries-in f (suc index) n (suc i) (u ∷ us) t lo hi e =
      update_entries-in f index n i us t (omega arith) (omega arith) e

  -- A prefix of 1 to 13 bits is pushed to the entries of the addresses under it: where such an
  -- entry has no trie and no longer prefix, `search` returns the new next hop.
  pub search_trie-insert_prefix :
      (t : LookupTrie) (ip addr : Ip) (cidr x : ℕ) (n : InitNode)
      → 0 < cidr
      → cidr ≤ initial_bits
      → m.index ip ≤ m.index addr
      → m.index addr < m.index ip + 2 ^ (initial_bits - cidr)
      → get_elem? t.init (m.index addr) ≡ some n
      → n.has_a_child ≡ false
      → n.prefix_hi ≤ cidr
      → search_trie m (insert_prefix m t ip cidr x) addr ≡ x
  unfolding search_trie insert_prefix insert_init
  search_trie-insert_prefix t ip addr cidr x n h le lo hi at child shorter =
      let entry =
        update_entries-in (insert_init m cidr x) (m.index ip) (2 ^ (initial_bits - cidr))
          (m.index addr) t.init n lo hi at in
      rw (nonzero cidr h, short le) (rw (search_trie, entry) (rw (longer, child) refl))
    where
      short : cidr ≤ initial_bits → leb cidr initial_bits ≡ true
      short q = ground arith

      longer : ltb cidr n.prefix_hi ≡ false
      longer = ltb-false cidr n.prefix_hi shorter

  clear_entries-IsEntry :
      (n i : ℕ) (t : InitNode) → get_elem? (clear_entries n) i ≡ some t → IsEntry t
  clear_entries-IsEntry zero i t e = absurd (grind arith)
  clear_entries-IsEntry (suc n) zero t e = subst IsEntry (some_eq e) empty-IsPacked
  clear_entries-IsEntry (suc n) (suc i) t e = clear_entries-IsEntry n i t e

  pub clear-IsTrie : (n : ℕ) → IsTrie (record { init = clear_entries n; up_aux = empty })
  unfolding IsTrie
  clear-IsTrie n = (clear_entries-IsEntry n, empty-IsPacked)
