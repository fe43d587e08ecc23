-- ===== src/Bitmap/Trie/Versions.antt =====
-- The addresses of modified_tree_bitmap/bitmap_v4.c, `uint32_t`, and of bitmap_v6.c, `struct ip_v6`.
-- A shift by the whole width, which C leaves open, is a parameter: both files rely on it to keep
-- the address 0.
use poptrie_project.Base.{ℕ, ◌+◌, ◌-◌, ◌*◌, ◌/◌, ◌%◌, ◌^◌, if◌then◌else◌, ltb, ◌==◌}
use poptrie_project.Base.{Bool, Option, none, []}
use poptrie_project.Bitmap.{MbNode}
use poptrie_project.Bitmap.Entry.{
  Shifts, Deleted, insert_entry, delete_entry, do_search, do_search_lazy,
}
use poptrie_project.Bitmap.Trie.{
  Family, initial_bits, LookupTrie, Overlap, init_lookup_trie, insert_prefix, delete_prefix,
  search_trie, prefix_in_trie, detect_overlap,
}

-- `LENGTH`.
abbrev pub length_v4 : ℕ
length_v4 = 32

abbrev pub u32 : ℕ → ℕ
u32 a = a % 2 ^ 32

abbrev pub shifts_v4 : (ℕ → ℕ) → Shifts ℕ
shifts_v4 wild = record {
  top = λ ip n. (if n == 0 then wild ip else u32 ip / 2 ^ (length_v4 - n)) % 256;
  shift = λ ip n. u32 (ip * 2 ^ n);
}

-- What bitmap_v4.c has of its own.
abbrev pub v4 : (ℕ → ℕ) → Family ℕ
v4 wild = record {
  shifts = shifts_v4 wild;
  index = λ ip. u32 ip / 2 ^ (length_v4 - initial_bits);
  zero_ip = 0;
  level = 5;
}

-- `struct ip_v6`.
pub record IpV6 : Type 0 where
  pub iphi : ℕ
  pub iplo : ℕ

abbrev pub u64 : ℕ → ℕ
u64 a = a % 2 ^ 64

-- `LENGTH_v6`.
abbrev pub length_v6 : ℕ
length_v6 = 128

-- `lshift_ipv6`. The bits that `|` joins do not overlap.
abbrev pub lshift_ipv6 : IpV6 → ℕ → IpV6
lshift_ipv6 ip bits =
    if ltb bits 64
    then record {
      iphi = u64 (ip.iphi * 2 ^ bits) + u64 ip.iplo / 2 ^ (64 - bits);
      iplo = u64 (ip.iplo * 2 ^ bits);
    }
    else (if ltb 64 bits
        then record { iphi = u64 (ip.iplo * 2 ^ (bits - 64)); iplo = 0 }
        else record { iphi = u64 ip.iplo; iplo = 0 })

-- `rshift_ipv6`; a shift by 128 shifts a word by 64.
abbrev pub rshift_ipv6 : (IpV6 → IpV6) → IpV6 → ℕ → IpV6
rshift_ipv6 wild ip bits =
    if bits == 128
    then wild ip
    else (if ltb bits 64
        then record {
          iphi = u64 ip.iphi / 2 ^ bits;
          iplo = u64 ip.iplo / 2 ^ bits + u64 (ip.iphi * 2 ^ (64 - bits));
        }
        else (if ltb 64 bits
            then record { iphi = 0; iplo = u64 ip.iphi / 2 ^ (bits - 64) }
            else record { iphi = 0; iplo = u64 ip.iphi }))

abbrev pub shifts_v6 : (IpV6 → IpV6) → Shifts IpV6
shifts_v6 wild = record {
  top = λ ip n. (rshift_ipv6 wild ip (length_v6 - n)).iplo % 256;
  shift = lshift_ipv6;
}

-- What bitmap_v6.c has of its own.
abbrev pub v6 : (IpV6 → IpV6) → Family IpV6
v6 wild = record {
  shifts = shifts_v6 wild;
  index = λ ip. (rshift_ipv6 wild ip (length_v6 - initial_bits)).iplo;
  zero_ip = record { iphi = 0; iplo = 0 };
  level = 24;
}

-- The functions of bitmap_v6.c.
abbrev pub init_lookup_trie_v6 : LookupTrie
init_lookup_trie_v6 = init_lookup_trie

abbrev pub insert_entry_v6 : (IpV6 → IpV6) → ℕ → ℕ → MbNode → IpV6 → ℕ → MbNode
insert_entry_v6 wild = insert_entry (shifts_v6 wild)

abbrev pub insert_prefix_v6 : (IpV6 → IpV6) → LookupTrie → IpV6 → ℕ → ℕ → LookupTrie
insert_prefix_v6 wild = insert_prefix (v6 wild)

abbrev pub delete_entry_v6 : (IpV6 → IpV6) → ℕ → ℕ → MbNode → IpV6 → Bool → Deleted
delete_entry_v6 wild = delete_entry (shifts_v6 wild)

abbrev pub prefix_exist_v6 : (IpV6 → IpV6) → LookupTrie → IpV6 → ℕ → Bool
prefix_exist_v6 wild = prefix_in_trie (v6 wild)

abbrev pub delete_prefix_v6 : (IpV6 → IpV6) → LookupTrie → IpV6 → ℕ → Bool → LookupTrie
delete_prefix_v6 wild = delete_prefix (v6 wild)

abbrev pub do_search_v6 : (IpV6 → IpV6) → ℕ → MbNode → IpV6 → Option ℕ
do_search_v6 wild fuel n ip = do_search (shifts_v6 wild) fuel n ip none

abbrev pub detect_overlap_v6 : (IpV6 → IpV6) → LookupTrie → IpV6 → ℕ → ℕ → Overlap
detect_overlap_v6 wild = detect_overlap (v6 wild)

abbrev pub do_search_lazy_v6 : (IpV6 → IpV6) → ℕ → MbNode → IpV6 → Option ℕ
do_search_lazy_v6 wild fuel n ip = do_search_lazy (shifts_v6 wild) 24 fuel n ip []

abbrev pub search_v6 : (IpV6 → IpV6) → LookupTrie → IpV6 → ℕ
search_v6 wild = search_trie (v6 wild)
