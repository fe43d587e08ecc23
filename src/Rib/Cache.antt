-- ===== src/Rib/Cache.antt =====
-- `EXT_NH` of modified_poptrie/poptrie_private.h: the pointer `ext` of a node caches the answer of
-- the lookup in the RIB.
use poptrie_project.Base.{
  ℕ, zero, suc, ◌≡◌, refl, ◌∙◌, sym, ap, Bool, true, false, Option, none, some, [], ◌∷◌, ◌++◌,
  append_assoc, append-nil, arith, if◌then◌else◌, Bool-cases, inl, inr, get_or_else, or_else,
  some_eq,
}
use poptrie_project.Trie.{nil, node, bits, cell_at, walk}
use poptrie_project.Rib.{
  Addr, RadixNode, Rib, Machine, Memory, memory, ext_nh, here, key_bit, rib_lookup,
}
use poptrie_project.Rib.Inv.{IsCached, here-valid, here-invalid}
use poptrie_project.Rib.Table.{entry, rib_lookup-walk}

-- The next hop that a pointer reads.
abbrev pub hop_at : Memory → Option Addr → Option ℕ
hop_at load none = none
hop_at load (some q) = some (load q).nexthop

pub hop_at-here :
    (load : Memory) (c : RadixNode) (above : Option Addr) (path : Addr)
    → load path ≡ c
    → hop_at load (here c above path) ≡ or_else (entry c) (hop_at load above)
hop_at-here load c above path e = elim (Bool-cases c.valid) [
  | inl v ↦ rw (here-valid c above path v) (ground (arith, ap (λ (x : RadixNode). x.nexthop) e))
  | inr v ↦ rw (here-invalid c above path v) (ground arith)
]

unfoldable pub Reads : Memory → Addr → Rib → Type 0
Reads load path t = (q : Addr) (c : RadixNode) → cell_at t q ≡ some c → load (path ++ q) ≡ c

pub Reads-child :
    (load : Memory) (path : Addr) (c : RadixNode) (l r : Rib) (b : Bool)
    → Reads load path (node c l r)
    → Reads load (path ++ b ∷ []) (if b then r else l)
unfolding Reads
Reads-child load path c l r true h q d e =
    ap load (append_assoc path (true ∷ []) q) ∙ h (true ∷ q) d e
Reads-child load path c l r false h q d e =
    ap load (append_assoc path (false ∷ []) q) ∙ h (false ∷ q) d e

pub Reads-root :
    (load : Memory) (path : Addr) (c : RadixNode) (l r : Rib)
    → Reads load path (node c l r)
    → load path ≡ c
unfolding Reads
Reads-root load path c l r h = ap load (sym (append-nil path)) ∙ h [] c refl

cell-none : (t : Rib) → cell_at t [] ≡ none → t ≡ nil
cell-none nil e = refl
cell-none (node c l r) e = cc

walk_cached :
    (load : Memory) (b : ℕ → Bool) (n d : ℕ) (t : Rib) (path : Addr) (above : Option Addr)
    (c : RadixNode)
    → IsCached above path t
    → Reads load path t
    → cell_at t (bits b d n) ≡ some c
    → cell_at t (bits b d (suc n)) ≡ none
    → walk entry b d t (hop_at load above) ≡ hop_at load c.ext
unfolding walk
walk_cached load b n d nil path above c inv reads at last = cc
walk_cached load b zero d (node e l r) path above c inv reads at last = elim (Bool-cases (b d)) [
  | inl t ↦
      let gone = cell-none r (rw t at last) in
      rw (t, gone) (known ∙ ap (λ (x : RadixNode). hop_at load x.ext) (some_eq at))
  | inr t ↦
      let gone = cell-none l (rw t at last) in
      rw (t, gone) (known ∙ ap (λ (x : RadixNode). hop_at load x.ext) (some_eq at))
]
  where
    known : or_else (entry e) (hop_at load above) ≡ hop_at load e.ext
    known =
        sym (hop_at-here load e above path (Reads-root load path e l r reads))
        ∙ ap (hop_at load) (sym inv.0)
walk_cached load b (suc n) d (node e l r) path above c inv reads at last = elim (Bool-cases (b d)) [
  | inl t ↦
      rw (t, sym known)
        (walk_cached load b n (suc d) r (path ++ true ∷ []) (here e above path) c inv.3
          (Reads-child load path e l r true reads) (rw t at at) (rw t at last))
  | inr t ↦
      rw (t, sym known)
        (walk_cached load b n (suc d) l (path ++ false ∷ []) (here e above path) c inv.2
          (Reads-child load path e l r false reads) (rw t at at) (rw t at last))
]
  where
    known : hop_at load (here e above path) ≡ or_else (entry e) (hop_at load above)
    known = hop_at-here load e above path (Reads-root load path e l r reads)

pub ext_nh-hop_at :
    (load : Memory) (c : RadixNode) → ext_nh load c ≡ get_or_else (hop_at load c.ext) 0
ext_nh-hop_at load c = ground arith

-- In a RIB that keeps the invariant, `EXT_NH` of the last node on the path of an address is what
-- the lookup in the RIB returns for the address.
pub rib_lookup-ext_nh :
    (m : Machine) (root : Rib) (addr n : ℕ) (c : RadixNode)
    → IsCached none [] root
    → cell_at root (bits (key_bit m addr) 0 n) ≡ some c
    → cell_at root (bits (key_bit m addr) 0 (suc n)) ≡ none
    → rib_lookup m root addr ≡ ext_nh (memory m root) c
unfolding Reads
rib_lookup-ext_nh m root addr n c inv at last =
    rib_lookup-walk m root addr
    ∙ ap (λ o. get_or_else o 0)
        (walk_cached (memory m root) (key_bit m addr) n 0 root [] none c inv (λ q d e. rw e) at
          last)
    ∙ sym (ext_nh-hop_at (memory m root) c)
