-- ===== src/Rib/Inv.antt =====
-- The invariant of the RIB of modified_poptrie/poptrie.h: every `ext` points at the nearest valid
-- node, and what pointers read is what the tree holds.
use poptrie_project.Base.{
  suc, ◌<◌, ◌≡◌, ◌≢◌, refl, ◌∙◌, sym, ap, Bool, true, false, Option, none, some, List, [], ◌∷◌,
  ◌++◌, append-nil, append_assoc, arith, length, if◌then◌else◌, Bool-cases, inl, inr,
}
use poptrie_project.Trie.{nil, node, cell_at}
use poptrie_project.Rib.{Addr, RadixNode, Rib, Machine, Memory, memory, store, addr_eq, here}

pub here-valid :
    (c : RadixNode) (ext : Option Addr) (path : Addr) → c.valid ≡ true → here c ext path ≡ some path
unfolding here
here-valid c ext path v = rw v

pub here-invalid :
    (c : RadixNode) (ext : Option Addr) (path : Addr) → c.valid ≡ false → here c ext path ≡ ext
unfolding here
here-invalid c ext path v = rw v

-- `above` is the nearest valid node above the subtree at `path`.
abbrev pub IsCached : Option Addr → Addr → Rib → Type 0
IsCached above path nil = Unit
IsCached above path (node c l r) =
    (c.ext ≡ here c above path)
    × (c.valid ≡ true → c.len ≡ length path)
    × IsCached (here c above path) (path ++ false ∷ []) l
    × IsCached (here c above path) (path ++ true ∷ []) r

-- The length that pointers read at a valid node is its depth.
abbrev pub Loads : Memory → Addr → Rib → Type 0
Loads load path nil = Unit
Loads load path (node c l r) =
    (c.valid ≡ true → (load path).len ≡ length path)
    × Loads load (path ++ false ∷ []) l
    × Loads load (path ++ true ∷ []) r

pub length-snoc : (path : Addr) (b : Bool) → length (path ++ b ∷ []) ≡ suc (length path)
length-snoc [] b = refl
length-snoc (x ∷ path) b = ap suc (length-snoc path b)

pub addr_eq-length : (p q : Addr) → addr_eq p q ≡ true → length p ≡ length q
addr_eq-length [] [] e = refl
addr_eq-length [] (y ∷ q) e = cc
addr_eq-length (x ∷ p) [] e = cc
addr_eq-length (true ∷ p) (true ∷ q) e = ap suc (addr_eq-length p q e)
addr_eq-length (true ∷ p) (false ∷ q) e = cc
addr_eq-length (false ∷ p) (true ∷ q) e = cc
addr_eq-length (false ∷ p) (false ∷ q) e = ap suc (addr_eq-length p q e)

pub addr_eq_refl : (p : Addr) → addr_eq p p ≡ true
addr_eq_refl [] = refl
addr_eq_refl (true ∷ p) = addr_eq_refl p
addr_eq_refl (false ∷ p) = addr_eq_refl p

pub store_self : (load : Memory) (p : Addr) (c : RadixNode) → store load p c p ≡ c
store_self load p c = rw (addr_eq_refl p)

-- A write at an address is not seen at addresses of another length.
pub store_other :
    (load : Memory) (p q : Addr) (c : RadixNode) → length p < length q → store load p c q ≡ load q
store_other load p q c lt = elim (Bool-cases (addr_eq q p)) [
  | inl e ↦ absurd (omega (arith, addr_eq-length q p e))
  | inr e ↦ rw e
]

pub store_above :
    (load : Memory) (p q : Addr) (c : RadixNode) → length q < length p → store load p c q ≡ load q
store_above load p q c lt = elim (Bool-cases (addr_eq q p)) [
  | inl e ↦ absurd (omega (arith, addr_eq-length q p e))
  | inr e ↦ rw e
]

-- A write above a subtree is not seen in it.
pub Loads-store :
    (load : Memory) (p : Addr) (c : RadixNode) (path : Addr) (t : Rib)
    → length p < length path
    → Loads load path t
    → Loads (store load p c) path t
Loads-store load p c path nil lt h = tt
Loads-store load p c path (node d l r) lt h = (
  λ v. ap (λ x. x.len) (store_other load p path c lt) ∙ h.0 v,
  Loads-store load p c (path ++ false ∷ []) l (omega (arith, length-snoc path false)) h.1,
  Loads-store load p c (path ++ true ∷ []) r (omega (arith, length-snoc path true)) h.2,
)

cached-Loads :
    (load : Memory) (above : Option Addr) (path : Addr) (t : Rib)
    → ((q : Addr) (c : RadixNode) → cell_at t q ≡ some c → load (path ++ q) ≡ c)
    → IsCached above path t
    → Loads load path t
cached-Loads load above path nil reads inv = tt
cached-Loads load above path (node c l r) reads inv = (
  λ v. ap (λ (x : RadixNode). x.len) (ap load (sym (append-nil path)) ∙ reads [] c refl) ∙ inv.1 v,
  cached-Loads load (here c above path) (path ++ false ∷ []) l (below false) inv.2,
  cached-Loads load (here c above path) (path ++ true ∷ []) r (below true) inv.3,
)
  where
    below :
        (b : Bool) (q : Addr) (d : RadixNode)
        → cell_at (if b then r else l) q ≡ some d
        → load ((path ++ b ∷ []) ++ q) ≡ d
    below true q d e = ap load (append_assoc path (true ∷ []) q) ∙ reads (true ∷ q) d e
    below false q d e = ap load (append_assoc path (false ∷ []) q) ∙ reads (false ∷ q) d e

-- The memory of a tree reads the tree.
pub memory-Loads :
    (m : Machine) (root : Rib) → IsCached none [] root → Loads (memory m root) [] root
memory-Loads m root inv = cached-Loads (memory m root) none [] root (λ q c e. rw e) inv

-- The test on addresses decides their equality.
pub addr_eq_sound : (p q : Addr) → addr_eq p q ≡ true → p ≡ q
addr_eq_sound [] [] e = refl
addr_eq_sound [] (y ∷ q) e = cc
addr_eq_sound (x ∷ p) [] e = cc
addr_eq_sound (true ∷ p) (true ∷ q) e = ap (λ x. true ∷ x) (addr_eq_sound p q e)
addr_eq_sound (true ∷ p) (false ∷ q) e = cc
addr_eq_sound (false ∷ p) (true ∷ q) e = cc
addr_eq_sound (false ∷ p) (false ∷ q) e = ap (λ x. false ∷ x) (addr_eq_sound p q e)

-- Two tables agree if they agree at a prefix and at all others.
pub everywhere {ℓ} :
    {V : Type ℓ} (S T : List Bool → V) (p : Addr)
    → S p ≡ T p
    → ((q : Addr) → q ≢ p → S q ≡ T q)
    → (q : Addr) → S q ≡ T q
everywhere S T p at others q = elim (Bool-cases (addr_eq q p)) [
  | inl e ↦ let same = addr_eq_sound q p e in rw same at
  | inr e ↦ others q (λ same. true_ne_false (sym (addr_eq_refl q) ∙ ap (addr_eq q) same ∙ e))
]
  where
    true_ne_false : true ≡ false → ⊥
    true_ne_false h = cc
