-- ===== src/Fib.antt =====
-- The FIB mapping table of modified_poptrie/poptrie_private.h and poptrie.h: the next hops that
-- the leaves name by their index, with reference counts.
-- A `void *` is a number. A count is an integer; that it stays within an `int` is not modelled.
pub mod Laws
mod Tests
use poptrie_project.Base.{
  ℕ, zero, suc, ◌%◌, ◌^◌, Bool, true, false, not, Option, none, some, List, [], ◌∷◌, if◌then◌else◌,
  ◌==◌, get_elem?, set,
}
use mathlib.Core.Option
use poptrie_project.Base.Int.{ℤ, pos, negsuc, succ, pred, is_positive}

-- `struct poptrie_fib_entry`.
pub record FibEntry : Type 0 where
  pub hop : ℕ
  pub refs : ℤ

-- `struct poptrie_fib`: the array `entries`; `sz` is its length.
abbrev pub Fib : Type 0
Fib = List FibEntry

-- The first loop of `poptrie_fib_ref`: the index of the first entry for the next hop.
pub find_hop : Fib → ℕ → Option ℕ
find_hop [] hop = none
find_hop (e ∷ es) hop =
    let rest = find_hop es hop in if e.hop == hop then some 0 else Option.map suc rest

-- The second loop: the index of the first entry with no references.
pub find_free : Fib → Option ℕ
find_free [] = none
find_free (e ∷ es) =
    let rest = find_free es in if is_positive e.refs then Option.map suc rest else some 0

-- `entries[i].refs` changed by `f`; an index outside the array is left alone.
pub update_refs : (ℤ → ℤ) → Fib → ℕ → Fib
update_refs f [] i = []
update_refs f (e ∷ es) zero = record e { refs = f e.refs } ∷ es
update_refs f (e ∷ es) (suc i) = e ∷ update_refs f es i

-- `poptrie_fib_ref`: the index, none for -1, and the table after it.
unfoldable pub fib_ref : Fib → ℕ → Option ℕ × Fib
unfolding find_hop find_free update_refs
fib_ref es hop = elim (find_hop es hop) [
  | some n ↦ (some n, update_refs succ es n)
  | none ↦ elim (find_free es) [
    | none ↦ (none, es)
    | some n ↦ (some n, set es n (record { hop = hop; refs = pos 1 }))
  ]
]

-- `poptrie_fib_deref`.
unfoldable pub fib_deref : Fib → ℕ → Fib
unfolding find_hop update_refs
fib_deref es hop = elim (find_hop es hop) [ none ↦ es | some n ↦ update_refs pred es n ]

-- `poptrie->fib.entries[n].refs--`.
unfoldable pub fib_release : Fib → ℕ → Fib
unfolding update_refs
fib_release es n = update_refs pred es n

-- The value of `poptrie_fib_ref` as the callers of poptrie4.c and poptrie6.c pass it on, in a
-- `poptrie_leaf_t`: -1 becomes 65535.
abbrev pub leaf_of : Option ℕ → ℕ
leaf_of none = 65535
leaf_of (some n) = n % 2 ^ 16
