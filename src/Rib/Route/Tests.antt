-- ===== src/Rib/Route/Tests.antt =====
-- Runs of the route operations of modified_poptrie/poptrie4.c and poptrie6.c on the RIB, and the
-- theorems at concrete inputs.
use poptrie_project.Base.{
  ℕ, ◌≡◌, ◌≢◌, refl, Bool, true, false, Option, none, some, List, [], ◌∷◌, arith, get_elem?,
  get_or_else, ◌≤◌,
}
use poptrie_project.Base.Int.{pos}
use poptrie_project.Trie.{nil, bits, table, size}
use poptrie_project.Trie.Match.{IsLongestMatch}
use poptrie_project.Fib.{Fib, FibEntry, fib_ref}
use poptrie_project.Fib.Laws.{in_use}
use poptrie_project.Rib.{RadixNode, Machine, memory, ext_nh, key_bit, rib_lookup, here}
use poptrie_project.Rib.Inv.{IsCached}
use poptrie_project.Rib.Table.{entry, rib_lookup-IsLongestMatch}
use poptrie_project.Rib.Cache.{rib_lookup-ext_nh}
use poptrie_project.Rib.V6.{v4, v6}
use poptrie_project.Rib.Route.{
  ok, err, Routes, add_from, update_from, change_from, del_from, route_add, route_change, route_del,
  rib_lookup_hop,
}
use poptrie_project.Rib.Route.Reach.{Reachable, start, add, del, Reachable-IsCached}
use poptrie_project.Rib.Route.Size.{size-del_from}
use poptrie_project.Rib.Route.Effect.{Acts, AddSpec, UpdateSpec, ChangeSpec, DelSpec}
use poptrie_project.Rib.Route.Laws.{
  add_from-Acts, update_from-Acts, change_from-Acts, del_from-Acts,
}
use poptrie_project.Rib.Route.Refs.{
  route_add_atomic, route_add_names, route_add_full, route_change_leak,
}

abbrev blank : RadixNode
blank = record { valid = false; len = 0; nexthop = 0; ext = none; mark = false }

abbrev m4 : Machine
m4 = v4 (record { keylength = 0; uninit = blank; wild_bit = λ _ _. false })

abbrev m6 : Machine
m6 = v6 m4

-- The next hops 70 at 128.0.0.0/1 and 80 at 160.0.0.0/3.
abbrev free_slots : Fib
free_slots =
    record { hop = 0; refs = pos 1 }
    ∷ record { hop = 0; refs = pos 0 }
    ∷ record { hop = 0; refs = pos 0 }
    ∷ []

abbrev no_routes : Routes
no_routes = record { rib = nil; fib = free_slots }

one : Routes
unfolding route_add
one = (route_add m4 true 9 no_routes 0x80000000 1 70).1

two : Routes
unfolding one
two = (route_add m4 true 9 one 0xa0000000 3 80).1

lookups :
    (rib_lookup_hop m4 two 0x80000001 ≡ some 70)
    × (rib_lookup_hop m4 two 0xaa000000 ≡ some 80)
    × (rib_lookup_hop m4 two 0x0a000000 ≡ some 0)
unfolding two rib_lookup_hop
lookups = (refl, refl, refl)

-- A route of 32 bits, whose lookup tests a bit behind the last.
host : Routes
unfolding route_add
host = (route_add m4 true 40 no_routes 0x0a000001 32 70).1

host_lookup : rib_lookup_hop m4 host 0x0a000001 ≡ some 70
unfolding host rib_lookup_hop
host_lookup = refl

after_del : (route_del m4 true two 0x80000000 1).0 ≡ ok
unfolding two route_del
after_del = refl

rib_lookup-IsLongestMatch_example :
    (best : Option ℕ) × (rib_lookup m4 two.rib 0xaa000000 ≡ get_or_else best 0)
    × IsLongestMatch (table entry two.rib) (key_bit m4 0xaa000000) 0 best
rib_lookup-IsLongestMatch_example = rib_lookup-IsLongestMatch m4 two.rib 0xaa000000

-- The RIB after the second route, by the theorem on additions.
two-IsCached : IsCached none [] two.rib
unfolding two here
two-IsCached = (
  refl,
  (λ v. cc),
  tt,
  (refl, (λ v. refl), (refl, (λ v. cc), tt, (refl, (λ v. refl), tt, tt)), tt),
)

-- The node of 160.0.0.0/3.
abbrev last : RadixNode
last = record {
  valid = true;
  len = 3;
  nexthop = 2;
  ext = some (true ∷ false ∷ true ∷ []);
  mark = false;
}

rib_lookup-ext_nh_example : rib_lookup m4 two.rib 0xaa000000 ≡ ext_nh (memory m4 two.rib) last
unfolding two key_bit
rib_lookup-ext_nh_example = rib_lookup-ext_nh m4 two.rib 0xaa000000 3 last two-IsCached refl refl

-- The RIB of the routes 128.0.0.0/1 and 160.0.0.0/3, the second one deleted again.
abbrev run :
    Reachable m4
      (del_from m4 true 0xa0000000 3 0
        (add_from m4 true 9 (add_from m4 true 9 nil 0x80000000 1 1).tree 0xa0000000 3 2).tree
        []
        none).tree
run = del _ true 0xa0000000 3 (add _ true 9 0xa0000000 3 2 (add _ true 9 0x80000000 1 1 start))

Reachable-IsCached_example :
    IsCached none []
      (del_from m4 true 0xa0000000 3 0
        (add_from m4 true 9 (add_from m4 true 9 nil 0x80000000 1 1).tree 0xa0000000 3 2).tree
        []
        none).tree
Reachable-IsCached_example =
    Reachable-IsCached m4
      (del_from m4 true 0xa0000000 3 0
        (add_from m4 true 9 (add_from m4 true 9 nil 0x80000000 1 1).tree 0xa0000000 3 2).tree []
        none).tree
      run

size-del_from_example : size (del_from m4 true 0xa0000000 3 0 two.rib [] none).tree ≡ size two.rib
size-del_from_example = size-del_from m4 true 0xa0000000 3 0 two.rib [] none

add_from-Acts_example :
    Acts
      (AddSpec 2)
      (9 ≤ 2)
      (bits (key_bit m4 0xc0000000) 0 2)
      two.rib
      (add_from m4 true 9 two.rib 0xc0000000 2 2)
add_from-Acts_example = add_from-Acts m4 9 two.rib 0xc0000000 2 2

update_from-Acts_example :
    Acts
      (UpdateSpec 2)
      (9 ≤ 2)
      (bits (key_bit m6 0) 0 2)
      two.rib
      (update_from m6 true 9 two.rib 0 2 2)
update_from-Acts_example = update_from-Acts m6 9 two.rib 0 2 2

change_from-Acts_example :
    Acts
      (ChangeSpec 5)
      ⊥
      (bits (key_bit m4 0x80000000) 0 1)
      two.rib
      (change_from m4 true 0x80000000 5 1 0 two.rib [])
change_from-Acts_example = change_from-Acts m4 0x80000000 5 1 0 two.rib []

del_from-Acts_example :
    Acts DelSpec ⊥
      (bits (key_bit m4 0x80000000) 0 1)
      two.rib
      (del_from m4 true 0x80000000 1 0 two.rib [] none)
del_from-Acts_example = del_from-Acts m4 0x80000000 1 0 two.rib [] none

known_fails : (route_add m4 true 9 two 0x80000000 1 90).0 ≡ err
unfolding two route_add
known_fails = refl

route_add_atomic_example :
    let s' = (route_add m4 true 9 two 0x80000000 1 90).1 in
    ((q : List Bool) → table entry s'.rib q ≡ table entry two.rib q)
    × ((j : ℕ) → in_use (get_elem? s'.fib j) ≡ in_use (get_elem? two.fib j))
route_add_atomic_example = route_add_atomic m4 9 two 0x80000000 1 90 known_fails

route_add_names_example :
    let (st, s') = route_add m4 true 9 one 0xa0000000 3 80 in
    (st ≡ ok)
    × (table entry s'.rib (bits (key_bit m4 0xa0000000) 0 3) ≡ some 2)
    × ((e : FibEntry) × (get_elem? s'.fib 2 ≡ some e) × (e.hop ≡ 80))
    × ((q : List Bool)
        → q ≢ bits (key_bit m4 0xa0000000) 0 3
        → table entry s'.rib q ≡ table entry one.rib q)
unfolding one fib_ref key_bit
route_add_names_example =
    route_add_names m4 9 one 0xa0000000 3 80 2 refl (omega arith) refl (omega arith)

-- Both slots besides the default entry are taken.
route_add_full_example :
    let (st, s') = route_add m6 true 9 two 0 1 90 in
    (st ≡ ok) × (table entry s'.rib (bits (key_bit m6 0) 0 1) ≡ some 65535)
unfolding two fib_ref key_bit
route_add_full_example = route_add_full m6 9 two 0 1 90 refl (omega arith) refl

route_change_leak_example :
    let (st, s') = route_change m4 true two 0 1 70 in
    (st ≡ err)
    × ((q : List Bool) → table entry s'.rib q ≡ table entry two.rib q)
    × (s'.fib ≡ (fib_ref two.fib 70).1)
unfolding two key_bit
route_change_leak_example = route_change_leak m4 two 0 1 70 refl
