-- ===== src/Rib/V6.antt =====
-- modified_poptrie/poptrie6.c: its functions on the RIB are those of poptrie4.c with addresses of
-- 128 bits.
use poptrie_project.Base.{ℕ, Bool, Option}
use poptrie_project.Rib.{Addr, Rib, Machine, lookup_from, RadixNode}
use poptrie_project.Rib.Route.{
  Status, Outcome, Routes, add_from, update_from, change_from, del_from, route_add, route_change,
  route_update, route_del, rib_lookup_hop,
}

-- `KEYLENGTH` of poptrie6.c, and of poptrie4.c.
abbrev pub v6 : Machine → Machine
v6 m = record m { keylength = 128 }

abbrev pub v4 : Machine → Machine
v4 m = record m { keylength = 32 }

-- `_route_add`.
abbrev pub add_from6 : Machine → Bool → ℕ → Rib → ℕ → ℕ → ℕ → Outcome
add_from6 m = add_from (v6 m)

-- `_route_update`.
abbrev pub update_from6 : Machine → Bool → ℕ → Rib → ℕ → ℕ → ℕ → Outcome
update_from6 m = update_from (v6 m)

-- `_route_change`.
abbrev pub change_from6 : Machine → Bool → ℕ → ℕ → ℕ → ℕ → Rib → Addr → Outcome
change_from6 m = change_from (v6 m)

-- `_route_del`.
abbrev pub del_from6 : Machine → Bool → ℕ → ℕ → ℕ → Rib → Addr → Option Addr → Outcome
del_from6 m = del_from (v6 m)

-- `_rib_lookup`.
abbrev pub lookup_from6 : Machine → Rib → ℕ → ℕ → Option RadixNode → ℕ
lookup_from6 m = lookup_from (v6 m)

-- `poptrie6_rib_lookup`.
abbrev pub rib_lookup_hop6 : Machine → Routes → ℕ → Option ℕ
rib_lookup_hop6 m = rib_lookup_hop (v6 m)

-- `poptrie6_route_add`.
abbrev pub route_add6 : Machine → Bool → ℕ → Routes → ℕ → ℕ → ℕ → Status × Routes
route_add6 m = route_add (v6 m)

-- `poptrie6_route_change`.
abbrev pub route_change6 : Machine → Bool → Routes → ℕ → ℕ → ℕ → Status × Routes
route_change6 m = route_change (v6 m)

-- `poptrie6_route_update`.
abbrev pub route_update6 : Machine → Bool → ℕ → Routes → ℕ → ℕ → ℕ → Status × Routes
route_update6 m = route_update (v6 m)

-- `poptrie6_route_del`.
abbrev pub route_del6 : Machine → Bool → Routes → ℕ → ℕ → Status × Routes
route_del6 m = route_del (v6 m)
