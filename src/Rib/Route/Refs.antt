-- ===== src/Rib/Route/Refs.antt =====
-- `poptrie_route_add`, `poptrie_route_change`, `poptrie_route_update` and `poptrie_route_del` of
-- modified_poptrie/poptrie4.c and poptrie6.c: the RIB together with the FIB mapping table.
use poptrie_project.Base.{
  ℕ, ◌≤◌, ◌<◌, ◌≡◌, ◌≢◌, refl, ◌∙◌, sym, ap, subst, Bool, true, Option, none, some, List, [], ◌⊎◌,
  arith, inl, inr, get_elem?,
}
use poptrie_project.Trie.{bits, table}
use poptrie_project.Fib.{FibEntry, fib_ref, fib_deref, fib_release, leaf_of}
use poptrie_project.Fib.Laws.{in_use, fib_ref-References, fib_deref-fib_ref}
use poptrie_project.Rib.{Rib, Machine, key_bit}
use poptrie_project.Rib.Table.{entry}
use poptrie_project.Rib.Inv.{everywhere}
use poptrie_project.Rib.Route.{
  Status, ok, err, Outcome, Routes, add_from, change_from, del_from, route_add, route_change,
  route_del, drop_ref,
}
use poptrie_project.Rib.Route.Effect.{AddSpec, ChangeSpec, DelSpec, Acts, Spec}
use poptrie_project.Rib.Route.Laws.{add_from-Acts, change_from-Acts, del_from-Acts}

route_add_ok :
    (m : Machine) (updated : Bool) (mem : ℕ) (s : Routes) (prefix len hop : ℕ)
    → let o = add_from m updated mem s.rib prefix len (leaf_of (fib_ref s.fib hop).0) in
      o.status ≡ ok
      → route_add m updated mem s prefix len hop
        ≡ (ok, record { rib = o.tree; fib = (fib_ref s.fib hop).1 })
unfolding route_add
route_add_ok m updated mem s prefix len hop e = rw (route_add, e)

route_add_err :
    (m : Machine) (updated : Bool) (mem : ℕ) (s : Routes) (prefix len hop : ℕ)
    → let o = add_from m updated mem s.rib prefix len (leaf_of (fib_ref s.fib hop).0) in
      o.status ≡ err
      → route_add m updated mem s prefix len hop
        ≡ (err, record { rib = o.tree; fib = fib_deref (fib_ref s.fib hop).1 hop })
unfolding route_add
route_add_err m updated mem s prefix len hop e = rw (route_add, e)

-- The value at a prefix by the specification of an addition, where it fails.
add_failed_value :
    (nexthop : ℕ) (before after dropped : Option ℕ) (st : Status) (short : Type 0)
    → st ≡ err
    → AddSpec nexthop before st after dropped
      ⊎ ((st ≡ err) × (after ≡ before) × (dropped ≡ none) × short)
    → after ≡ before
add_failed_value nexthop none after dropped st short e (inl h) = absurd (ok_ne_err (sym h.0 ∙ e))
  where
    ok_ne_err : ok ≡ err → ⊥
    ok_ne_err h = cc
add_failed_value nexthop (some old) after dropped st short e (inl h) = h.1
add_failed_value nexthop before after dropped st short e (inr h) = h.1

-- A `poptrie_route_add` that fails, while `_update_subtree` does not, changes nothing that counts:
-- the routing table and every entry in use of the FIB mapping table are as before.
pub route_add_atomic :
    (m : Machine) (mem : ℕ) (s : Routes) (prefix len hop : ℕ)
    → (route_add m true mem s prefix len hop).0 ≡ err
    → let s' = (route_add m true mem s prefix len hop).1 in
      ((q : List Bool) → table entry s'.rib q ≡ table entry s.rib q)
      × ((j : ℕ) → in_use (get_elem? s'.fib j) ≡ in_use (get_elem? s.fib j))
route_add_atomic m mem s prefix len hop failed = at (o.status) refl
  where
    nexthop : ℕ
    nexthop = leaf_of (fib_ref s.fib hop).0

    o : Outcome
    o = add_from m true mem s.rib prefix len nexthop

    acts : Acts (AddSpec nexthop) (mem ≤ len) (bits (key_bit m prefix) 0 len) s.rib o
    acts = add_from-Acts m mem s.rib prefix len nexthop

    at :
        (st : Status)
        → o.status ≡ st
        → let s' = (route_add m true mem s prefix len hop).1 in
          ((q : List Bool) → table entry s'.rib q ≡ table entry s.rib q)
          × ((j : ℕ) → in_use (get_elem? s'.fib j) ≡ in_use (get_elem? s.fib j))
    at ok e =
        absurd (contra (sym (ap (λ x. x.0) (route_add_ok m true mem s prefix len hop e)) ∙ failed))
      where
        contra : ok ≡ err → ⊥
        contra h = cc
    at err e = rw (route_add_err m true mem s prefix len hop e) (
      everywhere (table entry o.tree) (table entry s.rib) (bits (key_bit m prefix) 0 len)
          (add_failed_value nexthop _ _ _ o.status _ e acts.at) acts.others,
      λ j. fib_deref-fib_ref s.fib hop j,
    )

-- The specifications at a known or unknown prefix.
add_new :
    (spec : Spec) (before after dropped : Option ℕ) (st : Status) (short : Type 0)
    → ¬ short
    → spec before st after dropped ⊎ ((st ≡ err) × (after ≡ before) × (dropped ≡ none) × short)
    → spec before st after dropped
add_new spec before after dropped st short no_short (inl h) = h
add_new spec before after dropped st short no_short (inr h) = absurd (no_short h.3)

add_from_new :
    (m : Machine) (mem : ℕ) (root : Rib) (prefix len nexthop : ℕ)
    → table entry root (bits (key_bit m prefix) 0 len) ≡ none
    → len < mem
    → let o = add_from m true mem root prefix len nexthop in
      (o.status ≡ ok) × (table entry o.tree (bits (key_bit m prefix) 0 len) ≡ some nexthop)
add_from_new m mem root prefix len nexthop new enough =
    let o = add_from m true mem root prefix len nexthop in
    let p = bits (key_bit m prefix) 0 len in
    let h =
      add_new (AddSpec nexthop) (table entry root p) (table entry o.tree p) o.dropped o.status
        (mem ≤ len) (omega arith) (add_from-Acts m mem root prefix len nexthop).at in
    let k = subst (λ v. AddSpec nexthop v o.status (table entry o.tree p) o.dropped) new h in
    (k.0, k.1)

-- A new route, with a place below 65536 for its next hop in the FIB mapping table, enough memory for its nodes
-- and `_update_subtree` going well: `poptrie_route_add` returns 0, the prefix has an index afterwards whose entry names the next hop, and no other prefix changes.
pub route_add_names :
    (m : Machine) (mem : ℕ) (s : Routes) (prefix len hop n : ℕ)
    → table entry s.rib (bits (key_bit m prefix) 0 len) ≡ none
    → len < mem
    → (fib_ref s.fib hop).0 ≡ some n
    → n < 65536
    → let (st, s') = route_add m true mem s prefix len hop in
      (st ≡ ok)
      × (table entry s'.rib (bits (key_bit m prefix) 0 len) ≡ some n)
      × ((e : FibEntry) × (get_elem? s'.fib n ≡ some e) × (e.hop ≡ hop))
      × ((q : List Bool)
          → q ≢ bits (key_bit m prefix) 0 len
          → table entry s'.rib q ≡ table entry s.rib q)
route_add_names m mem s prefix len hop n new enough found small =
    let nexthop = leaf_of (fib_ref s.fib hop).0 in
    let h = add_from_new m mem s.rib prefix len nexthop new enough in
    let index : nexthop ≡ n = ap leaf_of found ∙ omega arith in
    rw (route_add_ok m true mem s prefix len hop h.0) (
      refl,
      h.1 ∙ ap some index,
      (fib_ref-References s.fib hop n found).names,
      (add_from-Acts m mem s.rib prefix len nexthop).others,
    )

-- With the FIB mapping table full, `poptrie_route_add` of a new route, with enough memory for its
-- nodes and `_update_subtree` going well, returns 0 all the same, and the route has the index 65535.
pub route_add_full :
    (m : Machine) (mem : ℕ) (s : Routes) (prefix len hop : ℕ)
    → table entry s.rib (bits (key_bit m prefix) 0 len) ≡ none
    → len < mem
    → (fib_ref s.fib hop).0 ≡ none
    → let (st, s') = route_add m true mem s prefix len hop in
      (st ≡ ok) × (table entry s'.rib (bits (key_bit m prefix) 0 len) ≡ some 65535)
route_add_full m mem s prefix len hop new enough full =
    let nexthop = leaf_of (fib_ref s.fib hop).0 in
    let h = add_from_new m mem s.rib prefix len nexthop new enough in
    let index : nexthop ≡ 65535 = ap leaf_of full in
    rw (route_add_ok m true mem s prefix len hop h.0) (refl, h.1 ∙ ap some index)

-- What an operation with a next hop does to the two tables where it is known what it drops.
meets :
    (spec : Spec) (p : List Bool) (t : Rib) (o : Outcome)
    → Acts spec ⊥ p t o
    → spec (table entry t p) o.status (table entry o.tree p) o.dropped
meets spec p t o a = add_new spec _ _ _ _ ⊥ (λ h. h) a.at

-- `poptrie_route_change` of an unknown route returns -1 and leaves the routing table alone, but
-- keeps the reference that it took on the next hop.
pub route_change_leak :
    (m : Machine) (s : Routes) (prefix len hop : ℕ)
    → table entry s.rib (bits (key_bit m prefix) 0 len) ≡ none
    → let (st, s') = route_change m true s prefix len hop in
      (st ≡ err)
      × ((q : List Bool) → table entry s'.rib q ≡ table entry s.rib q)
      × (s'.fib ≡ (fib_ref s.fib hop).1)
unfolding route_change
route_change_leak m s prefix len hop unknown =
    let nexthop = leaf_of (fib_ref s.fib hop).0 in
    let p = bits (key_bit m prefix) 0 len in
    let o = change_from m true prefix nexthop len 0 s.rib [] in
    let a = change_from-Acts m prefix nexthop len 0 s.rib [] in
    let k =
      subst (λ v. ChangeSpec nexthop v o.status (table entry o.tree p) o.dropped) unknown
        (meets (ChangeSpec nexthop) p s.rib o a) in
    (
      k.0,
      everywhere (table entry o.tree) (table entry s.rib) p (k.1 ∙ sym unknown) a.others,
      ap (drop_ref (fib_ref s.fib hop).1) k.2,
    )

-- `poptrie_route_change` of a known route returns 0, gives the prefix the index of the new next
-- hop, drops the reference on the old one, and changes no other prefix.
pub route_change_known :
    (m : Machine) (s : Routes) (prefix len hop old : ℕ)
    → table entry s.rib (bits (key_bit m prefix) 0 len) ≡ some old
    → let (st, s') = route_change m true s prefix len hop in
      (st ≡ ok)
      × (table entry s'.rib (bits (key_bit m prefix) 0 len) ≡ some (leaf_of (fib_ref s.fib hop).0))
      × ((q : List Bool)
          → q ≢ bits (key_bit m prefix) 0 len
          → table entry s'.rib q ≡ table entry s.rib q)
      × (s'.fib ≡ fib_release (fib_ref s.fib hop).1 old)
unfolding route_change
route_change_known m s prefix len hop old known =
    let nexthop = leaf_of (fib_ref s.fib hop).0 in
    let p = bits (key_bit m prefix) 0 len in
    let o = change_from m true prefix nexthop len 0 s.rib [] in
    let a = change_from-Acts m prefix nexthop len 0 s.rib [] in
    let k =
      subst (λ v. ChangeSpec nexthop v o.status (table entry o.tree p) o.dropped) known
        (meets (ChangeSpec nexthop) p s.rib o a) in
    (k.0, k.1, a.others, ap (drop_ref (fib_ref s.fib hop).1) k.2)

-- `poptrie_route_del` of a known route returns 0, leaves the prefix without a route, drops the
-- reference on its next hop, and changes no other prefix.
pub route_del_known :
    (m : Machine) (s : Routes) (prefix len old : ℕ)
    → table entry s.rib (bits (key_bit m prefix) 0 len) ≡ some old
    → let (st, s') = route_del m true s prefix len in
      (st ≡ ok)
      × (table entry s'.rib (bits (key_bit m prefix) 0 len) ≡ none)
      × ((q : List Bool)
          → q ≢ bits (key_bit m prefix) 0 len
          → table entry s'.rib q ≡ table entry s.rib q)
      × (s'.fib ≡ fib_release s.fib old)
unfolding route_del
route_del_known m s prefix len old known =
    let p = bits (key_bit m prefix) 0 len in
    let o = del_from m true prefix len 0 s.rib [] none in
    let a = del_from-Acts m prefix len 0 s.rib [] none in
    let k =
      subst (λ v. DelSpec v o.status (table entry o.tree p) o.dropped) known
        (meets DelSpec p s.rib o a) in
    (k.0, k.1, a.others, ap (drop_ref s.fib) k.2)
