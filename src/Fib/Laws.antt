-- ===== src/Fib/Laws.antt =====
-- What `poptrie_fib_ref` and `poptrie_fib_deref` of modified_poptrie/poptrie_private.h guarantee.
use poptrie_project.Base.{
  ℕ, zero, suc, ◌≡◌, ◌≢◌, ◌↔◌, ◌∙◌, refl, ap, true, false, Option, none, some, [], ◌∷◌, arith, inl,
  inr, if◌then◌else◌, ◌==◌, Bool-cases, Option-cases, get_elem?, set, length, ◌<◌,
  get_elem?-set_self, get_elem?-set_ne,
}
use poptrie_project.Base.Int.{ℤ, pos, succ, pred, is_positive, pred-succ}
use poptrie_project.Fib.{FibEntry, Fib, find_hop, find_free, update_refs, fib_ref, fib_deref}

-- The first entry for a hop names it, and no entry before it does.
find_hop-some :
    (es : Fib) (hop n : ℕ)
    → find_hop es hop ≡ some n
    → (e : FibEntry) × (get_elem? es n ≡ some e) × (e.hop ≡ hop)
unfolding find_hop
find_hop-some [] hop n h = cc
find_hop-some (e ∷ es) hop zero h = (e, refl, ground (arith, Option-cases (find_hop es hop)))
find_hop-some (e ∷ es) hop (suc n) h =
    find_hop-some es hop n (ground (arith, Option-cases (find_hop es hop)))

find_hop-none :
    (es : Fib) (hop n : ℕ) {e : FibEntry}
    → find_hop es hop ≡ none
    → get_elem? es n ≡ some e
    → e.hop ≢ hop
unfolding find_hop
find_hop-none [] hop n h g = cc
find_hop-none (e ∷ es) hop zero h g = ground (arith, Option-cases (find_hop es hop))
find_hop-none (e ∷ es) hop (suc n) h g =
    find_hop-none es hop n (ground (arith, Option-cases (find_hop es hop))) g

find_free-some :
    (es : Fib) (n : ℕ)
    → find_free es ≡ some n
    → (e : FibEntry) × (get_elem? es n ≡ some e) × (is_positive e.refs ≡ false)
unfolding find_free
find_free-some [] n h = cc
find_free-some (e ∷ es) zero h = (e, refl, ground (arith, Option-cases (find_free es)))
find_free-some (e ∷ es) (suc n) h =
    find_free-some es n (ground (arith, Option-cases (find_free es)))

find_free-none :
    (es : Fib) (n : ℕ) {e : FibEntry}
    → find_free es ≡ none
    → get_elem? es n ≡ some e
    → is_positive e.refs ≡ true
unfolding find_free
find_free-none [] n h g = cc
find_free-none (e ∷ es) zero h g = ground (arith, Option-cases (find_free es))
find_free-none (e ∷ es) (suc n) h g =
    find_free-none es n (ground (arith, Option-cases (find_free es))) g

update_refs_self :
    (f : ℤ → ℤ) (es : Fib) (n : ℕ) {e : FibEntry}
    → get_elem? es n ≡ some e
    → get_elem? (update_refs f es n) n ≡ some (record e { refs = f e.refs })
unfolding update_refs
update_refs_self f [] n g = cc
update_refs_self f (x ∷ es) zero g = ground arith
update_refs_self f (x ∷ es) (suc n) g = update_refs_self f es n g

update_refs-ne :
    (f : ℤ → ℤ) (es : Fib) (n j : ℕ) → n ≢ j → get_elem? (update_refs f es n) j ≡ get_elem? es j
unfolding update_refs
update_refs-ne f [] n j ne = refl
update_refs-ne f (x ∷ es) zero zero ne = absurd (ne refl)
update_refs-ne f (x ∷ es) zero (suc j) ne = refl
update_refs-ne f (x ∷ es) (suc n) zero ne = refl
update_refs-ne f (x ∷ es) (suc n) (suc j) ne = update_refs-ne f es n j (λ e. ne (ap suc e))

find_hop-update_refs :
    (f : ℤ → ℤ) (es : Fib) (n hop : ℕ) → find_hop (update_refs f es n) hop ≡ find_hop es hop
unfolding find_hop update_refs
find_hop-update_refs f [] n hop = refl
find_hop-update_refs f (x ∷ es) zero hop = refl
find_hop-update_refs f (x ∷ es) (suc n) hop = rw (find_hop-update_refs f es n hop)

find_hop-set :
    (es : Fib) (n : ℕ) (e old : FibEntry)
    → find_hop es e.hop ≡ none
    → get_elem? es n ≡ some old
    → find_hop (set es n e) e.hop ≡ some n
unfolding find_hop
find_hop-set [] n e old h g = cc
find_hop-set (x ∷ es) zero e old h g = ground arith
find_hop-set (x ∷ es) (suc n) e old h g =
    ground (arith, Option-cases (find_hop es e.hop), find_hop-set es n e old)

get_elem?-lt-length : (es : Fib) (n : ℕ) {e : FibEntry} → get_elem? es n ≡ some e → n < length es
get_elem?-lt-length [] n g = cc
get_elem?-lt-length (x ∷ es) zero g = omega arith
get_elem?-lt-length (x ∷ es) (suc n) g = omega (arith, get_elem?-lt-length es n g)

-- What taking a reference on a next hop promises of the index `n`: the entry names the hop, a
-- slot in use is not taken from another hop but counted up, and no other entry changes.
pub record References (es : Fib) (hop n : ℕ) (es' : Fib) : Type 0 where
  pub names : (e : FibEntry) × (get_elem? es' n ≡ some e) × (e.hop ≡ hop)
  pub counted :
      (e : FibEntry)
      → get_elem? es n ≡ some e
      → is_positive e.refs ≡ true
      → (e.hop ≡ hop) × (get_elem? es' n ≡ some (record e { refs = succ e.refs }))
  pub others : (j : ℕ) → n ≢ j → get_elem? es' j ≡ get_elem? es j

found-References :
    (es : Fib) (hop n : ℕ) → find_hop es hop ≡ some n → References es hop n (update_refs succ es n)
found-References es hop n h =
    let (e, g, names) = find_hop-some es hop n h in
    record {
      names = (record e { refs = succ e.refs }, update_refs_self succ es n g, names);
      counted = λ x gx pos. (ground arith, update_refs_self succ es n gx);
      others = λ j ne. update_refs-ne succ es n j ne;
    }

fresh-References :
    (es : Fib) (hop n : ℕ)
    → find_free es ≡ some n
    → References es hop n (set es n (record { hop = hop; refs = pos 1 }))
fresh-References es hop n h =
    let (e, g, free) = find_free-some es n h in
    record {
      names = (
        record { hop = hop; refs = pos 1 },
        get_elem?-set_self es n _ (get_elem?-lt-length es n g),
        refl,
      );
      counted = λ x gx pos. absurd (ground arith);
      others = λ j ne. get_elem?-set_ne es n j _ ne;
    }

-- Where `poptrie_fib_ref` returns an index, the entry there names the next hop, a slot in use has
-- not been taken from another next hop but counted up by one, and no other entry has changed.
pub fib_ref-References :
    (es : Fib) (hop n : ℕ) → (fib_ref es hop).0 ≡ some n → References es hop n (fib_ref es hop).1
unfolding fib_ref
fib_ref-References es hop n h = elim (Option-cases (find_hop es hop)) [
  | inr (i, e) ↦
      let same : i ≡ n = ground arith in
      rw (fib_ref, e, same) (found-References es hop n (rw (← same) e))
  | inl e ↦ elim (Option-cases (find_free es)) [
    | inr (i, f) ↦
        let same : i ≡ n = ground arith in
        rw (fib_ref, e, f, same) (fresh-References es hop n (rw (← same) f))
    | inl f ↦ absurd (ground arith)
  ]
]

-- `poptrie_fib_ref` returns -1 exactly if every entry is in use for some other next hop, and then
-- it changes nothing.
pub fib_ref_full :
    (es : Fib) (hop : ℕ)
    → ((fib_ref es hop).0 ≡ none) ↔ (
        (j : ℕ) (e : FibEntry)
        → get_elem? es j ≡ some e
        → (is_positive e.refs ≡ true) × (e.hop ≢ hop))
unfolding fib_ref
fib_ref_full es hop = (full, is_full)
  where
    full :
        (fib_ref es hop).0 ≡ none
        → (j : ℕ) (e : FibEntry) → get_elem? es j ≡ some e
        → (is_positive e.refs ≡ true) × (e.hop ≢ hop)
    full h j e g =
        let no_hop : find_hop es hop ≡ none =
          ground (arith, Option-cases (find_hop es hop), Option-cases (find_free es)) in
        let no_free : find_free es ≡ none =
          ground (arith, Option-cases (find_hop es hop), Option-cases (find_free es)) in
        (find_free-none es j no_free g, find_hop-none es hop j no_hop g)

    is_full :
        ((j : ℕ) (e : FibEntry)
          → get_elem? es j ≡ some e
          → (is_positive e.refs ≡ true) × (e.hop ≢ hop))
        → (fib_ref es hop).0 ≡ none
    is_full all = elim (Option-cases (find_hop es hop)) [
      | inr (i, e) ↦ let (x, g, s) = find_hop-some es hop i e in absurd ((all i x g).1 s)
      | inl e ↦ elim (Option-cases (find_free es)) [
        | inr (i, f) ↦ let (x, g, s) = find_free-some es i f in absurd (ground (arith, all i x g))
        | inl f ↦ rw (fib_ref, e, f)
      ]
    ]

-- The entries that are in use: a slot without references may hold anything.
abbrev pub in_use : Option FibEntry → Option FibEntry
in_use none = none
in_use (some e) = if is_positive e.refs then some e else none

update_refs-pred-succ : (es : Fib) (n : ℕ) → update_refs pred (update_refs succ es n) n ≡ es
unfolding update_refs
update_refs-pred-succ [] n = refl
update_refs-pred-succ (x ∷ es) zero = rw pred-succ
update_refs-pred-succ (x ∷ es) (suc n) = ap (λ r. x ∷ r) (update_refs-pred-succ es n)

in_use_free :
    (es : Fib) (n j : ℕ) (e old : FibEntry)
    → get_elem? es n ≡ some old
    → is_positive old.refs ≡ false
    → e.refs ≡ pos 1
    → in_use (get_elem? (update_refs pred (set es n e) n) j) ≡ in_use (get_elem? es j)
in_use_free es n j e old g free one = elim (Bool-cases (n == j)) [
  | inl t ↦
      let same : n ≡ j = ground arith in
      let now : get_elem? (update_refs pred (set es n e) n) n
          ≡ some (record e { refs = pred e.refs }) =
        update_refs_self pred (set es n e) n
          (get_elem?-set_self es n e (get_elem?-lt-length es n g)) in
      rw (← same, now, one, g, free)
  | inr f ↦
      let differ : n ≢ j = ground arith in
      rw (update_refs-ne pred (set es n e) n j differ, get_elem?-set_ne es n j e differ)
]

fib_ref_found :
    (es : Fib) (hop n : ℕ)
    → find_hop es hop ≡ some n
    → fib_ref es hop ≡ (some n, update_refs succ es n)
unfolding fib_ref
fib_ref_found es hop n e = rw (fib_ref, e)

fib_ref_fresh :
    (es : Fib) (hop n : ℕ)
    → find_hop es hop ≡ none
    → find_free es ≡ some n
    → fib_ref es hop ≡ (some n, set es n (record { hop = hop; refs = pos 1 }))
unfolding fib_ref
fib_ref_fresh es hop n e f = rw (fib_ref, e, f)

fib_deref_found :
    (es : Fib) (hop n : ℕ) → find_hop es hop ≡ some n → fib_deref es hop ≡ update_refs pred es n
unfolding fib_deref
fib_deref_found es hop n e = rw (fib_deref, e)

fib_deref_missing : (es : Fib) (hop : ℕ) → find_hop es hop ≡ none → fib_deref es hop ≡ es
unfolding fib_deref
fib_deref_missing es hop e = rw (fib_deref, e)

fib_ref_unchanged :
    (es : Fib) (hop : ℕ)
    → find_hop es hop ≡ none
    → find_free es ≡ none
    → fib_ref es hop ≡ (none, es)
unfolding fib_ref
fib_ref_unchanged es hop e f = rw (fib_ref, e, f)

-- Giving back a reference restores every entry in use, also where there was no entry to take.
pub fib_deref-fib_ref :
    (es : Fib) (hop j : ℕ)
    → in_use (get_elem? (fib_deref (fib_ref es hop).1 hop) j) ≡ in_use (get_elem? es j)
fib_deref-fib_ref es hop j = elim (Option-cases (find_hop es hop)) [
  | inr (n, e) ↦
      let again = fib_deref_found _ hop n (find_hop-update_refs succ es n hop ∙ e) in
      rw (fib_ref_found es hop n e, again, update_refs-pred-succ es n)
  | inl e ↦ elim (Option-cases (find_free es)) [
    | inl f ↦ rw (fib_ref_unchanged es hop e f, fib_deref_missing es hop e)
    | inr (n, f) ↦
        let (old, g, free) = find_free-some es n f in
        let fresh : FibEntry = record { hop = hop; refs = pos 1 } in
        let again = fib_deref_found _ hop n (find_hop-set es n fresh old e g) in
        rw (fib_ref_fresh es hop n e f, again) (in_use_free es n j fresh old g free refl)
  ]
]
