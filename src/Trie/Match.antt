-- ===== src/Trie/Match.antt =====
-- Longest prefix match, stated of a routing table, and that the walk down a trie computes it.
use poptrie_project.Base.{
  ℕ, zero, suc, ◌<◌, ◌≡◌, refl, ◌∙◌, ◌⊎◌, inl, inr, Bool, Option, none, some, List, ◌∷◌, arith,
  Bool-cases, or_else,
}
use poptrie_project.Trie.{Trie, nil, node, bits, table, walk}

-- The answer that a table owes to a key: the value of the longest prefix of the key that has
-- one, and none if no prefix of the key has a value.
abbrev pub IsLongestMatch {κ} :
    {V : Type κ} → (List Bool → Option V) → (ℕ → Bool) → ℕ → Option V → Type κ
IsLongestMatch T b d none = (m : ℕ) → T (bits b d m) ≡ none
IsLongestMatch {V} T b d (some x) =
    (n : ℕ) × (T (bits b d n) ≡ some x) × ((m : ℕ) → n < m → T (bits b d m) ≡ none)

module _ {ℓ κ} {C : Type ℓ} {V : Type κ} (val : C → Option V) where
  -- What a walk below a trie finds, with a candidate from above.
  abbrev Finds : (ℕ → Bool) → ℕ → Trie C → Option V → Option V → Type κ
  Finds b d t cand out =
      ((x : V) × (out ≡ some x) × IsLongestMatch (table val t) b d (some x))
      ⊎ ((out ≡ cand) × IsLongestMatch (table val t) b d none)

  -- One step up from the child `s` on the key's side.
  module _ (b : ℕ → Bool) (d : ℕ) (c : C) (l r s : Trie C)
      (go : (p : List Bool) → table val (node c l r) (b d ∷ p) ≡ table val s p) where
    up_none :
        (n : ℕ)
        → ((m : ℕ) → n < suc m → table val s (bits b (suc d) m) ≡ none)
        → (m : ℕ) → n < m
        → table val (node c l r) (bits b d m) ≡ none
    up_none n h zero lt = elim lt [ ]
    up_none n h (suc m) lt = go (bits b (suc d) m) ∙ h m lt

    up_Finds :
        (cand out : Option V)
        → Finds b (suc d) s (or_else (val c) cand) out
        → Finds b d (node c l r) cand out
    up_Finds cand out (inl (x, e, (n, hit, above))) = inl (
      x,
      e,
      (suc n, go (bits b (suc d) n) ∙ hit, up_none (suc n) (λ m lt. above m (omega arith))),
    )
    up_Finds cand out (inr (e, empty)) = at_root (val c) refl e
      where
        all_none :
            (v : Option V)
            → val c ≡ v
            → v ≡ none
            → (m : ℕ) → table val (node c l r) (bits b d m) ≡ none
        all_none v ev en zero = ev ∙ en
        all_none v ev en (suc m) = go (bits b (suc d) m) ∙ empty m

        at_root :
            (v : Option V) → val c ≡ v → out ≡ or_else v cand → Finds b d (node c l r) cand out
        at_root none ev eo = inr (eo, all_none none ev refl)
        at_root (some x) ev eo = inl (x, eo, (zero, ev, up_none zero (λ m lt. empty m)))

  walk-Finds :
      (b : ℕ → Bool) (d : ℕ) (t : Trie C) (cand : Option V) → Finds b d t cand (walk val b d t cand)
  unfolding walk
  walk-Finds b d nil cand = inr (refl, λ m. refl)
  walk-Finds b d (node c l r) cand = elim (Bool-cases (b d)) [
    | inl e ↦
        rw e
          (up_Finds b d c l r r (λ p. rw e) cand _ (walk-Finds b (suc d) r (or_else (val c) cand)))
    | inr e ↦
        rw e
          (up_Finds b d c l r l (λ p. rw e) cand _ (walk-Finds b (suc d) l (or_else (val c) cand)))
  ]

  -- The walk from the root answers with the longest match.
  pub walk-IsLongestMatch :
      (b : ℕ → Bool) (d : ℕ) (t : Trie C) → IsLongestMatch (table val t) b d (walk val b d t none)
  walk-IsLongestMatch b d t = finish (walk val b d t none) (walk-Finds b d t none)
    where
      finish : (out : Option V) → Finds b d t none out → IsLongestMatch (table val t) b d out
      finish out (inl (x, e, m)) = rw e m
      finish out (inr (e, m)) = rw e m
