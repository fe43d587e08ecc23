-- ===== src/Poptrie/Inode/Slots.antt =====
-- The loop of `_update_inode` in modified_poptrie/poptrie_private.h fills in a slot for each entry.
use poptrie_project.Base.{
  ◌&&◌, ℕ, zero, suc, ◌+◌, ◌<◌, ◌≤◌, ◌≡◌, refl, ◌∙◌, sym, ap, ap₂, ◌≢◌, Bool, true, false, Option,
  none, some, List, [], ◌∷◌, arith, length, get_elem?, Bool-cases, inl, inr, some_eq,
}
use mathlib.Core.Option
use poptrie_project.Vec.{Vec, vec_bt}
use poptrie_project.Rib.{Rib, Memory}
use poptrie_project.Poptrie.{PoptrieNode, Arrays, leaf_at}
use poptrie_project.Poptrie.Leaves.{leaf}
use poptrie_project.Poptrie.Part.{old_child}
use poptrie_project.Poptrie.Part.View.{HasEntries}
use poptrie_project.Poptrie.Inode.{
  Writes, after, Slot, compressed, built, Chunk, needs_update, ninode, copy_old, slot_leaf, slot,
  slots, vector_of, items_of, children_of,
}

-- The slots are those of the entries.
abbrev pub Fills :
    Memory → Arrays → Option PoptrieNode → Chunk → ℕ → List Rib → Vec → List Slot → Type 0
Fills load a old chunk i nodes v ss =
    (j : ℕ) (t : Rib) (b : Bool)
    → get_elem? nodes j ≡ some t
    → get_elem? v j ≡ some b
    → get_elem? ss j ≡ slot load a old chunk (i + j) t b

Fills-cons :
    (load : Memory) (a : Arrays) (old : Option PoptrieNode) (chunk : Chunk) (i : ℕ) (t : Rib)
    (nodes : List Rib) (b : Bool) (v : Vec) (s : Slot) (ss : List Slot)
    → slot load a old chunk i t b ≡ some s
    → Fills load a old chunk (suc i) nodes v ss
    → Fills load a old chunk i (t ∷ nodes) (b ∷ v) (s ∷ ss)
Fills-cons load a old chunk i t nodes b v s ss e h zero t' b' p q =
    let at : i ≡ i + 0 = omega arith in
    sym e
    ∙ ap (λ k. slot load a old chunk k t b) at
    ∙ ap₂ (λ t b. slot load a old chunk (i + 0) t b) (some_eq p) (some_eq q)
Fills-cons load a old chunk i t nodes b v s ss e h (suc j) t' b' p q =
    h j t' b' p q ∙ ap (λ k. slot load a old chunk k t' b') (omega arith)

-- Every entry below 64 of the old node is something, where there is an old node.
abbrev pub OldEntries : Arrays → Option PoptrieNode → Type 0
OldEntries a none = Unit
OldEntries a (some o) = HasEntries a o

pub slot-total :
    (load : Memory) (a : Arrays) (old : Option PoptrieNode) (chunk : Chunk) (i : ℕ) (t : Rib)
    (b : Bool)
    → OldEntries a old
    → ((i : ℕ) (t : Rib) (n : Option ℕ) → (s : Slot) × (chunk i t n ≡ some s))
    → i < 64
    → (s : Slot) × (slot load a old chunk i t b ≡ some s)
unfolding slot copy_old
slot-total load a old chunk i t false has works lt = (slot_leaf load t, refl)
slot-total load a none chunk i t true has works lt = works i t none
slot-total load a (some o) chunk i t true has works lt =
    elim (Bool-cases (needs_update (some o) t)) [
      | inl u ↦ let (s, e) = works i t (ninode (some o) i) in (s, rw (slot, u) e)
      | inr u ↦ elim (Bool-cases (vec_bt o.vector i)) [
        | inl s ↦ let (c, e) = has.children i lt s in (built c, rw (slot, u, copy_old, s, e) refl)
        | inr s ↦
            let (hop, e) = has.leaves i lt s in (compressed hop, rw (slot, u, copy_old, s, e) refl)
      ]
    ]

-- The entries of the old node are the same in the two arrays.
abbrev pub SameOld : Option PoptrieNode → Arrays → Arrays → Type 0
SameOld none a a' = Unit
SameOld (some o) a a' =
    ((i : ℕ) → leaf_at a' o i ≡ leaf_at a o i)
    × ((i : ℕ) → old_child o i a'.nodes ≡ old_child o i a.nodes)

pub SameOld-refl : (old : Option PoptrieNode) (a : Arrays) → SameOld old a a
SameOld-refl none a = tt
SameOld-refl (some o) a = ((λ i. refl), (λ i. refl))

slot-SameOld :
    (load : Memory) (a a' : Arrays) (old : Option PoptrieNode) (chunk : Chunk) (i : ℕ) (t : Rib)
    (b : Bool)
    → SameOld old a a'
    → slot load a' old chunk i t b ≡ slot load a old chunk i t b
unfolding slot copy_old
slot-SameOld load a a' old chunk i t false same = refl
slot-SameOld load a a' none chunk i t true same = refl
slot-SameOld load a a' (some o) chunk i t true (leaves, children) =
    elim (Bool-cases (needs_update (some o) t)) [
      | inl u ↦ rw (slot, u) refl
      | inr u ↦ elim (Bool-cases (vec_bt o.vector i)) [
        | inl s ↦ rw (slot, u, copy_old, s) (ap (Option.map (λ n. built n)) (children i))
        | inr s ↦ rw (slot, u, copy_old, s) (ap (Option.map (λ hop. compressed hop)) (leaves i))
      ]
    ]

pub after-SameOld :
    (a a' : Arrays) (old : Option PoptrieNode) (writes : Writes) (i : ℕ) (t : Rib) (b : Bool)
    → ((i : ℕ) (a' : Arrays) → SameOld old a a' → SameOld old a (writes i a'))
    → SameOld old a a'
    → SameOld old a (after old writes i t b a')
after-SameOld a a' old writes i t b keeps same = elim (Bool-cases (b && needs_update old t)) [
  | inl u ↦ rw (u) (keeps i a' same)
  | inr u ↦ rw (u) same
]

pub slots-Fills :
    (load : Memory) (a a' : Arrays) (old : Option PoptrieNode) (chunk : Chunk) (writes : Writes)
    (i : ℕ) (nodes : List Rib) (v : Vec)
    → OldEntries a old
    → ((i : ℕ) (t : Rib) (n : Option ℕ) → (s : Slot) × (chunk i t n ≡ some s))
    → ((i : ℕ) (a' : Arrays) → SameOld old a a' → SameOld old a (writes i a'))
    → SameOld old a a'
    → i + length nodes ≤ 64
    → (end : Arrays) × (ss : List Slot) × (slots load old chunk writes a' i nodes v
        ≡ some (end, ss))
      × (length ss ≤ length nodes)
      × Fills load a old chunk i nodes v ss
unfolding slots
slots-Fills load a a' old chunk writes i [] v has works keeps same le =
    (a', [], refl, omega arith, λ j t b p. absurd (grind arith))
slots-Fills load a a' old chunk writes i (t ∷ nodes) [] has works keeps same le =
    (a', [], refl, omega arith, λ j t b p q. absurd (grind arith))
slots-Fills load a a' old chunk writes i (t ∷ nodes) (b ∷ v) has works keeps same le =
    let (s, e) = slot-total load a old chunk i t b has works (omega arith) in
    let now = slot-SameOld load a a' old chunk i t b same ∙ e in
    let (end, ss, q, len, fills) =
      slots-Fills load a (after old writes i t b a') old chunk writes (suc i) nodes v has works
        keeps (after-SameOld a a' old writes i t b keeps same) (omega arith) in
    (
      end,
      s ∷ ss,
      rw (slots, now, q) refl,
      omega arith,
      Fills-cons load a old chunk i t nodes b v s ss e fills,
    )

abbrev hop_of_slot : Slot → Option ℕ
hop_of_slot (compressed hop) = some hop
hop_of_slot (built n) = none

abbrev node_of_slot : Slot → Option PoptrieNode
node_of_slot (compressed hop) = none
node_of_slot (built n) = some n

compressed_eq : {x y : ℕ} → compressed x ≡ compressed y → x ≡ y
compressed_eq e = some_eq (ap hop_of_slot e)

built_eq : {x y : PoptrieNode} → built x ≡ built y → x ≡ y
built_eq e = some_eq (ap node_of_slot e)

compressed_ne : {x : ℕ} {y : PoptrieNode} → compressed x ≢ built y
compressed_ne e = absurd (grind arith)

-- What the lists of the slots have for each slot.
pub vector_of-compressed :
    (ss : List Slot) (i hop : ℕ)
    → get_elem? ss i ≡ some (compressed hop)
    → (vec_bt (vector_of ss) i ≡ false) × (get_elem? (items_of ss) i ≡ some (leaf hop))
unfolding vector_of items_of
vector_of-compressed [] i hop e = absurd (grind arith)
vector_of-compressed (compressed h ∷ ss) zero hop e =
    (refl, ap (λ h. some (leaf h)) (compressed_eq (some_eq e)))
vector_of-compressed (built n ∷ ss) zero hop e = absurd (compressed_ne (sym (some_eq e)))
vector_of-compressed (compressed h ∷ ss) (suc i) hop e = vector_of-compressed ss i hop e
vector_of-compressed (built n ∷ ss) (suc i) hop e = vector_of-compressed ss i hop e

pub vector_of-built :
    (uninit : PoptrieNode) (ss : List Slot) (i : ℕ) (n : PoptrieNode)
    → get_elem? ss i ≡ some (built n)
    → (vec_bt (vector_of ss) i ≡ true) × (get_elem? (children_of uninit ss) i ≡ some n)
unfolding vector_of children_of
vector_of-built uninit [] i n e = absurd (grind arith)
vector_of-built uninit (built m ∷ ss) zero n e = (refl, ap some (built_eq (some_eq e)))
vector_of-built uninit (compressed h ∷ ss) zero n e = absurd (compressed_ne (some_eq e))
vector_of-built uninit (built m ∷ ss) (suc i) n e = vector_of-built uninit ss i n e
vector_of-built uninit (compressed h ∷ ss) (suc i) n e = vector_of-built uninit ss i n e

pub length-items_of : (ss : List Slot) → length (items_of ss) ≡ length ss
unfolding items_of
length-items_of [] = refl
length-items_of (compressed h ∷ ss) = ap suc (length-items_of ss)
length-items_of (built n ∷ ss) = ap suc (length-items_of ss)
