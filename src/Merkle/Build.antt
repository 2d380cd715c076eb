-- ===== src/Merkle/Build.antt =====
-- Every leaf of a built tree has a proof, and the proof passes the check
-- (schema/src/util/merkle.rs against schema/src/merkle_proof.rs).
use redgold.Prelude.{
  none≢some, some_inj, ℕ, zero, suc, ◌+◌, ◌/◌, ◌≤◌, ◌<◌, ◌≡◌, refl, sym, ap, ◌∙◌, ◌⊎◌, inl, inr,
  ◌≢◌, none, some, List, [], ◌∷◌, ◌++◌, Bool-cases, Option-cases, test→holds, holds→test, ◌||◌,
  true, false, Bool, ◌==◌, arith, length, All, All-append, All-map, ==_iff, Elem, last?, subst,
}
use redgold.Structs.{Bytes}
use redgold.Proofs.{Bytes-discrete}
use redgold.Merkle.{MerkleEntry, pad, same, round, parents, rounds, child_to_parent}

abbrev pub Covers : MerkleEntry → Bytes → Type 0
Covers e k = (k ≡ e.left) ⊎ (k ≡ e.right)

-- Some entry has `k` as a child.
abbrev pub Covered : List MerkleEntry → Bytes → Type 0
Covered [] k = ⊥
Covered (e ∷ es) k = Covers e k ⊎ Covered es k

Covered-left : (es fs : List MerkleEntry) (k : Bytes) → Covered es k → Covered (es ++ fs) k
Covered-left [] fs k h = absurd h
Covered-left (e ∷ es) fs k (inl h) = inl h
Covered-left (e ∷ es) fs k (inr h) = inr (Covered-left es fs k h)

Covered-right : (es fs : List MerkleEntry) (k : Bytes) → Covered fs k → Covered (es ++ fs) k
Covered-right [] fs k h = h
Covered-right (e ∷ es) fs k h = inr (Covered-right es fs k h)

last?-snoc {ℓ} : {A : Type ℓ} (xs : List A) (z : A) → last? (xs ++ z ∷ []) ≡ some z
last?-snoc [] z = refl
last?-snoc (x ∷ []) z = refl
last?-snoc (x ∷ y ∷ xs) z = last?-snoc (y ∷ xs) z

pub hit : (e : MerkleEntry) (k : Bytes) → Covers e k → (same e.left k || same e.right k) ≡ true
hit e k (inl h) = rw (holds→test (Bytes-discrete e.left k) (sym h))
hit e k (inr h) = rw (holds→test (Bytes-discrete e.right k) (sym h)) (or_true (same e.left k))
  where
    or_true : (b : Bool) → (b || true) ≡ true
    or_true true = refl
    or_true false = refl

hit_back : (e : MerkleEntry) (k : Bytes) → (same e.left k || same e.right k) ≡ true → Covers e k
hit_back e k h = elim (Bool-cases (same e.left k)) [
  | inl t ↦ inl (sym (test→holds (Bytes-discrete e.left k) t))
  | inr f ↦ inr (sym (test→holds (Bytes-discrete e.right k) (rw f at h)))
]

-- The lookup finds an entry of the list that has the key as a child.
pub child_to_parent-some :
    (P : MerkleEntry → Type 0) (es : List MerkleEntry) (k : Bytes) (f : MerkleEntry)
    → All P es
    → child_to_parent es k ≡ some f
    → Covers f k × P f
unfolding child_to_parent
child_to_parent-some P [] k f a h = cc
child_to_parent-some P (e ∷ es) k f a h = elim (Option-cases (child_to_parent es k)) [
  | inr (g, eg) ↦ child_to_parent-some P es k f a.1 (eg ∙ (rw eg at h))
  | inl n ↦ elim (Bool-cases (same e.left k || same e.right k)) [
    | inl t ↦
        let same_entry : e ≡ f = some_inj (rw (n, t) at h) in
        subst (λ g. Covers g k × P g) same_entry (hit_back e k t, a.0)
    | inr m ↦ absurd (none≢some (rw (n, m) at h))
  ]
]

-- And it misses none.
pub child_to_parent-none :
    (es : List MerkleEntry) (k : Bytes) → child_to_parent es k ≡ none → ¬ Covered es k
unfolding child_to_parent
child_to_parent-none [] k h c = c
child_to_parent-none (e ∷ es) k h c = elim (Option-cases (child_to_parent es k)) [
  | inr (g, eg) ↦ none≢some (sym (rw eg at h))
  | inl n ↦ elim c [
    | inl here ↦ none≢some (sym (rw (n, hit e k here) at h))
    | inr later ↦ child_to_parent-none es k n later
  ]
]

parents-Elem : (es : List MerkleEntry) → All (λ e. Elem e.parent (parents es)) es
parents-Elem [] = tt
parents-Elem (e ∷ es) = (inl refl, All-map _ _ es (λ _ h. inr h) (parents-Elem es))

length-parents : (es : List MerkleEntry) → length (parents es) ≡ length es
length-parents [] = refl
length-parents (e ∷ es) = ap suc (length-parents es)

not_one : (es : List MerkleEntry) → (length es == 1) ≡ false → length es ≢ 1
not_one es h = ground arith

one_item {ℓ} : {A : Type ℓ} (xs : List A) → (length xs == 1) ≡ true → (z : A) × (xs ≡ z ∷ [])
one_item [] h = cc
one_item (z ∷ []) h = (z, refl)
one_item (z ∷ y ∷ xs) h = absurd (omega (arith, (==_iff (length (z ∷ y ∷ xs)) 1).0 h))

module _ (combine : Bytes → Bytes → Bytes) where
  round-covers :
      (leafs : List Bytes) (x : Bytes) → Elem x leafs → Covered (round combine (pad leafs)) x
  unfolding round pad
  round-covers [] x h = h
  round-covers (a ∷ []) x (inl h) = inl (inl h)
  round-covers (a ∷ []) x (inr h) = absurd h
  round-covers (a ∷ b ∷ xs) x (inl h) = inl (inl h)
  round-covers (a ∷ b ∷ xs) x (inr (inl h)) = inl (inr h)
  round-covers (a ∷ b ∷ xs) x (inr (inr h)) = inr (round-covers xs x h)

  length-round : (leafs : List Bytes) → length (round combine (pad leafs)) ≡ (length leafs + 1) / 2
  unfolding round pad
  length-round [] = omega arith
  length-round (a ∷ []) = omega arith
  length-round (a ∷ b ∷ xs) = omega (arith, length-round xs)

  round-combine :
      (leafs : List Bytes)
      → All (λ e. e.parent ≡ combine e.left e.right) (round combine (pad leafs))
  unfolding round pad
  round-combine [] = tt
  round-combine (a ∷ []) = (refl, tt)
  round-combine (a ∷ b ∷ xs) = (refl, round-combine xs)

  pub record Pending (leafs : List Bytes) (entries : List MerkleEntry) : Type 0 where
    pub linked : All (λ e. Elem e.parent leafs ⊎ Covered entries e.parent) entries
    pub hashed : All (λ e. e.parent ≡ combine e.left e.right) entries

  pub record Finished (all : List MerkleEntry) (z : MerkleEntry) : Type 0 where
    pub ends : last? all ≡ some z
    pub linked : All (λ e. (e.parent ≡ z.parent) ⊎ Covered all e.parent) all
    pub hashed : All (λ e. e.parent ≡ combine e.left e.right) all

  Pending-round :
      (leafs : List Bytes) (entries : List MerkleEntry)
      → 0 < length leafs
      → Pending leafs entries
      → Pending (parents (round combine (pad leafs))) (entries ++ round combine (pad leafs))
  Pending-round leafs entries pos h =
      let made = round combine (pad leafs) in
      record {
        linked =
            All-append _ entries made
              (All-map _ _ entries
                (λ e k. elim k [
                  | inl in_leafs ↦
                      inr
                        (Covered-right entries made e.parent (round-covers leafs e.parent in_leafs))
                  | inr old ↦ inr (Covered-left entries made e.parent old)
                ])
                h.linked)
              (All-map _ _ made (λ e k. inl k) (parents-Elem made));
        hashed = All-append _ entries made h.hashed (round-combine leafs);
      }

  Pending-Finished :
      (entries made : List MerkleEntry) (z : MerkleEntry)
      → made ≡ z ∷ []
      → Pending (parents made) (entries ++ made)
      → Finished (entries ++ made) z
  Pending-Finished entries made z e h = record {
    ends = rw e (last?-snoc entries z);
    linked =
        All-map _ _ (entries ++ made)
          (λ f k. elim k [ inl new ↦ inl (only new) | inr old ↦ inr old ]) h.linked;
    hashed = h.hashed;
  }
    where
      only : {x : Bytes} → Elem x (parents made) → x ≡ z.parent
      only {x} k = elim (subst (λ m. Elem x (parents m)) e k) [
        | inl h ↦ h
        | inr no_more ↦ absurd no_more
      ]

  -- The loop ends, with every leaf below some entry.
  pub rounds-Finished :
      (fuel : ℕ) (leafs : List Bytes) (entries : List MerkleEntry)
      → 0 < length leafs
      → length leafs ≤ fuel
      → Pending leafs entries
      → (all : List MerkleEntry) × (z : MerkleEntry) × (rounds combine fuel leafs entries
          ≡ some all)
        × Finished all z
        × ((k : Bytes) → Covered entries k → Covered all k)
        × ((x : Bytes) → Elem x leafs → Covered all x)
  unfolding rounds
  rounds-Finished zero leafs entries pos enough h = absurd (omega arith)
  rounds-Finished (suc fuel) leafs entries pos enough h =
      let made = round combine (pad leafs) in
      let next = Pending-round leafs entries pos h in
      elim (Bool-cases (length made == 1)) [
        | inl one ↦
            let (z, e) = one_item made one in
            (
              entries ++ made,
              z,
              rw one,
              Pending-Finished entries made z e next,
              λ k c. Covered-left entries made k c,
              λ x c. Covered-right entries made x (round-covers leafs x c),
            )
        | inr more ↦
            let (all, z, e, f, old, fresh) =
              rounds-Finished fuel (parents made) (entries ++ made)
                (omega (arith, length-parents made, length-round leafs))
                (omega (arith, length-parents made, length-round leafs, not_one made more)) next in
            (
              all,
              z,
              rw more e,
              f,
              λ k c. old k (Covered-left entries made k c),
              λ x c. old x (Covered-right entries made x (round-covers leafs x c)),
            )
      ]
