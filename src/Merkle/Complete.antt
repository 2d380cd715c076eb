-- ===== src/Merkle/Complete.antt =====
-- Every leaf of a built tree has a proof, and the proof passes the check
-- (schema/src/util/merkle.rs against schema/src/merkle_proof.rs).
use redgold.Prelude.{
  ℕ, zero, suc, ◌+◌, ◌≤◌, ◌<◌, ◌≡◌, refl, sym, ap, ◌∙◌, ◌⊎◌, inl, inr, some, List, [], ◌∷◌, ok,
  Option-cases, holds→test, ◌||◌, true, false, Bool, arith, length, last?, All, Elem, ltb,
  if◌then◌else◌, subst,
}
use redgold.Structs.{Bytes}
use redgold.Proofs.{Bytes-discrete}
use redgold.Merkle.{
  MerkleEntry, MerkleTree, MerkleProof, same, rounds, new_tree, build_root, child_to_parent,
  proof_nodes, proof, verify_from, verify,
}
use redgold.Merkle.Build.{
  Covers, Covered, child_to_parent-some, child_to_parent-none, Finished, rounds-Finished,
}

-- What the check asks of the nodes at a hash.
abbrev Passes : (Bytes → Bytes → Bytes) → List MerkleEntry → Bytes → List Bytes → Bytes → Type 0
Passes combine all root [] k = ¬ Covered all k
Passes combine all root (l ∷ []) k = ⊥
Passes combine all root (l ∷ r ∷ ns) k =
    ((k ≡ l) ⊎ (k ≡ r)) × (verify_from combine (some root) (l ∷ r ∷ ns) ≡ ok tt)

or_true : (b : Bool) → (b || true) ≡ true
or_true true = refl
or_true false = refl

left_or_right : (l r k : Bytes) → (k ≡ l) ⊎ (k ≡ r) → (same l k || same r k) ≡ true
left_or_right l r k (inl h) = rw (holds→test (Bytes-discrete l k) (sym h))
left_or_right l r k (inr h) = rw (holds→test (Bytes-discrete r k) (sym h)) (or_true (same l k))

right_or_left : (l r k : Bytes) → (k ≡ l) ⊎ (k ≡ r) → (same k l || same k r) ≡ true
right_or_left l r k (inl h) = rw (holds→test (Bytes-discrete k l) h)
right_or_left l r k (inr h) = rw (holds→test (Bytes-discrete k r) h) (or_true (same k l))

build_root-rounds :
    (combine : Bytes → Bytes → Bytes) (x : Bytes) (xs : List Bytes) (all : List MerkleEntry)
    (z : MerkleEntry)
    → rounds combine (suc (length xs)) (x ∷ xs) [] ≡ some all
    → last? all ≡ some z
    → build_root combine (x ∷ xs) ≡ ok (record { root = z.parent; entries = all })
unfolding build_root new_tree
build_root-rounds combine x xs all z e l = rw (e, build_root, l, new_tree)

-- No hash cycles: a level rises from both children of each entry to its parent.
abbrev pub Rises : (Bytes → ℕ) → List MerkleEntry → Type 0
Rises level =
    All λ (e : MerkleEntry). (level e.left < level e.parent) × (level e.right < level e.parent)

-- How many entries have a parent above a level: a bound for the length of a path.
unfoldable above : (Bytes → ℕ) → ℕ → List MerkleEntry → ℕ
above level n [] = 0
above level n (e ∷ es) = (if ltb n (level e.parent) then 1 else 0) + above level n es

above_le_length : (level : Bytes → ℕ) (n : ℕ) (es : List MerkleEntry) → above level n es ≤ length es
unfolding above
above_le_length level n [] = omega arith
above_le_length level n (e ∷ es) = ground (arith, above_le_length level n es)

above_mono :
    (level : Bytes → ℕ) (m n : ℕ) (es : List MerkleEntry)
    → m ≤ n
    → above level n es ≤ above level m es
unfolding above
above_mono level m n [] h = omega arith
above_mono level m n (e ∷ es) h = ground (arith, above_mono level m n es h)

above_drops :
    (level : Bytes → ℕ) (m n : ℕ) (e : MerkleEntry) (es : List MerkleEntry)
    → Elem e es
    → n ≡ level e.parent
    → m < n
    → above level n es < above level m es
unfolding above
above_drops level m n e [] k q h = absurd k
above_drops level m n e (f ∷ es) (inl same) q h =
    let p : n ≡ level f.parent = q ∙ ap (λ (x : MerkleEntry). level x.parent) same in
    ground (arith, above_mono level m n es (omega arith), p)
above_drops level m n e (f ∷ es) (inr k) q h = ground (arith, above_drops level m n e es k q h)

members :
    {A : Type 0} (xs ys : List A) → ((x : A) → Elem x xs → Elem x ys) → All (λ x. Elem x ys) xs
members [] ys h = tt
members (x ∷ xs) ys h = (h x (inl refl), members xs ys (λ y k. h y (inr k)))

proof-nodes :
    (t : MerkleTree) (leaf : Bytes) (nodes : List Bytes)
    → proof_nodes (suc (length t.entries)) t.entries leaf ≡ some nodes
    → proof t leaf ≡ some (record { root = some t.root; leaf = some leaf; nodes = nodes })
unfolding proof
proof-nodes t leaf nodes e = rw (e, proof)

module _ (combine : Bytes → Bytes → Bytes) where
  verify_step :
      (all : List MerkleEntry) (root : Bytes) (e : MerkleEntry) (rest : List Bytes)
      → e.parent ≡ combine e.left e.right
      → (e.parent ≡ root) ⊎ Covered all e.parent
      → Passes combine all root rest e.parent
      → verify_from combine (some root) (e.left ∷ e.right ∷ rest) ≡ ok tt
  unfolding verify_from
  verify_step all root e [] h (inl at) g = rw (holds→test (Bytes-discrete _ root) (sym h ∙ at))
  verify_step all root e [] h (inr c) g = absurd (g c)
  verify_step all root e (m ∷ []) h c g = absurd g
  verify_step all root e (m ∷ n ∷ ns) h c g =
      rw (left_or_right m n (combine e.left e.right) (subst (λ k. (k ≡ m) ⊎ (k ≡ n)) h g.0)) g.1

  module _ (level : Bytes → ℕ) where
    abbrev Facts : Bytes → List MerkleEntry → MerkleEntry → Type 0
    Facts root all e =
        ((e.parent ≡ root) ⊎ Covered all e.parent)
        × (e.parent ≡ combine e.left e.right)
        × ((level e.left < level e.parent) × (level e.right < level e.parent))
        × Elem e all

    All-Facts :
        (root : Bytes) (all es : List MerkleEntry)
        → All (λ e. (e.parent ≡ root) ⊎ Covered all e.parent) es
        → All (λ e. e.parent ≡ combine e.left e.right) es
        → Rises level es
        → All (λ e. Elem e all) es
        → All (Facts root all) es
    All-Facts root all [] h k m i = tt
    All-Facts root all (e ∷ es) h k m i =
        ((h.0, k.0, m.0, i.0), All-Facts root all es h.1 k.1 m.1 i.1)

    rises :
        (e : MerkleEntry) (k : Bytes)
        → Covers e k
        → level e.left < level e.parent
        → level e.right < level e.parent
        → level k < level e.parent
    rises e k (inl h) l r = omega (arith, ap level h)
    rises e k (inr h) l r = omega (arith, ap level h)

    proof_nodes-Passes :
        (fuel : ℕ) (all : List MerkleEntry) (z : MerkleEntry) (k : Bytes)
        → Finished combine all z
        → Rises level all
        → above level (level k) all < fuel
        → (nodes : List Bytes) × (proof_nodes fuel all k ≡ some nodes)
          × Passes combine all z.parent nodes k
    unfolding proof_nodes
    proof_nodes-Passes zero all z k f up enough = absurd (omega arith)
    proof_nodes-Passes (suc fuel) all z k f up enough =
        elim (Option-cases (child_to_parent all k)) [
          | inl n ↦ ([], rw (n, proof_nodes), child_to_parent-none all k n)
          | inr (e, found) ↦
              let (covers, (linked, hashed, higher, here)) =
                child_to_parent-some (Facts z.parent all) all k e
                  (All-Facts z.parent all all f.linked f.hashed up (members all all (λ x m. m)))
                  found in
              let fewer =
                above_drops level (level k) (level e.parent) e all here refl
                  (rises e k covers higher.0 higher.1) in
              let (rest, er, good) = proof_nodes-Passes fuel all z e.parent f up (omega arith) in
              (
                e.left ∷ e.right ∷ rest,
                rw (found, er, proof_nodes),
                (covers, verify_step all z.parent e rest hashed linked good),
              )
        ]

  checks :
      (root leaf : Bytes) (all : List MerkleEntry) (nodes : List Bytes)
      → Covered all leaf
      → Passes combine all root nodes leaf
      → verify combine (record { root = some root; leaf = some leaf; nodes = nodes }) ≡ ok tt
  unfolding verify
  checks root leaf all [] c g = refl
  checks root leaf all (l ∷ []) c g = absurd g
  checks root leaf all (l ∷ r ∷ ns) c g = rw (right_or_left l r leaf g.0) g.1

  -- A tree is built from any leafs, each leaf has a proof there, and the proof passes the check, if the
  -- tree that is built has no hash cycle: some level rises from the children of each entry to its parent.
  pub verify-proof :
      (level : Bytes → ℕ) (leafs : List Bytes) (leaf : Bytes)
      → ((t : MerkleTree) → build_root combine leafs ≡ ok t → Rises level t.entries)
      → Elem leaf leafs
      → (t : MerkleTree) × (p : MerkleProof) × (build_root combine leafs ≡ ok t)
        × (proof t leaf ≡ some p)
        × (verify combine p ≡ ok tt)
        × (p.root ≡ some t.root)
        × (p.leaf ≡ some leaf)
  verify-proof level [] leaf up here = absurd here
  verify-proof level (x ∷ xs) leaf up here =
      let (all, z, e, f, _, fresh) =
        rounds-Finished combine (suc (length xs)) (x ∷ xs) [] (omega arith) (omega arith)
          (record { linked = tt; hashed = tt }) in
      let t : MerkleTree = record { root = z.parent; entries = all } in
      let built = build_root-rounds combine x xs all z e f.ends in
      let (nodes, en, good) =
        proof_nodes-Passes level (suc (length all)) all z leaf f (up t built)
          (omega (arith, above_le_length level (level leaf) all)) in
      (
        t,
        record { root = some z.parent; leaf = some leaf; nodes = nodes },
        built,
        proof-nodes t leaf nodes en,
        checks z.parent leaf all nodes (fresh leaf here) good,
        refl,
        refl,
      )
