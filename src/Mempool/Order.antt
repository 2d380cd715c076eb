-- ===== src/Mempool/Order.antt =====
-- The entry that the heap of the mempool gives (src/core/mempool.rs).
use redgold.Prelude.{
  Distinct, ℕ, ◌≡◌, refl, sym, ap, ◌∙◌, inl, inr, true, false, Bool-cases, List, [], ◌∷◌, Elem,
  length, arith, slt, ltb, suc, ◌+◌, ◌%◌, ◌^◌, ◌≤◌, subst, map,
}
use redgold.Structs.{Hash}
use redgold.Mempool.{MempoolEntry, amount_of, is_greater, take_greatest}

-- The place of an entry by its amount, which is signed.
abbrev pub rank : MempoolEntry → ℕ
rank e = (amount_of e + 2 ^ 63) % 2 ^ 64

rank_of_not_greater : (x e : MempoolEntry) → is_greater x e ≡ false → rank e ≤ rank x
unfolding is_greater slt
rank_of_not_greater x e h = not_ltb (rank x) (rank e) h
  where
    not_ltb : (a b : ℕ) → ltb a b ≡ false → b ≤ a
    not_ltb a b h = ground arith

rank_of_greater : (x e : MempoolEntry) → is_greater x e ≡ true → rank x ≤ rank e
unfolding is_greater slt
rank_of_greater x e h = smaller (rank x) (rank e) h
  where
    smaller : (a b : ℕ) → ltb a b ≡ true → a ≤ b
    smaller a b h = ground arith

-- What it takes, it takes from the heap, and it leaves the others.
pub record Taken (xs : List MempoolEntry) (e : MempoolEntry) (rest : List MempoolEntry)
    : Type 0 where
  pub back : (y : MempoolEntry) → Elem y (e ∷ rest) → Elem y xs
  pub forth : (y : MempoolEntry) → Elem y xs → Elem y (e ∷ rest)
  pub shorter : length xs ≡ suc (length rest)
  pub least : (y : MempoolEntry) → Elem y xs → rank e ≤ rank y

-- One entry `x` more that is left and no better.
add_left :
    (x : MempoolEntry) (xs : List MempoolEntry) (e z : MempoolEntry) (rest : List MempoolEntry)
    → Taken (z ∷ xs) e rest
    → rank z ≤ rank x
    → Taken (z ∷ x ∷ xs) e (x ∷ rest)
add_left x xs e z rest t le = record {
  back = λ y m. elim m [
    | inl h ↦ spread y (t.back y (inl h))
    | inr (inl h) ↦ inr (inl h)
    | inr (inr h) ↦ spread y (t.back y (inr h))
  ];
  forth = λ y m. elim m [
    | inl h ↦ widen y (t.forth y (inl h))
    | inr (inl h) ↦ inr (inl h)
    | inr (inr h) ↦ widen y (t.forth y (inr h))
  ];
  shorter = ap suc t.shorter;
  least = λ y m. elim m [
    | inl h ↦ t.least y (inl h)
    | inr (inl h) ↦ subst (λ w. rank e ≤ rank w) (sym h) (omega (arith, le, t.least z (inl refl)))
    | inr (inr h) ↦ t.least y (inr h)
  ];
}
  where
    spread : (y : MempoolEntry) → Elem y (z ∷ xs) → Elem y (z ∷ x ∷ xs)
    spread y (inl h) = inl h
    spread y (inr h) = inr (inr h)

    widen : (y : MempoolEntry) → Elem y (e ∷ rest) → Elem y (e ∷ x ∷ rest)
    widen y (inl h) = inl h
    widen y (inr h) = inr (inr h)

swap :
    (x z : MempoolEntry) (xs : List MempoolEntry) (e : MempoolEntry) (rest : List MempoolEntry)
    → Taken (z ∷ x ∷ xs) e rest
    → Taken (x ∷ z ∷ xs) e rest
swap x z xs e rest t = record {
  back = λ y m. other y (t.back y m);
  forth = λ y m. t.forth y (this y m);
  shorter = t.shorter;
  least = λ y m. t.least y (this y m);
}
  where
    other : (y : MempoolEntry) → Elem y (z ∷ x ∷ xs) → Elem y (x ∷ z ∷ xs)
    other y (inl h) = inr (inl h)
    other y (inr (inl h)) = inl h
    other y (inr (inr h)) = inr (inr h)

    this : (y : MempoolEntry) → Elem y (x ∷ z ∷ xs) → Elem y (z ∷ x ∷ xs)
    this y (inl h) = inr (inl h)
    this y (inr (inl h)) = inl h
    this y (inr (inr h)) = inr (inr h)

pub take_greatest-Taken :
    (z : MempoolEntry) (xs : List MempoolEntry)
    → Taken (z ∷ xs) (take_greatest z xs).0 (take_greatest z xs).1
unfolding take_greatest
take_greatest-Taken z [] = record {
  back = λ y m. m;
  forth = λ y m. m;
  shorter = refl;
  least = λ y m. elim m [
    | inl h ↦ subst (λ w. rank z ≤ rank w) (sym h) (omega arith)
    | inr h ↦ absurd h
  ];
}
take_greatest-Taken z (x ∷ xs) = elim (Bool-cases (is_greater x z)) [
  | inl t ↦ rw t (
      swap z x xs _ _ (
        add_left z xs (take_greatest x xs).0 x (take_greatest x xs).1 (take_greatest-Taken x xs)
          (rank_of_greater x z t)))
  | inr f ↦ rw f (
      add_left x xs (take_greatest z xs).0 z (take_greatest z xs).1 (take_greatest-Taken z xs)
        (rank_of_not_greater x z f))
]

pub Elem-map :
    (f : MempoolEntry → Hash) (h : Hash) (xs ys : List MempoolEntry)
    → ((y : MempoolEntry) → Elem y xs → Elem y ys)
    → Elem h (map f xs)
    → Elem h (map f ys)
Elem-map f h [] ys k m = absurd m
Elem-map f h (x ∷ xs) ys k (inl e) = put_in ys (k x (inl refl))
  where
    put_in : (zs : List MempoolEntry) → Elem x zs → Elem h (map f zs)
    put_in [] m = absurd m
    put_in (z ∷ zs) (inl d) = inl (e ∙ ap f d)
    put_in (z ∷ zs) (inr m) = inr (put_in zs m)
Elem-map f h (x ∷ xs) ys k (inr m) = Elem-map f h xs ys (λ y i. k y (inr i)) m

swap_Distinct : (a b : Hash) (hs : List Hash) → Distinct (a ∷ b ∷ hs) → Distinct (b ∷ a ∷ hs)
swap_Distinct a b hs (na, (nb, d)) =
    ((λ m. elim m [ inl e ↦ na (inl (sym e)) | inr k ↦ nb k ]), ((λ m. na (inr m)), d))

-- The entry that is taken and the others have different hashes, if the entries had.
pub take_greatest-Distinct :
    (f : MempoolEntry → Hash) (z : MempoolEntry) (xs : List MempoolEntry)
    → Distinct (map f (z ∷ xs))
    → Distinct (map f ((take_greatest z xs).0 ∷ (take_greatest z xs).1))
unfolding take_greatest
take_greatest-Distinct f z [] d = d
take_greatest-Distinct f z (x ∷ xs) d = elim (Bool-cases (is_greater x z)) [
  | inl t ↦ rw t (add z x (take_greatest-Distinct f x xs d.1) d.0)
  | inr g ↦
      let e = swap_Distinct (f z) (f x) (map f xs) d in
      rw g (add x z (take_greatest-Distinct f z xs e.1) e.0)
]
  where
    -- One more in front of the others.
    add :
        (a b : MempoolEntry)
        → Distinct (map f ((take_greatest b xs).0 ∷ (take_greatest b xs).1))
        → ¬ (Elem (f a) (map f (b ∷ xs)))
        → Distinct (map f ((take_greatest b xs).0 ∷ a ∷ (take_greatest b xs).1))
    add a b d n =
        let out = λ (m : Elem (f a) (map f ((take_greatest b xs).0 ∷ (take_greatest b xs).1))). n (
          Elem-map f (f a) ((take_greatest b xs).0 ∷ (take_greatest b xs).1) (b ∷ xs)
            (take_greatest-Taken b xs).back m) in
        ((λ m. elim m [ inl e ↦ out (inl (sym e)) | inr k ↦ d.0 k ]), ((λ m. out (inr m)), d.1))
