-- ===== src/Assoc.antt =====
-- A map with decidable keys as an association list: the `HashMap` and `DashMap` of the node.
use redgold.Prelude.{
  sym, ◌∙◌, Option, none, some, List, [], ◌∷◌, ◌≡◌, refl, test, if◌then◌else◌, holds→test,
  fails→test, test→holds, Bool-cases, inl, inr,
}

module _ {K : Type 0} {V : Type 0} (d : Discrete K) where
  unfoldable pub get : K → List (K × V) → Option V
  get k [] = none
  get k ((j, v) ∷ m) = if test (d j k) then some v else get k m

  unfoldable pub put : K → V → List (K × V) → List (K × V)
  put k v [] = (k, v) ∷ []
  put k v ((j, w) ∷ m) = if test (d j k) then (j, v) ∷ m else (j, w) ∷ put k v m

  unfoldable pub remove : K → List (K × V) → List (K × V)
  remove k [] = []
  remove k ((j, w) ∷ m) = if test (d j k) then remove k m else (j, w) ∷ remove k m

  pub get-put_self : (k : K) (v : V) (m : List (K × V)) → get k (put k v m) ≡ some v
  unfolding get put
  get-put_self k v [] = rw (holds→test (d k k) refl)
  get-put_self k v ((j, w) ∷ m) = elim (Bool-cases (test (d j k))) [
    | inl t ↦ rw (t, get, t)
    | inr f ↦ rw (f, get, f) (get-put_self k v m)
  ]

  pub get-put_other : (k i : K) (v : V) (m : List (K × V)) → ¬ (k ≡ i) → get i (put k v m) ≡ get i m
  unfolding get put
  get-put_other k i v [] h = rw (fails→test (d k i) h)
  get-put_other k i v ((j, w) ∷ m) h = elim (Bool-cases (test (d j k))) [
    | inl t ↦ rw (t, get, fails→test (d j i) (λ e. h (sym (test→holds (d j k) t) ∙ e)))
    | inr f ↦ rw (f, get, get-put_other k i v m h)
  ]

  pub get-remove_self : (k : K) (m : List (K × V)) → get k (remove k m) ≡ none
  unfolding get remove
  get-remove_self k [] = refl
  get-remove_self k ((j, w) ∷ m) = elim (Bool-cases (test (d j k))) [
    | inl t ↦ rw (t, remove) (get-remove_self k m)
    | inr f ↦ rw (f, remove, f) (get-remove_self k m)
  ]

  pub get-remove_other : (k i : K) (m : List (K × V)) → ¬ (k ≡ i) → get i (remove k m) ≡ get i m
  unfolding get remove
  get-remove_other k i [] h = refl
  get-remove_other k i ((j, w) ∷ m) h = elim (Bool-cases (test (d j k))) [
    | inl t ↦
        rw (t, remove, fails→test (d j i) (λ e. h (sym (test→holds (d j k) t) ∙ e)))
          (get-remove_other k i m h)
    | inr f ↦ rw (f, remove, get, get-remove_other k i m h)
  ]
