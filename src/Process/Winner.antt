-- ===== src/Process/Winner.antt =====
-- The winner of a conflict depends only on which transactions conflict (src/core/process_transaction.rs).
use redgold.Prelude.{
  ◌≡◌, refl, sym, ap, ◌∙◌, ◌⊎◌, inl, inr, Bool, true, false, List, [], ◌∷◌, arith, if◌then◌else◌,
  Bool-cases, Elem, ok, panic≢ok, ok-injective, subst,
}
use redgold.Structs.{Bytes}
use redgold.Process.{bytes_lt, least_hash, resolve_conflict}

bytes_lt_antisym : (a b : Bytes) → bytes_lt a b ≡ false → bytes_lt b a ≡ false → a ≡ b
unfolding bytes_lt
bytes_lt_antisym [] [] h k = refl
bytes_lt_antisym [] (y ∷ ys) h k = cc
bytes_lt_antisym (x ∷ xs) [] h k = cc
bytes_lt_antisym (x ∷ xs) (y ∷ ys) h k = ground (arith, bytes_lt_antisym xs ys)

bytes_ge_trans :
    (a b c : Bytes) → bytes_lt a b ≡ false → bytes_lt b c ≡ false → bytes_lt a c ≡ false
unfolding bytes_lt
bytes_ge_trans [] [] c h k = k
bytes_ge_trans [] (y ∷ ys) c h k = cc
bytes_ge_trans (x ∷ xs) [] [] h k = refl
bytes_ge_trans (x ∷ xs) [] (z ∷ zs) h k = cc
bytes_ge_trans (x ∷ xs) (y ∷ ys) [] h k = refl
bytes_ge_trans (x ∷ xs) (y ∷ ys) (z ∷ zs) h k = ground (arith, bytes_ge_trans xs ys zs)

bytes_lt_irrefl : (a : Bytes) → bytes_lt a a ≡ false
unfolding bytes_lt
bytes_lt_irrefl [] = refl
bytes_lt_irrefl (x ∷ xs) = ground (arith, bytes_lt_irrefl xs)

bytes_lt_asym : (a b : Bytes) → bytes_lt a b ≡ true → bytes_lt b a ≡ false
unfolding bytes_lt
bytes_lt_asym [] [] h = cc
bytes_lt_asym [] (y ∷ ys) h = refl
bytes_lt_asym (x ∷ xs) [] h = cc
bytes_lt_asym (x ∷ xs) (y ∷ ys) h = ground (arith, bytes_lt_asym xs ys)

abbrev IsLeast : Bytes → List Bytes → Type 0
IsLeast r hs = Elem r hs × ((x : Bytes) → Elem x hs → bytes_lt x r ≡ false)

-- `r` is the least of the list that starts with `b`, and `b` is the smaller of `best` and `h`.
IsLeast-both :
    (r b best h : Bytes) (hs : List Bytes)
    → (b ≡ best) ⊎ (b ≡ h)
    → bytes_lt best b ≡ false
    → bytes_lt h b ≡ false
    → IsLeast r (b ∷ hs)
    → IsLeast r (best ∷ h ∷ hs)
IsLeast-both r b best h hs c p q l = (where_is l.0, below)
  where
    where_is : Elem r (b ∷ hs) → Elem r (best ∷ h ∷ hs)
    where_is (inl e) = elim c [ inl k ↦ inl (e ∙ k) | inr k ↦ inr (inl (e ∙ k)) ]
    where_is (inr m) = inr (inr m)

    below : (x : Bytes) → Elem x (best ∷ h ∷ hs) → bytes_lt x r ≡ false
    below x (inl e) = rw e (bytes_ge_trans best b r p (l.1 b (inl refl)))
    below x (inr (inl e)) = rw e (bytes_ge_trans h b r q (l.1 b (inl refl)))
    below x (inr (inr m)) = l.1 x (inr m)

pub least_hash-IsLeast : (best : Bytes) (hs : List Bytes) → IsLeast (least_hash best hs) (best ∷ hs)
unfolding least_hash
least_hash-IsLeast best [] = (
  inl refl,
  λ x m. elim m [ inl e ↦ ap (λ y. bytes_lt y best) e ∙ bytes_lt_irrefl best | inr n ↦ absurd n ],
)
least_hash-IsLeast best (h ∷ hs) = elim (Bool-cases (bytes_lt h best)) [
  | inl t ↦
      subst (λ (b : Bytes). IsLeast (least_hash b hs) (best ∷ h ∷ hs))
        (ap (λ (q : Bool). if q then h else best) (sym t))
        (IsLeast-both _ h best h hs (inr refl) (bytes_lt_asym h best t) (bytes_lt_irrefl h)
          (least_hash-IsLeast h hs))
  | inr f ↦
      subst (λ (b : Bytes). IsLeast (least_hash b hs) (best ∷ h ∷ hs))
        (ap (λ (q : Bool). if q then h else best) (sym f))
        (IsLeast-both _ best best h hs (inl refl) (bytes_lt_irrefl best) f
          (least_hash-IsLeast best hs))
]

-- Two lists of conflicting hashes with the same members, in any order and number, have the same winner.
pub resolve_conflict_agrees :
    (xs ys : List Bytes) {v w : Bytes}
    → ((x : Bytes) → Elem x xs → Elem x ys)
    → ((y : Bytes) → Elem y ys → Elem y xs)
    → resolve_conflict xs ≡ ok v
    → resolve_conflict ys ≡ ok w
    → v ≡ w
unfolding resolve_conflict
resolve_conflict_agrees [] ys f g e k = absurd (panic≢ok e)
resolve_conflict_agrees (x ∷ xs) [] f g e k = absurd (panic≢ok k)
resolve_conflict_agrees (x ∷ xs) (y ∷ ys) f g e k =
    let p = least_hash-IsLeast x xs in
    let q = least_hash-IsLeast y ys in
    sym (ok-injective e) ∙ bytes_lt_antisym _ _ (q.1 _ (f _ p.0)) (p.1 _ (g _ q.0)) ∙ ok-injective k
