-- ===== src/Contention/Answers.antt =====
-- When a tick of the contract state manager succeeds, and whom it answers
-- (src/core/contract/contract_state_manager.rs).
use redgold.Prelude.{
  ℕ, ◌≤◌, ◌≡◌, ◌≢◌, refl, sym, ap, ◌∙◌, subst, inl, inr, ◌⊎◌, Bool-cases, some, List, [], ◌∷◌, Elem,
  All, All-map, map, length, or_else, ok, after-eq-ok, attempt-eq-ok, test, holds→test, ap₂, after,
  arith, true≢false,
}
use redgold.Structs.{Transaction, ContentionKey, ContentionKey-discrete, ContractStateMarker}
use redgold.Crypto.{Crypto}
use redgold.Assoc.{get, put, remove, get-remove_other}
use redgold.Contention.Interval.{
  Contracts, Interval, Waiting, sort_by_time, remove_keys, Prepared, prepare, run_one, run_all,
  run_key, run_keys, interval,
}
use redgold.Contention.Steps.{
  pair-injective, length-sort_by_time, answer-Elem, address-compute, address-prepare, Ran,
  run_one-Ran, Kept, run_all-Kept, run_keys-Kept, run_keys-short,
}

HasKeys : List ContentionKey → List (ContentionKey × Waiting) → Type 0
HasKeys ks m = All (λ (x : ContentionKey × Waiting). Elem x.0 ks) m

HasKeys-put :
    (ks : List ContentionKey) (k : ContentionKey) (v : Waiting) (m : List (ContentionKey × Waiting))
    → Elem k ks
    → HasKeys ks m
    → HasKeys ks (put ContentionKey-discrete k v m)
unfolding HasKeys put
HasKeys-put ks k v [] e h = (e, tt)
HasKeys-put ks k v ((j, w) ∷ m) e h = elim (Bool-cases (test (ContentionKey-discrete j k))) [
  | inl t ↦ rw t h
  | inr f ↦ rw f (h.0, HasKeys-put ks k v m e h.1)
]

HasKeys-remove :
    (k : ContentionKey) (ks : List ContentionKey) (m : List (ContentionKey × Waiting))
    → HasKeys (k ∷ ks) m
    → HasKeys ks (remove ContentionKey-discrete k m)
unfolding HasKeys remove
HasKeys-remove k ks [] h = tt
HasKeys-remove k ks ((j, w) ∷ m) h = elim (Bool-cases (test (ContentionKey-discrete j k))) [
  | inl t ↦ rw t (HasKeys-remove k ks m h.1)
  | inr f ↦ rw f (
    elim h.0 [
      | inl e ↦ absurd (true≢false (sym (holds→test (ContentionKey-discrete j k) e) ∙ f))
      | inr i ↦ i
    ],
    HasKeys-remove k ks m h.1,
  )
]

remove_keys_all :
    (ks : List ContentionKey) (m : List (ContentionKey × Waiting))
    → HasKeys ks m
    → remove_keys ks m ≡ []
unfolding remove_keys HasKeys
remove_keys_all [] [] h = refl
remove_keys_all [] (x ∷ m) h = absurd h.0
remove_keys_all (k ∷ ks) m h =
    remove_keys_all ks (remove ContentionKey-discrete k m) (HasKeys-remove k ks m h)

HasKeys-map :
    (m : List (ContentionKey × Waiting)) → HasKeys (map (λ (x : ContentionKey × Waiting). x.0) m) m
unfolding HasKeys
HasKeys-map [] = tt
HasKeys-map (x ∷ m) = (
  inl refl,
  All-map (λ (y : ContentionKey × Waiting). Elem y.0 (map (λ (z : ContentionKey × Waiting). z.0) m))
      _ m (λ y i. inr i) (HasKeys-map m),
)

length_zero : (v : Waiting) → length v ≡ 0 → v ≡ []
length_zero [] e = refl
length_zero (x ∷ v) e = absurd (omega (arith, e))

module _ (c : Crypto) {S : Type 0} (env : Contracts S) where
  Keyed : List ContentionKey → Interval S → Type 0
  Keyed ks p = HasKeys ks p.manager.unordered

  Kept-Keyed : (ks : List ContentionKey) → Kept c env (Keyed ks) ks
  unfolding Keyed
  Kept-Keyed ks k r idx tx v p q w m a ran h =
      subst (HasKeys ks) (sym ran.unordered) (HasKeys-put ks k w p.manager.unordered m h)

  -- A tick that succeeds found at most one transaction on each key, and leaves none: a key with two
  -- transactions makes the tick fail (the index into the sorted copy removes from the shrinking list).
  pub interval-clears :
      (p q : Interval S)
      → interval c env p ≡ (q, ok tt)
      → All (λ (x : ContentionKey × Waiting). length x.1 ≤ 1) p.manager.unordered
        × (q.manager.unordered ≡ [])
  unfolding interval Keyed HasKeys
  interval-clears p q e =
      let (p1, _, f, g) = after-eq-ok (run_keys c env p.manager.unordered p) _ e in
      let keys = map (λ (x : ContentionKey × Waiting). x.0) p.manager.unordered in
      (
        run_keys-short c env p.manager.unordered p f,
        sym (ap (λ (x : Interval S). x.manager.unordered) (pair-injective g).0)
            ∙ remove_keys_all keys p1.manager.unordered (
                run_keys-Kept c env (Keyed keys) keys (Kept-Keyed keys) p.manager.unordered p
                  (HasKeys-map p.manager.unordered) f (HasKeys-map p.manager.unordered)),
      )

  -- A response on channel `r` for the address of key `k`.
  abbrev pub Told : ContentionKey → ℕ → Interval S → Type 0
  Told k r p = (m : ContractStateMarker) × Elem (r, ok m) p.sent × (m.address ≡ k.address)

  Listens : ContentionKey → ℕ → Interval S → Type 0
  Listens k r p = Elem r (or_else (get ContentionKey-discrete k p.manager.subscribers) [])

  Ran-old :
      (k j : ContentionKey) (n : ℕ) (r : Prepared c env) (idx : ℕ) (tx : Transaction) (v : Waiting)
      (p q : Interval S) (w : Waiting)
      → Ran c env j r idx tx v p q w
      → Told k n p
      → Told k n q
  Ran-old k j n r idx tx v p q w ran (m, i, a) =
      (m, (answer-Elem c env _ ran.marker p.sent ran.answered).0 (n, ok m) i, a)

  Ran-new :
      (k : ContentionKey) (n : ℕ) (r : Prepared c env) (idx : ℕ) (tx : Transaction) (v : Waiting)
      (p q : Interval S) (w : Waiting)
      → k.address ≡ some r.address
      → Ran c env k r idx tx v p q w
      → Listens k n p
      → Told k n q
  unfolding Listens
  Ran-new k n r idx tx v p q w a ran l = (
    ran.marker,
    (answer-Elem c env _ ran.marker p.sent ran.answered).1 n l,
    address-compute c env k r tx ran.computed ∙ sym a,
  )

  Heard : ContentionKey → ℕ → Interval S → Type 0
  Heard k n p = Listens k n p ⊎ Told k n p

  Kept-Told : (k : ContentionKey) (n : ℕ) (ks : List ContentionKey) → Kept c env (Told k n) ks
  Kept-Told k n ks j r idx tx v p q w m a ran z = Ran-old k j n r idx tx v p q w ran z

  Kept-Heard : (k : ContentionKey) (n : ℕ) (ks : List ContentionKey) → Kept c env (Heard k n) ks
  unfolding Heard Listens
  Kept-Heard k n ks j r idx tx v p q w m a ran (inr z) = inr (Ran-old k j n r idx tx v p q w ran z)
  Kept-Heard k n ks j r idx tx v p q w m a ran (inl l) = elim (ContentionKey-discrete j k) [
    | yes e ↦ inr (
        subst (λ i. Told i n q) e
          (Ran-new j n r idx tx v p q w a ran (subst (λ i. Listens i n p) (sym e) l)))
    | no d ↦ inl (
        subst (λ o. Elem n (or_else o []))
          (sym (
            ap (get ContentionKey-discrete k) ran.subscribers
            ∙ get-remove_other ContentionKey-discrete j k p.manager.subscribers d))
          l)
  ]

  run_all-Told :
      (k : ContentionKey) (n : ℕ) (r : Prepared c env) (xs v : Waiting) (p : Interval S)
      {q : Interval S}
      → k.address ≡ some r.address
      → xs ≢ []
      → run_all c env k r 0 xs v p ≡ (q, ok tt)
      → Heard k n p
      → Told k n q
  unfolding run_all Heard
  run_all-Told k n r [] v p a ne e h = absurd (ne refl)
  run_all-Told k n r (x ∷ xs) v p a ne e h =
      let (p1, w, f, g) = after-eq-ok (run_one c env k r 0 x.0 v p) _ e in
      let ran = run_one-Ran c env k r 0 x.0 v p f in
      run_all-Kept c env (Told k n) (k ∷ []) (Kept-Told k n (k ∷ [])) k r (inl refl) a 1 xs w p1 g
        (elim h [
          | inl l ↦ Ran-new k n r 0 x.0 v p p1 w a ran l
          | inr z ↦ Ran-old k k n r 0 x.0 v p p1 w ran z
        ])

  run_key-Told :
      (k : ContentionKey) (n : ℕ) (v : Waiting) (p : Interval S) {q : Interval S}
      → v ≢ []
      → run_key c env k v p ≡ (q, ok tt)
      → Heard k n p
      → Told k n q
  unfolding run_key
  run_key-Told k n v p ne e h =
      let (r, f1, g1) = attempt-eq-ok p (prepare c env p.store k) _ e in
      let (v2, f2, g2) = attempt-eq-ok p (sort_by_time v) _ g1 in
      run_all-Told k n r v2 v p (address-prepare c env p.store k f1)
        (λ z. ne (length_zero v (sym (length-sort_by_time v f2) ∙ ap length z))) g2 h

  run_keys-Told :
      (ks : List ContentionKey) (k : ContentionKey) (n : ℕ) (v : Waiting)
      (m : List (ContentionKey × Waiting)) (p : Interval S) {q : Interval S}
      → HasKeys ks m
      → Elem (k, v) m
      → v ≢ []
      → run_keys c env m p ≡ (q, ok tt)
      → Heard k n p
      → Told k n q
  unfolding run_keys HasKeys run_key
  run_keys-Told ks k n v [] p a i ne e h = absurd i
  run_keys-Told ks k n v ((j, w) ∷ m) p a i ne e h =
      let (p1, _, f, g) = after-eq-ok (run_key c env j w p) _ e in
      elim i [
        | inl d ↦ run_keys-Kept c env (Told k n) ks (Kept-Told k n ks) m p1 a.1 g (
            run_key-Told k n v p ne
              (ap₂ (λ a b. run_key c env a b p) (pair-injective d).0 (pair-injective d).1 ∙ f) h)
        | inr i ↦ run_keys-Told ks k n v m p1 a.1 i ne g (
            run_keys-Kept c env (Heard k n) ks (Kept-Heard k n ks) ((j, w) ∷ []) p (a.0, tt)
              (ap (λ x. after x (λ s _. (s, ok tt))) f) h)
      ]

  -- At a tick that succeeds, everyone who subscribed to a key with a waiting transaction is sent a
  -- marker for the address of the key.
  pub interval-answers :
      (p q : Interval S) (k : ContentionKey) (n : ℕ) (v : Waiting)
      → interval c env p ≡ (q, ok tt)
      → Elem (k, v) p.manager.unordered
      → v ≢ []
      → Elem n (or_else (get ContentionKey-discrete k p.manager.subscribers) [])
      → Told k n q
  unfolding interval Heard Listens
  interval-answers p q k n v e i ne l =
      let (p1, _, f, g) = after-eq-ok (run_keys c env p.manager.unordered p) _ e in
      let (m, j, a) =
        run_keys-Told (map (λ (x : ContentionKey × Waiting). x.0) p.manager.unordered) k n v
          p.manager.unordered p (HasKeys-map p.manager.unordered) i ne f (inl l) in
      (m, subst (Elem (n, ok m)) (ap (λ (x : Interval S). x.sent) (pair-injective g).0) j, a)
