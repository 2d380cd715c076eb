-- ===== src/Contention/Steps.antt =====
-- What a transaction that the contract state manager runs at a tick does, and what a tick keeps
-- (src/core/contract/contract_state_manager.rs).
use redgold.Prelude.{
  Elem-append_left, Elem-append_right, ℕ, zero, suc, ◌+◌, ◌*◌, ◌≤◌, ◌≡◌, refl, sym, ap, ap₂, ◌∙◌,
  subst, inl, inr, ◌⊎◌, Bool-cases, some, List, [], ◌∷◌, ◌++◌, Elem, All, length, I64, or_else, ok,
  ok-injective, err≢ok, panic≢ok, >>=-eq-ok, safe_get_msg, safe_get_msg-eq-ok, after-eq-ok,
  attempt-eq-ok, arith, ltb, is_ok, all, slt,
}
use redgold.Structs.{ContentionKey, ContentionKey-discrete, ContractStateMarker, Transaction}
use redgold.Crypto.{Crypto}
use redgold.Assoc.{get, put, remove}
use redgold.Transaction.{time_of}
use redgold.Contention.Interval.{
  Contracts, updated_state, recent_and_code, Response, Interval, Waiting, time_or, insert_by_time,
  sorted_by_time, sort_by_time, remove_at, Prepared, prepare, compute, answer, answer_key, run_one,
  run_all, run_key, run_keys,
}

pub pair-injective :
    {A B : Type 0} {a b : A} {x y : B} → ◌≡◌ {A = A × B} (a, x) (b, y) → (a ≡ b) × (x ≡ y)
pair-injective e = (ap (λ p. p.0) e, ap (λ p. p.1) e)

remove_at-length :
    (i : ℕ) (v : Waiting) {w : Waiting}
    → remove_at i v ≡ ok w
    → (suc i ≤ length v) × (length v ≡ suc (length w))
unfolding remove_at
remove_at-length i [] e = absurd (panic≢ok e)
remove_at-length zero (x ∷ xs) {w} e = (omega arith, ap (λ l. suc (length l)) (ok-injective e))
remove_at-length (suc i) (x ∷ xs) {w} e =
    let (ys, f, g) = >>=-eq-ok (remove_at i xs) _ e in
    let (lt, len) = remove_at-length i xs f in
    (omega (arith, lt), subst (λ l. suc (length xs) ≡ suc (length l)) (ok-injective g) (ap suc len))

length-insert_by_time :
    (x : Transaction × I64) (ys : Waiting) → length (insert_by_time x ys) ≡ suc (length ys)
unfolding insert_by_time
length-insert_by_time x [] = refl
length-insert_by_time x (y ∷ ys) = elim (Bool-cases (slt (time_or y) (time_or x))) [
  | inl t ↦ rw t (ap suc (length-insert_by_time x ys))
  | inr f ↦ rw f refl
]

length-sorted_by_time : (xs : Waiting) → length (sorted_by_time xs) ≡ length xs
unfolding sorted_by_time
length-sorted_by_time [] = refl
length-sorted_by_time (x ∷ xs) =
    length-insert_by_time x (sorted_by_time xs) ∙ ap suc (length-sorted_by_time xs)

pub length-sort_by_time : (v : Waiting) {w : Waiting} → sort_by_time v ≡ ok w → length w ≡ length v
unfolding sort_by_time
length-sort_by_time v e = elim (Bool-cases (ltb (length v) 2)) [
  | inl t ↦ ap length (sym (ok-injective (rw t at e)))
  | inr f ↦ elim (Bool-cases (all (λ (x : Transaction × I64). is_ok (time_of x.0)) v)) [
    | inl y ↦ ap length (sym (ok-injective (rw (f, y) at e))) ∙ length-sorted_by_time v
    | inr n ↦ absurd (panic≢ok (rw (f, n) at e))
  ]
]

module _ (c : Crypto) {S : Type 0} (env : Contracts S) where
  pub answer-Elem :
      (rs : List ℕ) (m : ContractStateMarker) (sent : List Response) {all_sent : List Response}
      → answer c env rs m sent ≡ (all_sent, ok tt)
      → ((x : Response) → Elem x sent → Elem x all_sent)
        × ((r : ℕ) → Elem r rs → Elem (r, ok m) all_sent)
  unfolding answer
  answer-Elem [] m sent e = ((λ x k. subst (Elem x) (pair-injective e).0 k), (λ r k. absurd k))
  answer-Elem (r ∷ rs) m sent {all_sent} e = elim (Bool-cases (env.is_open r)) [
    | inl t ↦
        let (keeps, new) = answer-Elem rs m (sent ++ (r, ok m) ∷ []) (rw t at e) in
        (
          (λ x k. keeps x (Elem-append_left x sent _ k)),
          (λ q k. elim k [
            | inl h ↦
                subst (λ z. Elem (z, ok m) all_sent) (sym h)
                  (keeps (r, ok m) (Elem-append_right (r, ok m) sent _ (inl refl)))
            | inr k ↦ new q k
          ]),
        )
    | inr f ↦ absurd (err≢ok (pair-injective (rw f at e)).1)
  ]

  pub address-compute :
      (k : ContentionKey) (r : Prepared c env) (tx : Transaction) {m : ContractStateMarker}
      → compute c env k r tx ≡ ok m
      → m.address ≡ some r.address
  unfolding compute
  address-compute k r tx e =
      let (u, _, f) = >>=-eq-ok (updated_state c env r tx) _ e in
      ap (λ (m : ContractStateMarker). m.address) (sym (ok-injective f))

  pub address-prepare :
      (s : S) (k : ContentionKey) {r : Prepared c env}
      → prepare c env s k ≡ ok r
      → k.address ≡ some r.address
  unfolding prepare
  address-prepare s k e =
      let (a, f, g) = >>=-eq-ok (safe_get_msg k.address "Missing address on contention key") _ e in
      let (u, _, h) = >>=-eq-ok (recent_and_code c env s k a) _ g in
      safe_get_msg-eq-ok k.address "Missing address on contention key" f
      ∙ ap (λ (r : Prepared c env). some r.address) (ok-injective h)

  -- What one transaction that succeeds does.
  pub record Ran (k : ContentionKey) (r : Prepared c env) (idx : ℕ) (tx : Transaction) (v : Waiting)
      (p q : Interval S) (w : Waiting) : Type 0 where
    pub marker : ContractStateMarker
    pub computed : compute c env k r tx ≡ ok marker
    pub answered :
        answer c env (or_else (get ContentionKey-discrete k p.manager.subscribers) []) marker p.sent
        ≡ (q.sent, ok tt)
    pub removed : remove_at idx v ≡ ok w
    pub unordered : q.manager.unordered ≡ put ContentionKey-discrete k w p.manager.unordered
    pub subscribers : q.manager.subscribers ≡ remove ContentionKey-discrete k p.manager.subscribers

  pub run_one-Ran :
      (k : ContentionKey) (r : Prepared c env) (idx : ℕ) (tx : Transaction) (v : Waiting)
      (p : Interval S) {q : Interval S} {w : Waiting}
      → run_one c env k r idx tx v p ≡ (q, ok w)
      → Ran k r idx tx v p q w
  unfolding run_one answer_key
  run_one-Ran k r idx tx v p {q} {w} e =
      let (m, f1, e1) = attempt-eq-ok p (compute c env k r tx) _ e in
      let (s, _, e2) = attempt-eq-ok p (env.insert_state p.store m) _ e1 in
      let (p3, _, f3, e3) = after-eq-ok (answer_key c env k m (record p { store = s })) _ e2 in
      let (rest, f4, e4) = attempt-eq-ok p3 (remove_at idx v) _ e3 in
      let eq3 = (pair-injective f3).0 in
      let eq4 = (pair-injective e4).0 in
      record {
        marker = m;
        computed = f1;
        answered =
            ap₂ (λ a b. (a, b))
              (ap (λ (x : Interval S). x.sent) eq3 ∙ ap (λ (x : Interval S). x.sent) eq4)
              (pair-injective f3).1;
        removed = f4 ∙ (pair-injective e4).1;
        unordered =
            sym (ap (λ (x : Interval S). x.manager.unordered) eq4)
            ∙ ap₂ (put ContentionKey-discrete k) (ok-injective (pair-injective e4).1)
                (sym (ap (λ (x : Interval S). x.manager.unordered) eq3));
        subscribers =
            sym (ap (λ (x : Interval S). x.manager.subscribers) eq4)
            ∙ sym (ap (λ (x : Interval S). x.manager.subscribers) eq3);
      }

  -- What every transaction that succeeds keeps, a tick that succeeds keeps.
  abbrev pub Kept : (Interval S → Type 0) → List ContentionKey → Type 0
  Kept P ks =
      (k : ContentionKey) (r : Prepared c env) (idx : ℕ) (tx : Transaction) (v : Waiting)
      (p q : Interval S) (w : Waiting)
      → Elem k ks
      → k.address ≡ some r.address
      → Ran k r idx tx v p q w
      → P p
      → P q

  pub run_all-Kept :
      (P : Interval S → Type 0) (ks : List ContentionKey)
      → Kept P ks
      → (k : ContentionKey) (r : Prepared c env) → Elem k ks
      → k.address ≡ some r.address
      → (idx : ℕ) (xs v : Waiting) (p : Interval S) {q : Interval S}
      → run_all c env k r idx xs v p ≡ (q, ok tt)
      → P p
      → P q
  unfolding run_all Kept
  run_all-Kept P ks h k r m a idx [] v p e z = subst P (pair-injective e).0 z
  run_all-Kept P ks h k r m a idx (x ∷ xs) v p e z =
      let (p1, w, f, g) = after-eq-ok (run_one c env k r idx x.0 v p) _ e in
      run_all-Kept P ks h k r m a (idx + 1) xs w p1 g
        (h k r idx x.0 v p p1 w m a (run_one-Ran k r idx x.0 v p f) z)

  pub run_keys-Kept :
      (P : Interval S → Type 0) (ks : List ContentionKey)
      → Kept P ks
      → (m : List (ContentionKey × Waiting)) (p : Interval S) {q : Interval S}
      → All (λ (x : ContentionKey × Waiting). Elem x.0 ks) m
      → run_keys c env m p ≡ (q, ok tt)
      → P p
      → P q
  unfolding run_keys run_key
  run_keys-Kept P ks h [] p a e z = subst P (pair-injective e).0 z
  run_keys-Kept P ks h ((k, v) ∷ m) p a e z =
      let (p1, _, f, g) = after-eq-ok (run_key c env k v p) _ e in
      let (r, f1, g1) = attempt-eq-ok p (prepare c env p.store k) _ f in
      let (v2, f2, g2) = attempt-eq-ok p (sort_by_time v) _ g1 in
      run_keys-Kept P ks h m p1 a.1 g
        (run_all-Kept P ks h k r a.0 (address-prepare p.store k f1) 0 v2 v p g2 z)

  -- A key whose transactions run to the end had at most one.
  run_all-length :
      (k : ContentionKey) (r : Prepared c env) (idx : ℕ) (xs v : Waiting) (p : Interval S)
      {q : Interval S}
      → run_all c env k r idx xs v p ≡ (q, ok tt)
      → (length xs ≡ 0) ⊎ (idx + 2 * length xs ≤ length v + 1)
  unfolding run_all
  run_all-length k r idx [] v p e = inl refl
  run_all-length k r idx (x ∷ xs) v p e =
      let (p1, w, f, g) = after-eq-ok (run_one c env k r idx x.0 v p) _ e in
      let (lt, len) = remove_at-length idx v (run_one-Ran k r idx x.0 v p f).removed in
      elim (run_all-length k r (idx + 1) xs w p1 g) [
        | inl z ↦ inr (omega (arith, z, lt, len))
        | inr z ↦ inr (omega (arith, z, lt, len))
      ]

  pub run_keys-short :
      (m : List (ContentionKey × Waiting)) (p : Interval S) {q : Interval S}
      → run_keys c env m p ≡ (q, ok tt)
      → All (λ (x : ContentionKey × Waiting). length x.1 ≤ 1) m
  unfolding run_keys run_key
  run_keys-short [] p e = tt
  run_keys-short ((k, v) ∷ m) p e =
      let (p1, _, f, g) = after-eq-ok (run_key c env k v p) _ e in
      let (r, f1, g1) = attempt-eq-ok p (prepare c env p.store k) _ f in
      let (v2, f2, g2) = attempt-eq-ok p (sort_by_time v) _ g1 in
      (
        elim (run_all-length k r 0 v2 v p g2) [
          | inl z ↦ omega (arith, z, length-sort_by_time v f2)
          | inr z ↦ omega (arith, z, length-sort_by_time v f2)
        ],
        run_keys-short m p1 g,
      )
