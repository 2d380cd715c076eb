-- ===== src/Mempool/Drain.antt =====
-- Which entries a tick of the mempool sends on, and in which order (src/core/mempool.rs).
use redgold.Prelude.{
  append_assoc, Distinct, ℕ, zero, suc, ◌≡◌, ◌≢◌, refl, sym, ap, ◌∙◌, subst, inl, inr, ◌⊎◌, true,
  false, Bool-cases, none, some, List, [], ◌∷◌, ◌++◌, Elem, length, arith, ltb, ok, panic, String,
  map, ◌≤◌, ◌<◌, true≢false,
}
use redgold.Structs.{Hash, Hash-discrete}
use redgold.Crypto.{Crypto}
use redgold.Assoc.{remove}
use redgold.Mempool.{
  TransactionMessage, MempoolEntry, Mempool, Surroundings, sent, full, disconnected, take_greatest,
  hash_of_message, push, pop_from, pop, take_messages, try_send, drain, interval_fold,
}
use redgold.Mempool.Order.{rank, Taken, take_greatest-Taken, take_greatest-Distinct}

abbrev pub Ascending : List MempoolEntry → Type 0
Ascending [] = Unit
Ascending (x ∷ xs) = ((y : MempoolEntry) → Elem y xs → rank x ≤ rank y) × Ascending xs

module _ (c : Crypto) (env : Surroundings) where
  pub record Popped (p : Mempool) (e : MempoolEntry) (q : Mempool) : Type 0 where
    pub taken : Taken p.heap e q.heap
    pub distinct :
        (f : MempoolEntry → Hash) → Distinct (map f p.heap) → Distinct (map f (e ∷ q.heap))
    pub process : q.transaction_process ≡ p.transaction_process
    pub entries :
        q.mempool_entries
        ≡ remove Hash-discrete (hash_of_message c env e.transaction) p.mempool_entries

  pop_from-cases :
      (xs : List MempoolEntry) (p : Mempool)
      → p.heap ≡ xs
      → ((xs ≡ []) × (pop_from c env xs p ≡ none))
        ⊎ ((e : MempoolEntry) × (q : Mempool) × (pop_from c env xs p ≡ some (e, q)) × Popped p e q)
  pop_from-cases [] p h = inl (refl, refl)
  pop_from-cases (x ∷ xs) p h = inr (
    (take_greatest x xs).0,
    _,
    refl,
    record {
      taken =
          subst (λ l. Taken l (take_greatest x xs).0 (take_greatest x xs).1) (sym h)
            (take_greatest-Taken x xs);
      distinct = λ f d. take_greatest-Distinct f x xs (subst (λ l. Distinct (map f l)) h d);
      process = refl;
      entries = refl;
    },
  )

  pub pop-cases :
      (p : Mempool)
      → ((p.heap ≡ []) × (pop c env p ≡ none))
        ⊎ ((e : MempoolEntry) × (q : Mempool) × (pop c env p ≡ some (e, q)) × Popped p e q)
  unfolding pop
  pop-cases p = pop_from-cases p.heap p refl

  pub try_send-cases :
      (m : TransactionMessage) (p : Mempool)
      → (try_send c env m p
          ≡ sent (record p { transaction_process = p.transaction_process ++ m ∷ [] }))
        ⊎ (((try_send c env m p ≡ full) × (env.capacity ≤ length p.transaction_process))
            ⊎ ((try_send c env m p ≡ disconnected) × (env.is_connected ≡ false)))
  unfolding try_send
  try_send-cases m p = elim (Bool-cases env.is_connected) [
    | inr f ↦ rw f (inr (inr (refl, refl)))
    | inl t ↦ elim (Bool-cases (ltb (length p.transaction_process) env.capacity)) [
      | inl l ↦ rw (t, l) (inl refl)
      | inr l ↦ rw (t, l) (inr (inl (refl, not_ltb (length p.transaction_process) env.capacity l)))
    ]
  ]
    where
      not_ltb : (a b : ℕ) → ltb a b ≡ false → b ≤ a
      not_ltb a b h = ground arith

  -- What the sends leave of a mempool, when `out` are the entries sent.
  pub record Drained (p q : Mempool) (out : List MempoolEntry) : Type 0 where
    pub appended :
        q.transaction_process
        ≡ p.transaction_process ++ map (λ (e : MempoolEntry). e.transaction) out
    pub ascending : Ascending out
    pub below : (x y : MempoolEntry) → Elem x out → Elem y q.heap → rank x ≤ rank y
    pub back : (y : MempoolEntry) → Elem y out ⊎ Elem y q.heap → Elem y p.heap
    pub forth : (y : MempoolEntry) → Elem y p.heap → Elem y out ⊎ Elem y q.heap
    pub finished : (q.heap ≡ []) ⊎ (env.capacity ≤ length q.transaction_process)

  one_more :
      (p q : Mempool) (e : MempoolEntry) (r : Mempool) (out : List MempoolEntry)
      → Popped p e q
      → Drained
          (record q { transaction_process = q.transaction_process ++ e.transaction ∷ [] })
          r
          out
      → Drained p r (e ∷ out)
  one_more p q e r out pop d = record {
    appended =
        d.appended
        ∙ append_assoc q.transaction_process (e.transaction ∷ [])
            (map (λ (x : MempoolEntry). x.transaction) out)
        ∙ ap (λ l. l ++ e.transaction ∷ map (λ (x : MempoolEntry). x.transaction) out) pop.process;
    ascending = ((λ y m. least y (d.back y (inl m))), d.ascending);
    below = λ x y m k. elim m [
      | inl h ↦ subst (λ w. rank w ≤ rank y) (sym h) (least y (d.back y (inr k)))
      | inr m ↦ d.below x y m k
    ];
    back = λ y m. elim m [
      | inl (inl h) ↦ pop.taken.back y (inl h)
      | inl (inr k) ↦ pop.taken.back y (inr (d.back y (inl k)))
      | inr k ↦ pop.taken.back y (inr (d.back y (inr k)))
    ];
    forth = λ y m. elim (pop.taken.forth y m) [
      | inl h ↦ inl (inl h)
      | inr k ↦ elim (d.forth y k) [ inl a ↦ inl (inr a) | inr b ↦ inr b ]
    ];
    finished = d.finished;
  }
    where
      least : (y : MempoolEntry) → Elem y q.heap → rank e ≤ rank y
      least y m = pop.taken.least y (pop.taken.back y (inr m))

  nothing_left : (p : Mempool) → p.heap ≡ [] → Drained p p []
  nothing_left p h = record {
    appended = append_nil p.transaction_process;
    ascending = tt;
    below = λ x y m k. absurd m;
    back = λ y m. elim m [ inl k ↦ absurd k | inr k ↦ k ];
    forth = λ y m. inr m;
    finished = inl h;
  }
    where
      append_nil : {A : Type 0} (xs : List A) → xs ≡ xs ++ []
      append_nil [] = refl
      append_nil (x ∷ xs) = ap (λ l. x ∷ l) (append_nil xs)

  channel_full :
      (p q : Mempool) (e : MempoolEntry)
      → Popped p e q
      → env.capacity ≤ length q.transaction_process
      → Drained p (push c env e q) []
  unfolding push
  channel_full p q e pop h = record {
    appended = pop.process ∙ append_nil p.transaction_process;
    ascending = tt;
    below = λ x y m k. absurd m;
    back = λ y m. elim m [ inl k ↦ absurd k | inr k ↦ pop.taken.back y k ];
    forth = λ y m. inr (pop.taken.forth y m);
    finished = inr h;
  }
    where
      append_nil : {A : Type 0} (xs : List A) → xs ≡ xs ++ []
      append_nil [] = refl
      append_nil (x ∷ xs) = ap (λ l. x ∷ l) (append_nil xs)

  -- With more fuel than entries and a connected receiver, the loop of sends ends and succeeds. It sends
  -- entries in ascending order of amount, each at most any that stays, and stops when the heap is empty
  -- or the channel full; what was in the heap is sent or stays there.
  pub drain-Drained :
      (n : ℕ) (p : Mempool)
      → length p.heap < n
      → env.is_connected ≡ true
      → (q : Mempool) × (out : List MempoolEntry) × (drain c env n p ≡ (q, ok tt)) × Drained p q out
  unfolding drain
  drain-Drained zero p lt k = absurd (omega (arith, lt))
  drain-Drained (suc n) p lt k = elim (pop-cases p) [
    | inl (h, none_left) ↦ (p, [], rw (drain, none_left) refl, nothing_left p h)
    | inr (e, q, some_left, popped) ↦ elim (try_send-cases e.transaction q) [
      | inl s ↦
          let (r, out, eq, d) =
            drain-Drained n
              (record q { transaction_process = q.transaction_process ++ e.transaction ∷ [] })
              (omega (arith, lt, popped.taken.shorter)) k in
          (r, e ∷ out, rw (drain, some_left, s) eq, one_more p q e r out popped d)
      | inr (inl (s, h)) ↦
          (push c env e q, [], rw (drain, some_left, s) refl, channel_full p q e popped h)
      | inr (inr (s, f)) ↦ absurd (true≢false (sym k ∙ f))
    ]
  ]

  -- With more fuel than entries the loop of sends does not run out of it: whatever the channel does, it
  -- ends with a result or an error, and more fuel changes nothing.
  pub drain-ends :
      (n m : ℕ) (p : Mempool) (why : String)
      → length p.heap < n
      → length p.heap < m
      → ((drain c env n p).1 ≢ panic why) × (drain c env n p ≡ drain c env m p)
  unfolding drain
  drain-ends zero m p why lt lm = absurd (omega (arith, lt))
  drain-ends (suc n) zero p why lt lm = absurd (omega (arith, lm))
  drain-ends (suc n) (suc m) p why lt lm = elim (pop-cases p) [
    | inl (h, none_left) ↦ rw (drain, none_left) ((λ e. cc), refl)
    | inr (e, q, some_left, popped) ↦ elim (try_send-cases e.transaction q) [
      | inl s ↦
          rw (drain, some_left, s)
            (drain-ends n m
              (record q { transaction_process = q.transaction_process ++ e.transaction ∷ [] }) why
              (omega (arith, lt, popped.taken.shorter)) (omega (arith, lm, popped.taken.shorter)))
      | inr (inl (s, h)) ↦ rw (drain, some_left, s) ((λ e. cc), refl)
      | inr (inr (s, f)) ↦ rw (drain, some_left, s) ((λ e. cc), refl)
    ]
  ]

  -- A tick that could take its messages, with a connected receiver, succeeds and drains the mempool that
  -- the messages left.
  pub interval_fold-Drained :
      (ms : List TransactionMessage) (p p1 : Mempool)
      → take_messages c env ms p ≡ (p1, ok tt)
      → env.is_connected ≡ true
      → (q : Mempool) × (out : List MempoolEntry) × (interval_fold c env ms p ≡ (q, ok tt))
        × Drained p1 q out
  unfolding interval_fold
  interval_fold-Drained ms p p1 e k =
      let (q, out, eq, d) = drain-Drained (suc (length p1.heap)) p1 (omega arith) k in
      (q, out, rw e eq, d)
