-- ===== src/Mempool/Mirror.antt =====
-- The relay's map of mempool entries has the hashes of the heap (src/core/mempool.rs).
use redgold.Prelude.{
  ℕ, zero, suc, ◌≡◌, sym, ap, ◌∙◌, subst, inl, inr, ◌⊎◌, Bool, true, false, Bool-cases, Option,
  none, some, List, [], ◌∷◌, Elem, Distinct, map, is_some, true≢false, Result, ok, ok-injective,
  after-keeps, Result-cases, length, ◌++◌,
}
use redgold.Structs.{Hash, Hash-discrete, Transaction}
use redgold.Crypto.{Crypto}
use redgold.Assoc.{get, put, get-put_self, get-put_other, get-remove_self, get-remove_other}
use redgold.Relay.{transaction_known}
use redgold.Mempool.{
  TransactionMessage, MempoolEntry, Mempool, Surroundings, sent, full, disconnected,
  hash_of_message, push, pop, refuse, take_message, take_messages, try_send, drain, interval_fold,
}
use redgold.Mempool.Order.{Elem-map}
use redgold.Mempool.Drain.{Popped, pop-cases, try_send-cases}

module _ (c : Crypto) (env : Surroundings) where
  abbrev entry_hash : MempoolEntry → Hash
  entry_hash e = hash_of_message c env e.transaction

  -- Different entries have different hashes, and the map has just these.
  pub record IsMirrored (p : Mempool) : Type 0 where
    pub distinct : Distinct (map entry_hash p.heap)
    pub listed :
        (h : Hash)
        → Elem h (map entry_hash p.heap)
        → is_some (get Hash-discrete h p.mempool_entries) ≡ true
    pub only :
        (h : Hash)
        → is_some (get Hash-discrete h p.mempool_entries) ≡ true
        → Elem h (map entry_hash p.heap)

  push-IsMirrored :
      (e : MempoolEntry) (p : Mempool)
      → ¬ (Elem (entry_hash e) (map entry_hash p.heap))
      → IsMirrored p
      → IsMirrored (push c env e p)
  unfolding push
  push-IsMirrored e p new w = record {
    distinct = (new, w.distinct);
    listed = λ h m. elim (Hash-discrete (entry_hash e) h) [
      | yes y ↦ subst (λ i. is_some (get Hash-discrete i entries) ≡ true) y self
      | no n ↦
          ap is_some (other h n) ∙ w.listed h (elim m [ inl x ↦ absurd (n (sym x)) | inr k ↦ k ])
    ];
    only = λ h t. elim (Hash-discrete (entry_hash e) h) [
      | yes y ↦ inl (sym y)
      | no n ↦ inr (w.only h (sym (ap is_some (other h n)) ∙ t))
    ];
  }
    where
      entries : List (Hash × Transaction)
      entries = put Hash-discrete (entry_hash e) e.transaction.transaction p.mempool_entries

      self : is_some (get Hash-discrete (entry_hash e) entries) ≡ true
      self =
          ap is_some
            (get-put_self Hash-discrete (entry_hash e) e.transaction.transaction p.mempool_entries)

      other :
          (h : Hash)
          → ¬ (entry_hash e ≡ h)
          → get Hash-discrete h entries ≡ get Hash-discrete h p.mempool_entries
      other h n =
          get-put_other Hash-discrete (entry_hash e) h e.transaction.transaction p.mempool_entries n

  -- What was taken is gone from both, and the others are there.
  pop-IsMirrored :
      (p q : Mempool) (e : MempoolEntry)
      → Popped c env p e q
      → IsMirrored p
      → IsMirrored q × ¬ (Elem (entry_hash e) (map entry_hash q.heap))
  pop-IsMirrored p q e pop w = (
    record {
      distinct = d.1;
      listed = λ h m. elim (Hash-discrete (entry_hash e) h) [
        | yes y ↦ absurd (d.0 (subst (λ i. Elem i (map entry_hash q.heap)) (sym y) m))
        | no n ↦
            ap is_some (other h n)
            ∙ w.listed h (Elem-map entry_hash h q.heap p.heap (λ y i. pop.taken.back y (inr i)) m)
      ];
      only = λ h t. elim (Hash-discrete (entry_hash e) h) [
        | yes y ↦ absurd (
            true≢false (
              sym t
              ∙ ap (λ i. is_some (get Hash-discrete i q.mempool_entries)) (sym y)
              ∙ ap (λ l. is_some (get Hash-discrete (entry_hash e) l)) pop.entries
              ∙ ap is_some (get-remove_self Hash-discrete (entry_hash e) p.mempool_entries)))
        | no n ↦
            elim (Elem-map entry_hash h p.heap (e ∷ q.heap) pop.taken.forth
              (w.only h (sym (ap is_some (other h n)) ∙ t))) [
                | inl x ↦ absurd (n (sym x))
                | inr k ↦ k
              ]
      ];
    },
    d.0,
  )
    where
      d : Distinct (map entry_hash (e ∷ q.heap))
      d = pop.distinct entry_hash w.distinct

      other :
          (h : Hash)
          → ¬ (entry_hash e ≡ h)
          → get Hash-discrete h q.mempool_entries ≡ get Hash-discrete h p.mempool_entries
      other h n =
          ap (get Hash-discrete h) pop.entries
          ∙ get-remove_other Hash-discrete (entry_hash e) h p.mempool_entries n

  drain-IsMirrored : (n : ℕ) (p : Mempool) → IsMirrored p → IsMirrored (drain c env n p).0
  unfolding drain
  drain-IsMirrored zero p w = w
  drain-IsMirrored (suc n) p w = elim (pop-cases c env p) [
    | inl (h, none_left) ↦ rw (drain, none_left) w
    | inr (e, q, some_left, popped) ↦
        let (v, new) = pop-IsMirrored p q e popped w in
        elim (TrySend-cases e.transaction q) [
          | inl s ↦
              rw (drain, some_left, s)
                (drain-IsMirrored n _
                  (record { distinct = v.distinct; listed = v.listed; only = v.only }))
          | inr (inl s) ↦ rw (drain, some_left, s) (push-IsMirrored e q new v)
          | inr (inr s) ↦ rw (drain, some_left, s) v
        ]
  ]
    where
      TrySend-cases :
          (m : TransactionMessage) (p : Mempool)
          → (try_send c env m p
              ≡ sent (record p { transaction_process = p.transaction_process ++ m ∷ [] }))
            ⊎ ((try_send c env m p ≡ full) ⊎ (try_send c env m p ≡ disconnected))
      TrySend-cases m p = elim (try_send-cases c env m p) [
        | inl s ↦ inl s
        | inr (inl s) ↦ inr (inl s.0)
        | inr (inr s) ↦ inr (inr s.0)
      ]

  refuse-IsMirrored : (r : Option ℕ) (p : Mempool) → IsMirrored p → IsMirrored (refuse c env r p).0
  refuse-IsMirrored none p w = w
  refuse-IsMirrored (some r) p w = elim (Bool-cases (env.is_open r)) [
    | inl t ↦ rw t (record { distinct = w.distinct; listed = w.listed; only = w.only })
    | inr f ↦ rw f w
  ]

  -- What is not known is not in the mempool.
  transaction_known-absent :
      (p : Mempool) (h : Hash)
      → transaction_known env.query_maybe_transaction p.mempool_entries env.relay h ≡ ok false
      → is_some (get Hash-discrete h p.mempool_entries) ≡ false
  unfolding transaction_known
  transaction_known-absent p h e =
      elim (Bool-cases (is_some (get Hash-discrete h p.mempool_entries))) [
        | inl t ↦ absurd (true≢false (ok-injective (rw t at e)))
        | inr f ↦ f
      ]

  take_message-IsMirrored :
      (m : TransactionMessage) (p : Mempool) → IsMirrored p → IsMirrored (take_message c env m p).0
  unfolding take_message
  take_message-IsMirrored m p w = elim (Result-cases known) [
    | inl (true, e) ↦ rw e (refuse-IsMirrored m.response_channel p w)
    | inl (false, e) ↦ rw e (
        push-IsMirrored _ p
          (λ i. true≢false (
            sym (w.listed (hash_of_message c env m) i)
            ∙ transaction_known-absent p (hash_of_message c env m) e))
          w)
    | inr (inl (i, e)) ↦ rw e w
    | inr (inr (why, e)) ↦ rw e w
  ]
    where
      known : Result Bool
      known =
          transaction_known env.query_maybe_transaction p.mempool_entries env.relay
            (hash_of_message c env m)

  take_messages-IsMirrored :
      (ms : List TransactionMessage) (p : Mempool)
      → IsMirrored p
      → IsMirrored (take_messages c env ms p).0
  unfolding take_messages
  take_messages-IsMirrored [] p w = w
  take_messages-IsMirrored (m ∷ ms) p w =
      after-keeps IsMirrored (take_message c env m p) (λ q done. take_messages c env ms q)
        (take_message-IsMirrored m p w) (λ q done v. take_messages-IsMirrored ms q v)

  -- Whatever a tick meets, a full channel, a closed one or a failing store, it keeps the map of the
  -- relay in step with the heap: the entries have different hashes, and the map has just these.
  pub interval_fold-IsMirrored :
      (ms : List TransactionMessage) (p : Mempool)
      → IsMirrored p
      → IsMirrored (interval_fold c env ms p).0
  unfolding interval_fold
  interval_fold-IsMirrored ms p w =
      after-keeps IsMirrored (take_messages c env ms p)
        (λ q done. drain c env (suc (length q.heap)) q) (take_messages-IsMirrored ms p w)
        (λ q done v. drain-IsMirrored (suc (length q.heap)) q v)
