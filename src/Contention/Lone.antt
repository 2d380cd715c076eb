-- ===== src/Contention/Lone.antt =====
-- A request to an idle contract state manager, and the tick after it
-- (src/core/contract/contract_state_manager.rs).
use redgold.Prelude.{
  ℕ, ◌≡◌, refl, true, false, none, some, List, [], ◌∷◌, I64, Result, ok, holds→test, test, ap, ◌∙◌,
}
use redgold.Structs.{
  ContentionKey, ContentionKey-discrete, ContractStateMarker, Output, Transaction,
}
use redgold.Crypto.{Crypto}
use redgold.Assoc.{get, put, remove}
use redgold.Output.{is_deploy, is_request, request_contention_key}
use redgold.Contention.{process_tx}
use redgold.Contention.Interval.{
  Contracts, Interval, Response, sort_by_time, remove_at, remove_keys, Prepared, prepare, compute,
  answer, answer_key, run_one, run_all, run_key, run_keys, interval, interval_fold_or_recv,
  process_transaction,
}

-- A manager with nothing to do.
abbrev pub idle : {S : Type 0} → S → List Response → Interval S
idle s sent = record {
  store = s;
  manager = record { unordered = []; subscribers = [] };
  sent = sent;
}

module _ (c : Crypto) {S : Type 0} (env : Contracts S) where
  abbrev waiting : I64 → Transaction → ContentionKey → ℕ → S → Interval S
  waiting now tx k n s = record {
    store = s;
    manager = record { unordered = (k, (tx, now) ∷ []) ∷ []; subscribers = (k, n ∷ []) ∷ [] };
    sent = [];
  }

  registered :
      (now : I64) (tx : Transaction) (o : Output) (n : ℕ) (s : S) (k : ContentionKey)
      → is_deploy o ≡ false
      → is_request o ≡ true
      → request_contention_key o ≡ ok k
      → process_tx now tx o n (idle s []).manager ≡ ok (waiting now tx k n s).manager
  unfolding process_tx get put
  registered now tx o n s k d r e = rw (d, r, e) refl

  received :
      (now : I64) (tx : Transaction) (o : Output) (n : ℕ) (s : S) (k : ContentionKey)
      → is_deploy o ≡ false
      → is_request o ≡ true
      → request_contention_key o ≡ ok k
      → interval_fold_or_recv c env now (some (process_transaction tx o n)) (idle s [])
        ≡ (waiting now tx k n s, ok tt)
  unfolding interval_fold_or_recv
  received now tx o n s k d r e = rw (interval_fold_or_recv, registered now tx o n s k d r e) refl

  ticked :
      (now : I64) (tx : Transaction) (n : ℕ) (s t : S) (k : ContentionKey) (r : Prepared c env)
      (m : ContractStateMarker)
      → prepare c env s k ≡ ok r
      → compute c env k r tx ≡ ok m
      → env.insert_state s m ≡ ok t
      → env.is_open n ≡ true
      → interval c env (waiting now tx k n s) ≡ (idle t ((n, ok m) ∷ []), ok tt)
  unfolding interval run_keys run_key sort_by_time run_all run_one answer_key answer remove_at get
      put remove remove_keys
  ticked now tx n s t k r m p e i o = rw (p, e, i, same, o, put, same, remove, same) refl
    where
      same : test (ContentionKey-discrete k k) ≡ true
      same = holds→test (ContentionKey-discrete k k) refl

  -- A request to an idle manager is answered at the next tick with the marker that the executor computes
  -- from the recent state, and the manager is idle again, if the key has a recent state and code, the
  -- executor succeeds, the marker is stored and the channel is open.
  pub interval_fold_or_recv_answers :
      (now later : I64) (tx : Transaction) (o : Output) (n : ℕ) (s t : S) (k : ContentionKey)
      (r : Prepared c env) (m : ContractStateMarker)
      → is_deploy o ≡ false
      → is_request o ≡ true
      → request_contention_key o ≡ ok k
      → prepare c env s k ≡ ok r
      → compute c env k r tx ≡ ok m
      → env.insert_state s m ≡ ok t
      → env.is_open n ≡ true
      → interval_fold_or_recv c env later none
          (interval_fold_or_recv c env now (some (process_transaction tx o n)) (idle s [])).0
        ≡ (idle t ((n, ok m) ∷ []), ok tt)
  unfolding interval_fold_or_recv
  interval_fold_or_recv_answers now later tx o n s t k r m d q e p f i live =
      ap (λ (x : Interval S × Result (Unit {0})). interval c env x.0)
        (received now tx o n s k d q e)
      ∙ ticked now tx n s t k r m p f i live
