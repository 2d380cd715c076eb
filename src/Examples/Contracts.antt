-- ===== src/Examples/Contracts.antt =====
-- A call of a contract at alice's address, whose code adds its input in front of the state.
use redgold.Prelude.{
  ℕ, ◌≡◌, ◌≤◌, refl, inl, inr, suc, true, none, some, [], ◌∷◌, ◌++◌, All, ok, length, ℕ_discrete,
}
use redgold.Structs.{
  Address-discrete, Output, ContentionKey, ContentionKey-discrete, ContractStateMarker, Transaction,
}
use redgold.Output.{
  empty_output, empty_data, empty_contract, request_call_type, contract_request, is_deploy,
  is_request, request_contention_key, request_data, request_selector, code,
}
use redgold.Assoc.{get, put, remove}
use redgold.Transaction.{time_of, output_of}
use redgold.Contention.Interval.{
  Contracts, Interval, Waiting, Prepared, recent_and_code, prepare, updated_state, compute,
  next_marker, interval, interval_fold_or_recv, process_transaction, run_keys, run_key, run_all,
  run_one, answer_key, answer, remove_at, remove_keys, sort_by_time,
}
use redgold.Contention.Answers.{interval-clears, Told, interval-answers}
use redgold.Contention.Lone.{idle, interval_fold_or_recv_answers}
use redgold.Examples.Funds.{toy, alice, metadata}

abbrev deployed : Output
deployed = record empty_output {
  address = some alice;
  contract = some (record empty_contract {
    code_execution_contract =
        some (record { address = none; code = some (7 ∷ []); executor = some 0 });
  });
}

abbrev call : Output
call = record empty_output {
  address = some alice;
  data_field = some (record empty_data { request = some (5 ∷ []) });
  output_type = some request_call_type;
}

abbrev call_tx : Transaction
call_tx = record {
  inputs = [];
  outputs = call ∷ [];
  struct_metadata = some metadata;
  options = none;
}

abbrev key : ContentionKey
key = contract_request alice none

abbrev recent : ContractStateMarker
recent = record {
  address = some alice;
  state = some (1 ∷ []);
  selector = none;
  transaction_marker = none;
  nonce = 4;
  time = 0;
}

-- The store counts the markers that it was given.
abbrev executor : Contracts ℕ
executor = record {
  query_recent_state = λ s a sel. ok (recent ∷ []);
  resolve_code = λ s a. ok (some (record { utxo_id = none; output = some deployed; time = 0 }));
  invoke_extism_wasm_direct = λ b input state. ok (some (some (input ++ state)));
  insert_state = λ s m. ok (suc s);
  is_open = λ n. true;
}

abbrev prepared : Prepared toy executor
prepared = record { address = alice; most_recent = recent; code_bytes = 7 ∷ [] }

abbrev marker : ContractStateMarker
marker = next_marker toy executor key prepared call_tx (5 ∷ 1 ∷ [], 0)

abbrev before : Interval ℕ
before = record {
  store = 0;
  manager = record {
    unordered = (key, (call_tx, 3) ∷ []) ∷ [];
    subscribers = (key, 8 ∷ 9 ∷ []) ∷ [];
  };
  sent = [];
}

abbrev afterwards : Interval ℕ
afterwards = idle 1 ((8, ok marker) ∷ (9, ok marker) ∷ [])

interval_fold_or_recv_answers_example :
    interval_fold_or_recv toy executor 5 none
      (interval_fold_or_recv toy executor 3
        (some (process_transaction call_tx call 8))
        (idle 0 [])).0
    ≡ (idle 1 ((8, ok marker) ∷ []), ok tt)
unfolding is_deploy is_request request_contention_key request_selector prepare recent_and_code code
    compute updated_state output_of request_data time_of Address-discrete ℕ_discrete
interval_fold_or_recv_answers_example =
    interval_fold_or_recv_answers toy executor 3 5 call_tx call 8 0 1 key prepared marker refl refl
      refl refl refl refl refl

interval-clears_example :
    All (λ (x : ContentionKey × Waiting). length x.1 ≤ 1) before.manager.unordered
    × (afterwards.manager.unordered ≡ [])
unfolding interval run_keys run_key run_all run_one answer_key answer remove_at remove_keys
    sort_by_time prepare recent_and_code code compute updated_state output_of is_request
    request_data time_of Address-discrete ContentionKey-discrete ℕ_discrete get put remove
interval-clears_example = interval-clears toy executor before afterwards refl

interval-answers_example : Told toy executor key 9 afterwards
unfolding interval run_keys run_key run_all run_one answer_key answer remove_at remove_keys
    sort_by_time prepare recent_and_code code compute updated_state output_of is_request
    request_data time_of Address-discrete ContentionKey-discrete ℕ_discrete get put remove
interval-answers_example =
    interval-answers toy executor before afterwards key 9 ((call_tx, 3) ∷ []) refl (inl refl)
      (λ e. cc) (inr (inl refl))
