-- ===== src/Process/Handler.antt =====
-- `transaction` and `process`: the whole way of a request, in the stages between which other requests
-- run. The stores and the network are a parameter: the data store's answers and writes (data/src, SQL),
-- the observation buffer, gossip, the executor, the contract manager, the peers. Metrics, logging and
-- the pause before the proofs are collected are left out.
mod Requests
unfoldable pub use Requests.*
use redgold.Prelude.{
  ℕ, ◌+◌, Bool, true, false, Option, none, some, List, [], ◌∷◌, ◌++◌, I64, test, get_elem?,
  filter_map, bind?, Result, ok, err, panic, ErrorInfo, error_message,
  transaction_rejected_double_spend, safe_get_msg, ◌>>=◌, ◌>>◌, ◌==◌, ◌||◌, if◌then◌else◌, is_ok,
}
use redgold.Structs.{
  Bytes, Hash, UtxoId, Transaction, Output, Message, ContractStateMarker, CodeExecutionContract,
}
use redgold.Crypto.{Crypto}
use redgold.Output.{is_request}
use redgold.Proofs.{Bytes-discrete}
use redgold.Transaction.{
  fixed_utxo_ids_of_inputs, hash_or, validate_network, peer_data, node_metadata, time_of,
}
use redgold.Hashing.{calculate_hash}
use redgold.Validate.{prevalidate}
use redgold.Resolver.{Sources, ResolveResponse, ResolvedTransaction, resolve_transaction, validate}
use redgold.Process.{
  RequestProcessor, Conflict, Relay, create_receiver_or_err, acquire, cleanup, settle,
}

module _ (c : Crypto) {S : Type 0} (env : Services S) where
  abbrev pub hash_of_transaction : Transaction → Hash
  hash_of_transaction = hash_or (calculate_hash c)

  -- The answers that the resolver gets from this node's store.
  abbrev pub sources : S → Sources
  sources s = record {
    query_maybe_transaction = env.query_maybe_transaction s;
    query_utxo_id_valid = env.query_utxo_id_valid s;
    select_observation_edge = env.select_observation_edge s;
    broadcast = env.broadcast;
  }

  abbrev pub pre_rejection : Option (Transaction × Option ErrorInfo) → Result (Unit {0})
  pre_rejection (some (t, some e)) = err e
  pre_rejection (some (t, none)) = ok tt
  pre_rejection none = ok tt

  unfoldable pub immediate_validation : S → Transaction → Result (Unit {0})
  immediate_validation s tx = do
    pre_rejection (env.query_maybe_transaction s (hash_of_transaction tx))
    prevalidate c tx
    validate_network tx env.network

  -- `resolve_transaction(..).await?; resolver_data.validate()?`
  unfoldable pub resolve_valid : S → Transaction → Result ResolvedTransaction
  resolve_valid s tx = do t ← resolve_transaction c (sources s) tx; validate t; ok t

  -- An error ends in the cleanup and a response; a panic ends the task where it is.
  unfoldable pub give_up : Node S → Request → ErrorInfo → Node S × Request
  give_up n r e = (
    record n {
      relay = cleanup (hash_of_transaction r.transaction) r.request_processor r.utxo_ids n.relay;
    },
    record r { stage = finished (some (err e)) },
  )

  abbrev pub proceed {ℓ} :
      {A : Type ℓ} → Node S → Request → Result A → (A → Node S × Request) → Node S × Request
  proceed n r (ok a) k = k a
  proceed n r (err e) k = give_up n r e
  proceed n r (panic m) k = (n, record r { stage = finished (some (panic m)) })

  -- The validation, and the first lines of `process` up to its first wait.
  unfoldable pub enter : Node S → Request → Node S × Request
  enter n r = proceed n r (immediate_validation n.store r.transaction) λ _.
      proceed n r
        (create_receiver_or_err (hash_of_transaction r.transaction) r.request_id r.transaction
          n.relay)
        λ (made : Relay × RequestProcessor).
          (record n { relay = made.0 }, record r { stage = registered made.1 })

  unfoldable pub receive : Node S → Request → Node S × Request
  receive n r =
      if is_peer_message r.transaction then (n, record r { stage = finished none }) else enter n r

  unfoldable pub resolve_first : RequestProcessor → Node S → Request → Node S × Request
  resolve_first p n r = proceed n r (resolve_valid n.store r.transaction) λ _. (
    n,
    record r {
      utxo_ids = some (fixed_utxo_ids_of_inputs r.transaction.inputs);
      stage = resolved p;
    },
  )

  unfoldable pub take_locks : RequestProcessor → Node S → Request → Node S × Request
  take_locks p n r =
      let a =
        acquire (self_conflict r (hash_of_transaction r.transaction) p false)
          (fixed_utxo_ids_of_inputs r.transaction.inputs)
          (record { relay = n.relay; conflict_detected = false; conflicts = [] }) in
      (
        record n { relay = a.relay },
        record r { stage = acquired p a.conflict_detected a.conflicts },
      )

  abbrev pub pending_proof : Bool → Hash → Bool → Result (List Message)
  pending_proof true h full = ok []
  pending_proof false h full = env.observe_pending h full >>= λ p. ok (p ∷ [])

  unfoldable pub resolve_again :
      RequestProcessor → Bool → List Conflict → Node S → Request → Node S × Request
  resolve_again p detected cs n r =
      proceed n r
        (do
          t ← resolve_valid n.store r.transaction
          ps ← pending_proof detected (hash_of_transaction r.transaction) t.resolved_internally
          env.gossip r.transaction
          ok (t.resolved_internally, ps))
        λ (done : Bool × List Message).
          (n, record r { proofs = done.1; stage = waiting p done.0 cs })

  abbrev pub not_aborted : Conflict → Result (Unit {0})
  not_aborted m =
      if m.abort
      then err
          (error_message transaction_rejected_double_spend "Double spend detected in live context")
      else ok tt

  -- One message: one with `abort` ends the request.
  unfoldable pub hear :
      RequestProcessor
      → Bool
      → List Conflict
      → Node S
      → Request
      → Option Conflict
      → Node S × Request
  hear p full cs n r none = (n, r)
  hear p full cs n r (some m) =
      proceed n (record r { read = r.read + 1 }) (not_aborted m)
        λ _. (n, record r { read = r.read + 1; stage = waiting p full (cs ++ m ∷ []) })

  unfoldable pub listen :
      RequestProcessor → Bool → List Conflict → Node S → Request → Node S × Request
  listen p full cs n r = hear p full cs n r (get_elem? (inbox r.request_id n.relay) r.read)

  unfoldable pub decide :
      RequestProcessor → Bool → List Conflict → Node S → Request → Node S × Request
  decide p full cs n r =
      proceed n r (settle (self_conflict r (hash_of_transaction r.transaction) p true) cs n.relay)
        λ s. (record n { relay = s }, record r { stage = settled p full })

  -- `insert_transaction`: what was written stays where a later step fails.
  unfoldable pub delete_utxos : S → List UtxoId → S × Result (Unit {0})
  delete_utxos s [] = (s, ok tt)
  delete_utxos s (u ∷ us) = elim (env.delete_utxo s u) [
    | ok s' ↦ elim u.transaction_hash [
      | some h ↦ delete_utxos s' us
      | none ↦ (s', safe_get_msg none "unspecified optional value")
    ]
    | err e ↦ (s, err e)
    | panic m ↦ (s, panic m)
  ]

  unfoldable pub insert_accepted : S → Transaction → S × Result (Unit {0})
  insert_accepted s tx = elim (env.insert_transaction s tx) [
    | ok s' ↦ delete_utxos s' (fixed_utxo_ids_of_inputs tx.inputs)
    | err e ↦ (s, err e)
    | panic m ↦ (s, panic m)
  ]

  unfoldable pub accept : Bool → Node S → Request → Node S × Request
  accept full n r = proceed n r (env.observe_accepted (hash_of_transaction r.transaction) full) λ p.
      let (s, done) = insert_accepted n.store r.transaction in
      proceed (record n { store = s }) r done
        λ _.
          (record n { store = s }, record r { proofs = insert_proof r.proofs p; stage = accepted })

  -- The deployment of one output, for the executor `Extism`.
  unfoldable pub deploy : S → Transaction → Output → Bytes → S × Result (Unit {0})
  deploy s tx o b =
      elim (env.invoke_wasm b tx >>= λ state. time_of tx >>= λ t. env.insert_state s (record {
        address = o.address;
        state = state;
        selector = none;
        transaction_marker = some (hash_of_transaction tx);
        nonce = 0;
        time = t;
      })) [ ok s' ↦ (s', ok tt) | err e ↦ (s, err e) | panic m ↦ (s, panic m) ]

  abbrev pub extism_code : Output → Option Bytes
  extism_code o =
      bind? (bind? o.contract (λ k. k.code_execution_contract))
        λ (x : CodeExecutionContract). bind? x.executor λ b. if b == 0 then x.code else none

  abbrev pub order_request : Transaction → Output → Result (Unit {0})
  order_request tx o =
      if is_request o then (env.send_contract_ordering_message tx o >>= λ m. ok tt) else ok tt

  unfoldable pub run_contracts : S → Transaction → List Output → S × Result (Unit {0})
  run_contracts s tx [] = (s, ok tt)
  run_contracts s tx (o ∷ os) =
      let d : S × Result (Unit {0}) = elim (extism_code o) [
        | none ↦ (s, ok tt)
        | some b ↦ deploy s tx o b
      ] in
      elim (d.1 >> order_request tx o) [
        | ok t ↦ run_contracts d.0 tx os
        | err e ↦ (d.0, err e)
        | panic m ↦ (d.0, panic m)
      ]

  unfoldable pub respond : Node S → Request → Node S × Request
  respond n r =
      let h = hash_of_transaction r.transaction in
      let stored = env.select_observation_edge n.store h in
      let proofs =
        extend_proofs
          (extend_proofs (extend_proofs r.proofs stored) (env.query_observation_proofs h)) stored in
      let (s, done) = run_contracts n.store r.transaction r.transaction.outputs in
      proceed (record n { store = s }) r (done >> env.count_unique_by_state proofs)
        λ _. (
          record n { store = s; relay = cleanup h r.request_processor r.utxo_ids n.relay },
          record r { proofs = proofs; stage = finished (some (ok proofs)) },
        )

  unfoldable pub advance : Event → Stage → Node S → Request → Node S × Request
  advance e received n r = receive n r
  advance e (registered p) n r = resolve_first p n r
  advance e (resolved p) n r = take_locks p n r
  advance e (acquired p detected cs) n r = resolve_again p detected cs n r
  advance go (waiting p full cs) n r = listen p full cs n r
  advance expire (waiting p full cs) n r = decide p full cs n r
  advance e (settled p full) n r = accept full n r
  advance e accepted n r = respond n r
  advance e (finished o) n r = (n, r)
