-- ===== src/Contention/Interval.antt =====
-- src/core/contract/contract_state_manager.rs: what the manager does at each tick with the requests
-- that it has gathered, and its handler. The data store, the executor and the channels are a parameter.
-- The keys of its maps are visited in the order of the list.
use redgold.Prelude.{
  ℕ, zero, suc, ◌+◌, Bool, Option, none, some, List, [], ◌∷◌, ◌++◌, I64, add64, slt, length, all,
  map, head?, or_else, Result, ok, err, panic, error_message, missing_field,
  internal_channel_receive_error, safe_get_msg, is_ok, after, attempt, ◌>>=◌, ltb, if◌then◌else◌,
}
use redgold.Structs.{
  Bytes, Address, ContentionKey, ContentionKey-discrete, StateSelector, ContractStateMarker, Output,
  Transaction, UtxoEntry,
}
use redgold.Crypto.{Crypto}
use redgold.Assoc.{get, put, remove}
use redgold.Output.{code, request_data}
use redgold.Transaction.{hash_or, output_of, time_of}
use redgold.Hashing.{calculate_hash}
use redgold.Contention.{ContractStateManager, process_tx}

pub record Contracts (S : Type 0) : Type 0 where
  pub query_recent_state : S → Address → Option StateSelector → Result (List ContractStateMarker)
  -- `resolve_code(..).utxo_entry`.
  pub resolve_code : S → Address → Result (Option UtxoEntry)
  -- The code on the input and the state; the `data` of the result and its `state` may be missing.
  pub invoke_extism_wasm_direct : Bytes → Bytes → Bytes → Result (Option (Option Bytes))
  pub insert_state : S → ContractStateMarker → Result S
  -- Whether someone still listens to a channel.
  pub is_open : ℕ → Bool

-- A response on a channel.
abbrev pub Response : Type 0
Response = ℕ × Result ContractStateMarker

pub record Interval (S : Type 0) : Type 0 where
  pub store : S
  pub manager : ContractStateManager
  pub sent : List Response

abbrev pub Waiting : Type 0
Waiting = List (Transaction × I64)

abbrev pub time_or : Transaction × I64 → I64
time_or x = elim (time_of x.0) [ ok t ↦ t | err e ↦ 0 | panic m ↦ 0 ]

unfoldable pub insert_by_time : Transaction × I64 → Waiting → Waiting
insert_by_time x [] = x ∷ []
insert_by_time x (y ∷ ys) =
    if slt (time_or y) (time_or x) then y ∷ insert_by_time x ys else x ∷ y ∷ ys

unfoldable pub sorted_by_time : Waiting → Waiting
sorted_by_time [] = []
sorted_by_time (x ∷ xs) = insert_by_time x (sorted_by_time xs)

-- `sort_by` with `time().expect("t")`: a single item is compared with nothing.
unfoldable pub sort_by_time : Waiting → Result Waiting
sort_by_time v =
    if ltb (length v) 2
    then ok v
    else if all (λ (x : Transaction × I64). is_ok (time_of x.0)) v
    then ok (sorted_by_time v)
    else panic "t"

-- `Vec::remove`.
unfoldable pub remove_at : ℕ → Waiting → Result Waiting
remove_at i [] = panic "removal index should be < len"
remove_at zero (x ∷ xs) = ok xs
remove_at (suc i) (x ∷ xs) = remove_at i xs >>= λ ys. ok (x ∷ ys)

unfoldable pub remove_keys :
    {V : Type 0} → List ContentionKey → List (ContentionKey × V) → List (ContentionKey × V)
remove_keys [] m = m
remove_keys (k ∷ ks) m = remove_keys ks (remove ContentionKey-discrete k m)

module _ (c : Crypto) {S : Type 0} (env : Contracts S) where
  -- The state, the code and the address that the requests of a key run on.
  pub record Prepared : Type 0 where
    pub address : Address
    pub most_recent : ContractStateMarker
    pub code_bytes : Bytes

  unfoldable pub recent_and_code :
      S → ContentionKey → Address → Result (ContractStateMarker × Bytes)
  recent_and_code s k a = do
    found ← env.query_recent_state s a k.selector
    recent ← safe_get_msg (head? found) "Missing most recent contract state"
    resolved ← env.resolve_code s a
    u ← safe_get_msg resolved "Code Utxo"
    o ← safe_get_msg u.output "Output"
    b ← safe_get_msg (code o) "Code"
    ok (recent, b)

  unfoldable pub prepare : S → ContentionKey → Result Prepared
  prepare s k = do
    a ← safe_get_msg k.address "Missing address on contention key"
    f ← recent_and_code s k a
    ok (record { address = a; most_recent = f.0; code_bytes = f.1 })

  -- The state that a transaction leads to, and its time.
  unfoldable pub updated_state : Prepared → Transaction → Result (Bytes × I64)
  updated_state r tx = do
    o ← safe_get_msg (head? (output_of tx r.address)) "Missing output"
    input ← request_data o
    before ← (elim r.most_recent.state [
      | some b ↦ ok b
      | none ↦ err (error_message missing_field "bytes data")
    ])
    er ← env.invoke_extism_wasm_direct r.code_bytes input before
    d ← safe_get_msg er "data"
    updated ← safe_get_msg d "state"
    t ← time_of tx
    ok (updated, t)

  abbrev pub next_marker :
      ContentionKey → Prepared → Transaction → Bytes × I64 → ContractStateMarker
  next_marker k r tx u = record {
    address = some r.address;
    state = some u.0;
    selector = k.selector;
    transaction_marker = some (hash_or (calculate_hash c) tx);
    nonce = add64 r.most_recent.nonce 1;
    time = u.1;
  }

  unfoldable pub compute : ContentionKey → Prepared → Transaction → Result ContractStateMarker
  compute k r tx = updated_state r tx >>= λ u. ok (next_marker k r tx u)

  unfoldable pub answer :
      List ℕ → ContractStateMarker → List Response → List Response × Result (Unit {0})
  answer [] m sent = (sent, ok tt)
  answer (r ∷ rs) m sent =
      if env.is_open r
      then answer rs m (sent ++ (r, ok m) ∷ [])
      else (sent, err (error_message internal_channel_receive_error "sending on a closed channel"))

  -- `subscribers.remove(k)`, and the marker to each of them.
  unfoldable pub answer_key :
      ContentionKey → ContractStateMarker → Interval S → Interval S × Result (Unit {0})
  answer_key k m p =
      let (sent, done) =
        answer (or_else (get ContentionKey-discrete k p.manager.subscribers) []) m p.sent in
      (
        record p {
          manager = record (p.manager) {
            subscribers = remove ContentionKey-discrete k p.manager.subscribers;
          };
          sent = sent;
        },
        done,
      )

  -- One transaction, the `idx`-th of the sorted ones; `v` is what still waits.
  unfoldable pub run_one :
      ContentionKey
      → Prepared
      → ℕ
      → Transaction
      → Waiting
      → Interval S
      → Interval S × Result Waiting
  run_one k r idx tx v p = attempt p (compute k r tx) λ csm.
      attempt p (env.insert_state p.store csm) λ s.
        after (answer_key k csm (record p { store = s })) λ q done.
          attempt q (remove_at idx v) λ rest. (
            record q {
              manager = record (q.manager) {
                unordered = put ContentionKey-discrete k rest q.manager.unordered;
              };
            },
            ok rest,
          )

  unfoldable pub run_all :
      ContentionKey → Prepared → ℕ → Waiting → Waiting → Interval S → Interval S × Result (Unit {0})
  run_all k r idx [] v p = (p, ok tt)
  run_all k r idx (x ∷ xs) v p =
      after (run_one k r idx x.0 v p) λ p rest. run_all k r (idx + 1) xs rest p

  unfoldable pub run_key : ContentionKey → Waiting → Interval S → Interval S × Result (Unit {0})
  run_key k v p =
      attempt p (prepare p.store k) λ r. attempt p (sort_by_time v) λ v2. run_all k r 0 v2 v p

  unfoldable pub run_keys :
      List (ContentionKey × Waiting) → Interval S → Interval S × Result (Unit {0})
  run_keys [] p = (p, ok tt)
  run_keys ((k, v) ∷ m) p = after (run_key k v p) λ p done. run_keys m p

  unfoldable pub interval : Interval S → Interval S × Result (Unit {0})
  interval p = after (run_keys p.manager.unordered p) λ q done. (
    record q {
      manager = record (q.manager) {
        unordered =
            remove_keys (map (λ (x : ContentionKey × Waiting). x.0) p.manager.unordered)
              q.manager.unordered;
      };
    },
    ok tt,
  )

  pub data ContractStateMessage : Type 0 where
    process_transaction : Transaction → Output → ℕ → ContractStateMessage

  -- A message, or a tick where there is none.
  unfoldable pub interval_fold_or_recv :
      I64 → Option ContractStateMessage → Interval S → Interval S × Result (Unit {0})
  interval_fold_or_recv now none p = interval p
  interval_fold_or_recv now (some (process_transaction tx o r)) p =
      elim (process_tx now tx o r p.manager) [
        | ok m ↦ (record p { manager = m }, ok tt)
        | err e ↦
            if env.is_open r then (record p { sent = p.sent ++ (r, err e) ∷ [] }, ok tt) else (
              p,
              err (error_message internal_channel_receive_error "sending on a closed channel"),
            )
        | panic m ↦ (p, panic m)
      ]
