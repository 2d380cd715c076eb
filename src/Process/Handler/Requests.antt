-- ===== src/Process/Handler/Requests.antt =====
-- src/core/process_transaction.rs: the state of a request and of its node, and the stores and the network
-- that it uses.
use redgold.Prelude.{
  ℕ, Bool, Option, none, some, List, [], ◌∷◌, I64, test, filter_map, Result, ErrorInfo, ◌==◌, ◌||◌,
  if◌then◌else◌, is_ok,
}
use redgold.Structs.{Bytes, Hash, UtxoId, Transaction, Output, Message, ContractStateMarker}
use redgold.Proofs.{Bytes-discrete}
use redgold.Transaction.{peer_data, node_metadata}
use redgold.Resolver.{ResolveResponse}
use redgold.Process.{RequestProcessor, Conflict, Relay}

-- `S` is the state of the store. A read of the store does not fail here; a write may.
pub record Services (S : Type 0) : Type 0 where
  pub query_maybe_transaction : S → Hash → Option (Transaction × Option ErrorInfo)
  pub query_utxo_id_valid : S → Hash → I64 → Bool
  pub select_observation_edge : S → Hash → List Message
  pub insert_transaction : S → Transaction → Result S
  pub delete_utxo : S → UtxoId → Result S
  pub insert_state : S → ContractStateMarker → Result S
  pub broadcast : Hash → I64 → List (Result ResolveResponse)
  -- The proof of an observation that the transaction is pending or accepted, fully or partly validated.
  pub observe_pending : Hash → Bool → Result Message
  pub observe_accepted : Hash → Bool → Result Message
  pub gossip : Transaction → Result (Unit {0})
  pub query_observation_proofs : Hash → List Message
  pub invoke_wasm : Bytes → Transaction → Result (Option Bytes)
  pub send_contract_ordering_message : Transaction → Output → Result ContractStateMarker
  pub count_unique_by_state : List Message → Result (Unit {0})
  pub network : ℕ

pub data Stage : Type 0 where
  received : Stage
  registered : RequestProcessor → Stage
  resolved : RequestProcessor → Stage
  acquired : RequestProcessor → Bool → List Conflict → Stage
  waiting : RequestProcessor → Bool → List Conflict → Stage
  settled : RequestProcessor → Bool → Stage
  accepted : Stage
  -- The response, with the proofs; `none` where there is none.
  finished : Option (Result (List Message)) → Stage

-- A `TransactionProcessContext`, with its message and how much it has read of its channel.
pub record Request : Type 0 where
  pub request_id : ℕ
  pub transaction : Transaction
  pub current_time : I64
  pub request_processor : Option RequestProcessor
  pub utxo_ids : Option (List UtxoId)
  pub read : ℕ
  pub proofs : List Message
  pub stage : Stage

pub record Node (S : Type 0) : Type 0 where
  pub relay : Relay
  pub store : S

-- `HashSet::insert` of a proof.
unfoldable pub insert_proof : List Message → Message → List Message
insert_proof [] p = p ∷ []
insert_proof (q ∷ qs) p = if test (Bytes-discrete q p) then q ∷ qs else q ∷ insert_proof qs p

unfoldable pub extend_proofs : List Message → List Message → List Message
extend_proofs acc [] = acc
extend_proofs acc (p ∷ ps) = extend_proofs (insert_proof acc p) ps

unfoldable pub self_conflict : Request → Hash → RequestProcessor → Bool → Conflict
self_conflict r h p abort = record {
  transaction_hash = h;
  abort = abort;
  processing_start_time = r.current_time;
  request_processer = p;
}

-- What the channel of a request has received, in order.
abbrev pub inbox : ℕ → Relay → List Conflict
inbox id s = filter_map (λ (m : ℕ × Conflict). if m.0 == id then some m.1 else none) s.sent

-- `check_peer_message`.
unfoldable pub is_peer_message : Transaction → Bool
is_peer_message tx = is_ok (node_metadata tx) || is_ok (peer_data tx)

-- A request goes on, or its time to wait runs out.
pub data Event : Type 0 where
  go expire : Event
