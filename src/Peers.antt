-- ===== src/Peers.antt =====
-- src/core/peer_rx_event_handler.rs: what a node does with a request of a peer. The stores, the queries of the
-- other APIs, the faucet, and the channels are parameters; metrics, logging and the pretty printing of
-- errors are left out.
pub mod Handle
pub mod Gate
use redgold.Prelude.{
  ℕ, Bool, true, false, Option, none, some, List, [], ◌∷◌, ◌++◌, I64, map, map?, bind?, head?,
  is_some, Result, ok, err, panic, ErrorInfo, error_info, safe_get_msg, expect, ◌>>=◌, after,
  attempt, if◌then◌else◌,
}
use redgold.Structs.{
  Hash, Address, UtxoId, PublicKey, StateSelector, Transaction, Message, ContractStateMarker,
}
use redgold.Process.{Relay, RequestProcessor}
use redgold.Relay.{Query, lookup_transaction}
use redgold.Requests.{
  Request, Response, NodeMetadata, UtxoValidResponse, DownloadRequest, DownloadResponse,
  SubmitTransactionRequest, RecentDiscoveryTransactionsRequest, GetContractStateMarkerRequest,
}

-- What the public requests need.
pub record Services (S : Type 0) : Type 0 where
  pub relay : S → Relay
  pub mempool_entries : S → List (Hash × Transaction)
  pub hash_or : Transaction → Hash
  pub query_maybe_transaction : S → Query
  pub query_utxo_id_valid : S → Hash → I64 → Result Bool
  pub utxo_used : S → UtxoId → Result (Option (Hash × I64))
  pub recent_transaction_hashes : S → Option I64 → Option I64 → Result (List Hash)
  pub get_genesis : S → Result (Option Transaction)
  -- `party_info` of each allocation of the deposit configuration that has one.
  pub parties_info : S → Result (List Message)
  pub resolve_code : S → Address → Result Message
  pub query_recent_state : S → Address → Option StateSelector → Result (List ContractStateMarker)
  pub hash_query : S → Message → Result Message
  pub select_observation_edge : S → Hash → Result (List Message)
  -- The info on all peers and on this node.
  pub peers_info : S → Result Message
  pub handle_about_node : S → Message → Result Message
  pub process_download_request : S → DownloadRequest → Result DownloadResponse
  pub faucet_request : Message → Option Message → S → S × Result Message
  pub submit_transaction : SubmitTransactionRequest → S → S × Result Message
  -- `relay.observation.sender.send`.
  pub send_observation : Transaction → S → Result S

-- One `if let Some(..) = &request...`: the state and the response so far.
abbrev pub Stage : Type 0 → Type 0
Stage S = S → Response → S × Result Response

unfoldable pub run_stages : {S : Type 0} → List (Stage S) → Stage S
run_stages [] s r = (s, ok r)
run_stages (f ∷ fs) s r = after (f s r) (run_stages fs)

abbrev pub on_some : {A S : Type 0} → Option A → (A → Stage S) → Stage S
on_some none f s r = (s, ok r)
on_some (some a) f s r = f a s r

abbrev pub on_true : {S : Type 0} → Bool → Stage S → Stage S
on_true false f s r = (s, ok r)
on_true true f s r = f s r

-- A query answers without a change of the state.
abbrev pub query_stage : {A S : Type 0} → (S → Result A) → (A → Response → Response) → Stage S
query_stage ask put s r = attempt s (ask s) λ a. (s, ok (put a r))

module _ {S : Type 0} (env : Services S) where
  -- Hashes of the mempool, of the requests in process, and of the store.
  unfoldable pub recent_hashes : RecentDiscoveryTransactionsRequest → S → Result (List Hash)
  recent_hashes q s = do
    accepted ← env.recent_transaction_hashes s q.limit q.min_time
    ok (
        map (λ (e : Hash × Transaction). env.hash_or e.1) (env.mempool_entries s)
        ++ map (λ (e : Hash × RequestProcessor). e.1.transaction_hash)
            (env.relay s).transaction_channels
        ++ accepted)

  -- The transaction that spent an output, if it was not rejected.
  abbrev pub spent_by : S → Option (Hash × I64) → Result UtxoValidResponse
  spent_by s none =
      ok (record { valid = none; child_transaction = none; child_transaction_input = none })
  spent_by s (some (child_hash, child_idx)) =
      env.query_maybe_transaction s child_hash >>= λ found. ok (spender child_idx found)
    where
      spender : I64 → Option (Transaction × Option ErrorInfo) → UtxoValidResponse
      spender i (some (tx, none)) = record {
        valid = some false;
        child_transaction = some tx;
        child_transaction_input = some i;
      }
      spender i other = record {
        valid = none;
        child_transaction = none;
        child_transaction_input = none;
      }

  unfoldable pub utxo_valid : UtxoId → S → Result UtxoValidResponse
  utxo_valid u s = do
    h ← safe_get_msg u.transaction_hash "unspecified optional value"
    res ← env.query_utxo_id_valid s h u.output_index
    elim res [
      | true ↦
          ok
            (record { valid = some true; child_transaction = none; child_transaction_input = none })
      | false ↦ env.utxo_used s u >>= spent_by s
    ]

  unfoldable pub contract_state_marker :
      GetContractStateMarkerRequest → S → Result (Option ContractStateMarker)
  contract_state_marker q s = elim q.address [
    | none ↦ err (error_info "Missing address or utxo id")
    | some a ↦ env.query_recent_state s a q.selector >>= λ res. ok (head? res)
  ]
