-- ===== src/Download.antt =====
-- src/data/download.rs: how a node that starts gets the history from another one, and what a node answers. The
-- store, the clock and the network are parameters (`utxo_channels` and `transaction_known` are those of
-- the relay); metrics and timers are left out. An insertion gives the changed state or an error.
pub mod Rounds
pub mod Answers
pub mod Writes
pub mod Ends
use redgold.Prelude.{
  ℕ, zero, suc, ◌+◌, ◌-◌, ◌*◌, Bool, true, false, not, ◌&&◌, Option, none, some, List, [], ◌∷◌, I64,
  sub64, add64, slt, filter_map, map?, or_else, is_some, last?, Result, ok, err, panic, ErrorInfo,
  error_info, error_message, missing_field, safe_get_msg, ◌>>=◌, to_option, after, attempt, ltb,
  ◌==◌, if◌then◌else◌,
}
use redgold.Structs.{
  Hash, Hash-discrete, UtxoId, UtxoId-discrete, UtxoEntry, PublicKey, Transaction, Message,
}
use redgold.Transaction.{time_of}
use redgold.Assoc.{get, put}
use redgold.Process.{Relay}
use redgold.Relay.{Query, transaction_known}
use redgold.Requests.{
  Request, Response, DownloadRequest, DownloadResponse, TransactionEntry, ObservationEntry,
  empty_request, as_error_info,
}

pub record Services (S : Type 0) : Type 0 where
  pub relay : S → Relay
  pub mempool_entries : S → List (Hash × Transaction)
  pub query_maybe_transaction : S → Query
  pub calculate_hash : Transaction → Hash
  pub send_message_sync : Request → PublicKey → S → S × Result Response
  pub broadcast_async : List PublicKey → Request → S → S × Result (List (Result Response))
  pub insert_utxo : UtxoEntry → S → Result S
  pub insert_transaction : Transaction → I64 → S → Result S
  pub insert_observation_and_edges : Transaction → S → Result S
  pub insert_observation_edge : Message → S → Result S
  pub get_genesis : S → Result (Option Transaction)
  pub store_genesis : Transaction → S → Result S
  pub query_recent_transactions : S → Result (List Transaction)
  pub utxo_filter_time : S → I64 → I64 → Result (List UtxoEntry)
  pub query_time_transaction : S → I64 → I64 → Result (List TransactionEntry)
  pub query_time_observation : S → I64 → I64 → Result (List ObservationEntry)
  pub query_time_observation_edge : S → I64 → I64 → Result (List Message)
  -- The order in which a hash map is iterated.
  pub iteration : List (Hash × (Transaction × ℕ)) → List (Hash × (Transaction × ℕ))

-- `DownloadDataType`.
abbrev pub utxo_entry : ℕ
utxo_entry = 0

abbrev pub transaction_entry : ℕ
transaction_entry = 1

abbrev pub observation_entry : ℕ
observation_entry = 2

abbrev pub observation_edge_entry : ℕ
observation_edge_entry = 3

abbrev pub earliest_time : I64
earliest_time = 1650866635183

abbrev pub day : ℕ
day = 86400000

-- A write whose error counts, and one whose error is dropped.
abbrev pub write : {S : Type 0} → Result S → S → S × Result (Unit {0})
write (ok t) s = (t, ok tt)
write (err e) s = (s, err e)
write (panic m) s = (s, panic m)

abbrev pub write_dropped : {S : Type 0} → Result S → S → S × Result (Unit {0})
write_dropped (ok t) s = (t, ok tt)
write_dropped (err e) s = (s, ok tt)
write_dropped (panic m) s = (s, panic m)

-- `if let Ok(..) = .. { .. }`: the rest is skipped on an error.
abbrev pub if_ok :
    {S A : Type 0} → S × Result A → (A → S → S × Result Bool) → Bool → S × Result Bool
if_ok (s, ok a) rest got_data = rest a s
if_ok (s, err e) rest got_data = (s, ok got_data)
if_ok (s, panic m) rest got_data = (s, panic m)

abbrev pub query : I64 → I64 → ℕ → Request
query start_time end_time data_type = record empty_request {
  download_request = some (record {
    start_time = start_time;
    end_time = end_time;
    data_type = data_type;
    offset = none;
  });
}

module _ {S : Type 0} (env : Services S) where
  abbrev pub downloaded : S → Response → S × Result DownloadResponse
  downloaded t response =
      attempt t (as_error_info response)
        λ fine. (t, safe_get_msg response.download_response "Missing download response")

  unfoldable pub download_msg : I64 → I64 → ℕ → PublicKey → S → S × Result DownloadResponse
  download_msg start_time end_time data_type key s =
      after (env.send_message_sync (query start_time end_time data_type) key s) downloaded

  -- The entries without an id are passed over, and so are those that a request holds.
  unfoldable pub insert_utxos : List UtxoEntry → Bool → S → S × Result Bool
  insert_utxos [] got_data s = (s, ok got_data)
  insert_utxos (u ∷ us) got_data s = elim u.utxo_id [
    | none ↦ insert_utxos us got_data s
    | some id ↦ elim (is_some (get UtxoId-discrete id (env.relay s).utxo_channels)) [
      | true ↦ insert_utxos us true s
      | false ↦ after (write_dropped (env.insert_utxo u s) s) λ t done. insert_utxos us true t
    ]
  ]

  unfoldable pub insert_transactions : List TransactionEntry → Bool → S → S × Result Bool
  insert_transactions [] got_data s = (s, ok got_data)
  insert_transactions (x ∷ xs) got_data s = elim x.transaction [
    | none ↦ insert_transactions xs got_data s
    | some tx ↦
        attempt s
          (transaction_known (env.query_maybe_transaction s) (env.mempool_entries s) (env.relay s)
            (env.calculate_hash tx))
          λ known. elim known [
            | true ↦ insert_transactions xs true s
            | false ↦
                after (write (env.insert_transaction tx x.time s) s)
                  λ t done. insert_transactions xs true t
          ]
  ]

  unfoldable pub insert_observations : List ObservationEntry → Bool → S → S × Result Bool
  insert_observations [] got_data s = (s, ok got_data)
  insert_observations (x ∷ xs) got_data s = elim x.observation [
    | none ↦ insert_observations xs true s
    | some o ↦
        after (write_dropped (env.insert_observation_and_edges o s) s)
          λ t done. insert_observations xs true t
  ]

  unfoldable pub insert_edges : List Message → Bool → S → S × Result Bool
  insert_edges [] got_data s = (s, ok got_data)
  insert_edges (x ∷ xs) got_data s =
      after (write_dropped (env.insert_observation_edge x s) s) λ t done. insert_edges xs true t

  -- The four kinds of data, one after the other.
  abbrev pub download_utxos : I64 → I64 → PublicKey → S → S × Result Bool
  download_utxos start_time end_time key s =
      if_ok (download_msg start_time end_time utxo_entry key s)
        (λ r. insert_utxos r.utxo_entries false) false

  abbrev pub download_transactions : I64 → I64 → PublicKey → S → Bool → S × Result Bool
  download_transactions start_time end_time key s got_data =
      if_ok (download_msg start_time end_time transaction_entry key s)
        (λ r. insert_transactions r.transactions got_data) got_data

  abbrev pub download_observations : I64 → I64 → PublicKey → S → Bool → S × Result Bool
  download_observations start_time end_time key s got_data =
      if_ok (download_msg start_time end_time observation_entry key s)
        (λ r. insert_observations r.observations got_data) got_data

  abbrev pub download_edges : I64 → I64 → PublicKey → S → Bool → S × Result Bool
  download_edges start_time end_time key s got_data =
      if_ok (download_msg start_time end_time observation_edge_entry key s)
        (λ r. insert_edges r.observation_edges got_data) got_data

  unfoldable pub download_all : I64 → I64 → PublicKey → S → S × Result Bool
  download_all start_time end_time key s =
      after
        (after
          (after (download_utxos start_time end_time key s)
            (download_transactions start_time end_time key))
          (download_observations start_time end_time key))
        (download_edges start_time end_time key)
