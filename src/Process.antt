-- ===== src/Process.antt =====
-- src/core/process_transaction.rs: the locks that concurrent requests take on transaction hashes and on
-- outputs, and the choice among conflicting transactions. The shared maps of the relay and the channels
-- between requests are one state; the messages that a request sends are recorded in order.
pub mod Winner
pub mod Exclusion
pub mod Locks
pub mod Handler
pub mod System
pub mod Persist
pub mod Duplicate
pub mod Stale
use redgold.Prelude.{
  ℕ, zero, suc, ◌+◌, Bool, true, false, Option, none, some, List, [], ◌∷◌, ◌++◌, I64, length, test,
  map, get_elem?, take, or_else, Result, ok, err, panic, error_info, error_message,
  transaction_already_processing, transaction_rejected_double_spend, expect, ◌>>=◌, ◌>>◌, ◌==◌, ltb,
  leb, not, ◌||◌, if◌then◌else◌, is_some,
}
use redgold.Structs.{Bytes, Hash, Hash-discrete, UtxoId, UtxoId-discrete, Transaction, Message}
use redgold.Proofs.{Bytes-discrete}
use redgold.Assoc.{get, put, remove}

-- A request is known to the others by its identifier, which also names its channel.
pub record RequestProcessor : Type 0 where
  pub request_id : ℕ
  pub transaction_hash : Hash
  pub transaction : Transaction

pub record Conflict : Type 0 where
  pub transaction_hash : Hash
  pub abort : Bool
  pub processing_start_time : I64
  pub request_processer : RequestProcessor

pub record Relay : Type 0 where
  -- `UTXOContentionPool`, by output.
  pub utxo_channels : List (UtxoId × List Conflict)
  pub transaction_channels : List (Hash × RequestProcessor)
  -- `(request_id, message)`, in the order in which they were sent.
  pub sent : List (ℕ × Conflict)

unfoldable pub create_receiver_or_err :
    Hash → ℕ → Transaction → Relay → Result (Relay × RequestProcessor)
create_receiver_or_err h request_uuid tx s = elim (get Hash-discrete h s.transaction_channels) [
  | some p ↦
      err
        (error_message transaction_already_processing "Duplicate TX hash found in processing queue")
  | none ↦
      let req : RequestProcessor = record {
        request_id = request_uuid;
        transaction_hash = h;
        transaction = tx;
      } in
      ok (record s { transaction_channels = put Hash-discrete h req s.transaction_channels }, req)
]

abbrev pub notify_all : Conflict → List Conflict → List (ℕ × Conflict)
notify_all self = map (λ (c : Conflict). (c.request_processer.request_id, self))

-- What the loop over the outputs leaves: the state, whether one was taken, and the conflicts found.
pub record Acquired : Type 0 where
  pub relay : Relay
  pub conflict_detected : Bool
  pub conflicts : List Conflict

-- One output: the requests that hold it are collected and told, and this one joins them.
unfoldable pub acquire_one : Conflict → UtxoId → Acquired → Acquired
acquire_one self u a = elim (get UtxoId-discrete u a.relay.utxo_channels) [
  | some active ↦ record {
    relay = record (a.relay) {
      utxo_channels = put UtxoId-discrete u (active ++ self ∷ []) a.relay.utxo_channels;
      sent = a.relay.sent ++ notify_all self active;
    };
    conflict_detected = true;
    conflicts = a.conflicts ++ active;
  }
  | none ↦ record a {
    relay = record (a.relay) {
      utxo_channels = put UtxoId-discrete u (self ∷ []) a.relay.utxo_channels;
    };
  }
]

unfoldable pub acquire : Conflict → List UtxoId → Acquired → Acquired
acquire self [] a = a
acquire self (u ∷ us) a = acquire self us (acquire_one self u a)

-- The first request of the pool with this identifier is taken out.
unfoldable pub remove_request : ℕ → List Conflict → List Conflict
remove_request id [] = []
remove_request id (c ∷ cs) =
    if c.request_processer.request_id == id then cs else c ∷ remove_request id cs

unfoldable pub clean_one : ℕ → UtxoId → Relay → Relay
clean_one id u s = elim (get UtxoId-discrete u s.utxo_channels) [
  | none ↦ s
  | some active ↦ record s {
    utxo_channels = put UtxoId-discrete u (remove_request id active) s.utxo_channels;
  }
]

unfoldable pub clean_utxo : ℕ → List UtxoId → Relay → Relay
clean_utxo id [] s = s
clean_utxo id (u ∷ us) s = clean_utxo id us (clean_one id u s)

-- `cleanup(None)`: the request and its outputs are there only once they were set.
unfoldable pub cleanup : Hash → Option RequestProcessor → Option (List UtxoId) → Relay → Relay
cleanup h none ids s = record s {
  transaction_channels = remove Hash-discrete h s.transaction_channels;
}
cleanup h (some p) none s = record s {
  transaction_channels = remove Hash-discrete h s.transaction_channels;
}
cleanup h (some p) (some ids) s =
    clean_utxo p.request_id ids
      (record s { transaction_channels = remove Hash-discrete h s.transaction_channels })

-- `Vec<u8>::cmp`: `a < b` in lexicographic order.
unfoldable pub bytes_lt : Bytes → Bytes → Bool
bytes_lt [] [] = false
bytes_lt [] (y ∷ ys) = true
bytes_lt (x ∷ xs) [] = false
bytes_lt (x ∷ xs) (y ∷ ys) = if ltb x y then true else if ltb y x then false else bytes_lt xs ys

-- `sort_by` on the hashes and `get(0)`: the first of the least. The sums of trust that the code
-- collects beside each hash are not compared.
unfoldable pub least_hash : Bytes → List Bytes → Bytes
least_hash best [] = best
least_hash best (h ∷ hs) = least_hash (if bytes_lt h best then h else best) hs

unfoldable pub resolve_conflict : List Bytes → Result Bytes
resolve_conflict [] = panic "unwrap"
resolve_conflict (h ∷ hs) = ok (least_hash h hs)

-- The messages that came in while waiting: one with `abort` ends the request.
unfoldable pub wait : List Conflict → List Conflict → Result (List Conflict)
wait conflicts [] = ok conflicts
wait conflicts (c ∷ cs) =
    if c.abort
    then err
        (error_message transaction_rejected_double_spend "Double spend detected in live context")
    else wait (conflicts ++ c ∷ []) cs

abbrev pub conflict_hashes : List Conflict → List Bytes
conflict_hashes = map (λ (c : Conflict). or_else c.transaction_hash.bytes [])

-- The stage behind the wait: with no conflict the request goes on; with some, only the winner does,
-- and it tells the others to abort.
unfoldable pub settle : Conflict → List Conflict → Relay → Result Relay
settle self [] s = ok s
settle self (c ∷ cs) s = do
  winner ← resolve_conflict (conflict_hashes ((c ∷ cs) ++ self ∷ []))
  (if test (Bytes-discrete winner (or_else self.transaction_hash.bytes []))
      then ok (record s { sent = s.sent ++ notify_all (record self { abort = true }) (c ∷ cs) })
      else err (
          error_message transaction_rejected_double_spend
            "Lost conflict to other transaction winner"))
