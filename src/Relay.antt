-- ===== src/Relay.antt =====
-- src/core/relay.rs: what the tasks of a node ask the relay that they share. The store's answers and the
-- clock are arguments. (The locks and channels of requests are the record `Relay` of Process.)
pub mod Limits
pub mod Known
pub mod Votes
pub mod Identity
use redgold.Prelude.{
  ℕ, zero, suc, ◌+◌, Bool, true, false, Option, none, some, List, [], ◌∷◌, map?, or_else, is_some,
  length, test, bind?, Result, ok, err, panic, error_info, ◌>>=◌, ltb, if◌then◌else◌,
}
use redgold.Structs.{Hash, Hash-discrete, Transaction}
use redgold.Prelude.{ErrorInfo}
use redgold.Process.{Relay, RequestProcessor}
use redgold.Assoc.{get, put}

-- What the store knows of a hash: the transaction, and why it was rejected if it was.
abbrev pub Query : Type 0
Query = Hash → Result (Option (Transaction × Option ErrorInfo))

unfoldable pub transaction_known : Query → List (Hash × Transaction) → Relay → Hash → Result Bool
transaction_known query mempool_entries s h =
    if is_some (get Hash-discrete h mempool_entries)
    then ok true
    else if is_some (get Hash-discrete h s.transaction_channels)
    then ok true
    else (query h >>= λ found. ok (is_some found))

-- The mempool first, then the requests in process, then the store.
unfoldable pub lookup_transaction :
    Query → List (Hash × Transaction) → Relay → Hash → Result (Option Transaction)
lookup_transaction query mempool_entries s h = elim (get Hash-discrete h mempool_entries) [
  | some t ↦ ok (some t)
  | none ↦ elim (get Hash-discrete h s.transaction_channels) [
    | some p ↦ ok (some p.transaction)
    | none ↦ query h >>= λ found. ok (map? (λ (t : Transaction × Option ErrorInfo). t.0) found)
  ]
]
