-- ===== src/Mempool.antt =====
-- src/core/mempool.rs: transactions that wait to be processed. The heap is the list of its entries in
-- no order of meaning: `pop` takes an entry that is greatest for `partial_cmp` (the first of them), which
-- is all that the code relies on.
pub mod Order
pub mod Drain
pub mod Mirror
use redgold.Prelude.{
  ℕ, zero, suc, ◌+◌, Bool, true, false, Option, none, some, List, [], ◌∷◌, ◌++◌, I64, slt, length,
  Result, ok, err, panic, ErrorInfo, error_info, error_message, internal_channel_receive_error,
  after, attempt, ltb, if◌then◌else◌,
}
use redgold.Structs.{Address, Hash, Hash-discrete, Transaction}
use redgold.Crypto.{Crypto}
use redgold.Assoc.{get, put, remove}
use redgold.Transaction.{hash_or, total_output_amount}
use redgold.Hashing.{calculate_hash}
use redgold.Process.{Relay}
use redgold.Relay.{Query, transaction_known}

-- A response channel is its number.
pub record TransactionMessage : Type 0 where
  pub transaction : Transaction
  pub response_channel : Option ℕ

pub record MempoolEntry : Type 0 where
  pub transaction : TransactionMessage
  pub fee_acceptable_address : List Address

-- The heap, and what of the relay the mempool changes: the map of its entries, the errors that it
-- answered, and the channel of the transactions to process, in order.
pub record Mempool : Type 0 where
  pub heap : List MempoolEntry
  pub mempool_entries : List (Hash × Transaction)
  pub responses : List (ℕ × ErrorInfo)
  pub transaction_process : List TransactionMessage

-- The store, the locks of the node, the seeds' addresses and the channels.
pub record Surroundings : Type 0 where
  pub query_maybe_transaction : Query
  pub relay : Relay
  pub seed_addresses : List Address
  pub is_open : ℕ → Bool
  -- The channel of the transactions to process: whether someone receives from it, and its bound.
  pub is_connected : Bool
  pub capacity : ℕ

abbrev pub amount_of : MempoolEntry → I64
amount_of e = total_output_amount e.transaction.transaction

-- `partial_cmp` compares the amounts the other way round: the smaller amount is the greater entry.
unfoldable pub is_greater : MempoolEntry → MempoolEntry → Bool
is_greater a b = slt (amount_of a) (amount_of b)

-- A greatest entry of a heap with `e` in it, and the others.
unfoldable pub take_greatest : MempoolEntry → List MempoolEntry → MempoolEntry × List MempoolEntry
take_greatest e [] = (e, [])
take_greatest e (x ∷ xs) =
    if is_greater x e
    then (let (b, rest) = take_greatest x xs in (b, e ∷ rest))
    else (let (b, rest) = take_greatest e xs in (b, x ∷ rest))

-- `TrySendError`.
pub data TrySend : Type 0 where
  sent : Mempool → TrySend
  full disconnected : TrySend

module _ (c : Crypto) (env : Surroundings) where
  abbrev pub hash_of_message : TransactionMessage → Hash
  hash_of_message m = hash_or (calculate_hash c) m.transaction

  unfoldable pub push : MempoolEntry → Mempool → Mempool
  push e p = record p {
    heap = e ∷ p.heap;
    mempool_entries =
        put Hash-discrete (hash_of_message e.transaction) e.transaction.transaction
          p.mempool_entries;
  }

  abbrev pub pop_from : List MempoolEntry → Mempool → Option (MempoolEntry × Mempool)
  pop_from [] p = none
  pop_from (x ∷ xs) p =
      let (e, rest) = take_greatest x xs in
      some (
        e,
        record p {
          heap = rest;
          mempool_entries = remove Hash-discrete (hash_of_message e.transaction) p.mempool_entries;
        },
      )

  unfoldable pub pop : Mempool → Option (MempoolEntry × Mempool)
  pop p = pop_from p.heap p

  -- A known transaction is answered, if it can be, with an error.
  abbrev pub refuse : Option ℕ → Mempool → Mempool × Result (Unit {0})
  refuse none p = (p, ok tt)
  refuse (some r) p =
      if env.is_open r
      then (
        record p {
          responses = p.responses ++ (r, error_info "Transaction already in process or known") ∷ [];
        },
        ok tt,
      )
      else (p, err (error_message internal_channel_receive_error "sending on a closed channel"))

  unfoldable pub take_message : TransactionMessage → Mempool → Mempool × Result (Unit {0})
  take_message m p =
      attempt p
        (transaction_known env.query_maybe_transaction p.mempool_entries env.relay
          (hash_of_message m))
        λ is_known. if is_known then refuse m.response_channel p else (
          push (record { transaction = m; fee_acceptable_address = env.seed_addresses }) p,
          ok tt,
        )

  unfoldable pub take_messages : List TransactionMessage → Mempool → Mempool × Result (Unit {0})
  take_messages [] p = (p, ok tt)
  take_messages (m ∷ ms) p = after (take_message m p) λ q done. take_messages ms q

  unfoldable pub try_send : TransactionMessage → Mempool → TrySend
  try_send m p =
      if env.is_connected
      then if ltb (length p.transaction_process) env.capacity
        then sent (record p { transaction_process = p.transaction_process ++ m ∷ [] })
        else full
      else disconnected

  -- The loop of the sends, on fuel.
  unfoldable pub drain : ℕ → Mempool → Mempool × Result (Unit {0})
  drain zero p = (p, panic "out of fuel")
  drain (suc n) p = elim (pop p) [
    | none ↦ (p, ok tt)
    | some next ↦ elim (try_send next.0.transaction next.1) [
      | sent q ↦ drain n q
      | full ↦ (push next.0 next.1, ok tt)
      | disconnected ↦ (next.1, err (error_info "transaction process channel closed unexpectedly"))
    ]
  ]

  -- The messages are those that `recv_while` has taken from the channel.
  unfoldable pub interval_fold : List TransactionMessage → Mempool → Mempool × Result (Unit {0})
  interval_fold ms p = after (take_messages ms p) λ q done. drain (suc (length q.heap)) q
