-- ===== src/Examples/Waiting.antt =====
-- A mempool with two payments, and a faucet that is asked twice.
use redgold.Prelude.{
  sym, true≢false, replicate, or_else, head?, ◌≡◌, ◌≢◌, ◌≤◌, refl, true, none, some, [], ◌∷◌, List,
  ok, panic, arith, ℕ_discrete, is_some, ◌>>=◌,
}
use redgold.Structs.{Hash-discrete}
use redgold.Crypto.{Crypto}
use redgold.Output.{new_output}
use redgold.Transaction.{hash_or}
use redgold.Hashing.{calculate_hash, hash_clear}
use redgold.Proofs.{digest, new_hash}
use redgold.Assoc.{get, put}
use redgold.Relay.{transaction_known, lookup_transaction}
use redgold.Relay.Known.{transaction_known-lookup_transaction}
use redgold.Relay.Limits.{admitted, admitted_bound}
use redgold.Mempool.{
  TransactionMessage, MempoolEntry, Mempool, Surroundings, push, take_message, take_messages, drain,
  interval_fold,
}
use redgold.Mempool.Drain.{Drained, interval_fold-Drained, drain-ends}
use redgold.Mempool.Mirror.{IsMirrored, interval_fold-IsMirrored}
use redgold.Examples.Funds.{toy, alice, checked}
use redgold.Examples.Locking.{held}

-- A digest that tells the payments apart.
abbrev marked : Crypto
marked = record toy {
  sha3_256 = λ b. replicate 32 (or_else (head? b) 0);
  length-sha3_256 = λ b. refl;
}

abbrev surroundings : Surroundings
surroundings = record {
  query_maybe_transaction = λ h. ok none;
  relay = held.relay;
  seed_addresses = [];
  is_open = λ n. true;
  is_connected = true;
  capacity = 1;
}

abbrev small : TransactionMessage
small = record {
  transaction = record {
    inputs = [];
    outputs = new_output alice 20 ∷ [];
    struct_metadata = none;
    options = none;
  };
  response_channel = some 4;
}

abbrev large : TransactionMessage
large = record { transaction = checked; response_channel = none }

abbrev empty : Mempool
empty = record { heap = []; mempool_entries = []; responses = []; transaction_process = [] }

abbrev gathered : Mempool
gathered = (take_messages marked surroundings (large ∷ small ∷ small ∷ []) empty).0

interval_fold-Drained_example :
    (q : Mempool) × (out : List MempoolEntry) × (interval_fold marked surroundings
        (large ∷ small ∷ small ∷ [])
        empty
      ≡ (q, ok tt))
    × Drained marked surroundings gathered q out
unfolding take_messages take_message transaction_known push get put Hash-discrete ℕ_discrete
    calculate_hash digest hash_or hash_clear
interval_fold-Drained_example =
    interval_fold-Drained marked surroundings (large ∷ small ∷ small ∷ []) empty gathered refl refl

drain-ends_example :
    ((drain marked surroundings 3 gathered).1 ≢ panic "out of fuel")
    × (drain marked surroundings 3 gathered ≡ drain marked surroundings 9 gathered)
unfolding take_messages take_message transaction_known push get put Hash-discrete ℕ_discrete
    calculate_hash digest hash_or hash_clear
drain-ends_example =
    drain-ends marked surroundings 3 9 gathered "out of fuel" (omega arith) (omega arith)

interval_fold-IsMirrored_example :
    IsMirrored marked surroundings
      (interval_fold marked surroundings (large ∷ small ∷ small ∷ []) empty).0
unfolding get
interval_fold-IsMirrored_example =
    interval_fold-IsMirrored marked surroundings (large ∷ small ∷ small ∷ []) empty (record {
      distinct = tt;
      listed = λ h m. absurd m;
      only = λ h e. absurd (true≢false (sym e));
    })

admitted_bound_example : admitted (1 ∷ []) ((1 ∷ [], 5) ∷ (2 ∷ [], 6) ∷ (1 ∷ [], 7) ∷ []) [] ≤ 32
admitted_bound_example =
    admitted_bound (1 ∷ []) 5 ((1 ∷ [], 5) ∷ (2 ∷ [], 6) ∷ (1 ∷ [], 7) ∷ []) []
      ((omega arith, omega arith), ((omega arith, omega arith), ((omega arith, omega arith), tt)))

transaction_known-lookup_transaction_example :
    transaction_known
      (λ h. ok none)
      ((new_hash (3 ∷ []), checked) ∷ [])
      held.relay
      (new_hash (3 ∷ []))
    ≡ (lookup_transaction
          (λ h. ok none)
          ((new_hash (3 ∷ []), checked) ∷ [])
          held.relay
          (new_hash (3 ∷ []))
        >>= λ o. ok (is_some o))
transaction_known-lookup_transaction_example =
    transaction_known-lookup_transaction (λ h. ok none) ((new_hash (3 ∷ []), checked) ∷ [])
      held.relay (new_hash (3 ∷ []))
