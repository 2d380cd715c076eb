-- ===== src/Process/Duplicate.antt =====
-- A transaction that is submitted again while it is processed (src/core/process_transaction.rs).
use redgold.Prelude.{
  ◌≡◌, refl, false, Option, none, some, ok, err, error_message, transaction_already_processing,
}
use redgold.Structs.{Hash, Hash-discrete}
use redgold.Crypto.{Crypto}
use redgold.Assoc.{get, get-remove_self}
use redgold.Process.{RequestProcessor, Relay, create_receiver_or_err, cleanup}
use redgold.Process.Handler.{
  Services, finished, Request, Node, is_peer_message, hash_of_transaction, immediate_validation,
  give_up, enter, receive,
}

-- The request that is registered for a hash.
abbrev pub processor_of : Relay → Hash → Option RequestProcessor
processor_of s h = get Hash-discrete h s.transaction_channels

processor_of-cleanup :
    (h : Hash) (p : Option RequestProcessor) (s : Relay)
    → processor_of (cleanup h p none s) h ≡ none
unfolding cleanup
processor_of-cleanup h none s = get-remove_self Hash-discrete h s.transaction_channels
processor_of-cleanup h (some p) s = get-remove_self Hash-discrete h s.transaction_channels

module _ (c : Crypto) {S : Type 0} (env : Services S) where
  enter_duplicate :
      (n : Node S) (r : Request) (p : RequestProcessor)
      → immediate_validation c env n.store r.transaction ≡ ok tt
      → processor_of n.relay (hash_of_transaction c env r.transaction) ≡ some p
      → enter c env n r
        ≡ give_up c env n r (
            error_message transaction_already_processing
              "Duplicate TX hash found in processing queue")
  unfolding enter create_receiver_or_err
  enter_duplicate n r p v e = rw (v, e, create_receiver_or_err)

  -- A valid transaction that is already processed is refused; but the cleanup after the refusal takes
  -- the entry of the first request away, so the hash looks unused while that request still runs.
  pub receive_duplicate :
      (n : Node S) (r : Request) (p : RequestProcessor)
      → is_peer_message r.transaction ≡ false
      → immediate_validation c env n.store r.transaction ≡ ok tt
      → r.utxo_ids ≡ none
      → processor_of n.relay (hash_of_transaction c env r.transaction) ≡ some p
      → ((receive c env n r).1.stage
          ≡ finished (
              some (
                err (
                  error_message transaction_already_processing
                    "Duplicate TX hash found in processing queue"))))
        × (processor_of (receive c env n r).0.relay (hash_of_transaction c env r.transaction)
            ≡ none)
  unfolding receive give_up
  receive_duplicate n r p f v u e =
      rw (f, enter_duplicate n r p v e)
        (
          refl,
          rw u (
              processor_of-cleanup (hash_of_transaction c env r.transaction) r.request_processor
                n.relay),
        )
