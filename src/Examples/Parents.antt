-- ===== src/Examples/Parents.antt =====
-- The payment's parent is in the store, and a contract request is contended.
use redgold.Prelude.{true, none, some, [], ◌∷◌}
use redgold.Structs.{ContentionKey, Transaction}
use redgold.Output.{new_output, contract_request}
use redgold.Hashing.{signable_hash}
use redgold.Resolver.{Sources, ResolvedInput, resolved_input, no_responses}
use redgold.Examples.Funds.{toy, alice, checked, signed_input}

abbrev parent : Transaction
parent = record {
  inputs = [];
  outputs = new_output alice 70 ∷ [];
  struct_metadata = none;
  options = none;
}

abbrev store : Sources
store = record {
  query_maybe_transaction = λ h. some (parent, none);
  query_utxo_id_valid = λ h i. true;
  select_observation_edge = λ h. [];
  broadcast = λ h i. [];
}

abbrev found_input : ResolvedInput
found_input =
    resolved_input toy signed_input (signable_hash toy checked) true true (no_responses toy) parent

abbrev key : ContentionKey
key = contract_request alice none
