-- ===== src/Examples/Polls.antt =====
-- An output that three peers are asked about, and the orders of a party that are paid.
use redgold.Prelude.{
  ℕ, ◌+◌, ◌-◌, inr, ◌≡◌, refl, true, false, Option, none, some, [], ◌∷◌, ltb, Result, ok,
  ℕ_discrete, test, if◌then◌else◌,
}
use redgold.Structs.{PublicKey, PublicKey-discrete}
use redgold.Proofs.{digest}
use redgold.Requests.{Response, empty_success}
use redgold.Relay.Votes.{Scores, utxo_id_valid_peers, utxo_id_valid_peers-HasNoVote}
use redgold.Market.{OrderFulfillment}
use redgold.Builder.{TransactionBuilder, with_output, with_last_output_deposit_swap_fulfillment}
use redgold.Watcher.{pay_deposits}
use redgold.Watcher.Payments.{payments, pay_deposits-outputs}
use redgold.Examples.Funds.{toy, alice}
use redgold.Examples.Parties.{anna, berta, by_berta}

abbrev scores : Scores
scores = record {
  T = ℕ;
  start = 10;
  add = λ a b. a + b;
  subtract = λ a b. a - b;
  is_positive = λ a. ltb 10 a;
  less = ltb;
  iteration = λ m. m;
}

-- Berta says that the output is valid.
abbrev valid : Response
valid = record empty_success {
  proof = some (by_berta (digest toy []));
  utxo_valid_response =
      some (record { valid = some true; child_transaction = none; child_transaction_input = none });
}

-- Only Anna is known.
abbrev trust : PublicKey → Result (Option ℕ)
trust pk = ok (if test (PublicKey-discrete anna pk) then some 5 else none)

utxo_id_valid_peers-HasNoVote_example :
    utxo_id_valid_peers scores trust (ok valid ∷ ok empty_success ∷ [])
    ≡ utxo_id_valid_peers scores trust (ok empty_success ∷ [])
unfolding PublicKey-discrete ℕ_discrete
utxo_id_valid_peers-HasNoVote_example =
    utxo_id_valid_peers-HasNoVote scores trust [] (ok empty_success ∷ []) (ok valid)
      (inr (inr (berta, refl, refl)))

abbrev blank : TransactionBuilder
blank = record {
  transaction = record { inputs = []; outputs = []; struct_metadata = none; options = none };
  utxos = [];
  used_utxos = [];
  network = none;
}

abbrev order : OrderFulfillment ℕ
order = record {
  order_amount = 10;
  fulfilled_amount = 3000;
  updated_curve = [];
  is_ask_fulfillment_from_external_deposit = true;
  event_time = 5;
  tx_id_ref = some (7 ∷ []);
  destination = alice;
}

abbrev bid : OrderFulfillment ℕ
bid = record order { is_ask_fulfillment_from_external_deposit = false }

pay_deposits-outputs_example :
    (pay_deposits (order ∷ bid ∷ []) blank).transaction.outputs ≡ payments (order ∷ bid ∷ [])
unfolding pay_deposits with_output with_last_output_deposit_swap_fulfillment
pay_deposits-outputs_example = pay_deposits-outputs (order ∷ bid ∷ []) blank
