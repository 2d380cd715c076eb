-- ===== src/Builder.antt =====
-- src/core/transact/tx_builder_supports.rs: `TransactionBuilder`, which collects outputs and
-- candidate entries and then picks inputs and a remainder. Its data store and client handles are not
-- read by these methods and are left out. A method returns the changed builder.
pub mod Balance
use redgold.Prelude.{
  ℕ, ◌+◌, Bool, true, false, Option, none, some, List, [], ◌∷◌, ◌++◌, I64, add64, sub64,
  is_positive, is_negative, test, find, filter_map, bind?, map?, is_some, or_else, head?, last?,
  update_last, length, Result, ok, err, panic, error_info, safe_get_msg, expect, ◌>>=◌, ◌>>◌, ◌==◌,
  leb, if◌then◌else◌,
}
use redgold.Structs.{
  Hash, Address, UtxoId, Output, Input, Transaction, TransactionOptions, TransactionData, UtxoEntry,
  Message, StructMetadata, CurrencyAmount, OutputContract, Bytes, StandardData,
}
use redgold.Output.{
  opt_amount, safe_ensure_amount, new_output, empty_output, empty_contract, empty_data, is_swap,
  fee_type, deploy_type, request_call_type, swap_contract, stake_contract, amount_data,
}
use redgold.Transaction.{total_input_amount, total_output_amount, to_input, empty_input}

pub record TransactionBuilder : Type 0 where
  pub transaction : Transaction
  pub utxos : List UtxoEntry
  pub used_utxos : List UtxoEntry
  pub network : Option ℕ

abbrev pub default_options : TransactionOptions
default_options = record {
  salt = none;
  network_type = none;
  txn_data = none;
  contract = none;
  is_test = none;
}

abbrev pub default_txn_data : TransactionData
default_txn_data = record { message_len = none; standard_data = none }

-- `self.transaction.options.clone().unwrap_or(default)`, changed by `f` and stored back.
abbrev pub with_options :
    (TransactionOptions → TransactionOptions) → TransactionBuilder → TransactionBuilder
with_options f b = record b {
  transaction = record (b.transaction) {
    options = some (f (or_else b.transaction.options default_options));
  };
}

unfoldable pub with_network : ℕ → TransactionBuilder → TransactionBuilder
with_network n b =
    with_options (λ o. record o { network_type = some n }) (record b { network = some n })

-- `new_blank` draws the salt at random and stamps the time: both are arguments.
unfoldable pub new : ℕ → I64 → StructMetadata → TransactionBuilder
unfolding with_network
new network salt metadata = with_network network (record {
  transaction = record {
    inputs = [];
    outputs = [];
    struct_metadata = some metadata;
    options = some (record default_options { salt = some salt });
  };
  utxos = [];
  used_utxos = [];
  network = some network;
})

unfoldable pub with_options_height : I64 → TransactionBuilder → TransactionBuilder
with_options_height height = with_options λ o.
    let txn = or_else o.txn_data default_txn_data in
    let sd = or_else txn.standard_data empty_data in
    record o {
      txn_data = some (record txn { standard_data = some (record sd { height = some height }) });
    }

unfoldable pub with_is_test : TransactionBuilder → TransactionBuilder
with_is_test = with_options (λ o. record o { is_test = some true })

abbrev pub push_output : Output → TransactionBuilder → TransactionBuilder
push_output o b = record b {
  transaction = record (b.transaction) { outputs = b.transaction.outputs ++ o ∷ [] };
}

abbrev pub push_input : Input → TransactionBuilder → TransactionBuilder
push_input i b = record b {
  transaction = record (b.transaction) { inputs = b.transaction.inputs ++ i ∷ [] };
}

unfoldable pub with_output : Address → CurrencyAmount → TransactionBuilder → TransactionBuilder
with_output destination amount = push_output (new_output destination amount.amount)

-- `self.transaction.outputs.last_mut()`.
abbrev pub change_last_output : (Output → Output) → TransactionBuilder → TransactionBuilder
change_last_output f b = record b {
  transaction = record (b.transaction) { outputs = update_last f b.transaction.outputs };
}

-- The `ok_or` cannot fail: an output has just been pushed.
unfoldable pub with_fee : Address → CurrencyAmount → TransactionBuilder → TransactionBuilder
unfolding with_output
with_fee destination amount b =
    change_last_output (λ o. record o { output_type = some fee_type })
      (with_output destination amount b)

unfoldable pub with_last_output_contract_type : ℕ → TransactionBuilder → TransactionBuilder
with_last_output_contract_type t =
    change_last_output
      λ o. record o { contract = some (record empty_contract { standard_contract_type = some t }) }

unfoldable pub with_last_output_stake : TransactionBuilder → TransactionBuilder
unfolding with_last_output_contract_type
with_last_output_stake = with_last_output_contract_type stake_contract

unfoldable pub with_last_output_withdrawal_swap : TransactionBuilder → TransactionBuilder
with_last_output_withdrawal_swap = change_last_output λ o. record o {
  contract = some (record empty_contract { standard_contract_type = some swap_contract });
}

unfoldable pub with_last_output_deposit_swap_fulfillment :
    Message → TransactionBuilder → TransactionBuilder
with_last_output_deposit_swap_fulfillment txid = change_last_output λ o. record o {
  data_field =
      map? (λ (d : StandardData). record d { external_transaction_id = some txid }) o.data_field;
}

unfoldable pub with_contract_request_output :
    Address → Bytes → TransactionBuilder → TransactionBuilder
with_contract_request_output destination request = push_output (record empty_output {
  address = some destination;
  contract = some (record empty_contract { pay_update_descendents = true });
  data_field = some (record empty_data { request = some request });
  output_type = some request_call_type;
})

unfoldable pub with_utxo : UtxoEntry → TransactionBuilder → Result TransactionBuilder
with_utxo u b = do
  o ← safe_get_msg u.output "Missing output"
  a ← safe_get_msg o.address "Missing address"
  n ← safe_ensure_amount o
  ok (record b { utxos = b.utxos ++ u ∷ [] })

unfoldable pub with_maybe_currency_utxo : UtxoEntry → TransactionBuilder → Result TransactionBuilder
with_maybe_currency_utxo u b = do
  o ← safe_get_msg u.output "Missing output"
  elim (safe_ensure_amount o) [ ok a ↦ with_utxo u b | _ ↦ ok b ]

unfoldable pub with_utxos : List UtxoEntry → TransactionBuilder → Result TransactionBuilder
with_utxos [] b = ok b
with_utxos (u ∷ us) b = do c ← with_maybe_currency_utxo u b; with_utxos us c

unfoldable pub balance : TransactionBuilder → I64
balance b = sub64 (total_input_amount b.transaction) (total_output_amount b.transaction)

-- `u.amount()`, an unsigned number: it unwraps the output, its data and the amount.
unfoldable pub entry_amount : UtxoEntry → Result ℕ
entry_amount u = do o ← expect u.output "unwrap"; expect (opt_amount o) "unwrap"

-- `sort_by` is stable: an item goes in front of the first one that is not smaller.
unfoldable pub insert_by_amount : UtxoEntry → List UtxoEntry → Result (List UtxoEntry)
insert_by_amount u [] = ok (u ∷ [])
insert_by_amount u (v ∷ vs) = do
  a ← entry_amount u
  b ← entry_amount v
  elim (leb a b) [
    | true ↦ ok (u ∷ v ∷ vs)
    | false ↦ insert_by_amount u vs >>= λ rest. ok (v ∷ rest)
  ]

unfoldable pub sort_by_amount : List UtxoEntry → Result (List UtxoEntry)
sort_by_amount [] = ok []
sort_by_amount (u ∷ us) = do rest ← sort_by_amount us; insert_by_amount u rest

unfoldable pub with_unsigned_input : UtxoEntry → TransactionBuilder → Result TransactionBuilder
with_unsigned_input u b = do
  o ← safe_get_msg u.output "unspecified optional value"
  d ← safe_get_msg o.data_field "unspecified optional value"
  ok (push_input (to_input u) (record b { used_utxos = b.used_utxos ++ u ∷ [] }))

-- `for u in self.utxos.clone() { .. if self.balance() > 0 { break } }`
unfoldable pub add_inputs : List UtxoEntry → TransactionBuilder → Result TransactionBuilder
add_inputs [] b = ok b
add_inputs (u ∷ us) b = do
  c ← with_unsigned_input u b
  elim (is_positive (balance c)) [ true ↦ ok c | false ↦ add_inputs us c ]

unfoldable pub with_remainder : TransactionBuilder → Result TransactionBuilder
with_remainder b = do
  i ← expect (head? b.transaction.inputs) "missing head"
  o ← expect i.output "o"
  a ← expect o.address "address"
  ok (push_output (new_output a (balance b)) b)

-- The two checks after the loop.
unfoldable pub finish : TransactionBuilder → Result TransactionBuilder
finish b =
    if is_negative (balance b)
    then err (error_info "Insufficient funds")
    else if is_positive (balance b)
    then with_remainder b
    else ok b

unfoldable pub build : TransactionBuilder → Result (TransactionBuilder × Transaction)
build b = do
  sorted ← sort_by_amount b.utxos
  c ← add_inputs sorted (record b { utxos = sorted })
  d ← finish c
  ok (d, d.transaction)
