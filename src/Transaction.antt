-- ===== src/Transaction.antt =====
-- schema/src/transaction.rs: the sums and searches over a transaction's inputs and outputs, and
-- schema/src/utxo_entry.rs: the entries that its outputs become.
pub mod Totals
use redgold.Prelude.{
  ℕ, suc, ◌+◌, Bool, true, false, Option, none, some, List, [], ◌∷◌, I64, add64, sub64, is_positive,
  test, find, filter_map, bind?, map?, is_some, or_else, head?, length, Result, ok, err, error_info,
  safe_get_msg, ◌>>=◌, ◌>>◌, ◌==◌, if◌then◌else◌, get_elem?, ltb, String,
}
use redgold.Structs.{
  Hash, Address, Address-discrete, UtxoId, UtxoId-discrete, Output, Input, Transaction,
  TransactionOptions, UtxoEntry, Message, FloatingUtxoId, StructMetadata,
}
use redgold.Output.{opt_amount, is_swap, is_peer_data}

-- `if let Some(a) = o.opt_amount() { total += a }`
unfoldable pub add_amount : I64 → Output → I64
add_amount total o = elim (opt_amount o) [ some a ↦ add64 total a | none ↦ total ]

-- `for o in &self.outputs`, with the running total.
unfoldable pub total_outputs_from : I64 → List Output → I64
total_outputs_from total [] = total
total_outputs_from total (o ∷ os) = total_outputs_from (add_amount total o) os

unfoldable pub total_output_amount : Transaction → I64
total_output_amount tx = total_outputs_from 0 tx.outputs

-- `iter().sum()`, from the left.
unfoldable pub sum_from : I64 → List I64 → I64
sum_from acc [] = acc
sum_from acc (a ∷ xs) = sum_from (add64 acc a) xs

abbrev pub input_amount : Input → Option I64
input_amount i = bind? i.output opt_amount

unfoldable pub total_input_amount : Transaction → I64
total_input_amount tx = sum_from 0 (filter_map input_amount tx.inputs)

-- `o.address.as_ref().filter(|&a| a == address)`
abbrev pub is_to : Address → Output → Bool
is_to a o = or_else (map? (λ b. test (Address-discrete b a)) o.address) false

abbrev pub amount_to : Address → Output → Option I64
amount_to a o = if is_to a o then opt_amount o else none

unfoldable pub output_amount_of : Transaction → Address → I64
output_amount_of tx a = sum_from 0 (filter_map (amount_to a) tx.outputs)

unfoldable pub output_of : Transaction → Address → List Output
output_of tx a = filter_map (λ o. if is_to a o then some o else none) tx.outputs

abbrev pub swap_amount_to : Address → Output → Option I64
swap_amount_to a o = if is_swap o then amount_to a o else none

unfoldable pub output_swap_amount_of : Transaction → Address → I64
output_swap_amount_of tx a = sum_from 0 (filter_map (swap_amount_to a) tx.outputs)

unfoldable pub has_swap_to : Transaction → Address → Bool
has_swap_to tx a = is_positive (output_swap_amount_of tx a)

-- `for input in &self.inputs { if let Some(f) = &input.utxo_id { utxo_ids.push(f.clone()) } }`
unfoldable pub fixed_utxo_ids_of_inputs : List Input → List UtxoId
fixed_utxo_ids_of_inputs [] = []
fixed_utxo_ids_of_inputs (i ∷ is) = elim i.utxo_id [
  | some f ↦ f ∷ fixed_utxo_ids_of_inputs is
  | none ↦ fixed_utxo_ids_of_inputs is
]

unfoldable pub input_of : Transaction → UtxoId → Option Input
input_of tx u =
    find (λ i. or_else (map? (λ v. test (UtxoId-discrete v u)) i.utxo_id) false) tx.inputs

abbrev pub floating_inputs : Transaction → List FloatingUtxoId
floating_inputs tx = filter_map (λ (i : Input). i.floating_utxo_id) tx.inputs

-- The first output with observation data, from index `i` on.
unfoldable pub observation_index_from : ℕ → List Output → Result ℕ
observation_index_from i [] = err (error_info "Missing observation output")
observation_index_from i (o ∷ os) = elim (bind? o.data_field (λ d. d.observation)) [
  | some b ↦ ok i
  | none ↦ observation_index_from (i + 1) os
]

unfoldable pub observation_output_index : Transaction → Result ℕ
observation_output_index tx = observation_index_from 0 tx.outputs

-- `peer_data` and `node_metadata` want exactly one output that carries the field.
abbrev pub only_one : List Message → String → Result Message
only_one (d ∷ []) m = ok d
only_one [] m = err (error_info m)
only_one (d ∷ e ∷ ds) m = err (error_info m)

unfoldable pub peer_data : Transaction → Result Message
peer_data tx =
    only_one (filter_map (λ (o : Output). bind? o.data_field (λ d. d.peer_data)) tx.outputs)
      "Missing peer data in transaction"

unfoldable pub node_metadata : Transaction → Result Message
node_metadata tx =
    only_one (filter_map (λ (o : Output). bind? o.data_field (λ d. d.node_metadata)) tx.outputs)
      "Missing node metadata in transaction"

-- `NetworkEnvironment::from_i32` knows the numbers 0 to 9 of the enum in structs.proto.
abbrev pub network_from_i32 : ℕ → Option ℕ
network_from_i32 n = if ltb n 10 then some n else none

unfoldable pub validate_network : Transaction → ℕ → Result (Unit {0})
validate_network tx network = do
  opts ← safe_get_msg tx.options "Missing options"
  n ← safe_get_msg opts.network_type "Missing network type"
  net ← safe_get_msg (network_from_i32 n) "Invalid network type"
  if net == network then ok tt else err (error_info "Invalid network type")

abbrev pub new_utxo_id : Hash → I64 → UtxoId
new_utxo_id h i = record { transaction_hash = some h; output_index = i }

abbrev pub from_output_new : Output → Hash → I64 → I64 → UtxoEntry
from_output_new o h i time = record {
  utxo_id = some (new_utxo_id h i);
  output = some o;
  time = time;
}

-- `outputs.iter().enumerate().map(..)`, from index `i` on.
unfoldable pub entries_from : Hash → I64 → ℕ → List Output → List UtxoEntry
entries_from h time i [] = []
entries_from h time i (o ∷ os) = from_output_new o h i time ∷ entries_from h time (i + 1) os

-- The hash is that of `hash_or`: the stored one, or else the one computed from the content.
unfoldable pub hash_or : (Transaction → Hash) → Transaction → Hash
hash_or calculate_hash tx =
    or_else (bind? tx.struct_metadata (λ (s : StructMetadata). s.hash)) (calculate_hash tx)

unfoldable pub from_transaction : (Transaction → Hash) → Transaction → I64 → List UtxoEntry
from_transaction calculate_hash tx time = entries_from (hash_or calculate_hash tx) time 0 tx.outputs

abbrev pub empty_input : Input
empty_input = record {
  utxo_id = none;
  proof = [];
  product_id = none;
  output = none;
  floating_utxo_id = none;
  input_type = none;
}

unfoldable pub to_input : UtxoEntry → Input
to_input u = record empty_input { utxo_id = u.utxo_id; output = u.output }

-- `time()`.
unfoldable pub time_of : Transaction → Result I64
time_of tx = do
  s ← safe_get_msg tx.struct_metadata "unspecified optional value"
  safe_get_msg s.time "unspecified optional value"
