-- ===== src/Output.antt =====
-- schema/src/output.rs: what an output says of itself; amounts of schema/src/transaction.rs.
use redgold.Prelude.{
  Bool, false, Option, none, some, [], I64, ◌==◌, bind?, map?, is_some, or_else, Result, ok, err,
  error_info, safe_get_msg, ◌>>=◌, if◌then◌else◌, ℕ,
}
use redgold.Structs.{
  Output, CurrencyAmount, StandardData, Address, Bytes, OutputContract, ContentionKey,
  StateSelector,
}

-- `Some(c) == self.field`, the comparison of an optional enum number.
abbrev pub holds_code : Option ℕ → ℕ → Bool
holds_code none c = false
holds_code (some d) c = d == c

-- `OutputType` and `StandardContractType` as `i32`.
abbrev pub fee_type : ℕ
fee_type = 0

abbrev pub deploy_type : ℕ
deploy_type = 1

abbrev pub request_call_type : ℕ
request_call_type = 2

abbrev pub swap_contract : ℕ
swap_contract = 2

abbrev pub stake_contract : ℕ
stake_contract = 3

abbrev pub empty_data : StandardData
empty_data = record {
  amount = none;
  peer_data = none;
  node_metadata = none;
  height = none;
  observation = none;
  address = none;
  request = none;
  standard_request = none;
  liquidity_request = none;
  external_transaction_id = none;
}

abbrev pub empty_output : Output
empty_output = record {
  address = none;
  product_id = none;
  counter_party_proofs = [];
  data_field = none;
  contract = none;
  output_type = none;
  utxo_id = none;
}

abbrev pub empty_contract : OutputContract
empty_contract = record {
  standard_contract_type = none;
  code_execution_contract = none;
  pay_update_descendents = false;
}

abbrev pub from_amount : I64 → CurrencyAmount
from_amount a = record { amount = a; currency = none }

abbrev pub amount_data : I64 → Option StandardData
amount_data a = some (record empty_data { amount = some (from_amount a) })

abbrev pub new_output : Address → I64 → Output
new_output address amount = record empty_output {
  address = some address;
  data_field = amount_data amount;
}

unfoldable pub opt_amount : Output → Option I64
opt_amount o = bind? o.data_field (λ d. map? (λ (a : CurrencyAmount). a.amount) d.amount)

unfoldable pub safe_ensure_amount : Output → Result I64
safe_ensure_amount o = do
  d ← safe_get_msg o.data_field "Missing data field on output"
  a ← safe_get_msg d.amount "Missing amount field on output"
  ok a.amount

unfoldable pub is_request : Output → Bool
is_request o = holds_code o.output_type request_call_type

unfoldable pub is_deploy : Output → Bool
is_deploy o = holds_code o.output_type deploy_type

unfoldable pub is_swap : Output → Bool
is_swap o =
    or_else
      (map? (λ (c : OutputContract). holds_code c.standard_contract_type swap_contract) o.contract)
      false

unfoldable pub is_peer_data : Output → Bool
is_peer_data o = is_some (bind? o.data_field (λ d. d.peer_data))

unfoldable pub is_liquidity : Output → Bool
is_liquidity o = is_some (bind? o.data_field (λ d. d.liquidity_request))

unfoldable pub pay_update_descendents : Output → Bool
pay_update_descendents o =
    or_else (map? (λ (c : OutputContract). c.pay_update_descendents) o.contract) false

unfoldable pub code : Output → Option Bytes
code o = bind? o.contract (λ c. bind? c.code_execution_contract (λ e. e.code))

unfoldable pub request_data : Output → Result Bytes
unfolding is_request
request_data o =
    if is_request o
    then elim (bind? o.data_field (λ d. d.request)) [
      | some r ↦ ok r
      | none ↦ err (error_info "Not a request")
    ]
    else err (error_info "Not a request")

unfoldable pub request_selector : Output → Result (Option StateSelector)
unfolding is_request
request_selector o =
    if is_request o
    then ok (bind? o.data_field (λ d. bind? d.standard_request (λ r. r.selector)))
    else err (error_info "Not a request")

abbrev pub contract_request : Address → Option StateSelector → ContentionKey
contract_request a s = record {
  utxo_id = none;
  address = some a;
  selector = s;
  transaction_hash = none;
}

unfoldable pub request_contention_key : Output → Result ContentionKey
unfolding request_selector
request_contention_key o = do
  a ← safe_get_msg o.address "Missing address"
  s ← request_selector o
  ok (contract_request a s)
