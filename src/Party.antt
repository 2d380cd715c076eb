-- ===== src/Party.antt =====
-- src/multiparty/party_stream.rs: what the party's market learns from the transactions of its address,
-- on the bitcoin chain (`External`) and in redgold (`Internal`). Bitcoin addresses are a parameter; an
-- external transaction id is its identifier.
pub mod Stream
pub mod Balances
pub mod Pending
pub mod Unseen
pub mod Orders
pub mod Open
use redgold.Prelude.{
  ℕ, ℕ_discrete, zero, suc, ◌+◌, ◌-◌, ◌*◌, ◌/◌, ◌%◌, ◌^◌, Bool, true, false, not, ◌&&◌, ◌||◌,
  Option, none, some, List, [], ◌∷◌, ◌++◌, I64, add64, sub64, is_negative, is_positive, length, map,
  filter, any, map?, bind?, or_else, filter_map, head?, is_some, test, ◌==◌, if◌then◌else◌, Result,
  ok, err, panic, ErrorInfo, error_info, ◌>>=◌, to_option,
}
use redgold.Structs.{
  Bytes, Address, Address-discrete, Hash, Input, Output, Proof, PublicKey, PublicKey-discrete,
  StandardData, Transaction,
}
use redgold.Crypto.{Crypto}
use redgold.Output.{is_swap, opt_amount}
use redgold.Proofs.{Bytes-discrete, proofs_to_address, safe_bytes, address_from_bytes, address_hash}
use redgold.Transaction.{sum_from}
use redgold.Observations.{ObservationMetadata, ObservationProof}

-- `SupportedCurrency`.
abbrev pub bitcoin : ℕ
bitcoin = 1

abbrev pub redgold_currency : ℕ
redgold_currency = 3

pub record ExternalTimedTransaction : Type 0 where
  pub tx_id : Bytes
  pub timestamp : Option I64
  pub other_address : Bytes
  pub other_output_addresses : List Bytes
  pub amount : I64
  pub incoming : Bool
  pub currency : ℕ

-- `Address::from_bitcoin`.
unfoldable pub from_bitcoin : Bytes → Address
from_bitcoin a = record { address = some a; address_type = 2; currency = some bitcoin }

unfoldable pub other_address_typed : ExternalTimedTransaction → Result Address
other_address_typed t =
    if t.currency == bitcoin
    then ok (from_bitcoin t.other_address)
    else err (error_info "Unsupported currency")

pub record TransactionWithObservations : Type 0 where
  pub tx : Transaction
  pub observations : List ObservationProof

pub data AddressEvent : Type 0 where
  external : ExternalTimedTransaction → AddressEvent
  internal : TransactionWithObservations → AddressEvent

-- `ValidationLiveness::Live` and `State::Accepted`.
abbrev pub live : ℕ
live = 0

abbrev pub accepted_state : ℕ
accepted_state = 1

abbrev pub accepted_time : ObservationMetadata → Option I64
accepted_time m =
    if m.validation_liveness == live && m.state == accepted_state then m.time else none

-- The time at which a seed observed a transaction as accepted, live.
unfoldable pub seed_time : List PublicKey → ObservationProof → Option I64
seed_time seeds o = bind? (bind? o.proof (λ (p : Proof). p.public_key)) λ pk.
    if any (λ k. test (PublicKey-discrete k pk)) seeds then bind? o.metadata accepted_time else none

-- `a / n` on an `i64` and a length, cut off towards zero; a division by zero panics.
unfoldable pub div64 : I64 → ℕ → Result I64
div64 a n =
    if n == 0
    then panic "attempt to divide by zero"
    else ok (if is_negative a then sub64 0 (sub64 0 a / suc (n - 1)) else a / suc (n - 1))

-- `time`: none for what is not confirmed yet.
unfoldable pub time : List PublicKey → AddressEvent → Result (Option I64)
time seeds (external e) = ok (map? (λ t. t * 1000 % 2 ^ 64) e.timestamp)
time seeds (internal t) = do
  avg ←
      div64 (sum_from 0 (filter_map (seed_time seeds) t.observations))
        (length (filter_map (seed_time seeds) t.observations))
  ok (if avg == 0 then none else some avg)

-- What the libraries say of addresses: the bitcoin address of a key, the text of bytes where they are
-- one, and the text of other addresses.
pub record Addresses : Type 0 where
  pub to_bitcoin_address : PublicKey → Result Bytes
  pub from_utf8 : Bytes → Result Bytes
  pub address_to_str : Bytes → Bytes

module _ (c : Crypto) where
  unfoldable pub from_struct_public : PublicKey → Result Address
  from_struct_public pk = safe_bytes pk.bytes >>= λ b. address_from_bytes c (address_hash c b)

  unfoldable pub input_addresses : Transaction → List Address
  input_addresses tx = filter_map (λ (i : Input). to_option (proofs_to_address c i.proof)) tx.inputs

  abbrev pub is_input_address : Transaction → Address → Bool
  is_input_address tx a = any (λ b. test (Address-discrete b a)) (input_addresses tx)

  abbrev pub non_remainder : Transaction → Output → Option I64
  non_remainder tx o = bind? o.address λ a. if is_input_address tx a then none else opt_amount o

  -- What goes to others than the senders.
  unfoldable pub non_remainder_amount : Transaction → I64
  non_remainder_amount tx = sum_from 0 (filter_map (non_remainder tx) tx.outputs)

unfoldable pub output_external_txids : Transaction → List Bytes
output_external_txids tx =
    filter_map
      (λ (o : Output). bind? o.data_field (λ (d : StandardData). d.external_transaction_id))
      tx.outputs

-- The public keys of the proofs on the inputs, in order.
unfoldable pub keys_of_inputs : List Input → List PublicKey
keys_of_inputs [] = []
keys_of_inputs (i ∷ is) = filter_map (λ (p : Proof). p.public_key) i.proof ++ keys_of_inputs is

module _ (c : Crypto) (a : Addresses) where
  unfoldable pub render_string : Address → Result Bytes
  render_string b = do
    bytes ← safe_bytes b.address
    (if b.address_type == 2 then a.from_utf8 bytes else ok (a.address_to_str bytes))

  unfoldable pub input_bitcoin_address : Transaction → Bytes → Bool
  input_bitcoin_address tx other =
      any
        (λ k. elim (a.to_bitcoin_address k) [
          | ok b ↦ test (Bytes-discrete b other)
          | err e ↦ false
          | panic m ↦ false
        ])
        (keys_of_inputs tx.inputs)

  unfoldable pub first_input_address_to_btc_address : Transaction → Option Bytes
  first_input_address_to_btc_address tx =
      bind? (head? (keys_of_inputs tx.inputs)) (λ k. to_option (a.to_bitcoin_address k))

  -- Whether an output is to the address, or to the text of the bitcoin address.
  abbrev pub is_to_either : Address → Bytes → Output → Bool
  is_to_either address btc o = elim o.address [
    | none ↦ false
    | some b ↦ test (Address-discrete b address) || (elim (render_string b) [
      | ok s ↦ test (Bytes-discrete s btc)
      | err e ↦ false
      | panic m ↦ false
    ])
  ]

  unfoldable pub output_amount_of_multi : PublicKey → Transaction → Result I64
  output_amount_of_multi pk tx = do
    btc ← a.to_bitcoin_address pk
    address ← from_struct_public c pk
    ok (
        sum_from 0
          (filter_map (λ o. if is_to_either address btc o then opt_amount o else none) tx.outputs))

  unfoldable pub output_swap_amount_of_multi : PublicKey → Transaction → Result I64
  output_swap_amount_of_multi pk tx = do
    btc ← a.to_bitcoin_address pk
    address ← from_struct_public c pk
    ok (
        sum_from 0 (
          filter_map
            (λ o.
              if is_swap o
              then (if is_to_either address btc o then opt_amount o else none)
              else none)
            tx.outputs))

  unfoldable pub has_swap_to_multi : PublicKey → Transaction → Bool
  has_swap_to_multi pk tx =
      or_else (map? is_positive (to_option (output_swap_amount_of_multi pk tx))) false
