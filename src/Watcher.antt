-- ===== src/Watcher.antt =====
-- src/multiparty/watcher.rs: the deposit watcher, which pays the orders of the party on both chains. The bitcoin
-- wallet, the stores, the clock and new UUIDs are parameters; logging is left out.
pub mod Interval
pub mod Payments
use redgold.Prelude.{
  ℕ, suc, ◌+◌, Bool, true, false, not, ◌&&◌, Option, none, some, List, [], ◌∷◌, ◌++◌, I64, sub64,
  slt, length, map, filter_map, head?, bind?, map?, is_some, Result, ok, err, panic, ErrorInfo,
  error_info, safe_get_msg, ◌>>=◌, after, attempt, ltb, ◌==◌, if◌then◌else◌,
}
use redgold.Structs.{Bytes, Address, Proof, PublicKey, Input, Transaction, UtxoEntry, Message}
use redgold.Crypto.{Crypto}
use redgold.Hashing.{signable_hash}
use redgold.Builder.{
  TransactionBuilder, with_utxos, with_output, with_last_output_deposit_swap_fulfillment, build,
}
use redgold.Output.{from_amount}
use redgold.Proofs.{safe_bytes}
use redgold.Market.{OrderFulfillment, BidAsk}
use redgold.Requests.{MultipartyIdentifier, InitiateMultipartyKeygenRequest}
use redgold.Multiparty.Rounds
use redgold.Multiparty.Rounds.{Node, SelfInitiateKeysignResult}
use redgold.Multiparty.Signing.{initiate_mp_keysign}
use redgold.Party.{ExternalTimedTransaction, TransactionWithObservations, from_struct_public}
use redgold.Party.Stream.{Party, PartyEvents, Rate}
use redgold.Party.Orders.{orders, historical_initialize}

pub record DepositKeyAllocation : Type 0 where
  pub key : PublicKey
  pub allocation : Message
  pub initiate : InitiateMultipartyKeygenRequest
  pub balance_btc : ℕ
  pub balance_rdg : ℕ

pub record PartyId : Type 0 where
  pub public_key : Option PublicKey
  pub owner : Option PublicKey

unfoldable pub party_id : DepositKeyAllocation → Result PartyId
party_id a = do
  id ← safe_get_msg a.initiate.identifier "Missing identifier"
  ok (record { public_key = some a.key; owner = head? id.party_keys })

pub record CurveUpdateResult (F : Type 0) : Type 0 where
  pub updated_bid_ask : BidAsk F
  pub updated_btc_timestamp : ℕ
  pub updated_allocation : DepositKeyAllocation

pub record Services (S : Type 0) : Type 0 where
  pub parties : Rounds.Services S
  pub new_uuid : S → Bytes
  pub current_time_millis : S → I64
  -- The bitcoin wallet: its confirmed balance, its history, and the transaction that it prepares.
  pub get_wallet_balance : S → Result ℕ
  pub wallet_transactions : S → List ExternalTimedTransaction
  pub wallet_address : S → Result Bytes
  pub create_transaction_output_batch : List (Bytes × ℕ) → S → Result S
  pub signable_hashes : S → Result (List (Bytes × ℕ))
  pub affix_input_signature : ℕ → Proof → ℕ → S → S
  pub sign : S → Result S
  pub broadcast_tx : S → Result S
  pub txid : S → Result Bytes
  -- The bitcoin address of an address that has one.
  pub to_bitcoin_address : Address → Option Bytes
  pub stored_transactions : S → List TransactionWithObservations
  pub get_balance : S → Address → Result (Option I64)
  pub query_utxo_address : S → Address → Result (List UtxoEntry)
  pub new_builder : S → TransactionBuilder
  pub submit_transaction_sync : Transaction → S → S × Result Message

unfoldable pub add_proof_per_input : Proof → Transaction → Transaction
add_proof_per_input proof tx = record tx {
  inputs = map (λ (i : Input). record i { proof = i.proof ++ proof ∷ [] }) tx.inputs;
}

-- What an order that is to be paid in redgold adds: an output, and the deposit that it answers.
abbrev pub pay_deposit :
    Bool → Address → ℕ → Option Message → TransactionBuilder → TransactionBuilder
pay_deposit true destination amount (some id) b =
    with_last_output_deposit_swap_fulfillment id (with_output destination (from_amount amount) b)
pay_deposit true destination amount none b = b
pay_deposit false destination amount id b = b

module _ {F : Type 0} where
  -- The orders that came from bitcoin, in turn.
  unfoldable pub pay_deposits : List (OrderFulfillment F) → TransactionBuilder → TransactionBuilder
  pay_deposits [] b = b
  pay_deposits (o ∷ os) b = pay_deposits os (
      pay_deposit o.is_ask_fulfillment_from_external_deposit o.destination o.fulfilled_amount
        o.tx_id_ref b)

  -- The address and the amount of an order that is to be paid in bitcoin.
  unfoldable pub btc_payment : (Address → Option Bytes) → OrderFulfillment F → Option (Bytes × ℕ)
  btc_payment to_bitcoin o =
      if o.is_ask_fulfillment_from_external_deposit
      then none
      else map? (λ btc. (btc, o.fulfilled_amount)) (to_bitcoin o.destination)

  unfoldable pub before : I64 → List (OrderFulfillment F) → List (OrderFulfillment F)
  before cutoff_time [] = []
  before cutoff_time (o ∷ os) =
      let rest = before cutoff_time os in if slt o.event_time cutoff_time then o ∷ rest else rest

-- `.log_error().ok()`: an error is dropped.
abbrev pub drop_error : {S A : Type 0} → S × Result A → S × Result (Unit {0})
drop_error (s, ok a) = (s, ok tt)
drop_error (s, err e) = (s, ok tt)
drop_error (s, panic m) = (s, panic m)

-- A step that gives the changed store.
abbrev pub store_step :
    {S : Type 0} → Node S → Result S → (Node S → Node S × Result Bytes) → Node S × Result Bytes
store_step n r rest = attempt n r λ s. rest (record n { store = s })

module _ (c : Crypto) (y : Party) {S : Type 0} (env : Services S) where
  abbrev keysign : MultipartyIdentifier → Bytes → Node S → Node S × Result SelfInitiateKeysignResult
  keysign identifier bytes n =
      initiate_mp_keysign env.parties (env.new_uuid n.store) identifier bytes identifier.party_keys
        none n

  unfoldable pub send_ask_fulfillment_transaction :
      Transaction → MultipartyIdentifier → Node S → Node S × Result Message
  send_ask_fulfillment_transaction tx identifier n =
      attempt n (safe_get_msg (signable_hash c tx).bytes "unspecified optional value") λ bytes.
        after (keysign identifier bytes n) λ m result.
          let (s, answer) =
            env.submit_transaction_sync (add_proof_per_input result.proof tx) m.store in
          (record m { store = s }, answer)

  -- The signatures on the inputs of the bitcoin transaction, from index `i` on.
  unfoldable pub sign_hashes :
      MultipartyIdentifier → ℕ → List (Bytes × ℕ) → Node S → Node S × Result (Unit {0})
  sign_hashes identifier i [] n = (n, ok tt)
  sign_hashes identifier i ((hash, hash_type) ∷ hs) n =
      after (keysign identifier hash n) λ m result.
        sign_hashes identifier (suc i) hs
          (record m { store = env.affix_input_signature i result.proof hash_type m.store })

  unfoldable pub fulfill_btc_bids :
      MultipartyIdentifier → List (Bytes × ℕ) → Node S → Node S × Result Bytes
  fulfill_btc_bids identifier outputs n =
      store_step n (env.create_transaction_output_batch outputs n.store) λ m.
        attempt m (env.signable_hashes m.store) λ hashes.
          after (sign_hashes identifier 0 hashes m) λ p done.
            store_step p (env.sign p.store)
              λ q. store_step q (env.broadcast_tx q.store) λ r. (r, env.txid r.store)

  -- The two payments; nothing is sent where there is nothing to pay.
  abbrev pub send_rdg :
      MultipartyIdentifier → TransactionBuilder → Node S → Node S × Result (Unit {0})
  send_rdg identifier b n =
      if ltb 0 (length b.transaction.outputs)
      then (attempt n (build b)
          λ built. drop_error (send_ask_fulfillment_transaction built.1 identifier n))
      else (n, ok tt)

  abbrev pub send_btc :
      MultipartyIdentifier → List (Bytes × ℕ) → Node S → Node S × Result (Unit {0})
  send_btc identifier outputs n =
      if ltb 0 (length outputs)
      then drop_error (fulfill_btc_bids identifier outputs n)
      else (n, ok tt)

  pub record Situation : Type 0 where
    pub btc_starting_balance : ℕ
    pub rdg_starting_balance : I64
    pub events : PartyEvents c y
    pub identifier : MultipartyIdentifier
    pub builder : TransactionBuilder

  -- What is read before anything is paid.
  unfoldable pub look_up : DepositKeyAllocation → S → Result Situation
  look_up alloc s = do
    key_address ← from_struct_public c alloc.key
    btc_starting_balance ← env.get_wallet_balance s
    ps ← historical_initialize c y (env.stored_transactions s) (env.wallet_transactions s)
    identifier ← safe_get_msg alloc.initiate.identifier "unspecified optional value"
    btc_address ← env.wallet_address s
    balance ← env.get_balance s key_address
    rdg_starting_balance ← safe_get_msg balance "Missing balance"
    utxos ← env.query_utxo_address s key_address
    tb ← with_utxos utxos (env.new_builder s)
    ok (record {
      btc_starting_balance = btc_starting_balance;
      rdg_starting_balance = rdg_starting_balance;
      events = ps;
      identifier = identifier;
      builder = tb;
    })

  -- The orders that are at least 30 seconds old.
  abbrev pub due_orders : Situation → S → List (OrderFulfillment (Rate c y))
  due_orders x s = before (sub64 (env.current_time_millis s) 30000) (orders c y x.events)

  unfoldable pub process_requests_new :
      DepositKeyAllocation → ℕ → Node S → Node S × Result (CurveUpdateResult (Rate c y))
  process_requests_new alloc last_timestamp n = attempt n (look_up alloc n.store) λ x.
      after (send_rdg x.identifier (pay_deposits (due_orders x n.store) x.builder) n) λ m sent.
        after
          (send_btc x.identifier
            (filter_map (btc_payment env.to_bitcoin_address) (due_orders x n.store)) m)
          λ p paid. (
            p,
            ok (record {
              updated_bid_ask = x.events.bid_ask;
              updated_btc_timestamp = last_timestamp;
              updated_allocation = record alloc {
                balance_btc = x.btc_starting_balance;
                balance_rdg = x.rdg_starting_balance;
              };
            }),
          )
