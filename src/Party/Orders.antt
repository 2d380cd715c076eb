-- ===== src/Party/Orders.antt =====
-- src/multiparty/party_stream.rs: the orders that the party still has to fulfil, and the run over the
-- history of its address.
use redgold.Prelude.{
  Bool, true, false, Option, none, some, List, [], ◌∷◌, ◌++◌, I64, slt, length, any, all, map,
  filter_map, bind?, test, is_ok, if◌then◌else◌, ltb, Result, ok, err, panic, ◌>>=◌,
}
use redgold.Structs.{Bytes, PublicKey}
use redgold.Crypto.{Crypto}
use redgold.Proofs.{Bytes-discrete}
use redgold.Party.{
  AddressEvent, external, internal, ExternalTimedTransaction, TransactionWithObservations, time,
  output_external_txids, first_input_address_to_btc_address,
}
use redgold.Party.Stream.{Party, Order, PartyEvents, process_events, new_events}

abbrev pub has_bytes : Bytes → List Bytes → Bool
has_bytes b = any (λ x. test (Bytes-discrete x b))

-- What the unconfirmed redgold transactions fulfil: the bitcoin transactions that their outputs name.
unfoldable pub unconfirmed_rdg_output_btc_txid_refs : List AddressEvent → List Bytes
unconfirmed_rdg_output_btc_txid_refs [] = []
unconfirmed_rdg_output_btc_txid_refs (internal t ∷ es) =
    output_external_txids t.tx ++ unconfirmed_rdg_output_btc_txid_refs es
unconfirmed_rdg_output_btc_txid_refs (external t ∷ es) = unconfirmed_rdg_output_btc_txid_refs es

-- The addresses that the unconfirmed bitcoin transactions of the party pay.
unfoldable pub unconfirmed_btc_output_other_addresses : List AddressEvent → List Bytes
unconfirmed_btc_output_other_addresses [] = []
unconfirmed_btc_output_other_addresses (external t ∷ es) =
    let rest = unconfirmed_btc_output_other_addresses es in
    if t.incoming then rest else t.other_output_addresses ++ rest
unconfirmed_btc_output_other_addresses (internal t ∷ es) = unconfirmed_btc_output_other_addresses es

-- `Option`'s order on times: none is the least.
unfoldable pub earlier : Option I64 → Option I64 → Bool
earlier none none = false
earlier none (some b) = true
earlier (some a) none = false
earlier (some a) (some b) = slt a b

module _ {ℓ} {A : Type ℓ} (key : A → Option I64) where
  -- Stable: before the first that is not earlier.
  unfoldable pub insert_by : A → List A → List A
  insert_by x [] = x ∷ []
  insert_by x (z ∷ zs) = if earlier (key z) (key x) then z ∷ insert_by x zs else x ∷ z ∷ zs

  unfoldable pub sort_by : List A → List A
  sort_by [] = []
  sort_by (x ∷ xs) = insert_by x (sort_by xs)

abbrev pub time_or_none : List PublicKey → AddressEvent → Option I64
time_or_none seeds e = elim (time seeds e) [ ok t ↦ t | err i ↦ none | panic m ↦ none ]

-- `sort_by` on the times, which may panic once two events are compared.
unfoldable pub sort_events : List PublicKey → List AddressEvent → Result (List AddressEvent)
sort_events seeds es =
    if ltb (length es) 2
    then ok es
    else if all (λ e. is_ok (time seeds e)) es
    then ok (sort_by (time_or_none seeds) es)
    else panic "attempt to divide by zero"

module _ (c : Crypto) (y : Party) where
  unfoldable pub open_deposit : List Bytes → Order c y × AddressEvent → Option (Order c y)
  open_deposit refs (o, external t) = if has_bytes t.tx_id refs then none else some o
  open_deposit refs (o, internal t) = none

  unfoldable pub open_withdrawal : List Bytes → Order c y × AddressEvent → Option (Order c y)
  open_withdrawal paid (o, internal t) =
      bind? (first_input_address_to_btc_address c y.addresses t.tx)
        λ a. if has_bytes a paid then none else some o
  open_withdrawal paid (o, external t) = none

  abbrev pub order_time : Order c y → Option I64
  order_time o = some o.event_time

  unfoldable pub orders : PartyEvents c y → List (Order c y)
  orders p = sort_by order_time (
      filter_map (open_deposit (unconfirmed_rdg_output_btc_txid_refs p.unconfirmed_events))
        p.unfulfilled_deposits
      ++ filter_map (open_withdrawal (unconfirmed_btc_output_other_addresses p.unconfirmed_events))
          p.unfulfilled_withdrawals)

  -- The transactions of the store with their observations, and those of the wallet.
  unfoldable pub historical_initialize :
      List TransactionWithObservations → List ExternalTimedTransaction → Result (PartyEvents c y)
  historical_initialize stored wallet = do
    n ← new_events c y
    es ← sort_events y.seeds (map internal stored ++ map external wallet)
    process_events c y es (record n { events = es })
