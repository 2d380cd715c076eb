-- ===== src/Watcher/Payments.antt =====
-- What the watcher pays (src/multiparty/watcher.rs): each due order, once, on the chain where it is to be paid.
use redgold.Prelude.{
  ℕ, ◌≡◌, refl, sym, ap, ◌∙◌, Bool, true, false, Option, none, some, List, [], ◌∷◌, ◌++◌,
  append_assoc, append_nil, update_last,
}
use redgold.Structs.{Address, Output, Message}
use redgold.Output.{new_output, from_amount, empty_data}
use redgold.Builder.{TransactionBuilder, with_output, with_last_output_deposit_swap_fulfillment}
use redgold.Market.{OrderFulfillment}
use redgold.Watcher.{pay_deposit, pay_deposits}

-- The output that answers a deposit: over the amount that the order fulfils, with the id of the deposit.
abbrev pub fulfillment_output : Address → ℕ → Message → Output
fulfillment_output destination amount id = record (new_output destination amount) {
  data_field =
      some (record empty_data {
        amount = some (from_amount amount);
        external_transaction_id = some id;
      });
}

update_last-append :
    {A : Type 0} (f : A → A) (xs : List A) (x : A) → update_last f (xs ++ x ∷ []) ≡ xs ++ f x ∷ []
update_last-append f [] x = refl
update_last-append f (z ∷ []) x = refl
update_last-append f (z ∷ v ∷ xs) x = ap (λ r. z ∷ r) (update_last-append f (v ∷ xs) x)

-- The output that an order gets in redgold, if it came from bitcoin and knows its deposit.
abbrev pub payment : Bool → Address → ℕ → Option Message → List Output
payment true destination amount (some id) = fulfillment_output destination amount id ∷ []
payment true destination amount none = []
payment false destination amount id = []

pay_deposit-outputs :
    (ask : Bool) (destination : Address) (amount : ℕ) (id : Option Message) (b : TransactionBuilder)
    → (pay_deposit ask destination amount id b).transaction.outputs
      ≡ b.transaction.outputs ++ payment ask destination amount id
unfolding with_output with_last_output_deposit_swap_fulfillment
pay_deposit-outputs true destination amount (some id) b =
    update_last-append _ b.transaction.outputs (new_output destination amount)
pay_deposit-outputs true destination amount none b = sym (append_nil b.transaction.outputs)
pay_deposit-outputs false destination amount id b = sym (append_nil b.transaction.outputs)

module _ {F : Type 0} where
  -- The payments for all orders, in their order.
  abbrev pub payments : List (OrderFulfillment F) → List Output
  payments [] = []
  payments (o ∷ os) =
      payment o.is_ask_fulfillment_from_external_deposit o.destination o.fulfilled_amount
        o.tx_id_ref
      ++ payments os

  -- The transaction for the deposits gets one output for each order that came from bitcoin and knows its
  -- deposit, in their order: to the order's destination, over the amount that it fulfils, with the deposit's
  -- id; and nothing else.
  pub pay_deposits-outputs :
      (os : List (OrderFulfillment F)) (b : TransactionBuilder)
      → (pay_deposits os b).transaction.outputs ≡ b.transaction.outputs ++ payments os
  unfolding pay_deposits
  pay_deposits-outputs [] b = sym (append_nil b.transaction.outputs)
  pay_deposits-outputs (o ∷ os) b =
      pay_deposits-outputs os (
        pay_deposit o.is_ask_fulfillment_from_external_deposit o.destination o.fulfilled_amount
          o.tx_id_ref b)
      ∙ ap (λ xs. xs ++ payments os)
          (pay_deposit-outputs o.is_ask_fulfillment_from_external_deposit o.destination
            o.fulfilled_amount o.tx_id_ref b)
      ∙ append_assoc b.transaction.outputs
          (payment o.is_ask_fulfillment_from_external_deposit o.destination o.fulfilled_amount
            o.tx_id_ref)
          (payments os)
