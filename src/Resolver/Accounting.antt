-- ===== src/Resolver/Accounting.antt =====
-- What the balance check of a resolved transaction lets through (src/core/resolver.rs).
use redgold.Prelude.{
  ◌≡◌, refl, ap, ◌∙◌, List, [], ◌∷◌, ◌++◌, I64, IsWord, add64, sub64, add64_cancel, arith,
}
use redgold.Structs.{Address, Output, Transaction}
use redgold.Output.{new_output, opt_amount}
use redgold.Transaction.{total_outputs_from, total_output_amount}
use redgold.Transaction.Totals.{total_outputs_from-IsWord, total_outputs_from-snoc}
use redgold.Resolver.{ResolvedTransaction, total_parent_amount_available, validate}

abbrev pub push_outputs : List Output → Transaction → Transaction
push_outputs os tx = record tx { outputs = tx.outputs ++ os }

snoc_twice : (os : List Output) (p q : Output) → os ++ p ∷ q ∷ [] ≡ (os ++ p ∷ []) ++ q ∷ []
snoc_twice [] p q = refl
snoc_twice (o ∷ os) p q = ap (◌∷◌ o) (snoc_twice os p q)

opposite_outputs :
    (tx : Transaction) (a b : Address) (x : I64)
    → IsWord x
    → total_output_amount (push_outputs (new_output a x ∷ new_output b (sub64 0 x) ∷ []) tx)
      ≡ total_output_amount tx
unfolding total_output_amount opt_amount
opposite_outputs tx a b x h =
    let p = new_output a x in
    let q = new_output b (sub64 0 x) in
    ap (total_outputs_from 0) (snoc_twice tx.outputs p q)
    ∙ total_outputs_from-snoc 0 (tx.outputs ++ p ∷ []) q (sub64 0 x) refl
    ∙ ap (λ (t : I64). add64 t (sub64 0 x)) (total_outputs_from-snoc 0 tx.outputs p x refl)
    ∙ add64_cancel (total_outputs_from 0 tx.outputs) x
        (total_outputs_from-IsWord 0 tx.outputs (omega arith)) h

-- Two more outputs, of any amount and of its negation, leave the result of the balance check as it
-- was: the check does not look at the signs of the amounts.
pub validate-push_outputs :
    (t : ResolvedTransaction) (a b : Address) (x : I64)
    → IsWord x
    → validate (record t {
      transaction = push_outputs (new_output a x ∷ new_output b (sub64 0 x) ∷ []) t.transaction;
    })
      ≡ validate t
unfolding validate total_parent_amount_available
validate-push_outputs t a b x h = rw (opposite_outputs t.transaction a b x h)
