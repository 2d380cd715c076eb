-- ===== src/Observations/Signed.antt =====
-- What the signed transaction of an observation carries (src/core/observation.rs).
use redgold.Prelude.{
  ◌≡◌, refl, sym, ap, ◌∙◌, some, List, [], ◌∷◌, map, I64, ok, ok-injective, >>=-eq-ok, Option,
}
use redgold.Structs.{Transaction, StructMetadata, Input, Output, UtxoId, UtxoEntry}
use redgold.Crypto.{Crypto}
use redgold.Output.{empty_data, empty_output}
use redgold.Transaction.{observation_output_index, to_input, time_of, hash_or, new_utxo_id}
use redgold.Builder.{new, with_network, with_options_height}
use redgold.Hashing.{calculate_hash}
use redgold.Hashing.Signing.{strip, sign-SameContent}
use redgold.Observations.{
  Observation, Encoding, observation_as_utxo_id, observation_output, observation_output_as,
}
use redgold.Observations.Buffer.{Keeper, height, with_observation, with_input, observation_tx}

abbrev utxo_ids : List Input → List (Option UtxoId)
utxo_ids = map (λ (i : Input). i.utxo_id)

utxo_ids-strip : (is : List Input) → utxo_ids (map strip is) ≡ utxo_ids is
utxo_ids-strip [] = refl
utxo_ids-strip (i ∷ is) = ap (λ us. i.utxo_id ∷ us) (utxo_ids-strip is)

module _ (c : Crypto) where
  entry-parent :
      (code : Encoding) (latest : Transaction) {e : UtxoEntry} {u : UtxoId}
      → observation_output_as c code latest ≡ ok e
      → observation_as_utxo_id c code latest ≡ ok u
      → e.utxo_id ≡ some u
  unfolding observation_output_as observation_as_utxo_id
  entry-parent code latest h k =
      let (i, e1, e2) = >>=-eq-ok (observation_output_index latest) _ h in
      let (j, f1, f2) = >>=-eq-ok (observation_output_index latest) _ k in
      let (o, _, e3) = >>=-eq-ok (observation_output c code latest) _ e2 in
      let (t, _, e4) = >>=-eq-ok (time_of latest) _ e3 in
      let same = ok-injective (sym e1 ∙ f1) in
      ap (λ (e : UtxoEntry). e.utxo_id) (sym (ok-injective e4))
      ∙ ap some (ap (new_utxo_id (hash_or (calculate_hash c) latest)) same ∙ ok-injective f2)

  module _ {S : Type 0} (env : Keeper S) where
    abbrev pub observed_output : Observation → Output
    observed_output o = record empty_output {
      data_field = some (record empty_data { observation = some (env.encoding.encode o) });
      address = some env.address;
    }

    -- The transaction stands at the height, its only output is the observation, for the node's own
    -- address, and its only input spends the parent.
    pub record Carries (tx : Transaction) (o : Observation) (h : I64) (parent : UtxoId)
        : Type 0 where
      pub at_height : height tx ≡ ok h
      pub one_output : tx.outputs ≡ observed_output o ∷ []
      pub one_input : map (λ (i : Input). i.utxo_id) tx.inputs ≡ some parent ∷ []

    pub observation_tx-Carries :
        (salt : I64) (metadata : StructMetadata) (latest : Transaction) (o : Observation) (h : I64)
        {tx : Transaction} {parent : UtxoId}
        → observation_as_utxo_id c env.encoding latest ≡ ok parent
        → observation_tx c env salt metadata latest o h ≡ ok tx
        → Carries tx o h parent
    unfolding observation_tx with_input with_observation with_options_height new with_network height
        to_input
    observation_tx-Carries salt metadata latest o h {tx} spent e =
        let (u, e1, e2) = >>=-eq-ok (observation_output_as c env.encoding latest) _ e in
        let same = sign-SameContent c env.address env.prove _ e2 in
        record {
          at_height = ap (λ os. height (record tx { options = os })) (sym same.options);
          one_output = sym same.outputs;
          one_input =
              sym (utxo_ids-strip tx.inputs)
              ∙ ap utxo_ids (sym same.inputs)
              ∙ ap (λ p. p ∷ []) (entry-parent env.encoding latest e1 spent);
        }
