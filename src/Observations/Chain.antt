-- ===== src/Observations/Chain.antt =====
-- What a tick of the observation buffer that succeeds has done (src/core/observation.rs).
use redgold.Prelude.{
  ◌≡◌, ◌≢◌, refl, ap, sym, ◌∙◌, some, List, [], ◌∷◌, ◌++◌, I64, add64, ok, ok-injective, >>=-eq-ok,
  attempt-eq-ok, ◌>>=◌,
}
use redgold.Structs.{Transaction, StructMetadata, Hash, UtxoId}
use redgold.Crypto.{Crypto}
use redgold.Observations.{ObservationMetadata, ObservationProof, leafs_hash, observation_as_utxo_id}
use redgold.Merkle.{build_root}
use redgold.Proofs.{merkle_combine}
use redgold.Observations.Signed.{Carries, observation_tx-Carries}
use redgold.Observations.Buffer.{
  Keeper, ObservationBuffer, tx_hash, ancestor_root, observation_tx, Draft, draft, stored,
  expected_height, published, proofs_of, publish, form_from, form_observation,
}

fst_eq : {A B : Type 0} {a b : A} {x z : B} → ◌≡◌ {A = A × B} (a, x) (b, z) → a ≡ b
fst_eq e = ap (λ p. p.0) e

snd_eq : {A B : Type 0} {a b : A} {x z : B} → ◌≡◌ {A = A × B} (a, x) (b, z) → x ≡ z
snd_eq e = ap (λ p. p.1) e

module _ (c : Crypto) {S : Type 0} (env : Keeper S) where
  -- One link: the new latest transaction is signed; it carries, one above the height of the one before,
  -- an observation of all that was buffered, and spends the output of the one before, which is also the
  -- parent that the observation names; it is the last ancestor.
  pub record Linked (salt : I64) (metadata : StructMetadata) (b q : ObservationBuffer S)
      : Type 0 where
    pub d : Draft c env
    pub drafted : draft c env b.buffered b.latest b.ancestors ≡ ok d
    pub signed :
        observation_tx c env salt metadata b.latest d.draft_observation d.draft_height ≡ ok q.latest
    pub latest_height : I64
    pub previous : expected_height c env b.latest ≡ ok latest_height
    pub above : d.draft_height ≡ add64 latest_height 1
    pub all_observed : d.draft_observation.observations ≡ b.buffered
    pub parent : UtxoId
    pub spent : observation_as_utxo_id c env.encoding b.latest ≡ ok parent
    pub named : d.draft_observation.parent_id ≡ some parent
    pub carried : Carries c env q.latest d.draft_observation d.draft_height parent
    pub emptied : q.buffered ≡ []
    pub ancestor : q.ancestors ≡ d.draft_ancestors ++ tx_hash c env q.latest ∷ []

  -- What a draft says.
  record Drafted (ms : List ObservationMetadata) (latest : Transaction) (d : Draft c env)
      : Type 0 where
    at_height : I64
    before : expected_height c env latest ≡ ok at_height
    next : d.draft_height ≡ add64 at_height 1
    items : d.draft_observation.observations ≡ ms
    origin : UtxoId
    known : observation_as_utxo_id c env.encoding latest ≡ ok origin
    told : d.draft_observation.parent_id ≡ some origin

  draft-Drafted :
      (ms : List ObservationMetadata) (latest : Transaction) (hs : List Hash) {d : Draft c env}
      → draft c env ms latest hs ≡ ok d
      → Drafted ms latest d
  unfolding draft
  draft-Drafted ms latest hs e =
      let (t, _, e1) =
        >>=-eq-ok (build_root (merkle_combine c) (leafs_hash c env.encoding ms)) _ e in
      let (h, f2, e2) = >>=-eq-ok (expected_height c env latest) _ e1 in
      let (u, f3, e3) = >>=-eq-ok (observation_as_utxo_id c env.encoding latest) _ e2 in
      let (a, _, e4) = >>=-eq-ok (ancestor_root c env hs) _ e3 in
      let same = sym (ok-injective e4) in
      record {
        at_height = h;
        before = f2;
        next = ap (λ (d : Draft c env). d.draft_height) same;
        items = ap (λ (d : Draft c env). d.draft_observation.observations) same;
        origin = u;
        known = f3;
        told = ap (λ (d : Draft c env). d.draft_observation.parent_id) same;
      }

  publish-published :
      (tx : Transaction) (d : Draft c env) (b q : ObservationBuffer S) {ps : List ObservationProof}
      → publish c env tx d b ≡ (q, ok ps)
      → (s : S) × (q ≡ published c env tx s d b)
  unfolding publish
  publish-published tx d b q e =
      let (s, _, e1) = attempt-eq-ok b (env.insert_observation_and_edges b.store tx) _ e in
      let (_, _, e2) =
        attempt-eq-ok (record b { store = s })
          (env.query_observation s (tx_hash c env tx) >>= stored c env) _ e1 in
      let (ps, _, e3) = attempt-eq-ok (published c env tx s d b) (proofs_of c env tx d) _ e2 in
      (s, sym (fst_eq e3))

  -- A tick that succeeds with something to observe adds one link to the node's chain of observations. The
  -- transaction that is the latest from then on is signed, stands one above the height of the latest
  -- before, has as its only output an observation of all that was buffered, and as its only input the
  -- output of the latest before, which the observation names as its parent; the buffer is empty.
  pub form_observation-Linked :
      (salt : I64) (metadata : StructMetadata) (b q : ObservationBuffer S)
      (ps : List ObservationProof)
      → b.buffered ≢ []
      → form_observation c env salt metadata b ≡ (q, ok ps)
      → Linked salt metadata b q
  unfolding form_observation form_from
  form_observation-Linked salt metadata b q ps some_item e = by_items b.buffered refl e
    where
      by_items :
          (ms : List ObservationMetadata)
          → b.buffered ≡ ms
          → form_from c env salt metadata ms b ≡ (q, ok ps)
          → Linked salt metadata b q
      by_items [] m e = absurd (some_item m)
      by_items (x ∷ xs) m e =
          let (d, f1, e1) =
            attempt-eq-ok (record b { buffered = [] }) (draft c env (x ∷ xs) b.latest b.ancestors) _
              e in
          let (tx, f2, e2) =
            attempt-eq-ok (record b { buffered = []; ancestors = d.draft_ancestors })
              (observation_tx c env salt metadata b.latest d.draft_observation d.draft_height) _
              e1 in
          let (s, g) =
            publish-published tx d (record b { buffered = []; ancestors = d.draft_ancestors }) q
              e2 in
          let told = draft-Drafted (x ∷ xs) b.latest b.ancestors f1 in
          let latest_eq = ap (λ (q : ObservationBuffer S). q.latest) g in
          record {
            d = d;
            drafted = ap (λ l. draft c env l b.latest b.ancestors) m ∙ f1;
            signed = f2 ∙ ap ok (sym latest_eq);
            latest_height = told.at_height;
            previous = told.before;
            above = told.next;
            all_observed = told.items ∙ sym m;
            parent = told.origin;
            spent = told.known;
            named = told.told;
            carried =
                observation_tx-Carries c env salt metadata b.latest d.draft_observation
                  d.draft_height told.known (f2 ∙ ap ok (sym latest_eq));
            emptied = ap (λ (q : ObservationBuffer S). q.buffered) g;
            ancestor =
                ap (λ (q : ObservationBuffer S). q.ancestors) g
                ∙ ap (λ t. d.draft_ancestors ++ tx_hash c env t ∷ []) (sym latest_eq);
          }
