-- ===== src/Observations/Buffer.antt =====
-- src/core/observation.rs: the buffer of a node's observations. Each tick makes one transaction of them,
-- which spends the one before. The store, gossip, the key and the random salt are parameters. A panic of
-- an assertion or an `expect` is a value.
use redgold.Prelude.{
  ℕ, Bool, true, false, none, some, List, [], ◌∷◌, ◌++◌, I64, add64, length, map, bind?, or_else,
  Result, ok, err, panic, error_message, internal_channel_receive_error, safe_get_msg, expect,
  to_option, ◌>>=◌, ◌>>◌, ◌==◌, if◌then◌else◌, after, attempt,
}
use redgold.Structs.{
  Bytes, Message, Hash, Hash-discrete, Address, Input, Proof, Transaction, TransactionOptions,
  TransactionData, StandardData, StructMetadata,
}
use redgold.Crypto.{Crypto}
use redgold.Assoc.{get, put}
use redgold.Proofs.{merkle_combine}
use redgold.Output.{empty_data, empty_output}
use redgold.Transaction.{hash_or, to_input}
use redgold.Hashing.{calculate_hash, sign}
use redgold.Merkle.{build_root}
use redgold.Builder.{TransactionBuilder, new, push_output, with_options_height}
use redgold.Observations.{
  ObservationMetadata, ObservationProof, Observation, Encoding, leafs_hash,
  build_observation_proofs, observation_as_utxo_id, observation_output_as, observation_proof,
}

abbrev pub ancestor_merkle_root_length : ℕ
ancestor_merkle_root_length = 1000

-- `height()` of a transaction.
unfoldable pub height : Transaction → Result I64
height tx =
    safe_get_msg
      (bind?
        (bind? (bind? tx.options (λ (o : TransactionOptions). o.txn_data))
          (λ (d : TransactionData). d.standard_data))
        (λ (s : StandardData). s.height))
      "Missing height"

-- `S` is the state of the store.
pub record Keeper (S : Type 0) : Type 0 where
  pub encoding : Encoding
  pub network : ℕ
  pub address : Address
  pub prove : Hash → Proof
  pub insert_observation_and_edges : S → Transaction → Result S
  pub query_observation : S → Hash → Result Bool
  pub gossip_req : Transaction → Result (Unit {0})
  pub is_open : ℕ → Bool

pub record ObservationBuffer (S : Type 0) : Type 0 where
  pub store : S
  pub buffered : List ObservationMetadata
  pub latest : Transaction
  pub ancestors : List Hash
  pub subscribers : List (Hash × ℕ)
  -- The proofs sent on channels, in order.
  pub responses : List (ℕ × ObservationProof)

-- `with_observation`, for the encoded observation.
unfoldable pub with_observation : Message → I64 → Address → TransactionBuilder → TransactionBuilder
with_observation o h a b =
    push_output
      (record empty_output {
        data_field = some (record empty_data { observation = some o });
        address = some a;
      })
      (with_options_height h b)

-- `with_input`, on the transaction of the builder.
unfoldable pub with_input : Input → Transaction → Transaction
with_input i tx = record tx { inputs = tx.inputs ++ i ∷ [] }

module _ (c : Crypto) {S : Type 0} (env : Keeper S) where
  unfoldable pub process_incoming :
      ObservationMetadata → ℕ → ObservationBuffer S → ObservationBuffer S
  process_incoming m sender b = elim m.observed_hash [
    | some h ↦ record b {
      subscribers = put Hash-discrete h sender b.subscribers;
      buffered = b.buffered ++ m ∷ [];
    }
    | none ↦ b
  ]

  abbrev pub tx_hash : Transaction → Hash
  tx_hash = hash_or (calculate_hash c)

  -- A full list of ancestors gives its root, and starts anew.
  unfoldable pub ancestor_root : List Hash → Result (List Bytes × List Hash)
  ancestor_root hs =
      if length hs == ancestor_merkle_root_length
      then (build_root (merkle_combine c) (map (λ (h : Hash). or_else h.bytes []) hs) >>= λ t.
          ok (t.root ∷ [], []))
      else ok ([], hs)

  -- The transaction of an observation, signed.
  unfoldable pub observation_tx :
      I64 → StructMetadata → Transaction → Observation → I64 → Result Transaction
  observation_tx salt metadata latest o h = do
    e ← observation_output_as c env.encoding latest
    sign c env.address env.prove (
        with_input (to_input e)
          (with_observation (env.encoding.encode o) h env.address
            (new env.network salt metadata)).transaction)

  abbrev pub expected_height : Transaction → Result I64
  expected_height tx = expect (to_option (height tx)) "Missing height on internal observation"

  -- What is observed, at which height, and the ancestors that stay.
  pub record Draft : Type 0 where
    pub draft_observation : Observation
    pub draft_height : I64
    pub draft_ancestors : List Hash

  unfoldable pub draft : List ObservationMetadata → Transaction → List Hash → Result Draft
  draft ms latest hs = do
    t ← build_root (merkle_combine c) (leafs_hash c env.encoding ms)
    h ← expected_height latest
    u ← observation_as_utxo_id c env.encoding latest
    a ← ancestor_root hs
    ok (record {
      draft_observation = record {
        merkle_root = some t.root;
        observations = ms;
        parent_id = some u;
        ancestor_merkle_roots = a.0;
      };
      draft_height = add64 h 1;
      draft_ancestors = a.1;
    })

  abbrev pub stored : Bool → Result (Unit {0})
  stored true = ok tt
  stored false = panic "assertion failed"

  -- The stored transaction is the latest, and an ancestor of the next ones.
  abbrev pub published : Transaction → S → Draft → ObservationBuffer S → ObservationBuffer S
  published tx s d b = record b {
    store = s;
    latest = tx;
    ancestors = d.draft_ancestors ++ tx_hash tx ∷ [];
  }

  unfoldable pub proofs_of : Transaction → Draft → Result (List ObservationProof)
  proofs_of tx d = do
    p ← observation_proof c env.encoding tx
    ps ← build_observation_proofs c env.encoding d.draft_observation (tx_hash tx) p
    env.gossip_req tx
    ok ps

  -- From the signed transaction on.
  unfoldable pub publish :
      Transaction
      → Draft
      → ObservationBuffer S
      → ObservationBuffer S × Result (List ObservationProof)
  publish tx d b = attempt b (env.insert_observation_and_edges b.store tx) λ s.
      attempt (record b { store = s }) (env.query_observation s (tx_hash tx) >>= stored)
        λ _. attempt (published tx s d b) (proofs_of tx d) λ ps. (published tx s d b, ok ps)

  -- The buffer is emptied at first: what an error ends is not observed again.
  unfoldable pub form_from :
      I64
      → StructMetadata
      → List ObservationMetadata
      → ObservationBuffer S
      → ObservationBuffer S × Result (List ObservationProof)
  form_from salt metadata [] b = (b, ok [])
  form_from salt metadata (m ∷ ms) b =
      attempt (record b { buffered = [] }) (draft (m ∷ ms) b.latest b.ancestors)
        λ d.
          attempt (record b { buffered = []; ancestors = d.draft_ancestors })
            (observation_tx salt metadata b.latest d.draft_observation d.draft_height)
            λ tx. publish tx d (record b { buffered = []; ancestors = d.draft_ancestors })

  unfoldable pub form_observation :
      I64
      → StructMetadata
      → ObservationBuffer S
      → ObservationBuffer S × Result (List ObservationProof)
  form_observation salt metadata b = form_from salt metadata b.buffered b

  unfoldable pub respond :
      List ObservationProof → ObservationBuffer S → ObservationBuffer S × Result (Unit {0})
  respond [] b = (b, ok tt)
  respond (p ∷ ps) b =
      elim (bind? (bind? p.metadata (λ (m : ObservationMetadata). m.observed_hash))
        λ h. get Hash-discrete h b.subscribers) [
          | none ↦ respond ps b
          | some r ↦
              if env.is_open r
              then respond ps (record b { responses = b.responses ++ (r, p) ∷ [] })
              else (
                b,
                err (error_message internal_channel_receive_error "sending on a closed channel"),
              )
        ]

  unfoldable pub form_and_respond :
      I64 → StructMetadata → ObservationBuffer S → ObservationBuffer S × Result (Unit {0})
  form_and_respond salt metadata b = after (form_observation salt metadata b) λ d ps. respond ps d
