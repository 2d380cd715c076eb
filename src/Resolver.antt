-- ===== src/Resolver.antt =====
-- src/core/resolver.rs: the parents of a transaction's inputs, from the local store or from peers, and
-- the balance check. The data store and the peers are parameters: what the store answers
-- (data/src/transaction_store.rs, SQL) and the peers' responses in the order of arrival.
-- Of the set of observation proofs only its emptiness is read: it is a list.

pub mod Accounting
pub mod Liveness
use redgold.Prelude.{
  ℕ, suc, Bool, true, false, Option, none, some, List, [], ◌∷◌, ◌++◌, I64, add64, length, test,
  is_some, map, filter_map, get_elem?, or_else, Result, ok, err, error_info, safe_get_msg, ◌>>=◌,
  ◌>>◌, ◌==◌, ltb, leb, not, ◌&&◌, if◌then◌else◌, bind?, map?, ErrorInfo, ℕ_discrete,
}
use redgold.Structs.{
  UtxoId, Hash, Hash-discrete, Input, Output, Transaction, PublicKey, PublicKey-discrete, Message,
  Proof,
}
use redgold.Crypto.{Crypto}
use redgold.Output.{opt_amount}
use redgold.Transaction.{total_output_amount}
use redgold.Proofs.{verify_proofs}
use redgold.Hashing.{signable_hash, calculate_hash}

-- `HashSet::insert` of a key.
unfoldable pub insert_key : List PublicKey → PublicKey → List PublicKey
insert_key [] k = k ∷ []
insert_key (j ∷ js) k = if test (PublicKey-discrete j k) then j ∷ js else j ∷ insert_key js k

-- A peer's signed answer to a `ResolveHashRequest`: `none` where a nested field is missing.
pub record ResolveResponse : Type 0 where
  pub public_key : Option PublicKey
  pub error : Option ErrorInfo
  pub transaction : Option Transaction
  pub observation_proofs : List Message
  pub queried_output_index_valid : Option Bool

-- What the node asks its store and its peers.
pub record Sources : Type 0 where
  -- `query_maybe_transaction`: the stored transaction, with its rejection reason.
  pub query_maybe_transaction : Hash → Option (Transaction × Option ErrorInfo)
  -- `query_utxo_id_valid`.
  pub query_utxo_id_valid : Hash → I64 → Bool
  pub select_observation_edge : Hash → List Message
  -- `broadcast_async`, a result for each peer.
  pub broadcast : Hash → I64 → List (Result ResolveResponse)

pub record ResolvedInput : Type 0 where
  pub input : Input
  pub parent_transaction : Transaction
  pub internal_accepted : Bool
  pub internal_valid_index : Bool
  pub observation_proofs : List Message
  pub peer_valid_index : List PublicKey
  pub peer_invalid_index : List PublicKey
  pub signable_hash : Hash

pub record ResolvedTransactionHash : Type 0 where
  pub transaction : Option Transaction
  pub observation_proofs : List Message
  pub peer_valid_index : List PublicKey
  pub peer_invalid_index : List PublicKey

pub record ResolvedTransaction : Type 0 where
  pub transaction : Transaction
  pub fixed_resolutions : List ResolvedInput
  pub resolved_internally : Bool

-- `output_index as usize`: a negative index becomes a number past every list.
unfoldable pub prior_output : ResolvedInput → Result Output
prior_output r = do
  u ← safe_get_msg r.input.utxo_id "missing utxoid"
  elim (get_elem? r.parent_transaction.outputs u.output_index) [
    | some o ↦ ok o
    | none ↦ err (error_info "Output index out of bounds")
  ]

unfoldable pub amount : ResolvedInput → Result (Option I64)
amount r = do o ← prior_output r; ok (opt_amount o)

unfoldable pub total_from : I64 → List ResolvedInput → Result I64
total_from total [] = ok total
total_from total (r ∷ rs) = do a ← amount r; total_from (or_else (map? (add64 total) a) total) rs

unfoldable pub total_parent_amount_available : ResolvedTransaction → Result I64
total_parent_amount_available t = total_from 0 t.fixed_resolutions

unfoldable pub validate : ResolvedTransaction → Result (Unit {0})
validate t = do
  available ← total_parent_amount_available t
  (if available == total_output_amount t.transaction
      then ok tt
      else err (error_info "Balance mismatch"))

module _ (c : Crypto) where
  -- `ResolvedInput::verify_proof`.
  unfoldable pub verify_proof : ResolvedInput → Result (Unit {0})
  verify_proof r = do
    o ← prior_output r
    a ← safe_get_msg o.address "unspecified optional value"
    verify_proofs c r.input.proof r.signable_hash a

  unfoldable pub validate_single_result :
      Hash → Result ResolveResponse → Result (Transaction × List Message × Bool)
  validate_single_result h response = do
    r ← response
    elim r.error [ some e ↦ err e | none ↦ ok tt ]
    tx ← safe_get_msg r.transaction "Missing transaction"
    (if test (Hash-discrete (calculate_hash c tx) h)
        then ok (tx, r.observation_proofs, or_else r.queried_output_index_valid false)
        else err (error_info "Invalid transaction hash"))

  abbrev pub response_key : Result ResolveResponse → Option PublicKey
  response_key (ok r) = r.public_key
  response_key _ = none

  -- One round of the loop of `resolve_transaction_hash`: a response with no key, or one that does not
  -- validate, is passed over.
  unfoldable pub take_response :
      Hash → Result ResolveResponse → ResolvedTransactionHash → ResolvedTransactionHash
  take_response h response acc = elim (response_key response) [
    | none ↦ acc
    | some pk ↦ elim (validate_single_result h response) [
      | ok (tx, proofs, valid) ↦ record {
        transaction = some tx;
        observation_proofs = acc.observation_proofs ++ proofs;
        peer_valid_index =
            if valid then insert_key acc.peer_valid_index pk else acc.peer_valid_index;
        peer_invalid_index =
            if valid then acc.peer_invalid_index else insert_key acc.peer_invalid_index pk;
      }
      | _ ↦ acc
    ]
  ]

  unfoldable pub take_responses :
      Hash → List (Result ResolveResponse) → ResolvedTransactionHash → ResolvedTransactionHash
  take_responses h [] acc = acc
  take_responses h (r ∷ rs) acc = take_responses h rs (take_response h r acc)

  abbrev pub no_responses : ResolvedTransactionHash
  no_responses = record {
    transaction = none;
    observation_proofs = [];
    peer_valid_index = [];
    peer_invalid_index = [];
  }

  unfoldable pub resolve_transaction_hash :
      Hash → List (Result ResolveResponse) → Option ResolvedTransactionHash
  resolve_transaction_hash h responses =
      let r = take_responses h responses no_responses in
      if is_some r.transaction then some r else none

  -- `Ok(None)` of `resolve_transaction_hash` leaves the edges of the store in place.
  abbrev pub peers_or_edges :
      Option ResolvedTransactionHash → List Message → ResolvedTransactionHash
  peers_or_edges none edges = record no_responses { observation_proofs = edges }
  peers_or_edges (some r) edges = r

  -- The branch for a parent that is not stored here.
  unfoldable pub check_peers : Bool → Bool → ResolvedTransactionHash → Result (Unit {0})
  check_peers valid_here check_liveness r = do
    (if length r.observation_proofs == 0
        then err (error_info "Missing observation proofs")
        else ok tt)
    (if ltb (length r.peer_valid_index) (length r.peer_invalid_index) && check_liveness
        then err (error_info "UTXO considered invalid by peer selection")
        else ok tt)
    (if length r.peer_valid_index == 0 && not valid_here && check_liveness
        then err (error_info "No peers considered UTXO valid")
        else ok tt)

  abbrev pub rejected : Option (Transaction × Option ErrorInfo) → Result (Option Transaction)
  rejected none = ok none
  rejected (some (t, none)) = ok (some t)
  rejected (some (t, some e)) = err e

  abbrev pub parent_of : Option Transaction → Result Transaction
  parent_of none = err (error_info "Missing parent transaction")
  parent_of (some t) = ok t

  abbrev pub resolved_input :
      Input → Hash → Bool → Bool → ResolvedTransactionHash → Transaction → ResolvedInput
  resolved_input input signable accepted valid found parent = record {
    input = input;
    parent_transaction = parent;
    internal_accepted = accepted;
    internal_valid_index = valid;
    observation_proofs = found.observation_proofs;
    peer_valid_index = found.peer_valid_index;
    peer_invalid_index = found.peer_invalid_index;
    signable_hash = signable;
  }

  -- `resolved.verify_proof()?; Ok(resolved)`
  unfoldable pub verified : ResolvedInput → Result ResolvedInput
  verified r = verify_proof r >> ok r

  -- The body of `resolve_input` behind the store's answer, for a parent that is stored and for one that
  -- is not. `valid` is the store's answer on the output.
  unfoldable pub resolve_stored :
      Sources → Input → Hash → Bool → Hash → I64 → Bool → Option Transaction → Result ResolvedInput
  resolve_stored src input signable check_liveness h index valid (some t) = do
    (if not valid && check_liveness
        then err (error_info "Missing valid UTXO index on accepted transaction")
        else ok tt)
    verified (
        resolved_input input signable true valid
          (record no_responses { observation_proofs = src.select_observation_edge h }) t)
  resolve_stored src input signable check_liveness h index valid none = do
    let found =
        peers_or_edges (resolve_transaction_hash h (src.broadcast h index))
          (src.select_observation_edge h)
    check_peers valid check_liveness found
    parent ← parent_of found.transaction
    verified (resolved_input input signable false valid found parent)

  unfoldable pub resolve_input : Sources → Input → Hash → Bool → Result ResolvedInput
  resolve_input src input signable check_liveness = do
    u ← safe_get_msg input.utxo_id "Missing utxo id"
    h ← safe_get_msg u.transaction_hash "Missing transaction hash on input"
    stored ← rejected (src.query_maybe_transaction h)
    resolve_stored src input signable check_liveness h u.output_index
        (src.query_utxo_id_valid h u.output_index) stored

  -- The inputs in order; one that is not a fixed reference is skipped.
  unfoldable pub resolve_inputs : Sources → Hash → List Input → Result (List ResolvedInput)
  resolve_inputs src h [] = ok []
  resolve_inputs src h (i ∷ is) = elim i.floating_utxo_id [
    | some f ↦ resolve_inputs src h is
    | none ↦ resolve_input src i h true >>= λ r. resolve_inputs src h is >>= λ rs. ok (r ∷ rs)
  ]

  unfoldable pub all_internal : List ResolvedInput → Bool
  all_internal [] = true
  all_internal (r ∷ rs) = r.internal_accepted && all_internal rs

  unfoldable pub resolve_transaction : Sources → Transaction → Result ResolvedTransaction
  resolve_transaction src tx = do
    rs ← resolve_inputs src (signable_hash c tx) tx.inputs
    ok (record { transaction = tx; fixed_resolutions = rs; resolved_internally = all_internal rs })
