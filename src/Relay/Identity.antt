-- ===== src/Relay/Identity.antt =====
-- src/core/relay.rs: the transactions that say who this node is. They are made when they are first asked for,
-- and kept. The configuration store is the state; what the node's configuration makes, and the decoding of
-- the metadata in a transaction, are parameters.
use redgold.Prelude.{
  ◌≡◌, refl, sym, ap, ◌∙◌, Bool, true, false, Option, none, some, List, test, find, any, Result, ok,
  err, panic, err≢ok, panic≢ok, ok-injective, safe_get_msg, after, attempt, after-eq-ok,
  if◌then◌else◌,
}
use redgold.Structs.{PublicKey, PublicKey-discrete, Transaction, Message}
use redgold.Requests.{NodeMetadata}
use redgold.Watcher.{PartyId}

pub record ConfigStore : Type 0 where
  pub node_tx : Option Transaction
  pub peer_tx : Option Transaction
  pub dynamic_md : Option Message

pub record NodeConfig : Type 0 where
  pub public_key : PublicKey
  pub peer_tx_fixed : Transaction
  pub node_tx_fixed : Option NodeMetadata → Transaction
  pub dynamic_node_metadata_fixed : Message
  -- The node metadata of a peer transaction, and the metadata of a node transaction.
  pub peer_nodes : Transaction → Result (List NodeMetadata)
  pub node_metadata : Transaction → Result NodeMetadata
  pub peer_id : NodeMetadata → Option Message
  -- The parties of a node, and the node with one more.
  pub parties : NodeMetadata → List PartyId
  pub push_party : PartyId → NodeMetadata → NodeMetadata
  -- The transaction that carries new metadata, on top of the present one.
  pub updated : Transaction → NodeMetadata → Result Transaction

pub record PeerNodeInfo : Type 0 where
  pub latest_peer_transaction : Option Transaction
  pub latest_node_transaction : Option Transaction
  pub dynamic_node_metadata : Option Message

abbrev pub Task : Type 0 → Type 0
Task A = ConfigStore → ConfigStore × Result A

module _ (g : NodeConfig) where
  abbrev pub is_own : NodeMetadata → Bool
  is_own n = elim n.public_key [ some k ↦ test (PublicKey-discrete k g.public_key) | none ↦ false ]

  unfoldable pub peer_tx : Task Transaction
  peer_tx s = elim s.peer_tx [
    | some tx ↦ (s, ok tx)
    | none ↦ (record s { peer_tx = some g.peer_tx_fixed }, ok g.peer_tx_fixed)
  ]

  -- From what the peer transaction says of this node, if it says something.
  abbrev pub first_node_tx : Task Transaction
  first_node_tx s = after (peer_tx s) λ t peer. attempt t (g.peer_nodes peer) λ nodes.
      let tx = g.node_tx_fixed (find is_own nodes) in (record t { node_tx = some tx }, ok tx)

  abbrev pub node_tx_from : Option Transaction → Task Transaction
  node_tx_from (some tx) s = (s, ok tx)
  node_tx_from none s = first_node_tx s

  unfoldable pub node_tx : Task Transaction
  node_tx s = node_tx_from s.node_tx s

  unfoldable pub dynamic_node_metadata : Task Message
  dynamic_node_metadata s = elim s.dynamic_md [
    | some d ↦ (s, ok d)
    | none ↦ (
      record s { dynamic_md = some g.dynamic_node_metadata_fixed },
      ok g.dynamic_node_metadata_fixed,
    )
  ]

  unfoldable pub own_node_metadata : Task NodeMetadata
  own_node_metadata s = after (node_tx s) λ t tx. (t, g.node_metadata tx)

  unfoldable pub peer_id : Task Message
  peer_id s =
      after (own_node_metadata s) λ t nmd. (t, safe_get_msg (g.peer_id nmd) "Missing peer_id")

  -- The store's answer, but for the own key.
  unfoldable pub peer_id_for_node_pk :
      (PublicKey → Result (Option Message)) → PublicKey → Task (Option Message)
  peer_id_for_node_pk query public_key s =
      if test (PublicKey-discrete g.public_key public_key)
      then (after (peer_id s) λ t p. (t, ok (some p)))
      else (s, query public_key)

  unfoldable pub peer_node_info : Task PeerNodeInfo
  peer_node_info s = after (peer_tx s) λ t peer. after (node_tx t) λ u node.
      after (dynamic_node_metadata u) λ v dynamic. (
        v,
        ok (record {
          latest_peer_transaction = some peer;
          latest_node_transaction = some node;
          dynamic_node_metadata = some dynamic;
        }),
      )

  unfoldable pub update_dynamic_node_metadata : Message → Task (Unit {0})
  update_dynamic_node_metadata d s = (record s { dynamic_md = some d }, ok tt)

  unfoldable pub update_node_metadata : NodeMetadata → Task (Unit {0})
  update_node_metadata nmd s =
      after (node_tx s)
        λ t tx. attempt t (g.updated tx nmd) λ new. (record t { node_tx = some new }, ok tt)

  abbrev pub same_party : PartyId → PartyId → Bool
  same_party d e = elim d.public_key [
    | none ↦ elim e.public_key [ none ↦ true | some k ↦ false ]
    | some j ↦ elim e.public_key [ none ↦ false | some k ↦ test (PublicKey-discrete k j) ]
  ]

  unfoldable pub add_party_id : PartyId → Task (Unit {0})
  add_party_id d s = after (own_node_metadata s) λ t nmd.
      if any (same_party d) (g.parties nmd)
      then (t, ok tt)
      else update_node_metadata (g.push_party d nmd) t

  first_node_tx-kept :
      (s t : ConfigStore) (tx : Transaction) → first_node_tx s ≡ (t, ok tx) → t.node_tx ≡ some tx
  first_node_tx-kept s t tx e =
      let (u, peer, eu, f) = after-eq-ok (peer_tx s) _ e in kept u (g.peer_nodes peer) f
    where
      kept :
          (u : ConfigStore) (nodes : Result (List NodeMetadata))
          → attempt u nodes (λ ns. (
            record u { node_tx = some (g.node_tx_fixed (find is_own ns)) },
            ok (g.node_tx_fixed (find is_own ns)),
          ))
            ≡ (t, ok tx)
          → t.node_tx ≡ some tx
      kept u (ok ns) f = sym (ap (λ p. p.0.node_tx) f) ∙ ap some (ok-injective (ap (λ p. p.1) f))
      kept u (err i) f = absurd (err≢ok (ap (λ p. p.1) f))
      kept u (panic m) f = absurd (panic≢ok (ap (λ p. p.1) f))

  node_tx-kept :
      (o : Option Transaction) (s t : ConfigStore) (tx : Transaction)
      → s.node_tx ≡ o
      → node_tx_from o s ≡ (t, ok tx)
      → t.node_tx ≡ some tx
  node_tx-kept none s t tx k e = first_node_tx-kept s t tx e
  node_tx-kept (some x) s t tx k e =
      sym (ap (λ p. p.0.node_tx) e) ∙ (k ∙ ap some (ok-injective (ap (λ p. p.1) e)))

  -- Once the node transaction was asked for, every later question gives the same transaction and leaves
  -- the store as it is.
  pub node_tx_stable :
      (s t : ConfigStore) (tx : Transaction) → node_tx s ≡ (t, ok tx) → node_tx t ≡ (t, ok tx)
  unfolding node_tx
  node_tx_stable s t tx e = ap (λ o. node_tx_from o t) (node_tx-kept s.node_tx s t tx refl e)
