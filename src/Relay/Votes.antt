-- ===== src/Relay/Votes.antt =====
-- src/core/relay.rs: how far a peer is trusted, and what the peers say of an output. A score is a floating
-- point number: its type and operations are a parameter. So are the store and the order in which a hash
-- map is iterated.
use redgold.Prelude.{
  ℕ_discrete, ◌≡◌, refl, ap, ◌⊎◌, inl, inr, Bool, true, false, Option, none, some, List, [], ◌∷◌,
  ◌++◌, test, bind?, map?, or_else, find, is_some, Option-cases, Result, ok, err, panic, ◌>>=◌,
  >>=-ok, if◌then◌else◌,
}
use redgold.Structs.{
  Proof, PublicKey, PublicKey-discrete, Transaction, Transaction-discrete, Message,
}
use redgold.Assoc.{get, put}
use redgold.Requests.{Response, UtxoValidResponse}

pub record PeerId : Type 0 where
  pub peer_id : Option PublicKey
  pub known_proof : List Message

unfoldable pub PeerId-discrete : Discrete PeerId
unfolding ℕ_discrete PublicKey-discrete
PeerId-discrete = hlevel (PublicKey-discrete, ℕ_discrete)

pub record Scores : Type 1 where
  pub T : Type 0
  pub start : T
  pub add : T → T → T
  pub subtract : T → T → T
  pub is_positive : T → Bool
  pub less : T → T → Bool
  pub iteration : List (Transaction × T) → List (Transaction × T)

-- `maybe_label` is the rating as a score.
pub record TrustData (T : Type 0) : Type 0 where
  pub maybe_label : Option T
  pub allow_model_override : Bool

pub record TrustRatingLabel (T : Type 0) : Type 0 where
  pub peer_id : Option PeerId
  pub trust_data : List (TrustData T)

pub record Seed (T : Type 0) : Type 0 where
  pub public_key : Option PublicKey
  pub trust : List (TrustData T)

abbrev pub has_key : {T : Type 0} → PublicKey → Seed T → Bool
has_key pk s = elim s.public_key [ some k ↦ test (PublicKey-discrete k pk) | none ↦ false ]

module _ {T : Type 0} where
  unfoldable pub is_seed : List (Seed T) → PublicKey → Bool
  is_seed seeds pk = is_some (find (has_key pk) seeds)

  unfoldable pub seed_trust : List (Seed T) → PublicKey → Option (List (TrustData T))
  seed_trust seeds pk = map? (λ (s : Seed T). s.trust) (find (has_key pk) seeds)

  -- What the operator has said of a peer goes over the prediction, unless it lets the model decide.
  unfoldable pub overrule : PeerId → List (TrustData T) → List (PeerId × T) → List (PeerId × T)
  overrule p [] hm = hm
  overrule p (d ∷ ds) hm = elim d.allow_model_override [
    | true ↦ overrule p ds hm
    | false ↦ elim d.maybe_label [
      | some r ↦ overrule p ds (put PeerId-discrete p r hm)
      | none ↦ overrule p ds hm
    ]
  ]

  unfoldable pub get_trust : List (TrustRatingLabel T) → List (PeerId × T) → List (PeerId × T)
  get_trust [] hm = hm
  get_trust (l ∷ ls) hm = elim l.peer_id [
    | some p ↦ get_trust ls (overrule p l.trust_data hm)
    | none ↦ get_trust ls hm
  ]

  unfoldable pub get_trust_of_peer : List (PeerId × T) → PeerId → Option T
  get_trust_of_peer hm p = get PeerId-discrete p hm

  -- The store knows the peer of a node's key.
  unfoldable pub get_trust_of_node :
      (PublicKey → Result (Option PeerId)) → List (PeerId × T) → PublicKey → Result (Option T)
  get_trust_of_node peer_id_for_node_pk hm pk =
      peer_id_for_node_pk pk >>= λ p. ok (bind? p (get_trust_of_peer hm))

-- What the peers have said: the score for the output, and the transactions that are said to spend it.
pub record Poll (x : Scores) : Type 0 where
  pub sum : x.T
  pub children : List (Transaction × x.T)

-- The key that signed an answer, and what it says of the output.
abbrev pub voter : Response → Option PublicKey
voter r = bind? r.proof λ (p : Proof). p.public_key

abbrev pub opinion : Response → Option (UtxoValidResponse × Bool)
opinion r = bind? r.utxo_valid_response λ (u : UtxoValidResponse). map? (λ b. (u, b)) u.valid

module _ (x : Scores) (trust : PublicKey → Result (Option x.T)) where
  abbrev pub add_child :
      x.T → UtxoValidResponse → List (Transaction × x.T) → List (Transaction × x.T)
  add_child t u hm = elim u.child_transaction [
    | none ↦ hm
    | some h ↦ elim u.child_transaction_input [
      | none ↦ hm
      | some i ↦
          put Transaction-discrete h
            (or_else (map? (λ s. x.add s t) (get Transaction-discrete h hm)) t) hm
    ]
  ]

  -- A peer without a score has no vote.
  abbrev pub count : UtxoValidResponse → Bool → Poll x → Option x.T → Poll x
  count u valid p none = p
  count u valid p (some t) = record {
    sum = if valid then x.add p.sum t else x.subtract p.sum t;
    children = add_child t u p.children;
  }

  unfoldable pub vote : Response → Poll x → Result (Poll x)
  vote r p = elim (voter r) [
    | none ↦ ok p
    | some pk ↦ elim (opinion r) [ none ↦ ok p | some o ↦ trust pk >>= λ t. ok (count o.0 o.1 p t) ]
  ]

  unfoldable pub votes : List (Result Response) → Poll x → Result (Poll x)
  votes [] p = ok p
  votes (ok r ∷ rs) p = vote r p >>= votes rs
  votes (err e ∷ rs) p = votes rs p
  votes (panic m ∷ rs) p = panic m

  -- `max_by`: the last of the greatest.
  unfoldable pub greatest : Transaction × x.T → List (Transaction × x.T) → Transaction
  greatest best [] = best.0
  greatest best (e ∷ es) = greatest (if x.less e.1 best.1 then best else e) es

  abbrev pub first_choice : List (Transaction × x.T) → Option Transaction
  first_choice [] = none
  first_choice (e ∷ es) = some (greatest e es)

  abbrev pub verdict : Poll x → Option Transaction
  verdict p = if x.is_positive p.sum then none else first_choice (x.iteration p.children)

  -- The answers of the peers: none if the output is valid, or else the transaction that spends it.
  unfoldable pub utxo_id_valid_peers : List (Result Response) → Result (Option Transaction)
  utxo_id_valid_peers answers =
      votes answers (record { sum = x.start; children = [] }) >>= λ p. ok (verdict p)

  -- An answer without a vote: an error, one that is not signed or says nothing, or one of a key without
  -- a score.
  abbrev pub HasNoVote : Result Response → Type 0
  HasNoVote (ok r) =
      (voter r ≡ none)
      ⊎ ((opinion r ≡ none) ⊎ ((pk : PublicKey) × (voter r ≡ some pk) × (trust pk ≡ ok none)))
  HasNoVote (err e) = Unit
  HasNoVote (panic m) = ⊥

  vote-HasNoVote : (r : Response) (p : Poll x) → HasNoVote (ok r) → vote r p ≡ ok p
  unfolding vote
  vote-HasNoVote r p (inl n) = rw (vote, n) refl
  vote-HasNoVote r p (inr (inl n)) = elim (Option-cases (voter r)) [
    | inl m ↦ rw (vote, m) refl
    | inr (pk, e) ↦ rw (vote, e, n) refl
  ]
  vote-HasNoVote r p (inr (inr (pk, e, u))) = elim (Option-cases (opinion r)) [
    | inl n ↦ rw (vote, e, n) refl
    | inr (o, n) ↦ rw (vote, e, n, u) refl
  ]

  votes-HasNoVote :
      (xs ys : List (Result Response)) (a : Result Response) (p : Poll x)
      → HasNoVote a
      → votes (xs ++ a ∷ ys) p ≡ votes (xs ++ ys) p
  unfolding votes
  votes-HasNoVote [] ys (ok r) p h = >>=-ok (votes ys) (vote-HasNoVote r p h)
  votes-HasNoVote [] ys (err e) p h = refl
  votes-HasNoVote [] ys (panic m) p h = absurd h
  votes-HasNoVote (ok r ∷ xs) ys a p h = λ i. vote r p >>= λ q. votes-HasNoVote xs ys a q h i
  votes-HasNoVote (err e ∷ xs) ys a p h = votes-HasNoVote xs ys a p h
  votes-HasNoVote (panic m ∷ xs) ys a p h = refl

  -- An answer without a vote, anywhere among the answers, has no influence on what the peers are taken
  -- to say of an output.
  pub utxo_id_valid_peers-HasNoVote :
      (xs ys : List (Result Response)) (a : Result Response)
      → HasNoVote a
      → utxo_id_valid_peers (xs ++ a ∷ ys) ≡ utxo_id_valid_peers (xs ++ ys)
  unfolding utxo_id_valid_peers
  utxo_id_valid_peers-HasNoVote xs ys a h =
      ap (λ r. r >>= λ p. ok (verdict p)) (votes-HasNoVote xs ys a _ h)
