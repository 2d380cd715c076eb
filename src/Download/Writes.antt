-- ===== src/Download/Writes.antt =====
-- What a download may write (src/data/download.rs): no output that a request holds, and no transaction that
-- is known.
use redgold.Prelude.{
  ℕ, ◌≡◌, refl, Bool, true, false, Bool-cases, inl, inr, some, Option-cases, List, [], ◌∷◌, I64,
  is_some, Result, ok, err, panic, after, after-keeps, attempt, Result-cases, safe_get_msg,
}
use redgold.Structs.{UtxoId, UtxoId-discrete, UtxoEntry, PublicKey, Transaction, Message}
use redgold.Assoc.{get}
use redgold.Relay.{transaction_known}
use redgold.Requests.{Request, DownloadResponse, TransactionEntry, ObservationEntry, as_error_info}
use redgold.Download.{
  Services, query, downloaded, utxo_entry, transaction_entry, observation_entry,
  observation_edge_entry, download_utxos, download_transactions, download_observations,
  download_edges, download_msg, insert_utxos, insert_transactions, insert_observations,
  insert_edges, download_all, write, write_dropped, if_ok,
}

module _ {S : Type 0} (P : S → Type 0) where
  write-keeps : (x : Result S) (s : S) → P s → ((t : S) → x ≡ ok t → P t) → P (write x s).0
  write-keeps (ok t) s h k = k t refl
  write-keeps (err e) s h k = h
  write-keeps (panic m) s h k = h

  write_dropped-keeps :
      (x : Result S) (s : S) → P s → ((t : S) → x ≡ ok t → P t) → P (write_dropped x s).0
  write_dropped-keeps (ok t) s h k = k t refl
  write_dropped-keeps (err e) s h k = h
  write_dropped-keeps (panic m) s h k = h

  if_ok-keeps :
      {A : Type 0} (x : S × Result A) (rest : A → S → S × Result Bool) (got : Bool)
      → P x.0
      → ((a : A) (s : S) → P s → P (rest a s).0)
      → P (if_ok x rest got).0
  if_ok-keeps (s, ok a) rest got h k = k a s h
  if_ok-keeps (s, err e) rest got h k = h
  if_ok-keeps (s, panic m) rest got h k = h

  attempt-keeps :
      {A B : Type 0} (s : S) (r : Result A) (rest : A → S × Result B)
      → P s
      → ((a : A) → r ≡ ok a → P (rest a).0)
      → P (attempt s r rest).0
  attempt-keeps s (ok a) rest h k = k a refl
  attempt-keeps s (err e) rest h k = h
  attempt-keeps s (panic m) rest h k = h

module _ {S : Type 0} (env : Services S) where
  -- The writes that a download may make, each of which keeps `P`.
  pub record Permits (P : S → Type 0) : Type 0 where
    pub sends : (q : Request) (k : PublicKey) (s : S) → P s → P (env.send_message_sync q k s).0
    -- An output that no request holds.
    pub utxo :
        (u : UtxoEntry) (id : UtxoId) (s t : S)
        → u.utxo_id ≡ some id
        → is_some (get UtxoId-discrete id (env.relay s).utxo_channels) ≡ false
        → env.insert_utxo u s ≡ ok t
        → P s
        → P t
    -- A transaction that the node does not know.
    pub transaction :
        (tx : Transaction) (time : I64) (s t : S)
        → transaction_known
            (env.query_maybe_transaction s)
            (env.mempool_entries s)
            (env.relay s)
            (env.calculate_hash tx)
          ≡ ok false
        → env.insert_transaction tx time s ≡ ok t
        → P s
        → P t
    pub observation :
        (o : Transaction) (s t : S) → env.insert_observation_and_edges o s ≡ ok t → P s → P t
    pub edge : (m : Message) (s t : S) → env.insert_observation_edge m s ≡ ok t → P s → P t

module _ {S : Type 0} (env : Services S) (P : S → Type 0) (permits : Permits env P) where
  insert_utxos-keeps :
      (us : List UtxoEntry) (got : Bool) (s : S) → P s → P (insert_utxos env us got s).0
  unfolding insert_utxos
  insert_utxos-keeps [] got s h = h
  insert_utxos-keeps (u ∷ us) got s h = elim (Option-cases u.utxo_id) [
    | inl n ↦ rw (insert_utxos, n) (insert_utxos-keeps us got s h)
    | inr (id, e) ↦
        elim (Bool-cases (is_some (get UtxoId-discrete id (env.relay s).utxo_channels))) [
          | inl t ↦ rw (insert_utxos, e, t) (insert_utxos-keeps us true s h)
          | inr f ↦
              rw (insert_utxos, e, f)
                (after-keeps P (write_dropped (env.insert_utxo u s) s)
                  (λ t done. insert_utxos env us true t)
                  (write_dropped-keeps P (env.insert_utxo u s) s h
                    λ t w. permits.utxo u id s t e f w h)
                  λ t done k. insert_utxos-keeps us true t k)
        ]
  ]

  insert_transactions-keeps :
      (xs : List TransactionEntry) (got : Bool) (s : S)
      → P s
      → P (insert_transactions env xs got s).0
  unfolding insert_transactions
  insert_transactions-keeps [] got s h = h
  insert_transactions-keeps (x ∷ xs) got s h = elim (Option-cases x.transaction) [
    | inl n ↦ rw (insert_transactions, n) (insert_transactions-keeps xs got s h)
    | inr (tx, e) ↦ elim (Result-cases (known tx)) [
      | inl (true, k) ↦ rw (insert_transactions, e, k) (insert_transactions-keeps xs true s h)
      | inl (false, k) ↦
          rw (insert_transactions, e, k)
            (after-keeps P (write (env.insert_transaction tx x.time s) s)
              (λ t done. insert_transactions env xs true t)
              (write-keeps P (env.insert_transaction tx x.time s) s h
                λ t w. permits.transaction tx x.time s t k w h)
              λ t done l. insert_transactions-keeps xs true t l)
      | inr (inl (i, k)) ↦ rw (insert_transactions, e, k) h
      | inr (inr (m, k)) ↦ rw (insert_transactions, e, k) h
    ]
  ]
    where
      known : Transaction → Result Bool
      known tx =
          transaction_known (env.query_maybe_transaction s) (env.mempool_entries s) (env.relay s)
            (env.calculate_hash tx)

  insert_observations-keeps :
      (xs : List ObservationEntry) (got : Bool) (s : S)
      → P s
      → P (insert_observations env xs got s).0
  unfolding insert_observations
  insert_observations-keeps [] got s h = h
  insert_observations-keeps (x ∷ xs) got s h = elim (Option-cases x.observation) [
    | inl n ↦ rw (insert_observations, n) (insert_observations-keeps xs true s h)
    | inr (o, e) ↦
        rw (insert_observations, e)
          (after-keeps P (write_dropped (env.insert_observation_and_edges o s) s)
            (λ t done. insert_observations env xs true t)
            (write_dropped-keeps P (env.insert_observation_and_edges o s) s h
              λ t w. permits.observation o s t w h)
            λ t done k. insert_observations-keeps xs true t k)
  ]

  insert_edges-keeps :
      (xs : List Message) (got : Bool) (s : S) → P s → P (insert_edges env xs got s).0
  unfolding insert_edges
  insert_edges-keeps [] got s h = h
  insert_edges-keeps (x ∷ xs) got s h =
      after-keeps P (write_dropped (env.insert_observation_edge x s) s)
        (λ t done. insert_edges env xs true t)
        (write_dropped-keeps P (env.insert_observation_edge x s) s h λ t w. permits.edge x s t w h)
        λ t done k. insert_edges-keeps xs true t k

  download_msg-keeps :
      (start end : I64) (kind : ℕ) (key : PublicKey) (s : S)
      → P s
      → P (download_msg env start end kind key s).0
  unfolding download_msg
  download_msg-keeps start end kind key s h =
      after-keeps P (env.send_message_sync (query start end kind) key s) (downloaded env)
        (permits.sends (query start end kind) key s h)
        λ t r k.
          attempt-keeps P t (as_error_info r)
            (λ fine. (t, safe_get_msg r.download_response "Missing download response")) k
            λ fine e. k

  kind-keeps :
      (start end : I64) (kind : ℕ) (key : PublicKey) (got : Bool)
      (insert : DownloadResponse → S → S × Result Bool)
      → ((r : DownloadResponse) (t : S) → P t → P (insert r t).0)
      → (s : S) → P s
      → P (if_ok (download_msg env start end kind key s) insert got).0
  kind-keeps start end kind key got insert k s h =
      if_ok-keeps P (download_msg env start end kind key s) insert got
        (download_msg-keeps start end kind key s h) k

  -- Whatever a peer sends, and wherever a download stops, it has written only outputs that no request held
  -- at that time, transactions that were unknown, and observations: what these writes keep, it keeps.
  pub download_all-keeps :
      (start end : I64) (key : PublicKey) (s : S) → P s → P (download_all env start end key s).0
  unfolding download_all
  download_all-keeps start end key s h =
      after-keeps P
        (after
          (after (download_utxos env start end key s) (download_transactions env start end key))
          (download_observations env start end key))
        (download_edges env start end key)
        (after-keeps P
          (after (download_utxos env start end key s) (download_transactions env start end key))
          (download_observations env start end key)
          (after-keeps P (download_utxos env start end key s)
            (download_transactions env start end key)
            (kind-keeps start end utxo_entry key false _
              (λ r. insert_utxos-keeps r.utxo_entries false) s h)
            λ t got.
              kind-keeps start end transaction_entry key got _
                (λ r. insert_transactions-keeps r.transactions got) t)
          λ t got.
            kind-keeps start end observation_entry key got _
              (λ r. insert_observations-keeps r.observations got) t)
        λ t got.
          kind-keeps start end observation_edge_entry key got _
            (λ r. insert_edges-keeps r.observation_edges got) t
