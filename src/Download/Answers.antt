-- ===== src/Download/Answers.antt =====
-- src/data/download.rs: what a node answers to a request for data.
use redgold.Prelude.{
  Bool, true, false, List, [], ◌≡◌, sym, subst, Result, ok, ◌>>=◌, >>=-eq-ok, ok-injective, ◌==◌,
}
use redgold.Requests.{DownloadRequest, DownloadResponse}
use redgold.Download.{
  Services, utxo_entry, transaction_entry, observation_entry, observation_edge_entry,
}

-- `if .. { vec![] } else { .. }`.
abbrev pub only : {A : Type 0} → Bool → Result (List A) → Result (List A)
only true r = r
only false r = ok []

-- What a field of the answer is: what the store finds, if it is asked for, and nothing otherwise.
abbrev pub Answers : {A : Type 0} → Bool → Result (List A) → List A → Type 0
Answers true found xs = found ≡ ok xs
Answers false found xs = xs ≡ []

only-Answers :
    {A : Type 0} (asked : Bool) (found : Result (List A)) (xs : List A)
    → only asked found ≡ ok xs
    → Answers asked found xs
only-Answers true found xs e = e
only-Answers false found xs e = sym (ok-injective e)

module _ {S : Type 0} (env : Services S) where
  unfoldable pub process_download_request : DownloadRequest → S → Result DownloadResponse
  process_download_request q s = do
    utxo_entries ← only (q.data_type == utxo_entry) (env.utxo_filter_time s q.start_time q.end_time)
    transactions ←
        only (q.data_type == transaction_entry)
          (env.query_time_transaction s q.start_time q.end_time)
    observations ←
        only (q.data_type == observation_entry)
          (env.query_time_observation s q.start_time q.end_time)
    observation_edges ←
        only (q.data_type == observation_edge_entry)
          (env.query_time_observation_edge s q.start_time q.end_time)
    ok (record {
      utxo_entries = utxo_entries;
      transactions = transactions;
      observations = observations;
      observation_edges = observation_edges;
      complete_response = true;
    })

  -- The four fields of an answer.
  abbrev pub IsAnswer : DownloadRequest → S → DownloadResponse → Type 0
  IsAnswer q s r =
      Answers (q.data_type == utxo_entry) (env.utxo_filter_time s q.start_time q.end_time)
        r.utxo_entries
      × Answers (q.data_type == transaction_entry)
          (env.query_time_transaction s q.start_time q.end_time) r.transactions
      × Answers (q.data_type == observation_entry)
          (env.query_time_observation s q.start_time q.end_time) r.observations
      × Answers (q.data_type == observation_edge_entry)
          (env.query_time_observation_edge s q.start_time q.end_time) r.observation_edges

  -- A node answers a request for data with what its store finds in the time that is asked for, of the kind
  -- that is asked for, and with nothing of the other kinds.
  pub process_download_request-IsAnswer :
      (q : DownloadRequest) (s : S) (r : DownloadResponse)
      → process_download_request q s ≡ ok r
      → IsAnswer q s r
  unfolding process_download_request
  process_download_request-IsAnswer q s r e =
      let b1 = q.data_type == utxo_entry in
      let b2 = q.data_type == transaction_entry in
      let b3 = q.data_type == observation_entry in
      let b4 = q.data_type == observation_edge_entry in
      let x1 = env.utxo_filter_time s q.start_time q.end_time in
      let x2 = env.query_time_transaction s q.start_time q.end_time in
      let x3 = env.query_time_observation s q.start_time q.end_time in
      let x4 = env.query_time_observation_edge s q.start_time q.end_time in
      let (us, eu, f1) = >>=-eq-ok (only b1 x1) _ e in
      let (ts, et, f2) = >>=-eq-ok (only b2 x2) _ f1 in
      let (os, eo, f3) = >>=-eq-ok (only b3 x3) _ f2 in
      let (es, ee, f4) = >>=-eq-ok (only b4 x4) _ f3 in
      subst (IsAnswer q s) (ok-injective f4) (
        only-Answers b1 x1 us eu,
        only-Answers b2 x2 ts et,
        only-Answers b3 x3 os eo,
        only-Answers b4 x4 es ee,
      )
