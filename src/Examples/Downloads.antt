-- ===== src/Examples/Downloads.antt =====
-- A node that gets one output and one day from another.
use redgold.Prelude.{
  ℕ, ◌≡◌, refl, sym, ap, ◌∙◌, subst, inl, inr, true, false, true≢false, Option, none, some, List,
  [], ◌∷◌, Elem, is_some, Result, ok, err, arith, ok-injective, error_info, ℕ_discrete,
}
use redgold.Structs.{UtxoId, UtxoId-discrete, Hash-discrete, UtxoEntry}
use redgold.Proofs.{digest}
use redgold.Assoc.{get}
use redgold.Process.{Relay}
use redgold.Requests.{DownloadRequest, empty_success}
use redgold.Download.{Services, download_all, utxo_entry}
use redgold.Download.Writes.{Permits, download_all-keeps}
use redgold.Download.Ends.{EndsBy, download_days-ends}
use redgold.Download.Answers.{IsAnswer, process_download_request, process_download_request-IsAnswer}
use redgold.Examples.Funds.{toy}
use redgold.Examples.Parties.{anna}

abbrev coin : ℕ → UtxoId
coin i = record { transaction_hash = none; output_index = i }

abbrev entry : ℕ → UtxoEntry
entry i = record { utxo_id = some (coin i); output = none; time = 0 }

-- A request holds coin 1.
abbrev holding : Relay
holding = record { utxo_channels = (coin 1, []) ∷ []; transaction_channels = []; sent = [] }

abbrev add_coin : List UtxoId → Option UtxoId → Result (List UtxoId)
add_coin s none = err (error_info "no id")
add_coin s (some id) = ok (id ∷ s)

-- The peer offers coins 1 and 2; the store is the list of the coins in it.
abbrev site : Services (List UtxoId)
site = record {
  relay = λ s. holding;
  mempool_entries = λ s. [];
  query_maybe_transaction = λ s h. ok none;
  calculate_hash = λ t. digest toy [];
  send_message_sync = λ q k s. (
    s,
    ok (record empty_success {
      download_response = some (record {
        utxo_entries = entry 1 ∷ entry 2 ∷ [];
        transactions = [];
        observations = [];
        observation_edges = [];
        complete_response = true;
      });
    }),
  );
  broadcast_async = λ ks q s. (s, ok []);
  insert_utxo = λ u s. add_coin s u.utxo_id;
  insert_transaction = λ t i s. ok s;
  insert_observation_and_edges = λ o s. ok s;
  insert_observation_edge = λ m s. ok s;
  get_genesis = λ s. ok none;
  store_genesis = λ t s. ok s;
  query_recent_transactions = λ s. ok [];
  utxo_filter_time = λ s a b. ok (entry 2 ∷ []);
  query_time_transaction = λ s a b. ok [];
  query_time_observation = λ s a b. ok [];
  query_time_observation_edge = λ s a b. ok [];
  iteration = λ m. m;
}

abbrev Free : List UtxoId → Type 0
Free s = ¬ (Elem (coin 1) s)

held : is_some (get UtxoId-discrete (coin 1) holding.utxo_channels) ≡ true
unfolding get UtxoId-discrete Hash-discrete ℕ_discrete
held = refl

add_coin-Free :
    (id : UtxoId) (s t : List UtxoId)
    → is_some (get UtxoId-discrete id holding.utxo_channels) ≡ false
    → ok (id ∷ s) ≡ ok t
    → Free s
    → Free t
add_coin-Free id s t f e h = subst Free (ok-injective e) λ m. elim m [
  | inl same ↦
      true≢false
        (sym held ∙ ap (λ u. is_some (get UtxoId-discrete u holding.utxo_channels)) same ∙ f)
  | inr old ↦ h old
]

permits : Permits site Free
permits = record {
  sends = λ q k s h. h;
  utxo = λ u id s t eu f e h. add_coin-Free id s t f (sym (ap (add_coin s) eu) ∙ e) h;
  transaction = λ tx time s t k e h. subst Free (ok-injective e) h;
  observation = λ o s t e h. subst Free (ok-injective e) h;
  edge = λ m s t e h. subst Free (ok-injective e) h;
}

download_all-keeps_example : Free (download_all site 0 5 anna []).0
download_all-keeps_example = download_all-keeps site Free permits 0 5 anna [] (λ m. m)

-- Five days are enough for four.
download_days-ends_example : EndsBy site 5 anna 0 345600000 0 []
download_days-ends_example =
    download_days-ends site 4 anna 0 345600000 0 [] (omega arith) (omega arith) (omega arith)

abbrev question : DownloadRequest
question = record { start_time = 1; end_time = 2; data_type = utxo_entry; offset = none }

process_download_request-IsAnswer_example : IsAnswer site question [] (record {
  utxo_entries = entry 2 ∷ [];
  transactions = [];
  observations = [];
  observation_edges = [];
  complete_response = true;
})
unfolding process_download_request
process_download_request-IsAnswer_example =
    process_download_request-IsAnswer site question [] _ refl
