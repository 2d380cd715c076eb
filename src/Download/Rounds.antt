-- ===== src/Download/Rounds.antt =====
-- src/data/download.rs: the genesis that the peers agree on, and the days backwards from now.
use redgold.Prelude.{
  ℕ, zero, suc, ◌+◌, Bool, true, false, ◌&&◌, Option, none, some, List, [], ◌∷◌, I64, sub64, add64,
  slt, filter_map, map?, or_else, Result, ok, err, panic, safe_get_msg, to_option, after, attempt,
  ltb, if◌then◌else◌,
}
use redgold.Structs.{Hash, Hash-discrete, PublicKey, Transaction}
use redgold.Transaction.{time_of}
use redgold.Assoc.{get, put}
use redgold.Requests.{Response, empty_request}
use redgold.Download.{Services, earliest_time, day, write, download_all}

-- `iter().min()` on times.
unfoldable pub least_time : List I64 → Option I64
least_time [] = none
least_time (a ∷ rest) = elim (least_time rest) [
  | none ↦ some a
  | some b ↦ some (if slt b a then b else a)
]

-- The fold over the answers: the count of a hash stays at 1, since the one before is stored again.
unfoldable pub tally :
    (Transaction → Hash)
    → List Transaction
    → List (Hash × (Transaction × ℕ))
    → List (Hash × (Transaction × ℕ))
tally hash [] acc = acc
tally hash (g ∷ gs) acc =
    let count = or_else (map? (λ (e : Transaction × ℕ). e.1) (get Hash-discrete (hash g) acc)) 1 in
    tally hash gs (put Hash-discrete (hash g) (g, count) acc)

-- `max_by` on the counts: the last of the greatest.
unfoldable pub max_count : Hash × (Transaction × ℕ) → List (Hash × (Transaction × ℕ)) → Transaction
max_count best [] = best.1.0
max_count best (e ∷ es) = max_count (if ltb e.1.1 best.1.1 then best else e) es

abbrev pub most_counted : List (Hash × (Transaction × ℕ)) → Option Transaction
most_counted [] = none
most_counted (e ∷ es) = some (max_count e es)

abbrev pub genesis_of : Result Response → Option Transaction
genesis_of (ok r) = r.genesis_response
genesis_of (err e) = none
genesis_of (panic m) = none

module _ {S : Type 0} (env : Services S) where
  -- The loop over the days backwards, on fuel; none is out of fuel.
  unfoldable pub download_days : ℕ → PublicKey → I64 → I64 → ℕ → S → S × Option (Result (Unit {0}))
  download_days zero key min_time cur_end no_data_count s = (s, none)
  download_days (suc n) key min_time cur_end no_data_count s =
      let (t, done) = download_all env (sub64 cur_end day) cur_end key s in
      elim (ltb no_data_count 3 && slt min_time cur_end) [
        | false ↦ (s, some (ok tt))
        | true ↦ elim done [
          | ok got_data ↦
              download_days n key min_time (sub64 cur_end day)
                (if got_data then 0 else no_data_count + 1) t
          | err e ↦ (t, some (err e))
          | panic m ↦ (t, some (panic m))
        ]
      ]

  -- The genesis that is taken over, and its time; nothing if there is one.
  abbrev pub take_genesis : Transaction → S → S × Result (Option I64)
  take_genesis gen_actual s = after (write (env.store_genesis gen_actual s) s) λ t done.
      attempt t (time_of gen_actual) λ g_time.
        attempt t (env.query_maybe_transaction t (env.calculate_hash gen_actual)) λ found.
          elim found [
            | some x ↦ (t, ok (some g_time))
            | none ↦
                after (write (env.insert_transaction gen_actual g_time t) t)
                  λ u stored. (u, ok (some g_time))
          ]

  unfoldable pub download_genesis : List PublicKey → S → S × Result (Option I64)
  download_genesis bootstrap_pks s = attempt s (env.get_genesis s) λ stored. elim stored [
    | some g ↦ (s, ok none)
    | none ↦
        after
          (env.broadcast_async bootstrap_pks (record empty_request { genesis_request = true }) s)
          λ t genesis.
            attempt t
              (safe_get_msg
                (most_counted
                  (env.iteration (tally env.calculate_hash (filter_map genesis_of genesis) [])))
                "No genesis response")
              λ gen_actual. take_genesis gen_actual t
  ]

  abbrev pub genesis_entries : PublicKey → Option I64 → S → S × Result Bool
  genesis_entries key none s = (s, ok false)
  genesis_entries key (some g_time) s = download_all env (sub64 g_time 1) (add64 g_time 1) key s

  abbrev pub days_after :
      ℕ → I64 → I64 → PublicKey → S × Result Bool → S × Option (Result (Unit {0}))
  days_after fuel start_time min_time bootstrap (t, ok got_data) =
      download_days fuel bootstrap min_time start_time 0 t
  days_after fuel start_time min_time bootstrap (t, err e) = (t, some (err e))
  days_after fuel start_time min_time bootstrap (t, panic m) = (t, some (panic m))

  abbrev pub download_from : ℕ → I64 → I64 → List PublicKey → S → S × Option (Result (Unit {0}))
  download_from fuel start_time min_time [] s = (s, some (panic "bootstrap"))
  download_from fuel start_time min_time (bootstrap ∷ others) s =
      days_after fuel start_time min_time bootstrap
        (after (download_genesis (bootstrap ∷ others) s) λ t g. genesis_entries bootstrap g t)

  unfoldable pub download : ℕ → I64 → List PublicKey → S → S × Option (Result (Unit {0}))
  download fuel start_time bootstrap_pks s = elim (env.query_recent_transactions s) [
    | err e ↦ (s, some (err e))
    | panic m ↦ (s, some (panic m))
    | ok recent ↦
        download_from fuel start_time
          (or_else (least_time (filter_map (λ t. to_option (time_of t)) recent)) earliest_time)
          bootstrap_pks s
  ]
