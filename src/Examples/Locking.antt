-- ===== src/Examples/Locking.antt =====
-- Two requests for the same outputs.
use redgold.Prelude.{ℕ, ℕ_discrete, ◌≡◌, refl, inl, inr, false, none, some, [], ◌∷◌, Elem, or_else}
use redgold.Structs.{Bytes, UtxoId, UtxoId-discrete, Hash-discrete, Transaction}
use redgold.Proofs.{Bytes-discrete, new_hash}
use redgold.Assoc.{get}
use redgold.Process.{
  settle, Conflict, Acquired, acquire, clean_utxo, resolve_conflict, least_hash, bytes_lt,
}
use redgold.Process.Locks.{holders, clean_utxo-acquire}
use redgold.Process.Exclusion.{settle_excludes}

abbrev blank : Transaction
blank = record { inputs = []; outputs = []; struct_metadata = none; options = none }

abbrev pub request : ℕ → Conflict
request n = record {
  transaction_hash = new_hash (n ∷ []);
  abort = false;
  processing_start_time = 0;
  request_processer = record {
    request_id = n;
    transaction_hash = new_hash (n ∷ []);
    transaction = blank;
  };
}

abbrev pub coin : ℕ → UtxoId
coin n = record { transaction_hash = some (new_hash (9 ∷ [])); output_index = n }

-- Request 1 holds output 0.
abbrev pub held : Acquired
held = record {
  relay = record {
    utxo_channels = (coin 0, request 1 ∷ []) ∷ [];
    transaction_channels = [];
    sent = [];
  };
  conflict_detected = false;
  conflicts = [];
}

clean_utxo-acquire_example :
    (Elem (coin 0) (coin 0 ∷ coin 3 ∷ [])
      → holders
          (clean_utxo 2
            (coin 0 ∷ coin 3 ∷ [])
            (acquire (request 2) (coin 0 ∷ coin 3 ∷ []) held).relay)
          (coin 0)
        ≡ some (or_else (holders held.relay (coin 0)) []))
    × (¬ (Elem (coin 0) (coin 0 ∷ coin 3 ∷ []))
        → holders
            (clean_utxo 2
              (coin 0 ∷ coin 3 ∷ [])
              (acquire (request 2) (coin 0 ∷ coin 3 ∷ []) held).relay)
            (coin 0)
          ≡ holders held.relay (coin 0))
unfolding get UtxoId-discrete Hash-discrete
clean_utxo-acquire_example =
    clean_utxo-acquire (request 2) (coin 0 ∷ coin 3 ∷ []) held (coin 0)
      ((λ m. elim m [ inl e ↦ cc | inr k ↦ k ]), ((λ m. m), tt)) (refl, tt)

-- Request 1 against request 2, which was noted once and twice.
settle_excludes_example : ◌≡◌ {A = Bytes} (1 ∷ []) (1 ∷ [])
unfolding settle resolve_conflict least_hash bytes_lt Bytes-discrete ℕ_discrete
settle_excludes_example =
    settle_excludes (request 1) (request 1) (request 2 ∷ []) (request 2 ∷ request 2 ∷ []) held.relay
      held.relay (λ e. cc) (λ e. cc) more fewer refl refl
  where
    more :
        (x : Bytes)
        → Elem x ((2 ∷ []) ∷ (1 ∷ []) ∷ [])
        → Elem x ((2 ∷ []) ∷ (2 ∷ []) ∷ (1 ∷ []) ∷ [])
    more x (inl e) = inl e
    more x (inr k) = inr (inr k)

    fewer :
        (x : Bytes)
        → Elem x ((2 ∷ []) ∷ (2 ∷ []) ∷ (1 ∷ []) ∷ [])
        → Elem x ((2 ∷ []) ∷ (1 ∷ []) ∷ [])
    fewer x (inl e) = inl e
    fewer x (inr (inl e)) = inl e
    fewer x (inr (inr k)) = inr k
