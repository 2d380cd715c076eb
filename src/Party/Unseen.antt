-- ===== src/Party/Unseen.antt =====
-- A transaction that no seed has accepted yet (src/multiparty/party_stream.rs).
use redgold.Prelude.{
  ◌≡◌, refl, ◌∙◌, List, [], ◌∷◌, ◌++◌, ok, panic, filter_map, ◌>>=◌, Result-cases, inl, inr,
}
use redgold.Structs.{PublicKey}
use redgold.Crypto.{Crypto}
use redgold.Party.{AddressEvent, internal, TransactionWithObservations, seed_time, div64, time}
use redgold.Party.Stream.{Party, PartyEvents, process_event, process_events}

time-unseen :
    (seeds : List PublicKey) (t : TransactionWithObservations)
    → filter_map (seed_time seeds) t.observations ≡ []
    → time seeds (internal t) ≡ panic "attempt to divide by zero"
unfolding time div64
time-unseen seeds t e = rw (time, e, div64) refl

module _ (c : Crypto) (y : Party) where
  process_events-append :
      (es fs : List AddressEvent) (p : PartyEvents c y)
      → process_events c y (es ++ fs) p ≡ (process_events c y es p >>= process_events c y fs)
  unfolding process_events
  process_events-append [] fs p = refl
  process_events-append (e ∷ es) fs p = elim (Result-cases (process_event c y e p)) [
    | inl (q, h) ↦ rw (h, process_events) (process_events-append es fs q)
    | inr (inl (i, h)) ↦ rw (h, process_events) refl
    | inr (inr (m, h)) ↦ rw (h, process_events) refl
  ]

  -- A redgold transaction that no seed has observed as accepted yet is not put aside as unconfirmed:
  -- once the party has got through the events before it, the run ends there in a panic of a division by
  -- zero, whatever would come after.
  pub process_events-unseen :
      (before after : List AddressEvent) (t : TransactionWithObservations) (p : PartyEvents c y)
      {q : PartyEvents c y}
      → process_events c y before p ≡ ok q
      → filter_map (seed_time y.seeds) t.observations ≡ []
      → process_events c y (before ++ internal t ∷ after) p ≡ panic "attempt to divide by zero"
  unfolding process_events process_event
  process_events-unseen before after t p h unseen =
      process_events-append before (internal t ∷ after) p
      ∙ rw (h, process_events, process_event, time-unseen y.seeds t unseen) refl
