-- ===== src/Contention/Winners.antt =====
-- Who is told what when several transactions register for one key
-- (src/core/transact/contention_conflicts.rs).
use redgold.Prelude.{◌≡◌, ◌≢◌, refl, true, Option, none, some, List, [], ◌∷◌, I64, ok, fails→test}
use redgold.Structs.{Hash, Hash-discrete, ContentionKey, ContentionKey-discrete}
use redgold.Assoc.{get, put, get-put_self}
use redgold.Contention.{
  ContentionConflictManager, register_at, process_message, register_potential_contention, undecided,
}

-- The hashes that are registered for a key, with their times.
abbrev pub registered : ContentionConflictManager → ContentionKey → Option (List (Hash × I64))
registered m key = get ContentionKey-discrete key m.contentions

first :
    (m : ContentionConflictManager) (key : ContentionKey) (h : Hash) (t : I64)
    → registered m key ≡ none
    → (registered (process_message t key (register_potential_contention h) m).0 key
        ≡ some ((h, t) ∷ []))
      × ((process_message t key (register_potential_contention h) m).1 ≡ ok undecided)
unfolding process_message register_at
first m key h t e =
    rw (e, process_message)
      (get-put_self ContentionKey-discrete key ((h, t) ∷ []) m.contentions, refl)

next :
    (m : ContentionConflictManager) (key : ContentionKey) (k : Hash) (u : I64)
    (hs : List (Hash × I64))
    → registered m key ≡ some hs
    → get Hash-discrete k hs ≡ none
    → (registered (process_message u key (register_potential_contention k) m).0 key
        ≡ some (put Hash-discrete k u hs))
      × ((process_message u key (register_potential_contention k) m).1
          ≡ ok (record { winner = some k; no_contest = true; proofs = [] }))
unfolding process_message register_at
next m key k u hs e n =
    rw (e, process_message, register_at, n)
      (get-put_self ContentionKey-discrete key (put Hash-discrete k u hs) m.contentions, refl)

unknown : (h k : Hash) (t : I64) → h ≢ k → get Hash-discrete k ((h, t) ∷ []) ≡ none
unfolding get
unknown h k t n = rw (fails→test (Hash-discrete h k) n)

-- Of two transactions that register for a key in turn, the first is told nothing, and the second that
-- it has won uncontested; both are registered.
pub process_message_twice :
    (m : ContentionConflictManager) (key : ContentionKey) (h k : Hash) (t u : I64)
    → registered m key ≡ none
    → h ≢ k
    → ((process_message t key (register_potential_contention h) m).1 ≡ ok undecided)
      × ((process_message u key
            (register_potential_contention k)
            (process_message t key (register_potential_contention h) m).0).1
          ≡ ok (record { winner = some k; no_contest = true; proofs = [] }))
      × (registered
            (process_message u key
              (register_potential_contention k)
              (process_message t key (register_potential_contention h) m).0).0
            key
          ≡ some (put Hash-discrete k u ((h, t) ∷ [])))
process_message_twice m key h k t u e n =
    let (known, told) = first m key h t e in
    let (both, won) = next _ key k u _ known (unknown h k t n) in (told, won, both)
