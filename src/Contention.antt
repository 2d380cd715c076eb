-- ===== src/Contention.antt =====
-- src/core/transact/contention_conflicts.rs and src/core/contract/contract_state_manager.rs: the two
-- managers that order requests on a contention key. A response channel is its number; the time, read
-- once, is an argument.

pub mod Winners
pub mod Interval
pub mod Steps
pub mod Answers
pub mod Lone
use redgold.Prelude.{
  ℕ, Bool, true, false, Option, none, some, List, [], ◌∷◌, ◌++◌, I64, Result, ok, err, error_info,
  ◌>>=◌, ◌>>◌, if◌then◌else◌, or_else,
}
use redgold.Structs.{
  Hash, Hash-discrete, ContentionKey, ContentionKey-discrete, Output, Transaction, Message,
}
use redgold.Output.{is_deploy, is_request, request_contention_key}
use redgold.Assoc.{get, put}

pub record ContentionResult : Type 0 where
  pub winner : Option Hash
  pub no_contest : Bool
  pub proofs : List Message

pub data ContentionMessageInner : Type 0 where
  register_potential_contention : Hash → ContentionMessageInner
  observation_info : Message → ContentionMessageInner
  check_contention_accepted : Hash → ContentionMessageInner

-- `subscribers` and `proof_buffer` are never touched.
pub record ContentionConflictManager : Type 0 where
  pub contentions : List (ContentionKey × List (Hash × I64))

abbrev pub undecided : ContentionResult
undecided = record { winner = none; no_contest = false; proofs = [] }

unfoldable pub register_at :
    ContentionConflictManager
    → ContentionKey
    → Hash
    → I64
    → Option (List (Hash × I64))
    → ContentionConflictManager × Result ContentionResult
register_at m key h time none = (
  record { contentions = put ContentionKey-discrete key ((h, time) ∷ []) m.contentions },
  ok undecided,
)
register_at m key h time (some known) = elim (get Hash-discrete h known) [
  | some ts ↦ (m, err (error_info "Duplicate contention, hash already registered at time"))
  | none ↦ (
    record {
      contentions = put ContentionKey-discrete key (put Hash-discrete h time known) m.contentions;
    },
    ok (record { winner = some h; no_contest = true; proofs = [] }),
  )
]

unfoldable pub process_message :
    I64
    → ContentionKey
    → ContentionMessageInner
    → ContentionConflictManager
    → ContentionConflictManager × Result ContentionResult
process_message time key (register_potential_contention h) m =
    register_at m key h time (get ContentionKey-discrete key m.contentions)
process_message time key (observation_info o) m = (m, ok undecided)
process_message time key (check_contention_accepted h) m = (m, ok undecided)

pub record ContractStateManager : Type 0 where
  pub unordered : List (ContentionKey × List (Transaction × I64))
  pub subscribers : List (ContentionKey × List ℕ)

-- `if let Some(vec) = map.get_mut(k) { vec.push(v) } else { map.insert(k, vec![v]) }`
abbrev pub push_at :
    {V : Type 0} → ContentionKey → V → List (ContentionKey × List V) → List (ContentionKey × List V)
push_at k v m =
    put ContentionKey-discrete k (or_else (get ContentionKey-discrete k m) [] ++ v ∷ []) m

unfoldable pub process_tx :
    I64 → Transaction → Output → ℕ → ContractStateManager → Result ContractStateManager
process_tx now tx output response m = do
  (if is_deploy output then err (error_info "Deploy transactions not supported") else ok tt)
  (if is_request output
      then ok tt
      else err (error_info "Non-request transaction outputs not supported"))
  key ← request_contention_key output
  ok (record {
    unordered = push_at key (tx, now) m.unordered;
    subscribers = push_at key response m.subscribers;
  })
