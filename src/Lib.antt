-- ===== src/Lib.antt =====
-- Redgold's transactions, from the amounts they carry to the locks of the node that processes them.
--
-- The parts. A client builds a transaction with `TransactionBuilder` out of entries that it owns,
-- and signs it. A node checks it alone (`prevalidate`), takes locks on the outputs that it spends,
-- resolves the parents of its inputs from its store or from peers, compares the balance, and
-- settles conflicts with the other requests that hold the same outputs. Observations are gathered
-- in Merkle trees. The nodes of a party answer signed requests to make and use a shared key. A
-- node that starts downloads the history by days. The party that holds the bitcoin side folds the
-- transactions of its address into balances, orders and a price curve.
--
-- Which file models what (paths from the repository's root):
--   Structs       schema/src/proto/structs.proto, the messages with the fields that are read
--   Output        schema/src/output.rs
--   Transaction   schema/src/transaction.rs, schema/src/utxo_entry.rs; Totals: its sums are 64-bit words
--   Crypto        the digests, the curve and the encoding of a transaction, as a parameter
--   Proofs        keys/src/proof_support.rs, schema/src/{proof,address,hash}.rs; Unlock: addresses
--   Hashing       schema/src/{transaction,lib}.rs, keys/src/transaction_support.rs (sign); Signing
--   Validate      keys/src/transaction_support.rs (prevalidate); Accepts
--   Merkle        schema/src/util/merkle.rs, schema/src/merkle_proof.rs; Verify, Build, Complete
--   RgMerkle      src/util/rg_merkle.rs; Verify, Root
--   UtxoIds       schema/src/transaction.rs (UtxoId), schema/src/utxo_id.rs, xor_distance.rs; RoundTrip
--   Builder       src/core/transact/tx_builder_supports.rs; Balance
--   Resolver      src/core/resolver.rs; Accounting, Liveness
--   Process       src/core/process_transaction.rs: locks and conflicts; Handler: the handler in its stages;
--                 System: interleavings of requests; Locks, Winner, Exclusion, Persist, Duplicate, Stale
--   Relay         src/core/relay.rs (known transactions); Limits: the rate limit of the faucet; Known;
--                 Votes: trust, and what peers say of an output; Identity: the node's own transactions
--   Requests      keys/src/request_support.rs, schema/src/{lib,response}.rs: signed requests; Auth
--   Peers         src/core/peer_rx_event_handler.rs; Handle: the response to a request; Gate
--   Multiparty    schema/src/multiparty.rs, src/core/relay.rs (authorizations); Rooms:
--                 src/multiparty/gg20_sm_manager.rs (verify_message); Rounds, Signing:
--                 src/multiparty/initiate_mp.rs; Members, Revoked, Quorum
--   Download      src/data/download.rs; Rounds: genesis and days, Answers; Writes, Ends
--   Mempool       src/core/mempool.rs; Order: the heap, Drain: the sends, Mirror: the relay's map
--   Contention    src/core/transact/contention_conflicts.rs, src/core/contract/contract_state_manager.rs;
--                 the managers of contended keys; Interval: the tick of the contract state manager;
--                 Winners, Steps, Answers, Lone
--   Market        src/multiparty/watcher.rs (PriceVolume, BidAsk, fulfill_taker_order); Quotes: the curves
--                 around a price; Volumes, Units: the units that a new curve hands out
--   Observations  schema/src/observation.rs, schema/src/transaction.rs (observations); Buffer:
--                 src/core/observation.rs; Proven, Signed, Chain
--   Party         src/multiparty/party_stream.rs, keys/src/transaction_support.rs (amounts for the party);
--                 Stream: the fold over events; Orders; Balances, Pending, Open, Unseen
--   Watcher       src/multiparty/watcher.rs (DepositWatcher): the payments of a tick; Interval: the tick;
--                 Payments
--   Base26        src/util/base26.rs; Value
--   Prelude       names of the libraries, 64-bit words, results with errors and panics, tests, lists
--   Assoc         maps as association lists
--   Examples      runs of the code on small inputs
--
-- How it is modelled. An `i64` or `u64` is its bit pattern, and sums and differences wrap around modulo
-- 2 ^ 64 as in a release build. An error, and a panic (`expect`, `unwrap`, an index out of bounds, a
-- failed assertion), are values of `Result`. Code that changes a value returns the changed value; the
-- maps and channels that requests share are one state, `Relay`, with the messages in the order in which
-- they are sent. Text is its bytes, an error's message is its fixed part. Floating point, digests,
-- elliptic curves, the protobuf encoding, the data store and the peers' answers are parameters.
--
-- Fuel. The loop of `build_root` (Merkle) gets as many rounds as there are leafs, and one more, which is
-- enough since a round halves the list; the loop of `proof` gets one more than there are entries, which
-- is enough on a tree without hash cycles. The digits of a carry in Base26 get three rounds: a carry is
-- below 256. The loop of the mempool's sends gets one round more than there are entries, and each round takes one. The loops
-- of RgMerkle take their fuel as an argument, and so does the loop over days in Download: one more than
-- the days between now and the latest transaction is enough.
--
-- Not modelled: the API, the SQL store, the user interface, deployment, the GG20 protocol and its rooms,
-- wallets and executors, which are input and output or wrap other libraries; the startup of the
-- observation buffer, the discovery of peers, and the first key generation of the deposit watcher.
pub mod Prelude
pub mod Structs
pub mod Output
pub mod Crypto
pub mod Transaction
pub mod Proofs
pub mod Hashing
pub mod Merkle
pub mod Validate
pub mod Assoc
pub mod Process
pub mod Relay
pub mod Requests
pub mod Multiparty
pub mod Peers
pub mod Download
pub mod Mempool
pub mod Contention
pub mod Market
pub mod Observations
pub mod Party
pub mod Watcher
pub mod Base26
pub mod Resolver
pub mod RgMerkle
pub mod UtxoIds
pub mod Builder
pub mod Examples
