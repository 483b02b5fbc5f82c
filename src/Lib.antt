-- ===== src/Lib.antt =====
-- Verification of ethgas-reth: an Ethereum node on reth that follows flashblocks, the partial
-- blocks that builders stream, serves pending state from them, and validates the blocks that
-- builders submit to a relay.
--
-- The parts and how they interact. The subscription hands every flashblock that it decodes to
-- `FlashblocksState` (State/Receiver), which keeps the inclusion fee, refuses what the chain has
-- overtaken and queues the rest. Canonical blocks go to the same queue, after the snapshot that
-- they leave behind has been dropped (State/Node). `StateProcessor::start` takes one update at a
-- time (Processor/Queue): a flashblock is placed after the pending state by the sequence rule
-- (Validation), or cached until its block's turn (Cache); a canonical block is compared with the
-- snapshot, which then stays, is dropped, or is built again (Processor/Canonical). Building groups
-- the flashblocks by block, assembles each block (Assembler), runs its transactions or takes them
-- from the snapshot before (Processor/Transactions), and collects all in a `PendingBlocks`
-- (Pending), which is published to readers and broadcast to subscribers. The node's RPC answers
-- from what is published: the `pending` tag is the snapshot's bundle over the state of its anchor
-- (Runner), the eth methods join the snapshot to what reth answers (Rpc/Eth), and subscriptions
-- stream each snapshot's news (Rpc/PubSub). Apart from these, the simulator checks submitted
-- blocks (Simulator).
--
-- Which file models which source, under crates/execution/flashblocks/src unless said otherwise:
--   Payload       payload.rs         the types of a flashblock
--   Error         error.rs           the error types
--   Validation    validation.rs      sequence, reorg, oracle and reconciliation rules
--   Cache         cache.rs           `FlashblockCache`: two hash maps as association lists
--   Fee           fee.rs             the builder's inclusion fee; durations are nanoseconds
--   Pending       pending_blocks.rs  `PendingBlocksBuilder` and `PendingBlocks`; Pending/Api is
--                                    the `PendingBlocksAPI` of traits.rs on what is published
--   Assembler     block_assembler.rs `BlockAssembler::assemble` and `requests_hash`
--   Processor     processor.rs       the loop, both handlers, and the building of pending state
--   Subscription  subscription.rs    Wire decodes messages, Connection is the loop over turns of a
--                                    connection, with its pings and the backoff
--   State         state.rs           `FlashblocksState`, and the node that joins it to the loop
--   Rpc/Eth       rpc/eth.rs         every method; Rpc/Views and Rpc/Logs hold its theorems, and
--                                    Rpc/Sync is `send_raw_transaction_sync`
--   Rpc/Fees      rpc/ethgas.rs      the fees served from the builder's
--   Rpc/PubSub    rpc/pubsub.rs, rpc/types.rs: the slots of a connection; Latest is
--                 `pipe_latest`, access by access, Streams the streams and `pipe_from_stream`
-- and under crates/execution:
--   Runner/Provider        runner/src/pending_provider.rs; Layering is the state that it stands for
--   Runner/Overlay         runner/src/pending_state.rs and flashblocks-node/src/pending_state.rs
--   Runner/Pending         runner/src/eth_api.rs: what the `pending` tag resolves to
-- and under crates/execution/simulator/src:
--   Simulator/Multisend    payment.rs: the batches of a Safe and the calls of the forwarder
--   Simulator/Types        validation/error.rs, and what validation/mod.rs reads of a block
--   Simulator/Header, Disallowed, Constraint, Payment
--                          the single checks of validation/mod.rs
--   Simulator/Submission   `validate_message_against_block`, which joins them, and its cache
--   Simulator/Relay        the RPC methods of validation/mod.rs, from a request to a block and its
--                          verdict, and the codes of validation/error.rs
--   Simulator/Blacklist    blacklist.rs, and the task of validation/mod.rs that fetches the list
--   Simulator/Inclusion    inclusion/inclusion_producer.rs
-- Base, Types, Fallible, World and Samples are shared: helpers on lists and maps, the chain's
-- types, results of fallible calls, the parameters, and the data of the tests.
--
-- How it is modelled. A function that changes `&mut self` takes the record of its state and
-- returns the changed one; a result is a sum with the source's errors. A snapshot that is
-- shared by `Arc` carries an address, which `Arc::ptr_eq` compares. What other tasks change,
-- such as the tip of the chain or the disallow list, is read more than once in one turn and may
-- move in between, so every read is an argument of its own; a check of addresses takes an
-- answer for each of its queries. What tasks that run side by side bring is a list of events in
-- any order: the three branches of a wait for a confirmation, and the accesses of the tasks of
-- a connection to its total and its buffer, one at a time. Hashes, addresses and U256 words are
-- numbers. U256 addition keeps its wrap at 2 ^ 256, and what the source writes with
-- `saturating_sub` or `saturating_add` is written out.
--
-- Parameters. revm, the provider, the chain's rules, receipt conversion, sender recovery, block
-- hashing, the codecs, the streams and the arithmetic of floats are not in the repository: they
-- are the fields of records, `Evm` in World and `Abi`, `Codec`, `PostBlock`, `Engine` and
-- `Floats` in Simulator and `Decoders` in Subscription, `Trie` and `StateProvider` in
-- Runner/Provider, `Node` in Runner/Pending, `Payloads` in Simulator/Relay, `EthApi` in Rpc/Eth
-- and `FeeApi` in Rpc/Fees, which the definitions take. What reth documents of its tries is the
-- record `Commitment` of Runner/Layering, which the theorems take. The tests give an instance
-- of each.
--
-- Bounds and fuel. The loops over flashblocks and transactions recurse on their lists. The entries
-- of a batch are read with one round for each byte of it and one more, which is enough, since an
-- entry takes 85 bytes at least.
--
-- Not modelled: the simulator's RPC for inclusion lists, the registered gas limit, which the
-- code does not read, metrics.rs and the tracing calls, the calls that eth_api.rs only hands on
-- to reth, the node builder and command line (crates/execution/runner, bin/node), which wire
-- libraries together, and test code. In rpc/pubsub.rs the counters of opened subscriptions are
-- left out. Senders are recovered in order, not on several threads, so which one of several
-- failures is reported may differ.
pub mod Base
pub mod Fallible
pub mod Types
pub mod Payload
pub mod Validation
pub mod Cache
pub mod Fee
pub mod Error
pub mod Pending
pub mod World
pub mod Assembler
pub mod Processor
pub mod State
pub mod Subscription
pub mod Runner
pub mod Rpc
pub mod Simulator
pub mod Samples
