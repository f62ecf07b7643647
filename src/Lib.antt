-- ===== src/Lib.antt =====
-- A verification library for dyl, a small proof-of-stake chain in Go: a ledger with bonds and
-- rewards, blocks sealed by their proposers, a Merkle tree per block, stake-weighted election of
-- proposers, one-step voting and the live view that a server shows.
--
-- The parts and how they meet. A transaction enters through `Submit` into the shared queue. At each
-- height every node asks its election for the proposer; the proposer drains the queue, keeps what
-- applies, seals a block and broadcasts it. Nodes check the block against their chain, vote for its
-- hash, and commit it once the votes weigh more than two thirds of the stake. Committing replays
-- the block on the ledger, pays the reward, and updates the live view.
--
-- Files, with the code that each models:
--   Base         lists, options, results, and Go's integers: `uint64` wraps at 2^64, `int64` is `ℤ`
--   Bytes, Dict  byte strings, and Go maps with string keys as association lists
--   Address      chain/address.go, with encoding/hex
--   Coin         chain/coin.go
--   Transaction  chain/transaction.go, the record and `signableBytes`
--   Merkle       chain/transaction.go, `merkleRoot`, `merkleProof`, `verifyMerkleProof`
--   Crypto       the parameters: SHA-256, ed25519 and the JSON encodings under a hash
--   Block, Seal  chain/block.go
--   State        chain/state.go, `applyTx` and `Supply`; State/Accounts says what they mean
--   Reward       chain/state.go, `distributeReward` and `mulDiv`
--   Ledger       chain/state.go, `Apply` and `ReplayBlocks`
--   Chain        chain/chain.go
--   Mempool      chain/mempool.go
--   Validators   chain/validator.go
--   Election     chain/proposer.go, with one list of members for the five slices
--   Vote         chain/evidence.go, and the votes of chain/consensus.go
--   Quorum       chain/consensus.go, the tally of `runHeight`, on a list of votes
--   Proposal     chain/consensus.go, `propose` and `applicable`
--   Node         chain/consensus.go, `observe` and the start of a height in `run`
--   Round        chain/consensus.go, `waitFor` and `runHeight`
--   Cluster      chain/cluster.go, the live view, `seedLiveView` and `Submit`
--   Network      chain/cluster.go, the cluster as the server holds it: `Snapshot`, `Evidence`, faults;
--                Network/Build is `buildCluster`
--   Inclusion    chain/block.go and chain/cluster.go, `InclusionProof`
--   Limits       cmd/dyld/main.go, the token buckets
--   Server       cmd/dyld/main.go, the server's state, its wallets and its handlers
--   BlockLog     cmd/dyld/persist.go, the log of blocks
--   World        cmd/dylwasm/main.go, the world of a page
--   Tests        the theorems at concrete inputs
--
-- How state is written. A method that writes through a pointer returns the state that it leaves. A
-- Go error is a value of an error type; a panic is `none` of an `Option`. Locks, goroutines and
-- channels are not modelled: each method runs alone, and what a node receives is a list. A map is a
-- list of entries in the order in which Go goes through it, which is any order. Clocks are arguments.
--
-- Cryptography is an instance argument of type `Crypto`. What the code relies on is in
-- `CryptoLaws`: the length of digests and public keys, and that a signature verifies. That SHA-256
-- has no collisions is never assumed: a theorem that needs it returns the collision.
--
-- Fuel. `walk_tree` and `proof_path` of Merkle run on the length of the first layer; a layer's
-- length halves in each step. `gather` of Round runs on the number of messages that there are, and
-- takes one in each round. `digits` of Coin runs on 20, since a `uint64` has no more digits. All
-- other loops are by recursion on the list that they go through, or on the height.
--
-- The server. A handler takes the clock, a request and the server's state, and returns the state that
-- it leaves and a response. JSON, the parsing of numbers, floating point and the file system are
-- parameters (`Decoders`, `Floats`, `BlockJson`).
--
-- Not modelled: chain/generate.go (names and stakes drawn with floating point), the bus between nodes
-- and the pace of a run in chain/consensus.go and chain/cluster.go; in cmd/dyld the construction of
-- the server, its random background traffic, the frames of an event stream, static files and the file
-- of keys; in cmd/dylwasm the same and the bindings to JavaScript; web (another language).
pub mod Base
pub mod Bytes
pub mod Dict
pub mod Address
pub mod Transaction
pub mod Block
pub mod Crypto
pub mod Merkle
pub mod State
pub mod Coin
pub mod Reward
pub mod Ledger
pub mod Seal
pub mod Chain
pub mod Mempool
pub mod Validators
pub mod Election
pub mod Vote
pub mod Quorum
pub mod Cluster
pub mod Proposal
pub mod Node
pub mod Inclusion
pub mod Round
pub mod Network
pub mod Limits
pub mod Server
pub mod World
pub mod BlockLog
mod Tests
