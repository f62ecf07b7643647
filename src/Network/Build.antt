-- ===== src/Network/Build.antt =====
-- `buildCluster` of chain/cluster.go: a cluster made of a list of blocks, each node with its own copy
-- of the chain.
use dylchain.Base.{ℕ, false, Option, none, some, List, [], ◌∷◌, set, Result, ok, err, ◌>>=◌}
use dylchain.Base.Int.{ℤ, pos}
use dylchain.Dict.{Dict, insert}
use dylchain.Crypto.{Crypto}
use dylchain.Block.{Block}
use dylchain.Seal.{genesis_block}
use dylchain.Validators.{Validator, ValidatorSet}
use dylchain.Election.{new_election, sync_delegations}
use dylchain.Mempool.{Mempool, new_mempool}
use dylchain.Ledger.{BlockError}
use dylchain.Chain.{Chain, ChainError, new_chain_from_genesis, commit_block}
use dylchain.Cluster.{Cluster}
use dylchain.Cluster.Resume.{seed_live_view}
use dylchain.Node.{Node}
use dylchain.Network.{Network}

pub data BuildError : Type 0 where
  no_blocks_given : BuildError
  bad_genesis : BlockError → BuildError
  bad_block : ℤ → ChainError → BuildError

-- A result, or `none` for a panic.
abbrev pub Build : Type 0 → Type 0
Build A = Option (Result BuildError A)

-- A live view that has shown nothing, with the time of the genesis block.
abbrev pub empty_view : ℤ → Cluster
empty_view genesis_time = record {
  genesis = genesis_time;
  height = pos 0;
  total_supply = 0;
  recent = [];
  txs = [];
  proposed = [];
  slashed = [];
  halts = [];
  balances = [];
  nonces = [];
  delegations = [];
  full_blocks = [];
  subs = [];
  on_commit = none;
}

abbrev pub new_node : ValidatorSet → Mempool → Cluster → ℤ → Chain → Validator → Node
new_node set m live max_block_txs ch v = record {
  self = v;
  set = set;
  chain = ch;
  mempool = m;
  max_block_txs = max_block_txs;
  cluster = live;
  pending = [];
  seen_votes = [];
  evidence = [];
  slashed = [];
  pending_slash = [];
  pending_heal = [];
  heal_delay = pos 0;
  election = sync_delegations ch.state (new_election set);
  byzantine = false;
}

-- The map `valBase` of NewCluster.
unfoldable pub base_stakes : Dict ℕ → ValidatorSet → Dict ℕ
base_stakes d [] = d
base_stakes d (m ∷ ms) = base_stakes (insert m.address m.stake d) ms

module _ ⦃c : Crypto⦄ where
  -- The inner loop: the blocks after the genesis, through `CommitBlock`.
  unfoldable pub commit_all : Chain → List Block → Build Chain
  unfolding commit_block
  commit_all ch [] = some (ok ch)
  commit_all ch (b ∷ bs) = do
    (ch', e) ← commit_block ch b
    elim e [ some reason ↦ some (err (bad_block b.height reason)) | none ↦ commit_all ch' bs ]

  unfoldable pub build_chain : Block → List Block → Build Chain
  unfolding new_chain_from_genesis commit_all
  build_chain genesis bs = do
    r ← new_chain_from_genesis genesis
    elim r [ err e ↦ some (err (bad_genesis e)) | ok ch ↦ commit_all ch bs ]

  -- The loop over the members of the set: the chain of each.
  unfoldable pub build_chains : Block → List Block → ValidatorSet → Build (List Chain)
  unfolding build_chain
  build_chains genesis bs [] = some (ok [])
  build_chains genesis bs (v ∷ vs) = do
    r ← build_chain genesis bs
    elim r [
      | err e ↦ some (err e)
      | ok ch ↦ (do
        rest ← build_chains genesis bs vs
        elim rest [ err e ↦ some (err e) | ok chs ↦ some (ok (ch ∷ chs)) ])
    ]

  abbrev pub new_nodes : ValidatorSet → Cluster → ℤ → List Chain → ValidatorSet → List Node
  new_nodes set live max_block_txs [] vs = []
  new_nodes set live max_block_txs (ch ∷ chs) [] = []
  new_nodes set live max_block_txs (ch ∷ chs) (v ∷ vs) =
      new_node set new_mempool live max_block_txs ch v ∷ new_nodes set live max_block_txs chs vs

  -- The cluster of the nodes' chains, its live view seeded from the first; with none, a panic.
  unfoldable pub assemble : Block → ValidatorSet → ℤ → List Chain → Option Network
  unfolding seed_live_view
  assemble genesis set max_block_txs [] = none
  assemble genesis set max_block_txs (ch ∷ chs) =
      let live = seed_live_view ch (empty_view genesis.created_at) in
      some (record {
        live = live;
        mempool = new_mempool;
        set = set;
        nodes = new_nodes set live max_block_txs (ch ∷ chs) set;
      })

  unfoldable pub build_cluster : List Block → ValidatorSet → ℤ → Build Network
  unfolding build_chains assemble
  build_cluster [] set max_block_txs = none
  build_cluster (genesis ∷ bs) set max_block_txs = do
    r ← build_chains genesis bs set
    elim r [
      | err e ↦ some (err e)
      | ok chs ↦ (do n ← assemble genesis set max_block_txs chs; some (ok n))
    ]

  -- NewCluster: an error panics. The clock stamps the genesis block.
  unfoldable pub new_cluster : Dict ℕ → ValidatorSet → ℤ → ℤ → Option Network
  unfolding build_cluster base_stakes
  new_cluster alloc set max_block_txs now = do
    r ← build_cluster (genesis_block alloc (base_stakes [] set) now ∷ []) set max_block_txs
    elim r [ err e ↦ none | ok n ↦ some n ]

  unfoldable pub resume_cluster : List Block → ValidatorSet → ℤ → Build Network
  unfolding build_cluster
  resume_cluster [] set max_block_txs = some (err no_blocks_given)
  resume_cluster (b ∷ bs) set max_block_txs = build_cluster (b ∷ bs) set max_block_txs
