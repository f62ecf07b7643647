-- ===== src/Network.antt =====
-- The rest of chain/cluster.go: a cluster as the server holds it, its live view with the queue, the
-- set and the nodes. Floating point is a parameter.
pub mod Build
pub mod Rebuild
use dylchain.Base.{
  ℕ, suc, Bool, true, false, not, ◌&&◌, ◌||◌, Option, some, List, [], ◌∷◌, ◌++◌, map, ltb,
  if◌then◌else◌, length, get_elem?, set, take, drop, ◌>>=◌,
}
use dylchain.Base.Int.{add_u64, ℤ, pos, eqb_ℤ}
use dylchain.Bytes.{Bytes, equal}
use dylchain.Dict.{Dict, lookup, get_or}
use dylchain.Crypto.{Crypto}
use dylchain.Validators.{Validator, ValidatorSet}
use dylchain.Vote.{Evidence, verify_evidence}
use dylchain.Election.{tally_all}
use dylchain.Mempool.{Mempool, len}
use dylchain.Cluster.{Cluster, BlockInfo, TxInfo}
use dylchain.Chain.{Chain}
use dylchain.Node.{Node}

-- What a node keeps as its queue and its live view is shared: outside a height, those here count.
pub record Network : Type 0 where
  pub live : Cluster
  pub mempool : Mempool
  pub set : ValidatorSet
  pub nodes : List Node

-- Go's `float64`.
pub record Floats : Type 1 where
  pub Number : Type 0
  pub of_uint64 : ℕ → Number
  pub plus : Number → Number → Number
  pub minus : Number → Number → Number
  pub times : Number → Number → Number
  pub over : Number → Number → Number
  pub less : Number → Number → Bool
  -- `Duration.Seconds`, of nanoseconds
  pub seconds : ℤ → Number

pub record ValidatorInfo (F : Type 0) : Type 0 where
  pub moniker : Bytes
  pub address : Bytes
  pub stake : ℕ
  pub delegated : ℕ
  pub voting_power : F
  pub slashed : Bool
  pub proposed : ℤ

pub record Snapshot (F : Type 0) : Type 0 where
  pub pending : ℕ
  pub genesis : ℤ
  pub height : ℤ
  pub supply : ℕ
  pub blocks : List BlockInfo
  pub txs : List TxInfo
  pub halts : List (Bytes × Bytes)
  pub validators : List (ValidatorInfo F)

-- A slashed validator has no weight; another has its stake and what is delegated to it.
unfoldable pub live_stake : Cluster → Validator → ℕ
live_stake c m =
    if get_or c.slashed m.address false
    then 0
    else add_u64 m.stake (get_or (tally_all [] c.delegations) m.address 0)

unfoldable pub live_total : Cluster → ℕ → ValidatorSet → ℕ
unfolding live_stake
live_total c acc [] = acc
live_total c acc (m ∷ ms) = live_total c (add_u64 acc (live_stake c m)) ms

module _ ⦃f : Floats⦄ where
  unfoldable pub validator_info : Cluster → ℕ → Validator → ValidatorInfo f.Number
  unfolding live_stake
  validator_info c total m = record {
    moniker = m.moniker;
    address = m.address;
    stake = live_stake c m;
    delegated = get_or (tally_all [] c.delegations) m.address 0;
    voting_power =
        if ltb 0 total
        then f.over (f.of_uint64 (live_stake c m)) (f.of_uint64 total)
        else f.of_uint64 0;
    slashed = get_or c.slashed m.address false;
    proposed = get_or c.proposed m.address (pos 0);
  }

  unfoldable pub snapshot : Network → Snapshot f.Number
  unfolding live_total validator_info
  snapshot n = record {
    pending = len n.mempool;
    genesis = n.live.genesis;
    height = n.live.height;
    supply = n.live.total_supply;
    blocks = n.live.recent;
    txs = n.live.txs;
    halts = n.live.halts;
    validators = map (validator_info n.live (live_total n.live 0 n.set)) n.set;
  }

-- The subscription at a place of the list.
unfoldable pub unsubscribe : ℕ → Cluster → Cluster
unsubscribe i c = record c { subs = take i c.subs ++ drop (suc i) c.subs }

-- `none` is Go's nil map.
unfoldable pub delegations : Cluster → Bytes → Option (Dict ℕ)
delegations c addr = lookup addr c.delegations

unfoldable pub size : Network → ℕ
size n = length n.nodes

-- `none` is the panic of an index out of range, here and below.
unfoldable pub chain_at : Network → ℕ → Option Chain
chain_at n i = do m ← get_elem? n.nodes i; some m.chain

unfoldable pub faulty : Network → ℕ → Option Bool
faulty n i = do m ← get_elem? n.nodes i; some m.byzantine

unfoldable pub make_faulty : Network → ℕ → Option Network
make_faulty n i = do
  m ← get_elem? n.nodes i
  some (record n { nodes = set n.nodes i (record m { byzantine = true }) })

abbrev with_heal_delay : ℤ → Node → Node
with_heal_delay heights m = record m { heal_delay = heights }

unfoldable pub set_heal_delay : ℤ → Network → Network
set_heal_delay heights n = record n { nodes = map (with_heal_delay heights) n.nodes }

-- The keys of the map `seen`, an offender and a height each.
abbrev reported : List (Bytes × ℤ) → Evidence → Bool
reported [] e = false
reported ((offender, height) ∷ seen) e =
    if equal offender e.offender && eqb_ℤ height e.height then true else reported seen e

module _ ⦃c : Crypto⦄ where
  -- The inner loop of `Evidence`.
  unfoldable pub collect : List (Bytes × ℤ) → List Evidence → List (Bytes × ℤ) × List Evidence
  collect seen [] = (seen, [])
  collect seen (e ∷ es) =
      let skipped = collect seen es in
      let (seen', out) = collect ((e.offender, e.height) ∷ seen) es in
      if reported seen e || not (verify_evidence e) then skipped else (seen', e ∷ out)

  -- The outer loop.
  unfoldable pub collect_all : List (Bytes × ℤ) → List Node → List Evidence
  unfolding collect
  collect_all seen [] = []
  collect_all seen (n ∷ ns) =
      let (seen', out) = collect seen n.evidence in out ++ collect_all seen' ns

  unfoldable pub evidence : Network → List Evidence
  unfolding collect_all
  evidence n = collect_all [] n.nodes
