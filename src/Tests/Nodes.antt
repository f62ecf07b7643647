-- ===== src/Tests/Nodes.antt =====
-- Votes, the queue, the set and the live view at concrete inputs.
use dylchain.Base.{◌≡◌, refl, ◌↔◌, true, false, [], ◌∷◌, ◌++◌, arith, if◌then◌else◌, length}
use dylchain.Base.Int.{pos, add_i64}
use dylchain.Bytes.{Bytes, equal}
use dylchain.State.{apply_tx}
use dylchain.Vote.{Vote, vote_signable_bytes, new_vote, verify_vote, verify_evidence}
use dylchain.Validators.{slash, restore, stake_of, contains}
use dylchain.Validators.Slashing.{slash-restore}
use dylchain.Election
use dylchain.Election.{Member, Election}
use dylchain.Election.Heal.{is_slashed, restore_comm}
use dylchain.Quorum.{Tally, tally_votes}
use dylchain.Quorum.Agreement.{Among, tally_votes_agree}
use dylchain.Mempool.{
  Mempool, IsBounded, IsLimited, add, drain, max_mempool, drain_splits, add-IsBounded,
}
use dylchain.Cluster.Gate.{submit, FailsOnLedger, submit_admits}
use dylchain.Cluster.Resume.{feeds, seed_live_view, record_blocks, IsFresh, seed_live_view-record}
use dylchain.Tests.Fixtures.{
  blank, toy, alice, genesis, alice_validator, queue, proposal, grown, signed_transfer, rich,
}

abbrev empty_queue : Mempool
empty_queue = record { txs = [] }

abbrev busy_queue : Mempool
busy_queue = record { txs = signed_transfer ∷ signed_transfer ∷ [] }

drain_splits_example :
    let (m', out) = drain busy_queue (pos 1) in
    (out ++ m'.txs ≡ busy_queue.txs) × IsLimited (pos 1) out m'.txs × IsBounded m'
drain_splits_example = drain_splits busy_queue (pos 1) (omega arith)

add-IsBounded_example :
    let (m', done) = add queue signed_transfer in
    IsBounded m'
    × (m'.txs ≡ (if done then queue.txs ++ signed_transfer ∷ [] else queue.txs))
    × ((done ≡ false) ↔ (length queue.txs ≡ max_mempool))
unfolding queue
add-IsBounded_example = add-IsBounded queue signed_transfer (omega arith)

submit_admits_example :
    (queue.txs ≡ empty_queue.txs ++ signed_transfer ∷ [])
    × FailsOnLedger (apply_tx rich signed_transfer)
unfolding submit equal signed_transfer dylchain.Address.pub_key_from_address
    dylchain.Address.Hex.decode_string queue
submit_admits_example = submit_admits empty_queue queue signed_transfer rich refl

abbrev vote_for : Bytes → Vote
vote_for block_hash = new_vote (pos 1) block_hash alice_validator

abbrev alone : Election
alone =
    record { address = alice; orig_stake = 10; delegated = 0; slashed = false; priority = pos 0 }
    ∷ []

abbrev alice_counted : Tally
alice_counted = record { counted = alice ∷ []; accepted = 10 }

tally_votes_agree_example :
    (x y : Vote) × Among x (vote_for (7 ∷ []) ∷ [])
    × Among y (vote_for (8 ∷ []) ∷ [])
    × (verify_evidence (record { offender = x.voter; height = pos 1; vote_a = x; vote_b = y })
        ≡ true)
unfolding Election.effective tally_votes new_vote equal alice alice_validator verify_vote
    dylchain.Address.pub_key_from_address dylchain.Address.Hex.decode_string vote_signable_bytes
tally_votes_agree_example =
    tally_votes_agree alone (pos 1) (7 ∷ []) (8 ∷ []) (vote_for (7 ∷ []) ∷ [])
      (vote_for (8 ∷ []) ∷ []) alice_counted alice_counted (omega arith) refl refl
      (λ e. absurd (ground (arith, e)))

abbrev slashed_two : Election
slashed_two =
    record { address = 1 ∷ []; orig_stake = 10; delegated = 0; slashed = true; priority = pos 4 }
    ∷ record { address = 2 ∷ []; orig_stake = 10; delegated = 0; slashed = true; priority = pos 7 }
    ∷ record { address = 3 ∷ []; orig_stake = 10; delegated = 0; slashed = false; priority = pos 5 }
    ∷ []

restore_comm_example :
    Election.restore (1 ∷ []) (Election.restore (2 ∷ []) slashed_two)
    ≡ Election.restore (2 ∷ []) (Election.restore (1 ∷ []) slashed_two)
unfolding is_slashed equal
restore_comm_example =
    restore_comm (1 ∷ []) (2 ∷ []) slashed_two (λ e. absurd (ground (arith, e))) refl refl

slash-restore_example :
    (stake_of (slash alice (alice_validator ∷ [])) alice
      ≡ (if equal alice alice then 0 else stake_of (alice_validator ∷ []) alice))
    × (contains (slash alice (alice_validator ∷ [])) alice ≡ contains (alice_validator ∷ []) alice)
    × (restore alice (slash alice (alice_validator ∷ [])) ≡ restore alice (alice_validator ∷ []))
    × (slash alice (slash alice (alice_validator ∷ [])) ≡ slash alice (alice_validator ∷ []))
slash-restore_example = slash-restore (alice_validator ∷ []) alice alice

blank-IsFresh : IsFresh blank
blank-IsFresh = record { no_recent = refl; no_txs = refl; no_full = refl }

seed_live_view-record_example :
    feeds (seed_live_view grown blank)
    ≡ feeds (record_blocks ((proposal.0, grown.state) ∷ []) blank)
unfolding grown add_i64 equal dylchain.Seal.block_hash dylchain.Merkle.merkle_root apply_tx
    dylchain.Address.valid_address dylchain.Address.pub_key_from_address
    dylchain.Address.Hex.decode_string dylchain.Dict.get_or dylchain.Merkle.hash
    dylchain.Seal.verify_block_signature dylchain.Ledger.apply dylchain.Reward.distribute_reward
seed_live_view-record_example =
    seed_live_view-record grown genesis ((proposal.0, grown.state) ∷ []) blank refl blank-IsFresh
      (refl, tt)
