-- ===== src/Tests/Rounds.antt =====
-- Whole heights of consensus at concrete inboxes.
use dylchain.Base.{
  ◌+◌, ◌*◌, ◌<◌, ◌≡◌, refl, sym, ◌∙◌, ◌≢◌, inl, inr, Bool, true, false, Option, none, some, List,
  [], ◌∷◌, ◌++◌, arith, ok, err,
}
use dylchain.Base.Int.{u64_mod, ℤ, pos, add_i64}
use dylchain.Bytes.{Bytes, equal, equal_iff, equal_refl}
use dylchain.Block.{Block}
use dylchain.State.{State}
use dylchain.Seal.{block_hash}
use dylchain.Vote.{Vote, new_vote, verify_evidence, verify_vote-new}
use dylchain.Election.{Election, next, raise, pick, add_weights, effective, stake_of}
use dylchain.Quorum.{no_votes, tally_votes, has}
use dylchain.Quorum.Weights.{weight, weight_of}
use dylchain.Quorum.Agreement.{Among}
use dylchain.Quorum.Completeness.{HasVoted}
use dylchain.Mempool.{Mempool}
use dylchain.Chain.{tip, check_candidate}
use dylchain.Proposal.{propose, propose-candidate}
use dylchain.Node.{Node, Message, proposal_msg, vote_msg}
use dylchain.Round.{committed, run_height, is_proposal, tally}
use dylchain.Round.Votes.{votes_of}
use dylchain.Round.Tallies.{Agree, tally-tally_votes}
use dylchain.Round.Safety.{run_height_agree}
use dylchain.Round.Liveness.{run_height-commits}
use dylchain.Tests.Fixtures.{
  toy, toy_laws, alice_key, genesis, alice, bob_key, bob, young, queue, alice_validator, proposal,
  blank,
}

abbrev pub sole : Bytes → Election
sole a =
    record { address = a; orig_stake = 10; delegated = 0; slashed = false; priority = pos 0 } ∷ []

next-sole : (a : Bytes) → next (sole a) ≡ some (a, sole a)
unfolding next raise pick add_weights effective dylchain.Base.Int.sub_i64 add_i64
next-sole a = refl

has-sole : (a b : Bytes) → has (a ∷ []) b ≡ true → a ≡ b
unfolding has
has-sole a b h = ground (arith, equal_iff a b)

-- A watching node, for which Alice is the whole set.
abbrev pub listener : Node
listener = record {
  self = record { address = bob; priv_key = bob_key; stake = 0; orig_stake = 0; moniker = [] };
  set = alice_validator ∷ [];
  cluster = blank;
  chain = young;
  mempool = queue;
  max_block_txs = pos 64;
  pending = [];
  seen_votes = [];
  evidence = [];
  slashed = [];
  pending_slash = [];
  pending_heal = [];
  heal_delay = pos 0;
  election = sole alice;
  byzantine = false;
}

abbrev vote_for : Block → Vote
vote_for b = new_vote (pos 1) (block_hash b) alice_validator

abbrev or_proposal : Option (Block × Mempool) → Block × Mempool
or_proposal none = proposal
or_proposal (some p) = p

-- The block of an empty queue.
unfoldable empty_made : Block × Mempool
unfolding propose young alice_validator
empty_made =
    or_proposal (propose young (record { txs = [] }) (pos 0) alice_validator (pos 1) (pos 5))

abbrev heard : Block → List Message
heard b = vote_msg (vote_for b) ∷ proposal_msg b ∷ []

tally-tally_votes_example :
    Agree listener
      (tally_votes listener.election
        (pos 1)
        (block_hash proposal.0)
        no_votes
        (vote_for proposal.0 ∷ []))
      (tally (pos 1) (block_hash proposal.0) (heard proposal.0) listener)
tally-tally_votes_example =
    tally-tally_votes (pos 1) (block_hash proposal.0) (heard proposal.0) listener

passes : (next : State) × (check_candidate young proposal.0 ≡ some (ok next))
unfolding young tip add_i64 alice_validator propose proposal
passes =
    propose-candidate toy_laws young queue proposal.1 (pos 0) (pos 1) (pos 5) alice_validator
      genesis proposal.0 refl refl refl (record { distinct = tt; room = omega arith }) refl

empty_passes : (next : State) × (check_candidate young empty_made.0 ≡ some (ok next))
unfolding young tip add_i64 alice_validator propose empty_made
empty_passes =
    propose-candidate toy_laws young (record { txs = [] }) empty_made.1 (pos 0) (pos 1) (pos 5)
      alice_validator genesis empty_made.0 refl refl refl
      (record { distinct = tt; room = omega arith }) refl

alice_weighs :
    (a : Bytes)
    → (3 * weight (sole a) < u64_mod) × (2 * weight (sole a) < 3 * weight_of (sole a) (a ∷ []))
unfolding effective stake_of
alice_weighs a = (omega arith, rw (equal_refl a) (omega arith))

alice_voted :
    (b : Block) (a : Bytes)
    → has (alice ∷ []) a ≡ true
    → HasVoted (pos 1) (block_hash b) (votes_of (heard b)) a
unfolding alice alice_validator new_vote
alice_voted b a ha = (
  vote_for b,
  inl refl,
  record {
    at_height = refl;
    for_block = refl;
    verified = verify_vote-new toy_laws (pos 1) (block_hash b) alice_key 10;
  },
  has-sole alice a ha,
)

run_height-commits_example :
    (n' : Node) × (rest sent : List Message) × (run_height
        (pos 1)
        (pos 9)
        (heard proposal.0)
        listener
      ≡ committed proposal.0 n' rest sent)
unfolding is_proposal proposal has
run_height-commits_example =
    run_height-commits (pos 1) (pos 9) (heard proposal.0) listener alice listener.election
      proposal.0 passes.0 (alice ∷ []) (next-sole alice) refl passes.1 (alice_weighs alice).0
      (refl, tt) (alice_weighs alice).1 (alice_voted proposal.0)

commits_empty :
    (n' : Node) × (rest sent : List Message) × (run_height
        (pos 1)
        (pos 9)
        (heard empty_made.0)
        listener
      ≡ committed empty_made.0 n' rest sent)
unfolding is_proposal empty_made has
commits_empty =
    run_height-commits (pos 1) (pos 9) (heard empty_made.0) listener alice listener.election
      empty_made.0 empty_passes.0 (alice ∷ []) (next-sole alice) refl empty_passes.1
      (alice_weighs alice).0 (refl, tt) (alice_weighs alice).1 (alice_voted empty_made.0)

hashes_unequal : equal (block_hash proposal.0) (block_hash empty_made.0) ≡ false
unfolding equal block_hash proposal dylchain.Merkle.merkle_root dylchain.State.apply_tx
    dylchain.Address.valid_address dylchain.Address.pub_key_from_address
    dylchain.Address.Hex.decode_string dylchain.Dict.get_or dylchain.Merkle.hash empty_made
hashes_unequal = refl

hashes_differ : block_hash proposal.0 ≢ block_hash empty_made.0
hashes_differ = λ e.
    let same = (equal_iff (block_hash proposal.0) (block_hash empty_made.0)).1 e in
    absurd (ground (arith, same, hashes_unequal))

run_height_agree_example :
    (v w : Vote) × Among v (vote_for proposal.0 ∷ [])
    × Among w (vote_for empty_made.0 ∷ [])
    × (verify_evidence (record { offender = v.voter; height = pos 1; vote_a = v; vote_b = w })
        ≡ true)
run_height_agree_example =
    let (x', restx, sentx, runx) = run_height-commits_example in
    let (y', resty, senty, runy) = commits_empty in
    run_height_agree (pos 1) (pos 9) (pos 9) (heard proposal.0) (heard empty_made.0) listener
      listener proposal.0 empty_made.0 x' y' restx resty sentx senty refl (alice_weighs alice).0
      runx runy hashes_differ
