-- ===== src/Round.antt =====
-- chain/consensus.go: the wait for a message, and a whole height in `runHeight`. The messages that a
-- node pulls off its inbox are a list, in their order; what it broadcasts is a list too.
pub mod Wait
pub mod Votes
pub mod Tallies
pub mod Safety
pub mod Liveness
use dylchain.Base.{
  ℕ, zero, suc, ◌+◌, ◌-◌, ◌*◌, ◌/◌, ◌%◌, ◌^◌, ◌≤◌, ◌<◌, ◌≡◌, refl, sym, ap, ◌∙◌, subst, ◌≢◌, ◌↔◌,
  ◌⊎◌, inl, inr, Bool, true, false, not, ◌&&◌, ◌||◌, Option, none, some, List, [], ◌∷◌, ◌++◌, map,
  append_assoc, append-nil, arith, ltb, leb, ◌==◌, if◌then◌else◌, ltb→lt, lt→ltb, leb→le, ==_iff,
  tests, Bool-cases, Option-cases, if_cases, length, get_elem?, set, take, drop, replicate, All,
  length-append, length-set, take-append-drop, length-take, length-drop, length-map, All-append,
  append-injective, Result-cases, >>=-eq-some, Result, ok, err, ◌>>=◌,
}
use dylchain.Base.Int.{
  u64_mod, add_u64, sub_u64, ℤ, pos, negsuc, pos_part, neg_part, sub_ℕ, ◌+ℤ◌, ◌-ℤ◌, ◌≤ℤ◌, ltb_ℤ,
  eqb_ℤ, to_u64, of_u64, add_i64, sub_i64, +ℤ_parts, -ℤ_parts, eq_of_parts, int_laws,
  add_i64-one-ne, add_i64-pos, eqb_ℤ_iff, IsI64, to_u64-injective, to_u64-lt,
}
use dylchain.Bytes.{Bytes, text, equal, equal_iff, equal_refl, IsBytes}
use dylchain.Crypto.{Crypto}
use dylchain.Block.{Block}
use dylchain.State.{State}
use dylchain.Seal.{block_hash}
use dylchain.Vote.{Vote, new_vote, verify_vote}
use dylchain.Election.{Election, next, total_stake, stake_of, contains}
use dylchain.Quorum.{Tally, has, no_votes, reached}
use dylchain.Chain.{Chain, ChainError, check_candidate, commit_block}
use dylchain.Mempool.{Mempool}
use dylchain.Proposal.{propose}
use dylchain.Cluster.{record_block}
use dylchain.Node.{Node, Message, proposal_msg, vote_msg, observe}

-- The first stashed message that fits, and the stash without it.
unfoldable pub take_pending : (Message → Bool) → List Message → Option (Message × List Message)
take_pending fits [] = none
take_pending fits (m ∷ ms) = elim (fits m) [
  | true ↦ some (m, ms)
  | false ↦ (do (found, rest) ← take_pending fits ms; some (found, m ∷ rest))
]

-- What a node has when a wait is over: the message, its own state, and the inbox that is left.
pub record Waited : Type 0 where
  pub message : Message
  pub node : Node
  pub inbox : List Message

-- How a height ends for a node, or that it does not.
pub data Outcome : Type 0 where
  -- the inbox is empty, and the node waits for a proposal or for votes, until it is stopped
  waiting : Outcome
  -- `haltf`: the block that it got, or its own commit, was refused
  halted : ChainError → Node → Outcome
  -- the block is committed; the messages that are left, and those broadcast
  committed : Block → Node → List Message → List Message → Outcome
  -- a panic that is not a halt: nobody has stake, or the chain has no block
  panicked : Outcome

-- The tests of the two waits.
unfoldable pub is_proposal : ℤ → Message → Bool
is_proposal h (proposal_msg b) = eqb_ℤ b.height h
is_proposal h (vote_msg v) = false

unfoldable pub is_countable : ℤ → Bytes → List Bytes → Message → Bool
unfolding has
is_countable h block_hash counted (proposal_msg b) = false
is_countable h block_hash counted (vote_msg v) =
    eqb_ℤ v.height h && equal v.block_hash block_hash && not (has counted v.voter)

abbrev pub stash : Message → Node → Node
stash m n = record n { pending = n.pending ++ m ∷ [] }

module _ ⦃c : Crypto⦄ where
  -- The second loop of `waitFor`. `none`: the inbox ends before a message fits.
  unfoldable pub take_inbox : (Message → Bool) → List Message → Node → Option Waited
  take_inbox fits [] n = none
  take_inbox fits (m ∷ ms) n = elim (fits m) [
    | true ↦ some (record { message = m; node = observe m n; inbox = ms })
    | false ↦ take_inbox fits ms (stash m (observe m n))
  ]

  unfoldable pub wait_for : (Message → Bool) → List Message → Node → Option Waited
  unfolding take_pending
  wait_for fits inbox n = elim (take_pending fits n.pending) [
    | some (m, rest) ↦
        some (record { message = m; node = record n { pending = rest }; inbox = inbox })
    | none ↦ take_inbox fits inbox n
  ]

  -- A vote off the stash or the inbox: it counts once, if a member cast it and it verifies.
  unfoldable pub count : Election → Message → Tally → Tally
  count e (proposal_msg b) t = t
  count e (vote_msg v) t = if not (contains e v.voter) || not (verify_vote v) then t else record {
    counted = v.voter ∷ t.counted;
    accepted = add_u64 t.accepted (stake_of e v.voter);
  }

  -- The loop of the tally, on fuel: each round takes a message off the stash or the inbox.
  -- `none`: the messages end before the threshold.
  unfoldable pub gather :
      ℕ → ℕ → ℤ → Bytes → Tally → List Message → Node → Option (Node × List Message)
  gather zero total h block_hash t inbox n =
      if reached t.accepted total then some (n, inbox) else none
  gather (suc fuel) total h block_hash t inbox n = elim (reached t.accepted total) [
    | true ↦ some (n, inbox)
    | false ↦ elim (wait_for (is_countable h block_hash t.counted) inbox n) [
      | none ↦ none
      | some w ↦ gather fuel total h block_hash (count w.node.election w.message t) w.inbox w.node
    ]
  ]

  -- The tally, with fuel for every message there is.
  unfoldable pub tally : ℤ → Bytes → List Message → Node → Option (Node × List Message)
  unfolding gather
  tally h block_hash inbox n =
      gather (length (n.pending ++ inbox)) (total_stake n.election) h block_hash no_votes inbox n

  -- Step 1: the election moves on, and the node proposes if it is its turn. The messages that it
  -- broadcasts; `none` is a panic.
  unfoldable pub open_height : ℤ → ℤ → Node → Option (Node × List Message)
  open_height h now n = do
    (proposer, e) ← next n.election
    let n1 : Node = record n { election = e }
    if equal proposer n.self.address
        then (do
          (b, queue) ← propose n1.chain n1.mempool n1.max_block_txs n1.self h now
          some (record n1 { mempool = queue }, proposal_msg b ∷ []))
        else some (n1, [])

  -- Step 3: the votes that the node broadcasts.
  unfoldable pub ballots : ℤ → Bytes → Node → List Message
  ballots h block_hash n =
      vote_msg (new_vote h block_hash n.self)
      ∷ (if n.byzantine then vote_msg (new_vote h (text "equivocation") n.self) ∷ [] else [])

  -- Step 5.
  unfoldable pub conclude : Block → List Message → List Message → Node → Outcome
  conclude b inbox sent n = elim (commit_block n.chain b) [
    | none ↦ panicked
    | some (ch, some e) ↦ halted e n
    | some (ch, none) ↦
        committed b (record n { chain = ch; cluster = record_block b ch.state n.cluster }) inbox
          sent
  ]

  -- Steps 2 to 5, for the block that the node waited for.
  unfoldable pub vote_on : ℤ → Block → List Message → List Message → Node → Outcome
  unfolding tally conclude
  vote_on h b inbox sent n = elim (check_candidate n.chain b) [
    | none ↦ panicked
    | some (err e) ↦ halted e n
    | some (ok next_state) ↦ elim (tally h (block_hash b) inbox n) [
      | none ↦ waiting
      | some (n', rest) ↦ conclude b rest (sent ++ ballots h (block_hash b) n) n'
    ]
  ]

  unfoldable pub answer_proposal : ℤ → List Message → Waited → Outcome
  unfolding vote_on
  answer_proposal h sent w = elim w.message [
    | proposal_msg b ↦ vote_on h b w.inbox sent w.node
    | vote_msg v ↦ panicked
  ]

  -- A height, with the node's clock and the messages that reach its inbox.
  unfoldable pub run_height : ℤ → ℤ → List Message → Node → Outcome
  unfolding open_height wait_for answer_proposal
  run_height h now inbox n = elim (open_height h now n) [
    | none ↦ panicked
    | some (n1, sent) ↦ elim (wait_for (is_proposal h) inbox n1) [
      | none ↦ waiting
      | some w ↦ answer_proposal h sent w
    ]
  ]
