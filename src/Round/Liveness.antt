-- ===== src/Round/Liveness.antt =====
-- `runHeight` of chain/consensus.go: when a height ends with a commit.
use dylchain.Base.{
  ◌*◌, ◌<◌, ◌≡◌, refl, sym, ap, ◌∙◌, inl, inr, Bool, true, Option, none, some, List, [], ◌∷◌, ◌++◌,
  arith, if◌then◌else◌, Bool-cases, Option-cases, Result, ok,
}
use dylchain.Base.Int.{u64_mod, ℤ}
use dylchain.Bytes.{Bytes, equal}
use dylchain.Crypto.{Crypto}
use dylchain.Block.{Block}
use dylchain.State.{State}
use dylchain.Seal.{block_hash}
use dylchain.Validators.{Validator}
use dylchain.Election.{Election, next}
use dylchain.Quorum.{Tally, has, no_votes, tally_votes}
use dylchain.Quorum.Weights.{weight, weight_of, Distinct}
use dylchain.Quorum.Completeness.{HasVoted, tally_votes_complete}
use dylchain.Chain.{Chain, ChainError, tip, check_candidate, commit_checked, commit_block}
use dylchain.Mempool.{Mempool}
use dylchain.Proposal.{propose}
use dylchain.Cluster.{record_block}
use dylchain.Node.{Node, Message, proposal_msg}
use dylchain.Round.{
  Waited, committed, is_proposal, wait_for, open_height, conclude, vote_on, answer_proposal,
  run_height, ballots,
}
use dylchain.Round.Wait.{SameCore, Split, NoneFits, wait_for-some, wait_for-none}
use dylchain.Round.Votes.{votes_of}
use dylchain.Round.Tallies.{tally-tally_votes}
use dylchain.Round.Safety.{open_height-Opened, Split-votes_of}
use dylchain.Quorum.Elected.{next-weight}

-- The first message that fits.
abbrev pub first : (Message → Bool) → List Message → Option Message
first fits [] = none
first fits (m ∷ ms) = if fits m then some m else first fits ms

first-none : (fits : Message → Bool) (ms : List Message) → NoneFits fits ms → first fits ms ≡ none
first-none fits [] unfits = refl
first-none fits (m ∷ ms) unfits = rw unfits.0 (first-none fits ms unfits.1)

first-taken :
    (fits : Message → Bool) (before after : List Message) (m : Message)
    → NoneFits fits before
    → fits m ≡ true
    → first fits (before ++ m ∷ after) ≡ some m
first-taken fits [] after m unfits fit = rw fit refl
first-taken fits (x ∷ before) after m unfits fit =
    rw unfits.0 (first-taken fits before after m unfits.1 fit)

module _ ⦃c : Crypto⦄ where
  wait_for-first :
      (fits : Message → Bool) (inbox : List Message) (n : Node) (m : Message)
      → first fits (n.pending ++ inbox) ≡ some m
      → (w : Waited) × (wait_for fits inbox n ≡ some w)
        × (w.message ≡ m)
        × Split fits (n.pending ++ inbox) m (w.node.pending ++ w.inbox)
        × SameCore n w.node
  wait_for-first fits inbox n m found = elim (Option-cases (wait_for fits inbox n)) [
    | inl nothing ↦
        let gone = first-none fits (n.pending ++ inbox) (wait_for-none fits inbox n nothing) in
        absurd (ground arith)
    | inr (w, took) ↦
        let (s, core) = wait_for-some fits inbox n w took in
        let head =
          ap (first fits) s.whole ∙ first-taken fits s.before s.after w.message s.passed s.taken in
        let same : w.message ≡ m = cc in (w, took, same, rw same at s, core)
  ]

  propose-proposes :
      (ch : Chain) (q : Mempool) (max_block_txs : ℤ) (self : Validator) (h now : ℤ) (b : Block)
      → tip ch.blocks ≡ some b
      → (made : Block × Mempool) × (propose ch q max_block_txs self h now ≡ some made)
  unfolding propose
  propose-proposes ch q max_block_txs self h now b top =
      elim (Option-cases (propose ch q max_block_txs self h now)) [
        | inl nothing ↦ let nothing' = rw (top, propose) at nothing in absurd (ground arith)
        | inr made ↦ made
      ]

  -- A node whose chain has a block opens a height, whoever's turn it is.
  open_height-opens :
      (h now : ℤ) (n : Node) (p : Bytes) (e : Election) (b : Block)
      → next n.election ≡ some (p, e)
      → tip n.chain.blocks ≡ some b
      → (n1 : Node) × (sent : List Message) × (open_height h now n ≡ some (n1, sent))
  unfolding open_height
  open_height-opens h now n p e b moved top = elim (Bool-cases (equal p n.self.address)) [
    | inl turn ↦
        let ((made, queue), proposed) =
          propose-proposes n.chain n.mempool n.max_block_txs n.self h now b top in
        (
          record n { election = e; mempool = queue },
          proposal_msg made ∷ [],
          rw (moved, open_height, turn, proposed) refl,
        )
    | inr other ↦ (record n { election = e }, [], rw (moved, open_height, other) refl)
  ]

  check_candidate-tip :
      (ch : Chain) (b : Block) (r : Result ChainError State)
      → check_candidate ch b ≡ some r
      → (top : Block) × (tip ch.blocks ≡ some top)
  unfolding check_candidate
  check_candidate-tip ch b r run = elim (Option-cases (tip ch.blocks)) [
    | inl nothing ↦ let run' = rw (nothing, check_candidate) at run in absurd (ground arith)
    | inr found ↦ found
  ]

  conclude-commits :
      (b : Block) (st : State) (inbox sent : List Message) (n : Node)
      → check_candidate n.chain b ≡ some (ok st)
      → (n' : Node) × (conclude b inbox sent n ≡ committed b n' inbox sent)
  unfolding conclude commit_block commit_checked
  conclude-commits b st inbox sent n good = elim (Option-cases (commit_block n.chain b)) [
    | inl nothing ↦ let nothing' = rw (good, commit_block) at nothing in absurd (ground arith)
    | inr ((ch, some e), found) ↦
        let found' = rw (good, commit_block) at found in absurd (ground arith)
    | inr ((ch, none), found) ↦ (
      record n { chain = ch; cluster = record_block b ch.state n.cluster },
      rw (found, conclude) refl,
    )
  ]

  vote_on-commits :
      (h : ℤ) (b : Block) (st : State) (inbox sent : List Message) (n : Node) (t : Tally)
      → check_candidate n.chain b ≡ some (ok st)
      → tally_votes n.election h (block_hash b) no_votes (votes_of (n.pending ++ inbox)) ≡ some t
      → (n' : Node) × (rest sent' : List Message) × (vote_on h b inbox sent n
          ≡ committed b n' rest sent')
  unfolding vote_on
  vote_on-commits h b st inbox sent n t good listed =
      elim (tally-tally_votes h (block_hash b) inbox n) [
        | inl (nothing, gathered) ↦ absurd (ground arith)
        | inr (t', m, left, found, gathered, core) ↦
            let sent' = sent ++ ballots h (block_hash b) n in
            let (n', done) = conclude-commits b st left sent' m (rw core.same_chain good) in
            (n', left, sent', rw (good, gathered, vote_on) done)
      ]

  answer_proposal-vote_on :
      (h : ℤ) (sent inbox : List Message) (m : Message) (n : Node) (b : Block)
      → m ≡ proposal_msg b
      → answer_proposal h sent (record { message = m; node = n; inbox = inbox })
        ≡ vote_on h b inbox sent n
  unfolding answer_proposal
  answer_proposal-vote_on h sent inbox m n b is_b = rw is_b refl

  run_height-vote_on :
      (h now : ℤ) (inbox : List Message) (n n1 : Node) (b : Block) (sent : List Message)
      (w : Waited)
      → open_height h now n ≡ some (n1, sent)
      → wait_for (is_proposal h) inbox n1 ≡ some w
      → w.message ≡ proposal_msg b
      → run_height h now inbox n ≡ vote_on h b w.inbox sent w.node
  unfolding run_height
  run_height-vote_on h now inbox n n1 b sent w opened took is_b =
      let run : run_height h now inbox n ≡ answer_proposal h sent w =
        rw (opened, took, run_height) refl in
      run ∙ answer_proposal-vote_on h sent w.inbox w.message w.node b is_b

  -- A height ends with the commit of a block, if the election elects, the first proposal for the
  -- height among the stashed and the incoming messages is that block, it passes the checks of the
  -- node's chain, and among the same messages distinct validators with more than two thirds of the
  -- weight of the set have a valid vote for it: whatever other messages there are, in whatever order.
  -- The weight of the set times three is a `uint64`.
  pub run_height-commits :
      (h now : ℤ) (inbox : List Message) (n : Node) (p : Bytes) (e : Election) (b : Block)
      (st : State) (voters : List Bytes)
      → next n.election ≡ some (p, e)
      → first (is_proposal h) (n.pending ++ inbox) ≡ some (proposal_msg b)
      → check_candidate n.chain b ≡ some (ok st)
      → 3 * weight n.election < u64_mod
      → Distinct voters
      → 2 * weight n.election < 3 * weight_of e voters
      → ((a : Bytes)
          → has voters a ≡ true
          → HasVoted h (block_hash b) (votes_of (n.pending ++ inbox)) a)
      → (n' : Node) × (rest sent : List Message) × (run_height h now inbox n
          ≡ committed b n' rest sent)
  run_height-commits h now inbox n p e b st voters moved proposed good fits distinct more voted =
      let (top, at_top) = check_candidate-tip n.chain b (ok st) good in
      let (n1, sent1, opened) = open_height-opens h now n p e top moved at_top in
      let o = open_height-Opened h now n n1 sent1 opened in
      let (w, took, is_b, s, core) =
        wait_for-first (is_proposal h) inbox n1 (proposal_msg b) (rw o.kept_pending proposed) in
      let one : Path (Option (Bytes × Election)) (some (o.proposer, n1.election)) (some (p, e)) =
        sym o.moved ∙ moved in
      let members : w.node.election ≡ e =
        core.same_election ∙ (let x : n1.election ≡ e = cc in x) in
      let votes : votes_of (w.node.pending ++ w.inbox) ≡ votes_of (n.pending ++ inbox) =
        Split-votes_of (is_proposal h) (n1.pending ++ inbox) (w.node.pending ++ w.inbox) b s
        ∙ ap (λ q. votes_of (q ++ inbox)) o.kept_pending in
      let whole = next-weight n.election e p moved in
      let (t, listed) =
        tally_votes_complete e h (block_hash b) (votes_of (n.pending ++ inbox)) voters
          (rw whole fits) distinct (rw whole more) voted in
      let chain : w.node.chain ≡ n.chain = core.same_chain ∙ o.kept_chain in
      let (n', rest, sent, done) =
        vote_on-commits h b st w.inbox sent1 w.node t (rw chain good)
          (rw (members, votes) listed) in
      (n', rest, sent, run_height-vote_on h now inbox n n1 b sent1 w opened took is_b ∙ done)
