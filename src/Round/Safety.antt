-- ===== src/Round/Safety.antt =====
-- `runHeight` of chain/consensus.go, from the start of a height to its commit.
use dylchain.Base.{
  ◌*◌, ◌<◌, ◌≡◌, refl, sym, ap, ◌∙◌, subst, ◌≢◌, inl, inr, Bool, true, Option, none, some, List, [],
  ◌∷◌, ◌++◌, arith, Bool-cases, Option-cases, ok, err,
}
use dylchain.Base.Int.{u64_mod, ℤ, eqb_ℤ_iff}
use dylchain.Bytes.{Bytes, equal}
use dylchain.Crypto.{Crypto}
use dylchain.Block.{Block}
use dylchain.Seal.{block_hash}
use dylchain.Vote.{Vote, verify_evidence}
use dylchain.Election.{Election, next}
use dylchain.Quorum.{Tally, no_votes, tally_votes}
use dylchain.Quorum.Weights.{weight}
use dylchain.Quorum.Agreement.{Among, tally_votes_agree}
use dylchain.Chain.{check_candidate, commit_block}
use dylchain.Proposal.{propose}
use dylchain.Cluster.{record_block}
use dylchain.Node.{Node, Message, proposal_msg, vote_msg}
use dylchain.Round.{
  committed, is_proposal, wait_for, open_height, conclude, vote_on, answer_proposal, run_height,
  ballots,
}
use dylchain.Round.Wait.{Split, wait_for-some}
use dylchain.Round.Votes.{votes_of}
use dylchain.Round.Tallies.{tally-tally_votes}
use dylchain.Quorum.Elected.{next-weight}

-- What the start of a height leaves of a node.
pub record Opened (n n1 : Node) : Type 0 where
  pub proposer : Bytes
  pub moved : next n.election ≡ some (proposer, n1.election)
  pub kept_chain : n1.chain ≡ n.chain
  pub kept_pending : n1.pending ≡ n.pending

module _ ⦃c : Crypto⦄ where
  pub open_height-Opened :
      (h now : ℤ) (n n1 : Node) (sent : List Message)
      → open_height h now n ≡ some (n1, sent)
      → Opened n n1
  unfolding open_height
  open_height-Opened h now n n1 sent run = elim (Option-cases (next n.election)) [
    | inl nothing ↦ let run' = rw (nothing, open_height) at run in absurd (ground arith)
    | inr ((p, e), found) ↦ elim (Bool-cases (equal p n.self.address)) [
      | inl turn ↦ elim (Option-cases (propose n.chain n.mempool n.max_block_txs n.self h now)) [
        | inl stuck ↦
            let run' = rw (found, open_height, turn, stuck) at run in absurd (ground arith)
        | inr ((b, queue), made) ↦
            let run' = rw (found, open_height, turn, made) at run in
            let same : record n { election = e; mempool = queue } ≡ n1 = cc in
            rw (← same)
              (record { proposer = p; moved = found; kept_chain = refl; kept_pending = refl })
      ]
      | inr other ↦
          let run' = rw (found, open_height, other) at run in
          let same : record n { election = e } ≡ n1 = cc in
          rw (← same)
            (record { proposer = p; moved = found; kept_chain = refl; kept_pending = refl })
    ]
  ]

  -- The last step, when it ends well.
  conclude-committed :
      (b b' : Block) (inbox sent : List Message) (n n' : Node) (rest sent' : List Message)
      → conclude b inbox sent n ≡ committed b' n' rest sent'
      → (b ≡ b') × (commit_block n.chain b ≡ some (n'.chain, none))
  unfolding conclude
  conclude-committed b b' inbox sent n n' rest sent' run =
      elim (Option-cases (commit_block n.chain b)) [
        | inl nothing ↦ let run' = rw (nothing, conclude) at run in absurd (ground arith)
        | inr ((ch, some e), found) ↦
            let run' = rw (found, conclude) at run in absurd (ground arith)
        | inr ((ch, none), found) ↦
            let run' = rw (found, conclude) at run in
            let same : b ≡ b' = cc in
            let node : record n { chain = ch; cluster = record_block b ch.state n.cluster } ≡ n' =
              cc in
            (same, found ∙ ap (λ (m : Node). some (m.chain, none)) node)
      ]

  vote_on-committed :
      (h : ℤ) (b b' : Block) (inbox sent : List Message) (n n' : Node) (rest sent' : List Message)
      → vote_on h b inbox sent n ≡ committed b' n' rest sent'
      → (b ≡ b')
        × (commit_block n.chain b ≡ some (n'.chain, none))
        × ((t : Tally) × (tally_votes n.election h
                (block_hash b)
                no_votes
                (votes_of (n.pending ++ inbox))
              ≡ some t))
  unfolding vote_on
  vote_on-committed h b b' inbox sent n n' rest sent' run =
      elim (Option-cases (check_candidate n.chain b)) [
        | inl nothing ↦ let run' = rw (nothing, vote_on) at run in absurd (ground arith)
        | inr (err e, found) ↦ let run' = rw (found, vote_on) at run in absurd (ground arith)
        | inr (ok st, found) ↦ elim (tally-tally_votes h (block_hash b) inbox n) [
          | inl (listed, gathered) ↦
              let run' = rw (found, gathered, vote_on) at run in absurd (ground arith)
          | inr (t, m, left, listed, gathered, core) ↦
              let run' = rw (found, gathered, vote_on) at run in
              let (same, done) =
                conclude-committed b b' left (sent ++ ballots h (block_hash b) n) m n' rest sent'
                  run' in
              (same, rw core.same_chain at done, (t, listed))
        ]
      ]

  answer_proposal-committed :
      (h : ℤ) (m : Message) (sent inbox : List Message) (n : Node) (b : Block) (n' : Node)
      (rest sent' : List Message)
      → answer_proposal h sent (record { message = m; node = n; inbox = inbox })
        ≡ committed b n' rest sent'
      → (m ≡ proposal_msg b)
        × (commit_block n.chain b ≡ some (n'.chain, none))
        × ((t : Tally) × (tally_votes n.election h
                (block_hash b)
                no_votes
                (votes_of (n.pending ++ inbox))
              ≡ some t))
  unfolding answer_proposal
  answer_proposal-committed h (proposal_msg p) sent inbox n b n' rest sent' run =
      let (same, done, (t, listed)) = vote_on-committed h p b inbox sent n n' rest sent' run in
      (
        ap proposal_msg same,
        subst (λ x. commit_block n.chain x ≡ some (n'.chain, none)) same done,
        (t, rw same at listed),
      )
  answer_proposal-committed h (vote_msg v) sent inbox n b n' rest sent' run = absurd (ground arith)

-- What a committed height shows: whom the election chose, what was tallied, and the commit.
pub record Committal ⦃c : Crypto⦄ (h : ℤ) (n : Node) (inbox : List Message) (b : Block) (n' : Node)
    : Type 0 where
  pub proposer : Bytes
  pub members : Election
  pub tally : Tally
  pub elected : next n.election ≡ some (proposer, members)
  pub tallied :
      tally_votes members h (block_hash b) no_votes (votes_of (n.pending ++ inbox)) ≡ some tally
  pub appended : commit_block n.chain b ≡ some (n'.chain, none)
  pub at_height : b.height ≡ h

votes_of-drop :
    (before after : List Message) (b : Block)
    → votes_of (before ++ after) ≡ votes_of (before ++ proposal_msg b ∷ after)
votes_of-drop [] after b = refl
votes_of-drop (proposal_msg p ∷ ms) after b = votes_of-drop ms after b
votes_of-drop (vote_msg v ∷ ms) after b = ap (λ vs. v ∷ vs) (votes_of-drop ms after b)

module _ ⦃c : Crypto⦄ where
  -- A proposal is no vote.
  pub Split-votes_of :
      (fits : Message → Bool) (ms rest : List Message) (b : Block)
      → Split fits ms (proposal_msg b) rest
      → votes_of rest ≡ votes_of ms
  Split-votes_of fits ms rest b s =
      ap votes_of s.left ∙ votes_of-drop s.before s.after b ∙ sym (ap votes_of s.whole)

  run_height-Committal :
      (h now : ℤ) (inbox : List Message) (n : Node) (b : Block) (n' : Node)
      (rest sent : List Message)
      → run_height h now inbox n ≡ committed b n' rest sent
      → Committal h n inbox b n'
  unfolding run_height is_proposal
  run_height-Committal h now inbox n b n' rest sent run =
      elim (Option-cases (open_height h now n)) [
        | inl nothing ↦ let run' = rw (nothing, run_height) at run in absurd (ground arith)
        | inr ((n1, sent1), opened) ↦ elim (Option-cases (wait_for (is_proposal h) inbox n1)) [
          | inl nothing ↦
              let run' = rw (opened, nothing, run_height) at run in absurd (ground arith)
          | inr (w, found) ↦
              let run' = rw (opened, found, run_height) at run in
              let o = open_height-Opened h now n n1 sent1 opened in
              let (s, core) = wait_for-some (is_proposal h) inbox n1 w found in
              let (is_b, done, (t, listed)) =
                answer_proposal-committed h w.message sent1 w.inbox w.node b n' rest sent run' in
              let s' = rw is_b at s in
              let votes : votes_of (w.node.pending ++ w.inbox) ≡ votes_of (n.pending ++ inbox) =
                Split-votes_of (is_proposal h) (n1.pending ++ inbox) (w.node.pending ++ w.inbox) b
                  s'
                ∙ ap (λ p. votes_of (p ++ inbox)) o.kept_pending in
              record {
                proposer = o.proposer;
                members = n1.election;
                tally = t;
                elected = o.moved;
                tallied =
                    subst
                      (λ e.
                        tally_votes e h (block_hash b) no_votes (votes_of (n.pending ++ inbox))
                        ≡ some t)
                      core.same_election (rw votes at listed);
                appended = rw (core.same_chain, o.kept_chain) at done;
                at_height = (eqb_ℤ_iff b.height h).0 s'.taken;
              }
        ]
      ]

  -- Two nodes with the same election, whose weights tripled fit a `uint64`, go through a height,
  -- whatever each has stashed, receives, holds as its chain and reads off its clock. If both commit,
  -- and the blocks have different hashes, then among the votes each had are two that verify as
  -- evidence against one validator.
  pub run_height_agree :
      (h nowx nowy : ℤ) (inx iny : List Message) (x y : Node) (bx by_ : Block) (x' y' : Node)
      (restx resty sentx senty : List Message)
      → x.election ≡ y.election
      → 3 * weight x.election < u64_mod
      → run_height h nowx inx x ≡ committed bx x' restx sentx
      → run_height h nowy iny y ≡ committed by_ y' resty senty
      → block_hash bx ≢ block_hash by_
      → (v w : Vote) × Among v (votes_of (x.pending ++ inx))
        × Among w (votes_of (y.pending ++ iny))
        × (verify_evidence (record { offender = v.voter; height = h; vote_a = v; vote_b = w })
            ≡ true)
  run_height_agree h nowx nowy inx iny x y bx by_ x' y' restx resty sentx senty same fits runx runy
        differ =
      let p = run_height-Committal h nowx inx x bx x' restx sentx runx in
      let q = run_height-Committal h nowy iny y by_ y' resty senty runy in
      let one : Path (Option (Bytes × Election)) (some (p.proposer, p.members))
          (some (q.proposer, q.members)) =
        sym p.elected ∙ ap next same ∙ q.elected in
      let members : p.members ≡ q.members = cc in
      tally_votes_agree p.members h (block_hash bx) (block_hash by_) (votes_of (x.pending ++ inx))
        (votes_of (y.pending ++ iny)) p.tally q.tally
        (rw (next-weight x.election p.members p.proposer p.elected) fits) p.tallied
        (rw members q.tallied) differ
