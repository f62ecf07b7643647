-- ===== src/Node/Equivocation.antt =====
-- How `observe` of chain/consensus.go catches a validator that votes twice.
use dylchain.Base.{
  ◌≡◌, refl, sym, ap, ◌∙◌, subst, ◌≢◌, inl, inr, true, false, none, some, List, [], ◌∷◌, arith,
}
use dylchain.Base.Int.{ℤ, pos, add_i64, eqb_ℤ_iff}
use dylchain.Bytes.{equal, equal_iff, equal_refl}
use dylchain.Dict.{Dict, lookup, get_or, insert, lookup-insert, get_or-insert}
use dylchain.Crypto.{Crypto}
use dylchain.Vote.{Vote, verify_vote, verify_evidence_iff}
use dylchain.Election.{slash_delay}
use dylchain.Node.{
  Node, vote_msg, votes_at, put_votes, evidence_of, convict, compare_votes, observe_vote, observe,
}
use dylchain.Node.Weights.{Accused, Accused-append}

votes_at-put_votes :
    (h : ℤ) (votes : Dict Vote) (seen : List (ℤ × Dict Vote))
    → votes_at h (put_votes h votes seen) ≡ votes
unfolding votes_at put_votes
votes_at-put_votes h votes [] = ground (arith, eqb_ℤ_iff h h)
votes_at-put_votes h votes ((k, old) ∷ rest) = ground (arith, votes_at-put_votes h votes rest)

module _ ⦃c : Crypto⦄ where
  -- The voter is marked slashed, there is evidence against it, and its slash is scheduled.
  abbrev pub IsCaught : Vote → Node → Type 0
  IsCaught v n =
      (get_or n.slashed v.voter false ≡ true)
      × Accused v.voter n.evidence
      × (lookup v.voter n.pending_slash ≡ some (add_i64 v.height (pos slash_delay)))

  abbrev with_first : Vote → Node → Node
  with_first u n = record n {
    seen_votes =
        put_votes u.height (insert u.voter u (votes_at u.height n.seen_votes)) n.seen_votes;
  }

  observe_first :
      (u : Vote) (n : Node)
      → get_or n.slashed u.voter false ≡ false
      → lookup u.voter (votes_at u.height n.seen_votes) ≡ none
      → observe_vote u n ≡ with_first u n
  unfolding observe_vote
  observe_first u n free unseen = rw (free, unseen) refl

  seen_after :
      (u v : Vote) (n : Node)
      → u.voter ≡ v.voter
      → u.height ≡ v.height
      → lookup v.voter (votes_at v.height (with_first u n).seen_votes) ≡ some u
  seen_after u v n same_voter same_height =
      let votes = insert u.voter u (votes_at u.height n.seen_votes) in
      rw (← same_voter, ← same_height)
        (ap (lookup u.voter) (votes_at-put_votes u.height votes n.seen_votes)
          ∙ lookup-insert u.voter u.voter u (votes_at u.height n.seen_votes)
          ∙ rw (equal_refl u.voter) refl)

  observe_second :
      (n : Node) (u v : Vote)
      → u.voter ≡ v.voter
      → u.height ≡ v.height
      → u.block_hash ≢ v.block_hash
      → verify_vote u ≡ true
      → verify_vote v ≡ true
      → get_or n.slashed v.voter false ≡ false
      → lookup v.voter (votes_at v.height n.seen_votes) ≡ some u
      → IsCaught v (observe_vote v n)
  unfolding observe_vote compare_votes convict
  observe_second n u v same_voter same_height other good_u good_v free seen =
      let e = evidence_of u v in
      let proof =
        (verify_evidence_iff e).1 (same_voter, refl, same_height, refl, other, good_u, good_v) in
      let differ : equal u.block_hash v.block_hash ≡ false =
        ground (arith, equal_iff u.block_hash v.block_hash) in
      let due = add_i64 v.height (pos slash_delay) in
      rw (free, seen)
        (rw (differ, proof)
          (
            get_or-insert v.voter v.voter true false n.slashed ∙ rw (equal_refl v.voter) refl,
            Accused-append v.voter n.evidence (e ∷ []) (inr (inl refl)),
            lookup-insert v.voter v.voter due n.pending_slash ∙ rw (equal_refl v.voter) refl,
          ))

  -- A voter that is not slashed, and of whom the node has seen no vote at a height, is caught as soon
  -- as the node has received two valid votes of it at that height for different blocks: it is marked
  -- slashed, there is evidence against it, and its slash is due `slash_delay` heights later.
  pub observe_catches :
      (n : Node) (u v : Vote)
      → u.voter ≡ v.voter
      → u.height ≡ v.height
      → u.block_hash ≢ v.block_hash
      → verify_vote u ≡ true
      → verify_vote v ≡ true
      → get_or n.slashed v.voter false ≡ false
      → lookup u.voter (votes_at u.height n.seen_votes) ≡ none
      → IsCaught v (observe (vote_msg v) (observe (vote_msg u) n))
  unfolding observe
  observe_catches n u v same_voter same_height other good_u good_v free unseen =
      let first = observe_first u n (ap (λ a. get_or n.slashed a false) same_voter ∙ free) unseen in
      subst (λ k. IsCaught v (observe_vote v k)) (sym first)
        (observe_second (with_first u n) u v same_voter same_height other good_u good_v free
          (seen_after u v n same_voter same_height))
