-- ===== src/Round/Votes.antt =====
-- The tally of `runHeight` in chain/consensus.go on a list of messages: what becomes of it when the
-- messages that do not fit are left where they are.
use dylchain.Base.{
  ◌≡◌, refl, sym, ap, ◌∙◌, inl, inr, true, false, some, List, [], ◌∷◌, ◌++◌, arith, Bool-cases,
}
use dylchain.Base.Int.{ℤ}
use dylchain.Bytes.{Bytes}
use dylchain.Crypto.{Crypto}
use dylchain.Vote.{Vote}
use dylchain.Election.{Election, total_stake}
use dylchain.Quorum.{Tally, has, reached, count_vote, tally_votes}
use dylchain.Node.{Message, proposal_msg, vote_msg}
use dylchain.Round.{is_countable, count}
use dylchain.Round.Wait.{NoneFits}

-- The votes among the messages, in their order.
abbrev pub votes_of : List Message → List Vote
votes_of [] = []
votes_of (proposal_msg b ∷ ms) = votes_of ms
votes_of (vote_msg v ∷ ms) = v ∷ votes_of ms

module _ ⦃c : Crypto⦄ (e : Election) (h : ℤ) (b : Bytes) where
  count_vote-skip :
      (t : Tally) (v : Vote)
      → is_countable h b t.counted (vote_msg v) ≡ false
      → count_vote e h b t v ≡ t
  unfolding count_vote is_countable
  count_vote-skip t v skip = ground arith

  count_vote-count :
      (t : Tally) (v : Vote)
      → is_countable h b t.counted (vote_msg v) ≡ true
      → count_vote e h b t v ≡ count e (vote_msg v) t
  unfolding count_vote is_countable count
  count_vote-count t v fit = ground arith

  pub tally_votes-reached :
      (t : Tally) (vs : List Vote)
      → reached t.accepted (total_stake e) ≡ true
      → tally_votes e h b t vs ≡ some t
  unfolding tally_votes
  tally_votes-reached t [] done = rw done refl
  tally_votes-reached t (v ∷ vs) done = rw done refl

  tally_votes-step :
      (t : Tally) (v : Vote) (vs : List Vote)
      → reached t.accepted (total_stake e) ≡ false
      → tally_votes e h b t (v ∷ vs) ≡ tally_votes e h b (count_vote e h b t v) vs
  unfolding tally_votes
  tally_votes-step t v vs waiting = rw waiting refl

  -- Messages that do not fit change nothing.
  pub tally_votes-skip :
      (t : Tally) (before rest : List Message)
      → reached t.accepted (total_stake e) ≡ false
      → NoneFits (is_countable h b t.counted) before
      → tally_votes e h b t (votes_of (before ++ rest)) ≡ tally_votes e h b t (votes_of rest)
  tally_votes-skip t [] rest waiting unfits = refl
  tally_votes-skip t (proposal_msg p ∷ ms) rest waiting unfits =
      tally_votes-skip t ms rest waiting unfits.1
  tally_votes-skip t (vote_msg v ∷ ms) rest waiting unfits =
      tally_votes-step t v (votes_of (ms ++ rest)) waiting
      ∙ rw (count_vote-skip t v unfits.0) (tally_votes-skip t ms rest waiting unfits.1)

  tally_votes-skip_any :
      (t : Tally) (before rest : List Message)
      → NoneFits (is_countable h b t.counted) before
      → tally_votes e h b t (votes_of (before ++ rest)) ≡ tally_votes e h b t (votes_of rest)
  tally_votes-skip_any t before rest unfits =
      elim (Bool-cases (reached t.accepted (total_stake e))) [
        | inl done ↦
            tally_votes-reached t (votes_of (before ++ rest)) done
            ∙ sym (tally_votes-reached t (votes_of rest) done)
        | inr waiting ↦ tally_votes-skip t before rest waiting unfits
      ]

  -- What did not fit before a count does not fit after it.
  count-unfit :
      (m x : Message) (t : Tally)
      → is_countable h b t.counted x ≡ false
      → is_countable h b (count e m t).counted x ≡ false
  unfolding is_countable count has
  count-unfit m (proposal_msg p) t unfit = refl
  count-unfit (proposal_msg q) (vote_msg v) t unfit = unfit
  count-unfit (vote_msg w) (vote_msg v) t unfit = ground arith

  count-NoneFits :
      (m : Message) (t : Tally) (ms : List Message)
      → NoneFits (is_countable h b t.counted) ms
      → NoneFits (is_countable h b (count e m t).counted) ms
  count-NoneFits m t [] unfits = tt
  count-NoneFits m t (x ∷ ms) unfits = (count-unfit m x t unfits.0, count-NoneFits m t ms unfits.1)

  -- Taking a message out of the middle and counting it.
  pub tally_votes-taken :
      (t : Tally) (before after : List Message) (m : Message)
      → reached t.accepted (total_stake e) ≡ false
      → NoneFits (is_countable h b t.counted) before
      → is_countable h b t.counted m ≡ true
      → tally_votes e h b t (votes_of (before ++ m ∷ after))
        ≡ tally_votes e h b (count e m t) (votes_of (before ++ after))
  unfolding is_countable
  tally_votes-taken t before after (proposal_msg p) waiting unfits fit = absurd (ground arith)
  tally_votes-taken t before after (vote_msg v) waiting unfits fit =
      tally_votes-skip t before (vote_msg v ∷ after) waiting unfits
      ∙ tally_votes-step t v (votes_of after) waiting
      ∙ ap (λ u. tally_votes e h b u (votes_of after)) (count_vote-count t v fit)
      ∙ sym (
          tally_votes-skip_any (count e (vote_msg v) t) before after
            (count-NoneFits (vote_msg v) t before unfits))
