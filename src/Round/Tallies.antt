-- ===== src/Round/Tallies.antt =====
-- The tally of `runHeight` in chain/consensus.go, off the stash and the inbox, against the tally of
-- the same votes in one list.
use dylchain.Base.{
  ℕ, zero, suc, ◌≤◌, ◌≡◌, refl, sym, ap, ◌∙◌, subst, ◌⊎◌, inl, inr, Bool, true, false, Option, none,
  some, List, [], ◌∷◌, ◌++◌, append-nil, arith, Bool-cases, Option-cases, length, length-append,
}
use dylchain.Base.Int.{ℤ}
use dylchain.Bytes.{Bytes}
use dylchain.Crypto.{Crypto}
use dylchain.Election.{Election, total_stake}
use dylchain.Quorum.{Tally, no_votes, reached, tally_votes}
use dylchain.Node.{Node, Message}
use dylchain.Round.{Waited, is_countable, count, gather, tally, wait_for}
use dylchain.Round.Wait.{
  SameCore, SameCore-refl, SameCore-trans, NoneFits, Split, wait_for-some, wait_for-none,
}
use dylchain.Round.Votes.{votes_of, tally_votes-skip, tally_votes-reached, tally_votes-taken}

-- Both still wait, or both end and the node has the same core.
abbrev pub Agree : Node → Option Tally → Option (Node × List Message) → Type 0
Agree n listed gathered =
    ((listed ≡ none) × (gathered ≡ none))
    ⊎ ((t : Tally) × (m : Node) × (rest : List Message) × (listed ≡ some t)
        × (gathered ≡ some (m, rest))
        × SameCore n m)

Agree-SameCore :
    (n m : Node) (listed : Option Tally) (gathered : Option (Node × List Message))
    → SameCore n m
    → Agree m listed gathered
    → Agree n listed gathered
Agree-SameCore n m listed gathered core (inl both) = inl both
Agree-SameCore n m listed gathered core (inr (t, k, rest, a, g, core')) =
    inr (t, k, rest, a, g, SameCore-trans n m k core core')

Split-length :
    (fits : Message → Bool) (ms rest : List Message) (m : Message)
    → Split fits ms m rest
    → length ms ≡ suc (length rest)
Split-length fits ms rest m s =
    ap length s.whole
    ∙ length-append s.before (m ∷ s.after)
    ∙ (let l = length-append s.before s.after in let k = ap length s.left in omega arith)

length-zero : (ms : List Message) → length ms ≤ 0 → ms ≡ []
length-zero [] h = refl
length-zero (m ∷ ms) h = absurd (omega arith)

module _ ⦃c : Crypto⦄ (h : ℤ) (b : Bytes) where
  tally_votes-unfit :
      (e : Election) (t : Tally) (ms : List Message)
      → reached t.accepted (total_stake e) ≡ false
      → NoneFits (is_countable h b t.counted) ms
      → tally_votes e h b t (votes_of ms) ≡ none
  unfolding tally_votes
  tally_votes-unfit e t ms waiting unfits =
      ap (λ xs. tally_votes e h b t (votes_of xs)) (sym (append-nil ms))
      ∙ tally_votes-skip e h b t ms [] waiting unfits
      ∙ rw waiting refl

  gather-reached :
      (fuel total : ℕ) (t : Tally) (inbox : List Message) (n : Node)
      → reached t.accepted total ≡ true
      → gather (suc fuel) total h b t inbox n ≡ some (n, inbox)
  unfolding gather
  gather-reached fuel total t inbox n done = rw (done, gather) refl

  gather-waits :
      (fuel total : ℕ) (t : Tally) (inbox : List Message) (n : Node)
      → reached t.accepted total ≡ false
      → wait_for (is_countable h b t.counted) inbox n ≡ none
      → gather (suc fuel) total h b t inbox n ≡ none
  unfolding gather
  gather-waits fuel total t inbox n waiting nothing = rw (waiting, nothing, gather) refl

  gather-takes :
      (fuel total : ℕ) (t : Tally) (inbox : List Message) (n : Node) (w : Waited)
      → reached t.accepted total ≡ false
      → wait_for (is_countable h b t.counted) inbox n ≡ some w
      → gather (suc fuel) total h b t inbox n
        ≡ gather fuel total h b (count w.node.election w.message t) w.inbox w.node
  unfolding gather
  gather-takes fuel total t inbox n w waiting found = rw (waiting, found, gather) refl

  -- One round of the loop, with the rounds that are left.
  gather-tally_votes_taken :
      (fuel : ℕ) (t : Tally) (inbox : List Message) (n : Node) (w : Waited)
      → reached t.accepted (total_stake n.election) ≡ false
      → Split
          (is_countable h b t.counted)
          (n.pending ++ inbox)
          w.message
          (w.node.pending ++ w.inbox)
      → SameCore n w.node
      → Agree w.node
          (tally_votes w.node.election h b
            (count w.node.election w.message t)
            (votes_of (w.node.pending ++ w.inbox)))
          (gather fuel
            (total_stake w.node.election)
            h
            b
            (count w.node.election w.message t)
            w.inbox
            w.node)
      → Agree n
          (tally_votes n.election h b t (votes_of (n.pending ++ inbox)))
          (gather fuel (total_stake n.election) h b (count n.election w.message t) w.inbox w.node)
  gather-tally_votes_taken fuel t inbox n w waiting s core rest =
      let e = n.election in
      let t' = count e w.message t in
      let taken : tally_votes e h b t (votes_of (n.pending ++ inbox))
          ≡ tally_votes e h b t' (votes_of (w.node.pending ++ w.inbox)) =
        rw (s.whole, s.left)
          (tally_votes-taken e h b t s.before s.after w.message waiting s.passed s.taken) in
      let rest' =
        subst
          (λ o.
            Agree w.node
              (tally_votes o h b (count o w.message t) (votes_of (w.node.pending ++ w.inbox)))
              (gather fuel (total_stake o) h b (count o w.message t) w.inbox w.node))
          core.same_election rest in
      rw taken (
        Agree-SameCore n w.node (tally_votes e h b t' (votes_of (w.node.pending ++ w.inbox)))
          (gather fuel (total_stake e) h b t' w.inbox w.node) core rest')

  gather-tally_votes :
      (fuel : ℕ) (t : Tally) (inbox : List Message) (n : Node)
      → length (n.pending ++ inbox) ≤ fuel
      → Agree n
          (tally_votes n.election h b t (votes_of (n.pending ++ inbox)))
          (gather fuel (total_stake n.election) h b t inbox n)
  unfolding gather
  gather-tally_votes zero t inbox n short =
      elim (Bool-cases (reached t.accepted (total_stake n.election))) [
        | inl done ↦ inr (
          t,
          n,
          inbox,
          tally_votes-reached n.election h b t (votes_of (n.pending ++ inbox)) done,
          rw (done, gather) refl,
          SameCore-refl n,
        )
        | inr waiting ↦ inl (
          tally_votes-unfit n.election t (n.pending ++ inbox) waiting
              (rw (length-zero (n.pending ++ inbox) short) tt),
          rw (waiting, gather) refl,
        )
      ]
  gather-tally_votes (suc fuel) t inbox n short =
      elim (Bool-cases (reached t.accepted (total_stake n.election))) [
        | inl done ↦ inr (
          t,
          n,
          inbox,
          tally_votes-reached n.election h b t (votes_of (n.pending ++ inbox)) done,
          gather-reached fuel (total_stake n.election) t inbox n done,
          SameCore-refl n,
        )
        | inr waiting ↦ elim (Option-cases (wait_for (is_countable h b t.counted) inbox n)) [
          | inl nothing ↦ inl (
            tally_votes-unfit n.election t (n.pending ++ inbox) waiting
                (wait_for-none (is_countable h b t.counted) inbox n nothing),
            gather-waits fuel (total_stake n.election) t inbox n waiting nothing,
          )
          | inr (w, found) ↦
              let (s, core) = wait_for-some (is_countable h b t.counted) inbox n w found in
              subst (Agree n (tally_votes n.election h b t (votes_of (n.pending ++ inbox))))
                (sym (
                  gather-takes fuel (total_stake n.election) t inbox n w waiting found
                  ∙ ap
                      (λ o.
                        gather fuel (total_stake n.election) h b (count o w.message t) w.inbox
                          w.node)
                      core.same_election))
                (gather-tally_votes_taken fuel t inbox n w waiting s core (
                  let l =
                    Split-length (is_countable h b t.counted) (n.pending ++ inbox)
                      (w.node.pending ++ w.inbox) w.message s in
                  gather-tally_votes fuel (count w.node.election w.message t) w.inbox w.node
                    (omega arith)))
        ]
      ]

  -- The loop over the stash and the inbox ends when the tally of the same votes in one list ends, the
  -- stashed ones first: on fuel for every message, neither has an end that the other has not. It
  -- leaves the election, the chain and the node's own record alone.
  pub tally-tally_votes :
      (inbox : List Message) (n : Node)
      → Agree n
          (tally_votes n.election h b no_votes (votes_of (n.pending ++ inbox)))
          (tally h b inbox n)
  unfolding tally
  tally-tally_votes inbox n =
      gather-tally_votes (length (n.pending ++ inbox)) no_votes inbox n (omega arith)
