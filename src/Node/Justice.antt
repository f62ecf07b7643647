-- ===== src/Node/Justice.antt =====
-- Who a node of chain/consensus.go slashes: the evidence behind its records.
use dylchain.Base.{
  ◌≡◌, refl, sym, subst, ◌∙◌, inl, inr, true, false, some, List, [], ◌∷◌, arith, Bool-cases,
  Option-cases, All, All-append,
}
use dylchain.Base.Int.{ℤ, pos, ltb_ℤ, add_i64}
use dylchain.Bytes.{Bytes, equal, equal_iff, equal_refl}
use dylchain.Dict.{
  Dict, lookup, get_or, IsMap, lookup-insert, get_or-insert, insert-IsMap, erase-IsMap,
}
use dylchain.Dict.Erased.{some-ne-none, true-ne-false, lookup_erased, get_or_erased}
use dylchain.Crypto.{Crypto}
use dylchain.Vote.{Vote, Evidence, verify_evidence}
use dylchain.Election.{slash_delay, sync_delegations}
use dylchain.Node.{
  Node, Message, proposal_msg, vote_msg, votes_at, slash_now, apply_slashes, heal_now, apply_heals,
  start_height, evidence_of, convict, compare_votes, observe_vote, observe,
}
use dylchain.Node.Weights.{
  Accused, AllAccused, AllStaked, Accused-append, AllAccused-append, AllStaked-append,
  slash-AllAccused, slash-AllStaked, restore-AllAccused, restore-AllStaked,
  set_delegated-AllAccused,
}

module _ ⦃c : Crypto⦄ where
  -- Every piece of evidence verifies, and nobody is marked slashed, scheduled for it, slashed in the
  -- election or without its stake in the set, unless there is a piece of evidence against it.
  pub record IsJust (n : Node) : Type 0 where
    pub proven : All (λ e. verify_evidence e ≡ true) n.evidence
    pub slashed_map : IsMap n.slashed
    pub pending_map : IsMap n.pending_slash
    pub accused : (a : Bytes) → get_or n.slashed a false ≡ true → Accused a n.evidence
    pub scheduled : (a : Bytes) (h : ℤ) → lookup a n.pending_slash ≡ some h → Accused a n.evidence
    pub elected : AllAccused n.evidence n.election
    pub staked : AllStaked n.evidence n.set

  convict-IsJust :
      (e : Evidence) (n : Node) → verify_evidence e ≡ true → IsJust n → IsJust (convict e n)
  unfolding convict
  convict-IsJust e n good j = record {
    proven = All-append (λ x. verify_evidence x ≡ true) n.evidence (e ∷ []) j.proven (good, tt);
    slashed_map = insert-IsMap e.offender true n.slashed j.slashed_map;
    pending_map =
        insert-IsMap e.offender (add_i64 e.height (pos slash_delay)) n.pending_slash j.pending_map;
    accused = λ a h. Accused-append a n.evidence (e ∷ []) (elim (Bool-cases (equal e.offender a)) [
      | inl here ↦ inr (inl ((equal_iff e.offender a).0 here))
      | inr other ↦
          inl (j.accused a (ground (arith, get_or-insert a e.offender true false n.slashed)))
    ]);
    scheduled = λ a k h.
        Accused-append a n.evidence (e ∷ []) (elim (Bool-cases (equal e.offender a)) [
          | inl here ↦ inr (inl ((equal_iff e.offender a).0 here))
          | inr other ↦
              let kept =
                lookup-insert a e.offender (add_i64 e.height (pos slash_delay)) n.pending_slash in
              inl (j.scheduled a k (ground (arith, kept)))
        ]);
    elected = AllAccused-append n.evidence e n.election j.elected;
    staked = AllStaked-append n.evidence e n.set j.staked;
  }

  compare_votes-IsJust : (prev v : Vote) (n : Node) → IsJust n → IsJust (compare_votes prev v n)
  unfolding compare_votes
  compare_votes-IsJust prev v n j = elim (Bool-cases (equal prev.block_hash v.block_hash)) [
    | inl same ↦ rw (same, compare_votes) j
    | inr other ↦ elim (Bool-cases (verify_evidence (evidence_of prev v))) [
      | inl good ↦ rw (other, good) (convict-IsJust (evidence_of prev v) n good j)
      | inr bad ↦ rw (other, bad) j
    ]
  ]

  observe_vote-IsJust : (v : Vote) (n : Node) → IsJust n → IsJust (observe_vote v n)
  unfolding observe_vote
  observe_vote-IsJust v n j = elim (Bool-cases (get_or n.slashed v.voter false)) [
    | inl known ↦ rw (known, observe_vote) j
    | inr free ↦ elim (Option-cases (lookup v.voter (votes_at v.height n.seen_votes))) [
      | inl unseen ↦
          rw (free, unseen)
            (record {
              proven = j.proven;
              slashed_map = j.slashed_map;
              pending_map = j.pending_map;
              accused = j.accused;
              scheduled = j.scheduled;
              elected = j.elected;
              staked = j.staked;
            })
      | inr (prev, seen) ↦ rw (free, seen) (compare_votes-IsJust prev v n j)
    ]
  ]

  slash_now-IsJust :
      (a : Bytes) (n : Node) → Accused a n.evidence → IsJust n → IsJust (slash_now a n)
  unfolding slash_now
  slash_now-IsJust a n bad j = record {
    proven = j.proven;
    slashed_map = j.slashed_map;
    pending_map = erase-IsMap a n.pending_slash j.pending_map;
    accused = j.accused;
    scheduled = λ b h e. j.scheduled b h (lookup_erased b a n.pending_slash h j.pending_map e);
    elected = slash-AllAccused n.evidence a n.election bad j.elected;
    staked = slash-AllStaked n.evidence a n.set bad j.staked;
  }

  -- Only what is scheduled is slashed: the entries of the loop are due, and accused.
  AllDue : Dict ℤ → List Evidence → Type 0
  AllDue d es = All (λ e. Accused e.0 es) d

  slash_now-evidence : (a : Bytes) (n : Node) → (slash_now a n).evidence ≡ n.evidence
  unfolding slash_now
  slash_now-evidence a n = refl

  scheduled-AllDue :
      (d : Dict ℤ) (es : List Evidence)
      → IsMap d
      → ((a : Bytes) (h : ℤ) → lookup a d ≡ some h → Accused a es)
      → AllDue d es
  unfolding AllDue lookup
  scheduled-AllDue [] es m h = tt
  scheduled-AllDue ((a, due) ∷ d) es m h = (
    h a due (rw (equal_refl a) refl),
    scheduled-AllDue d es m.1 (λ b k found. h b k (elim (Bool-cases (equal a b)) [
      | inl same ↦
          let e = rw (← (equal_iff a b).0 same) at found in
          absurd (true-ne-false (some-ne-none k (sym e ∙ m.0)))
      | inr other ↦ rw other found
    ])),
  )

  apply_slashes-IsJust :
      (h : ℤ) (d : Dict ℤ) (n : Node)
      → AllDue d n.evidence
      → IsJust n
      → IsJust (apply_slashes h d n)
  unfolding apply_slashes AllDue
  apply_slashes-IsJust h [] n all j = j
  apply_slashes-IsJust h ((a, due) ∷ rest) n all j = elim (Bool-cases (ltb_ℤ h due)) [
    | inl later ↦ apply_slashes-IsJust h rest _ (rw later all.1) (rw later j)
    | inr ripe ↦
        apply_slashes-IsJust h rest _
          (rw ripe (subst (AllDue rest) (sym (slash_now-evidence a n)) all.1))
          (rw ripe (slash_now-IsJust a n all.0 j))
  ]

  heal_now-IsJust : (h : ℤ) (a : Bytes) (n : Node) → IsJust n → IsJust (heal_now h a n)
  unfolding heal_now
  heal_now-IsJust h a n j = record {
    proven = j.proven;
    slashed_map = erase-IsMap a n.slashed j.slashed_map;
    pending_map = j.pending_map;
    accused = λ b e. j.accused b (get_or_erased b a n.slashed j.slashed_map e);
    scheduled = j.scheduled;
    elected = restore-AllAccused n.evidence a n.election j.elected;
    staked = restore-AllStaked n.evidence a n.set j.staked;
  }

  apply_heals-IsJust : (h : ℤ) (d : Dict ℤ) (n : Node) → IsJust n → IsJust (apply_heals h d n)
  unfolding apply_heals
  apply_heals-IsJust h [] n j = j
  apply_heals-IsJust h ((a, due) ∷ rest) n j = elim (Bool-cases (ltb_ℤ h due)) [
    | inl later ↦ apply_heals-IsJust h rest _ (rw later j)
    | inr ripe ↦ apply_heals-IsJust h rest _ (rw ripe (heal_now-IsJust h a n j))
  ]

  start_height-IsJust : (h : ℤ) (n : Node) → IsJust n → IsJust (start_height h n)
  unfolding start_height sync_delegations
  start_height-IsJust h n j =
      let due = scheduled-AllDue n.pending_slash n.evidence j.pending_map j.scheduled in
      let j1 = apply_slashes-IsJust h n.pending_slash n due j in
      let j2 = apply_heals-IsJust h (apply_slashes h n.pending_slash n).pending_heal _ j1 in
      record {
        proven = j2.proven;
        slashed_map = j2.slashed_map;
        pending_map = j2.pending_map;
        accused = j2.accused;
        scheduled = j2.scheduled;
        elected = set_delegated-AllAccused _ _ _ j2.elected;
        staked = j2.staked;
      }

  -- The steps of a node that touch its record of equivocation: a message off the inbox, and the
  -- start of a height.
  pub data Step : Node → Node → Type 0 where
    receive : (m : Message) (n : Node) → Step n (observe m n)
    start : (h : ℤ) (n : Node) → Step n (start_height h n)

  pub data Steps : Node → Node → Type 0 where
    stay : (n : Node) → Steps n n
    go_on : (n m k : Node) → Step n m → Steps m k → Steps n k

  observe-IsJust : (m : Message) (n : Node) → IsJust n → IsJust (observe m n)
  unfolding observe
  observe-IsJust (proposal_msg b) n j = j
  observe-IsJust (vote_msg v) n j = observe_vote-IsJust v n j

  Step-IsJust : (n m : Node) → Step n m → IsJust n → IsJust m
  Step-IsJust n _ (receive m _) j = observe-IsJust m n j
  Step-IsJust n _ (start h _) j = start_height-IsJust h n j

  -- Whatever messages a node receives and however many heights it starts, in any order: if at first
  -- all its evidence verifies, and nobody is marked slashed, scheduled for a slash, slashed in its
  -- election or short of stake in its set without a piece of evidence against it, then that is so ever
  -- after. The set is that which the node itself leaves.
  pub Steps-IsJust : (n m : Node) → Steps n m → IsJust n → IsJust m
  Steps-IsJust n _ (stay _) j = j
  Steps-IsJust n k (go_on _ m _ s rest) j = Steps-IsJust m k rest (Step-IsJust n m s j)
