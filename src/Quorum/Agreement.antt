-- ===== src/Quorum/Agreement.antt =====
-- Two tallies of chain/consensus.go at one height.
use dylchain.Base.{
  ℕ, ◌*◌, ◌%◌, ◌<◌, ◌≡◌, refl, sym, ◌∙◌, subst, ◌≢◌, ◌⊎◌, inl, inr, true, false, some, List, [],
  ◌∷◌, ◌++◌, arith, Bool-cases, All,
}
use dylchain.Base.Int.{u64_mod, add_u64, ℤ, eqb_ℤ_iff}
use dylchain.Bytes.{Bytes, equal, equal_iff}
use dylchain.Crypto.{Crypto}
use dylchain.Vote.{Vote, Evidence, verify_vote, verify_evidence, verify_evidence_iff}
use dylchain.Election.{Election, total_stake, stake_of}
use dylchain.Quorum.{Tally, has, no_votes, reached, count_vote, tally_votes}
use dylchain.Quorum.Weights.{
  weight, weight_of, Distinct, total_stake-weight, weight_of-bound, weight_of-append,
  shared_or_Distinct,
}

-- The vote is one of the list.
abbrev pub Among : Vote → List Vote → Type 0
Among v [] = true ≡ false
Among v (w ∷ ws) = (v ≡ w) ⊎ Among v ws

All-imp : {P Q : Vote → Type 0} (vs : List Vote) → ((v : Vote) → P v → Q v) → All P vs → All Q vs
All-imp [] f h = tt
All-imp (v ∷ vs) f h = (f v h.0, All-imp vs f h.1)

All-Among : (vs : List Vote) → All (λ v. Among v vs) vs
All-Among [] = tt
All-Among (v ∷ vs) = (inl refl, All-imp vs (λ w. inr) (All-Among vs))

reached-lt : (a t : ℕ) → 3 * a < u64_mod → 2 * t < u64_mod → reached a t ≡ true → 2 * t < 3 * a
unfolding reached
reached-lt a t ha ht h =
    let x : 3 * a % u64_mod ≡ 3 * a = omega arith in
    let y : 2 * t % u64_mod ≡ 2 * t = omega arith in ground arith

module _ ⦃c : Crypto⦄ (e : Election) (h : ℤ) (block_hash : Bytes) (Q : Vote → Type 0) where
  -- A valid vote of the voter for the block, with the property.
  abbrev VotedFor : Bytes → Type 0
  VotedFor a =
      (v : Vote) × Q v
      × (verify_vote v ≡ true)
      × (v.height ≡ h)
      × (v.block_hash ≡ block_hash)
      × (v.voter ≡ a)

  -- A tally counts distinct voters, each for a valid vote, and adds up their weights.
  pub record IsBacked (t : Tally) : Type 0 where
    pub distinct : Distinct t.counted
    pub weighed : t.accepted ≡ weight_of e t.counted
    pub backed : (a : Bytes) → has t.counted a ≡ true → VotedFor a

  abbrev counted_with : Tally → Vote → Tally
  counted_with t v = record {
    counted = v.voter ∷ t.counted;
    accepted = add_u64 t.accepted (stake_of e v.voter);
  }

  count_vote_cases :
      (t : Tally) (v : Vote)
      → (count_vote e h block_hash t v ≡ t)
        ⊎ ((count_vote e h block_hash t v ≡ counted_with t v)
            × (has t.counted v.voter ≡ false)
            × (v.height ≡ h)
            × (v.block_hash ≡ block_hash)
            × (verify_vote v ≡ true))
  unfolding count_vote
  count_vote_cases t v = ground (arith, eqb_ℤ_iff v.height h, equal_iff v.block_hash block_hash)

  pub count_vote-IsBacked :
      (t : Tally) (v : Vote)
      → weight e < u64_mod
      → Q v
      → IsBacked t
      → IsBacked (count_vote e h block_hash t v)
  unfolding has
  count_vote-IsBacked t v w q b = elim (count_vote_cases t v) [
    | inl same ↦ rw same b
    | inr (same, new, height, hash, good) ↦
        let bound = weight_of-bound e (v.voter ∷ t.counted) (new, b.distinct) in
        let sum = b.weighed in
        rw same record {
          distinct = (new, b.distinct);
          weighed = omega arith;
          backed = λ a ha. elim (Bool-cases (equal v.voter a)) [
            | inl here ↦ (v, q, good, height, hash, (equal_iff v.voter a).0 here)
            | inr other ↦ b.backed a (ground arith)
          ];
        }
  ]

  tally_votes-IsBacked :
      (t t' : Tally) (vs : List Vote)
      → weight e < u64_mod
      → All Q vs
      → IsBacked t
      → tally_votes e h block_hash t vs ≡ some t'
      → IsBacked t' × (reached t'.accepted (total_stake e) ≡ true)
  unfolding tally_votes
  tally_votes-IsBacked t t' [] w q b run = elim (Bool-cases (reached t.accepted (total_stake e))) [
    | inl done ↦ let same : t ≡ t' = ground arith in (subst IsBacked same b, ground arith)
    | inr waiting ↦ absurd (ground arith)
  ]
  tally_votes-IsBacked t t' (v ∷ vs) w q b run =
      elim (Bool-cases (reached t.accepted (total_stake e))) [
        | inl done ↦ let same : t ≡ t' = ground arith in (subst IsBacked same b, ground arith)
        | inr waiting ↦
            tally_votes-IsBacked (count_vote e h block_hash t v) t' vs w q.1
              (count_vote-IsBacked t v w q.0 b) (ground arith)
      ]

  pub no_votes-IsBacked : IsBacked no_votes
  unfolding has
  no_votes-IsBacked = record {
    distinct = tt;
    weighed = refl;
    backed = λ a ha. absurd (ground arith);
  }

module _ ⦃c : Crypto⦄ where
  -- A finished tally has counted distinct voters for valid votes on the block, all among the votes
  -- taken, with more than two thirds of the weight of the set. The set's weight times three is a
  -- `uint64`.
  tally_votes-quorum :
      (e : Election) (h : ℤ) (block_hash : Bytes) (vs : List Vote) (t : Tally)
      → 3 * weight e < u64_mod
      → tally_votes e h block_hash no_votes vs ≡ some t
      → IsBacked e h block_hash (λ v. Among v vs) t × (2 * weight e < 3 * weight_of e t.counted)
  tally_votes-quorum e h block_hash vs t w run =
      let (b, r) =
        tally_votes-IsBacked e h block_hash (λ v. Among v vs) no_votes t vs (omega arith)
          (All-Among vs) (no_votes-IsBacked e h block_hash (λ v. Among v vs)) run in
      let bound = weight_of-bound e t.counted b.distinct in
      let sum = b.weighed in
      let total = total_stake-weight e (omega arith) in
      let more = reached-lt t.accepted (weight e) (omega arith) (omega arith) (rw total at r) in
      (b, rw (← sum) more)

  -- Two nodes that agree on the weights, which tripled fit a `uint64`, cannot both finish a tally at
  -- one height, for different blocks, unless some validator voted for both: among the votes that
  -- they took are two that verify as evidence against it.
  pub tally_votes_agree :
      (e : Election) (h : ℤ) (a b : Bytes) (va vb : List Vote) (ta tb : Tally)
      → 3 * weight e < u64_mod
      → tally_votes e h a no_votes va ≡ some ta
      → tally_votes e h b no_votes vb ≡ some tb
      → a ≢ b
      → (x y : Vote) × Among x va
        × Among y vb
        × (verify_evidence (record { offender = x.voter; height = h; vote_a = x; vote_b = y })
            ≡ true)
  tally_votes_agree e h a b va vb ta tb w ra rb ne =
      let (ba, qa) = tally_votes-quorum e h a va ta w ra in
      let (bb, qb) = tally_votes-quorum e h b vb tb w rb in
      elim (shared_or_Distinct ta.counted tb.counted ba.distinct bb.distinct) [
        | inl (s, sa, sb) ↦
            let (x, mx, okx, hx, cx, ox) = ba.backed s sa in
            let (y, my, oky, hy, cy, oy) = bb.backed s sb in
            let ev : Evidence = record { offender = x.voter; height = h; vote_a = x; vote_b = y } in
            (
              x,
              y,
              mx,
              my,
              (verify_evidence_iff ev).1
                  (refl, oy ∙ sym ox, hx, hy, λ same. ne (sym cx ∙ same ∙ cy), okx, oky),
            )
        | inr d ↦
            let all = weight_of-bound e (ta.counted ++ tb.counted) d in
            let sum = weight_of-append e ta.counted tb.counted in absurd (omega arith)
      ]
