-- ===== src/Quorum/Completeness.antt =====
-- When the tally of chain/consensus.go ends: enough weight among the valid votes that arrive.
use dylchain.Base.{
  ℕ, ◌+◌, ◌*◌, ◌%◌, ◌≤◌, ◌<◌, ◌≡◌, refl, subst, ◌⊎◌, inl, inr, true, false, none, some, List, [],
  ◌∷◌, arith, if◌then◌else◌, Bool-cases, Option-cases,
}
use dylchain.Base.Int.{u64_mod, ℤ, eqb_ℤ_iff}
use dylchain.Bytes.{Bytes, equal, equal_iff, equal_refl}
use dylchain.Crypto.{Crypto}
use dylchain.Vote.{Vote, verify_vote}
use dylchain.Election.{Election, total_stake, stake_of, contains}
use dylchain.Quorum.{Tally, has, no_votes, reached, count_vote, tally_votes}
use dylchain.Quorum.Weights.{weight, weight_of, Distinct, total_stake-weight, weight_of-bound}
use dylchain.Quorum.Agreement.{Among, IsBacked, count_vote-IsBacked, no_votes-IsBacked}

-- The list without the first occurrence of the address.
abbrev without : Bytes → List Bytes → List Bytes
without a [] = []
without a (x ∷ xs) = if equal x a then xs else x ∷ without a xs

weight_of-without :
    (e : Election) (a : Bytes) (xs : List Bytes)
    → has xs a ≡ true
    → weight_of e xs ≡ stake_of e a + weight_of e (without a xs)
unfolding has
weight_of-without e a [] h = absurd (ground arith)
weight_of-without e a (x ∷ xs) h = elim (Bool-cases (equal x a)) [
  | inl here ↦ let same = (equal_iff x a).0 here in rw (here, same) refl
  | inr other ↦ let ih = weight_of-without e a xs (rw (other, has) at h) in rw other (omega arith)
]

has-without :
    (a b : Bytes) (xs : List Bytes)
    → has xs b ≡ true
    → equal a b ≡ false
    → has (without a xs) b ≡ true
unfolding has
has-without a b [] h ne = h
has-without a b (x ∷ xs) h ne = elim (Bool-cases (equal x a)) [
  | inl here ↦ let same = (equal_iff x a).0 here in let h' = rw same at h in rw here (ground arith)
  | inr other ↦ rw other (ground (arith, has-without a b xs))
]

has_left :
    (e : Election) (x : Bytes) (xs ys : List Bytes) (a : Bytes)
    → has xs x ≡ false
    → has xs a ≡ true
    → (has ys a ≡ true) ⊎ (stake_of e a ≡ 0)
    → (has (without x ys) a ≡ true) ⊎ (stake_of e a ≡ 0)
has_left e x xs ys a new ha (inr light) = inr light
has_left e x xs ys a new ha (inl shared) = elim (Bool-cases (equal x a)) [
  | inl here ↦
      let same = (equal_iff x a).0 here in let new' = rw same at new in absurd (ground arith)
  | inr other ↦ inl (has-without x a ys shared other)
]

-- Distinct addresses that have weight, all in another list, weigh no more than it.
weight_of-subset :
    (e : Election) (xs ys : List Bytes)
    → Distinct xs
    → ((a : Bytes) → has xs a ≡ true → (has ys a ≡ true) ⊎ (stake_of e a ≡ 0))
    → weight_of e xs ≤ weight_of e ys
unfolding has
weight_of-subset e [] ys d sub = omega arith
weight_of-subset e (x ∷ xs) ys d sub = elim (sub x (rw (equal_refl x) refl)) [
  | inl shared ↦
      let ih =
        weight_of-subset e xs (without x ys) d.1
          (λ a ha. has_left e x xs ys a d.0 ha (sub a (ground arith))) in
      let s = weight_of-without e x ys shared in omega arith
  | inr light ↦ let ih = weight_of-subset e xs ys d.1 (λ a ha. sub a (ground arith)) in omega arith
]

stake_of-outside : (e : Election) (a : Bytes) → contains e a ≡ false → stake_of e a ≡ 0
unfolding stake_of contains
stake_of-outside [] a out = refl
stake_of-outside (m ∷ ms) a out = ground (arith, stake_of-outside ms a)

-- A valid vote for the block.
pub record IsGood ⦃c : Crypto⦄ (h : ℤ) (block_hash : Bytes) (v : Vote) : Type 0 where
  pub at_height : v.height ≡ h
  pub for_block : v.block_hash ≡ block_hash
  pub verified : verify_vote v ≡ true

-- The validator has a valid vote for the block among the votes.
abbrev pub HasVoted : ⦃c : Crypto⦄ → ℤ → Bytes → List Vote → Bytes → Type 0
HasVoted h block_hash vs a = (v : Vote) × Among v vs × IsGood h block_hash v × (v.voter ≡ a)

module _ ⦃c : Crypto⦄ (e : Election) (h : ℤ) (block_hash : Bytes) where
  -- The tally without a threshold.
  abbrev count_all : Tally → List Vote → Tally
  count_all t [] = t
  count_all t (v ∷ vs) = count_all (count_vote e h block_hash t v) vs

  tally_votes-none :
      (t : Tally) (vs : List Vote)
      → tally_votes e h block_hash t vs ≡ none
      → reached (count_all t vs).accepted (total_stake e) ≡ false
  unfolding tally_votes
  tally_votes-none t [] run = ground arith
  tally_votes-none t (v ∷ vs) run = elim (Bool-cases (reached t.accepted (total_stake e))) [
    | inl done ↦ absurd (ground arith)
    | inr waiting ↦ tally_votes-none (count_vote e h block_hash t v) vs (ground arith)
  ]

  count_vote-keeps :
      (t : Tally) (v : Vote) (a : Bytes)
      → has t.counted a ≡ true
      → has (count_vote e h block_hash t v).counted a ≡ true
  unfolding count_vote has
  count_vote-keeps t v a ha = ground arith

  count_all-keeps :
      (t : Tally) (vs : List Vote) (a : Bytes)
      → has t.counted a ≡ true
      → has (count_all t vs).counted a ≡ true
  count_all-keeps t [] a ha = ha
  count_all-keeps t (v ∷ vs) a ha =
      count_all-keeps (count_vote e h block_hash t v) vs a (count_vote-keeps t v a ha)

  count_vote-counts :
      (t : Tally) (v : Vote)
      → IsGood h block_hash v
      → contains e v.voter ≡ true
      → has (count_vote e h block_hash t v).counted v.voter ≡ true
  unfolding count_vote has
  count_vote-counts t v g member =
      let a = (eqb_ℤ_iff v.height h).1 g.at_height in
      let b = (equal_iff v.block_hash block_hash).1 g.for_block in
      let d = g.verified in let r = equal_refl v.voter in ground arith

  count_all-counts :
      (t : Tally) (vs : List Vote) (v : Vote)
      → Among v vs
      → IsGood h block_hash v
      → contains e v.voter ≡ true
      → has (count_all t vs).counted v.voter ≡ true
  count_all-counts t [] v among g member = absurd (ground arith)
  count_all-counts t (w ∷ vs) v (inl here) g member =
      count_all-keeps (count_vote e h block_hash t w) vs v.voter
        (rw (← here) (count_vote-counts t v g member))
  count_all-counts t (w ∷ vs) v (inr there) g member =
      count_all-counts (count_vote e h block_hash t w) vs v there g member

  count_all-IsBacked :
      (t : Tally) (vs : List Vote)
      → weight e < u64_mod
      → IsBacked e h block_hash (λ v. Unit) t
      → IsBacked e h block_hash (λ v. Unit) (count_all t vs)
  count_all-IsBacked t [] w b = b
  count_all-IsBacked t (v ∷ vs) w b =
      count_all-IsBacked (count_vote e h block_hash t v) vs w
        (count_vote-IsBacked e h block_hash (λ x. Unit) t v w tt b)

  count_all-covers :
      (t : Tally) (vs : List Vote) (a : Bytes)
      → HasVoted h block_hash vs a
      → (has (count_all t vs).counted a ≡ true) ⊎ (stake_of e a ≡ 0)
  count_all-covers t vs a (v, among, good, here) = elim (Bool-cases (contains e a)) [
    | inl member ↦ inl (
        subst (λ x. has (count_all t vs).counted x ≡ true) here
          (count_all-counts t vs v among good (rw here member)))
    | inr outside ↦ inr (stake_of-outside e a outside)
  ]

  reached-more : (a t : ℕ) → 3 * a < u64_mod → 2 * t < u64_mod → 2 * t < 3 * a → reached a t ≡ true
  unfolding reached
  reached-more a t ha ht more =
      let x : 3 * a % u64_mod ≡ 3 * a = omega arith in
      let y : 2 * t % u64_mod ≡ 2 * t = omega arith in ground arith

  -- The tally ends, whatever else is among the votes and in whatever order they come, once distinct
  -- validators with more than two thirds of the weight of the set have a valid vote for the block
  -- among them. The set's weight times three is a `uint64`.
  pub tally_votes_complete :
      (vs : List Vote) (voters : List Bytes)
      → 3 * weight e < u64_mod
      → Distinct voters
      → 2 * weight e < 3 * weight_of e voters
      → ((a : Bytes) → has voters a ≡ true → HasVoted h block_hash vs a)
      → (t : Tally) × (tally_votes e h block_hash no_votes vs ≡ some t)
  tally_votes_complete vs voters fits distinct more voted =
      elim (Option-cases (tally_votes e h block_hash no_votes vs)) [
        | inr found ↦ found
        | inl waiting ↦
            let last = count_all no_votes vs in
            let b =
              count_all-IsBacked no_votes vs (omega arith)
                (no_votes-IsBacked e h block_hash (λ v. Unit)) in
            let bound = weight_of-bound e last.counted b.distinct in
            let covers =
              weight_of-subset e voters last.counted distinct
                (λ a ha. count_all-covers no_votes vs a (voted a ha)) in
            let weighed = b.weighed in
            let short = tally_votes-none no_votes vs waiting in
            let total = total_stake-weight e (omega arith) in
            let enough =
              reached-more last.accepted (weight e) (omega arith) (omega arith) (omega arith) in
            let short' = rw total at short in absurd (ground arith)
      ]
