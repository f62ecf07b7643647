-- ===== src/Reward/Mint.antt =====
-- The tokens that `distributeReward` of chain/state.go mints, whatever the stakes.
use dylchain.Base.{
  ℕ, ◌+◌, ◌%◌, ◌<◌, ◌≡◌, refl, inl, inr, some, List, [], ◌∷◌, arith, ◌==◌, Bool-cases, >>=-eq-some,
}
use dylchain.Base.Int.{u64_mod, add_u64, sub_u64}
use dylchain.Bytes.{Bytes}
use dylchain.Dict.{Dict, get_or}
use dylchain.Coin.{block_reward}
use dylchain.Dict.Sums.{sum, sum-insert}
use dylchain.State.{State, bond}
use dylchain.State.Supply.{total}
use dylchain.Reward.{
  mul_div, sort_strings, delegators_of, add_delegated, pay, credit, distribute_reward,
}

-- Crediting an account adds the amount.
pub sum-credit :
    (a : Bytes) (n : ℕ) (d : Dict ℕ) → sum (credit a n d) % u64_mod ≡ (sum d + n) % u64_mod
sum-credit a n d = omega (arith, sum-insert a (add_u64 (get_or d a 0) n) d)

-- What is paid out is what the balances gain.
pay-sum :
    (s : State) (proposer : Bytes) (t : ℕ) (ds : List Bytes) (b : Dict ℕ) (p : ℕ) (b' : Dict ℕ)
    (p' : ℕ)
    → pay s proposer t ds b p ≡ some (b', p')
    → (sum b' + p) % u64_mod ≡ (sum b + p') % u64_mod
unfolding pay
pay-sum s proposer t [] b p b' p' h = ground arith
pay-sum s proposer t (d ∷ ds) b p b' p' h =
    let (share, e, h') = >>=-eq-some (mul_div block_reward (bond s d proposer) t) _ h in
    let ih = pay-sum s proposer t ds (credit d share b) (add_u64 p share) b' p' h' in
    omega (arith, ih, sum-credit d share b)

pay-lt :
    (s : State) (proposer : Bytes) (t : ℕ) (ds : List Bytes) (b : Dict ℕ) (p : ℕ) (b' : Dict ℕ)
    (p' : ℕ)
    → pay s proposer t ds b p ≡ some (b', p')
    → p < u64_mod
    → p' < u64_mod
unfolding pay
pay-lt s proposer t [] b p b' p' h l = ground arith
pay-lt s proposer t (d ∷ ds) b p b' p' h l =
    let (share, e, h') = >>=-eq-some (mul_div block_reward (bond s d proposer) t) _ h in
    pay-lt s proposer t ds (credit d share b) (add_u64 p share) b' p' h' (omega arith)

-- Only the balances change.
abbrev pub SameButBalances : State → State → Type 0
SameButBalances s s' =
    (s'.nonces ≡ s.nonces)
    × (s'.delegations ≡ s.delegations)
    × (s'.validator_base ≡ s.validator_base)

-- Whenever the split returns, it has added exactly one block reward to the tokens, modulo 2^64, and
-- has changed nothing but balances.
pub distribute_reward-mints :
    (s s' : State) (proposer : Bytes)
    → distribute_reward s proposer ≡ some s'
    → (total s' % u64_mod ≡ (total s + block_reward) % u64_mod) × SameButBalances s s'
unfolding distribute_reward
distribute_reward-mints s s' proposer h =
    let ds = sort_strings (delegators_of proposer s.delegations) in
    let t = add_u64 (get_or s.validator_base proposer 0) (add_delegated s proposer 0 ds) in
    elim (Bool-cases (t == 0)) [
      | inl unstaked ↦
          let e : record s { balances = credit proposer block_reward s.balances } ≡ s' =
            let h' = rw unstaked at h in cc in
          rw (← e) (omega (arith, sum-credit proposer block_reward s.balances), (refl, refl, refl))
      | inr staked ↦
          let ((b, p), e, h') = >>=-eq-some (pay s proposer t ds s.balances 0) _ (rw staked at h) in
          let done : record s { balances = credit proposer (sub_u64 block_reward p) b } ≡ s' =
            cc h' in
          let paid = pay-sum s proposer t ds s.balances 0 b p e in
          let small = pay-lt s proposer t ds s.balances 0 b p e (omega arith) in
          rw (← done) (
            omega (arith, paid, small, sum-credit proposer (sub_u64 block_reward p) b),
            (refl, refl, refl),
          )
    ]
