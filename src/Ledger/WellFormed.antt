-- ===== src/Ledger/WellFormed.antt =====
-- The ledger of a replayed chain (chain/state.go): its maps, and the bonds that it keeps.
use dylchain.Base.{
  ℕ, ◌≡◌, subst, inl, inr, some, List, [], ◌∷◌, arith, ◌==◌, Bool-cases, >>=-eq-some, ok,
}
use dylchain.Base.Int.{add_u64, sub_u64}
use dylchain.Bytes.{Bytes}
use dylchain.Dict.{Dict, get_or, IsMap, insert-IsMap}
use dylchain.Coin.{block_reward}
use dylchain.Crypto.{Crypto}
use dylchain.Block.{Block}
use dylchain.State.{State, bond, new_state}
use dylchain.State.WellFormed.{IsWellFormed, apply_tx-IsWellFormed}
use dylchain.Reward.{
  mul_div, sort_strings, delegators_of, add_delegated, pay, credit, distribute_reward,
}
use dylchain.Reward.Mint.{distribute_reward-mints}
use dylchain.Ledger.{genesis_state, replay_blocks}
use dylchain.Ledger.Invariant.{replay_blocks-keeps}
use dylchain.State.Filled.{IsFilled, apply_tx-IsFilled}

pay-IsMap :
    (s : State) (proposer : Bytes) (t : ℕ) (ds : List Bytes) (b : Dict ℕ) (p : ℕ) (b' : Dict ℕ)
    (p' : ℕ)
    → pay s proposer t ds b p ≡ some (b', p')
    → IsMap b
    → IsMap b'
unfolding pay
pay-IsMap s proposer t [] b p b' p' h m =
    let same : b ≡ b' = ground arith in subst (λ d. IsMap d) same m
pay-IsMap s proposer t (d ∷ ds) b p b' p' h m =
    let (share, e, h') = >>=-eq-some (mul_div block_reward (bond s d proposer) t) _ h in
    pay-IsMap s proposer t ds (credit d share b) (add_u64 p share) b' p' h' (insert-IsMap d _ b m)

distribute_reward-IsMap :
    (s s' : State) (proposer : Bytes)
    → distribute_reward s proposer ≡ some s'
    → IsMap s.balances
    → IsMap s'.balances
unfolding distribute_reward
distribute_reward-IsMap s s' proposer h m =
    let ds = sort_strings (delegators_of proposer s.delegations) in
    let t = add_u64 (get_or s.validator_base proposer 0) (add_delegated s proposer 0 ds) in
    elim (Bool-cases (t == 0)) [
      | inl unstaked ↦
          let done : record s { balances = credit proposer block_reward s.balances } ≡ s' =
            let h' = rw unstaked at h in cc in
          subst (λ u. IsMap u.balances) done (insert-IsMap proposer _ s.balances m)
      | inr staked ↦
          let ((b, p), e, h') = >>=-eq-some (pay s proposer t ds s.balances 0) _ (rw staked at h) in
          let done : record s { balances = credit proposer (sub_u64 block_reward p) b } ≡ s' =
            cc h' in
          subst (λ u. IsMap u.balances) done
            (insert-IsMap proposer _ b (pay-IsMap s proposer t ds s.balances 0 b p e m))
    ]

reward-IsWellFormed :
    (s s' : State) (proposer : Bytes)
    → distribute_reward s proposer ≡ some s'
    → IsWellFormed s
    → IsWellFormed s'
reward-IsWellFormed s s' proposer e h =
    let (_, (n, d, _)) = distribute_reward-mints s s' proposer e in
    record {
      balances_map = distribute_reward-IsMap s s' proposer e h.balances_map;
      nonces_map = rw n h.nonces_map;
      delegations_map = rw d h.delegations_map;
      inner_maps = rw d h.inner_maps;
    }

reward-IsFilled :
    (s s' : State) (proposer : Bytes)
    → distribute_reward s proposer ≡ some s'
    → IsFilled s.delegations
    → IsFilled s'.delegations
reward-IsFilled s s' proposer e h =
    let (_, (n, d, _)) = distribute_reward-mints s s' proposer e in rw d h

module _ ⦃c : Crypto⦄ where
  pub replay_blocks-IsWellFormed :
      (genesis : Block) (blocks : List Block) (t : State)
      → IsMap genesis.alloc
      → replay_blocks (genesis ∷ blocks) ≡ some (ok t)
      → IsWellFormed t
  unfolding genesis_state new_state
  replay_blocks-IsWellFormed genesis blocks t m h =
      replay_blocks-keeps IsWellFormed apply_tx-IsWellFormed reward-IsWellFormed genesis blocks t h
        (record { balances_map = m; nonces_map = tt; delegations_map = tt; inner_maps = tt })

  pub replay_blocks-IsFilled :
      (genesis : Block) (blocks : List Block) (t : State)
      → replay_blocks (genesis ∷ blocks) ≡ some (ok t)
      → IsFilled t.delegations
  unfolding genesis_state new_state
  replay_blocks-IsFilled genesis blocks t h =
      replay_blocks-keeps (λ s. IsFilled s.delegations) apply_tx-IsFilled reward-IsFilled genesis
        blocks t h tt
