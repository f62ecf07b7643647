-- ===== src/Ledger/Invariant.antt =====
-- What `applyTx` and the reward keep, the replay of chain/state.go keeps.
use dylchain.Base.{
  ℕ, ◌+◌, ◌≡◌, subst, inl, inr, none, some, List, [], ◌∷◌, ◌==◌, Bool-cases, Option-cases, if_cases,
  length, Result-cases, Result, ok, err,
}
use dylchain.Base.Int.{pos, eqb_ℤ}
use dylchain.Bytes.{Bytes, equal}
use dylchain.Crypto.{Crypto}
use dylchain.Transaction.{Transaction}
use dylchain.Block.{Block}
use dylchain.State.{State, apply_tx}
use dylchain.Reward.{distribute_reward}
use dylchain.Ledger.{
  BlockError, Run, apply_txs, reward_proposer, apply, apply_all, genesis_state, replay_blocks,
}
use dylchain.Ledger.Runs.{continue-ok}

module _ (P : State → Type 0) where
  -- A run that returns a ledger returns one with the property.
  abbrev RunsInto : Run → Type 0
  RunsInto none = Unit
  RunsInto (some (err e)) = Unit
  RunsInto (some (ok s)) = P s

  abbrev EndsIn : Result BlockError State → Type 0
  EndsIn (err e) = Unit
  EndsIn (ok s) = P s

module _ ⦃c : Crypto⦄ (P : State → Type 0)
    (tx_keeps : (s : State) (tx : Transaction) → P s → P (apply_tx s tx).0)
    (reward_keeps : (s s' : State) (proposer : Bytes)
      → distribute_reward s proposer ≡ some s'
      → P s
      → P s') where
  reward_proposer-RunsInto :
      (s : State) (proposer : Bytes) → P s → RunsInto P (reward_proposer proposer s)
  unfolding reward_proposer
  reward_proposer-RunsInto s proposer h =
      if_cases (RunsInto P) (equal proposer []) h
        (elim (Option-cases (distribute_reward s proposer)) [
          | inl e ↦ rw e tt
          | inr (s', e) ↦ rw e (reward_keeps s s' proposer e h)
        ])

  apply_txs-EndsIn :
      (s : State) (i : ℕ) (txs : List Transaction) → P s → EndsIn P (apply_txs s i txs)
  unfolding apply_txs
  apply_txs-EndsIn s i [] h = h
  apply_txs-EndsIn s i (tx ∷ txs) h =
      let ih = apply_txs-EndsIn (apply_tx s tx).0 (i + 1) txs (tx_keeps s tx h) in
      elim (Option-cases (apply_tx s tx).1) [
        | inl e ↦ rw (e, EndsIn) ih
        | inr (reason, e) ↦ rw (e, EndsIn) tt
      ]

  apply-RunsInto : (s : State) (b : Block) → P s → RunsInto P (apply s b)
  unfolding apply
  apply-RunsInto s b h =
      let txs = apply_txs-EndsIn s 0 b.transactions h in
      elim (Result-cases (apply_txs s 0 b.transactions)) [
        | inr (er, e) ↦ rw (e, apply) tt
        | inl (s', e) ↦
            rw (e, apply) (reward_proposer-RunsInto s' b.proposer (subst (EndsIn P) e txs))
      ]

  apply_all-keeps :
      (s : State) (bs : List Block) (t : State) → apply_all s bs ≡ some (ok t) → P s → P t
  unfolding apply_all
  apply_all-keeps s [] t h w = let same : s ≡ t = cc in subst P same w
  apply_all-keeps s (b ∷ bs) t h w =
      let (s1, e, h1) = continue-ok (apply s b) (λ s'. apply_all s' bs) t h in
      apply_all-keeps s1 bs t h1 (subst (RunsInto P) e (apply-RunsInto s b w))

  pub replay_blocks-keeps :
      (genesis : Block) (blocks : List Block) (t : State)
      → replay_blocks (genesis ∷ blocks) ≡ some (ok t)
      → P (genesis_state genesis)
      → P t
  unfolding replay_blocks
  replay_blocks-keeps genesis blocks t h start = elim (Bool-cases (eqb_ℤ genesis.height (pos 0))) [
    | inr bad ↦ let h' = rw bad at h in cc
    | inl at_zero ↦ elim (Bool-cases (length genesis.transactions == 0)) [
      | inr bad ↦ let h' = rw (at_zero, bad) at h in cc
      | inl empty ↦
          apply_all-keeps (genesis_state genesis) blocks t (rw (at_zero, empty) at h) start
    ]
  ]
