-- ===== src/Ledger.antt =====
-- chain/state.go: a block applied to the ledger, and a chain of blocks replayed from genesis.
pub mod Supply
pub mod Runs
pub mod Invariant
pub mod WellFormed
use dylchain.Base.{
  ℕ, zero, suc, ◌+◌, ◌-◌, ◌*◌, ◌/◌, ◌%◌, ◌^◌, ◌≤◌, ◌<◌, ◌≡◌, refl, sym, ap, ◌∙◌, subst, ◌≢◌, ◌↔◌,
  ◌⊎◌, inl, inr, Bool, true, false, not, ◌&&◌, ◌||◌, Option, none, some, List, [], ◌∷◌, ◌++◌, map,
  append_assoc, append-nil, arith, ltb, leb, ◌==◌, if◌then◌else◌, ltb→lt, lt→ltb, leb→le, ==_iff,
  tests, Bool-cases, Option-cases, length, get_elem?, set, take, drop, replicate, All,
  length-append, length-set, take-append-drop, length-take, length-drop, length-map,
  append-injective, Result-cases, >>=-eq-some, Result, ok, err, ◌>>=◌,
}
use dylchain.Base.Int.{
  u64_mod, add_u64, sub_u64, ℤ, pos, negsuc, pos_part, neg_part, sub_ℕ, ◌+ℤ◌, ◌-ℤ◌, ◌≤ℤ◌, ltb_ℤ,
  eqb_ℤ, to_u64, of_u64, add_i64, sub_i64, +ℤ_parts, -ℤ_parts, eq_of_parts, int_laws,
  add_i64-one-ne, add_i64-pos, IsI64, to_u64-injective, to_u64-lt,
}
use dylchain.Bytes.{Bytes, text, equal, equal_iff, equal_refl, IsBytes}
use dylchain.Dict.{
  Dict, lookup, get_or, insert, erase, IsMap, lookup-insert, get_or-insert, lookup-erase_ne,
  get_or-eq-lookup, insert-IsMap, erase-IsMap, lookup-erase_self,
}
use dylchain.Crypto.{Crypto}
use dylchain.Transaction.{Transaction}
use dylchain.Block.{Block}
use dylchain.State.{State, TxError, Effect, new_state, apply_tx}
use dylchain.Reward.{distribute_reward}

pub data BlockError : Type 0 where
  -- the index of the transaction that is refused, and why
  tx_refused : ℕ → TxError → BlockError
  no_blocks bad_genesis_height genesis_transactions : BlockError

-- What a Go function does: it returns a state or an error, or it panics (`none`).
abbrev pub Run : Type 0
Run = Option (Result BlockError State)

-- One iteration of the loop of `Apply`.
abbrev pub refuse : ℕ → TxError → Run
refuse i e = some (err (tx_refused i e))

-- `if err != nil { return ... }`, and otherwise on with the ledger.
abbrev pub continue {ℓ} :
    {A : Type ℓ} {E : Type 0} → (State → Option (Result E A)) → Result E State → Option (Result E A)
continue k (err e) = some (err e)
continue k (ok s) = k s

-- The reward, for a block that names a proposer.
unfoldable pub reward_proposer : Bytes → State → Run
reward_proposer proposer s =
    if equal proposer [] then some (ok s) else (do s' ← distribute_reward s proposer; some (ok s'))

module _ ⦃c : Crypto⦄ where
  -- The loop of `Apply` over the block's transactions, from index `i`. The state is a clone of the
  -- caller's: its maps are not shared.
  unfoldable pub apply_txs : State → ℕ → List Transaction → Result BlockError State
  apply_txs s i [] = ok s
  apply_txs s i (tx ∷ txs) =
      let (s', e) = apply_tx s tx in
      elim e [ some reason ↦ err (tx_refused i reason) | none ↦ apply_txs s' (i + 1) txs ]

  unfoldable pub apply : State → Block → Run
  unfolding apply_txs reward_proposer
  apply s block = elim (apply_txs s 0 block.transactions) [
    | err e ↦ some (err e)
    | ok s' ↦ reward_proposer block.proposer s'
  ]

  -- The loop of `ReplayBlocks` over the blocks after genesis.
  unfoldable pub apply_all : State → List Block → Run
  unfolding apply
  apply_all s [] = some (ok s)
  apply_all s (b ∷ bs) = apply s b >>= continue (λ s'. apply_all s' bs)

  unfoldable pub genesis_state : Block → State
  unfolding new_state
  genesis_state genesis = record (new_state genesis.alloc) { validator_base = genesis.validators }

  unfoldable pub replay_blocks : List Block → Run
  unfolding apply_all genesis_state
  replay_blocks [] = some (err no_blocks)
  replay_blocks (genesis ∷ blocks) =
      if not (eqb_ℤ genesis.height (pos 0))
      then some (err bad_genesis_height)
      else if not (length genesis.transactions == 0)
      then some (err genesis_transactions)
      else apply_all (genesis_state genesis) blocks
