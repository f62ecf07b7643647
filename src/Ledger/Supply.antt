-- ===== src/Ledger/Supply.antt =====
-- The supply of a whole chain of blocks in chain/state.go.
use dylchain.Base.{
  ℕ, ◌+◌, ◌<◌, ◌≡◌, refl, ap, ◌∙◌, subst, inl, inr, none, some, List, [], ◌∷◌, arith, if◌then◌else◌,
  Bool-cases, Option-cases, Result-cases, Result, ok, err, ◌>>=◌,
}
use dylchain.Base.Int.{u64_mod}
use dylchain.Bytes.{equal}
use dylchain.Dict.{IsMap}
use dylchain.Coin.{block_reward}
use dylchain.Crypto.{Crypto}
use dylchain.Dict.Sums.{sum, get_or-le-sum}
use dylchain.Transaction.{Transaction}
use dylchain.Block.{Block}
use dylchain.State.{State, supply, new_state, apply_tx}
use dylchain.State.Supply.{total, apply_tx-Conserves, supply-eq-total}
use dylchain.State.Maps.{Keeps, apply_tx-Keeps}
use dylchain.Reward.Mint.{distribute_reward-mints}
use dylchain.Reward.Bounds.{distribute_reward-exact}
use dylchain.Ledger.{
  BlockError, Run, apply_txs, reward_proposer, apply, apply_all, continue, genesis_state,
  replay_blocks,
}

-- What applying a block mints.
abbrev pub minted : Block → ℕ
minted b = if equal b.proposer [] then 0 else block_reward

abbrev pub minted_all : List Block → ℕ
minted_all [] = 0
minted_all (b ∷ bs) = minted b + minted_all bs

-- A ledger whose tokens and genesis stakes, with `extra` to come, fit 64 bits.
pub record HasRoom (s : State) (extra : ℕ) : Type 0 where
  pub distinct : IsMap s.delegations
  pub room : total s + sum s.validator_base + extra < u64_mod

-- What a run without a panic leaves behind: an error, or a ledger with `gain` more tokens that
-- has the room that is left.
abbrev pub Grows : State → ℕ → ℕ → Run → Type 0
Grows s gain left none = ⊥
Grows s gain left (some (err e)) = Unit
Grows s gain left (some (ok s')) = (total s' ≡ total s + gain) × HasRoom s' left

-- What the loop over a block's transactions leaves behind, when it does not stop at an error.
abbrev Preserves : State → Result BlockError State → Type 0
Preserves s (err e) = Unit
Preserves s (ok s') = (total s' ≡ total s) × Keeps s s'

Preserves-trans :
    (s t : State) (r : Result BlockError State)
    → total t ≡ total s
    → Keeps s t
    → Preserves t r
    → Preserves s r
Preserves-trans s t (err e) h k p = tt
Preserves-trans s t (ok s') h k p = (p.0 ∙ h, (λ m. p.1.0 (k.0 m), p.1.1 ∙ k.1))

Grows-trans :
    (s t : State) (a b left gain : ℕ) (r : Run)
    → gain ≡ a + b
    → total t ≡ total s + a
    → Grows t b left r
    → Grows s gain left r
Grows-trans s t a b left gain none e h g = g
Grows-trans s t a b left gain (some (err er)) e h g = tt
Grows-trans s t a b left gain (some (ok s')) e h g = (omega arith, g.1)

Grows-bind :
    (s : State) (a b left gain : ℕ) (r : Run) (k : State → Run)
    → gain ≡ a + b
    → Grows s a (b + left) r
    → ((t : State) → HasRoom t (b + left) → Grows t b left (k t))
    → Grows s gain left (r >>= continue k)
Grows-bind s a b left gain none k e g f = g
Grows-bind s a b left gain (some (err er)) k e g f = tt
Grows-bind s a b left gain (some (ok t)) k e g f =
    Grows-trans s t a b left gain (k t) e g.0 (f t g.1)

-- A run that does not panic, and that leaves a supply of `n` if it returns a ledger.
abbrev pub Supplied : ℕ → Run → Type 0
Supplied n none = ⊥
Supplied n (some (err e)) = Unit
Supplied n (some (ok s)) = supply s ≡ n

Grows-Supplied :
    (s : State) (gain left n : ℕ) (r : Run)
    → n ≡ total s + gain
    → n < u64_mod
    → Grows s gain left r
    → Supplied n r
Grows-Supplied s gain left n none e u g = g
Grows-Supplied s gain left n (some (err er)) e u g = tt
Grows-Supplied s gain left n (some (ok s')) e u g = omega (arith, supply-eq-total s', g.0)

module _ ⦃c : Crypto⦄ where
  apply_txs-Preserves :
      (s : State) (i : ℕ) (txs : List Transaction)
      → total s < u64_mod
      → Preserves s (apply_txs s i txs)
  unfolding apply_txs
  apply_txs-Preserves s i [] u = (refl, (λ m. m, refl))
  apply_txs-Preserves s i (tx ∷ txs) u =
      let (m, exact) = apply_tx-Conserves s tx in
      let same = exact u in
      let s1 = (apply_tx s tx).0 in
      let ih = apply_txs-Preserves s1 (i + 1) txs (omega (arith, same)) in
      elim (Option-cases (apply_tx s tx).1) [
        | inl e ↦ rw (e, Preserves) (Preserves-trans s s1 _ same (apply_tx-Keeps s tx) ih)
        | inr (reason, e) ↦ rw (e, Preserves) tt
      ]

  reward_proposer-Grows :
      (s : State) (b : Block) (left : ℕ)
      → HasRoom s (minted b + left)
      → Grows s (minted b) left (reward_proposer b.proposer s)
  unfolding reward_proposer
  reward_proposer-Grows s b left h = elim (Bool-cases (equal b.proposer [])) [
    | inl e ↦ rw e (omega arith, record { distinct = h.distinct; room = omega (arith, h.room) })
    | inr e ↦
        let self = get_or-le-sum s.validator_base b.proposer in
        let mint : minted b ≡ block_reward = rw e in
        let (s', run, grown) =
          distribute_reward-exact s b.proposer h.distinct (omega (arith, h.room, self))
            (omega (arith, h.room, mint)) in
        let (_, (_, same, base)) = distribute_reward-mints s s' b.proposer run in
        let kept = ap sum base in
        rw (e, run)
          (
            grown,
            record {
              distinct = rw same h.distinct;
              room = omega (arith, h.room, grown, kept, mint);
            },
          )
  ]

  pub apply-Grows :
      (s : State) (b : Block) (left : ℕ)
      → HasRoom s (minted b + left)
      → Grows s (minted b) left (apply s b)
  unfolding apply
  apply-Grows s b left h =
      let txs = apply_txs-Preserves s 0 b.transactions (omega (arith, h.room)) in
      elim (Result-cases (apply_txs s 0 b.transactions)) [
        | inr (er, e) ↦ rw (e, apply) tt
        | inl (s', e) ↦
            let (same, (m, base)) : Preserves s (ok s') = subst (Preserves s) e txs in
            let kept = ap sum base in
            let room' : HasRoom s' (minted b + left) = record {
              distinct = m h.distinct;
              room = omega (arith, h.room, same, kept);
            } in
            rw (e, apply)
              (Grows-trans s s' 0 (minted b) left (minted b) _ (omega arith) (omega (arith, same))
                (reward_proposer-Grows s' b left room'))
      ]

  apply_all-Grows :
      (s : State) (bs : List Block) (left : ℕ)
      → HasRoom s (minted_all bs + left)
      → Grows s (minted_all bs) left (apply_all s bs)
  unfolding apply_all
  apply_all-Grows s [] left h =
      (omega arith, record { distinct = h.distinct; room = omega (arith, h.room) })
  apply_all-Grows s (b ∷ bs) left h =
      Grows-bind s (minted b) (minted_all bs) left (minted b + minted_all bs) (apply s b)
        (λ t. apply_all t bs) refl
        (apply-Grows s b (minted_all bs + left)
          (record { distinct = h.distinct; room = omega (arith, h.room) }))
        (λ t room. apply_all-Grows t bs left room)

  -- A chain whose genesis allocation, genesis stakes and rewards together stay below 2^64 replays
  -- without a panic, and if no block is refused the supply is the allocation plus one reward for
  -- each block that names a proposer.
  pub replay_blocks-supply :
      (genesis : Block) (blocks : List Block)
      → sum genesis.alloc + sum genesis.validators + minted_all blocks < u64_mod
      → Supplied (sum genesis.alloc + minted_all blocks) (replay_blocks (genesis ∷ blocks))
  unfolding replay_blocks genesis_state new_state
  replay_blocks-supply genesis blocks h =
      let s = genesis_state genesis in
      let run = apply_all-Grows s blocks 0 (record { distinct = tt; room = omega arith }) in
      let done =
        Grows-Supplied s (minted_all blocks) 0 (sum genesis.alloc + minted_all blocks)
          (apply_all s blocks) (omega arith) (omega arith) run in
      ground (arith, done)
