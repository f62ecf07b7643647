-- ===== src/Ledger/Runs.antt =====
-- Runs of chain/state.go that return a ledger, one block after another.
use dylchain.Base.{
  ◌≡◌, refl, inl, inr, none, some, List, [], ◌∷◌, ◌++◌, ◌==◌, Bool-cases, length, ok, err, ◌>>=◌,
}
use dylchain.Base.Int.{pos, eqb_ℤ}
use dylchain.Crypto.{Crypto}
use dylchain.Block.{Block}
use dylchain.State.{State}
use dylchain.Ledger.{Run, apply, apply_all, continue, genesis_state, replay_blocks}

-- A run that goes on and returns has returned first.
pub continue-ok :
    (m : Run) (k : State → Run) (t : State)
    → (m >>= continue k) ≡ some (ok t)
    → (s : State) × (m ≡ some (ok s)) × (k s ≡ some (ok t))
continue-ok none k t h = cc
continue-ok (some (err e)) k t h = cc
continue-ok (some (ok s)) k t h = (s, refl, h)

module _ ⦃c : Crypto⦄ where
  apply_all-append :
      (s t u : State) (bs : List Block) (b : Block)
      → apply_all s bs ≡ some (ok t)
      → apply t b ≡ some (ok u)
      → apply_all s (bs ++ b ∷ []) ≡ some (ok u)
  unfolding apply_all
  apply_all-append s t u [] b h k = let same : s ≡ t = cc in rw (same, k)
  apply_all-append s t u (x ∷ bs) b h k =
      let (s1, e, h1) = continue-ok (apply s x) (λ s'. apply_all s' bs) t h in
      rw e (apply_all-append s1 t u bs b h1 k)

  -- Replaying one more block is replaying, and then applying it.
  pub replay_blocks-append :
      (bs : List Block) (b : Block) (t u : State)
      → replay_blocks bs ≡ some (ok t)
      → apply t b ≡ some (ok u)
      → replay_blocks (bs ++ b ∷ []) ≡ some (ok u)
  unfolding replay_blocks
  replay_blocks-append [] b t u h k = cc
  replay_blocks-append (genesis ∷ bs) b t u h k = elim (Bool-cases (eqb_ℤ genesis.height (pos 0))) [
    | inr bad ↦ let h' = rw bad at h in cc
    | inl at_zero ↦ elim (Bool-cases (length genesis.transactions == 0)) [
      | inr bad ↦ let h' = rw (at_zero, bad) at h in cc
      | inl empty ↦
          rw (at_zero, empty)
            (apply_all-append (genesis_state genesis) t u bs b (rw (at_zero, empty) at h) k)
    ]
  ]
