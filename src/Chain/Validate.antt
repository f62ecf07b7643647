-- ===== src/Chain/Validate.antt =====
-- `Validate` of chain/chain.go.
use dylchain.Base.{
  ℕ, ◌+◌, Bool, true, not, ◌&&◌, Option, none, some, List, [], ◌∷◌, ◌==◌, if◌then◌else◌, length, ok,
  err, ◌>>=◌,
}
use dylchain.Base.Int.{pos, eqb_ℤ, add_i64}
use dylchain.Bytes.{equal}
use dylchain.Dict.{Dict, get_or}
use dylchain.Dict.Equal.{maps_equal}
use dylchain.Crypto.{Crypto}
use dylchain.Block.{Block}
use dylchain.Merkle.{merkle_root}
use dylchain.Seal.{SealError, block_hash, verify_block_signature}
use dylchain.State.{State}
use dylchain.Ledger.{BlockError, replay_blocks}
use dylchain.Chain.{Chain}

-- Each with the index of the block at fault, where the code reports one.
pub data ValidateError : Type 0 where
  unsealed : ℕ → SealError → ValidateError
  root_mismatch hash_mismatch height_mismatch : ℕ → ValidateError
  not_replayed : BlockError → ValidateError
  balances_differ nonces_differ delegations_differ : ValidateError

-- The loop of `delegationsEqual`: a missing delegator reads as an empty map.
unfoldable pub delegators_in : Dict (Dict ℕ) → Dict (Dict ℕ) → Bool
unfolding maps_equal
delegators_in [] b = true
delegators_in ((d, m) ∷ a) b = maps_equal ◌==◌ m (get_or b d []) && delegators_in a b

unfoldable pub delegations_equal : Dict (Dict ℕ) → Dict (Dict ℕ) → Bool
unfolding delegators_in
delegations_equal a b = (length a == length b) && delegators_in a b

-- The last three tests: the replayed ledger against the chain's.
unfoldable pub states_differ : State → State → Option ValidateError
unfolding maps_equal delegations_equal
states_differ replayed own =
    if not (maps_equal ◌==◌ replayed.balances own.balances)
    then some balances_differ
    else if not (maps_equal eqb_ℤ replayed.nonces own.nonces)
    then some nonces_differ
    else if not (delegations_equal replayed.delegations own.delegations)
    then some delegations_differ
    else none

module _ ⦃c : Crypto⦄ where
  -- The first loop, from block `i`.
  unfoldable pub check_bodies : ℕ → List Block → Option ValidateError
  check_bodies i [] = none
  check_bodies i (b ∷ bs) =
      let seal = if equal b.proposer [] then none else verify_block_signature b in
      let rest = check_bodies (i + 1) bs in
      elim seal [
        | some e ↦ some (unsealed i e)
        | none ↦
            if not (equal b.tx_root (merkle_root b.transactions))
            then some (root_mismatch i)
            else rest
      ]

  -- The second loop, over adjacent pairs.
  unfoldable pub check_links : ℕ → List Block → Option ValidateError
  check_links i [] = none
  check_links i (a ∷ []) = none
  check_links i (a ∷ b ∷ bs) =
      let rest = check_links (i + 1) (b ∷ bs) in
      if not (equal (block_hash a) b.previous_hash)
      then some (hash_mismatch (i + 1))
      else if not (eqb_ℤ (add_i64 a.height (pos 1)) b.height)
      then some (height_mismatch (i + 1))
      else rest

  -- `none` is a panic of the replay, `some none` a nil error.
  unfoldable pub validate : Chain → Option (Option ValidateError)
  unfolding check_bodies check_links states_differ
  validate ch = elim (check_bodies 0 ch.blocks) [
    | some e ↦ some (some e)
    | none ↦ elim (check_links 0 ch.blocks) [
      | some e ↦ some (some e)
      | none ↦ (do
        r ← replay_blocks ch.blocks
        elim r [ err e ↦ some (some (not_replayed e)) | ok s ↦ some (states_differ s ch.state) ])
    ]
  ]
