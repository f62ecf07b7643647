-- ===== src/Chain.antt =====
-- chain/chain.go: a chain of blocks with the ledger that they lead to.
pub mod Consistent
pub mod Validate
pub mod Compared
pub mod Accepted
use dylchain.Base.{
  ℕ, zero, suc, ◌+◌, ◌-◌, ◌*◌, ◌/◌, ◌%◌, ◌^◌, ◌≤◌, ◌<◌, ◌≡◌, refl, sym, ap, ◌∙◌, subst, ◌≢◌, ◌↔◌,
  ◌⊎◌, inl, inr, Bool, true, false, not, ◌&&◌, ◌||◌, Option, none, some, List, [], ◌∷◌, ◌++◌, map,
  append_assoc, append-nil, arith, ltb, leb, ◌==◌, if◌then◌else◌, ltb→lt, lt→ltb, leb→le, ==_iff,
  tests, Bool-cases, Option-cases, length, get_elem?, set, take, drop, replicate, All,
  length-append, length-set, take-append-drop, length-take, length-drop, length-map,
  append-injective, Result-cases, >>=-eq-some, Result, ok, err, ◌>>=◌,
}
use dylchain.Base.Int.{
  u64_mod, add_u64, sub_u64, ℤ, pos, negsuc, pos_part, neg_part, sub_ℕ, ◌+ℤ◌, ◌-ℤ◌, ◌≤ℤ◌, ltb_ℤ,
  eqb_ℤ, to_u64, of_u64, add_i64, sub_i64, +ℤ_parts, -ℤ_parts, eq_of_parts, int_laws,
  add_i64-one-ne, add_i64-pos, IsI64, to_u64-injective, to_u64-lt,
}
use dylchain.Bytes.{Bytes, text, equal, equal_iff, equal_refl, IsBytes}
use dylchain.Dict.{
  Dict, lookup, get_or, insert, erase, IsMap, lookup-insert, get_or-insert, lookup-erase_ne,
  get_or-eq-lookup, insert-IsMap, erase-IsMap, lookup-erase_self,
}
use dylchain.Crypto.{Crypto}
use dylchain.Transaction.{Transaction}
use dylchain.Block.{Block}
use dylchain.Merkle.{merkle_root}
use dylchain.Seal.{SealError, block_hash, verify_block_signature, genesis_block}
use dylchain.State.{State}
use dylchain.Ledger.{BlockError, apply, replay_blocks}

pub record Chain : Type 0 where
  pub blocks : List Block
  pub state : State

pub data ChainError : Type 0 where
  wrong_height wrong_previous_hash wrong_root no_proposer : ChainError
  bad_seal : SealError → ChainError
  not_applied : BlockError → ChainError

-- A method of `*Chain`: the chain that it leaves behind and its error, or `none` if it panics.
abbrev pub Update : Type 0
Update = Option (Chain × Option ChainError)

-- The last block; reading the tip of an empty chain panics.
unfoldable pub tip : List Block → Option Block
tip [] = none
tip (b ∷ []) = some b
tip (b ∷ d ∷ bs) = tip (d ∷ bs)

-- The end of `AddBlock` and `CommitBlock`: move to the next state and append the block.
unfoldable pub advance : Chain → Block → Result BlockError State → Chain × Option ChainError
advance ch b (err e) = (ch, some (not_applied e))
advance ch b (ok next) = (record { blocks = ch.blocks ++ b ∷ []; state = next }, none)

unfoldable pub commit_checked : Chain → Block → Result ChainError State → Chain × Option ChainError
commit_checked ch b (err e) = (ch, some e)
commit_checked ch b (ok next) = (record { blocks = ch.blocks ++ b ∷ []; state = next }, none)

abbrev pub as_candidate : Result BlockError State → Result ChainError State
as_candidate (err e) = err (not_applied e)
as_candidate (ok next) = ok next

module _ ⦃c : Crypto⦄ where
  -- newChainFromGenesis; `none` is a panic of the replay.
  unfoldable pub new_chain_from_genesis : Block → Option (Result BlockError Chain)
  new_chain_from_genesis genesis = do
    r ← replay_blocks (genesis ∷ [])
    elim r [ err e ↦ some (err e) | ok s ↦ some (ok (record { blocks = genesis ∷ []; state = s })) ]

  -- NewChain: an invalid genesis panics.
  unfoldable pub new_chain : Dict ℕ → ℤ → Option Chain
  unfolding new_chain_from_genesis
  new_chain alloc now = do
    r ← new_chain_from_genesis (genesis_block alloc [] now)
    elim r [ err e ↦ none | ok ch ↦ some ch ]

  -- The block that `AddBlock` builds on a tip.
  unfoldable pub next_block : Block → List Transaction → ℤ → Block
  next_block previous txs now = record {
    transactions = txs;
    tx_root = merkle_root txs;
    previous_hash = block_hash previous;
    created_at = now;
    height = add_i64 previous.height (pos 1);
    alloc = [];
    validators = [];
    proposer = [];
    signature = [];
  }

  unfoldable pub add_block : Chain → List Transaction → ℤ → Update
  unfolding tip advance next_block
  add_block ch txs now = do
    previous ← tip ch.blocks
    let b = next_block previous txs now
    r ← apply ch.state b
    some (advance ch b r)

  -- The checks of `checkCandidate` before the block is applied, in their order.
  unfoldable pub candidate_error : Block → Block → Option ChainError
  candidate_error previous b =
      if not (eqb_ℤ b.height (add_i64 previous.height (pos 1)))
      then some wrong_height
      else if not (equal b.previous_hash (block_hash previous))
      then some wrong_previous_hash
      else if not (equal b.tx_root (merkle_root b.transactions))
      then some wrong_root
      else if equal b.proposer []
      then some no_proposer
      else elim (verify_block_signature b) [ some e ↦ some (bad_seal e) | none ↦ none ]

  unfoldable pub check_candidate : Chain → Block → Option (Result ChainError State)
  unfolding tip candidate_error
  check_candidate ch b = do
    previous ← tip ch.blocks
    elim (candidate_error previous b) [
      | some e ↦ some (err e)
      | none ↦ (do r ← apply ch.state b; some (as_candidate r))
    ]

  unfoldable pub commit_block : Chain → Block → Update
  unfolding check_candidate commit_checked
  commit_block ch b = do r ← check_candidate ch b; some (commit_checked ch b r)
