-- ===== src/Tests/Chains.antt =====
-- Chains at a concrete genesis, and at the block that its proposer builds.
use dylchain.Base.{◌≡◌, refl, ◌≢◌, none, some, [], ◌∷◌, ◌++◌, arith, All, ok}
use dylchain.Base.Int.{pos, negsuc, add_i64}
use dylchain.Bytes.{Bytes, equal}
use dylchain.Transaction.{Transaction, signable_bytes}
use dylchain.Transaction.Signable.{IsSeparable, signable_bytes-injective}
use dylchain.Seal.{verify_block_signature, sign_block, verify_block_signature-sign}
use dylchain.State.{State}
use dylchain.Ledger.{replay_blocks}
use dylchain.Chain.{Chain, tip, commit_block, check_candidate, new_chain}
use dylchain.Chain.Consistent.{
  Linked, IsSealed, IsConsistent, commit_block-IsConsistent, new_chain-IsConsistent,
}
use dylchain.Chain.Validate.{validate}
use dylchain.State.Accounts.{view}
use dylchain.Chain.Accepted.{validate-consistent, validate_sound}
use dylchain.Proposal.{propose, propose-candidate}
use dylchain.Tests.Fixtures.{
  toy, toy_laws, alice, genesis, young, alice_validator, queue, proposal, grown,
}

pub young-IsConsistent : IsConsistent young
unfolding young genesis replay_blocks
young-IsConsistent = record {
  linked = tt;
  sealed = ((λ n. absurd (n refl), refl), tt);
  replayed = refl;
}

new_chain-IsConsistent_example :
    (ch : Chain) × (new_chain ((alice, 100) ∷ []) (pos 0) ≡ some ch) × IsConsistent ch
new_chain-IsConsistent_example = new_chain-IsConsistent ((alice, 100) ∷ []) (pos 0)

propose-candidate_example : (next : State) × (check_candidate young proposal.0 ≡ some (ok next))
unfolding young tip add_i64 alice_validator propose proposal
propose-candidate_example =
    propose-candidate toy_laws young queue proposal.1 (pos 0) (pos 1) (pos 5) alice_validator
      genesis proposal.0 refl refl refl (record { distinct = tt; room = omega arith }) refl

commit_block-IsConsistent_example :
    IsConsistent grown
    × (grown.blocks ≡ young.blocks ++ proposal.0 ∷ [])
    × (proposal.0.proposer ≢ [])
    × (verify_block_signature proposal.0 ≡ none)
unfolding commit_block young proposal add_i64 equal dylchain.Seal.block_hash
    dylchain.Merkle.merkle_root dylchain.State.apply_tx dylchain.Address.valid_address
    dylchain.Address.pub_key_from_address dylchain.Address.Hex.decode_string dylchain.Dict.get_or
    dylchain.Merkle.hash verify_block_signature dylchain.Ledger.apply
    dylchain.Reward.distribute_reward grown
commit_block-IsConsistent_example =
    commit_block-IsConsistent young proposal.0 grown refl young-IsConsistent

validate-consistent_example : validate grown ≡ some none
unfolding grown add_i64 equal dylchain.Seal.block_hash dylchain.Merkle.merkle_root
    dylchain.State.apply_tx dylchain.Address.valid_address dylchain.Address.pub_key_from_address
    dylchain.Address.Hex.decode_string dylchain.Dict.get_or dylchain.Merkle.hash
    verify_block_signature dylchain.Ledger.apply dylchain.Reward.distribute_reward
    dylchain.Dict.lookup
validate-consistent_example =
    validate-consistent grown ((refl, tt), (tt, tt))
      (commit_block-IsConsistent young proposal.0 grown refl young-IsConsistent).0

validate_sound_example :
    Linked grown.blocks
    × All IsSealed grown.blocks
    × (s : State) × (replay_blocks grown.blocks ≡ some (ok s))
    × (view s ≡ view grown.state)
unfolding grown add_i64 equal dylchain.Seal.block_hash dylchain.Merkle.merkle_root
    dylchain.State.apply_tx dylchain.Address.valid_address dylchain.Address.pub_key_from_address
    dylchain.Address.Hex.decode_string dylchain.Dict.get_or dylchain.Merkle.hash
    verify_block_signature dylchain.Ledger.apply dylchain.Reward.distribute_reward
    dylchain.Dict.lookup
validate_sound_example = validate_sound grown ((refl, tt), (tt, tt)) validate-consistent_example

abbrev small : Transaction
small = record {
  kind = [];
  from = 1 ∷ [];
  to = 2 ∷ [];
  amount = 7;
  nonce = negsuc 0;
  signature = [];
}

abbrev small_again : Transaction
small_again = record small { signature = 9 ∷ [] }

small-IsSeparable : (signature : Bytes) → IsSeparable (record small { signature = signature })
small-IsSeparable signature = record {
  kind_clean = tt;
  from_clean = ((λ e. absurd (omega (arith, e))), tt);
  to_clean = ((λ e. absurd (omega (arith, e))), tt);
  amount_u64 = omega arith;
  nonce_i64 = omega arith;
}

signable_bytes-injective_example :
    (small.kind ≡ small_again.kind)
    × (small.from ≡ small_again.from)
    × (small.to ≡ small_again.to)
    × (small.amount ≡ small_again.amount)
    × (small.nonce ≡ small_again.nonce)
unfolding signable_bytes
signable_bytes-injective_example =
    signable_bytes-injective small small_again (small-IsSeparable []) (small-IsSeparable (9 ∷ []))
      refl
