-- ===== src/Tests/Ledgers.antt =====
-- The ledger's operations at a concrete ledger, with a signed transfer.
use dylchain.Base.{◌+◌, ◌≡◌, refl, some, [], ◌∷◌, arith}
use dylchain.Base.Int.{add_i64}
use dylchain.Bytes.{equal}
use dylchain.Dict.{
  Dict, lookup, get_or, insert, erase, IsMap, lookup-insert, get_or-insert, lookup-erase_ne,
  get_or-eq-lookup, insert-IsMap, erase-IsMap, lookup-erase_self,
}
use dylchain.Address.{derive_address, pub_key_from_address, valid_address}
use dylchain.Coin.{block_reward, format_amount}
use dylchain.Coin.Shown.{read_amount, format_amount-reads}
use dylchain.Dict.Sums.{sum}
use dylchain.State.{State, apply_tx, supply}
use dylchain.State.{nonce_of, bad_nonce, insufficient_balance}
use dylchain.State.Replay.{apply_tx-apply_tx}
use dylchain.Base.{some}
use dylchain.Base.Int.{pos, add_i64}
use dylchain.State.Supply.{total, apply_tx-supply}
use dylchain.State.Effects.{apply_tx-refused}
use dylchain.Reward.{distribute_reward}
use dylchain.Reward.Bounds.{distribute_reward-exact}
use dylchain.Ledger.{replay_blocks}
use dylchain.Ledger.Supply.{Supplied, minted_all, replay_blocks-supply}
use dylchain.Tests.Fixtures.{toy, alice, signed_transfer, rich, genesis, proposal}
use dylchain.State.WellFormed.{IsWellFormed}
use dylchain.State.Accounts.{view, intended}
use dylchain.State.View.{view_effect}
use dylchain.State.Refinement.{apply_tx-intended}

apply_tx-supply_example :
    (total (apply_tx rich signed_transfer).0 ≡ total rich)
    × (supply (apply_tx rich signed_transfer).0 ≡ supply rich)
unfolding rich
apply_tx-supply_example = apply_tx-supply rich signed_transfer (omega arith)

-- Alice has less than she sends, and everything else about the transfer is in order.
abbrev poor : State
poor = record rich { balances = (alice, 3) ∷ [] }

apply_tx-refused_example : (apply_tx poor signed_transfer).0 ≡ poor
unfolding rich signed_transfer apply_tx equal alice dylchain.Address.valid_address
    dylchain.Address.pub_key_from_address dylchain.Address.Hex.decode_string dylchain.Dict.get_or
apply_tx-refused_example = apply_tx-refused poor signed_transfer insufficient_balance refl

distribute_reward-exact_example :
    (s' : State) × (distribute_reward rich alice ≡ some s') × (total s' ≡ total rich + block_reward)
unfolding rich get_or equal
distribute_reward-exact_example = distribute_reward-exact rich alice tt (omega arith) (omega arith)

replay_blocks-supply_example :
    Supplied
      (sum genesis.alloc + minted_all (proposal.0 ∷ []))
      (replay_blocks (genesis ∷ proposal.0 ∷ []))
unfolding genesis equal proposal
replay_blocks-supply_example = replay_blocks-supply genesis (proposal.0 ∷ []) (omega arith)

apply_tx-apply_tx_example :
    let s' = (apply_tx rich signed_transfer).0 in
    (nonce_of s' signed_transfer.from ≡ add_i64 signed_transfer.nonce (pos 1))
    × (apply_tx s' signed_transfer ≡ (s', some bad_nonce))
unfolding rich signed_transfer apply_tx equal dylchain.Address.valid_address
    dylchain.Address.pub_key_from_address dylchain.Address.Hex.decode_string dylchain.Dict.get_or
apply_tx-apply_tx_example = apply_tx-apply_tx rich signed_transfer refl

rich-IsWellFormed : IsWellFormed rich
unfolding rich lookup
rich-IsWellFormed = record {
  balances_map = (refl, tt);
  nonces_map = tt;
  delegations_map = tt;
  inner_maps = tt;
}

apply_tx-intended_example :
    view_effect (apply_tx rich signed_transfer) ≡ intended signed_transfer (view rich)
unfolding rich
apply_tx-intended_example = apply_tx-intended rich signed_transfer rich-IsWellFormed (omega arith)

format_amount-reads_example : read_amount 0 (format_amount 12_500_000) ≡ 12_500_000
format_amount-reads_example = format_amount-reads 12_500_000 (omega arith)
