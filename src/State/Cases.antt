-- ===== src/State/Cases.antt =====
-- `applyTx` of chain/state.go, case by case: what holds of every refusal and of every kind's effect
-- holds of the transaction's.
use dylchain.Base.{not, ◌&&◌, some, [], ◌==◌, if_cases, Result, ok, err}
use dylchain.Base.Int.{eqb_ℤ}
use dylchain.Bytes.{Bytes, equal}
use dylchain.Crypto.{Crypto}
use dylchain.Address.{AddressError, pub_key_from_address, valid_address}
use dylchain.Transaction.{
  Transaction, kind_transfer, kind_delegate, kind_undelegate, signable_bytes,
}
use dylchain.State.{
  State, TxError, bad_sender, Effect, nonce_of, transfer, delegate, undelegate, apply_kind,
  count_nonce, authenticated, apply_tx,
}

module _ {ℓ} (P : Effect → Type ℓ) (s : State) (tx : Transaction)
    (refused : (e : TxError) → P (s, some e)) where
  pub apply_kind_cases :
      P (transfer s tx) → P (delegate s tx) → P (undelegate s tx) → P (apply_kind s tx)
  unfolding apply_kind
  apply_kind_cases t d u = if_cases P (equal tx.kind kind_transfer) t (
      if_cases P (equal tx.kind kind_delegate) d
        (if_cases P (equal tx.kind kind_undelegate) u (refused _)))

  module _ ⦃c : Crypto⦄ where
    authenticated_cases :
        (key : Bytes) → P (count_nonce tx.from (apply_kind s tx)) → P (authenticated s tx key)
    unfolding authenticated
    authenticated_cases key done =
        if_cases P (not (c.verify key (signable_bytes tx) tx.signature)) (refused _)
          (if_cases P (not (eqb_ℤ tx.nonce (nonce_of s tx.from))) (refused _) done)

    sender_cases :
        (r : Result AddressError Bytes)
        → P (count_nonce tx.from (apply_kind s tx))
        → P (elim r [ err e ↦ (s, some bad_sender) | ok key ↦ authenticated s tx key ])
    sender_cases (ok key) done = authenticated_cases key done
    sender_cases (err e) done = refused bad_sender

    pub apply_tx_cases : P (count_nonce tx.from (apply_kind s tx)) → P (apply_tx s tx)
    unfolding apply_tx
    apply_tx_cases done = if_cases P (equal tx.from []) (refused _) (
        if_cases P (tx.amount == 0) (refused _) (
          if_cases P (not (valid_address tx.to)) (refused _) (
            if_cases P (equal tx.kind kind_transfer && equal tx.from tx.to) (refused _)
              (sender_cases (pub_key_from_address tx.from) done))))
