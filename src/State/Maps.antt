-- ===== src/State/Maps.antt =====
-- The maps of the ledger under `applyTx` of chain/state.go, and the genesis stakes.
use dylchain.Base.{ℕ, ◌≡◌, inl, inr, none, some, [], arith, Result-cases}
use dylchain.Base.Int.{add_u64, sub_u64}
use dylchain.Bytes.{Bytes}
use dylchain.Dict.{Dict, get_or, insert, erase, IsMap, insert-IsMap, erase-IsMap}
use dylchain.Crypto.{Crypto}
use dylchain.Address.{pub_key_from_address}
use dylchain.Transaction.{Transaction}
use dylchain.State.{
  State, Effect, transfer, delegate, release, undelegate, apply_kind, count_nonce, authenticated,
  apply_tx,
}

-- The outer map of delegations has distinct keys, and the genesis stakes are those of `s`.
abbrev pub Keeps : State → State → Type 0
Keeps s s' = (IsMap s.delegations → IsMap s'.delegations) × (s'.validator_base ≡ s.validator_base)

release-IsMap :
    (d : Dict (Dict ℕ)) (from to : Bytes) (amount : ℕ) → IsMap d → IsMap (release d from to amount)
unfolding release
release-IsMap d from to amount h =
    let held = get_or d from [] in
    ground (
      arith,
      erase-IsMap from d h,
      insert-IsMap from (erase to held) d h,
      insert-IsMap from (insert to (sub_u64 (get_or held to 0) amount) held) d h,
    )

delegate-Keeps : (s : State) (tx : Transaction) → Keeps s (delegate s tx).0
unfolding delegate
delegate-Keeps s tx =
    let held = get_or s.delegations tx.from [] in
    let bonded = insert tx.to (add_u64 (get_or held tx.to 0) tx.amount) held in
    (λ h. ground (arith, insert-IsMap tx.from bonded s.delegations h), ground arith)

undelegate-Keeps : (s : State) (tx : Transaction) → Keeps s (undelegate s tx).0
unfolding undelegate
undelegate-Keeps s tx =
    (λ h. ground (arith, release-IsMap s.delegations tx.from tx.to tx.amount h), ground arith)

apply_kind-Keeps : (s : State) (tx : Transaction) → Keeps s (apply_kind s tx).0
unfolding apply_kind transfer
apply_kind-Keeps s tx =
    let (d, db) = delegate-Keeps s tx in
    let (u, ub) = undelegate-Keeps s tx in (λ h. ground (arith, d h, u h), ground (arith, db, ub))

count_nonce-Keeps :
    (s : State) (from : Bytes) (e : Effect) → Keeps s e.0 → Keeps s (count_nonce from e).0
unfolding count_nonce
count_nonce-Keeps s from (s', none) h = h
count_nonce-Keeps s from (s', some e) h = h

module _ ⦃c : Crypto⦄ where
  authenticated-Keeps :
      (s : State) (tx : Transaction) (key : Bytes) → Keeps s (authenticated s tx key).0
  unfolding authenticated
  authenticated-Keeps s tx key =
      let (m, b) = count_nonce-Keeps s tx.from (apply_kind s tx) (apply_kind-Keeps s tx) in
      (λ h. ground (arith, m h), ground (arith, b))

  pub apply_tx-Keeps : (s : State) (tx : Transaction) → Keeps s (apply_tx s tx).0
  unfolding apply_tx
  apply_tx-Keeps s tx = elim (Result-cases (pub_key_from_address tx.from)) [
    | inl (key, e) ↦
        let (m, b) = authenticated-Keeps s tx key in
        rw e (λ h. ground (arith, m h), ground (arith, b))
    | inr (er, e) ↦ rw e (λ h. ground arith, ground arith)
  ]
