-- ===== src/State/Replay.antt =====
-- A transaction of chain/state.go that is sent a second time.
use dylchain.Base.{
  ◌≡◌, refl, sym, ap, ◌∙◌, inl, inr, false, ◌&&◌, none, some, [], arith, ◌==◌, Bool-cases,
}
use dylchain.Base.Int.{pos, eqb_ℤ, add_i64, add_i64-one-ne, eqb_ℤ_iff}
use dylchain.Bytes.{Bytes, equal, equal_iff, equal_refl}
use dylchain.Dict.{get_or, get_or-insert}
use dylchain.Crypto.{Crypto}
use dylchain.Transaction.{Transaction, kind_transfer}
use dylchain.State.{
  State, Effect, nonce_of, transfer, delegate, undelegate, apply_kind, count_nonce, authenticated,
  apply_tx, bad_nonce,
}
use dylchain.State.Effects.{IsAuthorised, apply_tx-accepted}

transfer-nonces : (s : State) (tx : Transaction) → (transfer s tx).0.nonces ≡ s.nonces
unfolding transfer
transfer-nonces s tx = ground arith

delegate-nonces : (s : State) (tx : Transaction) → (delegate s tx).0.nonces ≡ s.nonces
unfolding delegate
delegate-nonces s tx = ground arith

undelegate-nonces : (s : State) (tx : Transaction) → (undelegate s tx).0.nonces ≡ s.nonces
unfolding undelegate
undelegate-nonces s tx = ground arith

apply_kind-nonces : (s : State) (tx : Transaction) → (apply_kind s tx).0.nonces ≡ s.nonces
unfolding apply_kind
apply_kind-nonces s tx =
    ground (arith, transfer-nonces s tx, delegate-nonces s tx, undelegate-nonces s tx)

count_nonce-nonce :
    (from : Bytes) (e : Effect)
    → e.1 ≡ none
    → nonce_of (count_nonce from e).0 from ≡ add_i64 (nonce_of e.0 from) (pos 1)
unfolding count_nonce
count_nonce-nonce from (s, some er) h = absurd (ground (arith, h))
count_nonce-nonce from (s, none) h =
    get_or-insert from from (add_i64 (nonce_of s from) (pos 1)) (pos 0) s.nonces
    ∙ rw (equal_refl from) refl

module _ ⦃c : Crypto⦄ where
  -- With everything in order but the nonce.
  apply_tx-stale :
      (s t : State) (tx : Transaction)
      → IsAuthorised s tx
      → eqb_ℤ tx.nonce (nonce_of t tx.from) ≡ false
      → apply_tx t tx ≡ (t, some bad_nonce)
  unfolding apply_tx authenticated
  apply_tx-stale s t tx a stale =
      let named : equal tx.from [] ≡ false = ground (arith, equal_iff tx.from [], a.sender) in
      let amount : (tx.amount == 0) ≡ false = ground (arith, a.positive) in
      let distinct : (equal tx.kind kind_transfer && equal tx.from tx.to) ≡ false =
        ground (arith, equal_iff tx.kind kind_transfer, equal_iff tx.from tx.to, a.other) in
      rw (named, amount, a.recipient, distinct, a.key_of_sender) (rw (a.signed, stale) refl)

  -- A transaction that the ledger has just accepted is refused for its nonce when it comes again, and
  -- its sender's nonce has moved on by one.
  pub apply_tx-apply_tx :
      (s : State) (tx : Transaction)
      → (apply_tx s tx).1 ≡ none
      → let s' = (apply_tx s tx).0 in
        (nonce_of s' tx.from ≡ add_i64 tx.nonce (pos 1)) × (apply_tx s' tx ≡ (s', some bad_nonce))
  apply_tx-apply_tx s tx h =
      let (a, kind, e) = apply_tx-accepted s tx h in
      let s' = (apply_tx s tx).0 in
      let same = (eqb_ℤ_iff tx.nonce (nonce_of s tx.from)).0 a.in_sequence in
      let next : nonce_of s' tx.from ≡ add_i64 tx.nonce (pos 1) =
        ap (λ x. nonce_of x.0 tx.from) e
        ∙ count_nonce-nonce tx.from (apply_kind s tx) kind
        ∙ ap (λ d. add_i64 (get_or d tx.from (pos 0)) (pos 1)) (apply_kind-nonces s tx)
        ∙ ap (λ n. add_i64 n (pos 1)) (sym same) in
      let stale : eqb_ℤ tx.nonce (nonce_of s' tx.from) ≡ false =
        elim (Bool-cases (eqb_ℤ tx.nonce (nonce_of s' tx.from))) [
          | inl equal_now ↦ absurd (
              add_i64-one-ne tx.nonce
                (sym next ∙ sym ((eqb_ℤ_iff tx.nonce (nonce_of s' tx.from)).0 equal_now)))
          | inr differ ↦ differ
        ] in
      (next, apply_tx-stale s s' tx a stale)
