-- ===== src/Cluster/Gate.antt =====
-- `Submit` of chain/cluster.go, the gate in front of the shared queue of transactions.
use dylchain.Base.{
  ◌≡◌, refl, ◌≢◌, ◌⊎◌, inl, inr, true, false, not, ◌&&◌, ◌||◌, Option, none, some, [], ◌∷◌, ◌++◌,
  arith, ◌==◌, if◌then◌else◌, Bool-cases, Option-cases, Result-cases, ok, err,
}
use dylchain.Base.Int.{pos, eqb_ℤ}
use dylchain.Bytes.{Bytes, equal, equal_iff}
use dylchain.Address.{pub_key_from_address, valid_address, is_ok}
use dylchain.Crypto.{Crypto}
use dylchain.Dict.{get_or}
use dylchain.Transaction.{
  Transaction, kind_transfer, kind_delegate, kind_undelegate, signable_bytes,
}
use dylchain.Mempool.{Mempool, add}
use dylchain.State.{
  State, Effect, TxError, transfer, delegate, undelegate, apply_kind, count_nonce, authenticated,
  apply_tx, bad_nonce, insufficient_balance, not_enough_bonded,
}

pub data SubmitError : Type 0 where
  malformed unknown_kind bad_sender bad_recipient invalid_signature mempool_full : SubmitError

-- The switch on the kind.
unfoldable pub kind_error : Transaction → Option SubmitError
kind_error tx =
    if equal tx.kind kind_transfer
    then (if equal tx.from tx.to then some malformed else none)
    else if equal tx.kind kind_delegate || equal tx.kind kind_undelegate
    then none
    else some unknown_kind

unfoldable pub enqueue : Mempool → Transaction → Mempool × Option SubmitError
unfolding add
enqueue m tx = let (m', done) = add m tx in (m', if done then none else some mempool_full)

module _ ⦃c : Crypto⦄ where
  -- With the key behind the sender's address.
  unfoldable pub submit_signed : Mempool → Transaction → Bytes → Mempool × Option SubmitError
  unfolding enqueue
  submit_signed m tx key =
      if not (is_ok (pub_key_from_address tx.to))
      then (m, some bad_recipient)
      else if not (c.verify key (signable_bytes tx) tx.signature)
      then (m, some invalid_signature)
      else enqueue m tx

  unfoldable pub submit : Mempool → Transaction → Mempool × Option SubmitError
  unfolding kind_error submit_signed
  submit m tx = elim (kind_error tx) [
    | some e ↦ (m, some e)
    | none ↦ if tx.amount == 0 then (m, some malformed) else elim (pub_key_from_address tx.from) [
      | err e ↦ (m, some bad_sender)
      | ok key ↦ submit_signed m tx key
    ]
  ]

  -- The errors that depend on the ledger, not on the transaction alone.
  abbrev pub IsLedgerError : TxError → Type 0
  IsLedgerError e = (e ≡ bad_nonce) ⊎ (e ≡ insufficient_balance) ⊎ (e ≡ not_enough_bonded)

  abbrev pub FailsOnLedger : Effect → Type 0
  FailsOnLedger (s, none) = Unit
  FailsOnLedger (s, some e) = IsLedgerError e

  submit_signed-none :
      (m m' : Mempool) (tx : Transaction) (key : Bytes)
      → submit_signed m tx key ≡ (m', none)
      → (is_ok (pub_key_from_address tx.to) ≡ true)
        × (c.verify key (signable_bytes tx) tx.signature ≡ true)
        × (m'.txs ≡ m.txs ++ tx ∷ [])
  unfolding submit_signed enqueue add
  submit_signed-none m m' tx key h = ground arith

  -- What a transaction that passes the gate satisfies.
  submit-none :
      (m m' : Mempool) (tx : Transaction)
      → submit m tx ≡ (m', none)
      → (key : Bytes) × (pub_key_from_address tx.from ≡ ok key)
        × (kind_error tx ≡ none)
        × ((tx.amount == 0) ≡ false)
        × (submit_signed m tx key ≡ (m', none))
  unfolding submit
  submit-none m m' tx h = elim (Option-cases (kind_error tx)) [
    | inr (e, bad) ↦ let h1 = rw (bad, submit) at h in absurd (ground arith)
    | inl kind ↦
        let h1 = rw (kind, submit) at h in
        elim (Bool-cases (tx.amount == 0)) [
          | inl zero_amount ↦ absurd (ground arith)
          | inr amount ↦ elim (Result-cases (pub_key_from_address tx.from)) [
            | inr (e, bad) ↦ let h2 = rw (amount, bad) at h1 in absurd (ground arith)
            | inl (key, good) ↦ let h2 = rw (amount, good) at h1 in (key, good, kind, amount, h2)
          ]
        ]
  ]

  empty_sender_err : (key : Bytes) → pub_key_from_address [] ≢ ok key
  unfolding pub_key_from_address
  empty_sender_err key h = cc

  apply_tx-submitted :
      (s : State) (tx : Transaction) (key : Bytes)
      → pub_key_from_address tx.from ≡ ok key
      → kind_error tx ≡ none
      → (tx.amount == 0) ≡ false
      → is_ok (pub_key_from_address tx.to) ≡ true
      → apply_tx s tx ≡ authenticated s tx key
  unfolding apply_tx kind_error valid_address
  apply_tx-submitted s tx key good kind amount to =
      let named : equal tx.from [] ≡ false = elim (Bool-cases (equal tx.from [])) [
        | inl empty ↦ absurd (empty_sender_err key (rw (← (equal_iff tx.from []).0 empty) good))
        | inr other ↦ other
      ] in
      let distinct : (equal tx.kind kind_transfer && equal tx.from tx.to) ≡ false = ground arith in
      rw (named, amount, to, distinct, good) refl

  transfer-FailsOnLedger :
      (s : State) (tx : Transaction) → FailsOnLedger (count_nonce tx.from (transfer s tx))
  unfolding count_nonce transfer
  transfer-FailsOnLedger s tx = ground arith

  delegate-FailsOnLedger :
      (s : State) (tx : Transaction) → FailsOnLedger (count_nonce tx.from (delegate s tx))
  unfolding count_nonce delegate
  delegate-FailsOnLedger s tx = ground arith

  undelegate-FailsOnLedger :
      (s : State) (tx : Transaction) → FailsOnLedger (count_nonce tx.from (undelegate s tx))
  unfolding count_nonce undelegate
  undelegate-FailsOnLedger s tx = ground arith

  apply_kind-FailsOnLedger :
      (s : State) (tx : Transaction)
      → kind_error tx ≡ none
      → FailsOnLedger (count_nonce tx.from (apply_kind s tx))
  unfolding apply_kind kind_error
  apply_kind-FailsOnLedger s tx h = ground (
    arith,
    transfer-FailsOnLedger s tx,
    delegate-FailsOnLedger s tx,
    undelegate-FailsOnLedger s tx,
  )

  -- A transaction that `submit` accepts goes to the back of the queue, and no ledger refuses it for
  -- any other reason than its nonce or a lack of funds: the balance, or the bond to release.
  pub submit_admits :
      (m m' : Mempool) (tx : Transaction) (s : State)
      → submit m tx ≡ (m', none)
      → (m'.txs ≡ m.txs ++ tx ∷ []) × FailsOnLedger (apply_tx s tx)
  unfolding authenticated
  submit_admits m m' tx s h =
      let (key, good, kind, amount, signed) = submit-none m m' tx h in
      let (to, verified, queued) = submit_signed-none m m' tx key signed in
      let ledger = apply_kind-FailsOnLedger s tx kind in
      let applied = apply_tx-submitted s tx key good kind amount to in
      (
        queued,
        rw applied (elim (Bool-cases (eqb_ℤ tx.nonce (get_or s.nonces tx.from (pos 0)))) [
          | inl next ↦ rw (verified, next) ledger
          | inr stale ↦ rw (verified, stale) (inl refl)
        ]),
      )
