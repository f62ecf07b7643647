-- ===== src/State/Effects.antt =====
-- What `applyTx` of chain/state.go checks and what it writes.
use dylchain.Base.{◌≡◌, ◌≢◌, inl, inr, true, none, some, [], arith, Result-cases, ok}
use dylchain.Base.Int.{eqb_ℤ}
use dylchain.Bytes.{Bytes, equal_iff}
use dylchain.Crypto.{Crypto}
use dylchain.Address.{pub_key_from_address, valid_address}
use dylchain.Transaction.{Transaction, kind_transfer, signable_bytes}
use dylchain.State.{
  State, TxError, Effect, nonce_of, apply_kind, count_nonce, authenticated, apply_tx,
}

-- An effect that fails leaves the ledger alone.
abbrev pub IsAtomic : State → Effect → Type 0
IsAtomic s (s', none) = Unit
IsAtomic s (s', some e) = s' ≡ s

apply_kind-IsAtomic : (s : State) (tx : Transaction) → IsAtomic s (apply_kind s tx)
unfolding apply_kind
apply_kind-IsAtomic s tx = ground arith

count_nonce-IsAtomic :
    (s : State) (from : Bytes) (e : Effect) → IsAtomic s e → IsAtomic s (count_nonce from e)
unfolding count_nonce
count_nonce-IsAtomic s from (s', none) h = tt
count_nonce-IsAtomic s from (s', some e) h = h

-- The checks that come before the kind-specific rules.
pub record IsAuthorised ⦃c : Crypto⦄ (s : State) (tx : Transaction) : Type 0 where
  pub key : Bytes
  pub sender : tx.from ≢ []
  pub positive : tx.amount ≢ 0
  pub recipient : valid_address tx.to ≡ true
  pub other : tx.kind ≡ kind_transfer → tx.from ≢ tx.to
  pub key_of_sender : pub_key_from_address tx.from ≡ ok key
  pub signed : c.verify key (signable_bytes tx) tx.signature ≡ true
  pub in_sequence : eqb_ℤ tx.nonce (nonce_of s tx.from) ≡ true

module _ ⦃c : Crypto⦄ where
  authenticated-IsAtomic :
      (s : State) (tx : Transaction) (key : Bytes) → IsAtomic s (authenticated s tx key)
  unfolding authenticated
  authenticated-IsAtomic s tx key =
      let done = count_nonce-IsAtomic s tx.from (apply_kind s tx) (apply_kind-IsAtomic s tx) in
      ground (arith, done)

  pub apply_tx-IsAtomic : (s : State) (tx : Transaction) → IsAtomic s (apply_tx s tx)
  unfolding apply_tx
  apply_tx-IsAtomic s tx = elim (Result-cases (pub_key_from_address tx.from)) [
    | inl (key, e) ↦ rw e (ground (arith, authenticated-IsAtomic s tx key))
    | inr (er, e) ↦ rw e (ground arith)
  ]

  -- Every write happens after every check: a transaction that is refused, for whatever reason, leaves
  -- the ledger as it was.
  pub apply_tx-refused :
      (s : State) (tx : Transaction) (e : TxError)
      → (apply_tx s tx).1 ≡ some e
      → (apply_tx s tx).0 ≡ s
  apply_tx-refused s tx e h = ground (arith, apply_tx-IsAtomic s tx)

  -- A transaction that is accepted has passed every check, and its effect is its kind's, with the
  -- sender's nonce counted.
  pub apply_tx-accepted :
      (s : State) (tx : Transaction)
      → (apply_tx s tx).1 ≡ none
      → IsAuthorised s tx
        × ((apply_kind s tx).1 ≡ none)
        × (apply_tx s tx ≡ count_nonce tx.from (apply_kind s tx))
  unfolding apply_tx authenticated
  apply_tx-accepted s tx h = elim (Result-cases (pub_key_from_address tx.from)) [
    | inl (key, e) ↦
        let h' = rw (e, apply_tx) at h in
        (
          record {
            key = key;
            sender = ground (arith, equal_iff tx.from []);
            positive = ground arith;
            recipient = ground arith;
            other = ground (arith, equal_iff tx.kind kind_transfer, equal_iff tx.from tx.to);
            key_of_sender = e;
            signed = ground arith;
            in_sequence = ground arith;
          },
          ground arith,
          rw e (ground arith),
        )
    | inr (er, e) ↦ let h' = rw (e, apply_tx) at h in absurd (ground arith)
  ]
