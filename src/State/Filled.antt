-- ===== src/State/Filled.antt =====
-- No delegator of chain/state.go is kept without a bond, under `applyTx`.
use dylchain.Base.{
  ℕ, ◌≡◌, refl, inl, inr, false, none, some, [], ◌∷◌, ltb, ◌==◌, Bool-cases, length, All, arith,
}
use dylchain.Base.Int.{add_u64, sub_u64}
use dylchain.Bytes.{Bytes, equal}
use dylchain.Dict.{Dict, get_or, insert, erase}
use dylchain.Crypto.{Crypto}
use dylchain.Transaction.{Transaction}
use dylchain.State.Cases.{apply_kind_cases, apply_tx_cases}
use dylchain.State.{
  State, Effect, transfer, delegate, release, undelegate, apply_kind, count_nonce, apply_tx,
}

-- No inner map is empty.
abbrev pub IsFilled : Dict (Dict ℕ) → Type 0
IsFilled = All (λ e. (length e.1 == 0) ≡ false)

insert-length : (k : Bytes) (v : ℕ) (d : Dict ℕ) → (length (insert k v d) == 0) ≡ false
unfolding insert
insert-length k v [] = refl
insert-length k v ((j, w) ∷ d) = elim (Bool-cases (equal j k)) [
  | inl e ↦ rw e (ground arith)
  | inr e ↦ rw e (ground arith)
]

insert-IsFilled :
    (k : Bytes) (m : Dict ℕ) (d : Dict (Dict ℕ))
    → (length m == 0) ≡ false
    → IsFilled d
    → IsFilled (insert k m d)
unfolding insert
insert-IsFilled k m [] hm h = (hm, tt)
insert-IsFilled k m ((j, w) ∷ d) hm h = elim (Bool-cases (equal j k)) [
  | inl e ↦ rw e (hm, h.1)
  | inr e ↦ rw e (h.0, insert-IsFilled k m d hm h.1)
]

erase-IsFilled : (k : Bytes) (d : Dict (Dict ℕ)) → IsFilled d → IsFilled (erase k d)
unfolding erase
erase-IsFilled k [] h = tt
erase-IsFilled k ((j, w) ∷ d) h = elim (Bool-cases (equal j k)) [
  | inl e ↦ rw e h.1
  | inr e ↦ rw e (h.0, erase-IsFilled k d h.1)
]

release-IsFilled :
    (d : Dict (Dict ℕ)) (from to : Bytes) (amount : ℕ)
    → IsFilled d
    → IsFilled (release d from to amount)
unfolding release
release-IsFilled d from to amount h =
    let held = get_or d from [] in
    let lowered = insert to (sub_u64 (get_or held to 0) amount) held in
    elim (Bool-cases (get_or held to 0 == amount)) [
      | inl all ↦ elim (Bool-cases (length (erase to held) == 0)) [
        | inl gone ↦ rw (all, gone) (erase-IsFilled from d h)
        | inr left ↦ rw (all, left) (insert-IsFilled from (erase to held) d left h)
      ]
      | inr part ↦ rw part (insert-IsFilled from lowered d (insert-length to _ held) h)
    ]

module _ (s : State) (tx : Transaction) (h : IsFilled s.delegations) where
  transfer-IsFilled : IsFilled (transfer s tx).0.delegations
  unfolding transfer
  transfer-IsFilled = elim (Bool-cases (ltb (get_or s.balances tx.from 0) tx.amount)) [
    | inl short ↦ rw short h
    | inr funded ↦ rw funded h
  ]

  delegate-IsFilled : IsFilled (delegate s tx).0.delegations
  unfolding delegate
  delegate-IsFilled =
      let held = get_or s.delegations tx.from [] in
      let more = add_u64 (get_or held tx.to 0) tx.amount in
      elim (Bool-cases (ltb (get_or s.balances tx.from 0) tx.amount)) [
        | inl short ↦ rw short h
        | inr funded ↦ rw funded (
            insert-IsFilled tx.from (insert tx.to more held) s.delegations
              (insert-length tx.to more held) h)
      ]

  undelegate-IsFilled : IsFilled (undelegate s tx).0.delegations
  unfolding undelegate
  undelegate-IsFilled =
      elim (Bool-cases (ltb (get_or (get_or s.delegations tx.from []) tx.to 0) tx.amount)) [
        | inl short ↦ rw short h
        | inr enough ↦ rw enough (release-IsFilled s.delegations tx.from tx.to tx.amount h)
      ]

count_nonce-IsFilled :
    (from : Bytes) (e : Effect)
    → IsFilled e.0.delegations
    → IsFilled (count_nonce from e).0.delegations
unfolding count_nonce
count_nonce-IsFilled from (s, some e) h = h
count_nonce-IsFilled from (s, none) h = h

-- No transaction, accepted or refused, leaves a delegator without a bond.
pub apply_tx-IsFilled :
    ⦃c : Crypto⦄
    → (s : State) (tx : Transaction) → IsFilled s.delegations
    → IsFilled (apply_tx s tx).0.delegations
apply_tx-IsFilled ⦃c⦄ s tx h =
    apply_tx_cases (λ e. IsFilled e.0.delegations) s tx (λ _. h)
      (count_nonce-IsFilled tx.from (apply_kind s tx) (
        apply_kind_cases (λ e. IsFilled e.0.delegations) s tx (λ _. h) (transfer-IsFilled s tx h)
          (delegate-IsFilled s tx h) (undelegate-IsFilled s tx h)))
