-- ===== src/State/Supply.antt =====
-- The supply of chain/state.go under `applyTx`.
use dylchain.Base.{
  ℕ, ◌+◌, ◌%◌, ◌≤◌, ◌<◌, ◌≡◌, refl, inl, inr, true, none, some, [], ◌∷◌, arith, ltb, ◌==◌, ==_iff,
  Bool-cases, length, Result-cases,
}
use dylchain.Base.Int.{u64_mod, add_u64, sub_u64}
use dylchain.Bytes.{Bytes}
use dylchain.Dict.{Dict, get_or, insert, erase}
use dylchain.Dict.Sums.{
  sum, sum_all, sum-insert, sum-erase, sum_all-insert, sum_all-erase, get_or-le-sum,
  sum-get_or-le-sum_all,
}
use dylchain.Crypto.{Crypto}
use dylchain.Address.{pub_key_from_address}
use dylchain.Transaction.{Transaction}
use dylchain.State.{
  State, Effect, balance, bond, add_values, add_bonds, supply, transfer, delegate, release,
  undelegate, apply_kind, count_nonce, authenticated, apply_tx,
}

-- Every token, counted without wrapping around.
abbrev pub total : State → ℕ
total s = sum s.balances + sum_all s.delegations

add_values-sum : (acc : ℕ) (d : Dict ℕ) → acc < u64_mod → add_values acc d ≡ (acc + sum d) % u64_mod
unfolding add_values
add_values-sum acc [] h = omega arith
add_values-sum acc ((k, v) ∷ d) h = omega (arith, add_values-sum (add_u64 acc v) d (omega arith))

add_bonds-sum :
    (acc : ℕ) (d : Dict (Dict ℕ)) → acc < u64_mod → add_bonds acc d ≡ (acc + sum_all d) % u64_mod
unfolding add_bonds
add_bonds-sum acc [] h = omega arith
add_bonds-sum acc ((k, m) ∷ d) h =
    let inner = add_values-sum acc m h in
    omega (arith, inner, add_bonds-sum (add_values acc m) d (omega (arith, inner)))

-- The two loops of `Supply` count every token, modulo 2^64.
pub supply-eq-total : (s : State) → supply s ≡ total s % u64_mod
unfolding supply
supply-eq-total s =
    let first = add_values-sum 0 s.balances (omega arith) in
    omega
      (arith, first, add_bonds-sum (add_values 0 s.balances) s.delegations (omega (arith, first)))

-- What an effect does to the tokens: the same number modulo 2^64, and exactly the same if the
-- ledger held less than 2^64.
abbrev pub Conserves : State → Effect → Type 0
Conserves s (s', e) =
    (total s' % u64_mod ≡ total s % u64_mod) × (total s < u64_mod → total s' ≡ total s)

transfer-Conserves : (s : State) (tx : Transaction) → Conserves s (transfer s tx)
unfolding transfer
transfer-Conserves s tx =
    let funds = balance s tx.from in
    let paid = insert tx.from (sub_u64 funds tx.amount) s.balances in
    let l1 = sum-insert tx.from (sub_u64 funds tx.amount) s.balances in
    let l2 = sum-insert tx.to (add_u64 (get_or paid tx.to 0) tx.amount) paid in
    elim (Bool-cases (ltb funds tx.amount)) [
      | inl short ↦ rw short (refl, λ h. refl)
      | inr funded ↦
          let covered : tx.amount ≤ funds = ground arith in
          rw funded (
            omega (arith, l1, l2),
            λ h. omega (arith, l1, l2, get_or-le-sum s.balances tx.from, get_or-le-sum paid tx.to),
          )
    ]

delegate-Conserves : (s : State) (tx : Transaction) → Conserves s (delegate s tx)
unfolding delegate
delegate-Conserves s tx =
    let funds = balance s tx.from in
    let held = get_or s.delegations tx.from [] in
    let bonded = insert tx.to (add_u64 (get_or held tx.to 0) tx.amount) held in
    let l1 = sum-insert tx.from (sub_u64 funds tx.amount) s.balances in
    let l2 = sum-insert tx.to (add_u64 (get_or held tx.to 0) tx.amount) held in
    let l3 = sum_all-insert tx.from bonded s.delegations in
    elim (Bool-cases (ltb funds tx.amount)) [
      | inl short ↦ rw short (refl, λ h. refl)
      | inr funded ↦
          let covered : tx.amount ≤ funds = ground arith in
          rw funded (
            omega (arith, l1, l2, l3),
            λ h. omega (
              arith,
              l1,
              l2,
              l3,
              get_or-le-sum s.balances tx.from,
              get_or-le-sum held tx.to,
              sum-get_or-le-sum_all s.delegations tx.from,
            ),
          )
    ]

sum-empty : (d : Dict ℕ) → (length d == 0) ≡ true → sum d ≡ 0
sum-empty [] h = refl
sum-empty (e ∷ d) h = absurd (ground arith)

-- A release takes the amount out of the bonds.
sum_all-release :
    (d : Dict (Dict ℕ)) (from to : Bytes) (amount : ℕ)
    → amount ≤ get_or (get_or d from []) to 0
    → ((sum_all (release d from to amount) + amount) % u64_mod ≡ sum_all d % u64_mod)
      × (sum_all d < u64_mod → sum_all (release d from to amount) + amount ≡ sum_all d)
unfolding release
sum_all-release d from to amount h =
    let held = get_or d from [] in
    let bonded = get_or held to 0 in
    let rest = erase to held in
    let lowered = insert to (sub_u64 bonded amount) held in
    let l1 = sum-erase to held in
    let l2 = sum_all-erase from d in
    let l3 = sum_all-insert from rest d in
    let l4 = sum_all-insert from lowered d in
    let l5 = sum-insert to (sub_u64 bonded amount) held in
    elim (Bool-cases (bonded == amount)) [
      | inl all ↦
          let same : bonded ≡ amount = (==_iff _ _).0 all in
          elim (Bool-cases (length rest == 0)) [
            | inl gone ↦
                let none_left = sum-empty rest gone in
                rw (all, gone)
                  (omega (arith, l1, l2, none_left), λ b. omega (arith, l1, l2, none_left))
            | inr left ↦ rw (all, left) (omega (arith, l1, l3), λ b. omega (arith, l1, l3))
          ]
      | inr part ↦ rw part (
        omega (arith, l4, l5),
        λ b. omega (arith, l4, l5, get_or-le-sum held to, sum-get_or-le-sum_all d from),
      )
    ]

undelegate-Conserves : (s : State) (tx : Transaction) → Conserves s (undelegate s tx)
unfolding undelegate
undelegate-Conserves s tx =
    let bonded = bond s tx.from tx.to in
    let received = add_u64 (balance s tx.from) tx.amount in
    let l1 = sum-insert tx.from received s.balances in
    elim (Bool-cases (ltb bonded tx.amount)) [
      | inl short ↦ rw short (refl, λ h. refl)
      | inr enough ↦
          let covered : tx.amount ≤ bonded = ground arith in
          let (m, x) = sum_all-release s.delegations tx.from tx.to tx.amount covered in
          rw enough (
            omega (arith, l1, m),
            λ h. omega (arith, l1, x (omega arith), get_or-le-sum s.balances tx.from),
          )
    ]

apply_kind-Conserves : (s : State) (tx : Transaction) → Conserves s (apply_kind s tx)
unfolding apply_kind
apply_kind-Conserves s tx =
    ground (arith, transfer-Conserves s tx, delegate-Conserves s tx, undelegate-Conserves s tx)

count_nonce-Conserves :
    (s : State) (from : Bytes) (e : Effect) → Conserves s e → Conserves s (count_nonce from e)
unfolding count_nonce
count_nonce-Conserves s from (s', none) h = h
count_nonce-Conserves s from (s', some e) h = h

module _ ⦃c : Crypto⦄ where
  authenticated-Conserves :
      (s : State) (tx : Transaction) (key : Bytes) → Conserves s (authenticated s tx key)
  unfolding authenticated
  authenticated-Conserves s tx key =
      let done = count_nonce-Conserves s tx.from (apply_kind s tx) (apply_kind-Conserves s tx) in
      ground (arith, done)

  pub apply_tx-Conserves : (s : State) (tx : Transaction) → Conserves s (apply_tx s tx)
  unfolding apply_tx
  apply_tx-Conserves s tx = elim (Result-cases (pub_key_from_address tx.from)) [
    | inl (key, e) ↦ rw e (ground (arith, authenticated-Conserves s tx key))
    | inr (er, e) ↦ rw e (ground arith)
  ]

  -- Whatever the transaction, and whether it is accepted or refused, the balances and bonds of a
  -- ledger that holds less than 2^64 tokens add up to the same number after it, and `supply`
  -- reports the same.
  pub apply_tx-supply :
      (s : State) (tx : Transaction)
      → total s < u64_mod
      → let s' = (apply_tx s tx).0 in (total s' ≡ total s) × (supply s' ≡ supply s)
  apply_tx-supply s tx h =
      let s' = (apply_tx s tx).0 in
      let same = (apply_tx-Conserves s tx).1 h in
      (same, omega (arith, supply-eq-total s, supply-eq-total s', same))
