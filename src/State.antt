-- ===== src/State.antt =====
-- chain/state.go: the ledger, its supply and the application of one transaction.
pub mod Supply
pub mod Replay
pub mod Accounts
pub mod View
pub mod Refinement
pub mod Effects
pub mod Cases
pub mod Maps
pub mod WellFormed
pub mod Filled
use dylchain.Base.{
  ℕ, zero, suc, ◌+◌, ◌-◌, ◌*◌, ◌/◌, ◌%◌, ◌^◌, ◌≤◌, ◌<◌, ◌≡◌, refl, sym, ap, ◌∙◌, subst, ◌≢◌, ◌↔◌,
  ◌⊎◌, inl, inr, Bool, true, false, not, ◌&&◌, ◌||◌, Option, none, some, List, [], ◌∷◌, ◌++◌, map,
  append_assoc, append-nil, arith, ltb, leb, ◌==◌, if◌then◌else◌, ltb→lt, lt→ltb, leb→le, ==_iff,
  tests, Bool-cases, Option-cases, length, get_elem?, set, take, drop, replicate, All,
  length-append, length-set, take-append-drop, length-take, length-drop, length-map,
  append-injective, >>=-eq-some, Result, ok, err, ◌>>=◌,
}
use dylchain.Base.Int.{
  u64_mod, add_u64, sub_u64, ℤ, pos, negsuc, pos_part, neg_part, sub_ℕ, ◌+ℤ◌, ◌-ℤ◌, ◌≤ℤ◌, ltb_ℤ,
  eqb_ℤ, to_u64, of_u64, add_i64, sub_i64, +ℤ_parts, -ℤ_parts, eq_of_parts, int_laws,
  add_i64-one-ne, add_i64-pos, IsI64, to_u64-injective, to_u64-lt,
}
use dylchain.Bytes.{Bytes, text, equal, equal_iff, equal_refl, IsBytes}
use dylchain.Dict.{
  Dict, lookup, get_or, insert, erase, IsMap, lookup-insert, get_or-insert, lookup-erase_ne,
  get_or-eq-lookup, insert-IsMap, erase-IsMap, lookup-erase_self,
}
use dylchain.Address.{pub_key_from_address, valid_address}
use dylchain.Crypto.{Crypto}
use dylchain.Transaction.{
  Transaction, kind_transfer, kind_delegate, kind_undelegate, signable_bytes,
}

pub record State : Type 0 where
  pub balances : Dict ℕ
  pub nonces : Dict ℤ
  -- delegator, then validator, then the amount bonded
  pub delegations : Dict (Dict ℕ)
  -- validator to genesis self-stake; never written
  pub validator_base : Dict ℕ

-- The three zero-valued reads of the code.
abbrev pub balance : State → Bytes → ℕ
balance s a = get_or s.balances a 0

abbrev pub nonce_of : State → Bytes → ℤ
nonce_of s a = get_or s.nonces a (pos 0)

abbrev pub bond : State → Bytes → Bytes → ℕ
bond s d v = get_or (get_or s.delegations d []) v 0

-- State.Supply: two loops of wrapping additions.
unfoldable pub add_values : ℕ → Dict ℕ → ℕ
add_values acc [] = acc
add_values acc ((k, v) ∷ d) = add_values (add_u64 acc v) d

unfoldable pub add_bonds : ℕ → Dict (Dict ℕ) → ℕ
unfolding add_values
add_bonds acc [] = acc
add_bonds acc ((k, m) ∷ d) = add_bonds (add_values acc m) d

unfoldable pub supply : State → ℕ
unfolding add_values add_bonds
supply s = add_bonds (add_values 0 s.balances) s.delegations

unfoldable pub new_state : Dict ℕ → State
new_state alloc = record { balances = alloc; nonces = []; delegations = []; validator_base = [] }

pub data TxError : Type 0 where
  empty_sender zero_amount bad_recipient self_send bad_sender bad_signature : TxError
  bad_nonce insufficient_balance not_enough_bonded unknown_kind : TxError

-- A Go function that writes through `*State` returns the state that it leaves behind; `none` is a
-- nil error.
abbrev pub Effect : Type 0
Effect = State × Option TxError

-- The cases of the switch in `applyTx`.
unfoldable pub transfer : State → Transaction → Effect
transfer s tx =
    let paid = insert tx.from (sub_u64 (balance s tx.from) tx.amount) s.balances in
    let received = insert tx.to (add_u64 (get_or paid tx.to 0) tx.amount) paid in
    if ltb (balance s tx.from) tx.amount
    then (s, some insufficient_balance)
    else (record s { balances = received }, none)

unfoldable pub delegate : State → Transaction → Effect
delegate s tx =
    let paid = insert tx.from (sub_u64 (balance s tx.from) tx.amount) s.balances in
    let held = get_or s.delegations tx.from [] in
    let bonded = insert tx.to (add_u64 (get_or held tx.to 0) tx.amount) held in
    if ltb (balance s tx.from) tx.amount
    then (s, some insufficient_balance)
    else (record s { balances = paid; delegations = insert tx.from bonded s.delegations }, none)

-- The delegations once `amount` of a bond is released: an emptied bond is deleted, and so is a
-- delegator's map when it is empty.
unfoldable pub release : Dict (Dict ℕ) → Bytes → Bytes → ℕ → Dict (Dict ℕ)
release d from to amount =
    let held = get_or d from [] in
    let bonded = get_or held to 0 in
    let rest = erase to held in
    if bonded == amount
    then (if length rest == 0 then erase from d else insert from rest d)
    else insert from (insert to (sub_u64 bonded amount) held) d

unfoldable pub undelegate : State → Transaction → Effect
unfolding release
undelegate s tx = if ltb (bond s tx.from tx.to) tx.amount then (s, some not_enough_bonded) else (
  record s {
    delegations = release s.delegations tx.from tx.to tx.amount;
    balances = insert tx.from (add_u64 (balance s tx.from) tx.amount) s.balances;
  },
  none,
)

unfoldable pub apply_kind : State → Transaction → Effect
unfolding transfer delegate undelegate
apply_kind s tx =
    if equal tx.kind kind_transfer
    then transfer s tx
    else if equal tx.kind kind_delegate
    then delegate s tx
    else if equal tx.kind kind_undelegate
    then undelegate s tx
    else (s, some unknown_kind)

-- The last statement: `s.Nonces[tx.From]++`, not reached after an error.
unfoldable pub count_nonce : Bytes → Effect → Effect
count_nonce from (s, some e) = (s, some e)
count_nonce from (s, none) =
    (record s { nonces = insert from (add_i64 (nonce_of s from) (pos 1)) s.nonces }, none)

module _ ⦃c : Crypto⦄ where
  open c use {verify}

  -- Steps 2 to 4, with the key behind the sender's address.
  unfoldable pub authenticated : State → Transaction → Bytes → Effect
  unfolding apply_kind count_nonce
  authenticated s tx key =
      if not (verify key (signable_bytes tx) tx.signature)
      then (s, some bad_signature)
      else if not (eqb_ℤ tx.nonce (nonce_of s tx.from))
      then (s, some bad_nonce)
      else count_nonce tx.from (apply_kind s tx)

  unfoldable pub apply_tx : State → Transaction → Effect
  unfolding authenticated
  apply_tx s tx =
      if equal tx.from []
      then (s, some empty_sender)
      else if tx.amount == 0
      then (s, some zero_amount)
      else if not (valid_address tx.to)
      then (s, some bad_recipient)
      else if equal tx.kind kind_transfer && equal tx.from tx.to
      then (s, some self_send)
      else elim (pub_key_from_address tx.from) [
        | err e ↦ (s, some bad_sender)
        | ok key ↦ authenticated s tx key
      ]
