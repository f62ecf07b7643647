-- ===== src/State/Accounts.antt =====
-- What the ledger of chain/state.go means, apart from how its maps hold it: every address has a
-- balance and a next nonce, and every pair of addresses a bond.
use dylchain.Base.{
  ℕ, ◌+◌, ◌-◌, not, ◌&&◌, ◌||◌, Option, none, some, [], ltb, ◌==◌, if◌then◌else◌, ok, err,
}
use dylchain.Base.Int.{ℤ, pos, eqb_ℤ, add_i64}
use dylchain.Bytes.{Bytes, equal}
use dylchain.Address.{valid_address, pub_key_from_address}
use dylchain.Crypto.{Crypto}
use dylchain.Transaction.{
  Transaction, kind_transfer, kind_delegate, kind_undelegate, signable_bytes,
}
use dylchain.State.{
  State, TxError, balance, nonce_of, bond, empty_sender, zero_amount, bad_recipient, self_send,
  bad_sender, bad_signature, bad_nonce, insufficient_balance, not_enough_bonded, unknown_kind,
}

pub record Accounts : Type 0 where
  pub balance_of : Bytes → ℕ
  pub next_nonce : Bytes → ℤ
  pub bonded : Bytes → Bytes → ℕ

abbrev pub view : State → Accounts
view s = record {
  balance_of = λ a. balance s a;
  next_nonce = λ a. nonce_of s a;
  bonded = λ d v. bond s d v;
}

-- `n` at one address, and nothing at the others.
abbrev pub only : Bytes → ℕ → Bytes → ℕ
only a n x = if equal a x then n else 0

-- What a transaction of each kind does, in plain numbers.
abbrev pub moved : Transaction → Accounts → Accounts
moved tx a = record a {
  balance_of = λ x. a.balance_of x - only tx.from tx.amount x + only tx.to tx.amount x;
}

abbrev pub locked : Transaction → Accounts → Accounts
locked tx a = record a {
  balance_of = λ x. a.balance_of x - only tx.from tx.amount x;
  bonded = λ d v. a.bonded d v + (if equal tx.from d then only tx.to tx.amount v else 0);
}

abbrev pub unlocked : Transaction → Accounts → Accounts
unlocked tx a = record a {
  balance_of = λ x. a.balance_of x + only tx.from tx.amount x;
  bonded = λ d v. a.bonded d v - (if equal tx.from d then only tx.to tx.amount v else 0);
}

abbrev pub counted : Transaction → Accounts → Accounts
counted tx a = record a {
  next_nonce = λ x. if equal tx.from x then add_i64 (a.next_nonce x) (pos 1) else a.next_nonce x;
}

abbrev pub outcome : Transaction → Accounts → Accounts
outcome tx a =
    if equal tx.kind kind_transfer
    then moved tx a
    else if equal tx.kind kind_delegate
    then locked tx a
    else unlocked tx a

-- The funds that a kind asks for.
abbrev pub lacking : Transaction → Accounts → Option TxError
lacking tx a =
    if equal tx.kind kind_transfer || equal tx.kind kind_delegate
    then (if ltb (a.balance_of tx.from) tx.amount then some insufficient_balance else none)
    else if equal tx.kind kind_undelegate
    then (if ltb (a.bonded tx.from tx.to) tx.amount then some not_enough_bonded else none)
    else some unknown_kind

module _ ⦃c : Crypto⦄ where
  abbrev pub unsigned_or_stale : Transaction → Accounts → Bytes → Option TxError
  unsigned_or_stale tx a key =
      if not (c.verify key (signable_bytes tx) tx.signature)
      then some bad_signature
      else if not (eqb_ℤ tx.nonce (a.next_nonce tx.from))
      then some bad_nonce
      else lacking tx a

  -- The first rule that a transaction breaks.
  abbrev pub broken_rule : Transaction → Accounts → Option TxError
  broken_rule tx a =
      if equal tx.from []
      then some empty_sender
      else if tx.amount == 0
      then some zero_amount
      else if not (valid_address tx.to)
      then some bad_recipient
      else if equal tx.kind kind_transfer && equal tx.from tx.to
      then some self_send
      else elim (pub_key_from_address tx.from) [
        | err e ↦ some bad_sender
        | ok key ↦ unsigned_or_stale tx a key
      ]

  abbrev pub settle : Transaction → Accounts → Option TxError → Accounts × Option TxError
  settle tx a (some e) = (a, some e)
  settle tx a none = (counted tx (outcome tx a), none)

  -- What a transaction ought to do: nothing but report the first rule that it breaks, or its kind's
  -- outcome with the sender's nonce counted.
  abbrev pub intended : Transaction → Accounts → Accounts × Option TxError
  intended tx a = settle tx a (broken_rule tx a)
