-- ===== src/State/Refinement.antt =====
-- `applyTx` of chain/state.go against what a transaction ought to do.
use dylchain.Base.{
  ◌<◌, ◌≡◌, refl, ap, ◌∙◌, inl, inr, Bool, true, false, not, ◌&&◌, Option, none, some, [], arith,
  ltb, ◌==◌, if◌then◌else◌, Bool-cases, Result, ok, err,
}
use dylchain.Base.Int.{u64_mod, eqb_ℤ}
use dylchain.Bytes.{Bytes, equal}
use dylchain.Address.{AddressError, valid_address, pub_key_from_address}
use dylchain.Crypto.{Crypto}
use dylchain.Transaction.{
  Transaction, kind_transfer, kind_delegate, kind_undelegate, signable_bytes,
}
use dylchain.State.{
  State, TxError, Effect, balance, nonce_of, bond, transfer, delegate, undelegate, apply_kind,
  count_nonce, authenticated, apply_tx, insufficient_balance, not_enough_bonded, unknown_kind,
  empty_sender, zero_amount, bad_recipient, self_send, bad_sender,
}
use dylchain.State.Supply.{total}
use dylchain.State.WellFormed.{IsWellFormed}
use dylchain.State.Accounts.{
  Accounts, view, moved, locked, unlocked, counted, outcome, lacking, unsigned_or_stale, settle,
  intended,
}
use dylchain.State.View.{
  view_effect, transfer-view, delegate-view, undelegate-view, count_nonce-view,
}

abbrev granted : Transaction → Accounts → Option TxError → Accounts × Option TxError
granted tx a (some e) = (a, some e)
granted tx a none = (outcome tx a, none)

pair_of :
    (e : Effect) (a : Accounts) (o : Option TxError)
    → view e.0 ≡ a
    → e.1 ≡ o
    → view_effect e ≡ (a, o)
pair_of (s, e) a o h k = λ i. (h i, k i)

module _ (s : State) (tx : Transaction) where
  apply_kind-transfer : equal tx.kind kind_transfer ≡ true → apply_kind s tx ≡ transfer s tx
  unfolding apply_kind
  apply_kind-transfer h = rw h refl

  apply_kind-delegate :
      equal tx.kind kind_transfer ≡ false
      → equal tx.kind kind_delegate ≡ true
      → apply_kind s tx ≡ delegate s tx
  unfolding apply_kind
  apply_kind-delegate h k = rw (h, k) refl

  apply_kind-undelegate :
      equal tx.kind kind_transfer ≡ false
      → equal tx.kind kind_delegate ≡ false
      → equal tx.kind kind_undelegate ≡ true
      → apply_kind s tx ≡ undelegate s tx
  unfolding apply_kind
  apply_kind-undelegate h k l = rw (h, k, l) refl

  apply_kind-unknown :
      equal tx.kind kind_transfer ≡ false
      → equal tx.kind kind_delegate ≡ false
      → equal tx.kind kind_undelegate ≡ false
      → apply_kind s tx ≡ (s, some unknown_kind)
  unfolding apply_kind
  apply_kind-unknown h k l = rw (h, k, l) refl

  transfer-short :
      ltb (balance s tx.from) tx.amount ≡ true → transfer s tx ≡ (s, some insufficient_balance)
  unfolding transfer
  transfer-short h = rw h refl

  transfer-none : ltb (balance s tx.from) tx.amount ≡ false → (transfer s tx).1 ≡ none
  unfolding transfer
  transfer-none h = rw h refl

  delegate-short :
      ltb (balance s tx.from) tx.amount ≡ true → delegate s tx ≡ (s, some insufficient_balance)
  unfolding delegate
  delegate-short h = rw h refl

  delegate-none : ltb (balance s tx.from) tx.amount ≡ false → (delegate s tx).1 ≡ none
  unfolding delegate
  delegate-none h = rw h refl

  undelegate-short :
      ltb (bond s tx.from tx.to) tx.amount ≡ true → undelegate s tx ≡ (s, some not_enough_bonded)
  unfolding undelegate
  undelegate-short h = rw h refl

  undelegate-none : ltb (bond s tx.from tx.to) tx.amount ≡ false → (undelegate s tx).1 ≡ none
  unfolding undelegate
  undelegate-none h = rw h refl

  transfer-granted :
      total s < u64_mod
      → equal tx.from tx.to ≡ false
      → view_effect (transfer s tx) ≡ (
          if ltb (balance s tx.from) tx.amount
          then (view s, some insufficient_balance)
          else (moved tx (view s), none))
  transfer-granted u ne = elim (Bool-cases (ltb (balance s tx.from) tx.amount)) [
    | inl short ↦ rw short (ap view_effect (transfer-short short))
    | inr funded ↦
        rw funded
          (pair_of (transfer s tx) _ _ (transfer-view s tx u funded ne) (transfer-none funded))
  ]

  delegate-granted :
      total s < u64_mod
      → view_effect (delegate s tx) ≡ (
          if ltb (balance s tx.from) tx.amount
          then (view s, some insufficient_balance)
          else (locked tx (view s), none))
  delegate-granted u = elim (Bool-cases (ltb (balance s tx.from) tx.amount)) [
    | inl short ↦ rw short (ap view_effect (delegate-short short))
    | inr funded ↦
        rw funded (pair_of (delegate s tx) _ _ (delegate-view s tx u funded) (delegate-none funded))
  ]

  undelegate-granted :
      IsWellFormed s
      → total s < u64_mod
      → view_effect (undelegate s tx) ≡ (
          if ltb (bond s tx.from tx.to) tx.amount
          then (view s, some not_enough_bonded)
          else (unlocked tx (view s), none))
  undelegate-granted wf u = elim (Bool-cases (ltb (bond s tx.from tx.to) tx.amount)) [
    | inl short ↦ rw short (ap view_effect (undelegate-short short))
    | inr funded ↦
        rw funded (
          pair_of (undelegate s tx) _ _ (undelegate-view s tx wf u funded) (undelegate-none funded))
  ]

  apply_kind-granted :
      IsWellFormed s
      → total s < u64_mod
      → (equal tx.kind kind_transfer && equal tx.from tx.to) ≡ false
      → view_effect (apply_kind s tx) ≡ granted tx (view s) (lacking tx (view s))
  apply_kind-granted wf u ne = elim (Bool-cases (equal tx.kind kind_transfer)) [
    | inl k1 ↦
        let g =
          ap view_effect (apply_kind-transfer k1) ∙ transfer-granted u (ground (arith, ne, k1)) in
        elim (Bool-cases (ltb (balance s tx.from) tx.amount)) [
          | inl short ↦ g ∙ rw (k1, short) refl
          | inr funded ↦ g ∙ rw (k1, funded) (rw k1 refl)
        ]
    | inr n1 ↦ elim (Bool-cases (equal tx.kind kind_delegate)) [
      | inl k2 ↦
          let g = ap view_effect (apply_kind-delegate n1 k2) ∙ delegate-granted u in
          elim (Bool-cases (ltb (balance s tx.from) tx.amount)) [
            | inl short ↦ g ∙ rw (n1, k2, short) refl
            | inr funded ↦ g ∙ rw (n1, k2, funded) (rw (n1, k2) refl)
          ]
      | inr n2 ↦ elim (Bool-cases (equal tx.kind kind_undelegate)) [
        | inl k3 ↦
            let g = ap view_effect (apply_kind-undelegate n1 n2 k3) ∙ undelegate-granted wf u in
            elim (Bool-cases (ltb (bond s tx.from tx.to) tx.amount)) [
              | inl short ↦ g ∙ rw (n1, n2, k3, short) refl
              | inr funded ↦ g ∙ rw (n1, n2, k3, funded) (rw (n1, n2) refl)
            ]
        | inr n3 ↦ ap view_effect (apply_kind-unknown n1 n2 n3) ∙ rw (n1, n2, n3) refl
      ]
    ]
  ]

module _ ⦃c : Crypto⦄ (s : State) (tx : Transaction) where
  count_nonce-settle :
      (e : Effect) (lack : Option TxError)
      → view_effect e ≡ granted tx (view s) lack
      → view_effect (count_nonce tx.from e) ≡ settle tx (view s) lack
  unfolding count_nonce
  count_nonce-settle (s', some er) none h = absurd (ground (arith, ap (λ p. p.1) h))
  count_nonce-settle (s', none) (some er) h = absurd (ground (arith, ap (λ p. p.1) h))
  count_nonce-settle (s', some er) (some er') h = h
  count_nonce-settle (s', none) none h =
      pair_of (count_nonce tx.from (s', none)) _ none
        (count_nonce-view tx.from s' tx ∙ ap (counted tx) (ap (λ p. p.0) h)) refl

  authenticated-settle :
      (key : Bytes)
      → IsWellFormed s
      → total s < u64_mod
      → (equal tx.kind kind_transfer && equal tx.from tx.to) ≡ false
      → view_effect (authenticated s tx key)
        ≡ settle tx (view s) (unsigned_or_stale tx (view s) key)
  unfolding authenticated
  authenticated-settle key wf u ne =
      let g =
        count_nonce-settle (apply_kind s tx) (lacking tx (view s))
          (apply_kind-granted s tx wf u ne) in
      elim (Bool-cases (c.verify key (signable_bytes tx) tx.signature)) [
        | inr forged ↦ rw forged refl
        | inl signed ↦ elim (Bool-cases (eqb_ℤ tx.nonce (nonce_of s tx.from))) [
          | inr stale ↦ rw (signed, stale) refl
          | inl next ↦ rw (signed, next) g
        ]
      ]

  -- One rule: the code and the rules take the same branch.
  by_rule :
      (broken : Bool) (e e' : Effect) (o o' : Option TxError)
      → view_effect e ≡ settle tx (view s) o
      → (broken ≡ false → view_effect e' ≡ settle tx (view s) o')
      → view_effect (if broken then e else e') ≡ settle tx (view s) (if broken then o else o')
  by_rule true e e' o o' h k = h
  by_rule false e e' o o' h k = k refl

  key-settle :
      IsWellFormed s
      → total s < u64_mod
      → (equal tx.kind kind_transfer && equal tx.from tx.to) ≡ false
      → (r : Result AddressError Bytes)
      → view_effect (elim r [ err e ↦ (s, some bad_sender) | ok key ↦ authenticated s tx key ])
        ≡ settle tx
            (view s)
            (elim r [ err e ↦ some bad_sender | ok key ↦ unsigned_or_stale tx (view s) key ])
  key-settle wf u ne (err e) = refl
  key-settle wf u ne (ok key) = authenticated-settle key wf u ne

  -- On a ledger of maps that holds less than 2^64 tokens, `applyTx` does what it ought to do: for
  -- every transaction the balances, nonces and bonds after it, at every address, and its error are
  -- those of the rules in plain numbers, with no wrap-around and however the maps are laid out.
  pub apply_tx-intended :
      IsWellFormed s → total s < u64_mod → view_effect (apply_tx s tx) ≡ intended tx (view s)
  unfolding apply_tx
  apply_tx-intended wf u =
      let r = pub_key_from_address tx.from in
      let e5 : Effect = elim r [ err e ↦ (s, some bad_sender) | ok key ↦ authenticated s tx key ] in
      let o5 : Option TxError = elim r [
        | err e ↦ some bad_sender
        | ok key ↦ unsigned_or_stale tx (view s) key
      ] in
      let to_self = equal tx.kind kind_transfer && equal tx.from tx.to in
      let e4 = if to_self then (s, some self_send) else e5 in
      let o4 = if to_self then some self_send else o5 in
      let astray = not (valid_address tx.to) in
      let e3 = if astray then (s, some bad_recipient) else e4 in
      let o3 = if astray then some bad_recipient else o4 in
      let nothing = tx.amount == 0 in
      let e2 = if nothing then (s, some zero_amount) else e3 in
      let o2 = if nothing then some zero_amount else o3 in
      by_rule (equal tx.from []) (s, some empty_sender) e2 (some empty_sender) o2 refl
        (λ h1.
          by_rule nothing (s, some zero_amount) e3 (some zero_amount) o3 refl
            (λ h2.
              by_rule astray (s, some bad_recipient) e4 (some bad_recipient) o4 refl
                (λ h3.
                  by_rule to_self (s, some self_send) e5 (some self_send) o5 refl
                    (λ ne. key-settle wf u ne r))))
