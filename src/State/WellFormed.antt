-- ===== src/State/WellFormed.antt =====
-- The ledger's maps, the inner ones too, under `applyTx` of chain/state.go.
use dylchain.Base.{ℕ, inl, inr, none, some, [], ◌∷◌, ltb, ◌==◌, Bool-cases, length, All}
use dylchain.Base.Int.{add_u64, sub_u64}
use dylchain.Bytes.{Bytes, equal}
use dylchain.Dict.{Dict, get_or, insert, erase, IsMap, insert-IsMap, erase-IsMap}
use dylchain.Crypto.{Crypto}
use dylchain.Transaction.{Transaction}
use dylchain.State.Cases.{apply_kind_cases, apply_tx_cases}
use dylchain.State.{
  State, Effect, transfer, delegate, release, undelegate, apply_kind, count_nonce, apply_tx,
}

-- Every inner map has distinct keys.
abbrev pub InnerMaps : Dict (Dict ℕ) → Type 0
InnerMaps = All (λ e. IsMap e.1)

pub record IsWellFormed (s : State) : Type 0 where
  pub balances_map : IsMap s.balances
  pub nonces_map : IsMap s.nonces
  pub delegations_map : IsMap s.delegations
  pub inner_maps : InnerMaps s.delegations

pub get_or-IsMap : (d : Dict (Dict ℕ)) (k : Bytes) → InnerMaps d → IsMap (get_or d k [])
unfolding get_or
get_or-IsMap [] k h = tt
get_or-IsMap ((j, m) ∷ d) k h = elim (Bool-cases (equal j k)) [
  | inl e ↦ rw e h.0
  | inr e ↦ rw e (get_or-IsMap d k h.1)
]

insert-InnerMaps :
    (k : Bytes) (m : Dict ℕ) (d : Dict (Dict ℕ)) → IsMap m → InnerMaps d → InnerMaps (insert k m d)
unfolding insert
insert-InnerMaps k m [] hm h = (hm, tt)
insert-InnerMaps k m ((j, w) ∷ d) hm h = elim (Bool-cases (equal j k)) [
  | inl e ↦ rw e (hm, h.1)
  | inr e ↦ rw e (h.0, insert-InnerMaps k m d hm h.1)
]

erase-InnerMaps : (k : Bytes) (d : Dict (Dict ℕ)) → InnerMaps d → InnerMaps (erase k d)
unfolding erase
erase-InnerMaps k [] h = tt
erase-InnerMaps k ((j, w) ∷ d) h = elim (Bool-cases (equal j k)) [
  | inl e ↦ rw e h.1
  | inr e ↦ rw e (h.0, erase-InnerMaps k d h.1)
]

-- Both properties of the delegations at once.
abbrev IsNested : Dict (Dict ℕ) → Type 0
IsNested d = IsMap d × InnerMaps d

insert-IsNested :
    (k : Bytes) (m : Dict ℕ) (d : Dict (Dict ℕ)) → IsMap m → IsNested d → IsNested (insert k m d)
insert-IsNested k m d hm h = (insert-IsMap k m d h.0, insert-InnerMaps k m d hm h.1)

release-IsNested :
    (d : Dict (Dict ℕ)) (from to : Bytes) (amount : ℕ)
    → IsNested d
    → IsNested (release d from to amount)
unfolding release
release-IsNested d from to amount h =
    let held = get_or d from [] in
    let hm = get_or-IsMap d from h.1 in
    let lowered = insert to (sub_u64 (get_or held to 0) amount) held in
    elim (Bool-cases (get_or held to 0 == amount)) [
      | inl all ↦ elim (Bool-cases (length (erase to held) == 0)) [
        | inl gone ↦ rw (all, gone) (erase-IsMap from d h.0, erase-InnerMaps from d h.1)
        | inr left ↦
            rw (all, left) (insert-IsNested from (erase to held) d (erase-IsMap to held hm) h)
      ]
      | inr part ↦ rw part (insert-IsNested from lowered d (insert-IsMap to _ held hm) h)
    ]

delegate-IsWellFormed :
    (s : State) (tx : Transaction) → IsWellFormed s → IsWellFormed (delegate s tx).0
unfolding delegate
delegate-IsWellFormed s tx h =
    let held = get_or s.delegations tx.from [] in
    let hm = get_or-IsMap s.delegations tx.from h.inner_maps in
    let bonded = insert tx.to (add_u64 (get_or held tx.to 0) tx.amount) held in
    let nested =
      insert-IsNested tx.from bonded s.delegations (insert-IsMap tx.to _ held hm)
        (h.delegations_map, h.inner_maps) in
    elim (Bool-cases (ltb (get_or s.balances tx.from 0) tx.amount)) [
      | inl short ↦ rw short h
      | inr funded ↦ rw funded (record {
        balances_map = insert-IsMap tx.from _ s.balances h.balances_map;
        nonces_map = h.nonces_map;
        delegations_map = nested.0;
        inner_maps = nested.1;
      })
    ]

undelegate-IsWellFormed :
    (s : State) (tx : Transaction) → IsWellFormed s → IsWellFormed (undelegate s tx).0
unfolding undelegate
undelegate-IsWellFormed s tx h =
    let nested =
      release-IsNested s.delegations tx.from tx.to tx.amount (h.delegations_map, h.inner_maps) in
    elim (Bool-cases (ltb (get_or (get_or s.delegations tx.from []) tx.to 0) tx.amount)) [
      | inl short ↦ rw short h
      | inr enough ↦ rw enough (record {
        balances_map = insert-IsMap tx.from _ s.balances h.balances_map;
        nonces_map = h.nonces_map;
        delegations_map = nested.0;
        inner_maps = nested.1;
      })
    ]

transfer-IsWellFormed :
    (s : State) (tx : Transaction) → IsWellFormed s → IsWellFormed (transfer s tx).0
unfolding transfer
transfer-IsWellFormed s tx h = elim (Bool-cases (ltb (get_or s.balances tx.from 0) tx.amount)) [
  | inl short ↦ rw short h
  | inr funded ↦ rw funded (record {
    balances_map = insert-IsMap tx.to _ _ (insert-IsMap tx.from _ s.balances h.balances_map);
    nonces_map = h.nonces_map;
    delegations_map = h.delegations_map;
    inner_maps = h.inner_maps;
  })
]

count_nonce-IsWellFormed :
    (from : Bytes) (e : Effect) → IsWellFormed e.0 → IsWellFormed (count_nonce from e).0
unfolding count_nonce
count_nonce-IsWellFormed from (s, some e) h = h
count_nonce-IsWellFormed from (s, none) h = record {
  balances_map = h.balances_map;
  nonces_map = insert-IsMap from _ s.nonces h.nonces_map;
  delegations_map = h.delegations_map;
  inner_maps = h.inner_maps;
}

-- No transaction, accepted or refused, breaks the maps.
pub apply_tx-IsWellFormed :
    ⦃c : Crypto⦄ → (s : State) (tx : Transaction) → IsWellFormed s → IsWellFormed (apply_tx s tx).0
apply_tx-IsWellFormed ⦃c⦄ s tx h =
    apply_tx_cases (λ e. IsWellFormed e.0) s tx (λ _. h)
      (count_nonce-IsWellFormed tx.from (apply_kind s tx) (
        apply_kind_cases (λ e. IsWellFormed e.0) s tx (λ _. h) (transfer-IsWellFormed s tx h)
          (delegate-IsWellFormed s tx h) (undelegate-IsWellFormed s tx h)))
