-- ===== src/State/View.antt =====
-- The operations of chain/state.go, seen through what the ledger means at every address.
use dylchain.Base.{
  ℕ, ◌+◌, ◌-◌, ◌≤◌, ◌<◌, ◌≡◌, refl, sym, ◌∙◌, ◌≢◌, inl, inr, true, false, Option, none, List, [],
  ◌∷◌, arith, ltb, ◌==◌, if◌then◌else◌, Bool-cases, length,
}
use dylchain.Base.Int.{u64_mod, add_u64, sub_u64, pos, add_i64}
use dylchain.Bytes.{Bytes, equal, equal_iff, equal_refl}
use dylchain.Dict.{
  Dict, lookup, get_or, insert, erase, IsMap, get_or-insert, lookup-erase_ne, get_or-eq-lookup,
}
use dylchain.Transaction.{Transaction}
use dylchain.Dict.Sums.{sum, get_or-le-sum, sum-erase, sum-get_or-le-sum_all}
use dylchain.State.{
  State, TxError, Effect, balance, nonce_of, bond, transfer, delegate, undelegate, release,
  count_nonce,
}
use dylchain.State.Supply.{total}
use dylchain.State.WellFormed.{IsWellFormed, get_or-IsMap}
use dylchain.State.Accounts.{Accounts, view, only, moved, locked, unlocked, counted}

abbrev pub view_effect : Effect → Accounts × Option TxError
view_effect (s, e) = (view s, e)

pub get_or-erase {ℓ} :
    {V : Type ℓ} (j k : Bytes) (d : Dict V) (z : V)
    → IsMap d
    → get_or (erase k d) j z ≡ (if equal k j then z else get_or d j z)
unfolding get_or erase lookup
get_or-erase j k [] z m = ground arith
get_or-erase j k ((i, w) ∷ d) z m =
    let l = get_or-eq-lookup d k z in
    ground (arith, equal_iff i k, equal_iff i j, equal_iff k j, get_or-erase j k d z m.1, l)

true_ne_false : true ≢ false
true_ne_false h = ground arith

accounts_ext :
    (a b : Accounts)
    → ((x : Bytes) → a.balance_of x ≡ b.balance_of x)
    → ((x : Bytes) → a.next_nonce x ≡ b.next_nonce x)
    → ((d v : Bytes) → a.bonded d v ≡ b.bonded d v)
    → a ≡ b
accounts_ext a b hb hn hd =
    λ i. record { balance_of = λ x. hb x i; next_nonce = λ x. hn x i; bonded = λ d v. hd d v i }

-- Two accounts hold no more than all of them together.
two-le-sum : (d : Dict ℕ) (j k : Bytes) → equal k j ≡ false → get_or d j 0 + get_or d k 0 ≤ sum d
two-le-sum d j k ne =
    let rest = sum-erase k d in
    let part = get_or-le-sum (erase k d) j in
    let kept = lookup-erase_ne j k d (λ e. true_ne_false (sym ((equal_iff k j).1 (sym e)) ∙ ne)) in
    let before = get_or-eq-lookup d j 0 in
    let after = get_or-eq-lookup (erase k d) j 0 in
    let same : get_or (erase k d) j 0 ≡ get_or d j 0 = rw (before, after, kept) refl in omega arith

pub transfer-view :
    (s : State) (tx : Transaction)
    → total s < u64_mod
    → ltb (balance s tx.from) tx.amount ≡ false
    → equal tx.from tx.to ≡ false
    → view (transfer s tx).0 ≡ moved tx (view s)
unfolding transfer
transfer-view s tx u h ne =
    let low = sub_u64 (balance s tx.from) tx.amount in
    let paid = insert tx.from low s.balances in
    let high = add_u64 (get_or paid tx.to 0) tx.amount in
    rw h (
      accounts_ext _ _
        (λ x.
          let both = two-le-sum s.balances tx.to tx.from ne in
          let g1 = get_or-insert x tx.to high 0 paid in
          let g2 = get_or-insert x tx.from low 0 s.balances in
          let g3 = get_or-insert tx.to tx.from low 0 s.balances in
          ground (
            arith,
            equal_iff tx.from x,
            equal_iff tx.to x,
            equal_iff tx.from tx.to,
            g1,
            g2,
            g3,
            both,
          ))
        (λ x. refl) (λ d v. refl))

pub delegate-view :
    (s : State) (tx : Transaction)
    → total s < u64_mod
    → ltb (balance s tx.from) tx.amount ≡ false
    → view (delegate s tx).0 ≡ locked tx (view s)
unfolding delegate
delegate-view s tx u h =
    let low = sub_u64 (balance s tx.from) tx.amount in
    let held = get_or s.delegations tx.from [] in
    let more = add_u64 (get_or held tx.to 0) tx.amount in
    let bonded = insert tx.to more held in
    let fits = get_or-le-sum s.balances tx.from in
    let bonds = sum-get_or-le-sum_all s.delegations tx.from in
    let one = get_or-le-sum held tx.to in
    rw h (
      accounts_ext _ _
        (λ x.
          let g = get_or-insert x tx.from low 0 s.balances in
          ground (arith, equal_iff tx.from x, g, fits))
        (λ x. refl)
        (λ d v.
          let outer = get_or-insert d tx.from bonded [] s.delegations in
          elim (Bool-cases (equal tx.from d)) [
            | inl here ↦
                let same = (equal_iff tx.from d).0 here in
                let inner = get_or-insert v tx.to more 0 held in
                rw (outer, here)
                  (rw inner (rw (← same) (ground (arith, equal_iff tx.to v, fits, bonds, one))))
            | inr other ↦ rw (outer, other) (omega arith)
          ]))

-- Releasing touches no other delegator, and of the delegator's bonds only the one.
release-other :
    (del : Dict (Dict ℕ)) (from to : Bytes) (amount : ℕ) (d v : Bytes)
    → IsMap del
    → equal from d ≡ false
    → get_or (get_or (release del from to amount) d []) v 0 ≡ get_or (get_or del d []) v 0
unfolding release
release-other del from to amount d v m other =
    let held = get_or del from [] in
    let less = insert to (sub_u64 (get_or held to 0) amount) held in
    let e1 = get_or-erase d from del [] m in
    let e2 = get_or-insert d from (erase to held) [] del in
    let e3 = get_or-insert d from less [] del in
    elim (Bool-cases (get_or held to 0 == amount)) [
      | inr part ↦ rw part (rw (e3, other) refl)
      | inl all ↦ elim (Bool-cases (length (erase to held) == 0)) [
        | inl gone ↦ rw (all, gone) (rw (e1, other) refl)
        | inr left ↦ rw (all, left) (rw (e2, other) refl)
      ]
    ]

length-eq-nil {ℓ} : {A : Type ℓ} (xs : List A) → (length xs == 0) ≡ true → xs ≡ []
length-eq-nil [] h = refl
length-eq-nil (x ∷ xs) h = absurd (ground arith)

release_self :
    (del : Dict (Dict ℕ)) (from to : Bytes) (amount : ℕ) (v : Bytes)
    → IsMap del
    → IsMap (get_or del from [])
    → get_or (get_or del from []) to 0 < u64_mod
    → amount ≤ get_or (get_or del from []) to 0
    → get_or (get_or (release del from to amount) from []) v 0
      ≡ get_or (get_or del from []) v 0 - only to amount v
unfolding release get_or
release_self del from to amount v m mh small h =
    let held = get_or del from [] in
    let low = sub_u64 (get_or held to 0) amount in
    let e1 = get_or-erase from from del [] m in
    let e2 = get_or-insert from from (erase to held) [] del in
    let e3 = get_or-insert from from (insert to low held) [] del in
    let erased = get_or-erase v to held 0 mh in
    let lowered = get_or-insert v to low 0 held in
    let same = equal_refl from in
    elim (Bool-cases (get_or held to 0 == amount)) [
      | inr part ↦ rw part (rw (e3, same) (rw lowered (ground (arith, equal_iff to v))))
      | inl all ↦ elim (Bool-cases (length (erase to held) == 0)) [
        | inl gone ↦
            let nothing = length-eq-nil (erase to held) gone in
            let zero_here : get_or (erase to held) v 0 ≡ 0 = rw (nothing, get_or) refl in
            rw (all, gone) (rw (e1, same) (ground (arith, equal_iff to v, erased, zero_here)))
        | inr left ↦ rw (all, left) (rw (e2, same) (rw erased (ground (arith, equal_iff to v))))
      ]
    ]

pub release-view :
    (del : Dict (Dict ℕ)) (from to : Bytes) (amount : ℕ) (d v : Bytes)
    → IsMap del
    → IsMap (get_or del from [])
    → get_or (get_or del from []) to 0 < u64_mod
    → amount ≤ get_or (get_or del from []) to 0
    → get_or (get_or (release del from to amount) d []) v 0
      ≡ get_or (get_or del d []) v 0 - (if equal from d then only to amount v else 0)
unfolding release
release-view del from to amount d v m mh small h = elim (Bool-cases (equal from d)) [
  | inr other ↦ rw other (release-other del from to amount d v m other ∙ omega arith)
  | inl here ↦
      rw (← (equal_iff from d).0 here)
        (rw (equal_refl from) (release_self del from to amount v m mh small h))
]

pub undelegate-view :
    (s : State) (tx : Transaction)
    → IsWellFormed s
    → total s < u64_mod
    → ltb (bond s tx.from tx.to) tx.amount ≡ false
    → view (undelegate s tx).0 ≡ unlocked tx (view s)
unfolding undelegate
undelegate-view s tx wf u h =
    let high = add_u64 (balance s tx.from) tx.amount in
    let held = get_or s.delegations tx.from [] in
    let fits = get_or-le-sum s.balances tx.from in
    let bonds = sum-get_or-le-sum_all s.delegations tx.from in
    let one = get_or-le-sum held tx.to in
    let enough : tx.amount ≤ get_or held tx.to 0 = ground arith in
    rw h (
      accounts_ext _ _
        (λ x.
          let g = get_or-insert x tx.from high 0 s.balances in
          ground (arith, equal_iff tx.from x, g, fits, bonds, one, enough))
        (λ x. refl)
        (λ d v.
          release-view s.delegations tx.from tx.to tx.amount d v wf.delegations_map
            (get_or-IsMap s.delegations tx.from wf.inner_maps) (omega arith) enough))

pub count_nonce-view :
    (from : Bytes) (s : State) (tx : Transaction)
    → view (count_nonce tx.from (s, none)).0 ≡ counted tx (view s)
unfolding count_nonce
count_nonce-view from s tx =
    let next = add_i64 (nonce_of s tx.from) (pos 1) in
    accounts_ext _ _ (λ x. refl)
      (λ x.
        let g = get_or-insert x tx.from next (pos 0) s.nonces in
        ground (arith, equal_iff tx.from x, g))
      (λ d v. refl)
