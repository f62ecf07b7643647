-- ===== src/Chain/Compared.antt =====
-- The comparison of two ledgers in chain/chain.go, against what the ledgers mean.
use dylchain.Base.{
  ℕ, ◌≡◌, refl, ◌∙◌, inl, inr, Bool, true, Option, none, some, [], ◌∷◌, arith, ◌==◌, Option-cases,
  length,
}
use dylchain.Base.Int.{ℤ, pos, eqb_ℤ, eqb_ℤ_iff}
use dylchain.Bytes.{Bytes}
use dylchain.Dict.{Dict, lookup, get_or, get_or-eq-lookup}
use dylchain.Dict.Equal.{
  entries_in, maps_equal, maps_equal_refl, Includes, Includes-refl, Agree, maps_equal-Agree,
  maps_equal-get_or,
}
use dylchain.State.{State, bond}
use dylchain.State.Accounts.{view}
use dylchain.State.WellFormed.{IsWellFormed, InnerMaps, get_or-IsMap}
use dylchain.State.Filled.{IsFilled}
use dylchain.Chain.Validate.{delegators_in, delegations_equal, states_differ}

nat_eq_refl : (n : ℕ) → (n == n) ≡ true
nat_eq_refl n = ground arith

delegators_in-Includes :
    (a b : Dict (Dict ℕ)) → InnerMaps a → Includes a b → delegators_in a b ≡ true
unfolding delegators_in
delegators_in-Includes [] b m i = refl
delegators_in-Includes ((d, w) ∷ a) b m i =
    let read : get_or b d [] ≡ w = get_or-eq-lookup b d [] ∙ rw i.0 refl in
    rw (read, maps_equal_refl ◌==◌ nat_eq_refl w m.0) (delegators_in-Includes a b m.1 i.1)

pub states_differ-same : (s : State) → IsWellFormed s → states_differ s s ≡ none
unfolding states_differ delegations_equal
states_differ-same s w =
    let b = maps_equal_refl ◌==◌ nat_eq_refl s.balances w.balances_map in
    let n = maps_equal_refl eqb_ℤ (λ z. (eqb_ℤ_iff z z).1 refl) s.nonces w.nonces_map in
    let i = Includes-refl s.delegations w.delegations_map in
    let d = delegators_in-Includes s.delegations s.delegations w.inner_maps i in
    rw (b, n, nat_eq_refl (length s.delegations), d)

nat_eq_sound : (m n : ℕ) → (m == n) ≡ true → m ≡ n
nat_eq_sound m n h = ground arith

-- The comparison of two delegators' bonds.
abbrev same_bonds : Dict ℕ → Dict ℕ → Bool
same_bonds = maps_equal ◌==◌

-- The map that is compared with a missing delegator's is empty.
same_bonds-nil : (m : Dict ℕ) → same_bonds m [] ≡ true → (length m == 0) ≡ true
unfolding maps_equal
same_bonds-nil m h = ground arith

-- Where no delegator is without a bond, the loop of `delegationsEqual` is that of maps.Equal.
delegators_in-entries_in :
    (a b : Dict (Dict ℕ)) → IsFilled a → delegators_in a b ≡ true → entries_in same_bonds a b ≡ true
unfolding delegators_in entries_in
delegators_in-entries_in [] b f h = refl
delegators_in-entries_in ((d, m) ∷ a) b f h =
    let e = get_or-eq-lookup b d [] in
    let here : same_bonds m (get_or b d []) ≡ true = ground (arith, h) in
    let rest = delegators_in-entries_in a b f.1 (ground (arith, h)) in
    elim (Option-cases (lookup d b)) [
      | inl missing ↦
          let nothing : get_or b d [] ≡ [] = e ∙ rw missing refl in
          let empty = same_bonds-nil m (rw nothing at here) in absurd (ground (arith, empty, f.0))
      | inr (w, there) ↦
          let held : get_or b d [] ≡ w = e ∙ rw there refl in rw (there, rw held at here) rest
    ]

delegations_equal-maps_equal :
    (a b : Dict (Dict ℕ))
    → IsFilled a
    → delegations_equal a b ≡ true
    → maps_equal same_bonds a b ≡ true
unfolding delegations_equal maps_equal
delegations_equal-maps_equal a b f h =
    let inner = delegators_in-entries_in a b f (ground (arith, h)) in ground (arith, inner, h)

bonds-Agree :
    (a b : Dict (Dict ℕ)) (d v : Bytes) (x y : Option (Dict ℕ))
    → lookup d a ≡ x
    → lookup d b ≡ y
    → InnerMaps a
    → Agree same_bonds x y
    → get_or (get_or a d []) v 0 ≡ get_or (get_or b d []) v 0
bonds-Agree a b d v none none ea eb m g =
    rw (get_or-eq-lookup a d [], get_or-eq-lookup b d [], ea, eb) refl
bonds-Agree a b d v none (some w) ea eb m g = absurd (ground (arith, g))
bonds-Agree a b d v (some u) none ea eb m g = absurd (ground (arith, g))
bonds-Agree a b d v (some u) (some w) ea eb m g =
    let ra : get_or a d [] ≡ u = get_or-eq-lookup a d [] ∙ rw ea refl in
    let rb : get_or b d [] ≡ w = get_or-eq-lookup b d [] ∙ rw eb refl in
    rw (ra, rb) (maps_equal-get_or ◌==◌ u w 0 nat_eq_sound (rw ra at (get_or-IsMap a d m)) g v)

-- Ledgers that the comparison does not tell apart mean the same, if no delegator of the first is
-- without a bond.
pub states_differ-view :
    (s t : State)
    → IsWellFormed s
    → IsFilled s.delegations
    → states_differ s t ≡ none
    → view s ≡ view t
unfolding states_differ
states_differ-view s t w f h =
    let balances : maps_equal ◌==◌ s.balances t.balances ≡ true = ground (arith, h) in
    let nonces : maps_equal eqb_ℤ s.nonces t.nonces ≡ true = ground (arith, h) in
    let listed : delegations_equal s.delegations t.delegations ≡ true = ground (arith, h) in
    let bonds = delegations_equal-maps_equal s.delegations t.delegations f listed in
    let z = λ (x y : ℤ). (eqb_ℤ_iff x y).0 in
    let hb = maps_equal-get_or ◌==◌ s.balances t.balances 0 nat_eq_sound w.balances_map balances in
    let hn = maps_equal-get_or eqb_ℤ s.nonces t.nonces (pos 0) z w.nonces_map nonces in
    let hd : (d v : Bytes) → bond s d v ≡ bond t d v = λ d v.
      bonds-Agree s.delegations t.delegations d v _ _ refl refl w.inner_maps
        (maps_equal-Agree same_bonds s.delegations t.delegations w.delegations_map bonds d) in
    λ i. record { balance_of = λ x. hb x i; next_nonce = λ x. hn x i; bonded = λ d v. hd d v i }
