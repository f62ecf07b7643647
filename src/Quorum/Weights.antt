-- ===== src/Quorum/Weights.antt =====
-- The weights that chain/consensus.go adds up, against the whole weight of the set.
use dylchain.Base.{
  ℕ, ◌+◌, ◌≤◌, ◌<◌, ◌≡◌, refl, ◌∙◌, ◌⊎◌, inl, inr, true, false, ◌||◌, List, [], ◌∷◌, ◌++◌, arith,
  Bool-cases,
}
use dylchain.Base.Int.{u64_mod, add_u64}
use dylchain.Bytes.{Bytes, equal, equal_iff, equal_refl}
use dylchain.Election.{Member, Election, effective, add_effective, total_stake, stake_of}
use dylchain.Quorum.{has}

-- The weight of the set, without wrap-around.
abbrev pub weight : Election → ℕ
weight [] = 0
weight (m ∷ ms) = effective m + weight ms

abbrev pub weight_of : Election → List Bytes → ℕ
weight_of e [] = 0
weight_of e (a ∷ as') = stake_of e a + weight_of e as'

-- No address occurs twice.
abbrev pub Distinct : List Bytes → Type 0
Distinct [] = Unit
Distinct (a ∷ as') = (has as' a ≡ false) × Distinct as'

add_effective-weight :
    (acc : ℕ) (e : Election) → acc + weight e < u64_mod → add_effective acc e ≡ acc + weight e
unfolding add_effective
add_effective-weight acc [] h = omega arith
add_effective-weight acc (m ∷ ms) h =
    let s : add_u64 acc (effective m) ≡ acc + effective m = omega arith in
    rw s (add_effective-weight (acc + effective m) ms (omega arith) ∙ omega arith)

pub total_stake-weight : (e : Election) → weight e < u64_mod → total_stake e ≡ weight e
unfolding total_stake
total_stake-weight e h = add_effective-weight 0 e (omega arith) ∙ omega arith

weight_of-nil : (as' : List Bytes) → weight_of [] as' ≡ 0
unfolding stake_of
weight_of-nil [] = refl
weight_of-nil (a ∷ as') = let ih = weight_of-nil as' in omega arith

weight_of-skip :
    (m : Member) (ms : Election) (as' : List Bytes)
    → has as' m.address ≡ false
    → weight_of (m ∷ ms) as' ≡ weight_of ms as'
unfolding stake_of has
weight_of-skip m ms [] h = refl
weight_of-skip m ms (a ∷ as') h =
    ground (arith, weight_of-skip m ms as', equal_iff m.address a, equal_iff a m.address)

weight_of-member :
    (m : Member) (ms : Election) (as' : List Bytes)
    → Distinct as'
    → weight_of (m ∷ ms) as' ≤ effective m + weight_of ms as'
unfolding stake_of has
weight_of-member m ms [] h = omega arith
weight_of-member m ms (a ∷ as') h =
    let ih = weight_of-member m ms as' h.1 in
    let skip = weight_of-skip m ms as' in
    elim (Bool-cases (equal m.address a)) [
      | inl here ↦
          let same = (equal_iff m.address a).0 here in let e = skip (rw same h.0) in ground arith
      | inr other ↦ ground arith
    ]

-- Distinct voters hold no more than the whole weight of the set.
pub weight_of-bound : (e : Election) (as' : List Bytes) → Distinct as' → weight_of e as' ≤ weight e
weight_of-bound [] as' h = rw (weight_of-nil as') (omega arith)
weight_of-bound (m ∷ ms) as' h =
    let ih = weight_of-bound ms as' h in let s = weight_of-member m ms as' h in omega arith

pub weight_of-append :
    (e : Election) (xs ys : List Bytes) → weight_of e (xs ++ ys) ≡ weight_of e xs + weight_of e ys
weight_of-append e [] ys = omega arith
weight_of-append e (x ∷ xs) ys = let ih = weight_of-append e xs ys in omega arith

pub has-append : (xs ys : List Bytes) (a : Bytes) → has (xs ++ ys) a ≡ (has xs a || has ys a)
unfolding has
has-append [] ys a = refl
has-append (x ∷ xs) ys a = ground (arith, has-append xs ys a)

-- Two lists share an address, or together are distinct.
pub shared_or_Distinct :
    (xs ys : List Bytes)
    → Distinct xs
    → Distinct ys
    → ((a : Bytes) × (has xs a ≡ true) × (has ys a ≡ true)) ⊎ Distinct (xs ++ ys)
unfolding has
shared_or_Distinct [] ys dx dy = inr dy
shared_or_Distinct (x ∷ xs) ys dx dy = elim (Bool-cases (has ys x)) [
  | inl both ↦ inl (x, ground (arith, equal_refl x), both)
  | inr only ↦ elim (shared_or_Distinct xs ys dx.1 dy) [
    | inl (a, hx, hy) ↦ inl (a, ground arith, hy)
    | inr d ↦ inr (has-append xs ys x ∙ ground arith, d)
  ]
]
