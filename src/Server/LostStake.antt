-- ===== src/Server/LostStake.antt =====
-- The stake that slashed and faulty validators cost, as `handleFault` of cmd/dyld/main.go counts it.
use dylchain.Base.{
  ℕ, zero, suc, ◌+◌, ◌≤◌, ◌<◌, ◌≡◌, refl, ap, ◌∙◌, true, false, ◌||◌, some, List, [], ◌∷◌, map,
  arith, ◌==◌, if◌then◌else◌, ==_iff, length, get_elem?, set, ◌>>=◌,
}
use dylchain.Base.Int.{u64_mod}
use dylchain.Dict.{get_or}
use dylchain.Validators.{Validator, ValidatorSet}
use dylchain.Cluster.{Cluster}
use dylchain.Node.{Node}
use dylchain.Network.{Floats, validator_info}
use dylchain.Server.Faults.{add_lost, count_lost}

-- What a validator's stake counts as lost: all of it, if it is slashed or its node faulty.
abbrev share : Cluster → Validator → ℕ → Node → ℕ
share k m o n = if get_or k.slashed m.address false || n.byzantine then o else 0

-- The stake at genesis of the slashed and the faulty validators.
abbrev pub lost_stake : Cluster → ValidatorSet → List ℕ → List Node → ℕ
lost_stake k [] stakes nodes = 0
lost_stake k (m ∷ ms) [] nodes = 0
lost_stake k (m ∷ ms) (o ∷ stakes) [] = 0
lost_stake k (m ∷ ms) (o ∷ stakes) (n ∷ nodes) = share k m o n + lost_stake k ms stakes nodes

-- The same but for the validator at one place, counting the places from `i`.
abbrev pub others : Cluster → ℕ → ℕ → ValidatorSet → List ℕ → List Node → ℕ
others k index i [] stakes nodes = 0
others k index i (m ∷ ms) [] nodes = 0
others k index i (m ∷ ms) (o ∷ stakes) [] = 0
others k index i (m ∷ ms) (o ∷ stakes) (n ∷ nodes) =
    (if i == index then 0 else share k m o n) + others k index (suc i) ms stakes nodes

abbrev pub stake_sum : List ℕ → ℕ
stake_sum [] = 0
stake_sum (o ∷ stakes) = o + stake_sum stakes

others-past :
    (k : Cluster) (index i : ℕ) (ms : ValidatorSet) (stakes : List ℕ) (nodes : List Node)
    → index < i
    → others k index i ms stakes nodes ≡ lost_stake k ms stakes nodes
others-past k index i [] stakes nodes h = refl
others-past k index i (m ∷ ms) [] nodes h = refl
others-past k index i (m ∷ ms) (o ∷ stakes) [] h = refl
others-past k index i (m ∷ ms) (o ∷ stakes) (n ∷ nodes) h =
    let ih = others-past k index (suc i) ms stakes nodes (omega arith) in
    let ne : (i == index) ≡ false = ground (arith, ==_iff i index) in rw (ne, ih) refl

pub lost_stake-bound :
    (k : Cluster) (ms : ValidatorSet) (stakes : List ℕ) (nodes : List Node)
    → lost_stake k ms stakes nodes ≤ stake_sum stakes
lost_stake-bound k [] stakes nodes = omega arith
lost_stake-bound k (m ∷ ms) [] nodes = omega arith
lost_stake-bound k (m ∷ ms) (o ∷ stakes) [] = omega arith
lost_stake-bound k (m ∷ ms) (o ∷ stakes) (n ∷ nodes) =
    let ih = lost_stake-bound k ms stakes nodes in ground arith

-- One more faulty node.
pub lost_stake-set :
    (k : Cluster) (i j : ℕ) (ms : ValidatorSet) (stakes : List ℕ) (nodes : List Node) (own : ℕ)
    (m : Node)
    → length ms ≡ length stakes
    → get_elem? stakes j ≡ some own
    → get_elem? nodes j ≡ some m
    → lost_stake k ms stakes (set nodes j (record m { byzantine = true }))
      ≡ own + others k (i + j) i ms stakes nodes
lost_stake-set k i j [] [] nodes own m l hs hn = absurd (ground arith)
lost_stake-set k i j [] (o ∷ stakes) nodes own m l hs hn = absurd (omega arith)
lost_stake-set k i j (v ∷ ms) [] nodes own m l hs hn = absurd (omega arith)
lost_stake-set k i j (v ∷ ms) (o ∷ stakes) [] own m l hs hn = absurd (ground arith)
lost_stake-set k i zero (v ∷ ms) (o ∷ stakes) (n ∷ nodes) own m l hs hn =
    let past = others-past k (i + 0) (suc i) ms stakes nodes (omega arith) in
    let here : (i == i + 0) ≡ true = ground (arith, ==_iff i (i + 0)) in
    let same : o ≡ own = cc in
    let full : share k v o (record m { byzantine = true }) ≡ o = ground arith in
    rw here (omega arith)
lost_stake-set k i (suc j) (v ∷ ms) (o ∷ stakes) (n ∷ nodes) own m l hs hn =
    let ih = lost_stake-set k (suc i) j ms stakes nodes own m (omega arith) hs hn in
    let there : (i == i + suc j) ≡ false = ground (arith, ==_iff i (i + suc j)) in
    let place : suc i + j ≡ i + suc j = omega arith in
    let ih' = rw place at ih in rw there (omega arith)

module _ ⦃f : Floats⦄ where
  pub count_lost-others :
      (k : Cluster) (total index i lost : ℕ) (ms : ValidatorSet) (stakes : List ℕ)
      (nodes : List Node)
      → length ms ≡ length stakes
      → length stakes ≡ length nodes
      → lost + others k index i ms stakes nodes < u64_mod
      → count_lost index i (map (validator_info k total) ms) stakes nodes lost
        ≡ some (lost + others k index i ms stakes nodes)
  unfolding count_lost validator_info
  count_lost-others k total index i lost [] stakes nodes l l' room = ap some (omega arith)
  count_lost-others k total index i lost (m ∷ ms) [] nodes l l' room = absurd (omega arith)
  count_lost-others k total index i lost (m ∷ ms) (o ∷ stakes) [] l l' room = absurd (omega arith)
  count_lost-others k total index i lost (m ∷ ms) (o ∷ stakes) (n ∷ nodes) l l' room =
      let skip = i == index in
      let next = lost + (if skip then 0 else share k m o n) in
      let step : (if skip
            then some lost
            else add_lost (validator_info k total m) (o ∷ stakes) (n ∷ nodes) lost)
          ≡ some next =
        ground arith in
      ap
        (λ x. x >>= λ next.
          count_lost index (suc i) (map (validator_info k total) ms) stakes nodes next)
        step
      ∙ (count_lost-others k total index (suc i) next ms stakes nodes (omega arith) (omega arith)
            (omega arith)
          ∙ ap some (omega arith))
