-- ===== src/Reward/Bounds.antt =====
-- Bounds of `distributeReward` in chain/state.go.
use dylchain.Base.{
  ℕ, ◌+◌, ◌*◌, ◌/◌, ◌%◌, ◌≤◌, ◌<◌, ◌≡◌, refl, ◌≢◌, inl, inr, none, some, List, [], ◌∷◌, arith, ltb,
  ◌==◌, Bool-cases, All,
}
use dylchain.Base.Int.{u64_mod, add_u64, sub_u64}
use dylchain.Bytes.{Bytes, equal_iff, equal_refl}
use dylchain.Dict.{Dict, lookup, get_or, IsMap}
use dylchain.Coin.{block_reward}
use dylchain.Dict.Sums.{sum, sum_all, sum-insert, get_or-le-sum}
use dylchain.State.{State, bond}
use dylchain.State.Supply.{total}
use dylchain.Reward.{
  mul_div, insert_sorted, sort_strings, delegators_of, add_delegated, pay, credit,
  distribute_reward,
}

-- The 128-bit computation of `mulDiv` is the exact quotient, and does not panic, when the share is
-- of no more than the whole.
pub mul_div-exact :
    (b t : ℕ) → 0 < t → b ≤ t → mul_div block_reward b t ≡ some (block_reward * b / t)
unfolding mul_div
mul_div-exact b t p h =
    let small : block_reward * b / u64_mod < t = omega arith in
    let whole : block_reward * b / u64_mod * u64_mod + block_reward * b % u64_mod
        ≡ block_reward * b =
      omega arith in
    ground arith

-- A share times the whole stake is at most the reward times the bond.
share_bound : (b t : ℕ) → 0 < t → block_reward * b / t * t ≤ block_reward * b
share_bound b t p = omega arith

-- The bonds of some delegators behind the proposer, without wrapping around.
abbrev bonds : State → Bytes → List Bytes → ℕ
bonds s proposer [] = 0
bonds s proposer (d ∷ ds) = bond s d proposer + bonds s proposer ds

add_delegated-bonds :
    (s : State) (proposer : Bytes) (acc : ℕ) (ds : List Bytes)
    → acc < u64_mod
    → add_delegated s proposer acc ds ≡ (acc + bonds s proposer ds) % u64_mod
unfolding add_delegated
add_delegated-bonds s proposer acc [] h = omega arith
add_delegated-bonds s proposer acc (d ∷ ds) h =
    omega (arith, add_delegated-bonds s proposer (add_u64 acc (bond s d proposer)) ds (omega arith))

bonds-insert_sorted :
    (s : State) (proposer d : Bytes) (ds : List Bytes)
    → bonds s proposer (insert_sorted d ds) ≡ bond s d proposer + bonds s proposer ds
unfolding insert_sorted
bonds-insert_sorted s proposer d [] = refl
bonds-insert_sorted s proposer d (x ∷ ds) = ground (arith, bonds-insert_sorted s proposer d ds)

bonds-sort_strings :
    (s : State) (proposer : Bytes) (ds : List Bytes)
    → bonds s proposer (sort_strings ds) ≡ bonds s proposer ds
unfolding sort_strings
bonds-sort_strings s proposer [] = refl
bonds-sort_strings s proposer (d ∷ ds) =
    omega
      (arith, bonds-insert_sorted s proposer d (sort_strings ds), bonds-sort_strings s proposer ds)

-- A delegator that the map's tail does not have is not among the tail's.
delegators_of-ne :
    (proposer k : Bytes) (d : Dict (Dict ℕ))
    → lookup k d ≡ none
    → All (λ j. j ≢ k) (delegators_of proposer d)
unfolding delegators_of lookup
delegators_of-ne proposer k [] h = tt
delegators_of-ne proposer k ((j, m) ∷ d) h =
    ground (arith, equal_iff j k, delegators_of-ne proposer k d)

-- The bonds read from a map, and what its first entry adds.
abbrev bonds_in : Dict (Dict ℕ) → Bytes → List Bytes → ℕ
bonds_in d proposer [] = 0
bonds_in d proposer (k ∷ ks) = get_or (get_or d k []) proposer 0 + bonds_in d proposer ks

bonds-eq-bonds_in :
    (s : State) (proposer : Bytes) (ds : List Bytes)
    → bonds s proposer ds ≡ bonds_in s.delegations proposer ds
bonds-eq-bonds_in s proposer [] = refl
bonds-eq-bonds_in s proposer (d ∷ ds) = omega (arith, bonds-eq-bonds_in s proposer ds)

bonds_in-cons :
    (k : Bytes) (m : Dict ℕ) (d : Dict (Dict ℕ)) (proposer : Bytes) (ks : List Bytes)
    → All (λ j. j ≢ k) ks
    → bonds_in ((k, m) ∷ d) proposer ks ≡ bonds_in d proposer ks
unfolding get_or
bonds_in-cons k m d proposer [] h = refl
bonds_in-cons k m d proposer (j ∷ ks) h =
    ground (arith, equal_iff k j, bonds_in-cons k m d proposer ks h.1)

get_or-head :
    (k : Bytes) (m : Dict ℕ) (d : Dict (Dict ℕ)) (proposer : Bytes)
    → get_or (get_or ((k, m) ∷ d) k []) proposer 0 ≡ get_or m proposer 0
unfolding get_or
get_or-head k m d proposer = rw (equal_refl k)

-- The proposer's delegators hold no more than all the bonds.
bonds_in-le-sum_all :
    (proposer : Bytes) (d : Dict (Dict ℕ))
    → IsMap d
    → bonds_in d proposer (delegators_of proposer d) ≤ sum_all d
unfolding delegators_of
bonds_in-le-sum_all proposer [] h = omega arith
bonds_in-le-sum_all proposer ((k, m) ∷ d) h =
    let ih = bonds_in-le-sum_all proposer d h.1 in
    let skip =
      bonds_in-cons k m d proposer (delegators_of proposer d) (delegators_of-ne proposer k d h.0) in
    let own : get_or (get_or ((k, m) ∷ d) k []) proposer 0 ≡ get_or m proposer 0 =
      get_or-head k m d proposer in
    let held = get_or-le-sum m proposer in
    elim (Bool-cases (ltb 0 (get_or m proposer 0))) [
      | inl e ↦ rw e (omega (arith, ih, skip, own, held))
      | inr e ↦ rw e (omega (arith, ih, skip))
    ]

paid_bound : (p t acc : ℕ) → 0 < t → acc ≤ t → p * t ≤ block_reward * acc → p ≤ block_reward
paid_bound p t acc pos_t h q = grind arith

-- What the paying loop returns: it does not panic, pays out at most in proportion to the bonds, and
-- the balances gain what it paid.
pay_lem :
    (s : State) (proposer : Bytes) (t : ℕ) (ds : List Bytes) (b : Dict ℕ) (p acc : ℕ)
    → 0 < t
    → acc + bonds s proposer ds ≤ t
    → p * t ≤ block_reward * acc
    → (b' : Dict ℕ) × (p' : ℕ) × (pay s proposer t ds b p ≡ some (b', p'))
      × (p' ≤ block_reward)
      × (sum b + block_reward < u64_mod + p → sum b' + p ≡ sum b + p')
unfolding pay
pay_lem s proposer t [] b p acc pos_t h q =
    (b, p, refl, paid_bound p t acc pos_t (omega arith) q, λ u. refl)
pay_lem s proposer t (d ∷ ds) b p acc pos_t h q =
    let held = bond s d proposer in
    let share = block_reward * held / t in
    let e = mul_div-exact held t pos_t (omega arith) in
    let scaled : (p + share) * t ≤ block_reward * (acc + held) =
      omega (arith, share_bound held t pos_t) in
    let fits = paid_bound (p + share) t (acc + held) pos_t (omega arith) scaled in
    let sum_p : add_u64 p share ≡ p + share = omega (arith, fits) in
    let (b', p', run, le, exact) =
      pay_lem s proposer t ds (credit d share b) (p + share) (acc + held) pos_t (omega arith)
        scaled in
    let gain = sum-insert d (add_u64 (get_or b d 0) share) b in
    let old = get_or-le-sum b d in
    (
      b',
      p',
      rw (e, sum_p) run,
      le,
      λ u. omega (arith, exact (omega (arith, fits, gain, old)), fits, gain, old),
    )

-- With distinct delegators, the proposer's self-stake and all bonds together below 2^64, and room
-- for one more reward below 2^64, the split does not panic, and the tokens grow by exactly one
-- block reward.
pub distribute_reward-exact :
    (s : State) (proposer : Bytes)
    → IsMap s.delegations
    → get_or s.validator_base proposer 0 + sum_all s.delegations < u64_mod
    → total s + block_reward < u64_mod
    → (s' : State) × (distribute_reward s proposer ≡ some s') × (total s' ≡ total s + block_reward)
unfolding distribute_reward
distribute_reward-exact s proposer m h u =
    let found = delegators_of proposer s.delegations in
    let ds = sort_strings found in
    let self = get_or s.validator_base proposer 0 in
    let read = add_delegated-bonds s proposer 0 ds (omega arith) in
    let sorted = bonds-sort_strings s proposer found in
    let inside = bonds-eq-bonds_in s proposer found in
    let le = bonds_in-le-sum_all proposer s.delegations m in
    let t = add_u64 self (add_delegated s proposer 0 ds) in
    let whole : t ≡ self + bonds s proposer ds = omega (arith, read, sorted, inside, le) in
    elim (Bool-cases (t == 0)) [
      | inl unstaked ↦
          let gain =
            sum-insert proposer (add_u64 (get_or s.balances proposer 0) block_reward) s.balances in
          let old = get_or-le-sum s.balances proposer in
          (
            record s { balances = credit proposer block_reward s.balances },
            rw unstaked,
            omega (arith, gain, old),
          )
      | inr staked ↦
          let pos_t : 0 < t = ground arith in
          let (b, p, run, cap, exact) =
            pay_lem s proposer t ds s.balances 0 0 pos_t (omega (arith, whole)) (omega arith) in
          let rest = sub_u64 block_reward p in
          let gain = sum-insert proposer (add_u64 (get_or b proposer 0) rest) b in
          let old = get_or-le-sum b proposer in
          (
            record s { balances = credit proposer rest b },
            rw (staked, run),
            omega (arith, exact (omega arith), cap, gain, old),
          )
    ]
