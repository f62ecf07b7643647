-- ===== src/Reward.antt =====
-- chain/state.go, `distributeReward` and `mulDiv`: the split of one block reward.
pub mod Bounds
pub mod Mint
use dylchain.Base.{
  ℕ, zero, suc, ◌+◌, ◌-◌, ◌*◌, ◌/◌, ◌%◌, ◌^◌, ◌≤◌, ◌<◌, ◌≡◌, refl, sym, ap, ◌∙◌, subst, ◌≢◌, ◌↔◌,
  ◌⊎◌, inl, inr, Bool, true, false, not, ◌&&◌, ◌||◌, Option, none, some, List, [], ◌∷◌, ◌++◌, map,
  append_assoc, append-nil, arith, ltb, leb, ◌==◌, if◌then◌else◌, ltb→lt, lt→ltb, leb→le, ==_iff,
  tests, Bool-cases, Option-cases, length, get_elem?, set, take, drop, replicate, All,
  length-append, length-set, take-append-drop, length-take, length-drop, length-map,
  append-injective, Result-cases, >>=-eq-some, Result, ok, err, ◌>>=◌,
}
use dylchain.Base.Int.{
  u64_mod, add_u64, sub_u64, ℤ, pos, negsuc, pos_part, neg_part, sub_ℕ, ◌+ℤ◌, ◌-ℤ◌, ◌≤ℤ◌, ltb_ℤ,
  eqb_ℤ, to_u64, of_u64, add_i64, sub_i64, +ℤ_parts, -ℤ_parts, eq_of_parts, int_laws,
  add_i64-one-ne, add_i64-pos, IsI64, to_u64-injective, to_u64-lt,
}
use dylchain.Bytes.{Bytes, text, equal, equal_iff, equal_refl, IsBytes}
use dylchain.Dict.{
  Dict, lookup, get_or, insert, erase, IsMap, lookup-insert, get_or-insert, lookup-erase_ne,
  get_or-eq-lookup, insert-IsMap, erase-IsMap, lookup-erase_self,
}
use dylchain.Coin.{block_reward}
use dylchain.State.{State, bond}

-- math/bits Mul64: the 128-bit product, high word first.
unfoldable pub mul_u64 : ℕ → ℕ → ℕ × ℕ
mul_u64 a b = (a * b / u64_mod, a * b % u64_mod)

-- math/bits Div64: the quotient; `none` is its panic, on a zero divisor or a quotient of more than
-- 64 bits.
unfoldable pub div_u64 : ℕ → ℕ → ℕ → Option ℕ
div_u64 hi lo y = if leb y hi then none else some ((hi * u64_mod + lo) / y)

unfoldable pub mul_div : ℕ → ℕ → ℕ → Option ℕ
unfolding mul_u64 div_u64
mul_div a b c = let (hi, lo) = mul_u64 a b in div_u64 hi lo c

-- Go's order of strings: byte by byte.
unfoldable pub less_eq : Bytes → Bytes → Bool
less_eq [] ys = true
less_eq (x ∷ xs) [] = false
less_eq (x ∷ xs) (y ∷ ys) = ltb x y || ((x == y) && less_eq xs ys)

unfoldable pub insert_sorted : Bytes → List Bytes → List Bytes
insert_sorted a [] = a ∷ []
insert_sorted a (x ∷ xs) = if less_eq a x then a ∷ x ∷ xs else x ∷ insert_sorted a xs

-- sort.Strings: the sorted list of the same strings.
unfoldable pub sort_strings : List Bytes → List Bytes
unfolding insert_sorted
sort_strings [] = []
sort_strings (x ∷ xs) = insert_sorted x (sort_strings xs)

-- The delegators with a positive bond behind the proposer, in the map's iteration order.
unfoldable pub delegators_of : Bytes → Dict (Dict ℕ) → List Bytes
delegators_of proposer [] = []
delegators_of proposer ((d, m) ∷ rest) =
    if ltb 0 (get_or m proposer 0)
    then d ∷ delegators_of proposer rest
    else delegators_of proposer rest

-- `delegated += s.Delegations[d][proposer]`, over the delegators.
unfoldable pub add_delegated : State → Bytes → ℕ → List Bytes → ℕ
add_delegated s proposer acc [] = acc
add_delegated s proposer acc (d ∷ ds) =
    add_delegated s proposer (add_u64 acc (bond s d proposer)) ds

-- The paying loop: the balances and what has been paid so far.
unfoldable pub pay : State → Bytes → ℕ → List Bytes → Dict ℕ → ℕ → Option (Dict ℕ × ℕ)
unfolding mul_div
pay s proposer total [] balances paid = some (balances, paid)
pay s proposer total (d ∷ ds) balances paid = do
  share ← mul_div block_reward (bond s d proposer) total
  pay s proposer total ds (insert d (add_u64 (get_or balances d 0) share) balances)
      (add_u64 paid share)

-- `s.Balances[a] += amount`
abbrev pub credit : Bytes → ℕ → Dict ℕ → Dict ℕ
credit a amount balances = insert a (add_u64 (get_or balances a 0) amount) balances

-- `none` is a panic of `mulDiv`.
unfoldable pub distribute_reward : State → Bytes → Option State
unfolding sort_strings delegators_of add_delegated pay
distribute_reward s proposer =
    let delegators = sort_strings (delegators_of proposer s.delegations) in
    let total =
      add_u64 (get_or s.validator_base proposer 0) (add_delegated s proposer 0 delegators) in
    if total == 0
    then some (record s { balances = credit proposer block_reward s.balances })
    else (do
      (balances, paid) ← pay s proposer total delegators s.balances 0
      some (record s { balances = credit proposer (sub_u64 block_reward paid) balances }))
