-- ===== src/Validators.antt =====
-- chain/validator.go: validators, and the set with its stakes. The set's lock is not modelled: each
-- method runs alone.
pub mod Slashing
use dylchain.Base.{
  ℕ, zero, suc, ◌+◌, ◌-◌, ◌*◌, ◌/◌, ◌%◌, ◌^◌, ◌≤◌, ◌<◌, ◌≡◌, refl, sym, ap, ◌∙◌, subst, ◌≢◌, ◌↔◌,
  ◌⊎◌, inl, inr, Bool, true, false, not, ◌&&◌, ◌||◌, Option, none, some, List, [], ◌∷◌, ◌++◌, map,
  append_assoc, append-nil, arith, ltb, leb, ◌==◌, if◌then◌else◌, ltb→lt, lt→ltb, leb→le, ==_iff,
  tests, Bool-cases, Option-cases, if_cases, length, get_elem?, set, take, drop, replicate, All,
  length-append, length-set, take-append-drop, length-take, length-drop, length-map, All-append,
  append-injective, Result-cases, >>=-eq-some, Result, ok, err, ◌>>=◌,
}
use dylchain.Base.Int.{
  u64_mod, add_u64, sub_u64, ℤ, pos, negsuc, pos_part, neg_part, sub_ℕ, ◌+ℤ◌, ◌-ℤ◌, ◌≤ℤ◌, ltb_ℤ,
  eqb_ℤ, to_u64, of_u64, add_i64, sub_i64, +ℤ_parts, -ℤ_parts, eq_of_parts, int_laws,
  add_i64-one-ne, add_i64-pos, eqb_ℤ_iff, IsI64, to_u64-injective, to_u64-lt,
}
use dylchain.Bytes.{Bytes, text, equal, equal_iff, equal_refl, IsBytes}
use dylchain.Address.{derive_address}
use dylchain.Crypto.{Crypto}

pub record Validator : Type 0 where
  pub address : Bytes
  pub priv_key : Bytes
  pub stake : ℕ
  pub orig_stake : ℕ
  pub moniker : Bytes

-- The members of a ValidatorSet, in order.
abbrev pub ValidatorSet : Type 0
ValidatorSet = List Validator

unfoldable pub new_validator : ⦃c : Crypto⦄ → Bytes → ℕ → Validator
new_validator ⦃c⦄ priv stake = record {
  address = derive_address (c.public_key priv);
  priv_key = priv;
  stake = stake;
  orig_stake = stake;
  moniker = [];
}

-- The loop of `totalStake`.
unfoldable pub add_stakes : ℕ → ValidatorSet → ℕ
add_stakes acc [] = acc
add_stakes acc (v ∷ vs) = add_stakes (add_u64 acc v.stake) vs

unfoldable pub total_stake : ValidatorSet → ℕ
unfolding add_stakes
total_stake = add_stakes 0

unfoldable pub stake_of : ValidatorSet → Bytes → ℕ
stake_of [] addr = 0
stake_of (v ∷ vs) addr = if equal v.address addr then v.stake else stake_of vs addr

unfoldable pub contains : ValidatorSet → Bytes → Bool
contains [] addr = false
contains (v ∷ vs) addr = if equal v.address addr then true else contains vs addr

unfoldable pub slash : Bytes → ValidatorSet → ValidatorSet
slash addr [] = []
slash addr (v ∷ vs) =
    if equal v.address addr then record v { stake = 0 } ∷ vs else v ∷ slash addr vs

unfoldable pub restore : Bytes → ValidatorSet → ValidatorSet
restore addr [] = []
restore addr (v ∷ vs) =
    if equal v.address addr then record v { stake = v.orig_stake } ∷ vs else v ∷ restore addr vs

-- One height of `ProposerForHeight`, over the members and their priorities.
unfoldable pub raise_priorities : ValidatorSet → List ℤ → List ℤ
raise_priorities [] ps = []
raise_priorities (v ∷ vs) [] = []
raise_priorities (v ∷ vs) (p ∷ ps) = add_i64 p (of_u64 v.stake) ∷ raise_priorities vs ps

-- The body of the loop that looks for the winner: a member without weight is passed over, and a
-- higher priority than the best so far takes its place.
unfoldable pub challenge : Option (ℕ × ℤ) → ℕ → ℕ → ℤ → Option (ℕ × ℤ)
challenge none i weight p = if weight == 0 then none else some (i, p)
challenge (some (j, q)) i weight p =
    if weight == 0 then some (j, q) else if ltb_ℤ q p then some (i, p) else some (j, q)

-- The inner loop from index `i`: the winner so far is an index with its priority.
unfoldable pub pick_winner : ℕ → Option (ℕ × ℤ) → ValidatorSet → List ℤ → Option (ℕ × ℤ)
pick_winner i best [] ps = best
pick_winner i best (v ∷ vs) [] = best
pick_winner i best (v ∷ vs) (p ∷ ps) = pick_winner (i + 1) (challenge best i v.stake p) vs ps

-- One iteration of the loop over heights; `none` is the panic when nobody has stake.
unfoldable pub reference_round : ValidatorSet → List ℤ → Option (ℕ × List ℤ)
unfolding raise_priorities pick_winner total_stake
reference_round vs ps = do
  (w, p) ← pick_winner 0 none vs (raise_priorities vs ps)
  some (w, set (raise_priorities vs ps) w (sub_i64 p (of_u64 (total_stake vs))))

-- The loop, for the heights from 1 to `height`: the last winner.
unfoldable pub reference_rounds : ℕ → ValidatorSet → List ℤ → Option (Option ℕ × List ℤ)
unfolding reference_round
reference_rounds zero vs ps = some (none, ps)
reference_rounds (suc h) vs ps = do
  (_, qs) ← reference_rounds h vs ps
  (w, rs) ← reference_round vs qs
  some (some w, rs)

-- `none` is a panic: no validator has stake, or the height is not positive.
unfoldable pub proposer_for_height : ValidatorSet → ℕ → Option Validator
unfolding reference_rounds
proposer_for_height vs height = do
  (w, _) ← reference_rounds height vs (replicate (length vs) (pos 0))
  i ← w
  get_elem? vs i
