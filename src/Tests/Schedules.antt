-- ===== src/Tests/Schedules.antt =====
-- The schedule of proposers for two validators.
use dylchain.Base.{
  ℕ, zero, suc, ◌+◌, ◌-◌, ◌*◌, ◌/◌, ◌%◌, ◌^◌, ◌≤◌, ◌<◌, ◌≡◌, refl, sym, ap, ◌∙◌, subst, ◌≢◌, ◌↔◌,
  ◌⊎◌, inl, inr, Bool, true, false, not, ◌&&◌, ◌||◌, Option, none, some, List, [], ◌∷◌, ◌++◌, map,
  append_assoc, append-nil, arith, ltb, leb, ◌==◌, if◌then◌else◌, ltb→lt, lt→ltb, leb→le, ==_iff,
  tests, Bool-cases, Option-cases, if_cases, length, get_elem?, set, take, drop, replicate, All,
  length-append, length-set, take-append-drop, length-take, length-drop, length-map, All-append,
  append-injective, Result-cases, >>=-eq-some, Result, ok, err, ◌>>=◌,
}
use dylchain.Validators.{ValidatorSet, proposer_for_height}
use dylchain.Election.{new_election}
use dylchain.Election.Reference.{elected, elected-proposer_for_height}
use dylchain.Tests.Fixtures.{toy, alice_validator, bob, bob_key}

abbrev pair : ValidatorSet
pair =
    alice_validator
    ∷ record { address = bob; priv_key = bob_key; stake = 30; orig_stake = 30; moniker = [] }
    ∷ []

elected-proposer_for_height_example :
    elected 3 (new_election pair) ≡ (do v ← proposer_for_height pair 3; some v.address)
unfolding alice_validator
elected-proposer_for_height_example =
    elected-proposer_for_height pair 3 (omega arith, (omega arith, tt))

-- Bob holds three quarters of the stake.
bob_first : elected 1 (new_election pair) ≡ some bob
unfolding dylchain.Election.next new_election alice_validator dylchain.Base.Int.add_i64
bob_first = refl
