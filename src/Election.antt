-- ===== src/Election.antt =====
-- chain/proposer.go: a node's own copy of the stake-weighted accumulator. The code's five parallel
-- slices are one list of members here.
pub mod Heal
pub mod Mirror
pub mod Reference
use dylchain.Base.{
  ℕ, zero, suc, ◌+◌, ◌-◌, ◌*◌, ◌/◌, ◌%◌, ◌^◌, ◌≤◌, ◌<◌, ◌≡◌, refl, sym, ap, ◌∙◌, subst, ◌≢◌, ◌↔◌,
  ◌⊎◌, inl, inr, Bool, true, false, not, ◌&&◌, ◌||◌, Option, none, some, List, [], ◌∷◌, ◌++◌, map,
  append_assoc, append-nil, arith, ltb, leb, ◌==◌, if◌then◌else◌, ltb→lt, lt→ltb, leb→le, ==_iff,
  tests, Bool-cases, Option-cases, if_cases, length, get_elem?, set, take, drop, replicate, All,
  length-append, length-set, take-append-drop, length-take, length-drop, length-map, All-append,
  append-injective, Result-cases, >>=-eq-some, Result, ok, err, ◌>>=◌,
}
use dylchain.Base.Int.{
  u64_mod, add_u64, sub_u64, ℤ, pos, negsuc, pos_part, neg_part, sub_ℕ, ◌+ℤ◌, ◌-ℤ◌, ◌≤ℤ◌, ltb_ℤ,
  eqb_ℤ, to_u64, of_u64, add_i64, sub_i64, +ℤ_parts, -ℤ_parts, eq_of_parts, int_laws,
  add_i64-one-ne, add_i64-pos, eqb_ℤ_iff, IsI64, to_u64-injective, to_u64-lt,
}
use dylchain.Bytes.{Bytes, text, equal, equal_iff, equal_refl, IsBytes}
use dylchain.Dict.{
  Dict, lookup, get_or, insert, erase, IsMap, lookup-insert, get_or-insert, lookup-erase_ne,
  get_or-eq-lookup, insert-IsMap, erase-IsMap, lookup-erase_self,
}
use dylchain.State.{State}
use dylchain.Validators.{Validator, ValidatorSet, challenge}

abbrev pub slash_delay : ℕ
slash_delay = 2

pub record Member : Type 0 where
  pub address : Bytes
  pub orig_stake : ℕ
  pub delegated : ℕ
  pub slashed : Bool
  pub priority : ℤ

abbrev pub Election : Type 0
Election = List Member

unfoldable pub new_member : Validator → Member
new_member v = record {
  address = v.address;
  orig_stake = v.stake;
  delegated = 0;
  slashed = false;
  priority = pos 0;
}

unfoldable pub new_election : ValidatorSet → Election
unfolding new_member
new_election = map new_member

unfoldable pub effective : Member → ℕ
effective m = if m.slashed then 0 else add_u64 m.orig_stake m.delegated

-- The two loops of `syncDelegations` that count what is bonded behind each validator.
unfoldable pub tally_bonds : Dict ℕ → Dict ℕ → Dict ℕ
tally_bonds tally [] = tally
tally_bonds tally ((v, amount) ∷ m) =
    tally_bonds (insert v (add_u64 (get_or tally v 0) amount) tally) m

unfoldable pub tally_all : Dict ℕ → Dict (Dict ℕ) → Dict ℕ
unfolding tally_bonds
tally_all tally [] = tally
tally_all tally ((d, m) ∷ rest) = tally_all (tally_bonds tally m) rest

unfoldable pub set_delegated : Dict ℕ → Election → Election
set_delegated tally [] = []
set_delegated tally (m ∷ ms) =
    record m { delegated = get_or tally m.address 0 } ∷ set_delegated tally ms

unfoldable pub sync_delegations : State → Election → Election
unfolding tally_all set_delegated
sync_delegations s e = set_delegated (tally_all [] s.delegations) e

unfoldable pub slash : Bytes → Election → Election
slash addr [] = []
slash addr (m ∷ ms) =
    if equal m.address addr then record m { slashed = true } ∷ ms else m ∷ slash addr ms

-- The loop of `restore` over the members but the one at `idx`: the lowest priority among those with
-- weight, if there is one.
unfoldable pub lower : Option ℤ → Member → Option ℤ
unfolding effective
lower none m = if effective m == 0 then none else some m.priority
lower (some low) m =
    if effective m == 0
    then some low
    else if ltb_ℤ m.priority low
    then some m.priority
    else some low

unfoldable pub lowest_others : Bytes → Bool → Option ℤ → Election → Option ℤ
unfolding lower
lowest_others addr found low [] = low
lowest_others addr found low (m ∷ ms) =
    let here = not found && equal m.address addr in
    lowest_others addr (found || here) (if here then low else lower low m) ms

-- Put the first member with the address back, at a priority.
unfoldable pub rejoin : Bytes → ℤ → Election → Election
rejoin addr p [] = []
rejoin addr p (m ∷ ms) =
    if equal m.address addr
    then record m { slashed = false; priority = p } ∷ ms
    else m ∷ rejoin addr p ms

unfoldable pub or_zero : Option ℤ → ℤ
or_zero none = pos 0
or_zero (some p) = p

unfoldable pub restore : Bytes → Election → Election
unfolding lowest_others rejoin or_zero
restore addr e = rejoin addr (or_zero (lowest_others addr false none e)) e

-- The loops of `next`.
unfoldable pub add_weights : ℤ → Election → ℤ
unfolding effective
add_weights acc [] = acc
add_weights acc (m ∷ ms) = add_weights (add_i64 acc (of_u64 (effective m))) ms

unfoldable pub raise : Election → Election
unfolding effective
raise [] = []
raise (m ∷ ms) = record m { priority = add_i64 m.priority (of_u64 (effective m)) } ∷ raise ms

unfoldable pub pick : ℕ → Option (ℕ × ℤ) → Election → Option (ℕ × ℤ)
unfolding effective challenge
pick i best [] = best
pick i best (m ∷ ms) = pick (i + 1) (challenge best i (effective m) m.priority) ms

-- `none` is the panic when no member has weight.
unfoldable pub next : Election → Option (Bytes × Election)
unfolding add_weights raise pick
next e = do
  (w, p) ← pick 0 none (raise e)
  m ← get_elem? (raise e) w
  some (m.address, set (raise e) w (record m { priority = sub_i64 p (add_weights (pos 0) e) }))

unfoldable pub add_effective : ℕ → Election → ℕ
unfolding effective
add_effective acc [] = acc
add_effective acc (m ∷ ms) = add_effective (add_u64 acc (effective m)) ms

unfoldable pub total_stake : Election → ℕ
unfolding add_effective
total_stake = add_effective 0

unfoldable pub stake_of : Election → Bytes → ℕ
unfolding effective
stake_of [] addr = 0
stake_of (m ∷ ms) addr = if equal m.address addr then effective m else stake_of ms addr

unfoldable pub contains : Election → Bytes → Bool
contains [] addr = false
contains (m ∷ ms) addr = if equal m.address addr then true else contains ms addr
