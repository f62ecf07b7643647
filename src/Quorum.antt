-- ===== src/Quorum.antt =====
-- chain/consensus.go: the tally of `runHeight`, over the votes in the order in which a node takes
-- them from its stash and its inbox.
pub mod Weights
pub mod Elected
pub mod Agreement
pub mod Completeness
use dylchain.Base.{
  ℕ, zero, suc, ◌+◌, ◌-◌, ◌*◌, ◌/◌, ◌%◌, ◌^◌, ◌≤◌, ◌<◌, ◌≡◌, refl, sym, ap, ◌∙◌, subst, ◌≢◌, ◌↔◌,
  ◌⊎◌, inl, inr, Bool, true, false, not, ◌&&◌, ◌||◌, Option, none, some, List, [], ◌∷◌, ◌++◌, map,
  append_assoc, append-nil, arith, ltb, leb, ◌==◌, if◌then◌else◌, ltb→lt, lt→ltb, leb→le, ==_iff,
  tests, Bool-cases, Option-cases, if_cases, length, get_elem?, set, take, drop, replicate, All,
  length-append, length-set, take-append-drop, length-take, length-drop, length-map, All-append,
  append-injective, Result-cases, >>=-eq-some, Result, ok, err, ◌>>=◌,
}
use dylchain.Base.Int.{
  u64_mod, add_u64, sub_u64, ℤ, pos, negsuc, pos_part, neg_part, sub_ℕ, ◌+ℤ◌, ◌-ℤ◌, ◌≤ℤ◌, ltb_ℤ,
  eqb_ℤ, to_u64, of_u64, add_i64, sub_i64, +ℤ_parts, -ℤ_parts, eq_of_parts, int_laws,
  add_i64-one-ne, add_i64-pos, eqb_ℤ_iff, IsI64, to_u64-injective, to_u64-lt,
}
use dylchain.Bytes.{Bytes, text, equal, equal_iff, equal_refl, IsBytes}
use dylchain.Crypto.{Crypto}
use dylchain.Vote.{Vote, verify_vote}
use dylchain.Election.{Member, Election, total_stake, stake_of, contains}

-- The keys of the map `counted`, and `accepted`.
pub record Tally : Type 0 where
  pub counted : List Bytes
  pub accepted : ℕ

unfoldable pub has : List Bytes → Bytes → Bool
has [] a = false
has (b ∷ bs) a = if equal b a then true else has bs a

abbrev pub no_votes : Tally
no_votes = record { counted = []; accepted = 0 }

-- `!(3*accepted <= 2*total)`
unfoldable pub reached : ℕ → ℕ → Bool
reached accepted total = not (leb (3 * accepted % u64_mod) (2 * total % u64_mod))

module _ ⦃c : Crypto⦄ where
  -- One message: a vote that the wait does not match is stashed, and one of no member or with a
  -- bad signature is passed over.
  unfoldable pub count_vote : Election → ℤ → Bytes → Tally → Vote → Tally
  unfolding has stake_of contains
  count_vote e h block_hash t v =
      let matches =
        eqb_ℤ v.height h && equal v.block_hash block_hash && not (has t.counted v.voter) in
      if not matches
      then t
      else if not (contains e v.voter) || not (verify_vote v)
      then t
      else record {
        counted = v.voter ∷ t.counted;
        accepted = add_u64 t.accepted (stake_of e v.voter);
      }

  -- The loop. `none`: the votes end before the threshold, and the node still waits.
  unfoldable pub tally_votes : Election → ℤ → Bytes → Tally → List Vote → Option Tally
  unfolding count_vote reached total_stake
  tally_votes e h block_hash t [] = if reached t.accepted (total_stake e) then some t else none
  tally_votes e h block_hash t (v ∷ vs) =
      let rest = tally_votes e h block_hash (count_vote e h block_hash t v) vs in
      if reached t.accepted (total_stake e) then some t else rest
