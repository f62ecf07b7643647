-- ===== src/Node.antt =====
-- chain/consensus.go: what a node keeps between heights, what it does with a message off its inbox,
-- and the start of a height. The set, the queue and the live view, which the nodes share, are carried
-- along as the node leaves them.
pub mod Weights
pub mod Justice
pub mod Equivocation
pub mod Punishment
use dylchain.Base.{
  ℕ, zero, suc, ◌+◌, ◌-◌, ◌*◌, ◌/◌, ◌%◌, ◌^◌, ◌≤◌, ◌<◌, ◌≡◌, refl, sym, ap, ◌∙◌, subst, ◌≢◌, ◌↔◌,
  ◌⊎◌, inl, inr, Bool, true, false, not, ◌&&◌, ◌||◌, Option, none, some, List, [], ◌∷◌, ◌++◌, map,
  append_assoc, append-nil, arith, ltb, leb, ◌==◌, if◌then◌else◌, ltb→lt, lt→ltb, leb→le, ==_iff,
  tests, Bool-cases, Option-cases, if_cases, length, get_elem?, set, take, drop, replicate, All,
  length-append, length-set, take-append-drop, length-take, length-drop, length-map, All-append,
  append-injective, Result-cases, >>=-eq-some, Result, ok, err, ◌>>=◌,
}
use dylchain.Base.Int.{
  u64_mod, add_u64, sub_u64, ℤ, pos, negsuc, pos_part, neg_part, sub_ℕ, ◌+ℤ◌, ◌-ℤ◌, ◌≤ℤ◌, ltb_ℤ,
  eqb_ℤ, to_u64, of_u64, add_i64, sub_i64, +ℤ_parts, -ℤ_parts, eq_of_parts, int_laws,
  add_i64-one-ne, add_i64-pos, eqb_ℤ_iff, IsI64, to_u64-injective, to_u64-lt,
}
use dylchain.Bytes.{Bytes, text, equal, equal_iff, equal_refl, IsBytes}
use dylchain.Dict.{
  Dict, lookup, get_or, insert, erase, IsMap, lookup-insert, get_or-insert, lookup-erase_ne,
  get_or-eq-lookup, insert-IsMap, erase-IsMap, lookup-erase_self,
}
use dylchain.Crypto.{Crypto}
use dylchain.Block.{Block}
use dylchain.Vote.{Vote, Evidence, verify_evidence}
use dylchain.Validators
use dylchain.Validators.{Validator, ValidatorSet}
use dylchain.Chain.{Chain}
use dylchain.Mempool.{Mempool}
use dylchain.Election
use dylchain.Election.{Election, slash_delay, sync_delegations}
use dylchain.Cluster.{Cluster, record_slash, record_heal}

pub data Message : Type 0 where
  proposal_msg : Block → Message
  vote_msg : Vote → Message

pub record Node : Type 0 where
  pub self : Validator
  pub set : ValidatorSet
  pub chain : Chain
  pub mempool : Mempool
  pub max_block_txs : ℤ
  pub cluster : Cluster
  -- messages stashed for a later wait
  pub pending : List Message
  -- height, then voter, then the first vote seen
  pub seen_votes : List (ℤ × Dict Vote)
  pub evidence : List Evidence
  pub slashed : Dict Bool
  pub pending_slash : Dict ℤ
  pub pending_heal : Dict ℤ
  pub heal_delay : ℤ
  pub election : Election
  pub byzantine : Bool

abbrev pub vote_memory : ℤ
vote_memory = pos 2

-- `n.seenVotes[height]`; a missing height reads as an empty map.
unfoldable pub votes_at : ℤ → List (ℤ × Dict Vote) → Dict Vote
votes_at h [] = []
votes_at h ((k, votes) ∷ rest) = if eqb_ℤ k h then votes else votes_at h rest

-- `n.seenVotes[height] = votes`
unfoldable pub put_votes : ℤ → Dict Vote → List (ℤ × Dict Vote) → List (ℤ × Dict Vote)
put_votes h votes [] = (h, votes) ∷ []
put_votes h votes ((k, old) ∷ rest) =
    if eqb_ℤ k h then (k, votes) ∷ rest else (k, old) ∷ put_votes h votes rest

unfoldable pub msg_height : Message → ℤ
msg_height (proposal_msg b) = b.height
msg_height (vote_msg v) = v.height

unfoldable pub keep_above : ℤ → List Message → List Message
unfolding msg_height
keep_above h [] = []
keep_above h (m ∷ ms) = if ltb_ℤ h (msg_height m) then m ∷ keep_above h ms else keep_above h ms

unfoldable pub prune_pending : ℤ → Node → Node
unfolding keep_above
prune_pending h n = record n { pending = keep_above h n.pending }

-- The end of a height in `run`: votes of heights up to `h - voteMemory` are forgotten.
unfoldable pub votes_after : ℤ → List (ℤ × Dict Vote) → List (ℤ × Dict Vote)
votes_after h [] = []
votes_after h ((k, votes) ∷ rest) =
    if ltb_ℤ h k then (k, votes) ∷ votes_after h rest else votes_after h rest

unfoldable pub forget_votes : ℤ → Node → Node
unfolding votes_after
forget_votes h n = record n { seen_votes = votes_after (sub_i64 h vote_memory) n.seen_votes }

-- The loop of `run` over the slashes that are due.
unfoldable pub slash_now : Bytes → Node → Node
slash_now a n = record n {
  election = Election.slash a n.election;
  set = Validators.slash a n.set;
  byzantine = if equal a n.self.address then false else n.byzantine;
  pending_slash = erase a n.pending_slash;
}

unfoldable pub apply_slashes : ℤ → Dict ℤ → Node → Node
unfolding slash_now
apply_slashes h [] n = n
apply_slashes h ((a, due) ∷ rest) n =
    apply_slashes h rest (if not (ltb_ℤ h due) then slash_now a n else n)

-- The loop over the heals that are due.
unfoldable pub heal_now : ℤ → Bytes → Node → Node
unfolding record_heal
heal_now h a n = record n {
  election = Election.restore a n.election;
  set = Validators.restore a n.set;
  slashed = erase a n.slashed;
  pending_heal = erase a n.pending_heal;
  cluster = record_heal a h n.cluster;
}

unfoldable pub apply_heals : ℤ → Dict ℤ → Node → Node
unfolding heal_now
apply_heals h [] n = n
apply_heals h ((a, due) ∷ rest) n =
    apply_heals h rest (if not (ltb_ℤ h due) then heal_now h a n else n)

-- The body of `run` before `runHeight`.
unfoldable pub start_height : ℤ → Node → Node
unfolding apply_slashes apply_heals sync_delegations
start_height h n =
    let after_slashes = apply_slashes h n.pending_slash n in
    let after_heals = apply_heals h after_slashes.pending_heal after_slashes in
    record after_heals { election = sync_delegations after_heals.chain.state after_heals.election }

module _ ⦃c : Crypto⦄ where
  abbrev pub evidence_of : Vote → Vote → Evidence
  evidence_of prev v = record { offender = v.voter; height = v.height; vote_a = prev; vote_b = v }

  -- The end of `observe`, for evidence that verifies.
  unfoldable pub convict : Evidence → Node → Node
  unfolding record_slash
  convict e n =
      let slash_at = add_i64 e.height (pos slash_delay) in
      record n {
        evidence = n.evidence ++ e ∷ [];
        slashed = insert e.offender true n.slashed;
        pending_slash = insert e.offender slash_at n.pending_slash;
        pending_heal =
            if ltb_ℤ (pos 0) n.heal_delay
            then insert e.offender (add_i64 slash_at n.heal_delay) n.pending_heal
            else n.pending_heal;
        cluster = record_slash e.offender e.height n.cluster;
      }

  -- A second vote of one voter at one height.
  unfoldable pub compare_votes : Vote → Vote → Node → Node
  compare_votes prev v n =
      if equal prev.block_hash v.block_hash
      then n
      else if verify_evidence (evidence_of prev v)
      then convict (evidence_of prev v) n
      else n

  unfoldable pub observe_vote : Vote → Node → Node
  observe_vote v n =
      let by_height = votes_at v.height n.seen_votes in
      if get_or n.slashed v.voter false then n else elim (lookup v.voter by_height) [
        | none ↦ record n {
          seen_votes = put_votes v.height (insert v.voter v by_height) n.seen_votes;
        }
        | some prev ↦ compare_votes prev v n
      ]

  unfoldable pub observe : Message → Node → Node
  observe (proposal_msg b) n = n
  observe (vote_msg v) n = observe_vote v n
