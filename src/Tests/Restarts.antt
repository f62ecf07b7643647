-- ===== src/Tests/Restarts.antt =====
-- A log of two blocks, and the cluster that resumes from it.
use dylchain.Base.{
  ℕ, ◌+◌, ◌≡◌, refl, sym, subst, inl, inr, Option, none, some, List, [], ◌∷◌, arith, ◌==◌,
  if◌then◌else◌, All, map, ok,
}
use dylchain.Base.Int.{ℤ, pos, negsuc, add_i64}
use dylchain.Bytes.{Bytes, equal}
use dylchain.Block.{Block}
use dylchain.Chain.{commit_block}
use dylchain.Chain.Consistent.{IsConsistent, commit_block-IsConsistent}
use dylchain.Network.{Network}
use dylchain.Network.Build.{resume_cluster}
use dylchain.Network.Rebuild.{IsProposed}
use dylchain.BlockLog.{BlockJson, read, append_all}
use dylchain.BlockLog.Resume.{Among, Logged}
use dylchain.BlockLog.Restart.{restart}
use dylchain.Tests.Fixtures.{toy, genesis, young, grown, proposal, alice_validator}
use dylchain.Tests.Chains.{young-IsConsistent}

abbrev height_of : ℤ → ℕ
height_of (pos h) = h
height_of (negsuc h) = 0

abbrev parsed : Bytes → Option Block
parsed [] = none
parsed (c ∷ bs) = some (if c == 48 then genesis else proposal.0)

-- JSON that writes only the height, for a chain of two blocks.
instance abbrev two_blocks : BlockJson
two_blocks = record {
  marshal = λ b. some ((48 + height_of b.height) ∷ []);
  unmarshal = parsed;
  trim_space = λ bs. bs;
}

genesis-Logged : Logged genesis
unfolding dylchain.BlockLog.drop_cr genesis
genesis-Logged = record {
  line = 48 ∷ [];
  marshalled = refl;
  parsed = refl;
  one_line = (refl, tt);
  trimmed = refl;
  not_empty = refl;
  short = omega arith;
}

proposal-Logged : Logged proposal.0
unfolding dylchain.BlockLog.drop_cr proposal
proposal-Logged = record {
  line = 49 ∷ [];
  marshalled = refl;
  parsed = refl;
  one_line = (refl, tt);
  trimmed = refl;
  not_empty = refl;
  short = omega arith;
}

both-Logged : (b : Block) → Among b (genesis ∷ proposal.0 ∷ []) → Logged b
both-Logged b (inl here) = subst Logged (sym here) genesis-Logged
both-Logged b (inr (inl here)) = subst Logged (sym here) proposal-Logged
both-Logged b (inr (inr no_more)) = absurd (ground (arith, no_more))

abbrev two : List Block
two = genesis ∷ proposal.0 ∷ []

committed : IsConsistent (record { blocks = two; state = grown.state }) × IsProposed proposal.0
unfolding commit_block young proposal add_i64 equal dylchain.Seal.block_hash
    dylchain.Merkle.merkle_root dylchain.State.apply_tx dylchain.Address.valid_address
    dylchain.Address.pub_key_from_address dylchain.Address.Hex.decode_string dylchain.Dict.get_or
    dylchain.Merkle.hash dylchain.Seal.verify_block_signature dylchain.Ledger.apply
    dylchain.Reward.distribute_reward grown
committed =
    let (consistent, same, named, signed) =
      commit_block-IsConsistent young proposal.0 grown refl young-IsConsistent in
    (consistent, named)

restart_example :
    (blocks : List Block) × (n : Network) × (read (append_all two []) ≡ some blocks)
    × (resume_cluster blocks (alice_validator ∷ []) (pos 64) ≡ some (ok n))
    × All (λ m. m.chain ≡ record { blocks = two; state = grown.state }) n.nodes
    × (map (λ m. m.self) n.nodes ≡ alice_validator ∷ [])
restart_example =
    restart genesis (proposal.0 ∷ []) grown.state alice_validator [] (pos 64) both-Logged
      committed.0 (committed.1, tt)
