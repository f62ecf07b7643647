-- ===== src/BlockLog/Restart.antt =====
-- A restart of cmd/dyld/main.go with its log: what cmd/dyld/persist.go appended is read, and
-- chain/cluster.go resumes from it.
use dylchain.Base.{◌≡◌, refl, inl, some, List, [], ◌∷◌, map, All, ok}
use dylchain.Base.Int.{ℤ}
use dylchain.Crypto.{Crypto}
use dylchain.Block.{Block}
use dylchain.State.{State}
use dylchain.Validators.{Validator, ValidatorSet}
use dylchain.Chain.Consistent.{IsConsistent}
use dylchain.Network.{Network}
use dylchain.Network.Build.{resume_cluster}
use dylchain.Network.Rebuild.{IsProposed, resume_cluster-rebuild}
use dylchain.BlockLog.{BlockJson, read, append_all, parse_lines, split_lines}
use dylchain.BlockLog.Resume.{Among, Logged, read-append_all}

module _ ⦃c : Crypto⦄ ⦃j : BlockJson⦄ where
  -- The blocks of a consistent chain, all but the first of which name a proposer, are appended to an
  -- empty log, and the log is read and resumed from over a set that is not empty. For each block JSON
  -- gives one line, not empty and with no space at its ends, shorter than 32 MiB, which it parses to
  -- the same block. Then nothing fails or panics, each validator has a node, in the set's order, and
  -- each node has that chain, its ledger included.
  pub restart :
      (genesis : Block) (bs : List Block) (s : State) (v : Validator) (vs : ValidatorSet)
      (max_block_txs : ℤ)
      → ((b : Block) → Among b (genesis ∷ bs) → Logged b)
      → IsConsistent (record { blocks = genesis ∷ bs; state = s })
      → All IsProposed bs
      → (blocks : List Block) × (n : Network) × (read (append_all (genesis ∷ bs) []) ≡ some blocks)
        × (resume_cluster blocks (v ∷ vs) max_block_txs ≡ some (ok n))
        × All (λ m. m.chain ≡ record { blocks = genesis ∷ bs; state = s }) n.nodes
        × (map (λ m. m.self) n.nodes ≡ v ∷ vs)
  unfolding read parse_lines split_lines
  restart genesis bs s v vs max_block_txs logged consistent proposed =
      let (n, resumed, chains, selves) =
        resume_cluster-rebuild genesis bs s v vs max_block_txs consistent proposed in
      (
        genesis ∷ bs,
        n,
        read-append_all (genesis ∷ bs) [] logged (inl refl),
        resumed,
        chains,
        selves,
      )
