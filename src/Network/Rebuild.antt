-- ===== src/Network/Rebuild.antt =====
-- `ResumeCluster` of chain/cluster.go on the blocks of a chain that a cluster has committed.
use dylchain.Base.{
  ◌≡◌, refl, sym, ap, ◌∙◌, ◌≢◌, inl, inr, false, not, none, some, List, [], ◌∷◌, ◌++◌, map,
  append_assoc, append-nil, arith, ◌==◌, Bool-cases, Option-cases, length, set, replicate, All, ok,
  err,
}
use dylchain.Base.Int.{ℤ, pos, eqb_ℤ, add_i64, eqb_ℤ_iff}
use dylchain.Bytes.{equal, equal_iff}
use dylchain.Crypto.{Crypto}
use dylchain.Block.{Block}
use dylchain.Merkle.{merkle_root}
use dylchain.Seal.{block_hash}
use dylchain.State.{State}
use dylchain.Validators.{Validator, ValidatorSet}
use dylchain.Ledger.{apply, apply_all, genesis_state, replay_blocks}
use dylchain.Chain.{
  Chain, tip, candidate_error, new_chain_from_genesis, commit_block, commit_checked,
}
use dylchain.Chain.Consistent.{Links, Linked, IsSealed, IsConsistent}
use dylchain.Proposal.{check_candidate-pass}
use dylchain.Cluster.{Cluster}
use dylchain.Cluster.Resume.{seed_live_view}
use dylchain.Mempool.{new_mempool}
use dylchain.Network.{Network}
use dylchain.Network.Build.{
  empty_view, new_nodes, commit_all, build_chain, build_chains, assemble, build_cluster,
  resume_cluster,
}

-- The block names a proposer.
abbrev pub IsProposed : Block → Type 0
IsProposed b = b.proposer ≢ []

tip-append : (bs : List Block) (b : Block) → tip (bs ++ b ∷ []) ≡ some b
unfolding tip
tip-append [] b = refl
tip-append (x ∷ []) b = refl
tip-append (x ∷ y ∷ bs) b = tip-append (y ∷ bs) b

module _ ⦃c : Crypto⦄ where
  candidate_error-clean :
      (previous b : Block)
      → Links previous b
      → IsSealed b
      → IsProposed b
      → candidate_error previous b ≡ none
  unfolding candidate_error
  candidate_error-clean previous b (hash, height) (signed, root) named =
      let e1 = (eqb_ℤ_iff b.height (add_i64 previous.height (pos 1))).1 height in
      let e2 = (equal_iff b.previous_hash (block_hash previous)).1 (sym hash) in
      let e3 = (equal_iff b.tx_root (merkle_root b.transactions)).1 root in
      let e4 : equal b.proposer [] ≡ false = ground (arith, named, equal_iff b.proposer []) in
      rw (e1, e2, e3, e4, signed named, candidate_error) refl

  commit_block-pass :
      (ch : Chain) (previous b : Block) (next : State)
      → tip ch.blocks ≡ some previous
      → candidate_error previous b ≡ none
      → apply ch.state b ≡ some (ok next)
      → commit_block ch b ≡ some (record { blocks = ch.blocks ++ b ∷ []; state = next }, none)
  unfolding commit_block commit_checked
  commit_block-pass ch previous b next top clean run =
      rw (check_candidate-pass ch previous b next top clean run, commit_block) refl

  -- Blocks that link, are sealed, name a proposer and apply are committed one after the other.
  commit_all-rebuild :
      (pre : List Block) (previous : Block) (bs : List Block) (s s' : State)
      → tip pre ≡ some previous
      → Linked (previous ∷ bs)
      → All IsSealed bs
      → All IsProposed bs
      → apply_all s bs ≡ some (ok s')
      → commit_all (record { blocks = pre; state = s }) bs
        ≡ some (ok (record { blocks = pre ++ bs; state = s' }))
  unfolding commit_all apply_all
  commit_all-rebuild pre previous [] s s' top linked sealed proposed run =
      let same : s ≡ s' = ground arith in rw (append-nil pre, same) refl
  commit_all-rebuild pre previous (b ∷ bs) s s' top linked sealed proposed run =
      elim (Option-cases (apply s b)) [
        | inl nothing ↦ let run' = rw (nothing, apply_all) at run in absurd (ground arith)
        | inr (err e, found) ↦ let run' = rw (found, apply_all) at run in absurd (ground arith)
        | inr (ok s1, found) ↦
            let run' = rw (found, apply_all) at run in
            let clean = candidate_error-clean previous b linked.0 sealed.0 proposed.0 in
            let one =
              commit_block-pass (record { blocks = pre; state = s }) previous b s1 top clean
                found in
            let rest =
              commit_all-rebuild (pre ++ b ∷ []) b bs s1 s' (tip-append pre b) linked.1 sealed.1
                proposed.1 run' in
            rw (one, commit_all)
              (rest
                ∙ ap (λ xs. some (ok (record { blocks = xs; state = s' })))
                    (append_assoc pre (b ∷ []) bs))
      ]

  replay_blocks-split :
      (genesis : Block) (bs : List Block) (s : State)
      → replay_blocks (genesis ∷ bs) ≡ some (ok s)
      → (replay_blocks (genesis ∷ []) ≡ some (ok (genesis_state genesis)))
        × (apply_all (genesis_state genesis) bs ≡ some (ok s))
  unfolding replay_blocks apply_all
  replay_blocks-split genesis bs s run = elim (Bool-cases (not (eqb_ℤ genesis.height (pos 0)))) [
    | inl high ↦ let run' = rw (high, replay_blocks) at run in absurd (ground arith)
    | inr low ↦ elim (Bool-cases (not (length genesis.transactions == 0))) [
      | inl busy ↦ let run' = rw (low, busy, replay_blocks) at run in absurd (ground arith)
      | inr idle ↦ (rw (low, idle, replay_blocks) refl, rw (low, idle, replay_blocks) at run)
    ]
  ]

  build_chain-rebuild :
      (genesis : Block) (bs : List Block) (s : State)
      → IsConsistent (record { blocks = genesis ∷ bs; state = s })
      → All IsProposed bs
      → build_chain genesis bs ≡ some (ok (record { blocks = genesis ∷ bs; state = s }))
  unfolding build_chain new_chain_from_genesis tip
  build_chain-rebuild genesis bs s consistent proposed =
      let (first, rest) = replay_blocks-split genesis bs s consistent.replayed in
      let made : new_chain_from_genesis genesis
          ≡ some (ok (record { blocks = genesis ∷ []; state = genesis_state genesis })) =
        rw (first, new_chain_from_genesis) refl in
      rw (made, build_chain)
        (commit_all-rebuild (genesis ∷ []) genesis bs (genesis_state genesis) s refl
          consistent.linked consistent.sealed.1 proposed rest)

  build_chains-copies :
      (genesis : Block) (bs : List Block) (ch : Chain) (vs : ValidatorSet)
      → build_chain genesis bs ≡ some (ok ch)
      → build_chains genesis bs vs ≡ some (ok (replicate (length vs) ch))
  unfolding build_chains
  build_chains-copies genesis bs ch [] made = refl
  build_chains-copies genesis bs ch (v ∷ vs) made =
      rw (made, build_chains) (rw (build_chains-copies genesis bs ch vs made) refl)

  new_nodes-copies :
      (set vs : ValidatorSet) (live : Cluster) (max_block_txs : ℤ) (ch : Chain)
      → let nodes = new_nodes set live max_block_txs (replicate (length vs) ch) vs in
        All (λ n. n.chain ≡ ch) nodes × (map (λ n. n.self) nodes ≡ vs)
  new_nodes-copies set [] live max_block_txs ch = (tt, refl)
  new_nodes-copies set (v ∷ vs) live max_block_txs ch =
      let (all_ch, selves) = new_nodes-copies set vs live max_block_txs ch in
      ((refl, all_ch), ap (λ xs. v ∷ xs) selves)

  -- A cluster resumed from the blocks of a consistent chain, all but the first of which name a
  -- proposer, over a set that is not empty: it neither fails nor panics, each validator has a node,
  -- in the set's order, and each node has that chain, its ledger included.
  pub resume_cluster-rebuild :
      (genesis : Block) (bs : List Block) (s : State) (v : Validator) (vs : ValidatorSet)
      (max_block_txs : ℤ)
      → IsConsistent (record { blocks = genesis ∷ bs; state = s })
      → All IsProposed bs
      → (n : Network) × (resume_cluster (genesis ∷ bs) (v ∷ vs) max_block_txs ≡ some (ok n))
        × All (λ m. m.chain ≡ record { blocks = genesis ∷ bs; state = s }) n.nodes
        × (map (λ m. m.self) n.nodes ≡ v ∷ vs)
  unfolding resume_cluster build_cluster assemble
  resume_cluster-rebuild genesis bs s v vs max_block_txs consistent proposed =
      let ch : Chain = record { blocks = genesis ∷ bs; state = s } in
      let live = seed_live_view ch (empty_view genesis.created_at) in
      let chains =
        build_chains-copies genesis bs ch (v ∷ vs)
          (build_chain-rebuild genesis bs s consistent proposed) in
      let (all_ch, selves) = new_nodes-copies (v ∷ vs) (v ∷ vs) live max_block_txs ch in
      (
        record {
          live = live;
          mempool = new_mempool;
          set = v ∷ vs;
          nodes = new_nodes (v ∷ vs) live max_block_txs (replicate (length (v ∷ vs)) ch) (v ∷ vs);
        },
        rw (chains, build_cluster) refl,
        all_ch,
        selves,
      )
