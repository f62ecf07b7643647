-- ===== src/Chain/Consistent.antt =====
-- Consistency of a chain of chain/chain.go: linked, sealed, and with the ledger that its blocks
-- replay to.
use dylchain.Base.{
  ℕ, ◌+◌, ◌≡◌, refl, sym, ap, ◌∙◌, subst, ◌≢◌, inl, inr, none, some, List, [], ◌∷◌, ◌++◌, arith,
  Option-cases, length, All, length-append, All-append, Result-cases, >>=-eq-some, Result, ok, err,
}
use dylchain.Base.Int.{ℤ, pos, add_i64, eqb_ℤ_iff}
use dylchain.Bytes.{equal_iff}
use dylchain.Dict.{Dict}
use dylchain.Crypto.{Crypto}
use dylchain.Transaction.{Transaction}
use dylchain.Block.{Block}
use dylchain.Merkle.{merkle_root}
use dylchain.Seal.{block_hash, verify_block_signature, genesis_block}
use dylchain.State.{State}
use dylchain.Ledger.{BlockError, apply, genesis_state, replay_blocks}
use dylchain.Ledger.Runs.{replay_blocks-append}
use dylchain.Chain.{
  Chain, tip, advance, commit_checked, as_candidate, new_chain_from_genesis, new_chain, next_block,
  add_block, candidate_error, check_candidate, commit_block,
}

as_candidate-ok :
    (r : Result BlockError State) (next : State) → as_candidate r ≡ ok next → r ≡ ok next
as_candidate-ok (ok s) next h = ground arith
as_candidate-ok (err e) next h = cc

module _ ⦃c : Crypto⦄ where
  -- The second block links to the first.
  abbrev pub Links : Block → Block → Type 0
  Links a b = (block_hash a ≡ b.previous_hash) × (b.height ≡ add_i64 a.height (pos 1))

  abbrev pub Linked : List Block → Type 0
  Linked [] = Unit
  Linked (a ∷ []) = Unit
  Linked (a ∷ b ∷ bs) = Links a b × Linked (b ∷ bs)

  -- A block's body matches its root, and its proposer, if it has one, signed it.
  abbrev pub IsSealed : Block → Type 0
  IsSealed b =
      (b.proposer ≢ [] → verify_block_signature b ≡ none) × (b.tx_root ≡ merkle_root b.transactions)

  pub record IsConsistent (ch : Chain) : Type 0 where
    pub linked : Linked ch.blocks
    pub sealed : All IsSealed ch.blocks
    pub replayed : replay_blocks ch.blocks ≡ some (ok ch.state)

  Linked-append :
      (bs : List Block) (previous b : Block)
      → tip bs ≡ some previous
      → Links previous b
      → Linked bs
      → Linked (bs ++ b ∷ [])
  unfolding tip
  Linked-append [] previous b t l h = tt
  Linked-append (x ∷ []) previous b t l h =
      let same : x ≡ previous = cc in (subst (λ y. Links y b) (sym same) l, tt)
  Linked-append (x ∷ y ∷ bs) previous b t l h = (h.0, Linked-append (y ∷ bs) previous b t l h.1)

  candidate_error-none :
      (previous b : Block)
      → candidate_error previous b ≡ none
      → Links previous b
        × (b.tx_root ≡ merkle_root b.transactions)
        × (b.proposer ≢ [])
        × (verify_block_signature b ≡ none)
  unfolding candidate_error
  candidate_error-none previous b h = elim (Option-cases (verify_block_signature b)) [
    | inl good ↦
        let h' = rw (good, candidate_error) at h in
        let height = eqb_ℤ_iff b.height (add_i64 previous.height (pos 1)) in
        let hash = equal_iff b.previous_hash (block_hash previous) in
        let root = equal_iff b.tx_root (merkle_root b.transactions) in
        (
          (ground (arith, hash), ground (arith, height)),
          ground (arith, root),
          ground (arith, equal_iff b.proposer []),
          good,
        )
    | inr (e, bad) ↦ let h' = rw (bad, candidate_error) at h in absurd (ground arith)
  ]

  -- What a candidate that passes every check, and applies, has satisfied.
  check_candidate-ok :
      (ch : Chain) (b : Block) (next : State)
      → check_candidate ch b ≡ some (ok next)
      → (previous : Block) × (tip ch.blocks ≡ some previous)
        × (candidate_error previous b ≡ none)
        × (apply ch.state b ≡ some (ok next))
  unfolding check_candidate
  check_candidate-ok ch b next h =
      let (previous, t, h1) = >>=-eq-some (tip ch.blocks) _ h in
      elim (Option-cases (candidate_error previous b)) [
        | inr (e, bad) ↦ let h2 = rw bad at h1 in cc
        | inl good ↦
            let (r, a, h2) = >>=-eq-some (apply ch.state b) _ (rw good at h1) in
            (previous, t, good, a ∙ ap some (as_candidate-ok r next (ground arith)))
      ]

  -- Appending a block that links, is sealed and applies keeps the chain consistent.
  append-IsConsistent :
      (ch : Chain) (previous b : Block) (next : State)
      → tip ch.blocks ≡ some previous
      → Links previous b
      → IsSealed b
      → apply ch.state b ≡ some (ok next)
      → IsConsistent ch
      → IsConsistent (record { blocks = ch.blocks ++ b ∷ []; state = next })
  append-IsConsistent ch previous b next t l s a h = record {
    linked = Linked-append ch.blocks previous b t l h.linked;
    sealed = All-append IsSealed ch.blocks (b ∷ []) h.sealed (s, tt);
    replayed = replay_blocks-append ch.blocks b ch.state next h.replayed a;
  }

  -- If `commit_block` accepts a block on a consistent chain, the block is appended, the chain that
  -- results is consistent, and the block names a proposer whose signature verifies.
  pub commit_block-IsConsistent :
      (ch : Chain) (b : Block) (ch' : Chain)
      → commit_block ch b ≡ some (ch', none)
      → IsConsistent ch
      → IsConsistent ch'
        × (ch'.blocks ≡ ch.blocks ++ b ∷ [])
        × (b.proposer ≢ [])
        × (verify_block_signature b ≡ none)
  unfolding commit_block
  commit_block-IsConsistent ch b ch' h v =
      let (r, e, h1) = >>=-eq-some (check_candidate ch b) _ h in
      elim (Result-cases r) [
        | inr (er, bad) ↦ let h2 = rw (bad, commit_checked) at h1 in cc
        | inl (next, good) ↦
            let h2 = rw (good, commit_checked) at h1 in
            let same : record { blocks = ch.blocks ++ b ∷ []; state = next } ≡ ch' = ground arith in
            let (previous, t, fine, a) = check_candidate-ok ch b next (e ∙ ap some good) in
            let (l, root, named, signed) = candidate_error-none previous b fine in
            rw (← same) (
              append-IsConsistent ch previous b next t l (λ _. signed, root) a v,
              refl,
              named,
              signed,
            )
      ]

  -- If `add_block` succeeds on a consistent chain, the chain that results is consistent and one
  -- block longer.
  pub add_block-IsConsistent :
      (ch : Chain) (txs : List Transaction) (now : ℤ) (ch' : Chain)
      → add_block ch txs now ≡ some (ch', none)
      → IsConsistent ch
      → IsConsistent ch' × (length ch'.blocks ≡ length ch.blocks + 1)
  unfolding add_block advance next_block
  add_block-IsConsistent ch txs now ch' h v =
      let (previous, t, h1) = >>=-eq-some (tip ch.blocks) _ h in
      let b = next_block previous txs now in
      let (r, a, h2) = >>=-eq-some (apply ch.state b) _ h1 in
      elim (Result-cases r) [
        | inr (er, bad) ↦ let h3 = rw (bad, advance) at h2 in cc
        | inl (next, good) ↦
            let h3 = rw (good, advance) at h2 in
            let same : record { blocks = ch.blocks ++ b ∷ []; state = next } ≡ ch' = ground arith in
            rw (← same) (
              append-IsConsistent ch previous b next t (refl, refl) (λ n. absurd (n refl), refl)
                  (a ∙ ap some good) v,
              omega (arith, length-append ch.blocks (b ∷ [])),
            )
      ]

  -- `new_chain` does not panic, whatever the allocation, and the chain that it makes is consistent.
  pub new_chain-IsConsistent :
      (alloc : Dict ℕ) (now : ℤ) → (ch : Chain) × (new_chain alloc now ≡ some ch) × IsConsistent ch
  unfolding new_chain new_chain_from_genesis replay_blocks genesis_block
  new_chain-IsConsistent alloc now = (
    record {
      blocks = genesis_block alloc [] now ∷ [];
      state = genesis_state (genesis_block alloc [] now);
    },
    refl,
    record { linked = tt; sealed = ((λ n. absurd (n refl), refl), tt); replayed = refl },
  )
