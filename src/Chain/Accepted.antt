-- ===== src/Chain/Accepted.antt =====
-- `Validate` of chain/chain.go against the chains that the operations build.
use dylchain.Base.{
  ℕ, ◌+◌, ◌≡◌, refl, sym, ap, ◌∙◌, inl, inr, not, Option, none, some, List, [], ◌∷◌, arith,
  if◌then◌else◌, Bool-cases, Option-cases, All, Result-cases, >>=-eq-some, ok,
}
use dylchain.Base.Int.{pos, add_i64, eqb_ℤ_iff}
use dylchain.Bytes.{equal, equal_iff}
use dylchain.Dict.{IsMap}
use dylchain.Crypto.{Crypto}
use dylchain.Block.{Block}
use dylchain.Merkle.{merkle_root}
use dylchain.Seal.{block_hash, verify_block_signature}
use dylchain.State.{State}
use dylchain.State.WellFormed.{IsWellFormed}
use dylchain.Ledger.{replay_blocks}
use dylchain.State.Accounts.{view}
use dylchain.State.Filled.{IsFilled}
use dylchain.Ledger.WellFormed.{replay_blocks-IsWellFormed, replay_blocks-IsFilled}
use dylchain.Chain.Compared.{states_differ-same, states_differ-view}
use dylchain.Chain.{Chain}
use dylchain.Chain.Consistent.{Linked, IsSealed, IsConsistent}
use dylchain.Chain.Validate.{ValidateError, root_mismatch, check_bodies, check_links, validate}

module _ ⦃c : Crypto⦄ where
  check_bodies-IsSealed : (i : ℕ) (bs : List Block) → All IsSealed bs → check_bodies i bs ≡ none
  unfolding check_bodies
  check_bodies-IsSealed i [] h = refl
  check_bodies-IsSealed i (b ∷ bs) h =
      let ih = check_bodies-IsSealed (i + 1) bs h.1 in
      let root = (equal_iff b.tx_root (merkle_root b.transactions)).1 h.0.1 in
      elim (Bool-cases (equal b.proposer [])) [
        | inl unnamed ↦ rw (unnamed, check_bodies) (rw root ih)
        | inr named ↦
            let signed = h.0.0 (ground (arith, equal_iff b.proposer [])) in
            rw (named, check_bodies) (rw (signed, check_bodies) (rw root ih))
      ]

  check_links-Linked : (i : ℕ) (bs : List Block) → Linked bs → check_links i bs ≡ none
  unfolding check_links
  check_links-Linked i [] h = refl
  check_links-Linked i (a ∷ []) h = refl
  check_links-Linked i (a ∷ b ∷ bs) h =
      let ih = check_links-Linked (i + 1) (b ∷ bs) h.1 in
      let hash = (equal_iff (block_hash a) b.previous_hash).1 h.0.0 in
      let height = (eqb_ℤ_iff (add_i64 a.height (pos 1)) b.height).1 (sym h.0.1) in
      rw (hash, height) ih

  replayed-IsWellFormed :
      (bs : List Block) (s : State)
      → All (λ b. IsMap b.alloc) bs
      → replay_blocks bs ≡ some (ok s)
      → IsWellFormed s × IsFilled s.delegations
  unfolding replay_blocks
  replayed-IsWellFormed [] s m h = cc
  replayed-IsWellFormed (g ∷ bs) s m h =
      (replay_blocks-IsWellFormed g bs s m.0 h, replay_blocks-IsFilled g bs s h)

  -- A consistent chain, whose genesis allocations are maps, is accepted by `validate`.
  pub validate-consistent :
      (ch : Chain) → All (λ b. IsMap b.alloc) ch.blocks → IsConsistent ch → validate ch ≡ some none
  unfolding validate
  validate-consistent ch m h =
      let (w, _) = replayed-IsWellFormed ch.blocks ch.state m h.replayed in
      rw (check_bodies-IsSealed 0 ch.blocks h.sealed, validate)
        (rw (check_links-Linked 0 ch.blocks h.linked, validate)
          (rw (h.replayed, validate) (ap some (states_differ-same ch.state w))))

  check_root-none :
      (i : ℕ) (b : Block) (rest : Option ValidateError)
      → (if not (equal b.tx_root (merkle_root b.transactions))
          then some (root_mismatch i)
          else rest)
        ≡ none
      → (b.tx_root ≡ merkle_root b.transactions) × (rest ≡ none)
  check_root-none i b rest h =
      (ground (arith, equal_iff b.tx_root (merkle_root b.transactions)), ground arith)

  check_bodies-none : (i : ℕ) (bs : List Block) → check_bodies i bs ≡ none → All IsSealed bs
  unfolding check_bodies
  check_bodies-none i [] h = tt
  check_bodies-none i (b ∷ bs) h =
      let ih = check_bodies-none (i + 1) bs in
      elim (Bool-cases (equal b.proposer [])) [
        | inl unnamed ↦
            let (m, after) = check_root-none i b _ (rw (unnamed, check_bodies) at h) in
            ((λ n. absurd (n ((equal_iff b.proposer []).0 unnamed)), m), ih after)
        | inr named ↦
            let h1 = rw (named, check_bodies) at h in
            elim (Option-cases (verify_block_signature b)) [
              | inl signed ↦
                  let (m, after) = check_root-none i b _ (rw (signed, check_bodies) at h1) in
                  ((λ _. signed, m), ih after)
              | inr (e, bad) ↦ let h2 = rw (bad, check_bodies) at h1 in cc
            ]
      ]

  check_links-none : (i : ℕ) (bs : List Block) → check_links i bs ≡ none → Linked bs
  unfolding check_links
  check_links-none i [] h = tt
  check_links-none i (a ∷ []) h = tt
  check_links-none i (a ∷ b ∷ bs) h =
      let hash = equal_iff (block_hash a) b.previous_hash in
      let height = eqb_ℤ_iff (add_i64 a.height (pos 1)) b.height in
      let next : check_links (i + 1) (b ∷ bs) ≡ none = ground arith in
      ((ground (arith, hash), sym (ground (arith, height))), check_links-none (i + 1) (b ∷ bs) next)

  -- A chain that `validate` accepts is linked and sealed block by block, and replays without a panic
  -- to a ledger that means what the chain's own does: the same balance and next nonce at every address,
  -- and the same bond between any two. The genesis allocations are maps.
  pub validate_sound :
      (ch : Chain)
      → All (λ b. IsMap b.alloc) ch.blocks
      → validate ch ≡ some none
      → Linked ch.blocks
        × All IsSealed ch.blocks
        × (s : State) × (replay_blocks ch.blocks ≡ some (ok s))
        × (view s ≡ view ch.state)
  unfolding validate
  validate_sound ch m h = elim (Option-cases (check_bodies 0 ch.blocks)) [
    | inr (e, bad) ↦ let h1 = rw (bad, validate) at h in cc
    | inl bodies ↦
        let h1 = rw (bodies, validate) at h in
        elim (Option-cases (check_links 0 ch.blocks)) [
          | inr (e, bad) ↦ let h2 = rw (bad, validate) at h1 in cc
          | inl links ↦
              let (r, run, h3) =
                >>=-eq-some (replay_blocks ch.blocks) _ (rw (links, validate) at h1) in
              elim (Result-cases r) [
                | inr (e, bad) ↦ let h4 = rw (bad, validate) at h3 in cc
                | inl (s, good) ↦
                    let h4 = rw (good, validate) at h3 in
                    let replayed = run ∙ ap some good in
                    let (w, filled) = replayed-IsWellFormed ch.blocks s m replayed in
                    (
                      check_links-none 0 ch.blocks links,
                      check_bodies-none 0 ch.blocks bodies,
                      s,
                      replayed,
                      states_differ-view s ch.state w filled (ground arith),
                    )
              ]
        ]
  ]
