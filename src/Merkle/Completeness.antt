-- ===== src/Merkle/Completeness.antt =====
-- Inclusion proofs of chain/transaction.go: `merkleProof` against `verifyMerkleProof`.
use dylchain.Base.{
  ℕ, zero, suc, ◌+◌, ◌-◌, ◌/◌, ◌%◌, ◌≤◌, ◌<◌, ◌≡◌, refl, sym, ap, ◌∙◌, true, false, some, List, [],
  ◌∷◌, map, arith, leb, ◌==◌, if◌then◌else◌, length, get_elem?, length-map,
}
use dylchain.Base.Int.{pos}
use dylchain.Bytes.{Bytes, equal_iff}
use dylchain.Crypto.{Crypto}
use dylchain.Transaction.{Transaction}
use dylchain.Merkle.{
  at, sibling, hash, node_hash, next_layer, walk_tree, merkle_root, proof_path, merkle_proof,
  fold_proof, verify_merkle_proof,
}
use dylchain.Merkle.Layer.{next_layer-pair, next_layer-one, length-next_layer}

module _ ⦃c : Crypto⦄ where
  -- One step of the verifier.
  abbrev step : Bytes → ℕ → Bytes → Bytes
  step x index s = if index % 2 == 0 then node_hash x s else node_hash s x

  at-suc-suc :
      (l r : Bytes) (layer : List Bytes) (i j : ℕ)
      → i ≡ suc (suc j)
      → at (l ∷ r ∷ layer) i ≡ at layer j
  at-suc-suc l r layer i j e = rw e

  sibling-pair :
      (l r : Bytes) (layer : List Bytes) (i : ℕ)
      → i < length layer
      → sibling (l ∷ r ∷ layer) (suc (suc i)) ≡ sibling layer i
  unfolding sibling
  sibling-pair l r layer zero h = ground (arith, at-suc-suc l r layer (2 + 1) 1)
  sibling-pair l r layer (suc i) h = ground (
    arith,
    at-suc-suc l r layer (suc (suc (suc i)) + 1) (suc i + 1),
    at-suc-suc l r layer (suc (suc (suc i)) - 1) (suc i - 1),
  )

  -- One step from a layer's entry gives the entry above it.
  step-sibling :
      (layer : List Bytes) (i : ℕ)
      → i < length layer
      → step (at layer i) i (sibling layer i) ≡ at (next_layer layer) (i / 2)
  unfolding sibling
  step-sibling [] i h = elim h [ ]
  step-sibling (x ∷ []) zero h = rw (next_layer-one x)
  step-sibling (x ∷ []) (suc i) h = absurd (omega arith)
  step-sibling (l ∷ r ∷ layer) zero h = rw (next_layer-pair l r layer) (ground arith)
  step-sibling (l ∷ r ∷ layer) (suc zero) h = rw (next_layer-pair l r layer) (ground arith)
  step-sibling (l ∷ r ∷ layer) (suc (suc i)) h =
      let ih = step-sibling layer i (omega arith) in
      let half : suc (suc i) / 2 ≡ suc (i / 2) = omega arith in
      let parity : suc (suc i) % 2 ≡ i % 2 = omega arith in
      rw (next_layer-pair l r layer, sibling-pair l r layer i (omega arith), half, parity) ih

  fold_proof-proof_path :
      (fuel : ℕ) (layer : List Bytes) (i : ℕ)
      → i < length layer
      → length layer ≤ fuel
      → fold_proof (at layer i) (pos i) (proof_path fuel layer i) ≡ at (walk_tree fuel layer) 0
  unfolding fold_proof proof_path walk_tree
  fold_proof-proof_path zero layer i h f = absurd (omega arith)
  fold_proof-proof_path (suc fuel) (x ∷ []) zero h f = refl
  fold_proof-proof_path (suc fuel) (x ∷ []) (suc i) h f = absurd (omega arith)
  fold_proof-proof_path (suc fuel) [] i h f = elim h [ ]
  fold_proof-proof_path (suc fuel) (l ∷ r ∷ layer) i h f =
      let ih =
        fold_proof-proof_path fuel (next_layer (l ∷ r ∷ layer)) (i / 2)
          (omega (arith, length-next_layer (l ∷ r ∷ layer)))
          (omega (arith, length-next_layer (l ∷ r ∷ layer))) in
      let more : leb (length (l ∷ r ∷ layer)) 1 ≡ false = ground arith in
      let above = proof_path fuel (next_layer (l ∷ r ∷ layer)) (i / 2) in
      rw more (ap (λ x. fold_proof x (pos (i / 2)) above) (step-sibling (l ∷ r ∷ layer) i h) ∙ ih)

  at-map-hash :
      (txs : List Transaction) (i : ℕ) (t : Transaction)
      → get_elem? txs i ≡ some t
      → at (map hash txs) i ≡ hash t
  at-map-hash [] i t e = cc
  at-map-hash (x ∷ txs) zero t e = ground arith
  at-map-hash (x ∷ txs) (suc i) t e = at-map-hash txs i t e

  get_elem?-lt :
      (txs : List Transaction) (i : ℕ) (t : Transaction) → get_elem? txs i ≡ some t → i < length txs
  get_elem?-lt [] i t e = cc
  get_elem?-lt (x ∷ txs) zero t e = omega arith
  get_elem?-lt (x ∷ txs) (suc i) t e = omega (arith, get_elem?-lt txs i t e)

  -- For every position of a list of transactions `merkle_proof` gives a proof, and the verifier
  -- accepts it for the transaction's hash, that index and the list's root.
  pub verify_merkle_proof_complete :
      (txs : List Transaction) (i : ℕ) (t : Transaction)
      → get_elem? txs i ≡ some t
      → (proof : List Bytes) × (merkle_proof txs (pos i) ≡ some proof)
        × (verify_merkle_proof (hash t) (pos i) proof (merkle_root txs) ≡ true)
  unfolding merkle_proof verify_merkle_proof merkle_root
  verify_merkle_proof_complete [] i t e = cc
  verify_merkle_proof_complete (x ∷ txs) i t e =
      let lt = get_elem?-lt (x ∷ txs) i t e in
      let len = length-map hash (x ∷ txs) in
      let proof = proof_path (length (x ∷ txs)) (map hash (x ∷ txs)) i in
      let path =
        fold_proof-proof_path (length (x ∷ txs)) (map hash (x ∷ txs)) i (omega arith)
          (omega arith) in
      let start = ap (λ h. fold_proof h (pos i) proof) (sym (at-map-hash (x ∷ txs) i t e)) in
      (proof, ground arith, (equal_iff _ _).1 (start ∙ path))
