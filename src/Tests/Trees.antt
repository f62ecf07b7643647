-- ===== src/Tests/Trees.antt =====
-- Merkle proofs in a block of two transactions.
use dylchain.Base.{
  ◌≡◌, refl, ◌≢◌, ◌⊎◌, true, some, List, [], ◌∷◌, arith, length, map, replicate, ◌++◌,
}
use dylchain.Base.Int.{pos}
use dylchain.Bytes.{Bytes}
use dylchain.Crypto.{Collision}
use dylchain.Transaction.{Transaction}
use dylchain.Merkle.{hash, merkle_proof, merkle_root, verify_merkle_proof, walk_tree}
use dylchain.Merkle.Completeness.{verify_merkle_proof_complete}
use dylchain.Merkle.Soundness.{Occurs, verify_merkle_proof_sound}
use dylchain.Merkle.Binding.{merkle_root-injective}
use dylchain.Merkle.Layer.{walk_tree-single}
use dylchain.Tests.Fixtures.{toy, toy_laws, signed_transfer}

abbrev second : Transaction
second = record { kind = []; from = 1 ∷ []; to = 2 ∷ []; amount = 7; nonce = pos 0; signature = [] }

abbrev two : List Transaction
two = signed_transfer ∷ second ∷ []

verify_merkle_proof_complete_example :
    (proof : List Bytes) × (merkle_proof two (pos 1) ≡ some proof)
    × (verify_merkle_proof (hash second) (pos 1) proof (merkle_root two) ≡ true)
verify_merkle_proof_complete_example = verify_merkle_proof_complete two 1 second refl

two_ne : two ≢ []
two_ne e = cc

verify_merkle_proof_sound_example :
    ((u : Transaction) × Occurs u two × (hash u ≡ hash second)) ⊎ Collision toy
verify_merkle_proof_sound_example =
    verify_merkle_proof_sound toy_laws two second (pos 1) verify_merkle_proof_complete_example.0
      two_ne verify_merkle_proof_complete_example.2

-- The toy digest reads 32 bytes, and misses what this signature ends with.
abbrev second_forged : Transaction
second_forged = record second { signature = replicate 21 0 ++ 9 ∷ [] }

merkle_root-injective_example :
    (map toy.marshal_transaction (signed_transfer ∷ second ∷ [])
      ≡ map toy.marshal_transaction (signed_transfer ∷ second_forged ∷ []))
    ⊎ Collision toy
unfolding merkle_root hash dylchain.Transaction.put_u64
merkle_root-injective_example =
    merkle_root-injective toy_laws (signed_transfer ∷ second ∷ [])
      (signed_transfer ∷ second_forged ∷ []) refl refl

walk_tree-single_example : length (walk_tree 3 ((1 ∷ []) ∷ (2 ∷ []) ∷ (3 ∷ []) ∷ [])) ≡ 1
walk_tree-single_example =
    walk_tree-single 3 ((1 ∷ []) ∷ (2 ∷ []) ∷ (3 ∷ []) ∷ []) (omega arith) (omega arith)
