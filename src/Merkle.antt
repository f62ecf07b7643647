-- ===== src/Merkle.antt =====
-- chain/transaction.go, the Merkle part: transaction hashes, the root and inclusion proofs.
pub mod Layer
pub mod Completeness
pub mod Soundness
pub mod Binding
use dylchain.Base.{
  ℕ, zero, suc, ◌+◌, ◌-◌, ◌*◌, ◌/◌, ◌%◌, ◌^◌, ◌≤◌, ◌<◌, ◌≡◌, refl, sym, ap, ◌∙◌, subst, ◌≢◌, ◌↔◌,
  ◌⊎◌, inl, inr, Bool, true, false, not, ◌&&◌, ◌||◌, Option, none, some, List, [], ◌∷◌, ◌++◌, map,
  append_assoc, append-nil, arith, ltb, leb, ◌==◌, if◌then◌else◌, ltb→lt, lt→ltb, leb→le, ==_iff,
  tests, Bool-cases, Option-cases, length, get_or, get_elem?, set, take, drop, replicate, All,
  length-append, length-set, take-append-drop, length-take, length-drop, length-map, >>=-eq-some,
  Result, ok, err, ◌>>=◌,
}
use dylchain.Base.Int.{ℤ, pos, negsuc}
use dylchain.Bytes.{Bytes, text, equal, equal_iff, equal_refl, IsBytes}
use dylchain.Crypto.{Crypto}
use dylchain.Transaction.{Transaction}

abbrev pub merkle_leaf_prefix : ℕ
merkle_leaf_prefix = 0

abbrev pub merkle_node_prefix : ℕ
merkle_node_prefix = 1

-- `layer[i]`; the loops below read inside the layer only.
abbrev pub at : List Bytes → ℕ → Bytes
at layer i = get_or layer i []

-- The start of `nextLayer`: an odd layer gets its last element a second time.
unfoldable pub pad : List Bytes → List Bytes
pad layer = if length layer % 2 == 0 then layer else layer ++ at layer (length layer - 1) ∷ []

-- The sibling that `merkleProof` records for one layer.
unfoldable pub sibling : List Bytes → ℕ → Bytes
sibling layer index =
    if not (length layer % 2 == 0) && index == length layer - 1
    then at layer index
    else if index % 2 == 0
    then at layer (index + 1)
    else at layer (index - 1)

-- `index % 2 == 0` and `index / 2` on an `int`: the division is towards zero.
unfoldable pub is_even : ℤ → Bool
is_even (pos n) = n % 2 == 0
is_even (negsuc k) = suc k % 2 == 0

unfoldable pub half : ℤ → ℤ
half (pos n) = pos (n / 2)
half (negsuc zero) = pos 0
half (negsuc (suc k)) = negsuc (k / 2)

module _ ⦃c : Crypto⦄ where
  open c use {sha256, marshal_transaction}

  -- Transaction.Hash
  unfoldable pub hash : Transaction → Bytes
  hash t = sha256 (merkle_leaf_prefix ∷ marshal_transaction t)

  unfoldable pub node_hash : Bytes → Bytes → Bytes
  node_hash l r = sha256 (merkle_node_prefix ∷ (l ++ r))

  -- The loop of `nextLayer`, over a padded layer.
  unfoldable pub hash_pairs : List Bytes → List Bytes
  hash_pairs (l ∷ r ∷ layer) = node_hash l r ∷ hash_pairs layer
  hash_pairs _ = []

  unfoldable pub next_layer : List Bytes → List Bytes
  unfolding pad hash_pairs
  next_layer layer = hash_pairs (pad layer)

  -- `walkTree`, on fuel: the length of the first layer is enough (`walk_tree-single`).
  unfoldable pub walk_tree : ℕ → List Bytes → List Bytes
  walk_tree zero layer = layer
  walk_tree (suc fuel) layer =
      let rest = walk_tree fuel (next_layer layer) in if leb (length layer) 1 then layer else rest

  unfoldable pub merkle_root : List Transaction → Bytes
  unfolding walk_tree
  merkle_root [] = replicate 32 0
  merkle_root (t ∷ txs) = at (walk_tree (length (t ∷ txs)) (map hash (t ∷ txs))) 0

  -- The loop of `merkleProof`, on the same fuel.
  unfoldable pub proof_path : ℕ → List Bytes → ℕ → List Bytes
  unfolding sibling
  proof_path zero layer index = []
  proof_path (suc fuel) layer index =
      let rest = proof_path fuel (next_layer layer) (index / 2) in
      if leb (length layer) 1 then [] else sibling layer index ∷ rest

  -- `none` is the error for an index outside the list.
  unfoldable pub merkle_proof : List Transaction → ℤ → Option (List Bytes)
  unfolding proof_path
  merkle_proof txs (negsuc k) = none
  merkle_proof txs (pos index) =
      if leb (length txs) index then none else some (proof_path (length txs) (map hash txs) index)

  -- The loop of `verifyMerkleProof`.
  unfoldable pub fold_proof : Bytes → ℤ → List Bytes → Bytes
  unfolding is_even half
  fold_proof current index [] = current
  fold_proof current index (s ∷ proof) =
      fold_proof (if is_even index then node_hash current s else node_hash s current) (half index)
        proof

  unfoldable pub verify_merkle_proof : Bytes → ℤ → List Bytes → Bytes → Bool
  unfolding fold_proof
  verify_merkle_proof leaf_hash index proof root = equal (fold_proof leaf_hash index proof) root
