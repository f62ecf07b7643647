-- ===== src/Merkle/Layer.antt =====
-- One layer of the Merkle tree of chain/transaction.go, and the walk over the layers.
use dylchain.Base.{ℕ, zero, suc, ◌+◌, ◌/◌, ◌≤◌, ◌<◌, ◌≡◌, refl, List, [], ◌∷◌, arith, length}
use dylchain.Bytes.{Bytes}
use dylchain.Crypto.{Crypto}
use dylchain.Merkle.{node_hash, next_layer, walk_tree}

module _ ⦃c : Crypto⦄ where
  -- `next_layer` as one recursion: a last element without a partner is its own partner.
  pub next_layer-pair :
      (l r : Bytes) (layer : List Bytes)
      → next_layer (l ∷ r ∷ layer) ≡ node_hash l r ∷ next_layer layer
  unfolding next_layer
  next_layer-pair l r [] = ground arith
  next_layer-pair l r (x ∷ layer) = ground arith

  pub next_layer-one : (l : Bytes) → next_layer (l ∷ []) ≡ node_hash l l ∷ []
  unfolding next_layer
  next_layer-one l = refl

  pub next_layer-nil : next_layer [] ≡ []
  unfolding next_layer
  next_layer-nil = refl

  pub length-next_layer : (layer : List Bytes) → length (next_layer layer) ≡ (length layer + 1) / 2
  length-next_layer [] = rw next_layer-nil
  length-next_layer (l ∷ []) = rw next_layer-one
  length-next_layer (l ∷ r ∷ layer) =
      rw (next_layer-pair l r layer) (omega (arith, length-next_layer layer))

  -- With the length of the layer as fuel, the walk ends at a single hash.
  pub walk_tree-single :
      (fuel : ℕ) (layer : List Bytes)
      → length layer ≤ fuel
      → 0 < length layer
      → length (walk_tree fuel layer) ≡ 1
  unfolding walk_tree
  walk_tree-single zero layer h p = omega arith
  walk_tree-single (suc fuel) layer h p =
      ground (arith, length-next_layer layer, walk_tree-single fuel (next_layer layer))
