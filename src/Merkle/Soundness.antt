-- ===== src/Merkle/Soundness.antt =====
-- What an inclusion proof accepted by `verifyMerkleProof` of chain/transaction.go shows.
use dylchain.Base.{
  ℕ, zero, suc, ◌<◌, ◌≡◌, refl, sym, ap, subst, ◌≢◌, ◌⊎◌, inl, inr, Bool, true, false, List, [],
  ◌∷◌, ◌++◌, map, arith, leb, if◌then◌else◌, Bool-cases, length, All, length-append, length-map,
  append-injective,
}
use dylchain.Base.Int.{ℤ}
use dylchain.Bytes.{Bytes, equal, equal_iff}
use dylchain.Crypto.{Crypto, CryptoLaws, Collision}
use dylchain.Transaction.{Transaction}
use dylchain.Merkle.{
  at, hash, node_hash, next_layer, walk_tree, merkle_root, fold_proof, verify_merkle_proof, is_even,
  half,
}
use dylchain.Merkle.Layer.{next_layer-pair, next_layer-one, next_layer-nil, walk_tree-single}

-- `t` stands somewhere in the list.
abbrev pub Occurs : Transaction → List Transaction → Type 0
Occurs t [] = ⊥
Occurs t (x ∷ txs) = (t ≡ x) ⊎ Occurs t txs

module _ ⦃c : Crypto⦄ where
  -- The hashes of all trees over the leaves.
  data Tree (txs : List Transaction) : Bytes → Type 0 where
    leaf : (t : Transaction) → Occurs t txs → Tree txs (hash t)
    node : {l r : Bytes} → Tree txs l → Tree txs r → Tree txs (node_hash l r)

  map-hash-Tree :
      (txs all : List Transaction)
      → ((t : Transaction) → Occurs t txs → Occurs t all)
      → All (Tree all) (map hash txs)
  map-hash-Tree [] all sub = tt
  map-hash-Tree (t ∷ txs) all sub =
      (leaf t (sub t (inl refl)), map-hash-Tree txs all (λ u o. sub u (inr o)))

  next_layer-Tree :
      (txs : List Transaction) (layer : List Bytes)
      → All (Tree txs) layer
      → All (Tree txs) (next_layer layer)
  next_layer-Tree txs [] h = rw next_layer-nil h
  next_layer-Tree txs (l ∷ []) h = rw (next_layer-one l) (node h.0 h.0, tt)
  next_layer-Tree txs (l ∷ r ∷ layer) h =
      rw (next_layer-pair l r layer) (node h.0 h.1.0, next_layer-Tree txs layer h.1.1)

  walk_tree-Tree :
      (txs : List Transaction) (fuel : ℕ) (layer : List Bytes)
      → All (Tree txs) layer
      → All (Tree txs) (walk_tree fuel layer)
  unfolding walk_tree
  walk_tree-Tree txs zero layer h = h
  walk_tree-Tree txs (suc fuel) layer h = elim (Bool-cases (leb (length layer) 1)) [
    | inl e ↦ rw e h
    | inr e ↦ rw e (walk_tree-Tree txs fuel (next_layer layer) (next_layer-Tree txs layer h))
  ]

  at-Tree :
      (txs : List Transaction) (layer : List Bytes)
      → 0 < length layer
      → All (Tree txs) layer
      → Tree txs (at layer 0)
  at-Tree txs [] p h = elim p [ ]
  at-Tree txs (x ∷ layer) p h = h.0

  merkle_root-Tree : (txs : List Transaction) → txs ≢ [] → Tree txs (merkle_root txs)
  unfolding merkle_root
  merkle_root-Tree [] h = absurd (h refl)
  merkle_root-Tree (t ∷ txs) h =
      let layer = map hash (t ∷ txs) in
      let len = length-map hash (t ∷ txs) in
      at-Tree (t ∷ txs) (walk_tree (length (t ∷ txs)) layer)
        (omega (arith, walk_tree-single (length (t ∷ txs)) layer (omega arith) (omega arith)))
        (walk_tree-Tree (t ∷ txs) (length (t ∷ txs)) layer
          (map-hash-Tree (t ∷ txs) (t ∷ txs) (λ u o. o)))

  -- What equal digests say.
  pub digest_cases : (x y : Bytes) → c.sha256 x ≡ c.sha256 y → (x ≡ y) ⊎ Collision c
  digest_cases x y e = elim (Bool-cases (equal x y)) [
    | inl same ↦ inl ((equal_iff x y).0 same)
    | inr differ ↦ inr (x, y, ground (arith, equal_iff x y), e)
  ]

module _ ⦃c : Crypto⦄ (laws : CryptoLaws c) where
  length-Tree : (txs : List Transaction) {r : Bytes} → Tree txs r → length r ≡ 32
  unfolding hash node_hash
  length-Tree txs (leaf t o) = laws.length-sha256 _
  length-Tree txs (node x y) = laws.length-sha256 _

  -- A node of the tree is hashed from two hashes of the tree.
  Tree-node_hash :
      (txs : List Transaction) (a b : Bytes) {r : Bytes}
      → Tree txs r
      → r ≡ node_hash a b
      → (length a ≡ 32) ⊎ (length b ≡ 32)
      → (Tree txs a × Tree txs b) ⊎ Collision c
  unfolding hash node_hash
  Tree-node_hash txs a b (leaf t o) e n = elim (digest_cases _ _ e) [
    | inl same ↦ absurd (ground arith)
    | inr hit ↦ inr hit
  ]
  Tree-node_hash txs a b (node {l = l} {r = r} tl tr) e n = elim (digest_cases _ _ e) [
    | inl same ↦
        let parts : l ++ r ≡ a ++ b = ground arith in
        let (p, q) =
          append-injective l r a b
            (omega (
              arith,
              length-Tree txs tl,
              length-Tree txs tr,
              ap length parts,
              length-append l r,
              length-append a b,
            ))
            parts in
        inl (subst (Tree txs) p tl, subst (Tree txs) q tr)
    | inr hit ↦ inr hit
  ]

  length-hash : (t : Transaction) → length (hash t) ≡ 32
  unfolding hash
  length-hash t = laws.length-sha256 _

  length-step : (b : Bool) (x s : Bytes) → length (if b then node_hash x s else node_hash s x) ≡ 32
  unfolding node_hash
  length-step true x s = laws.length-sha256 _
  length-step false x s = laws.length-sha256 _

  -- One step of the verifier, read downwards.
  Tree-step :
      (txs : List Transaction) (b : Bool) (x s : Bytes)
      → length x ≡ 32
      → Tree txs (if b then node_hash x s else node_hash s x)
      → Tree txs x ⊎ Collision c
  Tree-step txs true x s n t = elim (Tree-node_hash txs x s t refl (inl n)) [
    | inl both ↦ inl both.0
    | inr hit ↦ inr hit
  ]
  Tree-step txs false x s n t = elim (Tree-node_hash txs s x t refl (inr n)) [
    | inl both ↦ inl both.1
    | inr hit ↦ inr hit
  ]

  -- Folding a proof up to a hash of the tree starts at a hash of the tree.
  Tree-fold_proof :
      (txs : List Transaction) (x : Bytes) (index : ℤ) (proof : List Bytes)
      → length x ≡ 32
      → Tree txs (fold_proof x index proof)
      → Tree txs x ⊎ Collision c
  unfolding fold_proof
  Tree-fold_proof txs x index [] n t = inl t
  Tree-fold_proof txs x index (s ∷ proof) n t =
      elim (Tree-fold_proof txs (if is_even index then node_hash x s else node_hash s x)
        (half index) proof (length-step (is_even index) x s) t) [
          | inl up ↦ Tree-step txs (is_even index) x s n up
          | inr hit ↦ inr hit
        ]

  -- A transaction hash in the tree is the hash of one of its leaves: the prefixes keep a node from
  -- passing for a leaf.
  Tree-hash :
      (txs : List Transaction) (t : Transaction) {r : Bytes}
      → Tree txs r
      → r ≡ hash t
      → ((u : Transaction) × Occurs u txs × (hash u ≡ hash t)) ⊎ Collision c
  unfolding hash node_hash
  Tree-hash txs t (leaf u o) e = inl (u, o, e)
  Tree-hash txs t (node {l = l} {r = r} a b) e = elim (digest_cases _ _ e) [
    | inl same ↦ absurd (ground arith)
    | inr hit ↦ inr hit
  ]

  -- Under the laws of the cryptography: if the verifier accepts the hash of a transaction against
  -- the root of a non-empty block, at any index, negative ones included, and with any siblings, then
  -- some transaction of the block has that hash, or the proof exhibits two inputs that collide under
  -- SHA-256.
  pub verify_merkle_proof_sound :
      (txs : List Transaction) (t : Transaction) (index : ℤ) (proof : List Bytes)
      → txs ≢ []
      → verify_merkle_proof (hash t) index proof (merkle_root txs) ≡ true
      → ((u : Transaction) × Occurs u txs × (hash u ≡ hash t)) ⊎ Collision c
  unfolding verify_merkle_proof
  verify_merkle_proof_sound txs t index proof ne accepted =
      let up = (equal_iff (fold_proof (hash t) index proof) (merkle_root txs)).0 accepted in
      let top = subst (Tree txs) (sym up) (merkle_root-Tree txs ne) in
      elim (Tree-fold_proof txs (hash t) index proof (length-hash t) top) [
        | inl found ↦ Tree-hash txs t found refl
        | inr hit ↦ inr hit
      ]
