-- ===== src/Merkle/Binding.antt =====
-- What the Merkle root of chain/transaction.go says of the list that it is made from.
use dylchain.Base.{
  ℕ, zero, suc, ◌≤◌, ◌<◌, ◌≡◌, refl, sym, ap, ◌∙◌, ◌⊎◌, inl, inr, List, [], ◌∷◌, ◌++◌, map, arith,
  leb, Bool-cases, length, All, length-map, append-injective,
}
use dylchain.Bytes.{Bytes}
use dylchain.Crypto.{Crypto, CryptoLaws, Collision}
use dylchain.Transaction.{Transaction}
use dylchain.Merkle.{at, hash, node_hash, next_layer, walk_tree, merkle_root}
use dylchain.Merkle.Layer.{next_layer-pair, next_layer-one, next_layer-nil, length-next_layer}
use dylchain.Merkle.Soundness.{digest_cases}

-- Every hash of the layer has the length of a digest.
abbrev AreDigests : List Bytes → Type 0
AreDigests = All (λ h. length h ≡ 32)

cons_injective :
    (x y : Bytes) (xs ys : List Bytes) → Path (List Bytes) (x ∷ xs) (y ∷ ys) → (x ≡ y) × (xs ≡ ys)
cons_injective x y xs ys e = (ground (arith, e), ground (arith, e))

module _ ⦃c : Crypto⦄ where
  -- Two lists of transactions with the same hashes are encoded the same, but for a collision.
  map-hash-injective :
      (xs ys : List Transaction)
      → map hash xs ≡ map hash ys
      → (map c.marshal_transaction xs ≡ map c.marshal_transaction ys) ⊎ Collision c
  map-hash-injective [] [] e = inl refl
  map-hash-injective [] (y ∷ ys) e = absurd (ground (arith, e))
  map-hash-injective (x ∷ xs) [] e = absurd (ground (arith, e))
  map-hash-injective (x ∷ xs) (y ∷ ys) e =
      let (first, rest) = cons_injective (hash x) (hash y) (map hash xs) (map hash ys) e in
      let a = c.marshal_transaction x in
      let b = c.marshal_transaction y in
      elim (digest_cases (0 ∷ a) (0 ∷ b) (unfold hash in first)) [
        | inr hit ↦ inr hit
        | inl same ↦ elim (map-hash-injective xs ys rest) [
          | inr hit ↦ inr hit
          | inl below ↦ let here : a ≡ b = ground (arith, same) in inl (λ i. here i ∷ below i)
        ]
      ]

  at-single :
      (xs ys : List Bytes) → length xs ≡ length ys → length xs ≤ 1 → at xs 0 ≡ at ys 0 → xs ≡ ys
  at-single [] [] l s e = refl
  at-single [] (y ∷ ys) l s e = absurd (omega arith)
  at-single (x ∷ xs) [] l s e = absurd (omega arith)
  at-single (x ∷ []) (y ∷ []) l s e = λ i. e i ∷ []
  at-single (x ∷ []) (y ∷ z ∷ ys) l s e = absurd (omega arith)
  at-single (x ∷ w ∷ xs) ys l s e = absurd (omega arith)

module _ ⦃c : Crypto⦄ (laws : CryptoLaws c) where
  -- A node is made from one pair of digests only, but for a collision.
  node_hash-injective :
      (a b x y : Bytes)
      → length a ≡ 32
      → length x ≡ 32
      → node_hash a b ≡ node_hash x y
      → ((a ≡ x) × (b ≡ y)) ⊎ Collision c
  unfolding node_hash
  node_hash-injective a b x y la lx e = elim (digest_cases (1 ∷ (a ++ b)) (1 ∷ (x ++ y)) e) [
    | inr hit ↦ inr hit
    | inl same ↦
        let parts : a ++ b ≡ x ++ y = ground (arith, same) in
        inl (append-injective a b x y (la ∙ sym lx) parts)
  ]

  next_layer-AreDigests : (xs : List Bytes) → AreDigests (next_layer xs)
  unfolding node_hash
  next_layer-AreDigests [] = rw next_layer-nil tt
  next_layer-AreDigests (l ∷ []) = rw (next_layer-one l) (laws.length-sha256 _, tt)
  next_layer-AreDigests (l ∷ r ∷ xs) =
      rw (next_layer-pair l r xs) (laws.length-sha256 _, next_layer-AreDigests xs)

  -- One layer is made from one layer of its length only, but for a collision.
  next_layer-injective :
      (xs ys : List Bytes)
      → length xs ≡ length ys
      → AreDigests xs
      → AreDigests ys
      → next_layer xs ≡ next_layer ys
      → (xs ≡ ys) ⊎ Collision c
  next_layer-injective [] [] l dx dy e = inl refl
  next_layer-injective [] (y ∷ ys) l dx dy e = absurd (omega arith)
  next_layer-injective (x ∷ xs) [] l dx dy e = absurd (omega arith)
  next_layer-injective (x ∷ []) (y ∷ []) l dx dy e =
      let e' = sym (next_layer-one x) ∙ e ∙ next_layer-one y in
      let (same, _) = cons_injective (node_hash x x) (node_hash y y) [] [] e' in
      elim (node_hash-injective x x y y dx.0 dy.0 same) [
        | inl both ↦ inl (λ i. both.0 i ∷ [])
        | inr hit ↦ inr hit
      ]
  next_layer-injective (x ∷ []) (y ∷ z ∷ ys) l dx dy e = absurd (omega arith)
  next_layer-injective (x ∷ w ∷ xs) (y ∷ []) l dx dy e = absurd (omega arith)
  next_layer-injective (x ∷ w ∷ xs) (y ∷ z ∷ ys) l dx dy e =
      let e' = sym (next_layer-pair x w xs) ∙ e ∙ next_layer-pair y z ys in
      let (first, rest) =
        cons_injective (node_hash x w) (node_hash y z) (next_layer xs) (next_layer ys) e' in
      elim (next_layer-injective xs ys (omega arith) dx.1.1 dy.1.1 rest) [
        | inr hit ↦ inr hit
        | inl below ↦ elim (node_hash-injective x w y z dx.0 dy.0 first) [
          | inr hit ↦ inr hit
          | inl both ↦ inl (λ i. both.0 i ∷ both.1 i ∷ below i)
        ]
      ]

  walk_tree-injective :
      (fuel : ℕ) (xs ys : List Bytes)
      → length xs ≡ length ys
      → length xs ≤ fuel
      → AreDigests xs
      → AreDigests ys
      → at (walk_tree fuel xs) 0 ≡ at (walk_tree fuel ys) 0
      → (xs ≡ ys) ⊎ Collision c
  unfolding walk_tree
  walk_tree-injective zero xs ys l f dx dy e = inl (at-single xs ys l (omega arith) e)
  walk_tree-injective (suc fuel) xs ys l f dx dy e = elim (Bool-cases (leb (length xs) 1)) [
    | inl single ↦
        let e1 = rw single at e in
        let e2 = rw (rw l at single) at e1 in inl (at-single xs ys l (ground (arith, single)) e2)
    | inr more ↦
        let e1 = rw more at e in
        let e2 = rw (rw l at more) at e1 in
        let lx = length-next_layer xs in
        let ly = length-next_layer ys in
        let less : 1 < length xs = ground (arith, more) in
        elim (walk_tree-injective fuel (next_layer xs) (next_layer ys) (omega arith) (omega arith)
          (next_layer-AreDigests xs) (next_layer-AreDigests ys) e2) [
            | inl same ↦ next_layer-injective xs ys l dx dy same
            | inr hit ↦ inr hit
          ]
  ]

  map-hash-AreDigests : (xs : List Transaction) → AreDigests (map hash xs)
  unfolding hash
  map-hash-AreDigests [] = tt
  map-hash-AreDigests (x ∷ xs) = (laws.length-sha256 _, map-hash-AreDigests xs)

  -- Under the laws of the cryptography: two lists of as many transactions with the same root have the
  -- same encoded transactions in the same order, or two inputs that collide under SHA-256 are at hand.
  pub merkle_root-injective :
      (xs ys : List Transaction)
      → length xs ≡ length ys
      → merkle_root xs ≡ merkle_root ys
      → (map c.marshal_transaction xs ≡ map c.marshal_transaction ys) ⊎ Collision c
  unfolding merkle_root
  merkle_root-injective [] [] l e = inl refl
  merkle_root-injective [] (y ∷ ys) l e = absurd (omega arith)
  merkle_root-injective (x ∷ xs) [] l e = absurd (omega arith)
  merkle_root-injective (x ∷ xs) (y ∷ ys) l e =
      let lx = length-map hash (x ∷ xs) in
      let ly = length-map hash (y ∷ ys) in
      elim (walk_tree-injective (length (x ∷ xs)) (map hash (x ∷ xs)) (map hash (y ∷ ys))
        (lx ∙ l ∙ sym ly) (omega arith) (map-hash-AreDigests (x ∷ xs))
        (map-hash-AreDigests (y ∷ ys))
        (e ∙ ap (λ n. at (walk_tree n (map hash (y ∷ ys))) 0) (sym l))) [
          | inl same ↦ map-hash-injective (x ∷ xs) (y ∷ ys) same
          | inr hit ↦ inr hit
        ]
