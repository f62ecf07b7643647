-- ===== src/Inclusion.antt =====
-- `Block.InclusionProof` of chain/block.go and `Cluster.InclusionProof` of chain/cluster.go.
use dylchain.Base.{
  ℕ, suc, ◌+◌, ◌≡◌, refl, sym, ap, ◌∙◌, ◌≢◌, inl, inr, true, false, not, Option, none, some, List,
  [], ◌∷◌, arith, ◌==◌, if◌then◌else◌, Bool-cases, length, get_elem?, ◌>>=◌,
}
use dylchain.Base.Int.{ℤ, pos, eqb_ℤ}
use dylchain.Bytes.{Bytes, equal, equal_iff, IsBytes}
use dylchain.Address.Hex.{encode_to_string, decode_string, decode-encode}
use dylchain.Crypto.{Crypto, CryptoLaws}
use dylchain.Transaction.{Transaction}
use dylchain.Block.{Block}
use dylchain.Merkle.{hash, merkle_proof, merkle_root, verify_merkle_proof}
use dylchain.Merkle.Completeness.{verify_merkle_proof_complete}
use dylchain.Merkle.Soundness.{Occurs}
use dylchain.Cluster.{Cluster}

-- The results of `InclusionProof`, where a transaction is found.
pub record Inclusion : Type 0 where
  pub leaf : Bytes
  pub index : ℕ
  pub siblings : List Bytes
  pub root : Bytes

-- The loop of the cluster's method: the first whole block at the height.
unfoldable pub block_at : ℤ → List Block → Option Block
block_at h [] = none
block_at h (b ∷ bs) = if eqb_ℤ b.height h then some b else block_at h bs

module _ ⦃c : Crypto⦄ where
  -- The loop of the block's method, from index `i`: the first transaction with the hash.
  unfoldable pub find_hash : Bytes → ℕ → List Transaction → Option (ℕ × Transaction)
  find_hash want i [] = none
  find_hash want i (tx ∷ txs) =
      if equal (hash tx) want then some (i, tx) else find_hash want (i + 1) txs

  unfoldable pub proof_at : Block → ℕ → Transaction → Option Inclusion
  proof_at b i tx = do
    siblings ← merkle_proof b.transactions (pos i)
    some (record { leaf = hash tx; index = i; siblings = siblings; root = b.tx_root })

  -- With the bytes that the hexadecimal text stands for.
  unfoldable pub proof_of : Block → Bytes → Option Inclusion
  unfolding find_hash proof_at
  proof_of b want =
      if not (length want == 32)
      then none
      else (do (i, tx) ← find_hash want 0 b.transactions; proof_at b i tx)

  unfoldable pub inclusion_proof : Block → Bytes → Option Inclusion
  unfolding proof_of
  inclusion_proof b tx_hash = do want ← decode_string tx_hash; proof_of b want

  unfoldable pub cluster_inclusion_proof : Cluster → ℤ → Bytes → Option Inclusion
  unfolding block_at inclusion_proof
  cluster_inclusion_proof k height tx_hash = do
    b ← block_at height k.full_blocks
    inclusion_proof b tx_hash

  digest_length : CryptoLaws c → (t : Transaction) → length (hash t) ≡ 32
  unfolding hash
  digest_length laws t = laws.length-sha256 _

  digest-IsBytes : CryptoLaws c → (t : Transaction) → IsBytes (hash t)
  unfolding hash
  digest-IsBytes laws t = laws.sha256-IsBytes _

  other_ne :
      (x t : Transaction) (want : Bytes) → equal (hash x) want ≡ false → t ≡ x → hash t ≢ want
  other_ne x t want other same e =
      let h = (equal_iff (hash x) want).1 (ap hash (sym same) ∙ e) in
      absurd (ground (arith, h, other))

  -- The hash found is that of the transaction at the index.
  find_hash-some :
      (want : Bytes) (i : ℕ) (txs : List Transaction)
      → (t : Transaction) → Occurs t txs
      → hash t ≡ want
      → (j : ℕ) × (u : Transaction) × (find_hash want i txs ≡ some (i + j, u))
        × (get_elem? txs j ≡ some u)
        × (hash u ≡ want)
  unfolding find_hash
  find_hash-some want i [] t o e = absurd o
  find_hash-some want i (x ∷ txs) t o e = elim (Bool-cases (equal (hash x) want)) [
    | inl here ↦
        let z : i ≡ i + 0 = omega arith in
        (0, x, rw here (ap (λ k. some (k, x)) z), refl, (equal_iff (hash x) want).0 here)
    | inr other ↦
        let (j, u, f, g, h) =
          find_hash-some want (i + 1) txs t
            (elim o [ inl same ↦ absurd (other_ne x t want other same e) | inr later ↦ later ]) e in
        let z : i + 1 + j ≡ i + suc j = omega arith in
        (suc j, u, rw other (f ∙ ap (λ k. some (k, u)) z), g, h)
  ]

  -- Under the laws of the cryptography: for every transaction of a block whose root is that of its
  -- transactions, asking for the hexadecimal text of its hash gives a proof for a leaf with that hash
  -- and the block's root, and the verifier accepts the proof.
  pub inclusion_proof_complete :
      CryptoLaws c
      → (b : Block) (t : Transaction) → Occurs t b.transactions
      → b.tx_root ≡ merkle_root b.transactions
      → (p : Inclusion) × (inclusion_proof b (encode_to_string (hash t)) ≡ some p)
        × (p.leaf ≡ hash t)
        × (p.root ≡ b.tx_root)
        × (verify_merkle_proof p.leaf (pos p.index) p.siblings p.root ≡ true)
  unfolding inclusion_proof proof_of proof_at
  inclusion_proof_complete laws b t o root =
      let want = hash t in
      let size : length want ≡ 32 = digest_length laws t in
      let (j, u, found, at_j, same) = find_hash-some want 0 b.transactions t o refl in
      let (siblings, made, accepted) = verify_merkle_proof_complete b.transactions j u at_j in
      let p : Inclusion = record {
        leaf = hash u;
        index = j;
        siblings = siblings;
        root = b.tx_root;
      } in
      let z : 0 + j ≡ j = omega arith in
      let asked : proof_of b want ≡ some p = rw (size, found, z, made, proof_of) refl in
      let read = decode-encode want (digest-IsBytes laws t) in
      (p, ap (λ o. o >>= (λ w. proof_of b w)) read ∙ asked, same, refl, rw root accepted)
