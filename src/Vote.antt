-- ===== src/Vote.antt =====
-- chain/consensus.go and chain/evidence.go: signed votes, and two of them that show equivocation.
use dylchain.Base.{
  ℕ, ◌≡◌, refl, ◌≢◌, ◌↔◌, Bool, true, false, not, ◌&&◌, ◌++◌, arith, append-injective, ok, err,
}
use dylchain.Base.Int.{ℤ, eqb_ℤ, to_u64, eqb_ℤ_iff, IsI64, to_u64-injective, to_u64-lt}
use dylchain.Bytes.{Bytes, equal, equal_iff}
use dylchain.Address.{pub_key_from_address}
use dylchain.Address.Keys.{pub_key-derive}
use dylchain.Crypto.{Crypto, CryptoLaws}
use dylchain.Transaction.{put_u64}
use dylchain.Transaction.Signable.{put_u64-injective}
use dylchain.Validators.{Validator, new_validator}

pub record Vote : Type 0 where
  pub height : ℤ
  pub block_hash : Bytes
  pub voter : Bytes
  pub signature : Bytes

pub record Evidence : Type 0 where
  pub offender : Bytes
  pub height : ℤ
  pub vote_a : Vote
  pub vote_b : Vote

unfoldable pub vote_signable_bytes : ℤ → Bytes → Bytes
unfolding put_u64
vote_signable_bytes height block_hash = put_u64 (to_u64 height) ++ block_hash

module _ ⦃c : Crypto⦄ where
  unfoldable pub new_vote : ℤ → Bytes → Validator → Vote
  new_vote height block_hash v = record {
    height = height;
    block_hash = block_hash;
    voter = v.address;
    signature = c.sign v.priv_key (vote_signable_bytes height block_hash);
  }

  unfoldable pub verify_vote : Vote → Bool
  verify_vote v = elim (pub_key_from_address v.voter) [
    | err e ↦ false
    | ok key ↦ c.verify key (vote_signable_bytes v.height v.block_hash) v.signature
  ]

  unfoldable pub verify_evidence : Evidence → Bool
  unfolding verify_vote
  verify_evidence e =
      equal e.vote_a.voter e.offender
      && equal e.vote_b.voter e.offender
      && eqb_ℤ e.vote_a.height e.height
      && eqb_ℤ e.vote_b.height e.height
      && not (equal e.vote_a.block_hash e.vote_b.block_hash)
      && verify_vote e.vote_a
      && verify_vote e.vote_b

  -- Evidence verifies exactly when its two votes are the offender's, at its height, for different
  -- blocks, and each is validly signed.
  pub verify_evidence_iff :
      (e : Evidence)
      → (verify_evidence e ≡ true) ↔ (
          (e.vote_a.voter ≡ e.offender)
          × (e.vote_b.voter ≡ e.offender)
          × (e.vote_a.height ≡ e.height)
          × (e.vote_b.height ≡ e.height)
          × (e.vote_a.block_hash ≢ e.vote_b.block_hash)
          × (verify_vote e.vote_a ≡ true)
          × (verify_vote e.vote_b ≡ true))
  unfolding verify_evidence
  verify_evidence_iff e =
      let va = equal_iff e.vote_a.voter e.offender in
      let vb = equal_iff e.vote_b.voter e.offender in
      let ha = eqb_ℤ_iff e.vote_a.height e.height in
      let hb = eqb_ℤ_iff e.vote_b.height e.height in
      let d = equal_iff e.vote_a.block_hash e.vote_b.block_hash in ground (arith, va, vb, ha, hb, d)

  -- Under the laws of the cryptography, a vote that a validator casts verifies.
  pub verify_vote-new :
      CryptoLaws c
      → (height : ℤ) (block_hash priv : Bytes) (stake : ℕ)
      → verify_vote (new_vote height block_hash (new_validator priv stake)) ≡ true
  unfolding verify_vote new_vote new_validator
  verify_vote-new laws height block_hash priv stake =
      let key =
        pub_key-derive (c.public_key priv) (laws.public_key-IsBytes priv)
          (laws.length-public_key priv) in
      rw (key, verify_vote) (laws.verify-sign priv (vote_signable_bytes height block_hash))

-- Two votes with the same signed bytes are for the same height and the same block hash, where the
-- heights are of the machine's 64-bit integers.
pub vote_bytes-injective :
    (h k : ℤ) (a b : Bytes)
    → IsI64 h
    → IsI64 k
    → vote_signable_bytes h a ≡ vote_signable_bytes k b
    → (h ≡ k) × (a ≡ b)
unfolding vote_signable_bytes put_u64
vote_bytes-injective h k a b hh hk e =
    let (p, q) = append-injective (put_u64 (to_u64 h)) a (put_u64 (to_u64 k)) b refl e in
    (
      to_u64-injective h k hh hk
          (put_u64-injective (to_u64 h) (to_u64 k) (to_u64-lt h) (to_u64-lt k) p),
      q,
    )
