-- ===== src/Seal.antt =====
-- chain/block.go: the header hash, the proposer's signature over it, and the genesis block.
use dylchain.Base.{ℕ, ◌≡◌, refl, not, Option, none, some, [], if◌then◌else◌, ok, err}
use dylchain.Base.Int.{ℤ, pos}
use dylchain.Bytes.{Bytes}
use dylchain.Dict.{Dict}
use dylchain.Address.{AddressError, pub_key_from_address}
use dylchain.Crypto.{Crypto, CryptoLaws}
use dylchain.Block.{Block}
use dylchain.Merkle.{merkle_root}

pub data SealError : Type 0 where
  bad_proposer_address : AddressError → SealError
  bad_block_signature : SealError

-- The copy that `Block.Hash` marshals: every field but the transactions and the signature.
unfoldable pub header : Block → Block
header b = record b { transactions = []; signature = [] }

module _ ⦃c : Crypto⦄ where
  -- Block.Hash
  unfoldable pub block_hash : Block → Bytes
  unfolding header
  block_hash b = c.sha256 (c.marshal_block (header b))

  -- Block.sign, with a private key
  unfoldable pub sign_block : Block → Bytes → Bytes
  sign_block b priv = c.sign priv (block_hash b)

  -- `none` is a nil error.
  unfoldable pub verify_block_signature : Block → Option SealError
  verify_block_signature b = elim (pub_key_from_address b.proposer) [
    | err e ↦ some (bad_proposer_address e)
    | ok key ↦
        if not (c.verify key (block_hash b) b.signature) then some bad_block_signature else none
  ]

  -- The time is the caller's clock.
  unfoldable pub genesis_block : Dict ℕ → Dict ℕ → ℤ → Block
  genesis_block alloc val_base now = record {
    transactions = [];
    tx_root = merkle_root [];
    previous_hash = [];
    created_at = now;
    height = pos 0;
    alloc = alloc;
    validators = val_base;
    proposer = [];
    signature = [];
  }

  -- Neither the body nor the signature is in the hash.
  pub block_hash-sealed :
      (b : Block) (s : Bytes) → block_hash (record b { signature = s }) ≡ block_hash b
  unfolding block_hash
  block_hash-sealed b s = refl

  -- Under the laws of the cryptography, a block signed with the private key whose public key its
  -- proposer's address yields passes `verify_block_signature`.
  pub verify_block_signature-sign :
      CryptoLaws c
      → (b : Block) (priv : Bytes) → pub_key_from_address b.proposer ≡ ok (c.public_key priv)
      → verify_block_signature (record b { signature = sign_block b priv }) ≡ none
  unfolding verify_block_signature sign_block block_hash
  verify_block_signature-sign laws b priv e =
      rw (e, verify_block_signature)
        (rw (laws.verify-sign priv (c.sha256 (c.marshal_block (header b)))))
