-- ===== src/Tests/Fixtures.antt =====
-- Test data: a toy cryptography that meets its laws, two accounts and a signed transfer.
use dylchain.Base.{ℕ, zero, suc, ◌%◌, ◌≡◌, refl, ap, [], ◌∷◌, ◌++◌, arith, length}
use dylchain.Bytes.{Bytes, equal, equal_refl, IsBytes}
use dylchain.Crypto.{Crypto, CryptoLaws}
use dylchain.Transaction.{Transaction, put_u64, signable_bytes}
use dylchain.State.{State}
use dylchain.Base.{Option, none, some}
use dylchain.Block.{Block}
use dylchain.Seal.{genesis_block}
use dylchain.Ledger.{genesis_state}
use dylchain.Chain.{Chain, ChainError, commit_block}
use dylchain.Validators.{Validator, new_validator}
use dylchain.Mempool.{Mempool}
use dylchain.Cluster.{Cluster}
use dylchain.Proposal.{propose}
use dylchain.Base.Int.{pos}
use dylchain.Address.{derive_address}
use dylchain.Address.Hex.{encode_to_string, hex_digit}

-- The first 32 bytes, filled up with zeros.
abbrev pub fit : ℕ → Bytes → Bytes
fit zero bs = []
fit (suc n) [] = 0 ∷ fit n []
fit (suc n) (b ∷ bs) = b % 256 ∷ fit n bs

-- A signature is the public key and the message.
instance abbrev pub toy : Crypto
toy = record {
  sha256 = fit 32;
  public_key = fit 32;
  sign = λ k m. fit 32 k ++ m;
  verify = λ p m s. equal s (p ++ m);
  marshal_transaction = λ t. t.from ++ t.to ++ put_u64 t.amount ++ t.signature;
  marshal_block = λ b. b.tx_root ++ b.previous_hash ++ b.proposer;
}

length-fit : (n : ℕ) (bs : Bytes) → length (fit n bs) ≡ n
length-fit zero bs = refl
length-fit (suc n) [] = ap suc (length-fit n [])
length-fit (suc n) (b ∷ bs) = ap suc (length-fit n bs)

fit-IsBytes : (n : ℕ) (bs : Bytes) → IsBytes (fit n bs)
fit-IsBytes zero bs = tt
fit-IsBytes (suc n) [] = (omega arith, fit-IsBytes n [])
fit-IsBytes (suc n) (b ∷ bs) = (omega arith, fit-IsBytes n bs)

pub toy_laws : CryptoLaws toy
toy_laws = record {
  length-sha256 = λ m. length-fit 32 m;
  sha256-IsBytes = λ m. fit-IsBytes 32 m;
  length-public_key = λ k. length-fit 32 k;
  public_key-IsBytes = λ k. fit-IsBytes 32 k;
  verify-sign = λ k m. equal_refl (fit 32 k ++ m);
}

abbrev pub alice_key : Bytes
alice_key = 1 ∷ []

abbrev pub bob_key : Bytes
bob_key = 0xab ∷ []

unfoldable pub alice : Bytes
unfolding derive_address encode_to_string hex_digit
alice = derive_address (fit 32 alice_key)

unfoldable pub bob : Bytes
unfolding derive_address encode_to_string hex_digit
bob = derive_address (fit 32 bob_key)

unfoldable unsigned : Transaction
unfolding alice bob
unsigned = record { kind = []; from = alice; to = bob; amount = 5; nonce = pos 0; signature = [] }

-- Alice pays Bob five.
unfoldable pub signed_transfer : Transaction
unfolding unsigned signable_bytes put_u64
signed_transfer = record unsigned { signature = toy.sign alice_key (signable_bytes unsigned) }

-- A ledger on which Alice can pay.
unfoldable pub rich : State
unfolding alice
rich = record {
  balances = (alice, 100) ∷ [];
  nonces = [];
  delegations = [];
  validator_base = (alice, 10) ∷ [];
}

unfoldable pub genesis : Block
unfolding alice genesis_block
genesis = genesis_block ((alice, 100) ∷ []) ((alice, 10) ∷ []) (pos 0)

unfoldable pub young : Chain
unfolding genesis genesis_state
young = record { blocks = genesis ∷ []; state = genesis_state genesis }

unfoldable pub alice_validator : Validator
unfolding new_validator
alice_validator = new_validator alice_key 10

unfoldable pub queue : Mempool
unfolding signed_transfer
queue = record { txs = signed_transfer ∷ [] }

-- The block that Alice proposes, and the queue that she leaves.
abbrev or_genesis : Option (Block × Mempool) → Block × Mempool
or_genesis none = (genesis, queue)
or_genesis (some p) = p

unfoldable pub proposal : Block × Mempool
unfolding propose young queue alice_validator
proposal = or_genesis (propose young queue (pos 0) alice_validator (pos 1) (pos 5))

abbrev or_young : Option (Chain × Option ChainError) → Chain
or_young none = young
or_young (some (ch, e)) = ch

-- The chain with that block.
unfoldable pub grown : Chain
unfolding proposal commit_block
grown = or_young (commit_block young proposal.0)

-- A live view that has shown nothing.
abbrev pub blank : Cluster
blank = record {
  genesis = pos 0;
  height = pos 0;
  total_supply = 100;
  recent = [];
  txs = [];
  proposed = [];
  slashed = [];
  halts = [];
  balances = [];
  nonces = [];
  delegations = [];
  full_blocks = [];
  subs = [];
  on_commit = none;
}
