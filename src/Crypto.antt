-- ===== src/Crypto.antt =====
-- What the chain takes from outside the repository: SHA-256, ed25519 and the JSON encodings that
-- are hashed (crypto/sha256, crypto/ed25519, encoding/json). The model is parametric in them.
use dylchain.Base.{◌≡◌, ◌≢◌, Bool, true, length}
use dylchain.Bytes.{Bytes, IsBytes}
use dylchain.Transaction.{Transaction}
use dylchain.Block.{Block}

pub record Crypto : Type 0 where
  -- the digest of a byte string
  pub sha256 : Bytes → Bytes
  -- the public half of a private key, signing with the private key, and the check of a signature
  pub public_key : Bytes → Bytes
  pub sign : Bytes → Bytes → Bytes
  pub verify : Bytes → Bytes → Bytes → Bool
  -- json.Marshal of a transaction and of a block
  pub marshal_transaction : Transaction → Bytes
  pub marshal_block : Block → Bytes

-- The documented behaviour that the code relies on.
pub record CryptoLaws (c : Crypto) : Type 0 where
  pub length-sha256 : (m : Bytes) → length (c.sha256 m) ≡ 32
  pub sha256-IsBytes : (m : Bytes) → IsBytes (c.sha256 m)
  pub length-public_key : (k : Bytes) → length (c.public_key k) ≡ 32
  pub public_key-IsBytes : (k : Bytes) → IsBytes (c.public_key k)
  pub verify-sign : (k m : Bytes) → c.verify (c.public_key k) m (c.sign k m) ≡ true

-- Two inputs with one digest.
abbrev pub Collision : Crypto → Type 0
Collision c = (x y : Bytes) × (x ≢ y) × (c.sha256 x ≡ c.sha256 y)
