-- ===== src/Block.antt =====
-- chain/block.go: the block record. Its hash and signature stand in `Seal`.
use dylchain.Base.{ℕ, List}
use dylchain.Base.Int.{ℤ}
use dylchain.Bytes.{Bytes}
use dylchain.Dict.{Dict}
use dylchain.Transaction.{Transaction}

pub record Block : Type 0 where
  pub transactions : List Transaction
  pub tx_root : Bytes
  pub previous_hash : Bytes
  pub created_at : ℤ
  pub height : ℤ
  pub alloc : Dict ℕ
  pub validators : Dict ℕ
  pub proposer : Bytes
  pub signature : Bytes
