-- ===== src/Server/Requests.antt =====
-- What the handlers of cmd/dyld/main.go take and give. The decoding of JSON, of numbers and of a peer's
-- address is a parameter; what a response shows is a value, not its JSON.
use dylchain.Base.{ℕ, Bool, true, false, Option, some, List}
use dylchain.Base.Int.{ℤ}
use dylchain.Bytes.{Bytes}
use dylchain.Dict.{Dict}
use dylchain.Transaction.{Transaction}
use dylchain.Cluster.Gate.{SubmitError, mempool_full}
use dylchain.Network.{Network, Snapshot}
use dylchain.Server.{Server}

-- What the handlers use of `encoding/json`, `strconv` and `net`; `none` is an error.
pub record Decoders : Type 0 where
  pub decode_transaction : Bytes → Option Transaction
  pub decode_address : Bytes → Option Bytes
  pub decode_index : Bytes → Option ℤ
  pub parse_int : Bytes → Option ℤ
  pub split_host : Bytes → Option Bytes

pub data Method : Type 0 where
  get post options other : Method

pub record Request : Type 0 where
  pub method : Method
  pub remote_addr : Bytes
  pub body : Bytes
  -- the query's `address`, `height` and `hash`, empty where it has none
  pub address : Bytes
  pub height : Bytes
  pub tx_hash : Bytes

pub record AccountView : Type 0 where
  pub name : Bytes
  pub address : Bytes
  pub balance : ℕ

pub data Body (F : Type 0) : Type 0 where
  no_body : Body F
  complaint : Bytes → Body F
  refused : SubmitError → Body F
  funded : Bytes → ℕ → Body F
  account : Bytes → ℕ → ℤ → Option (Dict ℕ) → Body F
  -- height, leaf, index, siblings and root
  proof : ℤ → Bytes → ℕ → List Bytes → Bytes → Body F
  -- with the block reward and the faucet's grant
  state : Snapshot F → ℕ → ℕ → List AccountView → List AccountView → Body F

pub record Response (F : Type 0) : Type 0 where
  pub status : ℕ
  pub body : Body F

-- What a handler leaves and answers; `none` is a panic.
abbrev pub Reply : Type 0 → Type 0
Reply F = Option (Server F × Response F)

abbrev pub reject : {F : Type 0} → ℕ → Bytes → Server F → Reply F
reject status reason s = some (s, record { status = status; body = complaint reason })

abbrev pub is_get : Method → Bool
is_get get = true
is_get post = false
is_get options = false
is_get other = false

abbrev pub is_post : Method → Bool
is_post get = false
is_post post = true
is_post options = false
is_post other = false

abbrev pub is_full : SubmitError → Bool
is_full mempool_full = true
is_full e = false

abbrev pub with_network : {F : Type 0} → Network → Server F → Server F
with_network n s = record s { network = n }

-- What a handler does, at a time.
abbrev pub Handler : Type 0 → Type 0
Handler F = ℤ → Request → Server F → Reply F
